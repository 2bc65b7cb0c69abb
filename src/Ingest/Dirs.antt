-- ===== src/Ingest/Dirs.antt =====
-- The directories of a snapshot in internal/ingest/ingest.go: dirOf, and the groups of files by their directory.
pub mod Depth
use hf_ipfs.Prelude.{
  ℕ, Bool, true, false, not, ◌&&◌, List, [], ◌∷◌, ◌++◌, Option, none, some, reverse, Text, codes,
  text_eq, has_byte, is_empty, ◌==◌, if◌then◌else◌,
}
use hf_ipfs.Prelude.Table.{text_Eq, Eq, lookup, insert}
use hf_ipfs.Mapping.Entries.{FileManifest}
use hf_ipfs.Hfcache.Paths.Parts.{path_dir}
use hf_ipfs.Hfcache.Sorting.{sort_strings}

-- dirOf
unfoldable pub dir_of : Text → Text
dir_of rel = let d = path_dir rel in if text_eq d (codes ".") then [] else d

-- The map byDir: a key that is missing reads as no files.
abbrev pub ByDir : Type 0
ByDir = List (Text × List FileManifest)

unfoldable pub files_in : Text → ByDir → List FileManifest
files_in dir by_dir = elim (lookup dir by_dir) [ none ↦ [] | some fs ↦ fs ]

unfoldable pub add_file : FileManifest → ByDir → ByDir
add_file f by_dir = insert (dir_of f.path) (files_in (dir_of f.path) by_dir ++ f ∷ []) by_dir

-- The keys below a directory: `k != dir && dirOf(k) == dir`.
unfoldable pub keys_below : Text → ByDir → List Text
keys_below dir [] = []
keys_below dir ((k, fs) ∷ by_dir) =
    let rest = keys_below dir by_dir in
    if not (text_eq k dir) && text_eq (dir_of k) dir then k ∷ rest else rest

-- sort.Strings of them: its result is the one of the insertion sort.
unfoldable pub subs_of : Text → ByDir → List Text
subs_of dir by_dir = sort_strings (keys_below dir by_dir)
