-- ===== src/Ingest/Build.antt =====
-- buildTree, buildDir and addFileNocopy of internal/ingest/ingest.go.
--
-- The UnixFS libraries and the files on disk are the record `Dags`. Its state is what the DAG service has
-- stored; a failed call leaves behind what nothing refers to, and the model drops it. The directories are
-- built in a recursion on fuel, which is more than the length of the longest path.
pub mod Total
pub mod Lost
use hf_ipfs.Prelude.{
  ℕ, zero, suc, ◌-◌, ◌/◌, Bool, true, false, List, [], ◌∷◌, ◌++◌, Option, none, some, Text, codes,
  length, is_empty, ltb, if◌then◌else◌, Result, ok, err, ◌>>=◌,
}
use hf_ipfs.Prelude.Int64.{ℤ, pos, negsuc, add64}
use hf_ipfs.Prelude.Table.{text_Eq, lookup, insert}
use hf_ipfs.Mapping.Entries.{FileManifest}
use hf_ipfs.Hfcache.Paths.Parts.{path_base}
use hf_ipfs.Ingest.Dirs.{ByDir, add_file, files_in, subs_of}

pub data BuildError : Type 0 where
  no_source open_failed stat_failed layout_failed no_directory missing_leaf link_failed not_built
        not_added out_of_fuel :
      BuildError

pub record Dags : Type 1 where
  pub Node : Type 0
  pub Directory : Type 0
  pub Stored : Type 0
  pub opens : Text → Bool
  pub size_of : Text → Option ℤ
  -- The chunks and the balanced layout of the file at a path
  pub layout : Stored → Text → Option (Node × Stored)
  pub new_directory : Stored → Option Directory
  pub add_child : Stored → Directory → Text → Node → Option (Directory × Stored)
  pub get_node : Directory → Option Node
  pub add : Stored → Node → Option Stored

abbrev pub or_fail {ℓ} : {A : Type ℓ} → BuildError → Option A → Result BuildError A
or_fail e none = err e
or_fail e (some a) = ok a

-- `int((sz + chunk - 1) / chunk)` behind `sz > 0`, where `chunk` is positive.
unfoldable pub quotient : ℤ → ℕ → ℤ
quotient (pos n) chunk = pos (n / chunk)
quotient (negsuc n) chunk = elim (suc n / chunk) [ zero ↦ pos 0 | suc q ↦ negsuc q ]

unfoldable pub chunk_count : ℕ → ℤ → ℤ
chunk_count chunk (negsuc n) = pos 0
chunk_count chunk (pos n) =
    if ltb 0 n then quotient (add64 (add64 (pos n) (pos chunk)) (negsuc 0)) chunk else pos 0

module _ (D : Dags) where
  abbrev pub Built : Type 0
  Built = Result BuildError (D.Node × D.Stored)

  -- addFileNocopy
  unfoldable pub add_file_nocopy :
      ℕ → D.Stored → FileManifest → Result BuildError (ℤ × D.Node × D.Stored)
  add_file_nocopy chunk st f =
      if is_empty f.src_path
      then err no_source
      else if D.opens f.src_path
      then (or_fail stat_failed (D.size_of f.src_path) >>= λ size.
          or_fail layout_failed (D.layout st f.src_path) >>= λ (root, after).
          ok (chunk_count chunk size, root, after))
      else err open_failed

  -- The end of buildDir: GetNode and DAG.Add.
  unfoldable pub store_directory : D.Directory × D.Stored → Built
  store_directory (d, st) = or_fail not_built (D.get_node d) >>= λ root.
      or_fail not_added (D.add st root) >>= λ after. ok (root, after)

  module _ (by_dir : ByDir) (leaves : List (Text × D.Node)) where
    -- The loop over the subdirectories, with the visit of one.
    unfoldable pub link_subs :
        (Text → D.Stored → Built)
        → List Text
        → D.Directory × D.Stored
        → Result BuildError (D.Directory × D.Stored)
    link_subs visit [] at = ok at
    link_subs visit (sub ∷ subs) (d, st) = visit sub st >>= λ (child, after).
        or_fail link_failed (D.add_child after d (path_base sub) child) >>= link_subs visit subs

    -- The loop over the files.
    unfoldable pub link_files :
        List FileManifest → D.Directory × D.Stored → Result BuildError (D.Directory × D.Stored)
    link_files [] at = ok at
    link_files (f ∷ fs) (d, st) = or_fail missing_leaf (lookup f.path leaves) >>= λ leaf.
        or_fail link_failed (D.add_child st d (path_base f.path) leaf) >>= link_files fs

    -- buildDir
    unfoldable pub build_dir : ℕ → Text → D.Stored → Built
    build_dir zero dir st = err out_of_fuel
    build_dir (suc n) dir st = or_fail no_directory (D.new_directory st) >>= λ d.
        link_subs (build_dir n) (subs_of dir by_dir) (d, st)
        >>= link_files (files_in dir by_dir)
        >>= store_directory

  -- The fuel of the directories.
  unfoldable pub longest : ByDir → ℕ
  longest [] = 0
  longest ((k, fs) ∷ by_dir) =
      let rest = longest by_dir in if ltb rest (length k) then length k else rest

  -- The loop of buildTree, with leaves, byDir, chunks and what is stored.
  unfoldable pub add_files :
      ℕ
      → List FileManifest
      → List (Text × D.Node) × ByDir × ℤ × D.Stored
      → Result BuildError (List (Text × D.Node) × ByDir × ℤ × D.Stored)
  add_files chunk [] at = ok at
  add_files chunk (f ∷ fs) (leaves, by_dir, chunks, st) =
      add_file_nocopy chunk st f >>= λ (n, leaf, after).
      add_files chunk fs (insert f.path leaf leaves, add_file f by_dir, add64 chunks n, after)

  -- buildTree
  unfoldable pub build_root :
      List (Text × D.Node) × ByDir × ℤ × D.Stored → Result BuildError (ℤ × D.Node × D.Stored)
  build_root (leaves, by_dir, chunks, st) =
      build_dir by_dir leaves (suc (longest by_dir)) [] st >>= λ (root, after).
      ok (chunks, root, after)

  unfoldable pub build_tree :
      ℕ → List FileManifest → D.Stored → Result BuildError (ℤ × D.Node × D.Stored)
  build_tree chunk files st = add_files chunk files ([], [], pos 0, st) >>= build_root
