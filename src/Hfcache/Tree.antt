-- ===== src/Hfcache/Tree.antt =====
-- internal/hfcache/tree.go: the document trees/<commit>.json that records which files are kept by LFS
-- or by Xet. JSON is a parameter; the file on disk is the text in it, if there is one.
pub mod Laws
use hf_ipfs.Prelude.{
  ℕ, ◌≡◌, Bool, true, false, not, ◌||◌, List, [], ◌∷◌, Option, none, some, Text, is_empty,
  if◌then◌else◌, Result, ok, err, map,
}
use hf_ipfs.Prelude.Int64.{ℤ, pos}
use hf_ipfs.Prelude.Table.{text_Eq, lookup, insert}
use hf_ipfs.Mapping.Entries.{FileManifest}

pub record TreeFile : Type 0 where
  pub tree_size : ℤ
  pub tree_blob : Text
  pub lfs_sha256 : Text
  pub lfs_size : ℤ
  pub tree_xet : Text

pub record Tree : Type 0 where
  pub format_version : ℕ
  pub tree_files : List (Text × TreeFile)

-- TreeFormatVersion
abbrev pub tree_format_version : ℕ
tree_format_version = 1

-- encoding/json on trees.
pub record TreeJson : Type 0 where
  pub encode_tree : Tree → Option Text
  pub decode_tree : Text → Option Tree

-- A tree is read back as the same map, for texts of valid UTF-8. The order of its entries is not kept: a
-- map is written with its keys sorted.
pub record TreeJsonLaws (J : TreeJson) : Type 0 where
  pub decode-encode_tree :
      (t : Tree) (s : Text)
      → J.encode_tree t ≡ some s
      → (u : Tree) × (J.decode_tree s ≡ some u)
        × (u.format_version ≡ t.format_version)
        × ((path : Text) → lookup path u.tree_files ≡ lookup path t.tree_files)

-- The fields that an earlier entry of the path hands on.
unfoldable pub kept_fields : FileManifest → Option TreeFile → TreeFile
kept_fields f none = record {
  tree_size = f.size;
  tree_blob = f.blob_name;
  lfs_sha256 = [];
  lfs_size = pos 0;
  tree_xet = [];
}
kept_fields f (some prev) = record prev { tree_size = f.size; tree_blob = f.blob_name }

unfoldable pub with_lfs_fields : FileManifest → TreeFile → TreeFile
with_lfs_fields f t = if f.lfs then record t { lfs_sha256 = f.sha256; lfs_size = f.size } else t

unfoldable pub with_xet : FileManifest → TreeFile → TreeFile
with_xet f t = if not (is_empty f.xet_hash) then record t { tree_xet = f.xet_hash } else t

-- The entry of a file, over the one that its path had.
unfoldable pub tree_entry : FileManifest → Option TreeFile → TreeFile
tree_entry f prev = with_xet f (with_lfs_fields f (kept_fields f prev))

-- The loop of WriteTree over the files.
unfoldable pub merge_files : List FileManifest → List (Text × TreeFile) → List (Text × TreeFile)
merge_files [] doc = doc
merge_files (f ∷ fs) doc = merge_files fs (insert f.path (tree_entry f (lookup f.path doc)) doc)

pub data TreeError : Type 0 where
  not_parsed not_encoded : TreeError

module _ (J : TreeJson) where
  -- ReadTree; `ok none` stands for `nil, false`.
  unfoldable pub read_tree : Option Text → Result TreeError (Option Tree)
  read_tree none = ok none
  read_tree (some text) = elim (J.decode_tree text) [ none ↦ err not_parsed | some t ↦ ok (some t) ]

  -- What WriteTree starts from: a document that cannot be read counts for none.
  unfoldable pub earlier_files : Result TreeError (Option Tree) → List (Text × TreeFile)
  earlier_files (ok (some t)) = t.tree_files
  earlier_files (ok none) = []
  earlier_files (err e) = []

  -- WriteTree: what it puts on disk.
  unfoldable pub write_tree : Option Text → List FileManifest → Result TreeError Text
  write_tree on_disk files =
      elim (J.encode_tree (record {
        format_version = tree_format_version;
        tree_files = merge_files files (earlier_files (read_tree on_disk));
      })) [ none ↦ err not_encoded | some text ↦ ok text ]

  -- One round of the loop of EnrichFromTree.
  unfoldable pub enrich_file : Option TreeFile → FileManifest → FileManifest
  enrich_file none f = f
  enrich_file (some t) f =
      let g : FileManifest =
        if not (is_empty t.lfs_sha256) || not (is_empty t.tree_xet)
        then record f { lfs = true }
        else f in
      if not (is_empty t.tree_xet) then record g { xet_hash = t.tree_xet } else g

  unfoldable pub enrich_files :
      Result TreeError (Option Tree) → List FileManifest → List FileManifest
  enrich_files (ok (some t)) fs = map (λ f. enrich_file (lookup f.path t.tree_files) f) fs
  enrich_files (ok none) fs = fs
  enrich_files (err e) fs = fs

  -- EnrichFromTree
  unfoldable pub enrich_from_tree : Option Text → List FileManifest → List FileManifest
  enrich_from_tree on_disk fs = enrich_files (read_tree on_disk) fs
