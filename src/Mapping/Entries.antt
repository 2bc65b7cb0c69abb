-- ===== src/Mapping/Entries.antt =====
-- FileManifest and Entry of internal/mapping/mapping.go. The time an entry was added is left out: the
-- program stores it and never reads it.
use hf_ipfs.Prelude.{ℕ, Bool, List, Text, map, []}
use hf_ipfs.Prelude.Int64.{ℤ}

pub record FileManifest : Type 0 where
  pub path : Text
  pub blob_name : Text
  pub size : ℤ
  pub sha256 : Text
  pub mode : ℕ
  pub mtime : ℤ
  pub lfs : Bool
  pub xet_hash : Text
  pub src_path : Text

pub record Entry : Type 0 where
  pub repo_id : Text
  pub repo_type : Text
  pub commit_hash : Text
  pub actual_cid : Text
  pub dummy_cid : Text
  pub files : List FileManifest
  pub total_size : ℤ
  pub origin : Text

-- SrcPath has the tag `json:"-"`: it is neither stored nor sent.
unfoldable pub strip_src : FileManifest → FileManifest
strip_src f = record f { src_path = [] }

unfoldable pub strip_entry : Entry → Entry
unfolding strip_src
strip_entry e = record e { files = map strip_src e.files }
