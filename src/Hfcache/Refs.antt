-- ===== src/Hfcache/Refs.antt =====
-- CurrentCommit of internal/hfcache/cache.go. The files on disk are a table of paths and contents.
use hf_ipfs.Prelude.{
  not, List, none, some, Text, codes, length, ◌==◌, is_empty, trim_space, if◌then◌else◌, Result, ok,
  err,
}
use hf_ipfs.Prelude.Table.{text_Eq, lookup}
use hf_ipfs.Dummy.{hex_decode}
use hf_ipfs.Hfcache.Paths.{Paths, ref_path}

pub data RefError : Type 0 where
  no_ref not_a_commit not_hex_commit : RefError

-- The text of a ref, behind os.ReadFile.
unfoldable pub commit_of_ref : Text → Result RefError Text
commit_of_ref s =
    let commit = trim_space s in
    if not (length commit == 40)
    then err not_a_commit
    else (elim (hex_decode commit) [ none ↦ err not_hex_commit | some raw ↦ ok commit ])

-- CurrentCommit
unfoldable pub current_commit : List (Text × Text) → Paths → Text → Result RefError Text
current_commit files p ref =
    elim (lookup (ref_path p (if is_empty ref then codes "main" else ref)) files) [
      | none ↦ err no_ref
      | some s ↦ commit_of_ref s
    ]
