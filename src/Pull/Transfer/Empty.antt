-- ===== src/Pull/Transfer/Empty.antt =====
-- The branch of the transfer for files of size 0.
use hf_ipfs.Prelude.{
  ℕ, ◌≡◌, true, false, List, [], ◌∷◌, some, Text, length, is_empty, Result, err, arith,
}
use hf_ipfs.Prelude.Int64.{pos, int_eq_iff}
use hf_ipfs.Prelude.Table.{text_Eq, lookup, insert, lookup-insert_self}
use hf_ipfs.Cids.{CidLib}
use hf_ipfs.Mapping.Entries.{FileManifest}
use hf_ipfs.Pull.Fetch.{FetchError}
use hf_ipfs.Pull.Leaves.{WalkError}
use hf_ipfs.Pull.Transfer.{
  Filestore, Env, Sink, fetch_failed, is_cached, empty_file, store_leaf, reconstruct_file,
}

module _ (L : CidLib) (F : Filestore) (env : Env L.Cid) where
  -- A blob with content is not the file of size 0.
  is_cached_of_empty :
      (f : FileManifest) (b : ℕ) (content : Text)
      → f.size ≡ pos 0
      → is_cached L F env f (some (b ∷ content)) ≡ false
  unfolding is_cached
  is_cached_of_empty f b content sized =
      ground (arith, int_eq_iff (pos (length (b ∷ content))) f.size)

  -- The branch truncates, and ends with the error of the fetch.
  empty_file_failed :
      (f : FileManifest) (blob : Text) (c : L.Cid) (s : Sink L F) (e : FetchError)
      → env.create_succeeds ≡ true
      → env.close_succeeds ≡ true
      → env.fetch 0 (c ∷ []) ≡ err e
      → empty_file L F env f blob c s
        ≡ (err (fetch_failed e), record s { files = insert blob [] s.files })
  unfolding empty_file store_leaf
  empty_file_failed f blob c s e created closed failed = rw (created, closed, failed)

  -- A manifest that gives a file a digest, the size 0 and the name of a blob that is not empty destroys
  -- that blob: where the calls of the system succeed and the fetch of the leaf fails, the transfer
  -- fails with the error of the fetch, and the blob is left empty.
  pub empty_file_truncates :
      {E : Type 0} (f : FileManifest) (blob tmp : Text) (c : L.Cid)
      (leaves : Result (WalkError E) (List L.Cid)) (s : Sink L F) (b : ℕ) (content : Text)
      (e : FetchError)
      → is_empty f.sha256 ≡ false
      → f.size ≡ pos 0
      → lookup blob s.files ≡ some (b ∷ content)
      → env.mkdir_succeeds ≡ true
      → env.create_succeeds ≡ true
      → env.close_succeeds ≡ true
      → env.fetch 0 (c ∷ []) ≡ err e
      → ((reconstruct_file L F env f blob tmp c leaves s).0 ≡ err (fetch_failed e))
        × (lookup blob (reconstruct_file L F env f blob tmp c leaves s).1.files ≡ some [])
  unfolding reconstruct_file
  empty_file_truncates f blob tmp c leaves s b content e given sized present made created closed
        failed =
      ground (
        arith,
        given,
        present,
        is_cached_of_empty f b content sized,
        made,
        sized,
        int_eq_iff f.size (pos 0),
        empty_file_failed f blob c s e created closed failed,
        lookup-insert_self blob [] s.files,
      )
