-- ===== src/Pull/Transfer.antt =====
-- reconstructFile of internal/pull/pull.go: the transfer of one file of a manifest.
--
-- The state is what the transfer writes to: the files on disk, the filestore references, the
-- blockstore and the count of bytes done. The filestore is a parameter (`Filestore`), as are the
-- answers of the peer, SHA-256, and whether each call of the system succeeds (`Env`).
mod State
pub mod Preserved
pub mod Verified
pub mod Rollback
pub mod Rounds
pub mod Empty
unfoldable pub use State.*
use hf_ipfs.Prelude.{
  ℕ, zero, suc, ◌+◌, Bool, true, false, not, ◌&&◌, List, [], ◌∷◌, ◌++◌, ◌≡◌, Option, none, some,
  Text, codes, text_eq, length, take, drop, ◌==◌, is_empty, if◌then◌else◌, Result, ok, err,
}
use hf_ipfs.Prelude.Int64.{ℤ, pos, add64, int_eq}
use hf_ipfs.Prelude.Table.{text_Eq, lookup, insert, remove, moved}
use hf_ipfs.Cids.{CidLib}
use hf_ipfs.Mapping.Entries.{FileManifest}
use hf_ipfs.Pull.Fetch.{FetchError}
use hf_ipfs.Pull.Leaves.{WalkError}

module _ (L : CidLib) (F : Filestore) where
  module _ (env : Env L.Cid) where
    open env use {
      sha256_hex, accepts, fetch, read_succeeds, mkdir_succeeds, create_succeeds, write_succeeds,
      close_succeeds, store_succeeds, rename_succeeds, chmod_succeeds, remove_succeeds,
      delete_succeeds,
    }

    -- os.Stat, the test of the size, and the test of the content by hashFile.
    unfoldable pub is_cached : FileManifest → Option Text → Bool
    is_cached f none = false
    is_cached f (some content) =
        int_eq (pos (length content)) f.size
        && (read_succeeds && text_eq (sha256_hex content) f.sha256)

    -- The checks on what Fetch returned for the leaf of an empty file, and MainBS.Put.
    unfoldable pub store_leaf :
        FileManifest
        → L.Cid
        → Result FetchError (List (Option Text))
        → Sink L F
        → Result TransferError (Unit {0}) × Sink L F
    store_leaf f c (err e) s = (err (fetch_failed e), s)
    store_leaf f c (ok (some leaf ∷ [])) s =
        if not (accepts leaf c)
        then (err bad_leaf, s)
        else if not (text_eq (sha256_hex leaf) f.sha256)
        then (err sha256_mismatch, s)
        else if not store_succeeds
        then (err store_failed, s)
        else (
          ok tt,
          record s { blocks = insert (L.hash c) leaf s.blocks; done = add64 s.done f.size },
        )
    store_leaf f c (ok _) s = (err missing_leaf, s)

    -- The branch for a file of size 0: the blob is created, then the leaf is fetched.
    unfoldable pub empty_file :
        FileManifest → Text → L.Cid → Sink L F → Result TransferError (Unit {0}) × Sink L F
    empty_file f blob c s =
        if not create_succeeds
        then (err create_failed, s)
        else if not close_succeeds
        then (err close_failed, record s { files = insert blob [] s.files })
        else store_leaf f c (fetch 0 (c ∷ [])) (record s { files = insert blob [] s.files })

    -- RegisterFilestoreRef: only a raw block may be a reference.
    unfoldable pub register_ref : L.Cid → Ref → F.Refs → Option F.Refs
    register_ref c ref refs = if L.is_raw c then F.put refs (L.hash c) ref else none

    -- tf.Write, at the end of the part file
    unfoldable pub appended : Text → Text → List (Text × Text) → List (Text × Text)
    appended tmp bs files =
        insert tmp ((elim (lookup tmp files) [ none ↦ [] | some content ↦ content ]) ++ bs) files

    -- One chunk: check it, write it to the part file, and register its reference to the blob.
    unfoldable pub chunk :
        Text → Text → L.Cid → Option Text → Loop L F → Result TransferError (Loop L F) × Loop L F
    chunk blob tmp c none l = (err missing_chunk, l)
    chunk blob tmp c (some bs) l =
        if not (accepts bs c)
        then (err bad_chunk, l)
        else if not (write_succeeds (length l.written))
        then (err write_failed, l)
        else let ref : Ref = record {
          full_path = blob;
          offset = length l.written;
          len = length bs;
        } in
          let files' = appended tmp bs l.sink.files in
          elim (register_ref c ref l.sink.refs) [
            | none ↦ (err register_failed, record l { sink = record l.sink { files = files' } })
            | some refs' ↦
                let l' : Loop L F = record {
                  sink = record l.sink {
                    files = files';
                    refs = refs';
                    done = add64 l.sink.done (pos (length bs));
                  };
                  written = l.written ++ bs;
                  registered = l.registered ++ c ∷ [];
                } in
                (ok l', l')
          ]

    -- A loop goes on after a step that succeeded, and ends at one that failed.
    abbrev pub and_then :
        Result TransferError (Loop L F) × Loop L F
        → (Loop L F → Result TransferError (Loop L F) × Loop L F)
        → Result TransferError (Loop L F) × Loop L F
    and_then (err e, l) f = (err e, l)
    and_then (ok l, l') f = f l

    -- The inner loop over one batch; Fetch returns as many entries as it was asked for.
    unfoldable pub batch :
        Text
        → Text
        → List L.Cid
        → List (Option Text)
        → Loop L F
        → Result TransferError (Loop L F) × Loop L F
    batch blob tmp [] datas l = (ok l, l)
    batch blob tmp (c ∷ cs) [] l = (err missing_chunk, l)
    batch blob tmp (c ∷ cs) (bs ∷ datas) l =
        and_then (chunk blob tmp c bs l) (batch blob tmp cs datas)

    -- The outer loop from an index on. Each round takes at least one leaf, so the number of leaves
    -- is enough fuel, and `Pull.Transfer.Rounds` shows that it never runs out.
    unfoldable pub batches :
        ℕ → Text → Text → ℕ → List L.Cid → Loop L F → Result TransferError (Loop L F) × Loop L F
    batches n blob tmp start [] l = (ok l, l)
    batches zero blob tmp start (c ∷ cs) l = (err out_of_rounds, l)
    batches (suc n) blob tmp start (c ∷ cs) l = elim (fetch start (take batch_size (c ∷ cs))) [
      | err e ↦ (err (fetch_failed e), l)
      | ok datas ↦
          and_then (batch blob tmp (take batch_size (c ∷ cs)) datas l)
            (batches n blob tmp (start + batch_size) (drop batch_size (c ∷ cs)))
    ]

    unfoldable pub delete_refs : List L.Cid → F.Refs → F.Refs
    delete_refs [] refs = refs
    delete_refs (c ∷ cs) refs =
        delete_refs cs (if delete_succeeds (L.hash c) then F.delete refs (L.hash c) else refs)

    -- rollback: remove the part file, and unregister every chunk; a failure of these is ignored.
    unfoldable pub rollback :
        Text → TransferError → Loop L F → Result TransferError (Unit {0}) × Sink L F
    rollback tmp cause l = (
      err cause,
      record l.sink {
        files = if remove_succeeds then remove tmp l.sink.files else l.sink.files;
        refs = delete_refs l.registered l.sink.refs;
      },
    )

    -- os.Rename(tmp, blobPath)
    abbrev pub renamed : Text → Text → Loop L F → Loop L F
    renamed blob tmp l = record l { sink = record l.sink { files = moved tmp blob l.sink.files } }

    -- After the loop: close, the digest, the size, the rename and the mode.
    unfoldable pub finish :
        FileManifest → Text → Text → Loop L F → Result TransferError (Unit {0}) × Sink L F
    finish f blob tmp l =
        if not close_succeeds
        then rollback tmp close_failed l
        else if not (text_eq (sha256_hex l.written) f.sha256)
        then rollback tmp sha256_mismatch l
        else if not (int_eq (pos (length l.written)) f.size)
        then rollback tmp size_mismatch l
        else if not rename_succeeds
        then rollback tmp rename_failed l
        else if not chmod_succeeds
        then rollback tmp chmod_failed (renamed blob tmp l)
        else (ok tt, (renamed blob tmp l).sink)

    -- What follows the loop over the batches.
    unfoldable pub end_of_loop :
        FileManifest
        → Text
        → Text
        → Result TransferError (Loop L F) × Loop L F
        → Result TransferError (Unit {0}) × Sink L F
    end_of_loop f blob tmp (err e, l) = rollback tmp e l
    end_of_loop f blob tmp (ok l, l') = finish f blob tmp l

    -- The variables of the loop behind os.Create(tmp).
    abbrev pub start : Text → Sink L F → Loop L F
    start tmp s = record {
      sink = record s { files = insert tmp [] s.files };
      written = [];
      registered = [];
    }

    -- The transfer of the leaves of a file into its part file, and from there to its blob.
    unfoldable pub chunked_file :
        FileManifest
        → Text
        → Text
        → List L.Cid
        → Sink L F
        → Result TransferError (Unit {0}) × Sink L F
    chunked_file f blob tmp leaves s =
        if not create_succeeds
        then (err create_failed, s)
        else end_of_loop f blob tmp (batches (length leaves) blob tmp 0 leaves (start tmp s))

    -- The leaves that collectLeaves found.
    unfoldable pub with_leaves :
        {E : Type 0}
        → FileManifest
        → Text
        → Text
        → Result (WalkError E) (List L.Cid)
        → Sink L F
        → Result TransferError (Unit {0}) × Sink L F
    with_leaves f blob tmp (err e) s = (err chunks_unreadable, s)
    with_leaves f blob tmp (ok []) s = (err no_chunks, s)
    with_leaves f blob tmp (ok (c ∷ cs)) s = chunked_file f blob tmp (c ∷ cs) s

    -- reconstructFile; `leaves` is the result of collectLeaves for the CID of the file.
    unfoldable pub reconstruct_file :
        {E : Type 0}
        → FileManifest
        → Text
        → Text
        → L.Cid
        → Result (WalkError E) (List L.Cid)
        → Sink L F
        → Result TransferError (Unit {0}) × Sink L F
    reconstruct_file f blob tmp c leaves s =
        if is_empty f.sha256
        then (err no_sha256, s)
        else if is_cached f (lookup blob s.files)
        then (ok tt, record s { done = add64 s.done f.size })
        else if not mkdir_succeeds
        then (err mkdir_failed, s)
        else if int_eq f.size (pos 0)
        then empty_file f blob c s
        else with_leaves f blob tmp leaves s
