-- ===== src/Tests/Transfers.antt =====
-- Transfers of files from a peer and from the Hub, at concrete inputs.
use hf_ipfs.Prelude.{
  ◌≡◌, ◌≢◌, refl, true, false, List, [], ◌∷◌, Option, none, some, Text, codes, map, Result, ok, err,
  arith, text_eq, is_empty,
}
use hf_ipfs.Prelude.Int64.{pos, int_eq}
use hf_ipfs.Prelude.Table.{text_Eq, lookup, insert, remove, lookup-insert, lookup-remove}
use hf_ipfs.Cids.Concrete.{plain_cids}
use hf_ipfs.Mapping.Entries.{FileManifest}
use hf_ipfs.Pull.Fetch.{empty_status_frame}
use hf_ipfs.Pull.Leaves.{WalkError}
use hf_ipfs.Pull.Transfer.{
  Ref, Filestore, FilestoreLaws, Env, Sink, TransferError, sha256_mismatch, out_of_rounds,
  fetch_failed, part_path, reconstruct_file, is_cached, with_leaves, chunked_file, batches, batch,
  chunk, register_ref, end_of_loop, finish, rollback, delete_refs,
}
use hf_ipfs.Pull.Transfer.Verified.{IsVerified, part_path-ne, reconstruct_file-IsVerified}
use hf_ipfs.Pull.Transfer.Rollback.{IsRolledBack, reconstruct_file-IsRolledBack}
use hf_ipfs.Pull.Transfer.Rounds.{reconstruct_file_in_rounds}
use hf_ipfs.Pull.Transfer.Empty.{empty_file_truncates}

abbrev toy_filestore : Filestore
toy_filestore = record {
  Refs = List (Text × Ref);
  put = λ r c v. some (insert c v r);
  delete = λ r c. remove c r;
  get = λ r c. lookup c r;
}

toy_filestore-FilestoreLaws : FilestoreLaws toy_filestore
toy_filestore-FilestoreLaws = record {
  get-delete = λ r c d. lookup-remove c d r;
  get-put_ne = λ r s c d v h ne. ground (arith, lookup-insert c d v r);
}

-- A peer that sends what the CIDs name, and a digest that is the content itself.
abbrev sent : Text → Option Text
sent [] = none
sent (c ∷ s) = some s

abbrev toy_env : Env Text
toy_env = record {
  sha256_hex = λ s. s;
  accepts = λ bs c. text_eq (0x55 ∷ bs) c;
  fetch = λ i cs. ok (map sent cs);
  read_succeeds = true;
  mkdir_succeeds = true;
  create_succeeds = true;
  write_succeeds = λ n. true;
  close_succeeds = true;
  store_succeeds = true;
  rename_succeeds = true;
  chmod_succeeds = true;
  remove_succeeds = true;
  delete_succeeds = λ c. true;
}

abbrev weights : FileManifest
weights = record {
  path = codes "w";
  blob_name = codes "abc";
  size = pos 3;
  sha256 = codes "hi!";
  mode = 420;
  mtime = pos 7;
  lfs = true;
  xet_hash = [];
  src_path = [];
}

abbrev weights_leaves : Result (WalkError (Unit {0})) (List Text)
weights_leaves = ok (codes "Uhi" ∷ codes "U!" ∷ [])

abbrev empty_sink : Sink plain_cids toy_filestore
empty_sink = record { files = []; refs = []; blocks = []; done = pos 0 }

abbrev weights_blob : Text
weights_blob = codes "blobs/abc"

abbrev weights_part : Text
weights_part = part_path weights_blob (codes "1f")

abbrev after_weights : Result TransferError (Unit {0}) × Sink plain_cids toy_filestore
after_weights =
    reconstruct_file plain_cids toy_filestore toy_env weights weights_blob weights_part (codes "p")
      weights_leaves empty_sink

weights_done : after_weights ≡ (ok tt, after_weights.1)
unfolding reconstruct_file is_cached is_empty int_eq with_leaves chunked_file batches batch chunk
    register_ref end_of_loop finish text_eq insert remove lookup
weights_done = refl

weights_size : int_eq weights.size (pos 0) ≡ false
unfolding int_eq
weights_size = refl

reconstruct_file-IsVerified_example :
    IsVerified plain_cids toy_filestore toy_env weights weights_blob after_weights.1
reconstruct_file-IsVerified_example =
    reconstruct_file-IsVerified plain_cids toy_filestore toy_env weights weights_blob (codes "1f")
      (codes "p") weights_leaves empty_sink after_weights.1 weights_size weights_done

-- The same transfer against another digest.
abbrev forged : FileManifest
forged = record weights { sha256 = codes "ho!" }

abbrev after_forged : Result TransferError (Unit {0}) × Sink plain_cids toy_filestore
after_forged =
    reconstruct_file plain_cids toy_filestore toy_env forged weights_blob weights_part (codes "p")
      weights_leaves empty_sink

forged_fails : after_forged ≡ (err sha256_mismatch, after_forged.1)
unfolding reconstruct_file is_cached is_empty int_eq with_leaves chunked_file batches batch chunk
    register_ref end_of_loop finish rollback delete_refs text_eq insert remove lookup
forged_fails = refl

no_part_file : lookup weights_part empty_sink.files ≡ none
unfolding lookup
no_part_file = refl

reconstruct_file-IsRolledBack_example :
    IsRolledBack plain_cids toy_filestore toy_filestore-FilestoreLaws toy_env weights_blob
      weights_part
      (part_path-ne weights_blob (codes "1f"))
      empty_sink
      after_forged.1
reconstruct_file-IsRolledBack_example =
    reconstruct_file-IsRolledBack plain_cids toy_filestore toy_filestore-FilestoreLaws toy_env
      forged weights_blob (codes "1f") (codes "p") weights_leaves empty_sink after_forged.1
      sha256_mismatch weights_size no_part_file (λ p. cc) forged_fails

reconstruct_file_in_rounds_example :
    (reconstruct_file plain_cids toy_filestore toy_env weights weights_blob weights_part
      (codes "p")
      weights_leaves
      empty_sink).0
    ≢ err out_of_rounds
reconstruct_file_in_rounds_example =
    reconstruct_file_in_rounds plain_cids toy_filestore toy_env weights weights_blob weights_part
      (codes "p") weights_leaves empty_sink

abbrev nothing_left : FileManifest
nothing_left = record weights { size = pos 0 }

abbrev mute_env : Env Text
mute_env = record toy_env { fetch = λ i cs. err empty_status_frame }

abbrev full_sink : Sink plain_cids toy_filestore
full_sink = record empty_sink { files = (weights_blob, codes "old") ∷ [] }

old_blob : lookup weights_blob full_sink.files ≡ some (codes "old")
unfolding lookup text_eq
old_blob = refl

has_digest : is_empty nothing_left.sha256 ≡ false
unfolding is_empty
has_digest = refl

empty_file_truncates_example :
    ((reconstruct_file plain_cids toy_filestore mute_env nothing_left weights_blob weights_part
        (codes "p")
        weights_leaves
        full_sink).0
      ≡ err (fetch_failed empty_status_frame))
    × (lookup weights_blob
          (reconstruct_file plain_cids toy_filestore mute_env nothing_left weights_blob weights_part
            (codes "p")
            weights_leaves
            full_sink).1.files
        ≡ some [])
empty_file_truncates_example =
    empty_file_truncates plain_cids toy_filestore mute_env nothing_left weights_blob weights_part
      (codes "p") weights_leaves full_sink b'o' (codes "ld") empty_status_frame has_digest refl
      old_blob refl refl refl refl
