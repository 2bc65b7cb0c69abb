-- ===== src/Dummy.antt =====
-- internal/dummy/dummy.go: the dummy CID whose multihash digest is the commit hash.
mod Hex
pub mod RoundTrip
unfoldable pub use Hex.*
use hf_ipfs.Prelude.{
  ℕ, Bool, true, false, Option, none, some, Text, length, ◌==◌, if◌then◌else◌, Result, ok, err,
}
use hf_ipfs.Cids.{CidLib}

abbrev pub commit_len : ℕ
commit_len = 40

pub data DummyError : Type 0 where
  wrong_length not_hex bad_digest bad_multihash not_identity wrong_digest_length : DummyError

module _ (L : CidLib) where
  open L use {Cid, new_v1_dag_pb, hash, sum_identity, mh_decode, identity_code}

  -- FromCommit
  unfoldable pub from_commit : Text → Result DummyError Cid
  from_commit commit =
      if length commit == commit_len
      then (elim (hex_decode commit) [
        | none ↦ err not_hex
        | some raw ↦ elim (sum_identity raw) [
          | none ↦ err bad_digest
          | some digest ↦ ok (new_v1_dag_pb digest)
        ]
      ])
      else err wrong_length

  -- Commit, after mh.Decode
  unfoldable pub commit_of_digest : Option (ℕ × Text) → Result DummyError Text
  commit_of_digest none = err bad_multihash
  commit_of_digest (some (code, digest)) =
      if code == identity_code
      then (if length digest == 20 then ok (hex_encode digest) else err wrong_digest_length)
      else err not_identity

  -- Commit
  unfoldable pub commit_of : Cid → Result DummyError Text
  unfolding commit_of_digest
  commit_of c = commit_of_digest (mh_decode (hash c))

  -- Is
  unfoldable pub is_dummy : Cid → Bool
  is_dummy c = elim (commit_of c) [ ok s ↦ true | err e ↦ false ]
