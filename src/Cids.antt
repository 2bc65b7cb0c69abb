-- ===== src/Cids.antt =====
-- The libraries go-cid and go-multihash, which the program calls and does not implement: a record of
-- their operations, and what the program relies on as a record of laws.
pub mod Concrete
use hf_ipfs.Prelude.{ℕ, ◌≡◌, Bool, true, Option, some, Text, length}
use hf_ipfs.Prelude.Table.{Eq}

pub record CidLib : Type 1 where
  pub Cid : Type 0
  pub cid_Eq : Eq Cid
  -- cid.Decode and Cid.String
  pub decode : Text → Option Cid
  pub to_text : Cid → Text
  -- Cid.Type() == cid.Raw
  pub is_raw : Cid → Bool
  -- Cid.Defined()
  pub defined : Cid → Bool
  -- cid.NewCidV1(cid.DagProtobuf, m) and Cid.Hash
  pub new_v1_dag_pb : Text → Cid
  pub hash : Cid → Text
  -- mh.Sum(d, mh.IDENTITY, -1), and mh.Decode into its code and digest
  pub sum_identity : Text → Option Text
  pub mh_decode : Text → Option (ℕ × Text)
  -- mh.IDENTITY
  pub identity_code : ℕ

-- What is documented of them: a CID is read back from its text, keeps the multihash that it was made
-- from, and an identity multihash holds its digest, which may be any 20 bytes.
pub record CidLaws (L : CidLib) : Type 0 where
  pub decode-to_text : (c : L.Cid) → L.decode (L.to_text c) ≡ some c
  pub hash-new_v1_dag_pb : (m : Text) → L.hash (L.new_v1_dag_pb m) ≡ m
  pub mh_decode-sum_identity :
      (d m : Text) → L.sum_identity d ≡ some m → L.mh_decode m ≡ some (L.identity_code, d)
  pub sum_identity_total : (d : Text) → length d ≡ 20 → (m : Text) × (L.sum_identity d ≡ some m)
