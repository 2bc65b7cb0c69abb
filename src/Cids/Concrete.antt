-- ===== src/Cids/Concrete.antt =====
-- A small instance of go-cid and go-multihash that meets their laws: a CID is its codec byte and its
-- multihash, and a multihash is its code, the length of its digest and the digest.
use hf_ipfs.Prelude.{
  ℕ, refl, Bool, true, false, Option, none, some, [], ◌∷◌, Text, length, ◌==◌, if◌then◌else◌, arith,
}
use hf_ipfs.Prelude.Table.{text_Eq}
use hf_ipfs.Cids.{CidLib, CidLaws}

-- The empty text is the undefined CID.
abbrev some_nonempty : Text → Option Text
some_nonempty [] = none
some_nonempty (c ∷ s) = some (c ∷ s)

abbrev first_is_raw : Text → Bool
first_is_raw [] = false
first_is_raw (c ∷ s) = c == 0x55

abbrev nonempty : Text → Bool
nonempty [] = false
nonempty (c ∷ s) = true

abbrev tail_of : Text → Text
tail_of [] = []
tail_of (c ∷ s) = s

abbrev decode_multihash : Text → Option (ℕ × Text)
decode_multihash (c ∷ n ∷ d) = if n == length d then some (c, d) else none
decode_multihash _ = none

abbrev pub plain_cids : CidLib
plain_cids = record {
  Cid = Text;
  cid_Eq = text_Eq;
  decode = λ s. some s;
  to_text = λ c. c;
  is_raw = first_is_raw;
  defined = nonempty;
  new_v1_dag_pb = λ m. 0x70 ∷ m;
  hash = tail_of;
  sum_identity = λ d. some (0 ∷ length d ∷ d);
  mh_decode = decode_multihash;
  identity_code = 0;
}

pub plain_cids-CidLaws : CidLaws plain_cids
plain_cids-CidLaws = record {
  decode-to_text = λ c. refl;
  hash-new_v1_dag_pb = λ m. refl;
  mh_decode-sum_identity = λ d m h. ground arith;
  sum_identity_total = λ d h. (0 ∷ length d ∷ d, refl);
}
