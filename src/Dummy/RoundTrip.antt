-- ===== src/Dummy/RoundTrip.antt =====
-- The commit hash is recovered from its dummy CID.
use hf_ipfs.Prelude.{
  ℕ, ◌+◌, ◌*◌, ◌/◌, ◌%◌, ◌<◌, ◌≡◌, refl, [], ◌∷◌, Option, some, Text, length, ok, arith, All,
  to_lower, ◌∙◌, Option-cases, inl, inr,
}
use hf_ipfs.Cids.{CidLib, CidLaws}
use hf_ipfs.Dummy.{
  from_commit, commit_of, hex_decode, hex_encode, hex_value, hex_char, join_nibbles,
  hex_char-hex_value, IsByte,
}

join_nibbles-eq-some :
    (h l : Option ℕ) (r : Option Text) (raw : Text)
    → join_nibbles h l r ≡ some raw
    → (x : ℕ) × (y : ℕ) × (bs : Text) × (h ≡ some x)
      × (l ≡ some y)
      × (r ≡ some bs)
      × (raw ≡ (x * 16 + y) ∷ bs)
unfolding join_nibbles
join_nibbles-eq-some (some x) (some y) (some bs) raw e = (x, y, bs, refl, refl, refl, cc)
join_nibbles-eq-some _ _ _ raw e = cc

hex_encode_byte :
    (x y : ℕ) (bs : Text)
    → x < 16
    → y < 16
    → hex_encode ((x * 16 + y) ∷ bs) ≡ hex_char x ∷ hex_char y ∷ hex_encode bs
unfolding hex_encode
hex_encode_byte x y bs hx hy =
    let high : (x * 16 + y) / 16 ≡ x = omega arith in
    let low : (x * 16 + y) % 16 ≡ y = omega arith in rw (high, low)

-- What hex.DecodeString accepts is written back by hex.EncodeToString in lower case.
pub hex_encode-hex_decode :
    (s raw : Text)
    → hex_decode s ≡ some raw
    → (hex_encode raw ≡ to_lower s) × (length s ≡ 2 * length raw) × All IsByte raw
unfolding hex_decode to_lower
hex_encode-hex_decode [] [] h = unfold hex_encode in (refl, refl, tt)
hex_encode-hex_decode [] (b ∷ raw) h = cc
hex_encode-hex_decode (c ∷ []) raw h = cc
hex_encode-hex_decode (c ∷ d ∷ s) raw h =
    let (x, y, bs, hx, hy, hs, e) =
      join_nibbles-eq-some (hex_value c) (hex_value d) (hex_decode s) raw h in
    let (x_small, x_char) = hex_char-hex_value c x hx in
    let (y_small, y_char) = hex_char-hex_value d y hy in
    let (same, size, bytes) = hex_encode-hex_decode s bs hs in
    rw e (
      hex_encode_byte x y bs x_small y_small ∙ cc (x_char, y_char, same),
      omega arith,
      (omega arith, bytes),
    )

module _ (L : CidLib) where
  -- What FromCommit accepts: 40 hexadecimal digits.
  from_commit-eq-ok :
      (s : Text) (c : L.Cid)
      → from_commit L s ≡ ok c
      → (raw : Text) × (m : Text) × (length s ≡ 40)
        × (hex_decode s ≡ some raw)
        × (L.sum_identity raw ≡ some m)
        × (c ≡ L.new_v1_dag_pb m)
  unfolding from_commit
  from_commit-eq-ok s c h = elim (Option-cases (hex_decode s)) [
    | inl bad ↦ absurd (ground arith)
    | inr (raw, good) ↦ elim (Option-cases (L.sum_identity raw)) [
      | inl bad ↦ absurd (ground arith)
      | inr (m, sum) ↦ (raw, m, ground arith, good, sum, ground arith)
    ]
  ]

module _ (L : CidLib) (laws : CidLaws L) where
  -- The commit hash that a dummy CID was made from is recovered from it, in lower case.
  pub commit_of-from_commit :
      (s : Text) (c : L.Cid) → from_commit L s ≡ ok c → commit_of L c ≡ ok (to_lower s)
  unfolding commit_of
  commit_of-from_commit s c h =
      let (raw, m, size, good, sum, made) = from_commit-eq-ok L s c h in
      let (same, twice, bytes) = hex_encode-hex_decode s raw good in
      rw (made, laws.hash-new_v1_dag_pb, laws.mh_decode-sum_identity raw m sum)
        (ground (arith, same, twice))

  -- FromCommit accepts every text of 40 characters that is hexadecimal.
  pub from_commit_total :
      (s raw : Text)
      → length s ≡ 40
      → hex_decode s ≡ some raw
      → (c : L.Cid) × (from_commit L s ≡ ok c)
  unfolding from_commit
  from_commit_total s raw size good =
      let (same, twice, bytes) = hex_encode-hex_decode s raw good in
      let (m, sum) = laws.sum_identity_total raw (omega arith) in (L.new_v1_dag_pb m, ground arith)
