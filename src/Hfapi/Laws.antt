-- ===== src/Hfapi/Laws.antt =====
-- What the checks of internal/hfapi/hfapi.go guarantee.
use hf_ipfs.Prelude.{
  ◌≡◌, refl, sym, ap, ◌∙◌, subst, true, false, List, [], ◌∷◌, ◌++◌, Option, some, Text, codes,
  text_eq, text_eq_iff, has_byte, split, push_byte, join, map, length, ◌==◌, Result, ok, err, All,
  arith, Option-cases, Result-cases, Bool-cases, inl, inr, ◌⊎◌,
}
use hf_ipfs.Cids.{CidLib, CidLaws}
use hf_ipfs.Dummy.{hex_decode, from_commit}
use hf_ipfs.Dummy.RoundTrip.{from_commit_total}
use hf_ipfs.Hfcache.RepoNames.{RepoType}
use hf_ipfs.Hfapi.{
  RepoInfo, ApiError, Reply, escape_segment, escape_path, check_sha, accept_reply, repo_info_at,
  repo_info_url, sha_of, latest_commit,
}

check_sha_sound :
    (r : Result ApiError RepoInfo) (info : RepoInfo)
    → check_sha r ≡ ok info
    → (raw : Text) × (length info.sha ≡ 40) × (hex_decode info.sha ≡ some raw)
unfolding check_sha
check_sha_sound (err e) info h = absurd (ground arith)
check_sha_sound (ok got) info h = elim (Option-cases (hex_decode got.sha)) [
  | inl bad ↦ absurd (ground (arith, bad))
  | inr (raw, good) ↦ (raw, ground arith, ground (arith, good))
]

-- Every commit that LatestCommit returns has a dummy CID.
pub latest_commit_has_dummy :
    (endpoint : Text) (path_escape : Text → Text) (http_get : Text → Option Reply)
    (decode : Text → Option RepoInfo) (repo_id : Text) (t : RepoType) (commit : Text) (L : CidLib)
    (laws : CidLaws L)
    → latest_commit endpoint path_escape http_get decode repo_id t ≡ ok commit
    → (c : L.Cid) × (from_commit L commit ≡ ok c)
unfolding latest_commit sha_of repo_info_at
latest_commit_has_dummy endpoint path_escape http_get decode repo_id t commit L laws h =
    elim (Result-cases (repo_info_at endpoint path_escape http_get decode repo_id t [] false)) [
      | inr (e, failed) ↦ absurd (ground (arith, failed))
      | inl (info, got) ↦
          let (raw, size, hex) =
            check_sha_sound
              (accept_reply _ decode
                (http_get (repo_info_url endpoint path_escape http_get repo_id t [] false)))
              info got in
          subst (λ s. (c : L.Cid) × (from_commit L s ≡ ok c)) (ground (arith, got))
            (from_commit_total L laws info.sha raw size hex)
    ]

split-part : (p : Text) → has_byte b'/' p ≡ false → split b'/' p ≡ p ∷ []
unfolding split has_byte push_byte
split-part [] h = refl
split-part (c ∷ p) h = ground (arith, split-part p)

split-part_slash :
    (p s : Text) → has_byte b'/' p ≡ false → split b'/' (p ++ b'/' ∷ s) ≡ p ∷ split b'/' s
unfolding split has_byte push_byte
split-part_slash [] s h = ground arith
split-part_slash (c ∷ p) s h = ground (arith, split-part_slash p s)

split-join :
    (p : Text) (ps : List Text)
    → All (λ q. has_byte b'/' q ≡ false) (p ∷ ps)
    → split b'/' (join b'/' (p ∷ ps)) ≡ p ∷ ps
unfolding join
split-join p [] (h, hs) = split-part p h
split-join p (q ∷ ps) (h, hs) =
    split-part_slash p (join b'/' (q ∷ ps)) h ∙ ap (◌∷◌ p) (split-join q ps hs)

-- A segment that a server does not clean away or resolve.
pub record IsLiteral (s : Text) : Type 0 where
  pub has_no_slash : has_byte b'/' s ≡ false
  pub is_not_dot : text_eq s (codes ".") ≡ false
  pub is_not_dots : text_eq s (codes "..") ≡ false

-- url.PathEscape escapes every slash, and changes a text only to one that has a percent sign.
pub record PathEscapeLaws (path_escape : Text → Text) : Type 0 where
  pub no_slash : (s : Text) → has_byte b'/' (path_escape s) ≡ false
  pub escaped : (s : Text) → (path_escape s ≡ s) ⊎ (has_byte b'%' (path_escape s) ≡ true)

percent_dot : IsLiteral (codes "%2E")
unfolding has_byte text_eq
percent_dot = record { has_no_slash = refl; is_not_dot = refl; is_not_dots = refl }

percent_dots : IsLiteral (codes "%2E%2E")
unfolding has_byte text_eq
percent_dots = record { has_no_slash = refl; is_not_dot = refl; is_not_dots = refl }

All-no_slash : (ss : List Text) → All IsLiteral ss → All (λ q. has_byte b'/' q ≡ false) ss
All-no_slash [] h = tt
All-no_slash (s ∷ ss) (l, h) = (l.has_no_slash, All-no_slash ss h)

split-ne : (s : Text) → (p : Text) × (ps : List Text) × (split b'/' s ≡ p ∷ ps)
unfolding split push_byte
split-ne [] = ([], [], refl)
split-ne (c ∷ s) = elim (Bool-cases (c == b'/')) [
  | inl slash ↦ ([], split b'/' s, ground (arith, slash))
  | inr other ↦ let (p, ps, e) = split-ne s in (c ∷ p, ps, ground (arith, other, e))
]

module _ (path_escape : Text → Text) (laws : PathEscapeLaws path_escape) where
  no_percent : (s d : Text) → has_byte b'%' s ≡ true → has_byte b'%' d ≡ false → text_eq s d ≡ false
  no_percent s d h free = elim (Bool-cases (text_eq s d)) [
    | inr differs ↦ differs
    | inl same ↦ absurd (
        ground
          (arith, sym (subst (λ t. has_byte b'%' t ≡ true) ((text_eq_iff s d).0 same) h), free))
  ]

  -- A segment that path_escape is left with is none of the two that it would leave alone.
  escaped_ne :
      (s d : Text)
      → has_byte b'%' d ≡ false
      → text_eq s d ≡ false
      → text_eq (path_escape s) d ≡ false
  escaped_ne s d free differs = elim (laws.escaped s) [
    | inl kept ↦ subst (λ t. text_eq t d ≡ false) (sym kept) differs
    | inr percent ↦ no_percent (path_escape s) d percent free
  ]

  escape_segment-IsLiteral : (s : Text) → IsLiteral (escape_segment path_escape s)
  unfolding escape_segment has_byte text_eq
  escape_segment-IsLiteral s = elim (Bool-cases (text_eq s (codes "."))) [
    | inl dot ↦ subst IsLiteral (ground (arith, dot)) percent_dot
    | inr not_dot ↦ elim (Bool-cases (text_eq s (codes ".."))) [
      | inl dots ↦ subst IsLiteral (ground (arith, not_dot, dots)) percent_dots
      | inr not_dots ↦
          subst IsLiteral {x = path_escape s} (ground (arith, not_dot, not_dots)) (record {
            has_no_slash = laws.no_slash s;
            is_not_dot = escaped_ne s (codes ".") refl not_dot;
            is_not_dots = escaped_ne s (codes "..") refl not_dots;
          })
    ]
  ]

  All-IsLiteral : (ss : List Text) → All IsLiteral (map (escape_segment path_escape) ss)
  All-IsLiteral [] = tt
  All-IsLiteral (s ∷ ss) = (escape_segment-IsLiteral s, All-IsLiteral ss)

  -- No segment of an escaped path is "." or "..", and the segments of an escaped path are those of the
  -- path, each escaped.
  pub escape_path-IsLiteral :
      (p : Text)
      → All IsLiteral (split b'/' (escape_path path_escape p))
        × (split b'/' (escape_path path_escape p) ≡ map (escape_segment path_escape) (split b'/' p))
  unfolding escape_path
  escape_path-IsLiteral p =
      let (q, qs, parts) = split-ne p in
      let literal : All IsLiteral (map (escape_segment path_escape) (q ∷ qs)) =
        All-IsLiteral (q ∷ qs) in
      let same : split b'/' (join b'/' (map (escape_segment path_escape) (split b'/' p)))
          ≡ map (escape_segment path_escape) (split b'/' p) =
        subst
          (λ l.
            split b'/' (join b'/' (map (escape_segment path_escape) l))
            ≡ map (escape_segment path_escape) l)
          (sym parts)
          (split-join (escape_segment path_escape q) (map (escape_segment path_escape) qs)
            (All-no_slash (map (escape_segment path_escape) (q ∷ qs)) literal)) in
      (subst (All IsLiteral) (sym same) (All-IsLiteral (split b'/' p)), same)
