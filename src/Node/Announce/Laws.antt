-- ===== src/Node/Announce/Laws.antt =====
-- What ReprovideAll announces.
use hf_ipfs.Prelude.{
  ℕ, suc, ◌+◌, ◌≡◌, refl, sym, ap, ◌∙◌, inl, inr, Bool, false, not, ◌&&◌, List, [], ◌∷◌, ◌++◌,
  append-nil, append_assoc, none, some, count, if◌then◌else◌, ok, err, arith, Bool-cases,
  Option-cases, Result-cases,
}
use hf_ipfs.Cids.{CidLib}
use hf_ipfs.Dummy.{from_commit}
use hf_ipfs.Mapping.Entries.{Entry}
use hf_ipfs.Node.Announce.{
  not_provided, provide, provide_both, provide_commit, reprovide_entries, reprovide_all,
}

module _ (L : CidLib) (accepts : L.Cid → Bool) where
  -- An entry whose CIDs can be read and whose dummy CID the DHT accepts.
  unfoldable pub is_announced : Entry → Bool
  is_announced e = elim (L.decode e.actual_cid) [
    | none ↦ false
    | some actual ↦ elim (from_commit L e.commit_hash) [
      | err failure ↦ false
      | ok dummy ↦ accepts dummy
    ]
  ]

  -- What the two CIDs of an entry add to what was announced, the last announcement first.
  abbrev announced_pair : L.Cid → L.Cid → List L.Cid
  announced_pair dummy actual =
      if not (accepts dummy)
      then []
      else if L.defined actual && not (L.cid_Eq.beq actual dummy) && accepts actual
      then actual ∷ dummy ∷ []
      else dummy ∷ []

  -- What an entry adds.
  unfoldable pub announced_for : Entry → List L.Cid
  announced_for e = elim (L.decode e.actual_cid) [
    | none ↦ []
    | some actual ↦ elim (from_commit L e.commit_hash) [
      | err failure ↦ []
      | ok dummy ↦ announced_pair dummy actual
    ]
  ]

  -- What a list of entries adds, the last announcement first.
  unfoldable pub announced_for_all : List Entry → List L.Cid
  announced_for_all [] = []
  announced_for_all (e ∷ entries) = announced_for_all entries ++ announced_for e

  provide_both_lem :
      (dummy actual : L.Cid) (announced : List L.Cid)
      → ((provide_both L accepts dummy actual announced).1
          ≡ announced_pair dummy actual ++ announced)
        × ((provide_both L accepts dummy actual announced).0
            ≡ (if accepts dummy then ok tt else err not_provided))
  unfolding provide_both provide
  provide_both_lem dummy actual announced = (ground arith, ground arith)

  reprovide_lem :
      (entries : List Entry) (n : ℕ) (announced : List L.Cid)
      → ((reprovide_entries L accepts entries n announced).0 ≡ n + count is_announced entries)
        × ((reprovide_entries L accepts entries n announced).1
            ≡ announced_for_all entries ++ announced)
  unfolding reprovide_entries is_announced provide_commit announced_for announced_for_all
  reprovide_lem [] n announced = (omega arith, refl)
  reprovide_lem (e ∷ entries) n announced = elim (Option-cases (L.decode e.actual_cid)) [
    | inl bad ↦
        let rest = reprovide_lem entries n announced in
        (
          ground (arith, bad, rest.0),
          ground (arith, bad, rest.1, append-nil (announced_for_all entries)),
        )
    | inr (actual, good) ↦ elim (Result-cases (from_commit L e.commit_hash)) [
      | inr (failure, failed) ↦
          let rest = reprovide_lem entries n announced in
          (
            ground (arith, good, failed, rest.0),
            ground (arith, good, failed, rest.1, append-nil (announced_for_all entries)),
          )
      | inl (dummy, made) ↦
          let step = provide_both_lem dummy actual announced in
          let after = (provide_both L accepts dummy actual announced).1 in
          let here = announced_pair dummy actual in
          let back : announced_for_all entries ++ after
              ≡ (announced_for_all entries ++ here) ++ announced =
            ap (λ (x : List L.Cid). announced_for_all entries ++ x) step.0
            ∙ sym (append_assoc (announced_for_all entries) here announced) in
          elim (Bool-cases (accepts dummy)) [
            | inl taken ↦
                let rest = reprovide_lem entries (suc n) after in
                (
                  ground (arith, good, made, taken, step.1, rest.0),
                  ground (arith, good, made, taken, step.1, rest.1, back),
                )
            | inr refused ↦
                let rest = reprovide_lem entries n after in
                (
                  ground (arith, good, made, refused, step.1, rest.0),
                  ground (arith, good, made, refused, step.1, rest.1, back),
                )
          ]
    ]
  ]

  -- With a peer in the routing table, ReprovideAll returns the number of the entries that have a readable
  -- actual CID, a well-formed commit and a dummy CID that the DHT accepts. It announces, entry by entry, the
  -- dummy CID of each of these and then its actual CID, where that is defined, is not the dummy CID and is
  -- accepted, and nothing else.
  pub reprovide_all_lem :
      (peers : ℕ) (entries : List Entry) (announced : List L.Cid)
      → ((reprovide_all L accepts {E = Unit {0}} (suc peers) (ok entries) announced).0
          ≡ ok (count is_announced entries))
        × ((reprovide_all L accepts {E = Unit {0}} (suc peers) (ok entries) announced).1
            ≡ announced_for_all entries ++ announced)
  unfolding reprovide_all
  reprovide_all_lem peers entries announced =
      let all = reprovide_lem entries 0 announced in (ground (arith, all.0), all.1)
