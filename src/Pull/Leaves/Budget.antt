-- ===== src/Pull/Leaves/Budget.antt =====
-- What collectLeaves returns, and how much it reads.
use hf_ipfs.Prelude.{
  ℕ, zero, suc, ◌+◌, ◌≤◌, ◌≡◌, true, false, List, [], ◌∷◌, ◌++◌, append_assoc, append-nil, Option,
  none, some, length, leb, if◌then◌else◌, Result, ok, err, arith, length-append, Option-cases,
  Bool-cases, Result-cases, inl, inr, ◌∙◌,
}
use hf_ipfs.Cids.{CidLib}
use hf_ipfs.Pull.Leaves.{WalkError, too_many_chunks, add_leaf, collect_links, collect_leaves}

module _ {ℓ} (L : CidLib) {E : Type ℓ} (links : L.Cid → Result E (List L.Cid)) where
  -- The leaves below a list of nodes, from those below each.
  unfoldable pub flatten_all : (L.Cid → Option (List L.Cid)) → List L.Cid → Option (List L.Cid)
  flatten_all flat [] = some []
  flatten_all flat (c ∷ cs) = elim (flat c) [
    | none ↦ none
    | some xs ↦ elim (flatten_all flat cs) [ none ↦ none | some ys ↦ some (xs ++ ys) ]
  ]

  -- The leaves below a node in order, with no budget: those of a DAG of depth below `n`, all of
  -- whose nodes can be read.
  unfoldable pub flatten : ℕ → L.Cid → Option (List L.Cid)
  flatten zero c = none
  flatten (suc n) c = elim (L.is_raw c) [
    | true ↦ some (c ∷ [])
    | false ↦ elim (links c) [ err e ↦ none | ok cs ↦ flatten_all (flatten n) cs ]
  ]

  -- The leaves behind those so far, if the budget admits them all.
  abbrev pub within_budget : ℕ → List L.Cid → List L.Cid → Result (WalkError E) (List L.Cid)
  within_budget budget out xs =
      if leb (length out + length xs) budget then ok (out ++ xs) else err too_many_chunks

  module _ (budget : ℕ) where
    within_budget_step :
        (visit : L.Cid → List L.Cid → Result (WalkError E) (List L.Cid)) (c : L.Cid)
        (cs out xs ys : List L.Cid)
        → visit c out ≡ within_budget budget out xs
        → (length (out ++ xs) ≤ budget
            → collect_links L links budget visit cs (out ++ xs)
              ≡ within_budget budget (out ++ xs) ys)
        → collect_links L links budget visit (c ∷ cs) out ≡ within_budget budget out (xs ++ ys)
    unfolding collect_links
    within_budget_step visit c cs out xs ys first later =
        elim (Bool-cases (leb (length out + length xs) budget)) [
          | inl fits ↦
              rw (first, fits)
                (later (ground (arith, length-append out xs))
                  ∙ ground
                      (arith, length-append out xs, length-append xs ys, append_assoc out xs ys))
          | inr over ↦ ground (arith, first, length-append xs ys)
        ]

    collect_links_lem :
        (visit : L.Cid → List L.Cid → Result (WalkError E) (List L.Cid))
        (flat : L.Cid → Option (List L.Cid))
        → ((c : L.Cid) (out xs : List L.Cid)
            → flat c ≡ some xs
            → length out ≤ budget
            → visit c out ≡ within_budget budget out xs)
        → (cs out xs : List L.Cid) → flatten_all flat cs ≡ some xs
        → length out ≤ budget
        → collect_links L links budget visit cs out ≡ within_budget budget out xs
    unfolding flatten_all
    collect_links_lem visit flat each [] out xs h fits =
        let none_more : xs ≡ [] = ground arith in
        unfold collect_links in rw (none_more, append-nil) (ground arith)
    collect_links_lem visit flat each (c ∷ cs) out xs h fits = elim (Option-cases (flat c)) [
      | inl missing ↦ absurd (ground arith)
      | inr (ys, here) ↦ elim (Option-cases (flatten_all flat cs)) [
        | inl missing ↦ absurd (ground arith)
        | inr (zs, there) ↦
            let whole : xs ≡ ys ++ zs = ground arith in
            rw whole (
              within_budget_step visit c cs out ys zs (each c out ys here fits)
                (λ small. collect_links_lem visit flat each cs (out ++ ys) zs there small))
      ]
    ]

    -- On a DAG of depth below the fuel whose nodes can all be read, the walk ends, and returns the
    -- leaves in order behind those so far if they are within the budget, and the budget error if
    -- they are not.
    pub collect_leaves-flatten :
        (n : ℕ) (c : L.Cid) (out xs : List L.Cid)
        → flatten n c ≡ some xs
        → length out ≤ budget
        → collect_leaves L links budget n c out ≡ within_budget budget out xs
    unfolding flatten collect_leaves
    collect_leaves-flatten zero c out xs h fits = cc
    collect_leaves-flatten (suc n) c out xs h fits = elim (Bool-cases (L.is_raw c)) [
      | inl raw ↦ let one : xs ≡ c ∷ [] = ground arith in unfold add_leaf in rw one (ground arith)
      | inr inner ↦ elim (Result-cases (links c)) [
        | inr (e, failed) ↦ absurd (ground arith)
        | inl (cs, read) ↦
            rw (inner, read, collect_leaves)
              (collect_links_lem (collect_leaves L links budget n) (flatten n)
                (collect_leaves-flatten n) cs out xs (ground arith) fits)
      ]
    ]
