-- ===== src/Evict/Walk/Exact.antt =====
-- A walk ends, and finds exactly the CIDs that are reachable from its root.
use hf_ipfs.Prelude.{
  ℕ, zero, suc, ◌≤◌, ◌<◌, ◌≡◌, ◌⊎◌, ◌↔◌, refl, sym, subst, ap, inl, inr, Bool, true, false, not,
  List, [], ◌∷◌, ◌++◌, text_eq, Option, some, Text, length, count, arith, Bool-cases, Option-cases,
}
use hf_ipfs.Prelude.Table.{text_Eq, Eq, lookup, member}
use hf_ipfs.Evict.Walk.{Dag, links_in, links, linked, walk_links, walk, enough}

module _ {C : Type 0} ⦃e : Eq C⦄ (dag : Dag C) (blocks : List (Text × Text)) where
  -- The paths through the blocks that are present.
  pub data Reach (root : C) : C → Type 0 where
    here : Reach root root
    next : {x y : C} → Reach root x → member y (links dag blocks x) ≡ true → Reach root y

  -- What a walk adds to the CIDs seen before: it drops none, it follows the links of those that it
  -- adds, and it adds none outside of a set that holds its roots and is closed under links.
  pub record IsWalked (P : C → Type 0) (out r : List C) : Type 0 where
    pub grows : (x : C) → member x out ≡ true → member x r ≡ true
    pub closed :
        (x y : C)
        → member x r ≡ true
        → member y (links dag blocks x) ≡ true
        → (member x out ≡ true) ⊎ (member y r ≡ true)
    pub sound : (x : C) → member x r ≡ true → (member x out ≡ true) ⊎ P x

  abbrev pub IsClosedUnder : (C → Type 0) → Type 0
  IsClosedUnder P = (x y : C) → P x → member y (links dag blocks x) ≡ true → P y

  pub IsWalked-refl : (P : C → Type 0) (out : List C) → IsWalked P out out
  IsWalked-refl P out = record { grows = λ x h. h; closed = λ x y h l. inl h; sound = λ x h. inl h }

  pub IsWalked-trans :
      (P : C → Type 0) (out m r : List C) → IsWalked P out m → IsWalked P m r → IsWalked P out r
  IsWalked-trans P out m r first second = record {
    grows = λ x h. second.grows x (first.grows x h);
    closed = λ x y h l. elim (second.closed x y h l) [
      | inr found ↦ inr found
      | inl before ↦ elim (first.closed x y before l) [
        | inl out_there ↦ inl out_there
        | inr found ↦ inr (second.grows y found)
      ]
    ];
    sound = λ x h. elim (second.sound x h) [ inr p ↦ inr p | inl before ↦ first.sound x before ];
  }

  member_here : (c : C) (cs : List C) → member c (c ∷ cs) ≡ true
  member_here c cs = ground (arith, e.beq_iff c c)

  member_there : (x c : C) (cs : List C) → member x cs ≡ true → member x (c ∷ cs) ≡ true
  member_there x c cs h = ground arith

  member-cons : (x c : C) (cs : List C) → member x (c ∷ cs) ≡ true → (c ≡ x) ⊎ (member x cs ≡ true)
  member-cons x c cs h = elim (Bool-cases (e.beq c x)) [
    | inl same ↦ inl ((e.beq_iff c x).0 same)
    | inr other ↦ inr (ground (arith, other))
  ]

  module _ (P : C → Type 0) (close : IsClosedUnder P) where
    IsWalk : (C → List C → Option (List C)) → Type 0
    IsWalk visit =
        (c : C) (out r : List C)
        → P c
        → visit c out ≡ some r
        → IsWalked P out r × (member c r ≡ true)

    walk_links_lem :
        (visit : C → List C → Option (List C))
        → IsWalk visit
        → (cs out r : List C) → ((y : C) → member y cs ≡ true → P y)
        → walk_links dag blocks visit cs out ≡ some r
        → IsWalked P out r × ((y : C) → member y cs ≡ true → member y r ≡ true)
    unfolding walk_links IsWalk
    walk_links_lem visit each [] out r roots h =
        (subst (IsWalked P out) (ground arith) (IsWalked-refl P out), λ y l. absurd (ground arith))
    walk_links_lem visit each (c ∷ cs) out r roots h = elim (Option-cases (visit c out)) [
      | inl stopped ↦ absurd (ground (arith, stopped))
      | inr (m, first) ↦
          let (step, found) = each c out m (roots c (member_here c cs)) first in
          let (steps, all) =
            walk_links_lem visit each cs m r (λ y l. roots y (member_there y c cs l))
              (ground (arith, first)) in
          (
            IsWalked-trans P out m r step steps,
            λ y l. elim (member-cons y c cs l) [
              | inl same ↦ steps.grows y (subst (λ z. member z m ≡ true) same found)
              | inr later ↦ all y later
            ],
          )
    ]

    -- What the visit of a new CID adds, from what the loop over its links adds.
    visit_lem :
        (c : C) (out r : List C)
        → P c
        → IsWalked P (c ∷ out) r
        → ((y : C) → member y (links dag blocks c) ≡ true → member y r ≡ true)
        → IsWalked P out r × (member c r ≡ true)
    visit_lem c out r p w below = (
      record {
        grows = λ x h. w.grows x (member_there x c out h);
        closed = λ x y h l. elim (w.closed x y h l) [
          | inr found ↦ inr found
          | inl before ↦ elim (member-cons x c out before) [
            | inl same ↦
                inr (below y (subst (λ z. member y (links dag blocks z) ≡ true) (sym same) l))
            | inr seen ↦ inl seen
          ]
        ];
        sound = λ x h. elim (w.sound x h) [
          | inr q ↦ inr q
          | inl before ↦ elim (member-cons x c out before) [
            | inl same ↦ inr (subst P same p)
            | inr seen ↦ inl seen
          ]
        ];
      },
      w.grows c (member_here c out),
    )

    walk_lem : (n : ℕ) → IsWalk (walk dag blocks n)
    unfolding walk IsWalk
    walk_lem zero c out r p h = elim (Bool-cases (member c out)) [
      | inl seen ↦
          let same : out ≡ r = ground (arith, seen) in
          (
            subst (IsWalked P out) same (IsWalked-refl P out),
            subst (λ l. member c l ≡ true) same seen,
          )
      | inr new ↦ absurd (ground (arith, new))
    ]
    walk_lem (suc n) c out r p h = elim (Bool-cases (member c out)) [
      | inl seen ↦
          let same : out ≡ r = ground (arith, seen) in
          (
            subst (IsWalked P out) same (IsWalked-refl P out),
            subst (λ l. member c l ≡ true) same seen,
          )
      | inr new ↦
          let (w, below) =
            walk_links_lem (walk dag blocks n) (walk_lem n) (links dag blocks c) (c ∷ out) r
              (λ y l. close c y p l) (ground (arith, new)) in
          visit_lem c out r p w below
    ]

  -- The links that a walk has not seen.
  unseen : List C → ℕ
  unseen out = count (λ b. not (member b out)) (linked dag blocks blocks)

  count_mono :
      {B : Type 0} (p q : B → Bool) (bs : List B)
      → ((b : B) → p b ≡ true → q b ≡ true)
      → count p bs ≤ count q bs
  count_mono p q [] h = omega arith
  count_mono p q (b ∷ bs) h = ground (arith, count_mono p q bs h, h b)

  unseen_mono :
      (out r : List C) → ((x : C) → member x out ≡ true → member x r ≡ true) → unseen r ≤ unseen out
  unfolding unseen
  unseen_mono out r grows =
      count_mono (λ b. not (member b r)) (λ b. not (member b out)) (linked dag blocks blocks)
        (λ b h. ground (arith, grows b))

  -- Seeing a link leaves fewer.
  count_seen :
      (c : C) (out cs : List C)
      → member c cs ≡ true
      → member c out ≡ false
      → count (λ b. not (member b (c ∷ out))) cs < count (λ b. not (member b out)) cs
  count_seen c out [] h new = absurd (ground (arith, h))
  count_seen c out (d ∷ cs) h new = elim (Bool-cases (e.beq d c)) [
    | inl same ↦
        let eq : d ≡ c = (e.beq_iff d c).0 same in
        ground (
          arith,
          eq,
          new,
          e.beq_iff c d,
          ap (λ (x : C). member x out) eq,
          count_mono (λ b. not (member b (c ∷ out))) (λ b. not (member b out)) cs
              (λ b k. ground arith),
        )
    | inr other ↦
        ground
          (arith, e.beq_iff c d, e.beq_iff d c, count_seen c out cs (ground (arith, other, h)) new)
  ]

  fewer :
      (c : C) (out : List C)
      → member c (linked dag blocks blocks) ≡ true
      → member c out ≡ false
      → unseen (c ∷ out) < unseen out
  unfolding unseen
  fewer c out h new = count_seen c out (linked dag blocks blocks) h new

  member-append :
      (y : C) (cs ds : List C)
      → ((member y cs ≡ true) ⊎ (member y ds ≡ true))
      → member y (cs ++ ds) ≡ true
  member-append y [] ds h = ground (arith, h)
  member-append y (c ∷ cs) ds h = elim (Bool-cases (e.beq c y)) [
    | inl same ↦ ground (arith, same)
    | inr other ↦ ground (
      arith,
      other,
      member-append y cs ds
          (elim h [ inl first ↦ inl (ground (arith, other, first)) | inr later ↦ inr later ]),
    )
  ]

  -- The links of a block that is present are among the links of all blocks.
  linked_lem :
      (k : Text) (y : C) (raw : Text) (bs : List (Text × Text))
      → lookup k bs ≡ some raw
      → member y (links_in dag blocks raw) ≡ true
      → member y (linked dag blocks bs) ≡ true
  unfolding lookup
  linked_lem k y raw [] h l = absurd (ground (arith, h))
  linked_lem k y raw ((o, v) ∷ bs) h l = elim (Bool-cases (text_eq o k)) [
    | inl same ↦
        let eq : v ≡ raw = ground (arith, same, h) in
        member-append y (links_in dag blocks v) (linked dag blocks bs)
          (inl (subst (λ (r : Text). member y (links_in dag blocks r) ≡ true) (sym eq) l))
    | inr other ↦
        member-append y (links_in dag blocks v) (linked dag blocks bs)
          (inr (linked_lem k y raw bs (ground (arith, other, h)) l))
  ]

  links-linked :
      (c y : C) → member y (links dag blocks c) ≡ true → member y (linked dag blocks blocks) ≡ true
  unfolding links
  links-linked c y h = elim (Bool-cases (dag.is_readable c)) [
    | inr shut ↦ absurd (ground (arith, shut, h))
    | inl present_too ↦ elim (Option-cases (lookup (dag.multihash c) blocks)) [
      | inl absent ↦ absurd (ground (arith, present_too, absent, h))
      | inr (raw, present) ↦
          linked_lem (dag.multihash c) y raw blocks present
            (ground (arith, present_too, present, h))
    ]
  ]

  -- A visit of a link ends where the fuel exceeds the links that are not seen.
  Ends : ℕ → (C → List C → Option (List C)) → Type 0
  Ends n visit =
      (c : C) (out : List C)
      → member c (linked dag blocks blocks) ≡ true
      → unseen out < n
      → (r : List C) × (visit c out ≡ some r)

  walk_links-Ends :
      (n k : ℕ)
      → Ends n (walk dag blocks k)
      → (cs out : List C)
      → ((y : C) → member y cs ≡ true → member y (linked dag blocks blocks) ≡ true)
      → unseen out < n
      → (r : List C) × (walk_links dag blocks (walk dag blocks k) cs out ≡ some r)
  unfolding walk_links Ends IsWalk
  walk_links-Ends n k each [] out all h = (out, refl)
  walk_links-Ends n k each (c ∷ cs) out all h =
      let (m, first) = each c out (all c (member_here c cs)) h in
      let grows = (walk_lem (λ x. Unit) (λ x y p l. tt) k c out m tt first).0.grows in
      let (r, rest) =
        walk_links-Ends n k each cs m (λ y l. all y (member_there y c cs l))
          (ground (arith, h, unseen_mono out m grows)) in
      (r, ground (arith, first, rest))

  walk-Ends : (n : ℕ) → Ends n (walk dag blocks n)
  unfolding walk Ends
  walk-Ends zero c out there h = absurd (omega arith)
  walk-Ends (suc n) c out there h = elim (Bool-cases (member c out)) [
    | inl seen ↦ (out, ground (arith, seen))
    | inr new ↦
        let (r, done) =
          walk_links-Ends n n (walk-Ends n) (links dag blocks c) (c ∷ out) (links-linked c)
            (ground (arith, h, fewer c out there new)) in
        (r, ground (arith, new, done))
  ]

  count-le-length : {B : Type 0} (p : B → Bool) (bs : List B) → count p bs ≤ length bs
  count-le-length p [] = omega arith
  count-le-length p (b ∷ bs) = ground (arith, count-le-length p bs)

  root-Ends :
      (root : C) (out : List C)
      → (r : List C) × (walk dag blocks (enough dag blocks) root out ≡ some r)
  unfolding walk unseen Ends
  root-Ends root out = elim (Bool-cases (member root out)) [
    | inl seen ↦ (out, ground (arith, seen))
    | inr new ↦
        let n = suc (length (linked dag blocks blocks)) in
        let (r, done) =
          walk_links-Ends n n (walk-Ends n) (links dag blocks root) (root ∷ out) (links-linked root)
            (omega (
              arith,
              count-le-length (λ (b : C). not (member b (root ∷ out))) (linked dag blocks blocks),
            )) in
        (r, ground (arith, new, done))
  ]

  -- A walk with this fuel ends from any set of seen CIDs.
  pub walk_from :
      (root : C) (out : List C)
      → (r : List C) × (walk dag blocks (enough dag blocks) root out ≡ some r)
        × IsWalked (λ x. Unit) out r
        × (member root r ≡ true)
  unfolding Ends IsWalk
  walk_from root out =
      let (r, done) = root-Ends root out in
      let (w, found) =
        walk_lem (λ x. Unit) (λ x y p l. tt) (enough dag blocks) root out r tt done in
      (r, done, w, found)

  pub Reach-sound : (P : C → Type 0) → IsClosedUnder P → (root x : C) → P root → Reach root x → P x
  Reach-sound P close root x p here = p
  Reach-sound P close root x p (next r l) = close _ x (Reach-sound P close root _ p r) l

  -- With two more than the number of links in the blocks as its fuel, a walk from a root ends, and the CIDs that it
  -- finds are those that are reachable from the root through the blocks of the store.
  pub walk_exact :
      (root : C)
      → (r : List C) × (walk dag blocks (enough dag blocks) root [] ≡ some r)
        × ((x : C) → (member x r ≡ true) ↔ Reach root x)
  unfolding Ends IsWalk
  walk_exact root =
      let (r, done) = root-Ends root [] in
      let (w, found) =
        walk_lem (Reach root) (λ x y p l. next p l) (enough dag blocks) root [] r here done in
      (
        r,
        done,
        λ x. (
          (λ h. elim (w.sound x h) [ inr p ↦ p | inl before ↦ absurd (ground arith) ]),
          Reach-sound (λ y. member y r ≡ true)
              (λ y z p l. elim (w.closed y z p l) [
                | inr q ↦ q
                | inl before ↦ absurd (ground arith)
              ])
              root x found,
        ),
      )
