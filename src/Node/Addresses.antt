-- ===== src/Node/Addresses.antt =====
-- announceAddrs, dialOrder and loopbackOnly of internal/node/node.go. The test for a public address
-- and the one for a loopback address are parameters.
use hf_ipfs.Prelude.{
  count, ◌+◌, ◌≡◌, ◌⊎◌, inl, inr, refl, Bool, true, false, not, List, [], ◌∷◌, ◌++◌, All,
  if◌then◌else◌, Bool-cases, arith, subst, sym,
}

module _ {A : Type 0} where
  -- The loop of announceAddrs, and the first list of dialOrder.
  unfoldable pub public_addrs : (A → Bool) → List A → List A
  public_addrs is_public [] = []
  public_addrs is_public (a ∷ addrs) =
      let rest = public_addrs is_public addrs in if is_public a then a ∷ rest else rest

  -- The second list of dialOrder.
  unfoldable pub local_addrs : (A → Bool) → List A → List A
  local_addrs is_public [] = []
  local_addrs is_public (a ∷ addrs) =
      let rest = local_addrs is_public addrs in if is_public a then rest else a ∷ rest

  unfoldable pub announce_addrs : (A → Bool) → List A → List A
  announce_addrs is_public addrs = elim (public_addrs is_public addrs) [
    | [] ↦ addrs
    | (a ∷ out) ↦ a ∷ out
  ]

  unfoldable pub dial_order : (A → Bool) → List A → List A
  dial_order is_public addrs = public_addrs is_public addrs ++ local_addrs is_public addrs

  -- The loop of loopbackOnly; an address without an IP is no loopback address.
  unfoldable pub all_loopback : (A → Bool) → List A → Bool
  all_loopback is_loopback [] = true
  all_loopback is_loopback (a ∷ addrs) =
      let rest = all_loopback is_loopback addrs in if not (is_loopback a) then false else rest

  unfoldable pub loopback_only : (A → Bool) → List A → Bool
  loopback_only is_loopback [] = false
  loopback_only is_loopback (a ∷ addrs) = all_loopback is_loopback (a ∷ addrs)

  public_addrs_lem : (p : A → Bool) (addrs : List A) → All (λ a. p a ≡ true) (public_addrs p addrs)
  unfolding public_addrs
  public_addrs_lem p [] = tt
  public_addrs_lem p (a ∷ addrs) = elim (Bool-cases (p a)) [
    | inl is_pub ↦
        subst
          (λ t.
            All (λ b. p b ≡ true) (if t then a ∷ public_addrs p addrs else public_addrs p addrs))
          (sym is_pub) (is_pub, public_addrs_lem p addrs)
    | inr is_local ↦
        subst
          (λ t.
            All (λ b. p b ≡ true) (if t then a ∷ public_addrs p addrs else public_addrs p addrs))
          (sym is_local) (public_addrs_lem p addrs)
  ]

  local_addrs_lem : (p : A → Bool) (addrs : List A) → All (λ a. p a ≡ false) (local_addrs p addrs)
  unfolding local_addrs
  local_addrs_lem p [] = tt
  local_addrs_lem p (a ∷ addrs) = elim (Bool-cases (p a)) [
    | inl is_pub ↦
        subst
          (λ t. All (λ b. p b ≡ false) (if t then local_addrs p addrs else a ∷ local_addrs p addrs))
          (sym is_pub) (local_addrs_lem p addrs)
    | inr is_local ↦
        subst
          (λ t. All (λ b. p b ≡ false) (if t then local_addrs p addrs else a ∷ local_addrs p addrs))
          (sym is_local) (is_local, local_addrs_lem p addrs)
  ]

  count-append : (q : A → Bool) (xs ys : List A) → count q (xs ++ ys) ≡ count q xs + count q ys
  count-append q [] ys = ground arith
  count-append q (x ∷ xs) ys = ground (arith, count-append q xs ys)

  count-split :
      (p q : A → Bool) (addrs : List A)
      → count q (public_addrs p addrs) + count q (local_addrs p addrs) ≡ count q addrs
  unfolding public_addrs local_addrs
  count-split p q [] = ground arith
  count-split p q (a ∷ addrs) = ground (arith, count-split p q addrs)

  -- The addresses that are dialled are the ones that were given, each as often, and every public one
  -- stands before every other.
  pub dial_order_lem :
      (is_public : A → Bool) (addrs : List A)
      → ((q : A → Bool) → count q (dial_order is_public addrs) ≡ count q addrs)
        × ((front : List A) × (back : List A) × (dial_order is_public addrs ≡ front ++ back)
            × All (λ a. is_public a ≡ true) front
            × All (λ a. is_public a ≡ false) back)
  unfolding dial_order
  dial_order_lem p addrs = (
    (λ q. ground (
      arith,
      count-append q (public_addrs p addrs) (local_addrs p addrs),
      count-split p q addrs,
    )),
    (
      public_addrs p addrs,
      local_addrs p addrs,
      refl,
      public_addrs_lem p addrs,
      local_addrs_lem p addrs,
    ),
  )

  none_public :
      (p : A → Bool) (addrs : List A) → public_addrs p addrs ≡ [] → All (λ a. p a ≡ false) addrs
  unfolding public_addrs
  none_public p [] h = tt
  none_public p (a ∷ addrs) h = elim (Bool-cases (p a)) [
    | inl is_pub ↦ absurd (ground (arith, is_pub))
    | inr is_local ↦ (is_local, none_public p addrs (ground (arith, is_local)))
  ]

  announced :
      (p : A → Bool) (addrs out : List A)
      → public_addrs p addrs ≡ out
      → (All (λ a. p a ≡ true) (announce_addrs p addrs)
          × (announce_addrs p addrs ≡ public_addrs p addrs))
        ⊎ ((announce_addrs p addrs ≡ addrs) × All (λ a. p a ≡ false) addrs)
  unfolding announce_addrs
  announced p addrs [] h = inr (ground (arith, h), none_public p addrs h)
  announced p addrs (a ∷ out) h =
      let same : announce_addrs p addrs ≡ public_addrs p addrs = ground (arith, h) in
      inl (subst (All (λ b. p b ≡ true)) (sym same) (public_addrs_lem p addrs), same)

  -- What is announced is either public throughout, or everything there is because nothing is public.
  pub announce_addrs_lem :
      (is_public : A → Bool) (addrs : List A)
      → (All (λ a. is_public a ≡ true) (announce_addrs is_public addrs)
          × (announce_addrs is_public addrs ≡ public_addrs is_public addrs))
        ⊎ ((announce_addrs is_public addrs ≡ addrs) × All (λ a. is_public a ≡ false) addrs)
  announce_addrs_lem p addrs = announced p addrs (public_addrs p addrs) refl
