-- ===== src/Hfcache/Sorting/Laws.antt =====
-- The insertion sort of internal/hfcache/cache.go puts a list in order and keeps what is in it.
use hf_ipfs.Prelude.{
  count, ◌+◌, ◌≡◌, Bool, true, false, List, [], ◌∷◌, Text, text_lt, if◌then◌else◌, All, refl, arith,
  sym, subst, Bool-cases, inl, inr, All-mono,
}
use hf_ipfs.Mapping.Entries.{FileManifest}
use hf_ipfs.Hfcache.Sorting.{sink_down, sort_from, onto, sort, sort_strings, sort_manifests}

-- The order of byte strings.
text_lt_asym : (s t : Text) → text_lt s t ≡ true → text_lt t s ≡ false
unfolding text_lt
text_lt_asym s [] h = ground arith
text_lt_asym [] (d ∷ t) h = ground arith
text_lt_asym (c ∷ s) (d ∷ t) h = ground (arith, text_lt_asym s t)

text_ge_trans : (s t u : Text) → text_lt s t ≡ false → text_lt t u ≡ false → text_lt s u ≡ false
unfolding text_lt
text_ge_trans s t [] h k = ground arith
text_ge_trans [] [] (e ∷ u) h k = ground arith
text_ge_trans [] (d ∷ t) (e ∷ u) h k = ground arith
text_ge_trans (c ∷ s) [] (e ∷ u) h k = ground arith
text_ge_trans (c ∷ s) (d ∷ t) (e ∷ u) h k = ground (arith, text_ge_trans s t u)

-- Strict order tests: no two elements are each less than the other, and not being less is transitive.
record IsOrder {A : Type 0} (lt : A → A → Bool) : Type 0 where
  asym : (x y : A) → lt x y ≡ true → lt y x ≡ false
  ge_trans : (x y z : A) → lt x y ≡ false → lt y z ≡ false → lt x z ≡ false

text_IsOrder : {A : Type 0} (key : A → Text) → IsOrder (λ x y. text_lt (key x) (key y))
text_IsOrder key = record {
  asym = λ x y. text_lt_asym (key x) (key y);
  ge_trans = λ x y z. text_ge_trans (key x) (key y) (key z);
}

-- No element is less than one that stands before it.
unfoldable pub IsSorted : {A : Type 0} → (A → A → Bool) → List A → Type 0
IsSorted lt [] = Unit
IsSorted lt (x ∷ xs) = All (λ y. lt y x ≡ false) xs × IsSorted lt xs

module _ {A : Type 0} (lt : A → A → Bool) (order : IsOrder lt) where
  -- The part of the array below i, which stands in reverse.
  unfoldable IsDescending : List A → Type 0
  IsDescending [] = Unit
  IsDescending (x ∷ xs) = All (λ y. lt x y ≡ false) xs × IsDescending xs

  sink_down_below :
      (x y : A) (below : List A)
      → lt y x ≡ false
      → All (λ z. lt y z ≡ false) below
      → All (λ z. lt y z ≡ false) (sink_down lt x below)
  unfolding sink_down
  sink_down_below x y [] h all = (h, all)
  sink_down_below x y (z ∷ below) h all =
      elim (lt x z)
        as (λ t.
          All (λ w. lt y w ≡ false) (if t then z ∷ sink_down lt x below else x ∷ z ∷ below)) [
            | true ↦ (all.0, sink_down_below x y below h all.1)
            | false ↦ (h, all)
          ]

  ge-All :
      (x y : A) (l : List A)
      → lt x y ≡ false
      → All (λ z. lt y z ≡ false) l
      → All (λ z. lt x z ≡ false) l
  ge-All x y [] h all = tt
  ge-All x y (z ∷ l) h all = (order.ge_trans x y z h all.0, ge-All x y l h all.1)

  sink_down-IsDescending : (x : A) (l : List A) → IsDescending l → IsDescending (sink_down lt x l)
  unfolding sink_down IsDescending
  sink_down-IsDescending x [] h = (tt, tt)
  sink_down-IsDescending x (y ∷ below) (hy, h) = elim (Bool-cases (lt x y)) [
    | inl less ↦
        subst (λ t. IsDescending (if t then y ∷ sink_down lt x below else x ∷ y ∷ below)) (sym less)
          (sink_down_below x y below (order.asym x y less) hy, sink_down-IsDescending x below h)
    | inr not_less ↦
        subst (λ t. IsDescending (if t then y ∷ sink_down lt x below else x ∷ y ∷ below))
          (sym not_less) ((not_less, ge-All x y below not_less hy), (hy, h))
  ]

  sort_from-IsDescending :
      (before l : List A) → IsDescending before → IsDescending (sort_from lt before l)
  unfolding sort_from
  sort_from-IsDescending before [] h = h
  sort_from-IsDescending before (x ∷ l) h =
      sort_from-IsDescending (sink_down lt x before) l (sink_down-IsDescending x before h)

  -- Read backwards, the array is in order.
  onto-IsSorted :
      (xs l : List A)
      → IsDescending xs
      → IsSorted lt l
      → All (λ y. All (λ x. lt y x ≡ false) xs) l
      → IsSorted lt (onto xs l)
  unfolding onto IsDescending IsSorted
  onto-IsSorted [] l h k between = k
  onto-IsSorted (x ∷ xs) l (hx, h) k between =
      onto-IsSorted xs (x ∷ l) h
        (
          All-mono (λ y. All (λ w. lt y w ≡ false) (x ∷ xs)) (λ y. lt y x ≡ false) (λ y a. a.0) l
              between,
          k,
        )
        (
          hx,
          All-mono (λ y. All (λ w. lt y w ≡ false) (x ∷ xs)) (λ y. All (λ w. lt y w ≡ false) xs)
              (λ y a. a.1) l between,
        )

  All-nil : (l : List A) → All (λ y. All (λ x. lt y x ≡ false) []) l
  All-nil [] = tt
  All-nil (x ∷ l) = (tt, All-nil l)

  sort-IsSorted : (l : List A) → IsSorted lt (sort lt l)
  unfolding sort IsSorted IsDescending
  sort-IsSorted l = onto-IsSorted (sort_from lt [] l) [] (sort_from-IsDescending [] l tt) tt tt

module _ {A : Type 0} (lt : A → A → Bool) (p : A → Bool) where
  count-sink_down : (x : A) (l : List A) → count p (sink_down lt x l) ≡ count p (x ∷ l)
  unfolding sink_down
  count-sink_down x [] = refl
  count-sink_down x (y ∷ l) = ground (arith, count-sink_down x l)

  count-sort_from :
      (before l : List A) → count p (sort_from lt before l) ≡ count p before + count p l
  unfolding sort_from
  count-sort_from before [] = ground arith
  count-sort_from before (x ∷ l) =
      ground (arith, count-sort_from (sink_down lt x before) l, count-sink_down x before)

  count-onto : (xs l : List A) → count p (onto xs l) ≡ count p xs + count p l
  unfolding onto
  count-onto [] l = ground arith
  count-onto (x ∷ xs) l = ground (arith, count-onto xs (x ∷ l))

  count-sort : (l : List A) → count p (sort lt l) ≡ count p l
  unfolding sort
  count-sort l = ground (arith, count-onto (sort_from lt [] l) [], count-sort_from [] l)

-- The manifests of a snapshot come out in the order of their paths, and they are the ones that
-- went in: of every kind there are as many as before.
pub sort_manifests_lem :
    (fs : List FileManifest)
    → IsSorted (λ f g. text_lt f.path g.path) (sort_manifests fs)
      × ((p : FileManifest → Bool) → count p (sort_manifests fs) ≡ count p fs)
unfolding sort_manifests
sort_manifests_lem fs = (
  sort-IsSorted (λ f g. text_lt f.path g.path) (text_IsOrder (λ f. f.path)) fs,
  λ p. count-sort (λ f g. text_lt f.path g.path) p fs,
)

-- The names of the repositories come out in order, each as often as it went in.
pub sort_strings_lem :
    (ss : List Text)
    → IsSorted text_lt (sort_strings ss)
      × ((p : Text → Bool) → count p (sort_strings ss) ≡ count p ss)
unfolding sort_strings
sort_strings_lem ss =
    (sort-IsSorted text_lt (text_IsOrder (λ s. s)) ss, λ p. count-sort text_lt p ss)
