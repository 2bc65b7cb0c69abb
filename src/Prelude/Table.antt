-- ===== src/Prelude/Table.antt =====
-- A Go map as an association list over keys with a Boolean equality. An update keeps a key's place.
use mathlib.Core.Path.{◌≡◌, refl}
use mathlib.Core.Logic.{◌↔◌}
use mathlib.Core.Bool.{Bool, true, false, ◌||◌}
use mathlib.Core.Option.{Option, none, some}
use mathlib.Core.List.{List, [], ◌∷◌}
use native.Mathlib.Omega.{arith}
use hf_ipfs.Prelude.Tests.{if◌then◌else◌}
use hf_ipfs.Prelude.Strings.{Text, text_eq, text_eq_iff}

pub record Eq {ℓ} (A : Type ℓ) : Type ℓ where
  pub beq : A → A → Bool
  pub beq_iff : (x y : A) → (beq x y ≡ true) ↔ (x ≡ y)

instance abbrev pub text_Eq : Eq Text
text_Eq = record { beq = text_eq; beq_iff = text_eq_iff }

pub beq_refl {ℓ} : {A : Type ℓ} ⦃e : Eq A⦄ (a : A) → e.beq a a ≡ true
beq_refl ⦃e⦄ a = (e.beq_iff a a).1 refl

-- A Go map to the empty struct, as the list of its keys.
abbrev pub member {ℓ} : {A : Type ℓ} ⦃e : Eq A⦄ → A → List A → Bool
member a [] = false
member ⦃e⦄ a (x ∷ xs) = e.beq x a || member a xs

module _ {ℓ κ} {K : Type ℓ} {V : Type κ} ⦃e : Eq K⦄ where
  unfoldable pub lookup : K → List (K × V) → Option V
  lookup key [] = none
  lookup key ((other, v) ∷ rows) = if e.beq other key then some v else lookup key rows

  unfoldable pub insert : K → V → List (K × V) → List (K × V)
  insert key v [] = (key, v) ∷ []
  insert key v ((other, w) ∷ rows) =
      if e.beq other key then (other, v) ∷ rows else (other, w) ∷ insert key v rows

  unfoldable pub remove : K → List (K × V) → List (K × V)
  remove key [] = []
  remove key ((other, w) ∷ rows) =
      let rest = remove key rows in if e.beq other key then rest else (other, w) ∷ rest

  pub lookup-insert :
      (key other : K) (v : V) (rows : List (K × V))
      → lookup other (insert key v rows) ≡ (if e.beq key other then some v else lookup other rows)
  unfolding lookup insert
  lookup-insert key other v [] = refl
  lookup-insert key other v ((head, w) ∷ rows) = ground (
    arith,
    e.beq_iff key other,
    e.beq_iff head key,
    e.beq_iff head other,
    lookup-insert key other v rows,
  )

  pub lookup-remove :
      (key other : K) (rows : List (K × V))
      → lookup other (remove key rows) ≡ (if e.beq key other then none else lookup other rows)
  unfolding lookup remove
  lookup-remove key other [] = ground arith
  lookup-remove key other ((head, w) ∷ rows) = ground (
    arith,
    e.beq_iff key other,
    e.beq_iff head key,
    e.beq_iff head other,
    lookup-remove key other rows,
  )

  -- A rename: what is under one key goes to the other.
  unfoldable pub moved : K → K → List (K × V) → List (K × V)
  moved from to rows = elim (lookup from rows) [
    | none ↦ rows
    | some v ↦ remove from (insert to v rows)
  ]

  pub lookup-insert_self :
      (key : K) (v : V) (rows : List (K × V)) → lookup key (insert key v rows) ≡ some v
  lookup-insert_self key v rows = rw (lookup-insert, (e.beq_iff key key).1 refl)

  pub lookup-moved :
      (from to : K) (v : V) (rows : List (K × V))
      → lookup from rows ≡ some v
      → e.beq from to ≡ false
      → lookup to (moved from to rows) ≡ some v
  unfolding moved
  lookup-moved from to v rows there apart =
      ground (
        arith,
        there,
        apart,
        lookup-remove from to (insert to v rows),
        lookup-insert_self to v rows,
      )
