-- ===== src/Prelude/Results.antt =====
-- A Go result `(value, error)`: a value, or the error that was returned in its place.
use mathlib.Core.Path.{◌≡◌, refl}
use mathlib.Core.Logic.{◌⊎◌, inl, inr}
use mathlib.Core.Bool.{Bool, true, false}
use native.Mathlib.Omega.{arith}

pub data Result {ℓ κ} (E : Type ℓ) (A : Type κ) : Type (ℓ ⊔ κ) where
  err : E → Result E A
  ok : A → Result E A

pub Result-cases {ℓ κ} :
    {E : Type ℓ} {A : Type κ} (r : Result E A) → ((a : A) × (r ≡ ok a)) ⊎ ((e : E) × (r ≡ err e))
Result-cases (err e) = inr (e, refl)
Result-cases (ok a) = inl (a, refl)

-- `if err != nil { return err }` between two calls.
infixl 5 ◌>>=◌
abbrev pub ◌>>=◌ {ℓ κ ι} :
    {E : Type ℓ} {A : Type κ} {B : Type ι} → Result E A → (A → Result E B) → Result E B
err failure >>= next = err failure
ok a >>= next = next a

-- Inversion of a successful bind.
pub >>=-eq-ok {ℓ κ ι} :
    {E : Type ℓ} {A : Type κ} {B : Type ι} (m : Result E A) (f : A → Result E B) {b : B}
    → (m >>= f) ≡ ok b
    → (a : A) × (m ≡ ok a) × (f a ≡ ok b)
>>=-eq-ok (err e) f h = cc
>>=-eq-ok (ok a) f h = (a, refl, h)

-- A call that returns an error alone.
infixl 5 ◌>>◌
abbrev pub ◌>>◌ {ℓ ι} : {E : Type ℓ} {B : Type ι} → Result E (Unit {0}) → Result E B → Result E B
first >> second = first >>= λ done. second

abbrev pub guard {ℓ} : {E : Type ℓ} → Bool → E → Result E (Unit {0})
guard false failure = err failure
guard true _ = ok tt

-- Two steps on a state, the second one only behind a first one that returns no error.
module _ {E S : Type 0} where
  abbrev pub and_next :
      Result E (Unit {0}) × S → (S → Result E (Unit {0}) × S) → Result E (Unit {0}) × S
  and_next (err e, s) f = (err e, s)
  and_next (ok u, s) f = f s

  -- A property of the state that each of two steps keeps.
  pub and_next_lem :
      (Q : S → Type 0) (p : Result E (Unit {0}) × S) (f : S → Result E (Unit {0}) × S)
      → Q p.1
      → ((t : S) → Q t → Q (f t).1)
      → Q (and_next p f).1
  and_next_lem Q (err e, s) f q step = q
  and_next_lem Q (ok u, s) f q step = step s q

  -- What holds behind a sequence, from what holds behind its first step.
  pub and_next_after :
      (P Q : S → Type 0) (p : Result E (Unit {0}) × S) (f : S → Result E (Unit {0}) × S)
      → P p.1
      → ((t : S) → P t → Q t)
      → ((t : S) → P t → Q (f t).1)
      → Q (and_next p f).1
  and_next_after P Q (err e, s) f h stop step = stop s h
  and_next_after P Q (ok u, s) f h stop step = step s h

  -- Two steps that succeed together succeed one by one.
  pub and_next-ok :
      (p : Result E (Unit {0}) × S) (f : S → Result E (Unit {0}) × S) (t : S)
      → and_next p f ≡ (ok tt, t)
      → (s : S) × (p ≡ (ok tt, s)) × (f s ≡ (ok tt, t))
  and_next-ok (err e, s) f t h = absurd (ground (arith, h))
  and_next-ok (ok u, s) f t h = (s, refl, h)
