-- ===== src/Prelude/Call.antt =====
-- A call that answers with a value or an error, or panics, as Go's dereference of nil does.
use mathlib.Core.Path.{◌≡◌, refl}
use mathlib.Core.Logic.{◌⊎◌, inl, inr}
use mathlib.Core.List.{List, [], ◌∷◌}
use mathlib.Core.Option.{Option, none, some}
use Prim.Native.String.{String}
use component_cli.Prelude.Result.{Error, wrap, Result, ok, err}

pub data Call {ℓ} (A : Type ℓ) : Type ℓ where
  value : A → Call A
  error : Error → Call A
  panic : Call A

infixl 5 ◌>>=◌
abbrev pub ◌>>=◌ {ℓ κ} : {A : Type ℓ} {B : Type κ} → Call A → (A → Call B) → Call B
value a >>= f = f a
error e >>= f = error e
panic >>= f = panic

-- `fmt.Errorf` around the error of a call.
abbrev pub explain {ℓ} : {A : Type ℓ} → String → Call A → Call A
explain s (value a) = value a
explain s (error e) = error (wrap s e)
explain s panic = panic

abbrev pub from_result {ℓ} : {A : Type ℓ} → Result A → Call A
from_result (ok a) = value a
from_result (err e) = error e

-- `*p`
abbrev pub deref {ℓ} : {A : Type ℓ} → Option A → Call A
deref none = panic
deref (some a) = value a

module _ {ℓ κ} {A : Type ℓ} {B : Type κ} where
  -- A loop that appends what a call makes of each element, and stops at the first that fails.
  unfoldable pub map_calls : (A → Call B) → List A → Call (List B)
  map_calls f [] = value []
  map_calls f (x ∷ xs) = do y ← f x; ys ← map_calls f xs; value (y ∷ ys)

  -- Two lists of the same length whose elements at the same place are related.
  abbrev pub Pairwise : (A → B → Type 0) → List A → List B → Type 0
  Pairwise R [] [] = Unit
  Pairwise R [] (y ∷ ys) = ⊥
  Pairwise R (x ∷ xs) [] = ⊥
  Pairwise R (x ∷ xs) (y ∷ ys) = R x y × Pairwise R xs ys

  pub >>=-eq-value :
      (m : Call A) (f : A → Call B) {b : B}
      → (m >>= f) ≡ value b
      → (a : A) × (m ≡ value a) × (f a ≡ value b)
  >>=-eq-value (value a) f h = (a, refl, h)
  >>=-eq-value (error e) f h = cc
  >>=-eq-value panic f h = cc

pub Call-cases {ℓ} :
    {A : Type ℓ} (m : Call A)
    → ((a : A) × (m ≡ value a)) ⊎ (((e : Error) × (m ≡ error e)) ⊎ (m ≡ panic))
Call-cases (value a) = inl (a, refl)
Call-cases (error e) = inr (inl (e, refl))
Call-cases panic = inr (inr refl)
