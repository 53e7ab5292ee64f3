-- ===== src/Prelude/Lists.antt =====
-- Lists measured and indexed by native numbers, and a predicate at every element.
use Prim.Native.Nat.{ℕ, suc, ◌+◌}
use mathlib.Core.Path.{◌≡◌}
use mathlib.Core.Option.{Option, none, some}
use mathlib.Core.List.{List, [], ◌∷◌, ◌++◌}
use native.Mathlib.Omega.{arith}

module _ {ℓ} {A : Type ℓ} where
  abbrev pub length : List A → ℕ
  length [] = 0
  length (x ∷ xs) = suc (length xs)

  -- The last element, as `jobs[len(jobs)-1]` reads it.
  abbrev pub get_last? : List A → Option A
  get_last? [] = none
  get_last? (x ∷ []) = some x
  get_last? (x ∷ y ∷ ys) = get_last? (y ∷ ys)

  pub length-append : (xs ys : List A) → length (xs ++ ys) ≡ length xs + length ys
  length-append [] ys = omega arith
  length-append (x ∷ xs) ys = omega (arith, length-append xs ys)

-- `IsGood` at every element.
abbrev pub All {ℓ κ} : {A : Type ℓ} → (A → Type κ) → List A → Type κ
All IsGood [] = Unit
All IsGood (first ∷ rest) = IsGood first × All IsGood rest

pub All-append {ℓ κ} :
    {A : Type ℓ} (IsGood : A → Type κ) (front back : List A)
    → All IsGood front
    → All IsGood back
    → All IsGood (front ++ back)
All-append IsGood [] back good more = more
All-append IsGood (first ∷ rest) back good more = (good.0, All-append IsGood rest back good.1 more)
