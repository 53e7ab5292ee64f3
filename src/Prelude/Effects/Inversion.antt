-- ===== src/Prelude/Effects/Inversion.antt =====
-- What a success of composed effects says of its parts.
use mathlib.Core.Path.{◌≡◌, refl, ap}
use native.Mathlib.Omega.{arith}
use veriproc.Prelude.Errors.{Result, ok, err}
use veriproc.Prelude.Effects.{Eff, lift, proceed, ◌>>=◌}

module _ {S : Type 0} {A B : Type 0} where
  -- Both parts succeed, one after the other.
  pub bind-ok :
      (m : Eff S A) (f : A → Eff S B) {s t : S} {b : B}
      → (m >>= f) s ≡ (ok b, t)
      → (a : A) × (u : S) × (m s ≡ (ok a, u)) × (f a u ≡ (ok b, t))
  unfolding ◌>>=◌
  bind-ok m f {s} {t} {b} h = split (m s) refl h
    where
      split :
          (x : Result A × S)
          → m s ≡ x
          → proceed f x.0 x.1 ≡ (ok b, t)
          → (a : A) × (u : S) × (m s ≡ (ok a, u)) × (f a u ≡ (ok b, t))
      split (ok a, u) e k = (a, u, e, k)
      split (err x, u) e k = absurd (ground arith)

pub lift-ok :
    {S : Type 0} {A : Type 0} (r : Result A) {s t : S} {a : A}
    → lift r s ≡ (ok a, t)
    → (r ≡ ok a) × (s ≡ t)
unfolding lift
lift-ok r h = (ap (λ x. x.0) h, ap (λ x. x.1) h)
