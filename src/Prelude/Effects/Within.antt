-- ===== src/Prelude/Effects/Within.antt =====
-- What an effect may do to the state, as a preorder between the states before and after: one rule
-- for each way to build an effect.
use mathlib.Core.Path.{◌≡◌, refl}
use mathlib.Core.Bool.{Bool, true, false}
use veriproc.Prelude.Tests.{if◌then◌else◌}
use veriproc.Prelude.Errors.{Error, Result, ok, err}
use veriproc.Prelude.Effects.{
  Eff, pure, fail, gets, lift, proceed, ◌>>=◌, attempt, in_tx, commit_if_ok,
}

-- Whether `m` returns or fails, the state it leaves is related to the one it started from.
pub record Within {ℓ} {S : Type 0} {A : Type ℓ} (R : S → S → Type 0) (m : Eff S A) : Type 0 where
  pub at : (s : S) → R s (m s).1

pub record IsPreorder {S : Type 0} (R : S → S → Type 0) : Type 0 where
  pub reflexive : (s : S) → R s s
  pub transitive : (s t u : S) → R s t → R t u → R s u

module _ {ℓ} {S : Type 0} {A : Type ℓ} {R : S → S → Type 0} (o : IsPreorder R) where
  pub Within-pure : (a : A) → Within R (pure a)
  unfolding pure
  Within-pure a = record { at = o.reflexive }

  pub Within-fail : (e : Error) → Within R (fail {A = A} e)
  unfolding fail
  Within-fail e = record { at = o.reflexive }

  pub Within-gets : (f : S → A) → Within R (gets f)
  unfolding gets
  Within-gets f = record { at = o.reflexive }

  pub Within-lift : (r : Result A) → Within R (lift r)
  unfolding lift
  Within-lift r = record { at = o.reflexive }

  pub Within-if :
      (b : Bool) (m n : Eff S A) → Within R m → Within R n → Within R (if b then m else n)
  Within-if true m n km kn = km
  Within-if false m n km kn = kn

  pub Within-in_tx : (m : Eff S A) → Within R m → Within R (in_tx m)
  unfolding in_tx
  Within-in_tx m km = record { at = λ s. settle s (m s) (km.at s) }
    where
      settle : (s : S) (x : Result A × S) → R s x.1 → R s (commit_if_ok s x).1
      settle s (ok a, t) h = h
      settle s (err e, t) h = o.reflexive s

module _ {ℓ κ} {S : Type 0} {A : Type ℓ} {B : Type κ} {R : S → S → Type 0} (o : IsPreorder R) where
  pub Within-bind :
      (m : Eff S A) (f : A → Eff S B) → Within R m → ((a : A) → Within R (f a)) → Within R (m >>= f)
  unfolding ◌>>=◌
  Within-bind m f km kf = record {
    at = λ s. let (r, t) = m s in o.transitive s t _ (km.at s) (rest r t);
  }
    where
      rest : (r : Result A) (t : S) → R t (proceed f r t).1
      rest (ok a) t = (kf a).at t
      rest (err e) t = o.reflexive t

  -- The rest may use what the step returns.
  pub Within-bind_returned :
      (m : Eff S A) (f : A → Eff S B)
      → Within R m
      → ((s : S) (a : A) → (m s).0 ≡ ok a → Within R (f a))
      → Within R (m >>= f)
  unfolding ◌>>=◌
  Within-bind_returned m f km kf = record {
    at = λ s. let (r, t) = m s in o.transitive s t _ (km.at s) (rest s r t refl);
  }
    where
      rest : (s : S) (r : Result A) (t : S) → (m s).0 ≡ r → R t (proceed f r t).1
      rest s (ok a) t e = (kf s a e).at t
      rest s (err e) t _ = o.reflexive t

  pub Within-attempt :
      (m : Eff S A) (f : Result A → Eff S B)
      → Within R m
      → ((r : Result A) → Within R (f r))
      → Within R (attempt m f)
  unfolding attempt
  Within-attempt m f km kf = record {
    at = λ s. let (r, t) = m s in o.transitive s t _ (km.at s) ((kf r).at t);
  }

pub ruleset within_rules = (
  Within-pure, Within-fail, Within-gets, Within-lift, Within-if, Within-in_tx, Within-bind,
  Within-attempt,
)
