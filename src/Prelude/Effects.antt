-- ===== src/Prelude/Effects.antt =====
-- Code that changes a state and may return an error. What was written before an error stays
-- written, unless the code runs in a transaction (`in_tx`).
pub mod Inversion
pub mod Within
use veriproc.Prelude.Errors.{Error, Result, ok, err}

abbrev pub Eff {ℓ} : Type 0 → Type ℓ → Type ℓ
Eff S A = S → Result A × S

module _ {ℓ} {S : Type 0} {A : Type ℓ} where
  unfoldable pub pure : A → Eff S A
  pure a s = (ok a, s)

  unfoldable pub fail : Error → Eff S A
  fail e s = (err e, s)

  unfoldable pub gets : (S → A) → Eff S A
  gets f s = (ok (f s), s)

  -- A computed outcome, with the state left alone.
  unfoldable pub lift : Result A → Eff S A
  lift r s = (r, s)

module _ {ℓ κ} {S : Type 0} {A : Type ℓ} {B : Type κ} where
  -- What follows a step: the rest on success, the error unchanged otherwise.
  abbrev pub proceed : (A → Eff S B) → Result A → Eff S B
  proceed f (ok a) s = f a s
  proceed f (err e) s = (err e, s)

  infixl 5 ◌>>=◌ ◌>>◌
  -- Opening this opens `pure`, `fail`, `gets` and `lift` too.
  unfoldable pub ◌>>=◌ : Eff S A → (A → Eff S B) → Eff S B
  unfolding pure fail gets lift
  ◌>>=◌ m f s = let (r, t) = m s in proceed f r t

  abbrev pub ◌>>◌ : Eff S A → Eff S B → Eff S B
  m >> k = m >>= λ _. k

  -- `if err := m(); err != nil { … }`: the outcome as a value, and the state it leaves.
  unfoldable pub attempt : Eff S A → (Result A → Eff S B) → Eff S B
  attempt m f s = let (r, t) = m s in f r t

-- `_ = m()`: the outcome is dropped.
abbrev pub ignore {ℓ} : {S : Type 0} {A : Type ℓ} → Eff S A → Eff S (Unit {0})
ignore m = attempt m (λ _. pure tt)

module _ {ℓ} {S : Type 0} {A : Type ℓ} where
  abbrev pub commit_if_ok : S → Result A × S → Result A × S
  commit_if_ok s (ok a, t) = (ok a, t)
  commit_if_ok s (err e, t) = (err e, s)

  -- store.InTx: on an error everything the body wrote is rolled back.
  unfoldable pub in_tx : Eff S A → Eff S A
  in_tx m s = commit_if_ok s (m s)
