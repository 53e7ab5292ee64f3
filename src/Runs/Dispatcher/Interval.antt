-- ===== src/Runs/Dispatcher/Interval.antt =====
-- The adaptive interval of the dispatcher (Run of internal/runs/dispatcher.go).
use veriproc.Prelude.{
  ℕ, zero, suc, ◌*◌, ◌≤◌, ◌≡◌, refl, ◌∙◌, ap, Bool, true, false, List, [], ◌∷◌, ◌++◌, arith, ltb,
  if◌then◌else◌, Bool-cases, inl, inr,
}
use veriproc.Runs.Dispatcher.{base_interval, max_interval, next_interval, interval_after}

abbrev pub InRange : ℕ → ℕ → Type 0
InRange interval current = (base_interval interval ≤ current) × (current ≤ max_interval interval)

next_interval-InRange :
    (interval current : ℕ) (busy : Bool)
    → InRange interval current
    → InRange interval (next_interval interval busy current)
unfolding next_interval max_interval
next_interval-InRange interval current true h =
    let b : ℕ = base_interval interval in (omega arith, omega arith)
next_interval-InRange interval current false h =
    elim (Bool-cases (ltb (20 * base_interval interval) (current * 2))) [
      | inl e ↦ rw e (omega arith, omega arith)
      | inr e ↦ rw e (omega (arith, h.0), ground arith)
    ]

-- Whatever ticks are busy or idle, the interval stays between the base and twenty times the base,
-- where it starts there.
pub interval_after-InRange :
    (interval : ℕ) (ticks : List Bool) (current : ℕ)
    → InRange interval current
    → InRange interval (interval_after interval ticks current)
unfolding interval_after
interval_after-InRange interval [] current h = h
interval_after-InRange interval (busy ∷ rest) current h =
    interval_after-InRange interval rest _ (next_interval-InRange interval current busy h)

abbrev pub capped : ℕ → ℕ → ℕ
capped limit x = if ltb limit x then limit else x

pub doubled : ℕ → ℕ → ℕ
doubled zero x = x
doubled (suc n) x = doubled n (x * 2)

pub idle : ℕ → List Bool
idle zero = []
idle (suc n) = false ∷ idle n

next_of_capped :
    (limit x : ℕ)
    → (if ltb limit (capped limit x * 2) then limit else capped limit x * 2) ≡ capped limit (x * 2)
next_of_capped limit x = ground arith

idle_ticks :
    (interval n x : ℕ)
    → interval_after interval (idle n) (capped (max_interval interval) x)
      ≡ capped (max_interval interval) (doubled n x)
unfolding interval_after idle doubled next_interval
idle_ticks interval zero x = refl
idle_ticks interval (suc n) x =
    ap (λ y. interval_after interval (idle n) y) (next_of_capped (max_interval interval) x)
    ∙ idle_ticks interval n (x * 2)

base_capped :
    (interval : ℕ)
    → base_interval interval ≡ capped (max_interval interval) (base_interval interval)
unfolding max_interval
base_capped interval = ground arith

-- After a busy tick and then `n` idle ones the interval is the base doubled `n` times, and twenty
-- times the base where that is less, whatever came before.
pub interval_after-idle :
    (interval n : ℕ) (before : List Bool) (current : ℕ)
    → interval_after interval (before ++ true ∷ idle n) current
      ≡ capped (max_interval interval) (doubled n (base_interval interval))
unfolding interval_after next_interval
interval_after-idle interval n [] current =
    ap (λ x. interval_after interval (idle n) x) (base_capped interval)
    ∙ idle_ticks interval n (base_interval interval)
interval_after-idle interval n (busy ∷ before) current =
    interval_after-idle interval n before (next_interval interval busy current)
