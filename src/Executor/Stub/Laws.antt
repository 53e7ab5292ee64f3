-- ===== src/Executor/Stub/Laws.antt =====
-- The stub executor against a description of what its callers observe (executor.go).
use veriproc.Prelude.{
  ℕ, zero, suc, ◌≡◌, refl, true, false, Option, none, some, List, [], ◌∷◌, arith, if◌then◌else◌,
  String, eq_iff, Bool-cases, Option-cases, inl, inr, ap, ◌∙◌,
}
use veriproc.Prelude.Errors.{Result, ok, err}
use veriproc.Prelude.Maps
use veriproc.Prelude.Maps.{Assoc, lookup, lookup-insert, lookup-insert_self}
use veriproc.Store.Records.{Time}
use veriproc.Executor.{Status, is_terminal, succeeded, cancelled, Observation}
use veriproc.Executor.Stub.{Stub, StubJob, poll, poll_job, cancel, cancel_job}

-- The statuses that `n` polls of one job report, and an error for an unknown one.
abbrev pub status_of : Result Observation → Option Status
status_of (ok o) = some o.status
status_of (err e) = none

pub polls : ℕ → String → Time → Stub → List (Option Status)
polls zero id at e = []
polls (suc n) id at e = status_of (poll id at e).0 ∷ polls n id at (poll id at e).1

-- What is expected of a plan: its statuses in order up to the first terminal one, which then
-- repeats, or, at the end of a plan without one, success.
unfoldable pub expected : ℕ → List Status → List (Option Status)
expected zero plan = []
expected (suc n) [] = some succeeded ∷ expected n []
expected (suc n) (s ∷ rest) =
    let repeated = expected n (s ∷ []) in
    let next = expected n rest in some s ∷ (if is_terminal s then repeated else next)

-- The status that a finished job reports at every poll.
abbrev pub settled : StubJob → Option Status
settled j = if j.is_cancelled then some cancelled else j.terminal

pub poll_known :
    (id : String) (at : Time) (e : Stub) {j : StubJob}
    → lookup id e.jobs ≡ some j
    → ((poll id at e).0 ≡ (poll_job at j).0)
      × (lookup id (poll id at e).1.jobs ≡ some (poll_job at j).1)
unfolding poll
poll_known id at e {j} h = rw h (refl, lookup-insert_self id (poll_job at j).1 e.jobs)

pub poll_settled :
    (at : Time) (j : StubJob) {s : Status}
    → settled j ≡ some s
    → (status_of (poll_job at j).0 ≡ some s) × ((poll_job at j).1 ≡ j)
poll_settled at j h = ground arith

polls-settled :
    (n : ℕ) (id : String) (at : Time) (e : Stub) {j : StubJob} (s : Status)
    → is_terminal s ≡ true
    → lookup id e.jobs ≡ some j
    → settled j ≡ some s
    → polls n id at e ≡ expected n (s ∷ [])
unfolding polls expected
polls-settled zero id at e s t h k = refl
polls-settled (suc n) id at e {j} s t h k =
    let (first, next) = poll_known id at e h in
    let (status, same) = poll_settled at j k in
    let rest = polls-settled n id at (poll id at e).1 {j = j} s t (next ∙ ap some same) k in
    cc (first, status, rest, if_true t)
  where
    if_true :
        is_terminal s ≡ true
        → (if is_terminal s then expected n (s ∷ []) else expected n []) ≡ expected n (s ∷ [])
    if_true q = rw q

-- A job that is neither cancelled nor finished.
abbrev pub IsOpen : StubJob → Type 0
IsOpen j = (j.is_cancelled ≡ false) × (j.terminal ≡ none)

pub poll_open_end :
    (at : Time) (j : StubJob)
    → IsOpen j
    → j.transitions ≡ []
    → (status_of (poll_job at j).0 ≡ some succeeded) × (settled (poll_job at j).1 ≡ some succeeded)
poll_open_end at j o h = ground arith

pub poll_open_last :
    (at : Time) (j : StubJob) (s : Status) (rest : List Status)
    → IsOpen j
    → j.transitions ≡ s ∷ rest
    → is_terminal s ≡ true
    → (status_of (poll_job at j).0 ≡ some s) × (settled (poll_job at j).1 ≡ some s)
poll_open_last at j s rest o h t = ground arith

pub poll-IsOpen_next :
    (at : Time) (j : StubJob) (s : Status) (rest : List Status)
    → IsOpen j
    → j.transitions ≡ s ∷ rest
    → is_terminal s ≡ false
    → (status_of (poll_job at j).0 ≡ some s)
      × IsOpen (poll_job at j).1
      × ((poll_job at j).1.transitions ≡ rest)
poll-IsOpen_next at j s rest o h t = ground arith

pub expected_end : (n : ℕ) → expected n [] ≡ expected n (succeeded ∷ [])
unfolding expected
expected_end zero = refl
expected_end (suc n) = ap (λ l. some succeeded ∷ l) (expected_end n)

-- However often an open job is polled, its callers see its plan: the statuses in order up to the
-- first terminal one, repeated from then on; after a plan without a terminal status, success.
pub polls-expected :
    (n : ℕ) (id : String) (at : Time) (e : Stub) (plan : List Status) {j : StubJob}
    → lookup id e.jobs ≡ some j
    → IsOpen j
    → j.transitions ≡ plan
    → polls n id at e ≡ expected n plan
unfolding polls expected
polls-expected zero id at e plan h o p = refl
polls-expected (suc n) id at e [] {j} h o p =
    let (first, next) = poll_known id at e h in
    let (status, done) = poll_open_end at j o p in
    cc (
      first,
      status,
      expected_end n,
      polls-settled n id at (poll id at e).1 succeeded refl next done,
    )
polls-expected (suc n) id at e (s ∷ rest) {j} h o p =
    let (first, next) = poll_known id at e h in
    elim (Bool-cases (is_terminal s)) [
      | inl t ↦
          let (status, done) = poll_open_last at j s rest o p t in
          rw t (cc (first, status, polls-settled n id at (poll id at e).1 s t next done))
      | inr t ↦
          let (status, still, left) = poll-IsOpen_next at j s rest o p t in
          rw t (cc (first, status, polls-expected n id at (poll id at e).1 rest next still left))
    ]

cancel_known :
    (id : String) (e : Stub) {j : StubJob}
    → lookup id e.jobs ≡ some j
    → IsOpen j
    → ((cancel id e).0 ≡ ok tt)
      × (lookup id (cancel id e).1.jobs
          ≡ some (record j { is_cancelled = true; terminal = some cancelled }))
unfolding cancel
cancel_known id e {j} h o = rw (h, o.1) (refl, lookup-insert_self id _ e.jobs)

cancel_finished :
    (id : String) (e : Stub) {j : StubJob} {s : Status}
    → lookup id e.jobs ≡ some j
    → j.terminal ≡ some s
    → ((cancel id e).0 ≡ ok tt) × (lookup id (cancel id e).1.jobs ≡ some j)
unfolding cancel
cancel_finished id e {j} h t = rw (h, t) (refl, lookup-insert_self id _ e.jobs)

-- Cancelling an open job succeeds, and from then on every poll reports it as cancelled.
pub polls-cancel :
    (n : ℕ) (id : String) (at : Time) (e : Stub) {j : StubJob}
    → lookup id e.jobs ≡ some j
    → IsOpen j
    → ((cancel id e).0 ≡ ok tt) × (polls n id at (cancel id e).1 ≡ expected n (cancelled ∷ []))
polls-cancel n id at e h o =
    let (done, now) = cancel_known id e h o in
    (done, polls-settled n id at (cancel id e).1 cancelled refl now refl)

-- Cancelling a job that has already reported a terminal status succeeds too, and every later poll
-- goes on reporting that status.
pub polls-cancel_finished :
    (n : ℕ) (id : String) (at : Time) (e : Stub) {j : StubJob} (s : Status)
    → lookup id e.jobs ≡ some j
    → j.is_cancelled ≡ false
    → j.terminal ≡ some s
    → is_terminal s ≡ true
    → ((cancel id e).0 ≡ ok tt) × (polls n id at (cancel id e).1 ≡ expected n (s ∷ []))
polls-cancel_finished n id at e {j} s h c t fin =
    let (done, now) = cancel_finished id e h t in
    (done, polls-settled n id at (cancel id e).1 {j = j} s fin now (rw c t))

-- A call for one job leaves every other job alone.
pub other_jobs :
    (id other : String) (at : Time) (e : Stub)
    → (id ≡ other → ⊥)
    → (lookup other (poll id at e).1.jobs ≡ lookup other e.jobs)
      × (lookup other (cancel id e).1.jobs ≡ lookup other e.jobs)
unfolding poll cancel
other_jobs id other at e ne = elim (Option-cases (lookup id e.jobs)) [
  | inl h ↦ rw h (refl, refl)
  | inr (j, h) ↦ rw h (elsewhere (poll_job at j).1, elsewhere (cancel_job j.terminal j).1)
]
  where
    elsewhere : (k : StubJob) → lookup other (Maps.insert id k e.jobs) ≡ lookup other e.jobs
    elsewhere k = ground (arith, lookup-insert id other k e.jobs, eq_iff id other)
