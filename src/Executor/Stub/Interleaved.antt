-- ===== src/Executor/Stub/Interleaved.antt =====
-- One job of the stub executor among calls for others (executor.go): the mutex makes every series of
-- calls an interleaving of whole ones.
use veriproc.Prelude.{
  ℕ, suc, ◌≡◌, refl, ap, sym, subst, ◌∙◌, ◌⊎◌, inl, inr, true, false, ◌==◌, Option, some, List, [],
  ◌∷◌, arith, if◌then◌else◌, String, eq_iff, Bool-cases,
}
use veriproc.Prelude.Maps.{lookup}
use veriproc.Store.Records.{Time}
use veriproc.Executor.{Status, is_terminal, succeeded}
use veriproc.Executor.Stub.{Stub, StubJob, poll, poll_job, cancel}
use veriproc.Executor.Stub.Laws.{
  status_of, expected, settled, IsOpen, poll_known, poll_settled, poll_open_end, poll_open_last,
  poll-IsOpen_next, expected_end, other_jobs,
}

-- A call for some job, at a time.
pub data Call : Type 0 where
  poll_of : String → Time → Call
  cancel_of : String → Call

-- What the polls of one job report in a series of calls.
unfoldable pub watch : String → List Call → Stub → List (Option Status)
watch id [] e = []
watch id (poll_of other at ∷ calls) e =
    let rest = watch id calls (poll other at e).1 in
    if other == id then status_of (poll other at e).0 ∷ rest else rest
watch id (cancel_of other ∷ calls) e = watch id calls (cancel other e).1

-- How many polls of the job there are, and that no call cancels it.
abbrev pub own_polls : String → List Call → ℕ
own_polls id [] = 0
own_polls id (poll_of other at ∷ calls) =
    let rest = own_polls id calls in if other == id then suc rest else rest
own_polls id (cancel_of other ∷ calls) = own_polls id calls

abbrev pub Spares : String → List Call → Type 0
Spares id [] = Unit
Spares id (poll_of other at ∷ calls) = Spares id calls
Spares id (cancel_of other ∷ calls) = ((other == id) ≡ false) × Spares id calls

-- The job is to report the plan: it is open and the plan is ahead of it, or it has settled.
abbrev Follows : StubJob → List Status → Type 0
Follows j plan =
    (IsOpen j × (j.transitions ≡ plan))
    ⊎ ((s : Status) × (is_terminal s ≡ true) × (settled j ≡ some s) × (plan ≡ s ∷ []))

-- What one poll reports is the head of what is expected, and the job follows the rest.
abbrev Steps : Time → StubJob → List Status → Type 0
Steps at j plan =
    (rest : List Status) × Follows (poll_job at j).1 rest
    × ((n : ℕ) → expected (suc n) plan ≡ status_of (poll_job at j).0 ∷ expected n rest)

settled-Steps :
    (at : Time) (j : StubJob) (s : Status)
    → is_terminal s ≡ true
    → settled j ≡ some s
    → Steps at j (s ∷ [])
unfolding expected
settled-Steps at j s t h =
    let (status, same) = poll_settled at j h in
    (s ∷ [], inr (s, t, (ap settled same ∙ h), refl), λ n. rw (status, t) refl)

open-Steps :
    (at : Time) (j : StubJob) (plan : List Status)
    → IsOpen j
    → j.transitions ≡ plan
    → Steps at j plan
unfolding expected
open-Steps at j [] o p =
    let (status, done) = poll_open_end at j o p in
    (
      succeeded ∷ [],
      inr (succeeded, refl, done, refl),
      λ n. rw status (ap (λ l. some succeeded ∷ l) (expected_end n)),
    )
open-Steps at j (s ∷ rest) o p = elim (Bool-cases (is_terminal s)) [
  | inl t ↦
      let (status, done) = poll_open_last at j s rest o p t in
      (s ∷ [], inr (s, t, done, refl), λ n. rw (status, t) refl)
  | inr t ↦
      let (status, still, left) = poll-IsOpen_next at j s rest o p t in
      (rest, inl (still, left), λ n. rw (status, t) refl)
]

Follows-Steps : (at : Time) (j : StubJob) (plan : List Status) → Follows j plan → Steps at j plan
Follows-Steps at j plan (inl (o, p)) = open-Steps at j plan o p
Follows-Steps at j plan (inr (s, t, h, e)) = subst (Steps at j) (sym e) (settled-Steps at j s t h)

apart : (other id : String) → (other == id) ≡ false → other ≡ id → ⊥
apart other id h e = ground (arith, (eq_iff other id).1 e, h)

watch-Follows :
    (id : String) (calls : List Call) (e : Stub) (plan : List Status) {j : StubJob}
    → Spares id calls
    → lookup id e.jobs ≡ some j
    → Follows j plan
    → watch id calls e ≡ expected (own_polls id calls) plan
unfolding watch expected
watch-Follows id [] e plan spared h f = refl
watch-Follows id (cancel_of other ∷ calls) e plan {j} spared h f =
    watch-Follows id calls (cancel other e).1 plan {j = j} spared.1
      ((other_jobs other id 0 e (apart other id spared.0)).1 ∙ h) f
watch-Follows id (poll_of other at ∷ calls) e plan {j} spared h f =
    elim (Bool-cases (other == id)) [
      | inl own ↦
          let same : other ≡ id = (eq_iff other id).0 own in
          let here : lookup other e.jobs ≡ some j = ap (λ k. lookup k e.jobs) same ∙ h in
          let (first, next) = poll_known other at e here in
          let (rest, left, head) = Follows-Steps at j plan f in
          let later =
            watch-Follows id calls (poll other at e).1 rest {j = (poll_job at j).1} spared
              (ap (λ k. lookup k (poll other at e).1.jobs) (sym same) ∙ next) left in
          rw (own, first, later) (sym (head (own_polls id calls)))
      | inr elsewhere ↦ rw elsewhere (
          watch-Follows id calls (poll other at e).1 plan {j = j} spared
            ((other_jobs other id at e (apart other id elsewhere)).0 ∙ h) f)
    ]

-- In any series of polls of any jobs of the stub executor and of cancellations of other jobs, the
-- polls of an open job report its plan, as if they were made alone.
pub watch-expected :
    (id : String) (calls : List Call) (e : Stub) (plan : List Status) {j : StubJob}
    → Spares id calls
    → lookup id e.jobs ≡ some j
    → IsOpen j
    → j.transitions ≡ plan
    → watch id calls e ≡ expected (own_polls id calls) plan
watch-expected id calls e plan {j} spared h o p =
    watch-Follows id calls e plan {j = j} spared h (inl (o, p))
