-- ===== src/Reconciler/Stale.antt =====
-- Which runs the reconciler picks (findStale of internal/reconciler/reconciler.go).
use veriproc.Prelude.{
  ℕ, zero, suc, ◌-◌, ◌*◌, ◌≡◌, ◌<◌, refl, ap, ◌∙◌, ◌⊎◌, String, Bool, true, false, ◌==◌, ◌&&◌,
  Option, none, some, if◌then◌else◌, leb, eq_iff, List, [], ◌∷◌, All, arith, ltb, length, eq_refl,
  Bool-cases, inl, inr,
}
use veriproc.Store.Table.{select, exists_row, affected}
use veriproc.Store.Records.{Time, RunState, RunRecord, JobRecord}
use veriproc.Store.Db.{Db}
use veriproc.Store.Runs.{has_id, dispatched_or_running}
use veriproc.Reconciler.{
  observed, later_of, observed_at, is_before, is_stale, place, by_created, first_rows, run_ids,
  find_stale,
}

module _ (q : RunRecord → Bool) where
  -- The id of a row of the table that passes the test.
  abbrev IsId : List RunRecord → String → Type 0
  IsId rows id = exists_row (λ r. has_id id r && q r) rows ≡ true

  abbrev pub IsRow : List RunRecord → RunRecord → Type 0
  IsRow rows r = IsId rows r.run_id

  weaker :
      (x : RunRecord) (rows rs : List RunRecord) → All (IsRow rows) rs → All (IsRow (x ∷ rows)) rs
  weaker x rows [] h = tt
  weaker x rows (r ∷ rs) h = (ground arith, weaker x rows rs h.1)

  selected : (rows : List RunRecord) → All (IsRow rows) (select q rows)
  selected [] = tt
  selected (x ∷ rows) = elim (Bool-cases (q x)) [
    | inl e ↦ rw e (rw (e, eq_refl x.run_id) refl, weaker x rows (select q rows) (selected rows))
    | inr e ↦ rw e (weaker x rows (select q rows) (selected rows))
  ]

  placed :
      (rows : List RunRecord) (r : RunRecord) (rs : List RunRecord)
      → IsRow rows r
      → All (IsRow rows) rs
      → All (IsRow rows) (place r rs)
  placed rows r [] here rest = (here, tt)
  placed rows r (s ∷ ss) here rest = elim (Bool-cases (ltb s.created_at r.created_at)) [
    | inl e ↦ rw e (rest.0, placed rows r ss here rest.1)
    | inr e ↦ rw e (here, rest)
  ]

  sorted : (rows rs : List RunRecord) → All (IsRow rows) rs → All (IsRow rows) (by_created rs)
  sorted rows [] h = tt
  sorted rows (r ∷ rs) h = placed rows r (by_created rs) h.0 (sorted rows rs h.1)

  named :
      (n : ℕ) (rows rs : List RunRecord)
      → All (IsRow rows) rs
      → All (IsId rows) (run_ids (first_rows n rs))
  named n rows [] h = tt
  named zero rows (r ∷ rs) h = tt
  named (suc n) rows (r ∷ rs) h = (h.0, named n rows rs h.1)

-- A time that is NULL, or lies before the limit.
abbrev pub IsBefore : Option Time → Time → Type 0
IsBefore none limit = Unit
IsBefore (some t) limit = t < limit

-- A dispatched or running run without a marker, or with an orphaned one, of which no job was observed
-- since the cutoff.
pub record IsStale (orphaned cutoff : Time) (jobs : List JobRecord) (r : RunRecord) : Type 0 where
  pub active : (r.state ≡ RunState.dispatched) ⊎ (r.state ≡ RunState.running)
  pub unlocked : IsBefore r.reconciliation_started_at orphaned
  pub unseen : All (λ j. j.run_id ≡ r.run_id → IsBefore (observed j) cutoff) jobs

-- A row of the table that satisfies a condition.
abbrev pub SomeRow : (RunRecord → Type 0) → List RunRecord → Type 0
SomeRow P [] = ⊥
SomeRow P (r ∷ rows) = P r ⊎ SomeRow P rows

is_before-IsBefore : (o : Option Time) (limit : Time) → is_before o limit ≡ true → IsBefore o limit
is_before-IsBefore none limit h = tt
is_before-IsBefore (some t) limit h = ground (arith, h)

-- The latest of two times is before the limit only where both are.
later_of_left :
    (a b : Option Time) (limit : Time)
    → is_before (later_of a b) limit ≡ true
    → is_before a limit ≡ true
later_of_left none b limit h = refl
later_of_left (some a) none limit h = h
later_of_left (some a) (some b) limit h = ground arith

later_of_right :
    (a b : Option Time) (limit : Time)
    → is_before (later_of a b) limit ≡ true
    → is_before b limit ≡ true
later_of_right none b limit h = h
later_of_right (some a) none limit h = refl
later_of_right (some a) (some b) limit h = ground arith

unseen_jobs :
    (id : String) (cutoff : Time) (jobs : List JobRecord)
    → is_before (observed_at (select (λ (j : JobRecord). j.run_id == id) jobs)) cutoff ≡ true
    → All (λ j. j.run_id ≡ id → IsBefore (observed j) cutoff) jobs
unseen_jobs id cutoff [] h = tt
unseen_jobs id cutoff (j ∷ jobs) h = elim (Bool-cases (j.run_id == id)) [
  | inl own ↦ (
    λ e. is_before-IsBefore (observed j) cutoff (later_of_left (observed j) _ cutoff (taken own)),
    unseen_jobs id cutoff jobs (later_of_right (observed j) _ cutoff (taken own)),
  )
  | inr not_own ↦ (
    λ e. absurd (ground (arith, (eq_iff j.run_id id).1 e)),
    unseen_jobs id cutoff jobs (passed not_own),
  )
]
  where
    rest : Option Time
    rest = observed_at (select (λ (k : JobRecord). k.run_id == id) jobs)

    by_test :
        (b : Bool) (c : Bool)
        → b ≡ c
        → is_before
            (observed_at (
              if b
              then j ∷ select (λ (k : JobRecord). k.run_id == id) jobs
              else select (λ (k : JobRecord). k.run_id == id) jobs))
            cutoff
          ≡ true
        → is_before (if c then later_of (observed j) rest else rest) cutoff ≡ true
    by_test true true e k = k
    by_test false false e k = k
    by_test true false e k = absurd (ground arith)
    by_test false true e k = absurd (ground arith)

    taken : (j.run_id == id) ≡ true → is_before (later_of (observed j) rest) cutoff ≡ true
    taken own = by_test (j.run_id == id) true own h

    passed : (j.run_id == id) ≡ false → is_before rest cutoff ≡ true
    passed other = by_test (j.run_id == id) false other h

active_state :
    (s : RunState)
    → dispatched_or_running s ≡ true
    → (s ≡ RunState.dispatched) ⊎ (s ≡ RunState.running)
active_state s h = ground arith

is_stale-IsStale :
    (orphaned cutoff : Time) (db : Db) (r : RunRecord)
    → is_stale orphaned cutoff db r ≡ true
    → IsStale orphaned cutoff db.jobs r
is_stale-IsStale orphaned cutoff db r h =
    let (a, b, c) = both (dispatched_or_running r.state) _ _ h in
    record {
      active = active_state r.state a;
      unlocked = is_before-IsBefore r.reconciliation_started_at orphaned b;
      unseen = unseen_jobs r.run_id cutoff db.jobs c;
    }
  where
    both : (a b c : Bool) → (a && b && c) ≡ true → (a ≡ true) × (b ≡ true) × (c ≡ true)
    both a b c h = ground arith

some_row :
    (p : RunRecord → Bool) (P : RunRecord → Type 0)
    → ((r : RunRecord) → p r ≡ true → P r)
    → (rows : List RunRecord) → exists_row p rows ≡ true
    → SomeRow P rows
some_row p P holds [] h = absurd (ground arith)
some_row p P holds (r ∷ rows) h = elim (Bool-cases (p r)) [
  | inl e ↦ inl (holds r e)
  | inr e ↦ inr (some_row p P holds rows (ground (arith, h, e)))
]

All-map :
    {P Q : String → Type 0}
    → ((id : String) → P id → Q id)
    → (ids : List String) → All P ids
    → All Q ids
All-map f [] h = tt
All-map f (id ∷ ids) h = (f id h.0, All-map f ids h.1)

length-place : (r : RunRecord) (rs : List RunRecord) → length (place r rs) ≡ suc (length rs)
length-place r [] = refl
length-place r (s ∷ ss) = ground (arith, length-place r ss)

length-by_created : (rs : List RunRecord) → length (by_created rs) ≡ length rs
length-by_created [] = refl
length-by_created (r ∷ rs) = omega (arith, length-place r (by_created rs), length-by_created rs)

length-select : (q : RunRecord → Bool) (rs : List RunRecord) → length (select q rs) ≡ affected q rs
length-select q [] = refl
length-select q (r ∷ rs) = ground (arith, length-select q rs)

abbrev pub at_most : ℕ → ℕ → ℕ
at_most limit n = if leb n limit then n else limit

length-first_rows :
    (n : ℕ) (rs : List RunRecord) → length (run_ids (first_rows n rs)) ≡ at_most n (length rs)
length-first_rows n [] = ground arith
length-first_rows zero (r ∷ rs) = ground arith
length-first_rows (suc n) (r ∷ rs) = ground (arith, length-first_rows n rs)

-- Every run that the reconciler picks is in the table, is dispatched or running, has no marker or
-- an orphaned one, and has no job that was observed, or submitted and never observed, at the
-- cutoff or later; and as many runs are picked as there are stale ones, up to fifty.
pub find_stale-IsStale :
    (threshold cutoff : Time) (db : Db)
    → All
        (λ id.
          SomeRow
            (λ r. (r.run_id ≡ id) × IsStale (cutoff - 4 * threshold) cutoff db.jobs r)
            db.runs)
        (find_stale threshold cutoff db)
      × (length (find_stale threshold cutoff db)
          ≡ at_most 50 (affected (is_stale (cutoff - 4 * threshold) cutoff db) db.runs))
unfolding find_stale
find_stale-IsStale threshold cutoff db = (
  All-map (λ id. some_row _ _ (described id) db.runs) (find_stale threshold cutoff db)
      (named q 50 db.runs (by_created (select q db.runs))
        (sorted q db.runs (select q db.runs) (selected q db.runs))),
  length-first_rows 50 (by_created (select q db.runs))
      ∙ ap (at_most 50) (length-by_created (select q db.runs) ∙ length-select q db.runs),
)
  where
    q : RunRecord → Bool
    q = is_stale (cutoff - 4 * threshold) cutoff db

    described :
        (id : String) (r : RunRecord)
        → (has_id id r && q r) ≡ true
        → (r.run_id ≡ id) × IsStale (cutoff - 4 * threshold) cutoff db.jobs r
    described id r h =
        let (same, stale) = two (has_id id r) (q r) h in
        ((eq_iff r.run_id id).0 same, is_stale-IsStale (cutoff - 4 * threshold) cutoff db r stale)
      where
        two : (a b : Bool) → (a && b) ≡ true → (a ≡ true) × (b ≡ true)
        two a b h = ground arith
