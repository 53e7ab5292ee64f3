-- ===== src/Store/Cleanup/Closure/Complete.antt =====
-- The closure is found within the fuel, holds the seeds that are there, and every child of a task
-- that it holds.
use veriproc.Prelude.{
  ℕ, zero, suc, ◌+◌, ◌≤◌, String, Bool, true, false, not, ◌&&◌, ◌||◌, ◌==◌, List, [], ◌∷◌, ◌++◌,
  some, ◌≡◌, inl, inr, refl, ap, arith, Bool-cases, eq_iff, eq_refl,
}
use mathlib.Core.List.{append_assoc, append-nil}
use veriproc.Prelude.Lists.{length, length-append, All}
use veriproc.Store.Table.{exists_row, affected}
use veriproc.Store.Records.{TaskRecord}
use veriproc.Store.Tasks.{is_task}
use veriproc.Store.Cleanup.{among}
use veriproc.Store.Cleanup.Closure.{children_of, unseen, seeded, expand, collect_closure}

pub among-append :
    (ids more : List String) (x : String) → among (ids ++ more) x ≡ (among ids x || among more x)
unfolding among
among-append [] more x = refl
among-append (id ∷ ids) more x = ground (arith, among-append ids more x)

-- How many rows are not in the list yet.
abbrev missing : List TaskRecord → List String → ℕ
missing tasks ordered = affected (λ t. not (among ordered t.task_id)) tasks

missing-append_le :
    (tasks : List TaskRecord) (ordered : List String) (id : String)
    → missing tasks (ordered ++ id ∷ []) ≤ missing tasks ordered
missing-append_le [] ordered id = omega arith
missing-append_le (t ∷ tasks) ordered id =
    ground (arith, among-append ordered (id ∷ []) t.task_id, missing-append_le tasks ordered id)

-- A row that is listed is missing no more.
missing-append :
    (tasks : List TaskRecord) (ordered : List String) (id : String)
    → exists_row (is_task id) tasks ≡ true
    → among ordered id ≡ false
    → suc (missing tasks (ordered ++ id ∷ [])) ≤ missing tasks ordered
unfolding among
missing-append [] ordered id there new = absurd (ground arith)
missing-append (t ∷ tasks) ordered id there new = elim (Bool-cases (t.task_id == id)) [
  | inl same ↦
      let e : t.task_id ≡ id = (eq_iff t.task_id id).0 same in
      ground (
        arith,
        among-append ordered (id ∷ []) t.task_id,
        ap (among ordered) e,
        ap (λ x. id == x) e,
        eq_refl id,
        missing-append_le tasks ordered id,
      )
  | inr other ↦ ground (
    arith,
    among-append ordered (id ∷ []) t.task_id,
    eq_iff id t.task_id,
    eq_iff t.task_id id,
    missing-append tasks ordered id (rw other at there) new,
  )
]

-- Every listed task is in the table.
abbrev AllThere : List TaskRecord → List String → Type 0
AllThere tasks = All (λ id. exists_row (is_task id) tasks ≡ true)

missing-unseen :
    (tasks : List TaskRecord) (ordered children : List String)
    → AllThere tasks children
    → length (unseen ordered children) + missing tasks (ordered ++ unseen ordered children)
      ≤ missing tasks ordered
unfolding unseen
missing-unseen tasks ordered [] there = rw (append-nil ordered) (omega arith)
missing-unseen tasks ordered (child ∷ children) there = elim (Bool-cases (among ordered child)) [
  | inl known ↦ rw known (missing-unseen tasks ordered children there.1)
  | inr new ↦
      rw (new, ← append_assoc ordered (child ∷ []) (unseen (ordered ++ child ∷ []) children))
        (omega (
          arith,
          missing-unseen tasks (ordered ++ child ∷ []) children there.1,
          missing-append tasks ordered child there.0 new,
        ))
]

exists_row-here :
    (tasks : List TaskRecord) (p : TaskRecord → Bool) (rows : List TaskRecord)
    → ((t : TaskRecord) → exists_row (is_task t.task_id) (t ∷ tasks) ≡ true)
exists_row-here tasks p rows t = ground (arith, eq_refl t.task_id)

AllThere-cons :
    (t : TaskRecord) (tasks : List TaskRecord) (ids : List String)
    → AllThere tasks ids
    → AllThere (t ∷ tasks) ids
AllThere-cons t tasks [] h = tt
AllThere-cons t tasks (id ∷ ids) h = (ground (arith, h.0), AllThere-cons t tasks ids h.1)

-- The children are in the table that they were read from.
AllThere-children_of :
    (tasks : List TaskRecord) (parent : String) → AllThere tasks (children_of tasks parent)
AllThere-children_of [] parent = tt
AllThere-children_of (t ∷ tasks) parent =
    let rest = AllThere-cons t tasks _ (AllThere-children_of tasks parent) in
    elim (Bool-cases (not (t.parent_task_id == "") && t.parent_task_id == parent)) [
      | inl child ↦ rw child (ground (arith, eq_refl t.task_id), rest)
      | inr other ↦ rw other rest
    ]

-- With a round for each task in the queue and each one that is still missing, the loop ends.
expand-some :
    (fuel : ℕ) (tasks : List TaskRecord) (ordered queue : List String)
    → length queue + missing tasks ordered ≤ fuel
    → (closure : List String) × (expand fuel tasks ordered queue ≡ some closure)
unfolding expand
expand-some fuel tasks ordered [] h = (ordered, refl)
expand-some zero tasks ordered (parent ∷ queue) h = absurd (omega arith)
expand-some (suc fuel) tasks ordered (parent ∷ queue) h = expand-some fuel tasks _ _ (
    omega (
      arith,
      h,
      length-append queue (unseen ordered (children_of tasks parent)),
      missing-unseen tasks ordered (children_of tasks parent) (AllThere-children_of tasks parent),
    ))

missing-none : (tasks : List TaskRecord) → missing tasks [] ≤ length tasks
unfolding among
missing-none [] = omega arith
missing-none (t ∷ tasks) = omega (arith, missing-none tasks)

missing-seeded :
    (tasks : List TaskRecord) (ordered seeds : List String)
    → length ordered + missing tasks ordered ≤ length tasks
    → length (seeded false tasks ordered seeds) + missing tasks (seeded false tasks ordered seeds)
      ≤ length tasks
unfolding seeded
missing-seeded tasks ordered [] h = h
missing-seeded tasks ordered (id ∷ seeds) h = elim (Bool-cases (id == "" || among ordered id)) [
  | inl skip ↦ rw skip (missing-seeded tasks ordered seeds h)
  | inr new ↦ elim (Bool-cases (exists_row (is_task id) tasks)) [
    | inr absent ↦ rw (new, absent) (missing-seeded tasks ordered seeds h)
    | inl there ↦
        rw (new, there)
          (missing-seeded tasks (ordered ++ id ∷ []) seeds (
            omega (
              arith,
              h,
              length-append ordered (id ∷ []),
              missing-append tasks ordered id there (ground arith),
            )))
  ]
]

-- The breadth-first search for the descendants of any seeds ends: one round for each task of the
-- table is enough, cycles included.
pub collect_closure-some :
    (tasks : List TaskRecord) (seeds : List String)
    → (closure : List String) × (collect_closure false tasks seeds ≡ some closure)
unfolding collect_closure
collect_closure-some tasks seeds =
    expand-some (length tasks) tasks _ _
      (missing-seeded tasks [] seeds (omega (arith, missing-none tasks)))
