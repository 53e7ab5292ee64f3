-- ===== src/Store/Cleanup/Closure/Closed.antt =====
-- The closure holds its seeds, and every child of a task that it holds.
use mathlib.Core.List.{append_assoc}
use veriproc.Prelude.{
  ℕ, zero, suc, String, Bool, true, false, not, ◌&&◌, ◌==◌, List, [], ◌∷◌, ◌++◌, some, ◌≡◌, ◌≢◌,
  inl, inr, refl, ap, sym, subst, arith, Bool-cases, eq_iff, eq_refl,
}
use veriproc.Prelude.Lists.{length, All}
use veriproc.Store.Table.{exists_row}
use veriproc.Store.Table.Laws.{some_inj}
use veriproc.Store.Records.{TaskRecord}
use veriproc.Store.Tasks.{is_task}
use veriproc.Store.Cleanup.{among}
use veriproc.Store.Cleanup.Closure.{children_of, unseen, seeded, expand, collect_closure}
use veriproc.Store.Cleanup.Closure.Complete.{among-append}

among-unseen :
    (ordered children : List String) (x : String)
    → among children x ≡ true
    → among (ordered ++ unseen ordered children) x ≡ true
unfolding among unseen
among-unseen ordered [] x h = absurd (ground arith)
among-unseen ordered (child ∷ children) x h = elim (Bool-cases (among ordered child)) [
  | inl known ↦ rw known (elim (Bool-cases (child == x)) [
    | inl here ↦
        rw (among-append ordered (unseen ordered children) x)
          (ground (arith, ap (among ordered) ((eq_iff child x).0 here)))
    | inr later ↦ among-unseen ordered children x (rw later at h)
  ])
  | inr new ↦ rw new (elim (Bool-cases (child == x)) [
    | inl here ↦
        rw (among-append ordered (child ∷ unseen (ordered ++ child ∷ []) children) x) (ground arith)
    | inr later ↦
        rw (← append_assoc ordered (child ∷ []) (unseen (ordered ++ child ∷ []) children))
          (among-unseen (ordered ++ child ∷ []) children x (rw later at h))
  ])
]

-- A task is named as a child of one that is listed and not waiting in the queue.
abbrev pub is_due : List String → List String → TaskRecord → Bool
is_due ordered queue t =
    not (t.parent_task_id == "")
    && among ordered t.parent_task_id
    && not (among queue t.parent_task_id)

abbrev pub IsServed : List String → List String → TaskRecord → Type 0
IsServed ordered queue t = is_due ordered queue t ≡ true → among ordered t.task_id ≡ true

abbrev is_child : String → TaskRecord → Bool
is_child parent t = not (t.parent_task_id == "") && t.parent_task_id == parent

abbrev IsListed : String → List String → TaskRecord → Type 0
IsListed parent children t = is_child parent t ≡ true → among children t.task_id ≡ true

All-IsListed_later :
    (parent id : String) (children : List String) (rows : List TaskRecord)
    → All (IsListed parent children) rows
    → All (IsListed parent (id ∷ children)) rows
unfolding among
All-IsListed_later parent id children [] h = tt
All-IsListed_later parent id children (t ∷ rows) h =
    (λ e. ground (arith, h.0 e), All-IsListed_later parent id children rows h.1)

children_of_child :
    (parent : String) (t : TaskRecord) (tasks : List TaskRecord)
    → is_child parent t ≡ true
    → children_of (t ∷ tasks) parent ≡ t.task_id ∷ children_of tasks parent
children_of_child parent t tasks child = rw child refl

children_of_other :
    (parent : String) (t : TaskRecord) (tasks : List TaskRecord)
    → is_child parent t ≡ false
    → children_of (t ∷ tasks) parent ≡ children_of tasks parent
children_of_other parent t tasks other = rw other refl

children_of-IsListed :
    (parent : String) (tasks : List TaskRecord)
    → All (IsListed parent (children_of tasks parent)) tasks
unfolding among
children_of-IsListed parent [] = tt
children_of-IsListed parent (t ∷ tasks) =
    let rest = children_of-IsListed parent tasks in
    elim (Bool-cases (is_child parent t)) [
      | inl child ↦
          subst (λ c. All (IsListed parent c) (t ∷ tasks))
            (sym (children_of_child parent t tasks child))
            (
              λ e. ground (arith, eq_refl t.task_id),
              All-IsListed_later parent t.task_id (children_of tasks parent) tasks rest,
            )
      | inr other ↦
          subst (λ c. All (IsListed parent c) (t ∷ tasks))
            (sym (children_of_other parent t tasks other)) (λ e. absurd (clash other e), rest)
    ]
  where
    clash : {b : Bool} → b ≡ false → b ≢ true
    clash e f = absurd (ground arith)

module _ (ordered queue children : List String) (parent : String) where
  abbrev found : List String
  found = unseen ordered children

  served_step :
      (t : TaskRecord)
      → IsListed parent children t
      → IsServed ordered (parent ∷ queue) t
      → IsServed (ordered ++ found) (queue ++ found) t
  unfolding among
  served_step t listed served due = elim (Bool-cases (t.parent_task_id == parent)) [
    | inl child ↦ among-unseen ordered children t.task_id (listed (ground arith))
    | inr other ↦ rw (among-append ordered found t.task_id) (
        ground (
          arith,
          served (
              ground (
                arith,
                among-append ordered found t.parent_task_id,
                among-append queue found t.parent_task_id,
                eq_iff parent t.parent_task_id,
                eq_iff t.parent_task_id parent,
              )),
        ))
  ]

  served_steps :
      (rows : List TaskRecord)
      → All (IsListed parent children) rows
      → All (IsServed ordered (parent ∷ queue)) rows
      → All (IsServed (ordered ++ found) (queue ++ found)) rows
  served_steps [] l h = tt
  served_steps (t ∷ rows) l h = (served_step t l.0 h.0, served_steps rows l.1 h.1)

expand-IsServed :
    (fuel : ℕ) (tasks : List TaskRecord) (ordered queue closure : List String)
    → expand fuel tasks ordered queue ≡ some closure
    → All (IsServed ordered queue) tasks
    → All (IsServed closure []) tasks
unfolding expand
expand-IsServed fuel tasks ordered [] closure h served =
    subst (λ c. All (IsServed c []) tasks) (some_inj h) served
expand-IsServed zero tasks ordered (parent ∷ queue) closure h served = absurd (ground arith)
expand-IsServed (suc fuel) tasks ordered (parent ∷ queue) closure h served =
    expand-IsServed fuel tasks _ _ closure h (
      served_steps ordered queue (children_of tasks parent) parent tasks
        (children_of-IsListed parent tasks) served)

-- What is listed stays listed.
expand-among :
    (fuel : ℕ) (tasks : List TaskRecord) (ordered queue closure : List String) (x : String)
    → expand fuel tasks ordered queue ≡ some closure
    → among ordered x ≡ true
    → among closure x ≡ true
unfolding expand
expand-among fuel tasks ordered [] closure x h e = subst (λ c. among c x ≡ true) (some_inj h) e
expand-among zero tasks ordered (parent ∷ queue) closure x h e = absurd (ground arith)
expand-among (suc fuel) tasks ordered (parent ∷ queue) closure x h e =
    expand-among fuel tasks _ _ closure x h
      (rw (among-append ordered (unseen ordered (children_of tasks parent)) x) (ground arith))

-- Before the first round every listed task waits in the queue.
waiting : (start : List String) (rows : List TaskRecord) → All (IsServed start start) rows
waiting start [] = tt
waiting start (t ∷ rows) =
    (λ due. absurd (idle (among start t.parent_task_id) _ due), waiting start rows)
  where
    idle : (b c : Bool) → (c && b && not b) ≢ true
    idle b c e = absurd (ground arith)

seeded-among :
    (trusted : Bool) (tasks : List TaskRecord) (ordered seeds : List String) (x : String)
    → among ordered x ≡ true
    → among (seeded trusted tasks ordered seeds) x ≡ true
unfolding seeded
seeded-among trusted tasks ordered [] x h = h
seeded-among trusted tasks ordered (id ∷ seeds) x h = ground (
  arith,
  seeded-among trusted tasks ordered seeds x,
  seeded-among trusted tasks (ordered ++ id ∷ []) seeds x,
  among-append ordered (id ∷ []) x,
)

seeded-seeds :
    (tasks : List TaskRecord) (ordered seeds : List String) (x : String)
    → x ≢ ""
    → among seeds x ≡ true
    → exists_row (is_task x) tasks ≡ true
    → among (seeded false tasks ordered seeds) x ≡ true
unfolding seeded among
seeded-seeds tasks ordered [] x ne h there = absurd (ground arith)
seeded-seeds tasks ordered (id ∷ seeds) x ne h there = elim (Bool-cases (id == x)) [
  | inl here ↦
      let e = (eq_iff id x).0 here in
      ground (
        arith,
        eq_iff id "",
        e,
        seeded-among false tasks ordered seeds x,
        seeded-among false tasks (ordered ++ id ∷ []) seeds x,
        among-append ordered (id ∷ []) x,
        ap (among ordered) e,
        ap (λ y. exists_row (is_task y) tasks) e,
      )
  | inr later ↦ ground (
    arith,
    seeded-seeds tasks ordered seeds x ne (rw later at h) there,
    seeded-seeds tasks (ordered ++ id ∷ []) seeds x ne (rw later at h) there,
  )
]

pub collect_closure-IsServed :
    (trusted : Bool) (tasks : List TaskRecord) (seeds closure : List String)
    → collect_closure trusted tasks seeds ≡ some closure
    → All (IsServed closure []) tasks
unfolding collect_closure
collect_closure-IsServed trusted tasks seeds closure h =
    let start = seeded trusted tasks [] seeds in
    expand-IsServed (length tasks) tasks start start closure h (waiting start tasks)

-- What the closure holds: the seeds of the table, and with a task all that name it as a parent.
pub record IsClosure (tasks : List TaskRecord) (seeds closure : List String) : Type 0 where
  pub holds_seeds :
      (x : String)
      → x ≢ ""
      → among seeds x ≡ true
      → exists_row (is_task x) tasks ≡ true
      → among closure x ≡ true
  pub closed : All (IsServed closure []) tasks

-- The closure that is found holds every seed that is in the table, and with a task every task
-- that names it as its parent.
pub collect_closure-IsClosure :
    (tasks : List TaskRecord) (seeds closure : List String)
    → collect_closure false tasks seeds ≡ some closure
    → IsClosure tasks seeds closure
unfolding collect_closure
collect_closure-IsClosure tasks seeds closure h =
    let start = seeded false tasks [] seeds in
    record {
      holds_seeds = λ x ne e there.
          expand-among (length tasks) tasks start start closure x h
            (seeded-seeds tasks [] seeds x ne e there);
      closed = collect_closure-IsServed false tasks seeds closure h;
    }
