-- ===== src/Store/Cleanup/Integrity/Tasks.antt =====
-- What the deletion of tasks needs, so that it leaves no reference to a row that it deleted.
use veriproc.Prelude.{
  String, Bool, true, false, not, ◌&&◌, ◌||◌, ◌==◌, List, [], ◌∷◌, ◌≡◌, ◌≢◌, refl, arith, ap, subst,
  sym, eq_iff, eq_refl, Bool-cases, inl, inr,
}
use veriproc.Prelude.Lists.{All}
use veriproc.Store.Table.{exists_row, select}
use veriproc.Store.Records.{RunRecord, TaskRecord, SplitGroupMember, IdempotencyRecord}
use veriproc.Store.Cleanup.{among, without, Deletion, delete_task_rows}
use veriproc.Store.Cleanup.References.{
  RefersAll, RefersAll-without, RefersAll-delete, RefersAll-ids, RefersAll-parents,
}
use veriproc.Store.Cleanup.Integrity.{IsReferential}
use veriproc.Store.Cleanup.Purge.{run_ids}

-- The runs that are left belong to none of the tasks.
abbrev IsApart : List String → RunRecord → Type 0
IsApart tasks r = (r.task_id == "" || not (among tasks r.task_id)) ≡ true

-- Each run of one of the tasks is among the ids.
abbrev IsTaken : List String → List String → RunRecord → Type 0
IsTaken tasks ids r = among tasks r.task_id ≡ true → among ids r.run_id ≡ true

All-IsTaken_more :
    (tasks ids : List String) (id : String) (runs : List RunRecord)
    → All (IsTaken tasks ids) runs
    → All (IsTaken tasks (id ∷ ids)) runs
unfolding among
All-IsTaken_more tasks ids id [] h = tt
All-IsTaken_more tasks ids id (r ∷ runs) h =
    (λ e. ground (arith, h.0 e), All-IsTaken_more tasks ids id runs h.1)

pub run_ids-IsTaken :
    (tasks : List String) (runs : List RunRecord)
    → All (IsTaken tasks (run_ids (select (λ r. among tasks r.task_id) runs))) runs
run_ids-IsTaken tasks [] = tt
run_ids-IsTaken tasks (r ∷ runs) =
    let rest = run_ids-IsTaken tasks runs in
    elim (Bool-cases (among tasks r.task_id)) [
      | inl taken ↦
          subst (λ ids. All (IsTaken tasks ids) (r ∷ runs)) (sym (listed taken))
            (
              λ e. unfold among in ground (arith, eq_refl r.run_id),
              All-IsTaken_more tasks _ r.run_id runs rest,
            )
      | inr other ↦
          subst (λ ids. All (IsTaken tasks ids) (r ∷ runs)) (sym (unlisted other))
            (λ e. absurd (clash other e), rest)
    ]
  where
    listed :
        among tasks r.task_id ≡ true
        → run_ids (select (λ r. among tasks r.task_id) (r ∷ runs))
          ≡ r.run_id ∷ run_ids (select (λ r. among tasks r.task_id) runs)
    listed e = rw e refl

    unlisted :
        among tasks r.task_id ≡ false
        → run_ids (select (λ r. among tasks r.task_id) (r ∷ runs))
          ≡ run_ids (select (λ r. among tasks r.task_id) runs)
    unlisted e = rw e refl

    clash : {b : Bool} → b ≡ false → b ≢ true
    clash e f = absurd (ground arith)

pub All-IsApart :
    (tasks ids : List String) (runs : List RunRecord)
    → All (IsTaken tasks ids) runs
    → All (IsApart tasks) (without (λ r. among ids r.run_id) runs)
All-IsApart tasks ids [] h = tt
All-IsApart tasks ids (r ∷ runs) h = elim (Bool-cases (among ids r.run_id)) [
  | inl gone ↦ rw gone (All-IsApart tasks ids runs h.1)
  | inr kept ↦ rw kept (apart (among tasks r.task_id) _ _ h.0 kept, All-IsApart tasks ids runs h.1)
]
  where
    apart : (b c d : Bool) → (b ≡ true → c ≡ true) → c ≡ false → (d || not b) ≡ true
    apart true c d h k = absurd (ground (arith, h refl))
    apart false c d h k = ground arith

-- The tasks that are left name none of the others as their parent.
abbrev pub IsOrphan : List String → TaskRecord → Type 0
IsOrphan ids t = (t.parent_task_id == "" || not (among ids t.parent_task_id)) ≡ true

-- A record that a task names belongs to that task.
abbrev pub OwnsRecord : List IdempotencyRecord → TaskRecord → Type 0
OwnsRecord records t =
    exists_row (λ r. r.id == t.idempotency_record_id && not (r.task_id == t.task_id)) records
    ≡ false

records_left :
    (ids : List String) (records : List IdempotencyRecord) (t : TaskRecord)
    → OwnsRecord records t
    → among ids t.task_id ≡ false
    → exists_row (λ r. among ids r.task_id && r.id == t.idempotency_record_id) records ≡ false
records_left ids [] t owns kept = refl
records_left ids (r ∷ records) t owns kept = elim (Bool-cases (r.task_id == t.task_id)) [
  | inl same ↦
      ground
        (arith, ap (among ids) ((eq_iff r.task_id t.task_id).0 same), records_left ids records t)
  | inr other ↦ ground (arith, records_left ids records t)
]

module _ (ids : List String) where
  abbrev pub gone : TaskRecord → Bool
  gone t = among ids t.task_id

  All-without :
      (IsGood : TaskRecord → Type 0) (tasks : List TaskRecord)
      → All (λ t. gone t ≡ false → IsGood t) tasks
      → All IsGood (without gone tasks)
  All-without IsGood [] h = tt
  All-without IsGood (t ∷ tasks) h = elim (Bool-cases (gone t)) [
    | inl deleted ↦ rw deleted (All-without IsGood tasks h.1)
    | inr kept ↦ rw kept (h.0 kept, All-without IsGood tasks h.1)
  ]

  module _ (p : Deletion) (h : IsReferential p.db) (apart : All (IsApart ids) p.db.runs)
      (orphans : All (λ t. gone t ≡ false → IsOrphan ids t) p.db.tasks) where
    pub parents_left :
        RefersAll
          (λ (t : TaskRecord). t.parent_task_id)
          (λ (t : TaskRecord). t.task_id)
          (without gone p.db.tasks)
          (without gone p.db.tasks)
    parents_left =
        RefersAll-ids _ _ ids (without gone p.db.tasks) p.db.tasks
          (All-without (IsOrphan ids) p.db.tasks orphans)
          (RefersAll-without _ _ gone p.db.tasks p.db.tasks h.parents)

    pub runs_left :
        RefersAll
          (λ (r : RunRecord). r.task_id)
          (λ (t : TaskRecord). t.task_id)
          p.db.runs
          (without gone p.db.tasks)
    runs_left = RefersAll-ids _ _ ids p.db.runs p.db.tasks apart h.runs

    pub members_left :
        RefersAll
          (λ (m : SplitGroupMember). m.task_id)
          (λ (t : TaskRecord). t.task_id)
          (without (λ m. among ids m.task_id) p.db.members)
          (without gone p.db.tasks)
    members_left = RefersAll-delete _ _ ids _ p.db.members p.db.tasks (λ m e. e) h.members_tasks

    pub delete_task_rows-IsReferential :
        All (OwnsRecord p.db.idempotency) p.db.tasks → IsReferential (delete_task_rows ids p).db
    unfolding delete_task_rows
    delete_task_rows-IsReferential owns = record {
      jobs = h.jobs;
      manifests = h.manifests;
      artifacts = h.artifacts;
      producers = h.producers;
      published = h.published;
      audit = h.audit;
      members_runs = RefersAll-without _ _ _ p.db.members p.db.runs h.members_runs;
      members_tasks = members_left;
      runs = runs_left;
      parents = parents_left;
      records =
          RefersAll-parents _ _ (λ r. among ids r.task_id) (without gone p.db.tasks)
            p.db.idempotency (All-without _ p.db.tasks (left p.db.tasks owns))
            (RefersAll-without _ _ gone p.db.tasks p.db.idempotency h.records);
    }
      where
        left :
            (tasks : List TaskRecord)
            → All (OwnsRecord p.db.idempotency) tasks
            → All
                (λ t.
                  gone t ≡ false
                  → (t.idempotency_record_id == ""
                      || not (
                          exists_row
                            (λ r. among ids r.task_id && r.id == t.idempotency_record_id)
                            p.db.idempotency))
                    ≡ true)
                tasks
        left [] owns = tt
        left (t ∷ tasks) owns = (
          λ kept. ground (arith, records_left ids p.db.idempotency t owns.0 kept),
          left tasks owns.1,
        )
