-- ===== src/Store/Cleanup/Known.antt =====
-- PurgeTasks looks its seeds up before it asks for their closure, which skips the lookups of
-- CollectTaskClosure (internal/store/cleanup.go).
use veriproc.Prelude.{
  String, true, false, List, [], ◌∷◌, ◌++◌, ◌≡◌, refl, ap, ◌∙◌, arith, Bool-cases, inl, inr,
}
use veriproc.Prelude.Lists.{length}
use veriproc.Store.Table.{exists_row}
use veriproc.Store.Records.{TaskRecord}
use veriproc.Store.Tasks.{is_task}
use veriproc.Store.Cleanup.Closure.{seeded, collect_closure, expand}
use veriproc.Store.Cleanup.Purge.{known_tasks}

-- Trusting the seeds that are known is validating all of them.
seeded-known_tasks :
    (tasks : List TaskRecord) (ordered seeds : List String)
    → seeded true tasks ordered (known_tasks tasks seeds) ≡ seeded false tasks ordered seeds
unfolding seeded
seeded-known_tasks tasks ordered [] = refl
seeded-known_tasks tasks ordered (id ∷ seeds) = elim (Bool-cases (exists_row (is_task id) tasks)) [
  | inl there ↦
      rw
        (
          there,
          seeded-known_tasks tasks ordered seeds,
          seeded-known_tasks tasks (ordered ++ id ∷ []) seeds,
        )
        refl
  | inr absent ↦ rw absent (seeded-known_tasks tasks ordered seeds ∙ ground arith)
]

pub collect_closure-known_tasks :
    (tasks : List TaskRecord) (seeds : List String)
    → collect_closure true tasks (known_tasks tasks seeds) ≡ collect_closure false tasks seeds
unfolding collect_closure
collect_closure-known_tasks tasks seeds =
    ap (λ start. expand (length tasks) tasks start start) (seeded-known_tasks tasks [] seeds)
