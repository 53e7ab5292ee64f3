-- ===== src/Store/Cleanup/Closure.antt =====
-- internal/store/cleanup.go: CollectTaskClosure, the tasks that descend from some tasks, breadth
-- first. `seen` holds just the tasks of `ordered`, so that it is not kept apart. The loop has fuel;
-- one round for each task of the table is enough.
pub mod Complete
pub mod Closed
use veriproc.Prelude.{
  ℕ, zero, suc, ◌+◌, String, Bool, true, false, not, ◌&&◌, ◌||◌, ◌==◌, List, [], ◌∷◌, ◌++◌, map,
  Option, none, some, if◌then◌else◌,
}
use veriproc.Prelude.Lists.{length}
use veriproc.Store.Table.{select, exists_row}
use veriproc.Store.Records.{TaskRecord}
use veriproc.Store.Tasks.{is_task}
use veriproc.Store.Cleanup.{among}

-- SELECT task_id FROM tasks WHERE parent_task_id = ?
abbrev pub children_of : List TaskRecord → String → List String
children_of tasks parent =
    map (λ t. t.task_id)
      (select (λ t. not (t.parent_task_id == "") && t.parent_task_id == parent) tasks)

-- The children that were not seen yet, each once.
unfoldable pub unseen : List String → List String → List String
unseen ordered [] = []
unseen ordered (child ∷ children) =
    let known = unseen ordered children in
    let added = unseen (ordered ++ child ∷ []) children in
    if among ordered child then known else child ∷ added

-- The first loop: the seeds that are there, each once. `trusted` is skipValidateSeed.
unfoldable pub seeded : Bool → List TaskRecord → List String → List String → List String
seeded trusted tasks ordered [] = ordered
seeded trusted tasks ordered (id ∷ seeds) =
    let skipped = seeded trusted tasks ordered seeds in
    let added = seeded trusted tasks (ordered ++ id ∷ []) seeds in
    if id == "" || among ordered id
    then skipped
    else if trusted || exists_row (is_task id) tasks
    then added
    else skipped

-- The second loop, over the queue; `none` where the fuel is used up.
unfoldable pub expand : ℕ → List TaskRecord → List String → List String → Option (List String)
expand fuel tasks ordered [] = some ordered
expand zero tasks ordered (parent ∷ queue) = none
expand (suc fuel) tasks ordered (parent ∷ queue) =
    let found = unseen ordered (children_of tasks parent) in
    expand fuel tasks (ordered ++ found) (queue ++ found)

-- collectTaskClosureInternal
unfoldable pub collect_closure : Bool → List TaskRecord → List String → Option (List String)
collect_closure trusted tasks seeds =
    let start = seeded trusted tasks [] seeds in expand (length tasks) tasks start start
