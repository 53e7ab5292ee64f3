-- ===== src/Runs/Finalize/Legal.antt =====
-- Finalization keeps what every call of the store keeps.
use veriproc.Prelude.{String, arith, true, ◌≡◌, List, [], ◌∷◌, Option, none, some}
use veriproc.Store.Runs.Coherence.{is_decided}
use veriproc.Prelude.Errors.{Result, ok, err}
use veriproc.Prelude.Effects.{Eff, ◌>>=◌, attempt}
use veriproc.Prelude.Effects.Within.{
  Within, Within-bind, Within-bind_returned, Within-gets, Within-pure,
}
use veriproc.Store.Records.{
  Time, RunState, RunRecord, TaskRecord, ArtifactRecord, PublicationRecord, Canonicality, canonical,
}
use veriproc.Store.Db.{Db}
use veriproc.Store.Legal.{Legal, Legal-preorder}
use veriproc.Store.Fingerprints
use veriproc.Runs.World.{World, Env, on_db, DownstreamPlan, SplitGroupInit}
use veriproc.Runs.World.Legal.{LegalWorld, LegalWorld-preorder, legal_rules}
use veriproc.Runs.Join.Legal.{contribute_to_join_downstream-Legal, count_arrival-Legal}
use veriproc.Runs.Poll.Legal.{record_logs-Legal}
use veriproc.Runs.Finalize.{
  insert_artifacts, insert_task_out, insert_publications, open_group, open_groups, insert_child,
  insert_children, complete_task, commit_run, mark_failed_and_log, decide, or_mark_failed,
  finalize_run, by_state, finalize,
}

insert_artifacts-Legal : (l : List ArtifactRecord) → Within Legal (insert_artifacts l)
unfolding insert_artifacts
insert_artifacts-Legal [] = search legal_rules
insert_artifacts-Legal (a ∷ rest) =
    Within-bind Legal-preorder _ _ (search legal_rules) (λ _. insert_artifacts-Legal rest)

insert_task_out-Legal : (o : Option ArtifactRecord) → Within Legal (insert_task_out o)
unfolding insert_task_out
insert_task_out-Legal none = search legal_rules
insert_task_out-Legal (some a) = search legal_rules

insert_publications-Legal : (l : List PublicationRecord) → Within Legal (insert_publications l)
unfolding insert_publications
insert_publications-Legal [] = search legal_rules
insert_publications-Legal (p ∷ rest) =
    Within-bind Legal-preorder _ _ (search legal_rules) (λ _. insert_publications-Legal rest)

open_group-Legal : (g : SplitGroupInit) (now : Time) → Within Legal (open_group g now)
unfolding open_group
open_group-Legal g now = search legal_rules

open_groups-Legal : (l : List SplitGroupInit) (now : Time) → Within Legal (open_groups l now)
unfolding open_groups
open_groups-Legal [] now = search legal_rules
open_groups-Legal (g ∷ rest) now =
    search (legal_rules, open_group-Legal g now, open_groups-Legal rest now)

module _ {S : Type 0} (env : Env S) where
  insert_child-Legal :
      (run : RunRecord) (plan : DownstreamPlan) (now : Time) (c : TaskRecord)
      → Within Legal (insert_child env run plan now c)
  unfolding insert_child
  insert_child-Legal run plan now c = search (legal_rules, count_arrival-Legal) depth 8

  insert_children-Legal :
      (run : RunRecord) (plan : DownstreamPlan) (now : Time) (l : List TaskRecord)
      → Within Legal (insert_children env run plan now l)
  unfolding insert_children
  insert_children-Legal run plan now [] = search legal_rules
  insert_children-Legal run plan now (c ∷ rest) =
      search
        (legal_rules, insert_child-Legal run plan now c, insert_children-Legal run plan now rest)

  complete_task-Legal :
      (run : RunRecord) (c : Canonicality) (now : Time) → Within Legal (complete_task env run c now)
  unfolding complete_task
  complete_task-Legal run canonical now = search legal_rules
  complete_task-Legal run _ now = search legal_rules

  commit_run-Legal :
      (run : RunRecord) (logs outputs : List ArtifactRecord) (publications : List PublicationRecord)
      (plan : DownstreamPlan) (c : Canonicality) (now : Time)
      → is_decided c ≡ true
      → Within Legal (commit_run env run logs outputs publications plan c now)
  unfolding commit_run
  commit_run-Legal run logs outputs publications plan c now h =
      search
        (
          legal_rules, insert_artifacts-Legal, insert_task_out-Legal, insert_publications-Legal,
          open_groups-Legal, insert_children-Legal, complete_task-Legal,
        )
        depth 14

  pub mark_failed_and_log-Legal :
      (id reason : String) (now : Time) → Within LegalWorld (mark_failed_and_log env id reason now)
  unfolding mark_failed_and_log
  mark_failed_and_log-Legal id reason now =
      search (legal_rules, record_logs-Legal, contribute_to_join_downstream-Legal) depth 10

  decide-Legal :
      (run : RunRecord) (task : TaskRecord) (now : Time) → Within Legal (decide env run task now)
  unfolding decide
  decide-Legal run task now = search legal_rules depth 12

  or_mark_failed-Legal {ℓ} :
      {A : Type ℓ} (run : RunRecord) (reason : String) (now : Time) (step : Db → Result A)
      → Within LegalWorld (or_mark_failed env run reason now step)
  unfolding or_mark_failed
  or_mark_failed-Legal run reason now step =
      Within-bind LegalWorld-preorder _ _ (Within-gets LegalWorld-preorder _) (elim [
        | ok a ↦ Within-pure LegalWorld-preorder a
        | err e ↦ search (legal_rules, mark_failed_and_log-Legal) depth 8
      ])

  decide-is_decided :
      (run : RunRecord) (task : TaskRecord) (now : Time) (db : Db) (c : Canonicality)
      → (decide env run task now db).0 ≡ ok c
      → is_decided c ≡ true
  unfolding decide Fingerprints.get_by_value Fingerprints.claim_canonical ◌>>=◌ attempt
  decide-is_decided run task now db c h = ground arith

  returned_on_db {ℓ} :
      {A : Type ℓ} (m : Eff Db A) (w : World S) (a : A) → (on_db m w).0 ≡ ok a → (m w.db).0 ≡ ok a
  unfolding on_db
  returned_on_db m w a h = h

  finalize_run-Legal :
      (run : RunRecord) (reason : String) (now : Time)
      → Within LegalWorld (finalize_run env run reason now)
  unfolding finalize_run
  finalize_run-Legal run reason now =
      Within-bind LegalWorld-preorder _ _ (search legal_rules) λ logs.
        Within-bind LegalWorld-preorder _ _ (search or_mark_failed-Legal) λ outputs.
          Within-bind LegalWorld-preorder _ _ (search legal_rules) λ task.
            Within-bind_returned LegalWorld-preorder _ _ (search (legal_rules, decide-Legal))
              λ w c h.
                let ready = decide-is_decided run task now w.db c (returned_on_db _ w c h) in
                search (legal_rules, or_mark_failed-Legal, commit_run-Legal) depth 10

  by_state-Legal :
      (run : RunRecord) (reason : String) (now : Time) (s : RunState)
      → Within LegalWorld (by_state env run reason now s)
  unfolding by_state
  by_state-Legal run reason now RunState.complete = search legal_rules
  by_state-Legal run reason now RunState.finalizing = finalize_run-Legal run reason now
  by_state-Legal run reason now _ = search legal_rules

  pub finalize-Legal :
      (id reason : String) (now : Time) → Within LegalWorld (finalize env id reason now)
  unfolding finalize
  finalize-Legal id reason now = search (legal_rules, by_state-Legal)
