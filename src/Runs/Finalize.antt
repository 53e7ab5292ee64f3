-- ===== src/Runs/Finalize.antt =====
-- internal/runs/finalize.go: Service.Finalize and Service.MarkFailedAndLog. The group notifier
-- that both start in a goroutine of its own is not part of the call and is left out.
pub mod Legal
use veriproc.Prelude.{
  ℕ, zero, String, Bool, true, false, ◌==◌, not, List, [], ◌∷◌, Option, none, some, if◌then◌else◌,
}
use veriproc.Prelude.Errors.{Error, Result, ok, err, invalid_state_transition, other}
use veriproc.Prelude.Effects.{Eff, pure, fail, gets, lift, ◌>>=◌, ◌>>◌, ignore, attempt, in_tx}
use veriproc.Prelude.Maps.{Assoc, lookup}
use veriproc.Store.Records.{
  Time, RunState, RunRecord, TaskRecord, ArtifactRecord, PublicationRecord, Canonicality,
  CanonicalityChange, canonical, duplicate, forced, elect,
}
use veriproc.Store.Records.{TaskState, SplitGroupState}
use veriproc.Store.Db.{Db}
use veriproc.Store.Runs
use veriproc.Store.Tasks
use veriproc.Store.Fingerprints
use veriproc.Store.SplitGroups
use veriproc.Store.Artifacts.{insert_artifact, insert_publication, insert_link}
use veriproc.Runs.World.{
  World, Env, DownstreamPlan, SplitGroupInit, on_db, map_store_err, tolerate_invalid,
  unless_conflict,
}
use veriproc.Runs.Join.{contribute_to_join_downstream, count_arrival, produced_link}
use veriproc.Runs.Poll.{record_logs}

abbrev is_failed : RunState → Bool
is_failed RunState.failed = true
is_failed _ = false

-- The rows of the final transaction.
insert_artifacts : List ArtifactRecord → Eff Db (Unit {0})
insert_artifacts [] = pure tt
insert_artifacts (a ∷ rest) = do insert_artifact a; insert_artifacts rest

insert_task_out : Option ArtifactRecord → Eff Db (Unit {0})
insert_task_out none = pure tt
insert_task_out (some a) = insert_artifact a

insert_publications : List PublicationRecord → Eff Db (Unit {0})
insert_publications [] = pure tt
insert_publications (p ∷ rest) = do unless_conflict (insert_publication p); insert_publications rest

open_group : SplitGroupInit → Time → Eff Db (Unit {0})
open_group g now = do
  SplitGroups.ensure_group g.group_id g.label g.description g.expected_members now
  if g.close then SplitGroups.set_state g.group_id SplitGroupState.aggregating now else pure tt

open_groups : List SplitGroupInit → Time → Eff Db (Unit {0})
open_groups [] now = pure tt
open_groups (g ∷ rest) now = do open_group g now; open_groups rest now

abbrev contains : String → List String → Bool
contains x [] = false
contains x (y ∷ ys) = let rest = contains x ys in if y == x then true else rest

-- A missing key of a Go map reads as 0.
abbrev expected_of : Option ℕ → ℕ
expected_of none = 0
expected_of (some n) = n

module _ {S : Type 0} (env : Env S) where
  insert_child : RunRecord → DownstreamPlan → Time → TaskRecord → Eff Db (Unit {0})
  insert_child run plan now child = do
    unless_conflict (Tasks.insert child)
    unless_conflict (insert_link (produced_link env run child.task_id plan.provenance_reason now))
    if contains child.task_id plan.join_task_ids
        then count_arrival child.task_id (expected_of (lookup child.task_id plan.join_expected))
        else pure tt

  insert_children : RunRecord → DownstreamPlan → Time → List TaskRecord → Eff Db (Unit {0})
  insert_children run plan now [] = pure tt
  insert_children run plan now (c ∷ rest) = do
    insert_child run plan now c
    insert_children run plan now rest

  -- How the task ends, for each canonicality of its run.
  complete_task : RunRecord → Canonicality → Time → Eff Db (Unit {0})
  complete_task run canonical now = do
    Tasks.set_canonical_run run.task_id run.retry_index now
    Tasks.set_state run.task_id TaskState.completed ""
  complete_task run forced now = Tasks.set_state run.task_id TaskState.completed ""
  complete_task run duplicate now = Tasks.set_state run.task_id TaskState.completed ""
  complete_task run Canonicality.undecided now = pure tt

  -- The final transaction.
  commit_run :
      RunRecord
      → List ArtifactRecord
      → List ArtifactRecord
      → List PublicationRecord
      → DownstreamPlan
      → Canonicality
      → Time
      → Eff Db (Unit {0})
  commit_run run logs outputs publications plan c now = in_tx (do
    insert_artifacts logs
    insert_artifacts outputs
    insert_task_out plan.task_out_artifact
    insert_publications publications
    open_groups plan.split_groups now
    insert_children run plan now plan.tasks
    Runs.mark_complete run.run_id c now
    Tasks.set_latest_run run.task_id run.retry_index
    complete_task run c now)

  -- MarkFailedAndLog
  pub mark_failed_and_log : String → String → Time → Eff (World S) (Unit {0})
  mark_failed_and_log id reason now = do
    run ← map_store_err (on_db (Runs.get id))
    if is_failed run.state then pure tt else do
      tolerate_invalid (on_db (Runs.mark_failed id reason now))
      record_logs env run
      on_db (Tasks.set_state run.task_id TaskState.failed reason)
      ignore (contribute_to_join_downstream env run now)

  abbrev election : String → RunRecord → Time → CanonicalityChange
  election fp run now = record {
    audit_id = env.audit_id fp "" run.run_id now;
    fingerprint_id = fp;
    previous_run_id = "";
    new_run_id = run.run_id;
    action = elect;
    reason = "auto:first-finalize";
    actor = "system";
    occurred_at = now;
  }

  -- The canonicality that the run gets; the claim is written at once, outside any transaction.
  decide : RunRecord → TaskRecord → Time → Eff Db Canonicality
  decide run task now =
      if task.force
      then pure forced
      else if run.processing_fingerprint == ""
      then pure canonical
      else do
        fp ← Fingerprints.get_by_value run.processing_fingerprint
        won ← Fingerprints.claim_canonical fp.fingerprint_id run.run_id
        if not won then pure duplicate else do
          ignore (Fingerprints.record_election (election fp.fingerprint_id run now))
          pure canonical

  -- A step whose failure fails the run: `err.Error()` is the reason, here its text is a parameter.
  or_mark_failed {ℓ} : {A : Type ℓ} → RunRecord → String → Time → (Db → Result A) → Eff (World S) A
  or_mark_failed run reason now step = do
    outcome ← gets (λ w. step w.db)
    elim outcome [
      | ok a ↦ pure a
      | err e ↦ (do ignore (mark_failed_and_log run.run_id reason now); fail e)
    ]

  finalize_run : RunRecord → String → Time → Eff (World S) RunRecord
  finalize_run run reason now = do
    logs ← lift (env.run_logs run)
    outputs ← or_mark_failed run reason now (env.validate_outputs run)
    task ← on_db (Tasks.get run.task_id)
    c ← on_db (decide run task now)
    publications ← or_mark_failed run reason now (env.build_publications run outputs)
    plan ← or_mark_failed run reason now (env.build_plan run task c)
    on_db (commit_run run logs outputs publications plan c now)
    on_db (Runs.get run.run_id)

  by_state : RunRecord → String → Time → RunState → Eff (World S) RunRecord
  by_state run reason now RunState.complete = pure run
  by_state run reason now RunState.finalizing = finalize_run run reason now
  by_state run reason now _ = fail invalid_state_transition

  -- Service.Finalize; the readings of the clock within one call are one
  pub finalize : String → String → Time → Eff (World S) RunRecord
  finalize id reason now = do
    run ← map_store_err (on_db (Runs.get id))
    by_state run reason now run.state
