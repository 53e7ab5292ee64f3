-- ===== src/Store/Legal.antt =====
-- What every call of the store keeps, as a preorder between databases: no run goes back in its
-- life or leaves a terminal state, the keys of the runs stay unique, and the rows stay coherent.
use veriproc.Prelude.{ℕ, true, arith, ◌≡◌, String, All, Bool}
use veriproc.Prelude.Effects.Within.{Within, IsPreorder}
use veriproc.Store.Table.Laws.{Grows, Grows-refl, Grows-trans, Grows-map}
use veriproc.Store.Table.Keys.{NoClash}
use veriproc.Store.Records.{
  Time, RunRecord, TaskRecord, TaskState, JobRecord, Canonicality, CanonicalityChange,
  ArtifactRecord, PublicationRecord, ProvenanceLink, SplitGroupState, SplitGroupMember,
  ManifestRecord,
}
use veriproc.Store.Db.{Db}
use veriproc.Store.Runs.{clashes}
use veriproc.Store.Runs.Diagram.{Later, Later-refl, Later-trans, Later-of_Advances}
use veriproc.Store.Runs.Ops.{RunOp, perform}
use veriproc.Store.Runs.Ops
use veriproc.Store.Runs.Lifecycle.{perform-Advances}
use veriproc.Store.Runs.Unique.{perform-NoClash}
use veriproc.Store.Runs.Coherence.{IsCoherent, IsLawful, is_decided, perform-IsCoherent}
use veriproc.Store.Runs
use veriproc.Store.Jobs
use veriproc.Store.Tasks
use veriproc.Store.Fingerprints
use veriproc.Store.Artifacts
use veriproc.Store.Manifests
use veriproc.Store.SplitGroups

pub record Legal (a b : Db) : Type 0 where
  pub grows : Grows Later a.runs b.runs
  pub unique : NoClash clashes a.runs → NoClash clashes b.runs
  pub coherent : All IsCoherent a.runs → All IsCoherent b.runs

pub Legal-preorder : IsPreorder Legal
Legal-preorder = record {
  reflexive = λ a. record {
    grows = Grows-refl Later Later-refl a.runs;
    unique = λ h. h;
    coherent = λ h. h;
  };
  transitive = λ a b c p q. record {
    grows = Grows-trans Later Later-trans a.runs b.runs c.runs p.grows q.grows;
    unique = λ h. q.unique (p.unique h);
    coherent = λ h. q.coherent (p.coherent h);
  };
}

-- A call that leaves the runs alone.
pub Legal-of_same : (a b : Db) → b.runs ≡ a.runs → Legal a b
Legal-of_same a b e = record {
  grows = rw e (Grows-refl Later Later-refl a.runs);
  unique = λ h. rw e h;
  coherent = λ h. rw e h;
}

pub perform-Legal : (op : RunOp) → IsLawful op → Within Legal (perform op)
perform-Legal op lawful = record {
  at = λ db. record {
    grows = Grows-map _ _ Later-of_Advances db.runs _ (perform-Advances op db);
    unique = perform-NoClash op db;
    coherent = perform-IsCoherent op db lawful;
  };
}

pub get_run-Legal : (id : String) → Within Legal (Runs.get id)
unfolding Runs.get
get_run-Legal id = record { at = Legal-preorder.reflexive }

pub insert_run-Legal : (r : RunRecord) → IsCoherent (Runs.fresh r) → Within Legal (Runs.insert r)
unfolding perform
insert_run-Legal r new = perform-Legal (Ops.insert r) new

pub mark_prepared-Legal :
    (id : String) (fingerprint : String) (at : Time)
    → Within Legal (Runs.mark_prepared id fingerprint at)
unfolding perform
mark_prepared-Legal id fingerprint at = perform-Legal (Ops.mark_prepared id fingerprint at) tt

pub mark_dispatched-Legal : (id : String) (at : Time) → Within Legal (Runs.mark_dispatched id at)
unfolding perform
mark_dispatched-Legal id at = perform-Legal (Ops.mark_dispatched id at) tt

pub mark_running-Legal : (id : String) (at : Time) → Within Legal (Runs.mark_running id at)
unfolding perform
mark_running-Legal id at = perform-Legal (Ops.mark_running id at) tt

pub mark_cancellation_requested-Legal :
    (id : String) (at : Time) → Within Legal (Runs.mark_cancellation_requested id at)
unfolding perform
mark_cancellation_requested-Legal id at = perform-Legal (Ops.mark_cancellation_requested id at) tt

pub mark_cancelled-Legal : (id : String) (at : Time) → Within Legal (Runs.mark_cancelled id at)
unfolding perform
mark_cancelled-Legal id at = perform-Legal (Ops.mark_cancelled id at) tt

pub mark_reconciliation_started-Legal :
    (id : String) (at : Time) → Within Legal (Runs.mark_reconciliation_started id at)
unfolding perform
mark_reconciliation_started-Legal id at = perform-Legal (Ops.mark_reconciliation_started id at) tt

pub mark_ready_for_finalization-Legal :
    (id : String) → Within Legal (Runs.mark_ready_for_finalization id)
unfolding perform
mark_ready_for_finalization-Legal id = perform-Legal (Ops.mark_ready_for_finalization id) tt

pub clear_reconciliation-Legal : (id : String) → Within Legal (Runs.clear_reconciliation id)
unfolding perform
clear_reconciliation-Legal id = perform-Legal (Ops.clear_reconciliation id) tt

pub mark_failed-Legal :
    (id : String) (reason : String) (at : Time) → Within Legal (Runs.mark_failed id reason at)
unfolding perform
mark_failed-Legal id reason at = perform-Legal (Ops.mark_failed id reason at) tt

pub mark_complete-Legal :
    (id : String) (c : Canonicality) (at : Time)
    → is_decided c ≡ true
    → Within Legal (Runs.mark_complete id c at)
unfolding perform
mark_complete-Legal id c at h = perform-Legal (Ops.mark_complete id c at) h

pub set_canonicality-Legal :
    (id : String) (c : Canonicality)
    → is_decided c ≡ true
    → Within Legal (Runs.set_canonicality id c)
unfolding perform
set_canonicality-Legal id c h = perform-Legal (Ops.set_canonicality id c) h

pub insert_job-Legal : (j : JobRecord) → Within Legal (Jobs.insert j)
unfolding Jobs.insert
insert_job-Legal j = record { at = λ db. Legal-of_same db _ (ground arith) }

pub update_state-Legal :
    (id : String) (state : String) (at : Time) (terminal : Bool)
    → Within Legal (Jobs.update_state id state at terminal)
unfolding Jobs.update_state
update_state-Legal id state at terminal = record { at = λ db. Legal-of_same db _ (ground arith) }

pub stamp_cancellation_requested-Legal :
    (id : String) (at : Time) → Within Legal (Jobs.stamp_cancellation_requested id at)
unfolding Jobs.stamp_cancellation_requested
stamp_cancellation_requested-Legal id at = record { at = λ db. Legal-of_same db _ (ground arith) }

pub set_node-Legal : (id : String) (node : String) → Within Legal (Jobs.set_node id node)
unfolding Jobs.set_node
set_node-Legal id node = record { at = λ db. Legal-of_same db _ (ground arith) }

pub set_elapsed_time-Legal :
    (id : String) (elapsed : String) → Within Legal (Jobs.set_elapsed_time id elapsed)
unfolding Jobs.set_elapsed_time
set_elapsed_time-Legal id elapsed = record { at = λ db. Legal-of_same db _ (ground arith) }

pub get_task-Legal : (id : String) → Within Legal (Tasks.get id)
unfolding Tasks.get
get_task-Legal id = record { at = λ db. Legal-of_same db _ (ground arith) }

pub insert_task-Legal : (t : TaskRecord) → Within Legal (Tasks.insert t)
unfolding Tasks.insert
insert_task-Legal t = record { at = λ db. Legal-of_same db _ (ground arith) }

pub set_task_state-Legal :
    (id : String) (state : TaskState) (summary : String)
    → Within Legal (Tasks.set_state id state summary)
unfolding Tasks.set_state
set_task_state-Legal id state summary = record { at = λ db. Legal-of_same db _ (ground arith) }

pub set_state_if_current-Legal :
    (id : String) (current : TaskState) (next : TaskState) (summary : String)
    → Within Legal (Tasks.set_state_if_current id current next summary)
unfolding Tasks.set_state_if_current
set_state_if_current-Legal id current next summary = record {
  at = λ db. Legal-of_same db _ (ground arith);
}

pub increment_join_arrival-Legal : (id : String) → Within Legal (Tasks.increment_join_arrival id)
unfolding Tasks.increment_join_arrival
increment_join_arrival-Legal id = record { at = λ db. Legal-of_same db _ (ground arith) }

pub set_latest_run-Legal : (id : String) (index : ℕ) → Within Legal (Tasks.set_latest_run id index)
unfolding Tasks.set_latest_run
set_latest_run-Legal id index = record { at = λ db. Legal-of_same db _ (ground arith) }

pub set_canonical_run-Legal :
    (id : String) (index : ℕ) (at : Time) → Within Legal (Tasks.set_canonical_run id index at)
unfolding Tasks.set_canonical_run
set_canonical_run-Legal id index at = record { at = λ db. Legal-of_same db _ (ground arith) }

pub get_by_value-Legal : (v : String) → Within Legal (Fingerprints.get_by_value v)
unfolding Fingerprints.get_by_value
get_by_value-Legal v = record { at = λ db. Legal-of_same db _ (ground arith) }

pub upsert-Legal :
    (id_of : String → String) (v : String) (now : Time)
    → Within Legal (Fingerprints.upsert id_of v now)
unfolding Fingerprints.upsert
upsert-Legal id_of v now = record { at = λ db. Legal-of_same db _ (ground arith) }

pub claim_canonical-Legal :
    (id : String) (run : String) → Within Legal (Fingerprints.claim_canonical id run)
unfolding Fingerprints.claim_canonical
claim_canonical-Legal id run = record { at = λ db. Legal-of_same db _ (ground arith) }

pub set_canonical-Legal :
    (id : String) (run : String) → Within Legal (Fingerprints.set_canonical id run)
unfolding Fingerprints.set_canonical
set_canonical-Legal id run = record { at = λ db. Legal-of_same db _ (ground arith) }

pub record_election-Legal : (c : CanonicalityChange) → Within Legal (Fingerprints.record_election c)
unfolding Fingerprints.record_election
record_election-Legal c = record { at = λ db. Legal-of_same db _ (ground arith) }

pub record_promotion-Legal :
    (c : CanonicalityChange) → Within Legal (Fingerprints.record_promotion c)
unfolding Fingerprints.record_promotion
record_promotion-Legal c = record { at = λ db. Legal-of_same db _ (ground arith) }

pub insert_artifact-Legal : (a : ArtifactRecord) → Within Legal (Artifacts.insert_artifact a)
unfolding Artifacts.insert_artifact
insert_artifact-Legal a = record { at = λ db. Legal-of_same db _ (ground arith) }

pub insert_publication-Legal :
    (p : PublicationRecord) → Within Legal (Artifacts.insert_publication p)
unfolding Artifacts.insert_publication
insert_publication-Legal p = record { at = λ db. Legal-of_same db _ (ground arith) }

pub insert_link-Legal : (l : ProvenanceLink) → Within Legal (Artifacts.insert_link l)
unfolding Artifacts.insert_link
insert_link-Legal l = record { at = λ db. Legal-of_same db _ (ground arith) }

pub ensure_group-Legal :
    (id : String) (label : String) (description : String) (expected : ℕ) (at : Time)
    → Within Legal (SplitGroups.ensure_group id label description expected at)
unfolding SplitGroups.ensure_group
ensure_group-Legal id label description expected at = record {
  at = λ db. Legal-of_same db _ (ground arith);
}

pub set_group_state-Legal :
    (id : String) (state : SplitGroupState) (at : Time)
    → Within Legal (SplitGroups.set_state id state at)
unfolding SplitGroups.set_state
set_group_state-Legal id state at = record { at = λ db. Legal-of_same db _ (ground arith) }

pub insert_manifest-Legal : (m : ManifestRecord) → Within Legal (Manifests.insert m)
unfolding Manifests.insert
insert_manifest-Legal m = record { at = λ db. Legal-of_same db _ (ground arith) }

pub add_member-Legal : (m : SplitGroupMember) → Within Legal (SplitGroups.add_member m)
unfolding SplitGroups.add_member
add_member-Legal m = record { at = λ db. Legal-of_same db _ (ground arith) }

pub set_aggregation-Legal :
    (id : String) (canonical failed : ℕ) (summary : String)
    → Within Legal (SplitGroups.set_aggregation id canonical failed summary)
unfolding SplitGroups.set_aggregation
set_aggregation-Legal id canonical failed summary = record {
  at = λ db. Legal-of_same db _ (ground arith);
}

pub get_group-Legal : (id : String) → Within Legal (SplitGroups.get id)
unfolding SplitGroups.get
get_group-Legal id = record { at = λ db. Legal-of_same db _ (ground arith) }

pub ruleset store_rules = (
  Legal-preorder, get_run-Legal, mark_prepared-Legal, mark_dispatched-Legal, mark_running-Legal,
  mark_cancellation_requested-Legal, mark_cancelled-Legal, mark_reconciliation_started-Legal,
  mark_ready_for_finalization-Legal, clear_reconciliation-Legal, mark_failed-Legal,
  mark_complete-Legal, set_canonicality-Legal, insert_job-Legal, update_state-Legal,
  stamp_cancellation_requested-Legal, set_node-Legal, set_elapsed_time-Legal, get_task-Legal,
  insert_task-Legal, set_task_state-Legal, set_state_if_current-Legal, increment_join_arrival-Legal,
  set_latest_run-Legal, set_canonical_run-Legal, get_by_value-Legal, upsert-Legal,
  claim_canonical-Legal, set_canonical-Legal, record_election-Legal, record_promotion-Legal,
  insert_artifact-Legal, insert_publication-Legal, insert_link-Legal, ensure_group-Legal,
  set_group_state-Legal, insert_manifest-Legal, add_member-Legal, set_aggregation-Legal,
  get_group-Legal,
)
