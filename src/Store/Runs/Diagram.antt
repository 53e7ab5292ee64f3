-- ===== src/Store/Runs/Diagram.antt =====
-- The diagram of the states of a run (runs_lifecycle.go), and what one UPDATE does to one row.
use veriproc.Prelude.{
  ℕ, ◌≤◌, ◌≡◌, ◌∙◌, refl, String, true, false, not, Option, some, arith, coalesce,
}
use veriproc.Store.Records.{
  Time, RunState, RunRecord, Canonicality, is_terminal, pending, preparing, ready, dispatched,
  running, finalizing, complete, failed, cancelled,
}
use veriproc.Store.Runs.{unprepared, is_ready, dispatched_or_running, may_finalize, is_finalizing}

-- The diagram of states.
infix 40 ◌⟶◌
pub data ◌⟶◌ : RunState → RunState → Type 0 where
  stay : {s : RunState} → s ⟶ s
  prepare_pending : pending ⟶ ready
  prepare : preparing ⟶ ready
  dispatch : ready ⟶ dispatched
  start : dispatched ⟶ running
  finish : running ⟶ finalizing
  finish_unseen : dispatched ⟶ finalizing
  close : finalizing ⟶ complete
  fail : {s : RunState} → is_terminal s ≡ false → s ⟶ failed
  cancel : {s : RunState} → is_terminal s ≡ false → s ⟶ cancelled

-- How far along a run is; no operation takes it back.
abbrev pub rank : RunState → ℕ
rank pending = 0
rank preparing = 0
rank ready = 1
rank dispatched = 2
rank running = 3
rank finalizing = 4
rank complete = 5
rank failed = 5
rank cancelled = 5

-- What one operation may do to one row.
pub record Advances (r s : RunRecord) : Type 0 where
  pub edge : r.state ⟶ s.state
  pub same_run_id : s.run_id ≡ r.run_id
  pub same_task_id : s.task_id ≡ r.task_id
  pub same_retry_index : s.retry_index ≡ r.retry_index
  pub same_working_root : s.working_root ≡ r.working_root
  pub ended :
      is_terminal r.state ≡ true
      → (s.state ≡ r.state)
        × (s.terminal_at ≡ r.terminal_at)
        × (s.failure_reason ≡ r.failure_reason)

pub Advances-refl : (r : RunRecord) → Advances r r
Advances-refl r = record {
  edge = stay;
  same_run_id = refl;
  same_task_id = refl;
  same_retry_index = refl;
  same_working_root = refl;
  ended = λ _. (refl, refl, refl);
}

to_ready : (s : RunState) → unprepared s ≡ true → s ⟶ ready
to_ready pending h = prepare_pending
to_ready preparing h = prepare
to_ready _ h = absurd (cc h)

to_dispatched : (s : RunState) → is_ready s ≡ true → s ⟶ dispatched
to_dispatched ready h = dispatch
to_dispatched _ h = absurd (cc h)

to_running : (s : RunState) → dispatched_or_running s ≡ true → s ⟶ running
to_running dispatched h = start
to_running running h = stay
to_running _ h = absurd (cc h)

to_finalizing : (s : RunState) → may_finalize s ≡ true → s ⟶ finalizing
to_finalizing dispatched h = finish_unseen
to_finalizing running h = finish
to_finalizing finalizing h = stay
to_finalizing _ h = absurd (cc h)

to_complete : (s : RunState) → is_finalizing s ≡ true → s ⟶ complete
to_complete finalizing h = close
to_complete _ h = absurd (cc h)

-- One lemma for each SET list, under its WHERE condition on the state.
module _ (r : RunRecord) where
  pub Advances-prepared :
      (fingerprint : String) (at : Time)
      → unprepared r.state ≡ true
      → Advances r
          (record r { processing_fingerprint = fingerprint; prepared_at = some at; state = ready })
  Advances-prepared fingerprint at h = record {
    edge = to_ready r.state h;
    same_run_id = refl;
    same_task_id = refl;
    same_retry_index = refl;
    same_working_root = refl;
    ended = λ t. ground arith;
  }

  pub Advances-dispatched :
      (at : Time)
      → is_ready r.state ≡ true
      → Advances r (record r { dispatched_at = some at; state = dispatched })
  Advances-dispatched at h = record {
    edge = to_dispatched r.state h;
    same_run_id = refl;
    same_task_id = refl;
    same_retry_index = refl;
    same_working_root = refl;
    ended = λ t. ground arith;
  }

  pub Advances-running :
      (at : Time)
      → dispatched_or_running r.state ≡ true
      → Advances r (record r { started_at = coalesce r.started_at at; state = running })
  Advances-running at h = record {
    edge = to_running r.state h;
    same_run_id = refl;
    same_task_id = refl;
    same_retry_index = refl;
    same_working_root = refl;
    ended = λ t. ground arith;
  }

  pub Advances-finalizing :
      may_finalize r.state ≡ true → Advances r (record r { state = finalizing })
  Advances-finalizing h = record {
    edge = to_finalizing r.state h;
    same_run_id = refl;
    same_task_id = refl;
    same_retry_index = refl;
    same_working_root = refl;
    ended = λ t. ground arith;
  }

  pub Advances-complete :
      (c : Canonicality) (at : Time)
      → is_finalizing r.state ≡ true
      → Advances r (record r { state = complete; canonicality = c; terminal_at = some at })
  Advances-complete c at h = record {
    edge = to_complete r.state h;
    same_run_id = refl;
    same_task_id = refl;
    same_retry_index = refl;
    same_working_root = refl;
    ended = λ t. ground arith;
  }

  pub Advances-canonicality : (c : Canonicality) → Advances r (record r { canonicality = c })
  Advances-canonicality c = record {
    edge = stay;
    same_run_id = refl;
    same_task_id = refl;
    same_retry_index = refl;
    same_working_root = refl;
    ended = λ t. (refl, refl, refl);
  }

  pub Advances-failed :
      (reason : String) (at : Time)
      → not (is_terminal r.state) ≡ true
      → Advances r (record r { state = failed; failure_reason = reason; terminal_at = some at })
  Advances-failed reason at h = record {
    edge = fail (ground arith);
    same_run_id = refl;
    same_task_id = refl;
    same_retry_index = refl;
    same_working_root = refl;
    ended = λ t. ground arith;
  }

  pub Advances-cancellation_requested :
      (at : Time)
      → Advances r
          (record r { cancellation_requested_at = coalesce r.cancellation_requested_at at })
  Advances-cancellation_requested at = record {
    edge = stay;
    same_run_id = refl;
    same_task_id = refl;
    same_retry_index = refl;
    same_working_root = refl;
    ended = λ t. (refl, refl, refl);
  }

  pub Advances-cancelled :
      (at : Time)
      → not (is_terminal r.state) ≡ true
      → Advances r
          (record r { state = cancelled; failure_reason = "cancelled"; terminal_at = some at })
  Advances-cancelled at h = record {
    edge = cancel (ground arith);
    same_run_id = refl;
    same_task_id = refl;
    same_retry_index = refl;
    same_working_root = refl;
    ended = λ t. ground arith;
  }

  pub Advances-reconciliation :
      (stamp : Option Time) → Advances r (record r { reconciliation_started_at = stamp })
  Advances-reconciliation stamp = record {
    edge = stay;
    same_run_id = refl;
    same_task_id = refl;
    same_retry_index = refl;
    same_working_root = refl;
    ended = λ t. (refl, refl, refl);
  }

-- What is left of `Advances` over many steps.
pub record Later (r s : RunRecord) : Type 0 where
  pub rank_le : rank r.state ≤ rank s.state
  pub same_run_id : s.run_id ≡ r.run_id
  pub ended :
      is_terminal r.state ≡ true
      → (s.state ≡ r.state)
        × (s.terminal_at ≡ r.terminal_at)
        × (s.failure_reason ≡ r.failure_reason)

rank_of_failed : (s : RunState) → rank s ≤ 5
rank_of_failed pending = omega arith
rank_of_failed _ = omega arith

rank-⟶ : {s t : RunState} → s ⟶ t → rank s ≤ rank t
rank-⟶ {s} stay = omega arith
rank-⟶ prepare_pending = omega arith
rank-⟶ prepare = omega arith
rank-⟶ dispatch = omega arith
rank-⟶ start = omega arith
rank-⟶ finish = omega arith
rank-⟶ finish_unseen = omega arith
rank-⟶ close = omega arith
rank-⟶ {s} (fail h) = rank_of_failed s
rank-⟶ {s} (cancel h) = rank_of_failed s

pub Later-of_Advances : (r s : RunRecord) → Advances r s → Later r s
Later-of_Advances r s a = record {
  rank_le = rank-⟶ a.edge;
  same_run_id = a.same_run_id;
  ended = a.ended;
}

pub Later-refl : (r : RunRecord) → Later r r
Later-refl r = Later-of_Advances r r (Advances-refl r)

pub Later-trans : (r s t : RunRecord) → Later r s → Later s t → Later r t
Later-trans r s t a b = record {
  rank_le = omega (arith, a.rank_le, b.rank_le);
  same_run_id = b.same_run_id ∙ a.same_run_id;
  ended = λ h. ground (arith, a.ended h, b.ended);
}
