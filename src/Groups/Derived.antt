-- ===== src/Groups/Derived.antt =====
-- The derived state of a split group against the words of the package's comment (internal/groups).
use veriproc.Prelude.{
  ℕ, ◌≤◌, ◌≡◌, ◌&&◌, ◌||◌, Bool, true, false, List, [], ◌∷◌, Option, none, some, ltb, eqb, length,
  if◌then◌else◌,
}
use veriproc.Store.Table.{find}
use veriproc.Store.Records.{RunRecord, SplitGroupState, SplitGroupMember, is_terminal}
use veriproc.Store.Db.{Db}
use veriproc.Store.Runs.{has_id}
use veriproc.Groups.{Tally, is_open, is_failed, counts_as_canonical}

module _ (db : Db) where
  abbrev pub tests : (RunRecord → Bool) → Option RunRecord → Bool
  tests p none = false
  tests p (some r) = p r

  -- Whether some, or every, member has a run that passes a test.
  abbrev pub some_member : (RunRecord → Bool) → List SplitGroupMember → Bool
  some_member p [] = false
  some_member p (m ∷ ms) = tests p (find (has_id m.run_id) db.runs) || some_member p ms

  abbrev pub every_member : (RunRecord → Bool) → List SplitGroupMember → Bool
  every_member p [] = true
  every_member p (m ∷ ms) = tests p (find (has_id m.run_id) db.runs) && every_member p ms

  abbrev pub is_ended : RunRecord → Bool
  is_ended r = is_terminal r.state

  abbrev pub has_failed : RunRecord → Bool
  has_failed r = is_failed r.state

  abbrev pub is_canonical : RunRecord → Bool
  is_canonical r = counts_as_canonical r.canonicality

  -- The state of a group that has ended: one canonical run is enough.
  abbrev pub verdict : List SplitGroupMember → SplitGroupState
  verdict ms =
      if some_member is_canonical ms
      then SplitGroupState.complete
      else if some_member has_failed ms
      then SplitGroupState.failed
      else SplitGroupState.aggregating

  abbrev pub waiting : SplitGroupState → SplitGroupState
  waiting current =
      if is_open current then SplitGroupState.open_group else SplitGroupState.aggregating

  -- What the state of a group should be: no verdict before the expected members are there and all
  -- members have ended; an empty group of which nothing is expected stays as it is.
  abbrev pub described : SplitGroupState → List SplitGroupMember → ℕ → SplitGroupState
  described current ms expected =
      if ltb (length ms) expected
      then waiting current
      else if eqb (length ms) 0
      then current
      else if every_member is_ended ms
      then verdict ms
      else waiting current

  record Counts (ms : List SplitGroupMember) (t : Tally) : Type 0 where
    total_is : t.total ≡ length ms
    terminal_le : t.terminal ≤ t.total
    all_ended : ltb t.terminal t.total ≡ (if every_member is_ended ms then false else true)
    any_canonical : ltb 0 t.canonical ≡ some_member is_canonical ms
    any_failed : ltb 0 t.failed ≡ some_member has_failed ms
