-- ===== src/Finish/Evidence.antt =====
-- tools/finish.py over the run's evidence: the completion status depends on the history of executed
-- tools, and a verified completion has a verification that no later modification made stale.
use proofcoder.Base.{
  ℕ, String, ◌<◌, ◌≡◌, refl, Bool, not, some, is_some, List, arith, if◌then◌else◌, any,
  Option-cases, inl, inr,
}
use proofcoder.Base.Dict.{AllValues}
use proofcoder.Protocol.{completed_verified, completed_unverified, completed_no_changes, blocked}
use proofcoder.RunState.{CommandObservation, RunState, new_state}
use proofcoder.Verification.Fresh.{IsConsistent, IsFresh, IsAccepted}
use proofcoder.Verification.Latest.{
  Execution, replay, modifies, covering, latest-replay, replay-IsConsistent,
}
use proofcoder.Verification.Changed.{changed-replay}
use proofcoder.Finish.{build_finish_outcome}
use proofcoder.Finish.Request.{FinishTaskRequest}

module _ (has_drive : String → Bool) (task run_id : String) (now : ℕ) where
  -- The state that a history of executions leaves, from a new run.
  abbrev pub after : List Execution → RunState
  after h = replay has_drive h (new_state task run_id now)

  new_state-IsConsistent : IsConsistent (new_state task run_id now)
  new_state-IsConsistent = record { past = tt; fresh = tt }

  -- The completion status of a request is decided by the history alone: blocked if the request says
  -- so, else no changes if nothing modified a file, else verified exactly if walking back from the
  -- newest execution an accepted command comes before any modification.
  pub status-after :
      (request : FinishTaskRequest) (h : List Execution)
      → (build_finish_outcome request (after h)).status ≡ (
          if is_some request.blocked_reason
          then blocked
          else if not (any (modifies has_drive) h)
          then completed_no_changes
          else if is_some (covering has_drive h 0)
          then completed_verified
          else completed_unverified)
  unfolding build_finish_outcome
  status-after request h = simp (
    (changed-replay has_drive h (new_state task run_id now) refl refl).1,
    latest-replay has_drive h (new_state task run_id now) refl,
  )

  latest-IsFresh :
      (s : RunState) (o : CommandObservation)
      → IsConsistent s
      → s.latest_verification ≡ some o
      → IsFresh s.last_modified_events s.event_sequence o
  latest-IsFresh s o c e = rw e at c.fresh

  -- A verified completion rests on an observation of this run that was accepted (it ended by itself
  -- with exit code 0 and is a test, a build or a static check) and whose event number is greater
  -- than that of every recorded modification.
  pub verified-IsFresh :
      (request : FinishTaskRequest) (h : List Execution)
      → (build_finish_outcome request (after h)).status ≡ completed_verified
      → (o : CommandObservation) × ((after h).latest_verification ≡ some o)
        × IsAccepted o
        × AllValues (λ e. e < o.event_sequence) (after h).last_modified_events
  unfolding build_finish_outcome
  verified-IsFresh request h verified = elim (Option-cases (after h).latest_verification) [
    | inl nothing ↦ absurd (ground arith)
    | inr (o, there) ↦
        let fresh : IsFresh (after h).last_modified_events (after h).event_sequence o =
          latest-IsFresh (after h) o
            (replay-IsConsistent has_drive h (new_state task run_id now) new_state-IsConsistent)
            there in
        (o, there, fresh.accepted, fresh.newest)
  ]
