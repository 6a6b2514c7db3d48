-- ===== src/Verification/Latest.antt =====
-- verification.py, run over a whole history of executions: what counts as the verification is found
-- by walking back from the newest execution.
use proofcoder.Base.{
  ℕ, ◌+◌, ◌≡◌, ◌∙◌, ◌&&◌, not, String, Bool, true, false, Option, none, some, is_some, List, [],
  ◌∷◌, arith, if◌then◌else◌, ◌==◌, length,
}
use proofcoder.Base.Text.{mem_text}
use proofcoder.ToolResult.{ToolResult}
use proofcoder.RunState.{CommandObservation, RunState, record_changed_file, record_command}
use proofcoder.Verification.{
  modification_tools, observed, record_command_result, modified_path, record_modification,
  record_execution,
}
use proofcoder.Verification.Fresh.{IsConsistent, record_execution-IsConsistent}

-- One executed tool call.
pub record Execution : Type 0 where
  pub name : String
  pub result : ToolResult

abbrev when {ℓ} : {A : Type ℓ} → Bool → Option A → Option A
when true o = o
when false o = none

module _ (has_drive : String → Bool) where
  -- The state after a history of executions, the newest first.
  unfoldable pub replay : List Execution → RunState → RunState
  replay [] s = s
  replay (e ∷ older) s = (record_execution has_drive e.name e.result (replay older s)).0

  -- Whether an execution changes a file that the tracker knows of.
  abbrev pub modifies : Execution → Bool
  modifies e = mem_text e.name modification_tools && is_some (modified_path has_drive e.result)

  -- The observation that an execution with this event number makes.
  abbrev pub observes : Execution → ℕ → Option CommandObservation
  observes e event =
      when (not (mem_text e.name modification_tools))
        (when (e.name == "run_command") (observed e.result event))

  -- Walking back, a modification ends the search, and the first accepted observation is the answer.
  unfoldable pub answer :
      Bool → Option CommandObservation → Option CommandObservation → Option CommandObservation
  answer true o older = none
  answer false none older = older
  answer false (some o) older = if o.accepted_as_verification then some o else older

  unfoldable pub covering : List Execution → ℕ → Option CommandObservation
  unfolding answer
  covering [] start = none
  covering (e ∷ older) start =
      answer (modifies e) (observes e (start + length older + 1)) (covering older start)

  event_sequence-record_execution :
      (e : Execution) (s : RunState)
      → (record_execution has_drive e.name e.result s).0.event_sequence ≡ s.event_sequence + 1
  unfolding record_execution record_modification record_command_result record_changed_file
      record_command
  event_sequence-record_execution e s = ground arith

  latest-record_execution :
      (e : Execution) (s : RunState)
      → (record_execution has_drive e.name e.result s).0.latest_verification
        ≡ answer (modifies e) (observes e (s.event_sequence + 1)) s.latest_verification
  unfolding record_execution record_modification record_command_result record_changed_file
      record_command answer
  latest-record_execution e s = ground arith

  pub event_sequence-replay :
      (h : List Execution) (s : RunState)
      → (replay h s).event_sequence ≡ s.event_sequence + length h
  unfolding replay
  event_sequence-replay [] s = omega arith
  event_sequence-replay (e ∷ older) s =
      omega
        (arith, event_sequence-record_execution e (replay older s), event_sequence-replay older s)

  -- From a state with no verification, the tracker's verification after any history is the first
  -- accepted command that a walk back from the newest execution meets before any modification.
  pub latest-replay :
      (h : List Execution) (s : RunState)
      → s.latest_verification ≡ none
      → (replay h s).latest_verification ≡ covering h s.event_sequence
  unfolding replay covering
  latest-replay [] s start = start
  latest-replay (e ∷ older) s start =
      latest-record_execution e (replay older s)
      ∙ cc (event_sequence-replay older s, latest-replay older s start)

  pub replay-IsConsistent :
      (h : List Execution) (s : RunState) → IsConsistent s → IsConsistent (replay h s)
  unfolding replay
  replay-IsConsistent [] s c = c
  replay-IsConsistent (e ∷ older) s c =
      record_execution-IsConsistent has_drive e.name e.result (replay older s)
        (replay-IsConsistent older s c)
