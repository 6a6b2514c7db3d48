-- ===== src/RunState.antt =====
-- state.py: the facts of one run that the program owns. Times are whole clock ticks.
use proofcoder.Base.{
  ℕ, ◌+◌, ◌-◌, String, Bool, max, Option, none, some, List, [], ◌∷◌, ◌++◌, if◌then◌else◌, is_none,
  length, drop,
}
use proofcoder.Base.Dict.{Dict, lookup, insert}
use proofcoder.Base.Int.{ℤ}
use proofcoder.Protocol.{TerminationReason, CompletionStatus}

pub record CommandObservation : Type 0 where
  pub argv : List String
  pub cwd : String
  pub exit_code : Option ℤ
  pub timed_out : Bool
  pub command_kind : String
  pub event_sequence : ℕ
  pub accepted_as_verification : Bool

pub record RunState : Type 0 where
  pub original_task : String
  pub run_id : String
  pub started_at : ℕ
  pub elapsed_seconds : ℕ
  pub approval_wait_seconds : ℕ
  pub final_text : Option String
  pub model_step : ℕ
  pub event_sequence : ℕ
  pub last_modified_events : Dict ℕ
  pub command_observations : List CommandObservation
  pub latest_verification : Option CommandObservation
  pub model_call_count : ℕ
  pub tool_call_count : ℕ
  pub tool_error_count : ℕ
  pub api_attempt_count : ℕ
  pub api_retry_count : ℕ
  pub context_compaction_count : ℕ
  pub compressed_group_count : ℕ
  pub protocol_repair_count : ℕ
  pub consecutive_failure_count : ℕ
  pub no_progress_count : ℕ
  pub input_token_count : ℕ
  pub output_token_count : ℕ
  pub stable_error_codes : List String
  pub warnings : List String
  pub termination_reason : Option TerminationReason
  pub completion_status : Option CompletionStatus
  pub limitations : List String
  pub blocked_reason : Option String
  pub finish_summary : Option String
  pub finish_warnings : List String
  pub changed_files : List String

-- RunState(original_task=task, run_id=run_id, started_at=now)
abbrev pub new_state : String → String → ℕ → RunState
new_state task run_id now = record {
  original_task = task;
  run_id = run_id;
  started_at = now;
  elapsed_seconds = 0;
  approval_wait_seconds = 0;
  final_text = none;
  model_step = 0;
  event_sequence = 0;
  last_modified_events = [];
  command_observations = [];
  latest_verification = none;
  model_call_count = 0;
  tool_call_count = 0;
  tool_error_count = 0;
  api_attempt_count = 0;
  api_retry_count = 0;
  context_compaction_count = 0;
  compressed_group_count = 0;
  protocol_repair_count = 0;
  consecutive_failure_count = 0;
  no_progress_count = 0;
  input_token_count = 0;
  output_token_count = 0;
  stable_error_codes = [];
  warnings = [];
  termination_reason = none;
  completion_status = none;
  limitations = [];
  blocked_reason = none;
  finish_summary = none;
  finish_warnings = [];
  changed_files = [];
}

unfoldable pub max_value : Dict ℕ → ℕ
max_value [] = 0
max_value ((k, e) ∷ d) = max e (max_value d)

-- None without a modification, else the greatest event of one
unfoldable pub last_modification_event : RunState → Option ℕ
unfolding max_value
last_modification_event s = elim s.last_modified_events [
  | [] ↦ none
  | entry ∷ rest ↦ some (max_value (entry ∷ rest))
]

unfoldable pub next_event : RunState → RunState × ℕ
next_event s = (record s { event_sequence = s.event_sequence + 1 }, s.event_sequence + 1)

unfoldable pub record_changed_file : String → ℕ → RunState → RunState
record_changed_file path event s = record s {
  changed_files =
      if is_none (lookup path s.last_modified_events)
      then s.changed_files ++ path ∷ []
      else s.changed_files;
  last_modified_events = insert path event s.last_modified_events;
  latest_verification = none;
}

unfoldable pub record_command : CommandObservation → RunState → RunState
record_command o s = record s {
  command_observations = s.command_observations ++ o ∷ [];
  latest_verification = if o.accepted_as_verification then some o else s.latest_verification;
}

-- `del codes[:-16]` keeps the last 16
unfoldable pub record_error_code : String → RunState → RunState
record_error_code code s =
    let codes = s.stable_error_codes ++ code ∷ [] in
    record s { stable_error_codes = drop (length codes - 16) codes }

unfoldable pub warn : String → RunState → RunState
warn code s = record s { warnings = s.warnings ++ code ∷ [] }
