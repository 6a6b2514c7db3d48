-- ===== src/Tests/Evidence.antt =====
-- A run that creates a file, tests it, edits it again, and finishes.
use proofcoder.Base.{String, ◌<◌, ◌≡◌, refl, Bool, false, none, some, is_empty, List, [], ◌∷◌}
use proofcoder.Base.Dict.{AllValues, lookup, insert}
use proofcoder.Base.Posix.{is_absolute, parts, join_parts}
use proofcoder.Base.Text.{mem_text, to_slashes}
use proofcoder.Base.Int.{pos}
use proofcoder.Json.{bool, int, str, arr, end, field, of_texts}
use proofcoder.Protocol.{completed_verified, completed_unverified}
use proofcoder.ToolResult.{success}
use proofcoder.RunState.{
  CommandObservation, RunState, new_state, record_command, record_changed_file,
}
use proofcoder.Verification.{
  record_execution, record_command_result, command_fields, record_modification, modified_path,
  normalized_local_result_path, observation, accepted,
}
use proofcoder.Verification.Fresh.{IsConsistent, IsAccepted, record_execution-IsConsistent}
use proofcoder.Verification.Latest.{Execution, replay, covering, latest-replay}
use proofcoder.Verification.Changed.{KeysMatch, changed-replay}
use proofcoder.Finish.{build_finish_outcome}
use proofcoder.Finish.Request.{FinishTaskRequest}
use proofcoder.Finish.Untracked.{untracked_write_stays_verified}
use proofcoder.Finish.Evidence.{after, status-after, verified-IsFresh}

abbrev no_drive : String → Bool
no_drive s = false

abbrev created : Execution
created = record { name = "create_file"; result = success (field "path" (str "src/a.py") end) [] }

abbrev tested : Execution
tested = record {
  name = "run_command";
  result =
      success
        (field "argv" (arr (of_texts ("pytest" ∷ []))) (
          field "cwd" (str ".") (
            field "exit_code" (int (pos 0))
              (field "timed_out" (bool false) (field "command_kind" (str "test") end)))))
        [];
}

abbrev request : FinishTaskRequest
request = record {
  summary = "done";
  changed_files = "src/a.py" ∷ [];
  verification_command = none;
  limitations = [];
  blocked_reason = none;
}

abbrev start : RunState
start = new_state "task" "run" 0

run : List Execution → RunState
unfolding build_finish_outcome replay record_execution success of_texts mem_text
    record_command_result command_fields record_command record_modification modified_path
    normalized_local_result_path to_slashes is_absolute parts record_changed_file lookup observation
    accepted covering insert join_parts
run h = after no_drive "task" "run" 0 h

verified_run :
    (build_finish_outcome request (after no_drive "task" "run" 0 (tested ∷ created ∷ []))).status
    ≡ completed_verified
unfolding run
verified_run = refl

-- An edit after the test makes it stale.
stale_run :
    (build_finish_outcome request
      (after no_drive "task" "run" 0 (created ∷ tested ∷ created ∷ []))).status
    ≡ completed_unverified
unfolding run
stale_run = refl

start-IsConsistent : IsConsistent start
start-IsConsistent = record { past = tt; fresh = tt }

record_execution-IsConsistent_example :
    IsConsistent (record_execution no_drive "create_file" created.result start).0
record_execution-IsConsistent_example =
    record_execution-IsConsistent no_drive "create_file" created.result start start-IsConsistent

latest-replay_example :
    (replay no_drive (tested ∷ created ∷ []) start).latest_verification
    ≡ covering no_drive (tested ∷ created ∷ []) 0
latest-replay_example = latest-replay no_drive (tested ∷ created ∷ []) start refl

changed-replay_example :
    KeysMatch (replay no_drive (tested ∷ created ∷ []) start)
    × (is_empty (replay no_drive (tested ∷ created ∷ []) start).changed_files ≡ false)
unfolding run
changed-replay_example = changed-replay no_drive (tested ∷ created ∷ []) start refl refl

status-after_example :
    (build_finish_outcome request (after no_drive "task" "run" 0 (tested ∷ created ∷ []))).status
    ≡ completed_verified
unfolding run
status-after_example = status-after no_drive "task" "run" 0 request (tested ∷ created ∷ [])

verified-IsFresh_example :
    (o : CommandObservation) × ((after no_drive "task" "run" 0
        (tested ∷ created ∷ [])).latest_verification
      ≡ some o)
    × IsAccepted o
    × AllValues
        (λ e. e < o.event_sequence)
        (after no_drive "task" "run" 0 (tested ∷ created ∷ [])).last_modified_events
verified-IsFresh_example =
    verified-IsFresh no_drive "task" "run" 0 request (tested ∷ created ∷ []) verified_run

abbrev patched : Execution
patched = record { name = "patch_file"; result = success (field "path" (str "src/a.py") end) [] }

untracked_write_stays_verified_example :
    (build_finish_outcome request
      (after no_drive "task" "run" 0 (patched ∷ tested ∷ created ∷ []))).status
    ≡ completed_verified
unfolding run
untracked_write_stays_verified_example =
    untracked_write_stays_verified no_drive "task" "run" 0 request "patch_file" patched.result
      (tested ∷ created ∷ []) refl verified_run
