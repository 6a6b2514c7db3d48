-- ===== src/Finish.antt =====
-- tools/finish.py: a request to finish, and the completion that local evidence decides.
pub mod Request
pub mod Evidence
pub mod Untracked
use proofcoder.Base.{
  ℕ, String, Bool, true, false, ◌&&◌, not, Option, none, some, is_some, List, [], ◌∷◌, ◌++◌,
  if◌then◌else◌, ◌==◌, is_empty, all,
}
use proofcoder.Base.Int.{ℤ, pos}
use proofcoder.Base.Text.{mem_text}
use proofcoder.Json.{
  Json, null, bool, int, str, arr, obj, Items, nil, cons, Fields, end, field, of_texts,
}
use proofcoder.Protocol.{
  CompletionStatus, completed_verified, completed_unverified, completed_no_changes, blocked,
}
use proofcoder.ToolResult.{ToolResult, success}
use proofcoder.RunState.{CommandObservation, RunState}
use Request.{FinishTaskRequest}

pub record FinishOutcome : Type 0 where
  pub status : CompletionStatus
  pub result : ToolResult

-- status.value
unfoldable pub status_text : CompletionStatus → String
status_text completed_verified = "completed_verified"
status_text completed_unverified = "completed_unverified"
status_text completed_no_changes = "completed_no_changes"
status_text blocked = "blocked"

-- set(xs) == set(ys)
unfoldable pub same_set : List String → List String → Bool
same_set xs ys = all (λ x. mem_text x ys) xs && all (λ y. mem_text y xs) ys

same_argv : List String → List String → Bool
same_argv [] [] = true
same_argv [] (y ∷ ys) = false
same_argv (x ∷ xs) [] = false
same_argv (x ∷ xs) (y ∷ ys) = x == y && same_argv xs ys

verification_warnings : List String → Option CommandObservation → List String
verification_warnings claimed none =
    "MODEL_VERIFICATION_UNCONFIRMED: verification_command has no current valid local execution evidence"
    ∷ []
verification_warnings claimed (some o) =
    if same_argv claimed o.argv
    then []
    else "MODEL_VERIFICATION_MISMATCH: verification_command differs from current valid local execution evidence"
      ∷ []

unfoldable pub claim_warnings :
    FinishTaskRequest → List String → Option CommandObservation → List String
unfolding same_argv verification_warnings
claim_warnings request actual verification =
    (if same_set request.changed_files actual
      then []
      else "MODEL_CHANGED_FILES_MISMATCH: model changed_files differs from local evidence; local evidence was retained"
        ∷ [])
    ++ (elim request.verification_command [
      | none ↦ []
      | some claimed ↦ verification_warnings claimed verification
    ])

optional_int : Option ℤ → Json
optional_int none = null
optional_int (some n) = int n

optional_str : Option String → Json
optional_str none = null
optional_str (some s) = str s

unfoldable pub command_to_dict : CommandObservation → Json
unfolding optional_int
command_to_dict o = obj (
    field "argv" (arr (of_texts o.argv)) (
      field "cwd" (str o.cwd) (
        field "exit_code" (optional_int o.exit_code) (
          field "timed_out" (bool o.timed_out) (
            field "command_kind" (str o.command_kind) (
              field "event_sequence" (int (pos o.event_sequence))
                (field "accepted_as_verification" (bool o.accepted_as_verification) end)))))))

commands : List CommandObservation → Items
commands [] = nil
commands (o ∷ os) = cons (command_to_dict o) (commands os)

optional_command : Option CommandObservation → Json
optional_command none = null
optional_command (some o) = command_to_dict o

-- Blocked if the request says so, else by what the state recorded.
unfoldable pub completion_status : FinishTaskRequest → RunState → CompletionStatus
completion_status request s =
    if is_some request.blocked_reason
    then blocked
    else if is_empty s.changed_files
    then completed_no_changes
    else if is_some s.latest_verification
    then completed_verified
    else completed_unverified

unfoldable pub build_finish_outcome : FinishTaskRequest → RunState → FinishOutcome
unfolding optional_str optional_command commands completion_status
build_finish_outcome request s =
    let status = completion_status request s in
    let warnings = claim_warnings request s.changed_files s.latest_verification in
    record {
      status = status;
      result =
          success
            (field "completion_status" (str (status_text status)) (
              field "summary" (str request.summary) (
                field "changed_files" (arr (of_texts s.changed_files)) (
                  field "verification" (optional_command s.latest_verification) (
                    field "command_observations" (arr (commands s.command_observations)) (
                      field "limitations" (arr (of_texts request.limitations)) (
                        field "blocked_reason" (optional_str request.blocked_reason) (
                          field "warnings" (arr (of_texts warnings)) (
                            field "verification_command_executed_by_finish_task" (bool false)
                              end)))))))))
            warnings;
    }
