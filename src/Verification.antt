-- ===== src/Verification.antt =====
-- verification.py: local tool results become modification and verification evidence. The tracker
-- is the run state that it updates. `has_drive` is the test that a text has a Windows drive,
-- `bool(PureWindowsPath(value).drive)`, which Python's versions decide differently.
pub mod Fresh
pub mod Latest
pub mod Changed
use proofcoder.Base.{
  ℕ, String, Bool, true, false, ◌&&◌, ◌||◌, not, Option, none, some, List, [], ◌∷◌, if◌then◌else◌,
  ◌==◌, is_empty,
}
use proofcoder.Base.Int.{ℤ, is_zero_ℤ}
use proofcoder.Base.Posix.{parts, is_absolute, join_parts}
use proofcoder.Base.Text.{mem_text, to_slashes}
use proofcoder.Json.{Fields, get, as_str, as_bool, as_int_or_none, as_arr, texts}
use proofcoder.ToolResult.{ToolResult}
use proofcoder.RunState.{
  CommandObservation, RunState, next_event, record_changed_file, record_command,
}

abbrev pub modification_tools : List String
modification_tools = "create_file" ∷ "replace_in_file" ∷ []

abbrev pub verification_command_kinds : List String
verification_command_kinds = "test" ∷ "build" ∷ "static_check" ∷ []

-- the fields of a command result that passed the type checks of `_record_command`
pub record CommandFields : Type 0 where
  pub argv : List String
  pub cwd : String
  pub exit_code : Option ℤ
  pub timed_out : Bool
  pub command_kind : String

infixl 5 ◌>>=◌
abbrev ◌>>=◌ {ℓ κ} : {A : Type ℓ} {B : Type κ} → Option A → (A → Option B) → Option B
none >>= f = none
some a >>= f = f a

nonempty : List String → Option (List String)
nonempty [] = none
nonempty (x ∷ xs) = some (x ∷ xs)

unfoldable pub command_fields : Fields → Option CommandFields
unfolding get as_str as_bool as_int_or_none as_arr texts nonempty
command_fields d = do
  items ← as_arr (get "argv" d)
  strings ← texts items
  argv ← nonempty strings
  cwd ← as_str (get "cwd" d)
  exit_code ← as_int_or_none (get "exit_code" d)
  timed_out ← as_bool (get "timed_out" d)
  command_kind ← as_str (get "command_kind" d)
  some (record {
    argv = argv;
    cwd = cwd;
    exit_code = exit_code;
    timed_out = timed_out;
    command_kind = command_kind;
  })

unfoldable pub exited_with_zero : Option ℤ → Bool
exited_with_zero none = false
exited_with_zero (some n) = is_zero_ℤ n

-- whether a command counts as verification evidence
unfoldable pub accepted : ToolResult → CommandFields → Bool
unfolding exited_with_zero
accepted result f =
    result.ok
    && (not f.timed_out
        && (exited_with_zero f.exit_code && mem_text f.command_kind verification_command_kinds))

unfoldable pub observation : ToolResult → CommandFields → ℕ → CommandObservation
observation result f event = record {
  argv = f.argv;
  cwd = f.cwd;
  exit_code = f.exit_code;
  timed_out = f.timed_out;
  command_kind = f.command_kind;
  event_sequence = event;
  accepted_as_verification = accepted result f;
}

-- the observation that `_record_command` records, if the result has the fields of one
unfoldable pub observed : ToolResult → ℕ → Option CommandObservation
observed result event =
    result.contents >>= λ d. command_fields d >>= λ f. some (observation result f event)

unfoldable pub record_command_result : ToolResult → ℕ → RunState → RunState
unfolding observed
record_command_result result event s = elim (observed result event) [
  | none ↦ s
  | some o ↦ record_command o s
]

module _ (has_drive : String → Bool) where
  unfoldable pub normalized_local_result_path : String → Option String
  normalized_local_result_path value =
      let normalized = to_slashes value in
      if normalized == ""
        || (is_absolute normalized
            || (has_drive value
                || (is_empty (parts normalized) || mem_text ".." (parts normalized))))
      then none
      else some (join_parts (parts normalized))

  -- the path that `_record_modification` records, if the result names one
  unfoldable pub modified_path : ToolResult → Option String
  modified_path result =
      if result.ok
      then (result.contents >>= λ d.
          as_str (get "path" d) >>= λ value. normalized_local_result_path value)
      else none

  unfoldable pub record_modification : ToolResult → ℕ → RunState → RunState
  record_modification result event s = elim (modified_path result) [
    | none ↦ s
    | some path ↦ record_changed_file path event s
  ]

  -- the new state, and the event number of the execution
  unfoldable pub record_execution : String → ToolResult → RunState → RunState × ℕ
  unfolding next_event
  record_execution name result s =
      let (s', event) = next_event s in
      if mem_text name modification_tools
      then (record_modification result event s', event)
      else if name == "run_command"
      then (record_command_result result event s', event)
      else (s', event)
