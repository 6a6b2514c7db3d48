-- ===== src/Tests/Agent.antt =====
-- A registry with one tool, which counts its runs, and two calls of it with one id.
use proofcoder.Base.{
  ℕ, suc, ◌-◌, eqb, if◌then◌else◌, ◌≡◌, refl, true, false, none, [], ◌∷◌, inl, inr,
}
use proofcoder.Base.Dict.{lookup}
use proofcoder.Base.Result.{ok, Result}
use proofcoder.Base.Text.{mem_text}
use proofcoder.Agent.Outcome.{
  add_done, or_else, finish_not_sole, prepared_of, BatchOutcome, is_duplicate, id_count,
}
use proofcoder.Agent.Batch.{
  checked, run_items, interrupt_rest, executed, execute_batch, prepare_all,
}
use proofcoder.Agent.Recorded.{IsQuiet}
use proofcoder.Agent.Ran.{IsAnswered}
use proofcoder.Agent.Answered.{execute_batch-IsAnswered}
use proofcoder.Agent.Preflight.{IsUntouched, execute_batch-IsUntouched}
use proofcoder.Agent.Attempts.{IsWithin, HasReason, HasAttempt, request_model-IsWithin}
use proofcoder.Agent.Request.{
  response, request_failed, Requests, observe_time, remaining_seconds, request_model,
}
use proofcoder.Errors.{connection, retryable}
use proofcoder.Retry.{retry_delay_seconds}
use proofcoder.Agent.Record.{
  record_result, record_approvals, emit_result, emit_event, count_error, Config, Loop, has_diff,
}
use proofcoder.Events.{new_emitter, emit}
use proofcoder.History.{add_tool, count_of, last_message, may_precede_tool, decrement}
use proofcoder.Json.{end, field, obj, str, get}
use proofcoder.Protocol.{assistant}
use proofcoder.Registry.{
  execute, contained, Raised, ToolDefinition, PreparedToolCall, prepare, write,
}
use proofcoder.Registry.Prepared.{IsPrepared, prepare-IsPrepared}
use proofcoder.Registry.Schema.{validate_arguments}
use proofcoder.RunState.{new_state, record_error_code, warn}
use proofcoder.Tests.Context.{codec}
use proofcoder.Tests.History.{call, reply}
use proofcoder.Tests.Paths.{texts, files}
use proofcoder.ToolResult.{success}
use proofcoder.Verification.{record_execution}

abbrev touch : ToolDefinition ℕ
touch = record {
  name = "read_file";
  description = "counts its runs";
  parameters = field "type" (str "object") (field "properties" (obj end) end);
  execute = λ arguments n. (ok (success end []), suc n);
  preflight = none;
  modifies_workspace = true;
  risk_level = write;
}

abbrev config : Config ℕ
config = record {
  codec = codec;
  texts = texts;
  files = λ n. files;
  workspace = "w" ∷ [];
  definitions = ("read_file", touch) ∷ [];
  cancelled = λ n. (false, n);
  drain_approvals = λ n. ([], n);
  sink = λ event. none;
  interrupts = λ event. false;
  interrupts_result = λ call result n. false;
}

abbrev loop : Loop ℕ
loop = record {
  world = 7;
  history = record { messages = []; pending = ("call_1", 2) ∷ [] };
  state = new_state "task" "run" 0;
  emitter = new_emitter;
}

abbrev item : PreparedToolCall ℕ
item = record { call = call; definition = touch; arguments = end }

prepared : prepare_all config (call ∷ call ∷ []) 7 ≡ ok (inl item ∷ inl item ∷ [])
unfolding prepare_all prepare validate_arguments lookup get
prepared = refl

execute_batch-IsUntouched_example : IsUntouched 7 (execute_batch config (call ∷ call ∷ []) loop)
unfolding is_duplicate id_count
execute_batch-IsUntouched_example =
    execute_batch-IsUntouched config (call ∷ call ∷ []) loop
      (inr (inl item ∷ inl item ∷ [], prepared, refl))

-- One call of the tool runs it once, and the batch is reported as a change of the workspace.
abbrev one : Loop ℕ
one = record loop {
  history = record { messages = assistant (reply (call ∷ [])) ∷ []; pending = ("call_1", 1) ∷ [] };
}

config-IsQuiet : IsQuiet config
config-IsQuiet = record { event = λ e. refl; result = λ call r n. refl }

execute_batch-IsAnswered_example :
    IsAnswered config (call ∷ []) one.history.messages (execute_batch config (call ∷ []) one)
execute_batch-IsAnswered_example = execute_batch-IsAnswered config config-IsQuiet (call ∷ []) one

-- The line opens what the batch computes with.
ran : Result Raised BatchOutcome × Loop ℕ
unfolding execute_batch checked run_items interrupt_rest executed add_done or_else finish_not_sole
    prepare_all prepare lookup validate_arguments get is_duplicate id_count prepared_of execute
    contained record_result add_tool count_of last_message may_precede_tool decrement
    record_approvals record_execution success has_diff mem_text emit_result emit_event emit
    count_error
ran = execute_batch config (call ∷ []) one

counted :
    (ran.1.world ≡ 8)
    × (ran.0
        ≡ ok (record {
          results = success end [] ∷ [];
          finish = none;
          modified_workspace = true;
          interrupted = false;
        }))
unfolding ran
counted = (refl, refl)

prepare-IsPrepared_example : IsPrepared codec.loads config.definitions call 7 item
unfolding ran
prepare-IsPrepared_example = prepare-IsPrepared codec.loads config.definitions call 7 refl

-- A client that answers the second attempt.
abbrev requests : Requests ℕ
requests = record {
  complete = λ messages schemas n.
      if eqb n 7
      then (
        request_failed (record {
          message = "reset";
          category = connection;
          status_code = none;
          retry_after_seconds = none;
          request_id = none;
        }),
        suc n,
      )
      else (response (reply []), suc n);
  clock = λ n. (n - 7, n);
  waited = λ n. 0;
  random_value = λ n. (0, n);
  sleep = λ delay n. (none, n);
  scale = 1;
  max_seconds = 1000;
  max_api_attempts = 3;
}

retried :
    ((request_model config requests [] [] loop).1.state.api_attempt_count ≡ 2)
    × ((request_model config requests [] [] loop).1.state.api_retry_count ≡ 1)
unfolding request_model remaining_seconds observe_time retryable retry_delay_seconds
    record_error_code warn emit_event emit
retried = (refl, refl)

request_model-IsWithin_example :
    IsWithin 3 loop (request_model config requests [] [] loop).1
    × HasReason
        (request_model config requests [] [] loop).0
        (request_model config requests [] [] loop).1
    × HasAttempt loop
        (request_model config requests [] [] loop).0
        (request_model config requests [] [] loop).1
request_model-IsWithin_example = request_model-IsWithin config requests [] [] loop
