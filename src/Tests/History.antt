-- ===== src/Tests/History.antt =====
-- A conversation with two calls that share an id, and the two results.
use proofcoder.Base.{String, ◌≡◌, refl, none, Option, some, List, [], ◌∷◌}
use proofcoder.Base.Result.{Result, ok, err}
use proofcoder.Json.{Json, obj, end}
use proofcoder.Protocol.{ToolCall, AssistantMessage, system, user, assistant, tool}
use proofcoder.History.{
  MessageHistory, add_system, add_user, add_assistant, add_tool, count_of, increment, update,
  decrement, last_message, may_precede_user, may_precede_assistant, may_precede_tool,
  require_no_pending_results,
}
use proofcoder.History.Legal.{AllAnswered, due_in}
use proofcoder.History.Grows.{
  IsSound, Built, nothing_yet, grown, system_added, user_added, assistant_added, tool_added,
  Built-IsSound, complete-AllAnswered,
}
use proofcoder.History.Answers.{add_results, assistant_then_results}

abbrev pub loads : String → Option Json
loads text = some (obj end)

abbrev pub call : ToolCall
call = record {
  id = "call_1";
  function = record { name = "read_file"; arguments = "{}" };
  type = "function";
}

abbrev pub reply : List ToolCall → AssistantMessage
reply calls = record {
  content = some "working";
  reasoning_content = none;
  finish_reason = none;
  usage = none;
  tool_calls = calls;
}

abbrev asked : MessageHistory
asked = record { messages = system "rules" ∷ user "task" ∷ []; pending = [] }

abbrev calling : MessageHistory
calling = record {
  messages = system "rules" ∷ user "task" ∷ assistant (reply (call ∷ call ∷ [])) ∷ [];
  pending = ("call_1", 2) ∷ [];
}

abbrev complete : MessageHistory
complete = record {
  messages =
      system "rules"
      ∷ user "task"
      ∷ assistant (reply (call ∷ call ∷ []))
      ∷ tool "call_1" "{}"
      ∷ tool "call_1" "{}"
      ∷ [];
  pending = [];
}

-- The line opens what the operations compute with.
one_answer : Result String MessageHistory
unfolding add_system add_user add_assistant add_tool count_of increment update decrement
    last_message may_precede_user may_precede_assistant may_precede_tool require_no_pending_results
one_answer = add_tool loads "call_1" "{}" calling

-- A result for an id that no call has, and a user message before the results, are refused.
refused :
    (add_tool loads "call_2" "{}" calling
      ≡ err "Tool result ID is missing, incorrect, or already satisfied.")
    × (add_user "more" calling ≡ err "All assistant tool calls require matching tool results.")
unfolding one_answer
refused = (refl, refl)

complete-Built : Built loads complete
unfolding one_answer
complete-Built =
    grown
      (grown
        (grown {h = asked} {h' = calling}
          (grown (grown nothing_yet (system_added "rules" refl)) (user_added "task" refl))
          (assistant_added (reply (call ∷ call ∷ [])) refl))
        (tool_added "call_1" "{}" refl))
      (tool_added "call_1" "{}" refl)

Built-IsSound_example : IsSound complete
Built-IsSound_example = Built-IsSound complete-Built

complete-AllAnswered_example : AllAnswered (due_in complete.messages)
unfolding one_answer
complete-AllAnswered_example = complete-AllAnswered complete-Built refl

assistant_then_results_example :
    (h' : MessageHistory) × (add_results loads ((call, "{}") ∷ (call, "{}") ∷ []) calling ≡ ok h')
    × (require_no_pending_results h' ≡ ok tt)
unfolding one_answer
assistant_then_results_example =
    assistant_then_results loads (reply (call ∷ call ∷ [])) ((call, "{}") ∷ (call, "{}") ∷ []) asked
      calling refl refl ((end, refl), ((end, refl), tt))
