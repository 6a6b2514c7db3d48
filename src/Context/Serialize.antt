-- ===== src/Context/Serialize.antt =====
-- context.py: messages as API payloads, the program's run facts, and the measure of a request.
use proofcoder.Base.{ℕ, String, ◌⁀◌, Option, none, some, List, [], ◌∷◌, ◌++◌, if◌then◌else◌, ◌==◌}
use proofcoder.Base.Host.{Codec}
use proofcoder.Base.Int.{ℤ, pos}
use proofcoder.Json.{
  Json, null, int, str, arr, obj, Items, nil, cons, Fields, end, field, get, of_texts,
}
use proofcoder.Protocol.{ToolCall, Message, system, user, assistant, tool}
use proofcoder.RunState.{CommandObservation, RunState, last_modification_event}

optional_text : Option String → Json
optional_text none = null
optional_text (some s) = str s

call_payload : ToolCall → Json
call_payload call = obj (
    field "id" (str call.id) (
      field "type" (str call.type) (
        field "function"
          (obj (
            field "name" (str call.function.name)
              (field "arguments" (str call.function.arguments) end)))
          end)))

call_payloads : List ToolCall → Items
call_payloads [] = nil
call_payloads (c ∷ cs) = cons (call_payload c) (call_payloads cs)

with_calls : List ToolCall → Fields
with_calls [] = end
with_calls (c ∷ cs) = field "tool_calls" (arr (call_payloads (c ∷ cs))) end

with_reasoning : Option String → Fields → Fields
with_reasoning none rest = rest
with_reasoning (some text) rest = field "reasoning_content" (str text) rest

unfoldable pub serialize_message : Message → Fields
unfolding optional_text call_payload call_payloads with_calls with_reasoning
serialize_message (system content) = field "role" (str "system") (field "content" (str content) end)
serialize_message (user content) = field "role" (str "user") (field "content" (str content) end)
serialize_message (assistant m) = field "role" (str "assistant") (
    field "content" (optional_text m.content)
      (with_reasoning m.reasoning_content (with_calls m.tool_calls)))
serialize_message (tool id content) =
    field "role" (str "tool") (field "tool_call_id" (str id) (field "content" (str content) end))

items_of : List Json → Items
items_of [] = nil
items_of (j ∷ js) = cons j (items_of js)

optional_event : Option ℕ → Json
optional_event none = null
optional_event (some n) = int (pos n)

optional_exit : Option ℤ → Json
optional_exit none = null
optional_exit (some n) = int n

verification_fact : Option CommandObservation → Json
verification_fact none = null
verification_fact (some o) = obj (
    field "argv" (arr (of_texts o.argv)) (
      field "cwd" (str o.cwd) (
        field "event" (int (pos o.event_sequence))
          (field "exit_code" (optional_exit o.exit_code) end))))

module _ (codec : Codec) where
  unfoldable pub deterministic_request_bytes : List Json → List Json → ℕ
  unfolding items_of
  deterministic_request_bytes messages tools = codec.utf8_length (
      codec.dumps_sorted (
        obj
          (field "messages" (arr (items_of messages)) (field "tools" (arr (items_of tools)) end))))

  unfoldable pub state_summary : RunState → ℕ → String
  unfolding verification_fact optional_event optional_exit
  state_summary s compressed =
      "ProofCoder program-generated local run facts: "
      ⁀ codec.dumps_sorted (
          obj (
            field "api_attempts" (int (pos s.api_attempt_count)) (
              field "api_retries" (int (pos s.api_retry_count)) (
                field "changed_files" (arr (of_texts s.changed_files)) (
                  field "compressed_groups" (int (pos compressed)) (
                    field "consecutive_failures" (int (pos s.consecutive_failure_count)) (
                      field "last_modification_event" (optional_event (last_modification_event s)) (
                        field "no_progress_repeats" (int (pos s.no_progress_count)) (
                          field "stable_error_codes" (arr (of_texts s.stable_error_codes)) (
                            field "verification" (verification_fact s.latest_verification)
                              end))))))))))

  -- f"{content}", which is a text in a system message
  content_text : Option Json → String
  content_text (some (str s)) = s
  content_text _ = "None"

  -- payload["content"] = value
  set_content : Json → Fields → Fields
  set_content value end = field "content" value end
  set_content value (field k v d) =
      if k == "content" then field k value d else field k v (set_content value d)

  group_payloads : List Message → List Json
  group_payloads [] = []
  group_payloads (m ∷ ms) = obj (serialize_message m) ∷ group_payloads ms

  groups_payloads : List (List Message) → List Json
  groups_payloads [] = []
  groups_payloads (g ∷ gs) = group_payloads g ++ groups_payloads gs

  -- the system message with the run's facts, the task, and the groups
  unfoldable pub assemble : RunState → Message → Message → List (List Message) → ℕ → List Json
  unfolding content_text set_content group_payloads groups_payloads
  assemble s first task groups removed =
      let payload = serialize_message first in
      obj (
        set_content
          (str (content_text (get "content" payload) ⁀ ("\n\n" ⁀ state_summary s removed))) payload)
      ∷ obj (serialize_message task)
      ∷ groups_payloads groups
