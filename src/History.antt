-- ===== src/History.antt =====
-- context.py, MessageHistory: the messages of a run in legal order, each tool call with its result.
pub mod Legal
pub mod Counter
pub mod Answers
pub mod Grows
use proofcoder.Base.{
  ℕ, zero, suc, eqb, String, Bool, true, false, ◌&&◌, ◌||◌, not, Option, none, some, List, [], ◌∷◌,
  ◌++◌, if◌then◌else◌, ◌==◌, is_empty, is_none,
}
use proofcoder.Base.Dict.{Dict, lookup, insert}
use proofcoder.Base.Result.{Result, ok, err, ◌>>=◌, ◌>>◌, raise_if}
use proofcoder.Json.{Json, obj}
use proofcoder.Protocol.{ToolCall, AssistantMessage, Message, system, user, assistant, tool}

-- The Counter of calls that wait for a result: an id that is missing counts 0.
pub record MessageHistory : Type 0 where
  pub messages : List Message
  pub pending : Dict ℕ

abbrev pub empty_history : MessageHistory
empty_history = record { messages = []; pending = [] }

-- self._messages[-1]
unfoldable pub last_message : List Message → Option Message
last_message [] = none
last_message (m ∷ []) = some m
last_message (m ∷ n ∷ ms) = last_message (n ∷ ms)

-- counter[key]
unfoldable pub count_of : String → Dict ℕ → ℕ
count_of id [] = 0
count_of id ((j, n) ∷ d) = if j == id then n else count_of id d

unfoldable pub increment : String → Dict ℕ → Dict ℕ
increment id [] = (id, 1) ∷ []
increment id ((j, n) ∷ d) = if j == id then (j, suc n) ∷ d else (j, n) ∷ increment id d

-- counter.update(call.id for call in calls)
unfoldable pub update : List ToolCall → Dict ℕ → Dict ℕ
unfolding increment
update [] d = d
update (c ∷ cs) d = update cs (increment c.id d)

one_less : String → ℕ → Dict ℕ → Dict ℕ
one_less j zero d = d
one_less j (suc zero) d = d
one_less j (suc (suc n)) d = (j, suc n) ∷ d

-- counter[id] -= 1, and the entry goes when it reaches 0
unfoldable pub decrement : String → Dict ℕ → Dict ℕ
unfolding one_less
decrement id [] = []
decrement id ((j, n) ∷ d) = if j == id then one_less j n d else (j, n) ∷ decrement id d

-- isinstance(last, (SystemMessage, AssistantMessage, ToolMessage)), and the other tests
unfoldable pub may_precede_user : Option Message → Bool
may_precede_user (some (system c)) = true
may_precede_user (some (assistant m)) = true
may_precede_user (some (tool i c)) = true
may_precede_user _ = false

unfoldable pub may_precede_assistant : Option Message → Bool
may_precede_assistant (some (user c)) = true
may_precede_assistant (some (tool i c)) = true
may_precede_assistant _ = false

unfoldable pub may_precede_tool : Option Message → Bool
may_precede_tool (some (assistant m)) = true
may_precede_tool (some (tool i c)) = true
may_precede_tool _ = false

abbrev pub append : MessageHistory → Message → MessageHistory
append h m = record h { messages = h.messages ++ m ∷ [] }

unfoldable pub require_no_pending_results : MessageHistory → Result String (Unit {0})
require_no_pending_results h =
    raise_if (not (is_empty h.pending)) "All assistant tool calls require matching tool results."

unfoldable pub add_system : String → MessageHistory → Result String MessageHistory
add_system content h = do
  raise_if (not (is_empty h.messages)) "The system message must be first and unique."
  ok (append h (system content))

unfoldable pub add_user : String → MessageHistory → Result String MessageHistory
unfolding require_no_pending_results
add_user content h = do
  raise_if (not (may_precede_user (last_message h.messages)))
      "A user message must follow a complete message group."
  require_no_pending_results h
  ok (append h (user content))

unfoldable pub add_assistant : AssistantMessage → MessageHistory → Result String MessageHistory
unfolding require_no_pending_results
add_assistant message h = do
  raise_if (not (may_precede_assistant (last_message h.messages)))
      "An assistant message must follow user or tool results."
  require_no_pending_results h
  ok (record {
    messages = h.messages ++ assistant message ∷ [];
    pending = update message.tool_calls h.pending;
  })

is_object : Json → Bool
is_object (obj d) = true
is_object _ = false

-- json.loads(content) is `loads content`, none where it raises JSONDecodeError
module _ (loads : String → Option Json) where
  valid_content : Option Json → Result String (Unit {0})
  valid_content none = err "Tool result content must be valid JSON."
  valid_content (some j) = raise_if (not (is_object j)) "Tool result content must be a JSON object."

  unfoldable pub add_tool : String → String → MessageHistory → Result String MessageHistory
  unfolding valid_content is_object
  add_tool id content h = do
    raise_if (eqb (count_of id h.pending) 0)
        "Tool result ID is missing, incorrect, or already satisfied."
    raise_if (not (may_precede_tool (last_message h.messages)))
        "A tool result must follow its assistant tool-call group."
    valid_content (loads content)
    ok (record { messages = h.messages ++ tool id content ∷ []; pending = decrement id h.pending })
