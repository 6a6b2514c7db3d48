-- ===== src/Streaming.antt =====
-- llm/streaming.py: fragments of a streamed response are assembled into one response. An exception
-- ends the use of an assembler, so an operation that raises gives no assembler back.
pub mod Reference
pub mod Assembled
pub mod Response
pub mod Finished
pub mod Cut
pub mod Roundtrip
use proofcoder.Base.{
  ℕ, ◌+◌, ◌*◌, String, ◌⁀◌, Bool, true, false, ◌&&◌, not, Option, none, some, List, [], ◌∷◌, ◌++◌,
  if◌then◌else◌, ◌==◌, ltb, leb, length, is_empty,
}
use proofcoder.Base.Int.{ℤ, eqb_ℤ}
use proofcoder.Base.Result.{Result, ok, err, ◌>>=◌, ◌>>◌, raise_if}
use proofcoder.Base.Text.{text_length}
use proofcoder.Errors.{LlmErrorCategory, LlmRequestError, permanent, invalid_response, connection}
use proofcoder.Json.{Json, obj}
use proofcoder.Protocol.{TokenUsage, FunctionCall, ToolCall, AssistantMessage}

abbrev pub max_stream_tool_calls : ℕ
max_stream_tool_calls = 64

abbrev pub max_tool_argument_characters : ℕ
max_tool_argument_characters = 64 * 1024

abbrev pub max_stream_text_characters : ℕ
max_stream_text_characters = 1024 * 1024

pub record PartialToolCall : Type 0 where
  pub call_id : String
  pub name : String
  pub arguments : String

-- A dict from indices: the list of its entries in insertion order.
abbrev pub Calls : Type 0
Calls = List (ℤ × PartialToolCall)

-- `reported` is what the text callback was given.
pub record StreamAssembler : Type 0 where
  pub text : List String
  pub reasoning : List String
  pub text_length : ℕ
  pub finish_reason : Option String
  pub usage : Option TokenUsage
  pub calls : Calls
  pub order : List ℤ
  pub saw_fragment : Bool
  pub reported : List String

abbrev pub new_assembler : StreamAssembler
new_assembler = record {
  text = [];
  reasoning = [];
  text_length = 0;
  finish_reason = none;
  usage = none;
  calls = [];
  order = [];
  saw_fragment = false;
  reported = [];
}

-- LLMRequestError, and the KeyError of a missing index
pub data StreamError : Type 0 where
  request_error : LlmRequestError → StreamError
  key_error : StreamError

abbrev pub raised : LlmErrorCategory → String → StreamError
raised category message = request_error (record {
  message = message;
  category = category;
  status_code = none;
  retry_after_seconds = none;
  request_id = none;
})

-- self._calls.get(index)
unfoldable pub find : ℤ → Calls → Option PartialToolCall
find i [] = none
find i ((j, p) ∷ calls) = if eqb_ℤ j i then some p else find i calls

-- self._calls[index] = p
unfoldable pub put : ℤ → PartialToolCall → Calls → Calls
put i p [] = (i, p) ∷ []
put i p ((j, q) ∷ calls) = if eqb_ℤ j i then (j, p) ∷ calls else (j, q) ∷ put i p calls

-- value or ""
abbrev pub or_empty : Option String → String
or_empty none = ""
or_empty (some s) = s

-- a later value that differs from an earlier one
unfoldable pub changes : String → String → Bool
changes given old = not (given == "") && (not (old == "") && not (given == old))

unfoldable pub first_of : String → String → String
first_of old given = if old == "" then given else old

-- whether `on_text` is there
module _ (reports : Bool) where
  unfoldable pub add_text : String → StreamAssembler → Result StreamError StreamAssembler
  add_text text a = if text == "" then ok a else do
    raise_if (ltb max_stream_text_characters (a.text_length + text_length text))
        (raised permanent "the streamed response exceeded the assistant text limit")
    ok (record a {
      saw_fragment = true;
      text_length = a.text_length + text_length text;
      text = a.text ++ text ∷ [];
      reported = if reports then a.reported ++ text ∷ [] else a.reported;
    })

unfoldable pub add_reasoning : String → StreamAssembler → StreamAssembler
add_reasoning text a =
    if text == "" then a else record a { saw_fragment = true; reasoning = a.reasoning ++ text ∷ [] }

unfoldable pub set_finish_reason : Option String → StreamAssembler → StreamAssembler
set_finish_reason reason a =
    if or_empty reason == "" then a else record a { saw_fragment = true; finish_reason = reason }

unfoldable pub set_usage : Option TokenUsage → StreamAssembler → StreamAssembler
set_usage none a = a
set_usage (some u) a = record a { usage = some u }

-- the arguments of the call are the old ones and the new piece
unfoldable pub extend :
    ℤ → PartialToolCall → String → StreamAssembler → Result StreamError StreamAssembler
extend index p arguments a =
    if arguments == "" then ok (record a { calls = put index p a.calls }) else do
      raise_if (ltb max_tool_argument_characters (text_length p.arguments + text_length arguments))
          (raised permanent "a streamed tool call exceeded the argument size limit")
      ok (record a { calls = put index (record p { arguments = p.arguments ⁀ arguments }) a.calls })

-- the first fragment of an index
unfoldable pub begin :
    ℤ → String → String → String → StreamAssembler → Result StreamError StreamAssembler
begin index id name arguments a = do
  raise_if (leb max_stream_tool_calls (length a.calls))
      (raised permanent "the streamed response declared more than 64 tool calls")
  extend index (record { call_id = id; name = name; arguments = "" }) arguments
      (record a { order = a.order ++ index ∷ [] })

-- a later fragment
unfoldable pub continue_call :
    ℤ
    → String
    → String
    → String
    → PartialToolCall
    → StreamAssembler
    → Result StreamError StreamAssembler
continue_call index id name arguments p a = do
  raise_if (changes id p.call_id)
      (raised permanent "a streamed tool call changed its identifier mid-stream")
  raise_if (changes name p.name)
      (raised permanent "a streamed tool call changed its function name mid-stream")
  extend index (record p { call_id = first_of p.call_id id; name = first_of p.name name }) arguments
      a

unfoldable pub add_tool_call_fragment :
    ℤ
    → Option String
    → Option String
    → Option String
    → StreamAssembler
    → Result StreamError StreamAssembler
unfolding begin continue_call
add_tool_call_fragment index id name arguments a0 =
    let a : StreamAssembler = record a0 { saw_fragment = true } in
    elim (find index a.calls) [
      | none ↦ begin index (or_empty id) (or_empty name) (or_empty arguments) a
      | some p ↦ continue_call index (or_empty id) (or_empty name) (or_empty arguments) p a
    ]

unfoldable pub join : List String → String
join [] = ""
join (s ∷ ss) = s ⁀ join ss

-- text or None
unfoldable pub or_none : String → Option String
or_none s = if s == "" then none else some s

-- partial.arguments or "{}"
unfoldable pub or_braces : String → String
or_braces s = if s == "" then "{}" else s

-- str(index)
module _ (show_int : ℤ → String) where
  -- partial.call_id or f"stream-tool-{index}"
  unfoldable pub id_of : ℤ → String → String
  id_of index id = if id == "" then "stream-tool-" ⁀ show_int index else id

  unfoldable pub call_of : ℤ → PartialToolCall → ToolCall
  unfolding id_of or_braces
  call_of index p = record {
    id = id_of index p.call_id;
    function = record { name = p.name; arguments = or_braces p.arguments };
    type = "function";
  }

-- what json.loads gave is an object
unfoldable pub checked_arguments : Option Json → Result StreamError (Unit {0})
checked_arguments none =
    err (raised invalid_response "a streamed tool call did not assemble into valid JSON arguments")
checked_arguments (some (obj d)) = ok tt
checked_arguments (some _) =
    err (
      raised invalid_response
        "a streamed tool call assembled into arguments that are not an object")

-- json.loads, and str(index)
module _ (loads : String → Option Json) (show_int : ℤ → String) where
  unfoldable pub build_call : ℤ → Option PartialToolCall → Result StreamError ToolCall
  unfolding checked_arguments call_of
  build_call index none = err key_error
  build_call index (some p) = do
    raise_if (p.name == "") (raised permanent "a streamed tool call never named a function")
    checked_arguments (loads (or_braces p.arguments))
    ok (call_of show_int index p)

  unfoldable pub build_calls : List ℤ → Calls → Result StreamError (List ToolCall)
  build_calls [] calls = ok []
  build_calls (index ∷ order) calls = do
    call ← build_call index (find index calls)
    rest ← build_calls order calls
    ok (call ∷ rest)

  unfoldable pub finish : StreamAssembler → Result StreamError AssistantMessage
  finish a = do
    raise_if (not a.saw_fragment)
        (raised invalid_response "the streamed response contained no data")
    calls ← build_calls a.order a.calls
    ok (record {
      content = or_none (join a.text);
      reasoning_content = or_none (join a.reasoning);
      finish_reason = if is_empty calls then a.finish_reason else some "tool_calls";
      usage = a.usage;
      tool_calls = calls;
    })

abbrev pub truncated_stream_error : StreamError
truncated_stream_error = raised connection "the streamed response ended before it was complete"

-- One call of an assembler's method.
pub data Piece : Type 0 where
  text_piece : String → Piece
  reasoning_piece : String → Piece
  finish_piece : Option String → Piece
  usage_piece : Option TokenUsage → Piece
  call_piece : ℤ → Option String → Option String → Option String → Piece

unfoldable pub add_piece : Bool → Piece → StreamAssembler → Result StreamError StreamAssembler
add_piece reports (text_piece s) a = add_text reports s a
add_piece reports (reasoning_piece s) a = ok (add_reasoning s a)
add_piece reports (finish_piece r) a = ok (set_finish_reason r a)
add_piece reports (usage_piece u) a = ok (set_usage u a)
add_piece reports (call_piece i id name arguments) a = add_tool_call_fragment i id name arguments a

unfoldable pub feed : Bool → List Piece → StreamAssembler → Result StreamError StreamAssembler
feed reports [] a = ok a
feed reports (p ∷ ps) a = add_piece reports p a >>= feed reports ps
