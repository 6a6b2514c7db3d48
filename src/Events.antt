-- ===== src/Events.antt =====
-- events.py, EventEmitter: sequence numbers, warning counts and sink failures. An event's payload is
-- what it reports, before events.py bounds, redacts and renders it; timestamps are left out.
pub mod Numbered
use proofcoder.Base.{
  ℕ, ◌+◌, String, Bool, true, false, Option, none, some, List, [], ◌∷◌, ◌++◌, if◌then◌else◌,
}
use proofcoder.Base.Text.{mem_text}
use proofcoder.Protocol.{ToolCall}
use proofcoder.ToolResult.{ToolResult}

pub data Payload : Type 0 where
  tool_result : ToolCall → ToolResult → Payload
  diff : ToolCall → ToolResult → Payload
  verification : ToolCall → ToolResult → Bool → Payload
  warning : String → Payload
  approval_request : String → Payload
  approval_decision : String → Payload

pub record Event : Type 0 where
  pub sequence : ℕ
  pub step : ℕ
  pub payload : Payload

pub record Emitter : Type 0 where
  pub delivered : List Event
  pub sequence : ℕ
  pub warning_count : ℕ
  pub sink_error_codes : List String

abbrev pub new_emitter : Emitter
new_emitter = record { delivered = []; sequence = 0; warning_count = 0; sink_error_codes = [] }

unfoldable pub is_warning : Payload → Bool
is_warning (warning code) = true
is_warning _ = false

-- a new event is numbered, counted if it is a warning, and handed to the sink
unfoldable pub new_event : ℕ → Payload → Emitter → Emitter
new_event step payload e = record e {
  delivered =
      e.delivered ++ record { sequence = e.sequence + 1; step = step; payload = payload } ∷ [];
  sequence = e.sequence + 1;
  warning_count = if is_warning payload then e.warning_count + 1 else e.warning_count;
}

-- a sink's error code is recorded once, with a warning of its own
record_sink_error : ℕ → Option String → Emitter → Emitter
record_sink_error step none e = e
record_sink_error step (some code) e =
    if mem_text code e.sink_error_codes
    then e
    else new_event step (warning code)
        (record e { sink_error_codes = e.sink_error_codes ++ code ∷ [] })

-- `sink event` is the code of the error that the sink raises for the event, if it does
unfoldable pub emit : (Event → Option String) → ℕ → Payload → Emitter → Emitter
unfolding new_event record_sink_error is_warning
emit sink step payload e =
    record_sink_error step
      (sink (record { sequence = e.sequence + 1; step = step; payload = payload }))
      (new_event step payload e)

-- an event whose delivery KeyboardInterrupt ends: it is numbered and counted, and no error is recorded
unfoldable pub emit_interrupted : ℕ → Payload → Emitter → Emitter
unfolding new_event is_warning
emit_interrupted step payload e = new_event step payload e
