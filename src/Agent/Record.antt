-- ===== src/Agent/Record.antt =====
-- agent.py, _record_result: one result into the state, the history and the event trace.
use proofcoder.Base.{
  ℕ, ltb, ◌||◌, ◌+◌, String, Bool, true, false, ◌&&◌, Option, none, some, List, [], ◌∷◌,
  if◌then◌else◌, ◌==◌, eqb,
}
use proofcoder.Base.Dict.{Dict}
use proofcoder.Base.Host.{Codec, Texts, Files, FilePath}
use proofcoder.Base.Int.{pos}
use proofcoder.Base.Result.{Result, ok, err, raise_if}
use proofcoder.Base.Text.{mem_text, split_at}
use proofcoder.Events.{
  Event, Emitter, emit, emit_interrupted, Payload, tool_result, diff, verification, warning,
  approval_request, approval_decision,
}
use proofcoder.History.{MessageHistory, add_tool}
use proofcoder.Json.{Json, null, bool, int, str, arr, obj, Fields, end, field, get, of_texts}
use proofcoder.Protocol.{ToolCall}
use proofcoder.Registry.{Raised, exception, interrupt, ToolDefinition}
use proofcoder.RunState.{RunState, record_error_code}
use proofcoder.ToolResult.{ToolError, ToolResult}

-- What the loop is given and does not change.
pub record Config (W : Type 0) : Type 0 where
  pub codec : Codec
  pub texts : Texts
  pub files : W → Files
  pub workspace : FilePath
  pub definitions : Dict (ToolDefinition W)
  -- reading the cancel flag may be answered differently each time
  pub cancelled : W → Bool × W
  -- the approval records made since the last drain, by their request ids
  pub drain_approvals : W → List String × W
  pub sink : Event → Option String
  -- whether the sink's work on an event is ended by KeyboardInterrupt
  pub interrupts : Event → Bool
  -- whether KeyboardInterrupt comes before the history has a result, after this many events
  pub interrupts_result : ToolCall → ToolResult → ℕ → Bool

-- What it changes.
pub record Loop (W : Type 0) : Type 0 where
  pub world : W
  pub history : MessageHistory
  pub state : RunState
  pub emitter : Emitter

optional_error : Option ToolError → Json
optional_error none = null
optional_error (some e) = obj (
    field "code" (str e.code)
      (field "message" (str e.message) (field "retryable" (bool e.retryable) end)))

optional_data : Option Fields → Json
optional_data none = null
optional_data (some d) = obj d

warning_field : List String → Fields
warning_field [] = end
warning_field (w ∷ ws) = field "warnings" (arr (of_texts (w ∷ ws))) end

-- ToolResult.to_dict()
unfoldable pub to_dict : ToolResult → Fields
unfolding optional_error optional_data warning_field
to_dict r = field "ok" (bool r.ok) (
    field "data" (optional_data r.contents) (
      field "error" (optional_error r.error) (
        field "meta"
          (obj (
            field "duration_ms" (int (pos r.meta.duration_ms))
              (field "truncated" (bool r.meta.truncated) (warning_field r.meta.warnings))))
          end)))

-- result.data or {}
data_or_empty : Option Fields → Fields
data_or_empty none = end
data_or_empty (some d) = d

is_false : Option Json → Bool
is_false (some (bool false)) = true
is_false _ = false

-- exit_code == 0, where False == 0 in Python
is_zero : Option Json → Bool
is_zero (some (int (pos n))) = eqb n 0
is_zero (some (bool false)) = true
is_zero _ = false

text_among : List String → Option Json → Bool
text_among names (some (str s)) = mem_text s names
text_among names _ = false

is_obj : Option Json → Bool
is_obj (some (obj d)) = true
is_obj _ = false

is_str : Option Json → Bool
is_str (some (str s)) = true
is_str _ = false

is_arr : Option Json → Bool
is_arr (some (arr xs)) = true
is_arr _ = false

-- whether diff_event_payload gives a payload
unfoldable pub has_diff : ToolCall → ToolResult → Bool
unfolding data_or_empty is_obj is_str
has_diff call r =
    let d = data_or_empty r.contents in
    mem_text call.function.name ("create_file" ∷ "replace_in_file" ∷ [])
    && (r.ok && (is_str (get "path" d) && is_obj (get "diff_stats" d)))

unfoldable pub command_accepted : ToolResult → Bool
unfolding data_or_empty is_false is_zero text_among
command_accepted r =
    let d = data_or_empty r.contents in
    r.ok
    && (is_false (get "timed_out" d)
        && (is_zero (get "exit_code" d)
            && text_among ("test" ∷ "build" ∷ "static_check" ∷ []) (get "command_kind" d)))

-- whether verification_event_payload gives a payload
unfoldable pub has_command : ToolResult → Bool
unfolding data_or_empty is_arr
has_command r = is_arr (get "argv" (data_or_empty r.contents))

-- warning.partition(":")[0] or "TOOL_WARNING"
unfoldable pub warning_code : String → String
warning_code text = elim (split_at 58 text) [
  | [] ↦ "TOOL_WARNING"
  | head ∷ rest ↦ if head == "" then "TOOL_WARNING" else head
]

module _ {W : Type 0} (config : Config W) where
  abbrev pub Run : Type 0 → Type 0
  Run A = Loop W → Result Raised A × Loop W

  -- what comes after a step, unless that raised
  abbrev pub after :
      {A : Type 0} → Result Raised (Unit {0}) × Loop W → Run A → Result Raised A × Loop W
  after (ok u, l) k = k l
  after (err e, l) k = (err e, l)

  -- whether the warning about an error of the sink is interrupted itself
  unfoldable pub interrupts_warning : Event → Emitter → Bool
  interrupts_warning event e = elim (config.sink event) [
    | none ↦ false
    | some code ↦
        ltb event.sequence e.sequence
        && config.interrupts
            (record { sequence = e.sequence; step = event.step; payload = warning code })
  ]

  -- self._emit(...)
  unfoldable pub emit_event : Payload → Run (Unit {0})
  unfolding interrupts_warning
  emit_event payload l =
      let event : Event = record {
        sequence = l.emitter.sequence + 1;
        step = l.state.model_step;
        payload = payload;
      } in
      let emitted = emit config.sink l.state.model_step payload l.emitter in
      (
        raise_if (config.interrupts event || interrupts_warning event emitted) interrupt,
        record l {
          emitter =
              if config.interrupts event
              then emit_interrupted l.state.model_step payload l.emitter
              else emitted;
        },
      )

  unfoldable pub emit_if : Bool → Payload → Run (Unit {0})
  emit_if true payload l = emit_event payload l
  emit_if false payload l = (ok tt, l)

  unfoldable pub emit_error : Option ToolError → Run (Unit {0})
  emit_error none l = (ok tt, l)
  emit_error (some e) l = emit_event (warning e.code) l

  unfoldable pub emit_warnings : List String → Run (Unit {0})
  emit_warnings [] l = (ok tt, l)
  emit_warnings (w ∷ ws) l = after (emit_event (warning (warning_code w)) l) (emit_warnings ws)

  -- the events of one result, in their order
  unfoldable pub emit_result : ToolCall → ToolResult → Run (Unit {0})
  unfolding emit_if emit_error emit_warnings emit_event
  emit_result call r l0 = after (emit_event (tool_result call r) l0) (λ l1.
      after (emit_if (has_diff call r) (diff call r) l1) (λ l2.
        after
          (emit_if (call.function.name == "run_command" && has_command r)
            (verification call r (command_accepted r)) l2)
          (λ l3. after (emit_error r.error l3) (λ l4.
            after (emit_if r.meta.truncated (warning "TOOL_RESULT_TRUNCATED") l4)
              (emit_warnings r.meta.warnings)))))

  counted_error : Option ToolError → RunState → RunState
  counted_error none s = s
  counted_error (some e) s = record_error_code e.code s

  unfoldable pub count_error : ToolResult → RunState → RunState
  unfolding counted_error
  count_error r s =
      if r.ok
      then s
      else counted_error r.error (record s { tool_error_count = s.tool_error_count + 1 })

  -- a result that the history refuses raises, after the state has counted it
  unfoldable pub record_result : ToolCall → ToolResult → Run (Unit {0})
  record_result call r l =
      let l1 : Loop W = record l { state = count_error r l.state } in
      if config.interrupts_result call r l.emitter.sequence
      then (err interrupt, l1)
      else elim (add_tool config.codec.loads call.id (config.codec.dumps (obj (to_dict r)))
          l.history) [
            | err message ↦ (err exception, l1)
            | ok history ↦ emit_result call r (record l1 { history = history })
          ]

  unfoldable pub emit_approvals : List String → Run (Unit {0})
  emit_approvals [] l = (ok tt, l)
  emit_approvals (id ∷ ids) l =
      after (emit_event (approval_request id) l)
        (λ l1. after (emit_event (approval_decision id) l1) (emit_approvals ids))

  unfoldable pub record_approvals : Run (Unit {0})
  unfolding emit_approvals emit_event
  record_approvals l =
      let (ids, w) = config.drain_approvals l.world in emit_approvals ids (record l { world = w })
