-- ===== src/Agent/Recorded.antt =====
-- agent.py, _record_result and _record_approvals, where nothing is interrupted.
use mathlib.Core.List.{append-nil, append_assoc}
use proofcoder.Base.{
  ℕ, String, ◌≡◌, refl, ◌∙◌, ap, Bool, true, false, ◌&&◌, Option, none, some, List, [], ◌∷◌, ◌++◌,
  arith, inl, inr, Option-cases, ◌==◌,
}
use proofcoder.Base.Result.{Result, ok, err, Result-cases}
use proofcoder.Events.{
  Event, Emitter, Payload, tool_result, diff, verification, warning, approval_request,
  approval_decision,
}
use proofcoder.History.{MessageHistory, add_tool}
use proofcoder.Json.{Json, obj}
use proofcoder.Protocol.{ToolCall, Message, tool}
use proofcoder.Registry.{Raised, exception}
use proofcoder.ToolResult.{ToolError, ToolResult}
use proofcoder.Agent.Record.{
  Config, Loop, Run, after, has_diff, has_command, command_accepted, interrupts_warning, emit_event,
  emit_if, emit_error, emit_warnings, emit_result, record_result, to_dict, emit_approvals,
  record_approvals,
}
use proofcoder.Agent.Batch.{record_all}

-- No KeyboardInterrupt comes while an event is delivered or a result recorded.
pub record IsQuiet {W : Type 0} (config : Config W) : Type 0 where
  pub event : (e : Event) → config.interrupts e ≡ false
  pub result :
      (call : ToolCall) (r : ToolResult) (n : ℕ) → config.interrupts_result call r n ≡ false

-- The history has these messages, unless an ordinary exception was raised.
unfoldable pub Has : {W : Type 0} → List Message → Result Raised (Unit {0}) × Loop W → Type 0
Has ms (ok u, l) = l.history.messages ≡ ms
Has ms (err e, l) = e ≡ exception

module _ {W : Type 0} (config : Config W) where
  -- the messages of recorded results
  abbrev pub messages_of : List (ToolCall × ToolResult) → List Message
  messages_of [] = []
  messages_of ((call, r) ∷ pairs) =
      tool call.id (config.codec.dumps (obj (to_dict r))) ∷ messages_of pairs

  pub after-Has :
      (before ms : List Message) (p : Result Raised (Unit {0}) × Loop W) (k : Run config (Unit {0}))
      → Has before p
      → ((l : Loop W) → l.history.messages ≡ before → Has ms (k l))
      → Has ms (after config p k)
  unfolding Has
  after-Has before ms (ok u, l) k h next = next l h
  after-Has before ms (err e, l) k h next = h

module _ {W : Type 0} (config : Config W) (quiet : IsQuiet config) where
  quiet_warning : (event : Event) (e : Emitter) → interrupts_warning config event e ≡ false
  unfolding interrupts_warning
  quiet_warning event e = elim (Option-cases (config.sink event)) [
    | inl fine ↦ rw (fine, interrupts_warning) refl
    | inr (code, failed) ↦ rw (failed, interrupts_warning) (rw quiet.event (ground arith))
  ]

  emit_event-Has :
      (p : Payload) (l : Loop W) {ms : List Message}
      → l.history.messages ≡ ms
      → Has ms (emit_event config p l)
  unfolding emit_event Has
  emit_event-Has p l h = rw (quiet.event, quiet_warning) h

  emit_if-Has :
      (b : Bool) (p : Payload) (l : Loop W) {ms : List Message}
      → l.history.messages ≡ ms
      → Has ms (emit_if config b p l)
  unfolding emit_if Has
  emit_if-Has true p l h = emit_event-Has p l h
  emit_if-Has false p l h = h

  emit_error-Has :
      (e : Option ToolError) (l : Loop W) {ms : List Message}
      → l.history.messages ≡ ms
      → Has ms (emit_error config e l)
  unfolding emit_error Has
  emit_error-Has none l h = h
  emit_error-Has (some e) l h = emit_event-Has _ l h

  emit_warnings-Has :
      (ws : List String) (l : Loop W) {ms : List Message}
      → l.history.messages ≡ ms
      → Has ms (emit_warnings config ws l)
  unfolding emit_warnings Has
  emit_warnings-Has [] l h = h
  emit_warnings-Has (w ∷ ws) l {ms} h =
      after-Has config ms ms (emit_event config _ l) (emit_warnings config ws)
        (emit_event-Has _ l h) (λ l1 h1. emit_warnings-Has ws l1 h1)

  emit_result-Has :
      (call : ToolCall) (r : ToolResult) (l : Loop W) {ms : List Message}
      → l.history.messages ≡ ms
      → Has ms (emit_result config call r l)
  unfolding emit_result
  emit_result-Has call r l {ms} h =
      let command = call.function.name == "run_command" && has_command r in
      let evidence = verification call r (command_accepted r) in
      let cut = warning "TOOL_RESULT_TRUNCATED" in
      let from_cut : Run config (Unit {0}) = λ k.
        after config (emit_if config r.meta.truncated cut k)
          (emit_warnings config r.meta.warnings) in
      let from_error : Run config (Unit {0}) =
        λ k. after config (emit_error config r.error k) from_cut in
      let from_command : Run config (Unit {0}) =
        λ k. after config (emit_if config command evidence k) from_error in
      let from_diff : Run config (Unit {0}) =
        λ k. after config (emit_if config (has_diff call r) (diff call r) k) from_command in
      after-Has config ms ms (emit_event config (tool_result call r) l) from_diff
        (emit_event-Has (tool_result call r) l h)
        (λ l1 h1.
          after-Has config ms ms (emit_if config (has_diff call r) (diff call r) l1) from_command
            (emit_if-Has (has_diff call r) (diff call r) l1 h1)
            (λ l2 h2.
              after-Has config ms ms (emit_if config command evidence l2) from_error
                (emit_if-Has command evidence l2 h2)
                (λ l3 h3.
                  after-Has config ms ms (emit_error config r.error l3) from_cut
                    (emit_error-Has r.error l3 h3)
                    (λ l4 h4.
                      after-Has config ms ms (emit_if config r.meta.truncated cut l4)
                        (emit_warnings config r.meta.warnings)
                        (emit_if-Has r.meta.truncated cut l4 h4)
                        (λ l5 h5. emit_warnings-Has r.meta.warnings l5 h5)))))

  added :
      (loads : String → Option Json) (id content : String) (h : MessageHistory)
      {h' : MessageHistory}
      → add_tool loads id content h ≡ ok h'
      → h'.messages ≡ h.messages ++ tool id content ∷ []
  unfolding add_tool
  added loads id content h e = ground arith

  pub record_result-Has :
      (call : ToolCall) (r : ToolResult) (l : Loop W) {ms : List Message}
      → l.history.messages ≡ ms
      → Has (ms ++ messages_of config ((call, r) ∷ [])) (record_result config call r l)
  unfolding record_result Has
  record_result-Has call r l h =
      elim (Result-cases
        (add_tool config.codec.loads call.id (config.codec.dumps (obj (to_dict r))) l.history)) [
          | inl (history, e) ↦
              rw (quiet.result call r l.emitter.sequence, e, record_result)
                (emit_result-Has call r _ (
                  added config.codec.loads call.id _ l.history e
                  ∙ ap (λ m. m ++ messages_of config ((call, r) ∷ [])) h))
          | inr (message, e) ↦ rw (quiet.result call r l.emitter.sequence, e, record_result) refl
        ]

  pub record_all-Has :
      (pairs : List (ToolCall × ToolResult)) (l : Loop W) {ms : List Message}
      → l.history.messages ≡ ms
      → Has (ms ++ messages_of config pairs) (record_all config pairs l)
  unfolding record_all Has
  record_all-Has [] l {ms} h = h ∙ rw (append-nil ms) refl
  record_all-Has ((call, r) ∷ pairs) l {ms} h =
      rw (← append_assoc ms (messages_of config ((call, r) ∷ [])) (messages_of config pairs)) (
        after-Has config (ms ++ messages_of config ((call, r) ∷ []))
          ((ms ++ messages_of config ((call, r) ∷ [])) ++ messages_of config pairs)
          (record_result config call r l) (record_all config pairs) (record_result-Has call r l h)
          (λ l1 h1. record_all-Has pairs l1 h1))

  emit_approvals-Has :
      (ids : List String) (l : Loop W) {ms : List Message}
      → l.history.messages ≡ ms
      → Has ms (emit_approvals config ids l)
  unfolding emit_approvals Has
  emit_approvals-Has [] l h = h
  emit_approvals-Has (id ∷ ids) l {ms} h =
      let decision : Run config (Unit {0}) = λ k.
        after config (emit_event config (approval_decision id) k) (emit_approvals config ids) in
      after-Has config ms ms (emit_event config (approval_request id) l) decision
        (emit_event-Has (approval_request id) l h)
        (λ l1 h1.
          after-Has config ms ms (emit_event config (approval_decision id) l1)
            (emit_approvals config ids) (emit_event-Has (approval_decision id) l1 h1)
            (λ l2 h2. emit_approvals-Has ids l2 h2))

  pub record_approvals-Has :
      (l : Loop W) {ms : List Message}
      → l.history.messages ≡ ms
      → Has ms (record_approvals config l)
  unfolding record_approvals
  record_approvals-Has l h = emit_approvals-Has _ _ h
