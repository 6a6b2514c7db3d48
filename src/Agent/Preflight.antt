-- ===== src/Agent/Preflight.antt =====
-- _execute_batch: a batch that is refused before its calls are run.
use proofcoder.Base.{
  Bool-cases, arith, String, Bool, true, false, ◌||◌, Option, none, some, List, [], ◌∷◌, ◌≡◌, refl,
  ◌==◌, ◌&&◌, ◌⊎◌, inl, inr, any,
}
use proofcoder.Base.Result.{Result, ok, err, Result-cases}
use proofcoder.Events.{Payload, tool_result, diff, verification, warning}
use proofcoder.History.{MessageHistory, add_tool}
use proofcoder.Json.{obj}
use proofcoder.Protocol.{ToolCall}
use proofcoder.Registry.{Raised, PreparedToolCall}
use proofcoder.RunState.{RunState}
use proofcoder.ToolResult.{ToolError, ToolResult}
use proofcoder.Agent.Record.{
  Run, Config, Loop, after, has_diff, has_command, command_accepted, emit_event, emit_if,
  emit_error, emit_warnings, emit_result, record_result, to_dict,
}
use proofcoder.Agent.Outcome.{
  BatchOutcome, rejected_outcome, finish_not_sole, is_duplicate, is_refused,
}
use proofcoder.Agent.Batch.{prepare_all, execute_batch, record_all, rejected, checked}

-- What a refused batch leaves: the world as it was, and an outcome without a decision or a change.
pub IsUntouched : {W : Type 0} → W → Result Raised BatchOutcome × Loop W → Type 0
IsUntouched w (ok outcome, l) =
    (l.world ≡ w)
    × (outcome.finish ≡ none)
    × (outcome.modified_workspace ≡ false)
    × (outcome.interrupted ≡ false)
IsUntouched w (err e, l) = l.world ≡ w

-- the world is still the first one
record IsAt {W : Type 0} (w : W) (l : Loop W) : Type 0 where
  unchanged : l.world ≡ w

IsAt-refl : {W : Type 0} (l : Loop W) → IsAt l.world l
IsAt-refl l = record { unchanged = refl }

module _ {W : Type 0} (config : Config W) {w : W} where
  after-IsAt :
      {A : Type 0} (p : Result Raised (Unit {0}) × Loop W) (k : Loop W → Result Raised A × Loop W)
      → IsAt w p.1
      → ((l : Loop W) → IsAt w l → IsAt w (k l).1)
      → IsAt w (after config p k).1
  after-IsAt (ok u, l) k at next = next l at
  after-IsAt (err e, l) k at next = at

  emit_event-IsAt : (p : Payload) {l : Loop W} → IsAt w l → IsAt w (emit_event config p l).1
  unfolding emit_event
  emit_event-IsAt p at = record { unchanged = at.unchanged }

  emit_if-IsAt : (b : Bool) (p : Payload) {l : Loop W} → IsAt w l → IsAt w (emit_if config b p l).1
  unfolding emit_if
  emit_if-IsAt true p at = emit_event-IsAt p at
  emit_if-IsAt false p at = at

  emit_error-IsAt :
      (e : Option ToolError) {l : Loop W} → IsAt w l → IsAt w (emit_error config e l).1
  unfolding emit_error
  emit_error-IsAt none at = at
  emit_error-IsAt (some e) at = emit_event-IsAt _ at

  emit_warnings-IsAt :
      (ws : List String) {l : Loop W} → IsAt w l → IsAt w (emit_warnings config ws l).1
  unfolding emit_warnings
  emit_warnings-IsAt [] at = at
  emit_warnings-IsAt (text ∷ ws) at =
      after-IsAt _ _ (emit_event-IsAt _ at) (λ l' at'. emit_warnings-IsAt ws at')

  emit_result-IsAt :
      (call : ToolCall) (r : ToolResult) {l : Loop W}
      → IsAt w l
      → IsAt w (emit_result config call r l).1
  unfolding emit_result
  emit_result-IsAt call r {l} at =
      let command = call.function.name == "run_command" && has_command r in
      let evidence = verification call r (command_accepted r) in
      let cut = warning "TOOL_RESULT_TRUNCATED" in
      let from_cut : Run config (Unit {0}) = λ k.
        after config (emit_if config r.meta.truncated cut k)
          (emit_warnings config r.meta.warnings) in
      let from_error : Run config (Unit {0}) =
        λ k. after config (emit_error config r.error k) from_cut in
      let from_command : Run config (Unit {0}) =
        λ k. after config (emit_if config command evidence k) from_error in
      let from_diff : Run config (Unit {0}) =
        λ k. after config (emit_if config (has_diff call r) (diff call r) k) from_command in
      after-IsAt (emit_event config (tool_result call r) l) from_diff
        (emit_event-IsAt (tool_result call r) at)
        (λ l1 at1.
          after-IsAt (emit_if config (has_diff call r) (diff call r) l1) from_command
            (emit_if-IsAt (has_diff call r) (diff call r) at1)
            (λ l2 at2.
              after-IsAt (emit_if config command evidence l2) from_error
                (emit_if-IsAt command evidence at2)
                (λ l3 at3.
                  after-IsAt (emit_error config r.error l3) from_cut (emit_error-IsAt r.error at3)
                    (λ l4 at4.
                      after-IsAt (emit_if config r.meta.truncated cut l4)
                        (emit_warnings config r.meta.warnings)
                        (emit_if-IsAt r.meta.truncated cut at4)
                        (λ l5 at5. emit_warnings-IsAt r.meta.warnings at5)))))

  set-IsAt :
      {s : RunState} {h : MessageHistory} {l : Loop W}
      → IsAt w l
      → IsAt w (record l { history = h; state = s })
  set-IsAt at = record { unchanged = at.unchanged }

  record_result-IsAt :
      (call : ToolCall) (r : ToolResult) {l : Loop W}
      → IsAt w l
      → IsAt w (record_result config call r l).1
  unfolding record_result
  record_result-IsAt call r {l} at =
      elim (Bool-cases (config.interrupts_result call r l.emitter.sequence)) [
        | inl stop ↦ rw (stop, record_result) (set-IsAt at)
        | inr go ↦
            elim (Result-cases (
              add_tool config.codec.loads call.id (config.codec.dumps (obj (to_dict r)))
                l.history)) [
                  | inl (history, e) ↦
                      rw (go, e, record_result) (emit_result-IsAt call r (set-IsAt at))
                  | inr (message, e) ↦ rw (go, e, record_result) (set-IsAt at)
                ]
      ]

  record_all-IsAt :
      (pairs : List (ToolCall × ToolResult)) {l : Loop W}
      → IsAt w l
      → IsAt w (record_all config pairs l).1
  unfolding record_all
  record_all-IsAt [] at = at
  record_all-IsAt ((call, r) ∷ pairs) at =
      after-IsAt _ _ (record_result-IsAt call r at) (λ l' at'. record_all-IsAt pairs at')

  closed-IsUntouched :
      (p : Result Raised (Unit {0}) × Loop W) (results : List ToolResult)
      → IsAt w p.1
      → IsUntouched w (after config p (λ l. (ok (rejected_outcome results), l)))
  unfolding IsUntouched
  closed-IsUntouched (ok u, l) results at = (at.unchanged, refl, refl, refl)
  closed-IsUntouched (err e, l) results at = at.unchanged

  rejected-IsUntouched :
      (pairs : List (ToolCall × ToolResult)) {l : Loop W}
      → IsAt w l
      → IsUntouched w (rejected config pairs l)
  unfolding rejected
  rejected-IsUntouched pairs at = closed-IsUntouched _ _ (record_all-IsAt pairs at)

module _ {W : Type 0} (config : Config W) where
  -- A batch in which finish_task stands beside another call, or whose calls are all prepared and of
  -- which one is refused or repeats another's id, runs no call: the world (files, approvals, the
  -- cancel flag) is as it was, nothing is reported as modified, and there is no finish decision.
  pub execute_batch-IsUntouched :
      (calls : List ToolCall) (l : Loop W)
      → (finish_not_sole calls ≡ true)
        ⊎ ((items : List (PreparedToolCall W ⊎ ToolResult)) × (prepare_all config calls l.world
              ≡ ok items)
            × (any (is_duplicate calls) calls || any is_refused items ≡ true))
      → IsUntouched l.world (execute_batch config calls l)
  unfolding execute_batch checked
  execute_batch-IsUntouched calls l refused = elim (Bool-cases (finish_not_sole calls)) [
    | inl mixed ↦ rw (mixed, execute_batch) (rejected-IsUntouched config _ (IsAt-refl l))
    | inr sole ↦
        rw (sole, execute_batch)
          (elim refused [
            | inl mixed ↦ ground arith
            | inr (items, prepared, invalid) ↦
                rw (prepared, invalid, checked) (rejected-IsUntouched config _ (IsAt-refl l))
          ])
  ]
