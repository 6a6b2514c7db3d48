-- ===== src/Agent/Ran.antt =====
-- agent.py, _execute_batch: the loop over prepared calls, and the answers it records.
use mathlib.Core.List.{append-nil, append_assoc}
use proofcoder.Base.{
  ◌≡◌, refl, sym, ◌∙◌, ap, Bool, true, false, Option, none, List, [], ◌∷◌, ◌++◌, inl, inr, arith,
  Bool-cases, ◌==◌,
}
use proofcoder.Base.Result.{Result, ok, err, Result-cases}
use proofcoder.Finish.{FinishOutcome}
use proofcoder.Finish.Request.{parse_finish_task_request}
use proofcoder.Protocol.{ToolCall, Message}
use proofcoder.Registry.{Raised, interrupt, exception, PreparedToolCall, execute}
use proofcoder.ToolResult.{ToolResult}
use proofcoder.Agent.Record.{Config, Loop, Run, after, record_result, record_approvals}
use proofcoder.Agent.Recorded.{
  IsQuiet, Has, messages_of, record_result-Has, record_all-Has, record_approvals-Has,
}
use proofcoder.Agent.Outcome.{
  BatchOutcome, Done, finish_task_name, skips, all_answered, add_done, interrupted_result,
  results_of,
}
use proofcoder.Agent.Batch.{
  record_all, interrupt_rest, finish_step, executed, caught, run_items, rejected,
}

abbrev pub called : List (ToolCall × ToolResult) → List ToolCall
called [] = []
called ((call, r) ∷ pairs) = call ∷ called pairs

abbrev pub calls_of : {W : Type 0} → List (PreparedToolCall W) → List ToolCall
calls_of [] = []
calls_of (item ∷ items) = item.call ∷ calls_of items

called-append : (xs ys : List (ToolCall × ToolResult)) → called (xs ++ ys) ≡ called xs ++ called ys
called-append [] ys = refl
called-append ((call, r) ∷ xs) ys = ap (λ t. call ∷ t) (called-append xs ys)

results_of-append :
    (xs ys : List (ToolCall × ToolResult)) → results_of (xs ++ ys) ≡ results_of xs ++ results_of ys
results_of-append [] ys = refl
results_of-append ((call, r) ∷ xs) ys = ap (λ t. r ∷ t) (results_of-append xs ys)

called-skips :
    {W : Type 0} (items : List (PreparedToolCall W)) → called (skips items) ≡ calls_of items
called-skips [] = refl
called-skips (item ∷ items) = ap (λ t. item.call ∷ t) (called-skips items)

pub called-all_answered :
    (f : ToolCall → ToolResult) (calls : List ToolCall) → called (all_answered f calls) ≡ calls
called-all_answered f [] = refl
called-all_answered f (call ∷ calls) = ap (λ t. call ∷ t) (called-all_answered f calls)

-- The calls are paired with the results, in their order, and the history has gained the message of each
-- pair and no other, unless an ordinary exception was raised.
unfoldable pub IsAnswered :
    {W : Type 0}
    → Config W
    → List ToolCall
    → List Message
    → Result Raised BatchOutcome × Loop W
    → Type 0
IsAnswered config calls before (ok outcome, l) =
    (pairs : List (ToolCall × ToolResult)) × (called pairs ≡ calls)
    × (results_of pairs ≡ outcome.results)
    × (l.history.messages ≡ before ++ messages_of config pairs)
IsAnswered config calls before (err e, l) = e ≡ exception

module _ {W : Type 0} (config : Config W) (quiet : IsQuiet config) (before : List Message) where
  messages_of-append :
      (xs ys : List (ToolCall × ToolResult))
      → messages_of config (xs ++ ys) ≡ messages_of config xs ++ messages_of config ys
  messages_of-append [] ys = refl
  messages_of-append ((call, r) ∷ xs) ys = rw (messages_of-append xs ys) refl

  -- what was answered so far
  pub record IsDone (done : List ToolResult) (pairs : List (ToolCall × ToolResult)) (l : Loop W)
      : Type 0 where
    pub results : results_of pairs ≡ done
    pub messages : l.history.messages ≡ before ++ messages_of config pairs

  longer :
      (pairs more : List (ToolCall × ToolResult)) {ms : List Message}
      → ms ≡ (before ++ messages_of config pairs) ++ messages_of config more
      → ms ≡ before ++ messages_of config (pairs ++ more)
  longer pairs more h =
      h
      ∙ append_assoc before (messages_of config pairs) (messages_of config more)
      ∙ ap (λ m. before ++ m) (sym (messages_of-append pairs more))

  after-IsAnswered :
      (calls : List ToolCall) (ms : List Message) (p : Result Raised (Unit {0}) × Loop W)
      (k : Run config BatchOutcome)
      → Has ms p
      → ((l : Loop W) → l.history.messages ≡ ms → IsAnswered config calls before (k l))
      → IsAnswered config calls before (after config p k)
  unfolding Has IsAnswered
  after-IsAnswered calls ms (ok u, l) k h next = next l h
  after-IsAnswered calls ms (err e, l) k h next = h

  caught-IsAnswered :
      (calls : List ToolCall) (ms : List Message) (done : Done) (item : PreparedToolCall W)
      (rest : List (PreparedToolCall W)) (p : Result Raised (Unit {0}) × Loop W)
      (k : Run config BatchOutcome)
      → Has ms p
      → ((l : Loop W) → l.history.messages ≡ ms → IsAnswered config calls before (k l))
      → IsAnswered config calls before (caught config done item rest p k)
  unfolding Has IsAnswered
  caught-IsAnswered calls ms done item rest (ok u, l) k h next = next l h
  caught-IsAnswered calls ms done item rest (err interrupt, l) k h next = absurd (ground arith)
  caught-IsAnswered calls ms done item rest (err exception, l) k h next = refl

  pub interrupt_rest-IsAnswered :
      (calls : List ToolCall) (done : Done) (pairs rest : List (ToolCall × ToolResult)) (l : Loop W)
      → IsDone done.results pairs l
      → called pairs ++ called rest ≡ calls
      → IsAnswered config calls before (interrupt_rest config done rest l)
  unfolding interrupt_rest IsAnswered
  interrupt_rest-IsAnswered calls done pairs rest l d same =
      after-IsAnswered calls ((before ++ messages_of config pairs) ++ messages_of config rest)
        (record_all config rest l) _ (record_all-Has config quiet rest l d.messages)
        (λ l' h. (
          pairs ++ rest,
          called-append pairs rest ∙ same,
          results_of-append pairs rest ∙ ap (λ r. r ++ results_of rest) d.results,
          longer pairs rest h,
        ))

  pub rejected-IsAnswered :
      (calls : List ToolCall) (answers : List (ToolCall × ToolResult)) (l : Loop W)
      → l.history.messages ≡ before
      → called answers ≡ calls
      → IsAnswered config calls before (rejected config answers l)
  unfolding rejected IsAnswered
  rejected-IsAnswered calls answers l h same =
      after-IsAnswered calls (before ++ messages_of config answers) (record_all config answers l) _
        (record_all-Has config quiet answers l h) (λ l' h'. (answers, same, refl, h'))

  unfoldable pub IsNext : List ToolCall → List (PreparedToolCall W) → Type 0
  IsNext calls rest =
      (done : Done) (pairs : List (ToolCall × ToolResult)) (l : Loop W)
      → IsDone done.results pairs l
      → called pairs ++ calls_of rest ≡ calls
      → IsAnswered config calls before (run_items config done rest l)

  -- one more result, and one item fewer
  step-IsAnswered :
      (calls : List ToolCall) (done : Done) (pairs : List (ToolCall × ToolResult)) (r : ToolResult)
      (f : Option FinishOutcome) (m : Bool) (item : PreparedToolCall W)
      (rest : List (PreparedToolCall W)) (l : Loop W)
      → IsDone done.results pairs l
      → called pairs ++ (item.call ∷ calls_of rest) ≡ calls
      → IsNext calls rest
      → IsAnswered config calls before (
          caught config
            (add_done done r f m)
            item
            rest
            (record_result config item.call r l)
            (run_items config (add_done done r f m) rest))
  unfolding add_done IsNext
  step-IsAnswered calls done pairs r f m item rest l d same next =
      let one : List (ToolCall × ToolResult) = (item.call, r) ∷ [] in
      caught-IsAnswered calls ((before ++ messages_of config pairs) ++ messages_of config one)
        (add_done done r f m) item rest _ _
        (record_result-Has config quiet item.call r l d.messages)
        (λ l' h.
          next (add_done done r f m) (pairs ++ one) l'
            (record {
              results = results_of-append pairs one ∙ ap (λ x. x ++ r ∷ []) d.results;
              messages = longer pairs one h;
            })
            (ap (λ c. c ++ calls_of rest) (called-append pairs one)
              ∙ append_assoc (called pairs) (called one) (calls_of rest)
              ∙ same))

  finish_step_keeps :
      (item : PreparedToolCall W) (l : Loop W) → (finish_step config item l).1.history ≡ l.history
  unfolding finish_step
  finish_step_keeps item l =
      elim (Result-cases (
        parse_finish_task_request config.texts (config.files l.world) config.workspace
          item.arguments)) [
            | inl (request, e) ↦ rw (e, finish_step) refl
            | inr (result, e) ↦ rw (e, finish_step) refl
          ]

  pub run_items-IsAnswered :
      (calls : List ToolCall) (items : List (PreparedToolCall W)) → IsNext calls items
  unfolding run_items IsAnswered IsNext
  run_items-IsAnswered calls [] done pairs l d same =
      (pairs, sym (append-nil (called pairs)) ∙ same, d.results, d.messages)
  run_items-IsAnswered calls (item ∷ rest) done pairs l d same =
      let asked : Loop W = record l { world = (config.cancelled l.world).1 } in
      let at : IsDone done.results pairs asked = record {
        results = d.results;
        messages = d.messages;
      } in
      let finished = finish_step config item asked in
      let outcome = execute item (config.cancelled l.world).1 in
      let after_tool : Loop W = record l { world = outcome.1 } in
      let approvals : Has (before ++ messages_of config pairs)
          (record_approvals config after_tool) =
        record_approvals-Has config quiet after_tool d.messages in
      elim (Bool-cases (config.cancelled l.world).0) [
        | inl stop ↦
            rw (stop, run_items)
              (interrupt_rest-IsAnswered calls done pairs (skips (item ∷ rest)) asked at
                (rw (called-skips rest) same))
        | inr go ↦ elim (Bool-cases (item.definition.name == finish_task_name)) [
          | inl finishing ↦
              rw (go, finishing, run_items)
                (step-IsAnswered calls done pairs finished.0.0 finished.0.1 false item rest
                  finished.1
                  (record {
                    results = d.results;
                    messages = ap (λ h. h.messages) (finish_step_keeps item asked) ∙ d.messages;
                  })
                  same (run_items-IsAnswered calls rest))
          | inr tool ↦ elim (Result-cases outcome.0) [
            | inl (result, e) ↦
                rw (go, tool, e, run_items)
                  (caught-IsAnswered calls (before ++ messages_of config pairs) done item rest
                    (record_approvals config after_tool) _ approvals
                    (λ l3 h3.
                      step-IsAnswered calls done pairs result none _ item rest
                        (executed config item result l3)
                        (record { results = d.results; messages = h3 }) same
                        (run_items-IsAnswered calls rest)))
            | inr (exception, raised) ↦ rw (go, tool, raised, run_items) refl
            | inr (interrupt, raised) ↦
                rw (go, tool, raised, run_items)
                  (after-IsAnswered calls (before ++ messages_of config pairs)
                    (record_approvals config after_tool) _ approvals
                    (λ l3 h3.
                      interrupt_rest-IsAnswered calls done pairs
                        ((item.call, interrupted_result true) ∷ skips rest) l3
                        (record { results = d.results; messages = h3 })
                        (rw (called-skips rest) same)))
          ]
        ]
      ]
