-- ===== src/Agent/Batch.antt =====
-- agent.py, _execute_batch: one response's tool calls are checked as a whole, then run in order.
use proofcoder.Base.{
  true, false, ◌&&◌, ◌||◌, Option, none, some, List, [], ◌∷◌, ◌++◌, if◌then◌else◌, ◌==◌, ◌⊎◌, any,
}
use proofcoder.Base.Result.{Result, ok, err}
use proofcoder.Finish.{FinishOutcome, build_finish_outcome}
use proofcoder.Finish.Request.{parse_finish_task_request}
use proofcoder.Protocol.{ToolCall}
use proofcoder.Registry.{Raised, interrupt, exception, PreparedToolCall, prepare, execute}
use proofcoder.RunState.{next_event}
use proofcoder.ToolResult.{ToolResult}
use proofcoder.Verification.{record_execution}
use proofcoder.Agent.Record.{Config, Loop, Run, after, record_result, record_approvals}
use proofcoder.Agent.Outcome.{
  finish_task_name, BatchOutcome, Done, nothing_done, rejected_outcome, interrupted_result,
  not_sole_result, finish_not_sole, is_duplicate, is_refused, refusals, prepared_of, skips,
  zip_results, all_answered, results_of, or_else, add_done,
}

module _ {W : Type 0} (config : Config W) where
  -- on_result for each pair
  unfoldable pub record_all : List (ToolCall × ToolResult) → Run config (Unit {0})
  record_all [] l = (ok tt, l)
  record_all ((call, result) ∷ rest) l =
      after config (record_result config call result l) (record_all rest)

  -- [self._registry.prepare(call) for call in calls]
  unfoldable pub prepare_all :
      List ToolCall → W → Result Raised (List (PreparedToolCall W ⊎ ToolResult))
  prepare_all [] w = ok []
  prepare_all (call ∷ calls) w =
      let rest = prepare_all calls w in
      elim (prepare config.codec.loads config.definitions call w) [
        | err e ↦ err e
        | ok item ↦ elim rest [ err e ↦ err e | ok items ↦ ok (item ∷ items) ]
      ]

  unfoldable pub interrupt_rest : Done → List (ToolCall × ToolResult) → Run config BatchOutcome
  interrupt_rest done rest l = after config (record_all rest l) (λ l'. (
    ok (record {
      results = done.results ++ results_of rest;
      finish = none;
      modified_workspace = done.modified_workspace;
      interrupted = true;
    }),
    l',
  ))

  -- a finish request, with the result and the decision
  unfoldable pub finish_step :
      PreparedToolCall W → Loop W → (ToolResult × Option FinishOutcome) × Loop W
  finish_step item l =
      let l1 : Loop W = record l { state = (next_event l.state).0 } in
      elim (parse_finish_task_request config.texts (config.files l.world) config.workspace
        item.arguments) [
          | err result ↦ ((result, none), l1)
          | ok request ↦
              let outcome = build_finish_outcome request l1.state in
              ((outcome.result, some outcome), l1)
        ]

  -- the tracker and the world after a tool returned
  unfoldable pub executed : PreparedToolCall W → ToolResult → Loop W → Loop W
  executed item result l = record l {
    state = (record_execution config.texts.has_drive item.definition.name result l.state).0;
  }

  -- KeyboardInterrupt in the work on one item: the item is answered as interrupted, the others as not
  -- started
  unfoldable pub on_interrupt :
      Done → PreparedToolCall W → List (PreparedToolCall W) → Run config BatchOutcome
  on_interrupt done item rest l =
      after config (record_approvals config l)
        (interrupt_rest done ((item.call, interrupted_result true) ∷ skips rest))

  -- what comes after a step on an item, with the step's exceptions
  abbrev pub caught :
      Done
      → PreparedToolCall W
      → List (PreparedToolCall W)
      → Result Raised (Unit {0}) × Loop W
      → Run config BatchOutcome
      → Result Raised BatchOutcome × Loop W
  caught done item rest (ok u, l) k = k l
  caught done item rest (err interrupt, l) k = on_interrupt done item rest l
  caught done item rest (err exception, l) k = (err exception, l)

  unfoldable pub run_items : Done → List (PreparedToolCall W) → Run config BatchOutcome
  unfolding interrupt_rest finish_step add_done or_else executed on_interrupt
  run_items done [] l = (
    ok (record {
      results = done.results;
      finish = done.finish;
      modified_workspace = done.modified_workspace;
      interrupted = false;
    }),
    l,
  )
  run_items done (item ∷ rest) l =
      let (stop, w) = config.cancelled l.world in
      let l1 : Loop W = record l { world = w } in
      let further = λ (d : Done) (k : Loop W). run_items d rest k in
      if stop
      then interrupt_rest done (skips (item ∷ rest)) l1
      else if item.definition.name == finish_task_name
      then (let ((result, finish), l2) = finish_step item l1 in
          let done' = add_done done result finish false in
          caught done' item rest (record_result config item.call result l2) (further done'))
      else (let (outcome, w2) = execute item w in
          let l2 : Loop W = record l1 { world = w2 } in
          elim outcome [
            | err exception ↦ (err exception, l2)
            | err interrupt ↦ on_interrupt done item rest l2
            | ok result ↦
                let modified = item.definition.modifies_workspace && result.ok in
                let done' = add_done done result none modified in
                caught done item rest (record_approvals config l2) (λ l3.
                  caught done' item rest
                    (record_result config item.call result (executed item result l3))
                    (further done'))
          ])

  -- every call is answered, and none was executed
  unfoldable pub rejected : List (ToolCall × ToolResult) → Run config BatchOutcome
  rejected answers l =
      after config (record_all answers l) (λ l'. (ok (rejected_outcome (results_of answers)), l'))

  unfoldable pub checked :
      List ToolCall → List (PreparedToolCall W ⊎ ToolResult) → Run config BatchOutcome
  checked calls items l =
      if any (is_duplicate calls) calls || any is_refused items
      then rejected (zip_results calls (refusals calls calls items)) l
      else run_items nothing_done (prepared_of items) l

  unfoldable pub execute_batch : List ToolCall → Run config BatchOutcome
  unfolding rejected checked prepared_of interrupt_rest
  execute_batch calls l =
      if finish_not_sole calls
      then rejected (all_answered not_sole_result calls) l
      else elim (prepare_all calls l.world) [
        | err exception ↦ (err exception, l)
        | err interrupt ↦
            interrupt_rest nothing_done (all_answered (λ call. interrupted_result false) calls) l
        | ok items ↦ checked calls items l
      ]
