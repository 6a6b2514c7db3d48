-- ===== src/Agent/Outcome.antt =====
-- agent.py, _execute_batch: what a batch answers to its calls without running them, and its outcome.
use proofcoder.Base.{
  ℕ, suc, String, Bool, true, false, ◌&&◌, ◌||◌, not, Option, none, some, List, [], ◌∷◌, ◌++◌,
  if◌then◌else◌, ◌==◌, ◌⊎◌, inl, inr, any, eqb, ltb, length,
}
use proofcoder.Finish.{FinishOutcome}
use proofcoder.Json.{bool, end, field}
use proofcoder.Protocol.{ToolCall}
use proofcoder.Registry.{PreparedToolCall}
use proofcoder.ToolResult.{ToolResult, failure}

abbrev pub finish_task_name : String
finish_task_name = "finish_task"

pub record BatchOutcome : Type 0 where
  pub results : List ToolResult
  pub finish : Option FinishOutcome
  pub modified_workspace : Bool
  pub interrupted : Bool

-- The batch that is done so far: the results, a finish decision, whether something was modified.
pub record Done : Type 0 where
  pub results : List ToolResult
  pub finish : Option FinishOutcome
  pub modified_workspace : Bool

abbrev pub nothing_done : Done
nothing_done = record { results = []; finish = none; modified_workspace = false }

-- _BatchOutcome(results=results)
abbrev pub rejected_outcome : List ToolResult → BatchOutcome
rejected_outcome results = record {
  results = results;
  finish = none;
  modified_workspace = false;
  interrupted = false;
}

unfoldable pub interrupted_result : Bool → ToolResult
interrupted_result started =
    if started
    then failure "TOOL_INTERRUPTED" "tool execution was interrupted" false
        (some (field "execution_started" (bool true) end))
    else failure "BATCH_INTERRUPTED" "tool was not executed because the batch was interrupted" false
        (some (field "execution_started" (bool false) end))

-- finish_task with another call
unfoldable pub not_sole_result : ToolCall → ToolResult
not_sole_result call =
    if call.function.name == finish_task_name
    then failure "FINISH_TASK_MUST_BE_SOLE_CALL"
        "finish_task must be the only tool call in its assistant response; no calls were executed"
        true none
    else failure "BATCH_REJECTED" "finish_task appeared with another call; no calls were executed"
        true none

unfoldable pub finish_not_sole : List ToolCall → Bool
finish_not_sole calls =
    not (eqb (length calls) 1) && any (λ call. call.function.name == finish_task_name) calls

-- Counter(call.id for call in calls)[id]
unfoldable pub id_count : String → List ToolCall → ℕ
id_count id [] = 0
id_count id (call ∷ calls) = if call.id == id then suc (id_count id calls) else id_count id calls

unfoldable pub is_duplicate : List ToolCall → ToolCall → Bool
unfolding id_count
is_duplicate calls call = ltb 1 (id_count call.id calls)

abbrev pub is_refused : {W : Type 0} → PreparedToolCall W ⊎ ToolResult → Bool
is_refused (inl prepared) = false
is_refused (inr refusal) = true

-- what an invalid batch answers to one of its calls
unfoldable pub refusal :
    {W : Type 0} → List ToolCall → ToolCall → PreparedToolCall W ⊎ ToolResult → ToolResult
refusal calls call item =
    if is_duplicate calls call
    then failure "DUPLICATE_TOOL_CALL_ID"
        "tool call IDs must be unique within one assistant response" true none
    else elim item [
      | inr result ↦ result
      | inl prepared ↦
          failure "BATCH_REJECTED" "another call in this batch is invalid; no calls were executed"
            true none
    ]

module _ {W : Type 0} where
  -- zip(calls, items, strict=True) with the refusals
  unfoldable pub refusals :
      List ToolCall → List ToolCall → List (PreparedToolCall W ⊎ ToolResult) → List ToolResult
  refusals all [] items = []
  refusals all (call ∷ calls) [] = []
  refusals all (call ∷ calls) (item ∷ items) = refusal all call item ∷ refusals all calls items

  unfoldable pub prepared_of : List (PreparedToolCall W ⊎ ToolResult) → List (PreparedToolCall W)
  prepared_of [] = []
  prepared_of (inl prepared ∷ items) = prepared ∷ prepared_of items
  prepared_of (inr refusal ∷ items) = prepared_of items

  abbrev pub skips : List (PreparedToolCall W) → List (ToolCall × ToolResult)
  skips [] = []
  skips (item ∷ items) = (item.call, interrupted_result false) ∷ skips items

unfoldable pub zip_results : List ToolCall → List ToolResult → List (ToolCall × ToolResult)
zip_results [] results = []
zip_results (call ∷ calls) [] = []
zip_results (call ∷ calls) (result ∷ results) = (call, result) ∷ zip_results calls results

abbrev pub all_answered : (ToolCall → ToolResult) → List ToolCall → List (ToolCall × ToolResult)
all_answered f [] = []
all_answered f (call ∷ calls) = (call, f call) ∷ all_answered f calls

abbrev pub results_of : List (ToolCall × ToolResult) → List ToolResult
results_of [] = []
results_of ((call, result) ∷ rest) = result ∷ results_of rest

-- `or` of the decision so far: a later finish call replaces it
unfoldable pub or_else : Option FinishOutcome → Option FinishOutcome → Option FinishOutcome
or_else none old = old
or_else (some outcome) old = some outcome

unfoldable pub add_done : Done → ToolResult → Option FinishOutcome → Bool → Done
add_done done result finish modified = record {
  results = done.results ++ result ∷ [];
  finish = or_else finish done.finish;
  modified_workspace = done.modified_workspace || modified;
}
