-- ===== src/Agent/Answered.antt =====
-- agent.py, _execute_batch: the results of a batch and the messages that answer its calls.
use mathlib.Core.List.{append-nil}
use proofcoder.Base.{
  ◌≡◌, refl, sym, ap, subst, false, ◌||◌, List, [], ◌∷◌, ◌⊎◌, inl, inr, any, arith, Bool-cases,
}
use proofcoder.Base.Result.{ok, Result-cases}
use proofcoder.Protocol.{ToolCall}
use proofcoder.Registry.{interrupt, exception, PreparedToolCall, prepare}
use proofcoder.Registry.Prepared.{prepare-IsPrepared}
use proofcoder.ToolResult.{ToolResult}
use proofcoder.Agent.Record.{Config, Loop}
use proofcoder.Agent.Recorded.{IsQuiet}
use proofcoder.Agent.Outcome.{
  nothing_done, finish_not_sole, is_duplicate, is_refused, refusals, zip_results, all_answered,
  prepared_of, interrupted_result, not_sole_result,
}
use proofcoder.Agent.Batch.{prepare_all, checked, execute_batch}
use proofcoder.Agent.Ran.{
  called, calls_of, called-all_answered, IsAnswered, IsNext, run_items-IsAnswered,
  rejected-IsAnswered, interrupt_rest-IsAnswered,
}

-- Each item is a refusal or stands for its call.
unfoldable IsOf : {W : Type 0} → List ToolCall → List (PreparedToolCall W ⊎ ToolResult) → Type 0
IsOf [] [] = Unit
IsOf (call ∷ calls) (inl item ∷ items) = (item.call ≡ call) × IsOf calls items
IsOf (call ∷ calls) (inr result ∷ items) = IsOf calls items
IsOf _ _ = ⊥

module _ {W : Type 0} where
  calls_of-prepared_of :
      (calls : List ToolCall) (items : List (PreparedToolCall W ⊎ ToolResult))
      → IsOf calls items
      → any is_refused items ≡ false
      → calls_of (prepared_of items) ≡ calls
  unfolding prepared_of IsOf
  calls_of-prepared_of [] [] o clean = refl
  calls_of-prepared_of [] (item ∷ items) o clean = absurd o
  calls_of-prepared_of (call ∷ calls) [] o clean = absurd o
  calls_of-prepared_of (call ∷ calls) (inl item ∷ items) o clean =
      rw (o.0, calls_of-prepared_of calls items o.1 (ground arith)) refl
  calls_of-prepared_of (call ∷ calls) (inr result ∷ items) o clean = absurd (ground arith)

  called-zip :
      (all calls : List ToolCall) (items : List (PreparedToolCall W ⊎ ToolResult))
      → IsOf calls items
      → called (zip_results calls (refusals all calls items)) ≡ calls
  unfolding zip_results refusals IsOf
  called-zip all [] items o = refl
  called-zip all (call ∷ calls) [] o = absurd o
  called-zip all (call ∷ calls) (inl item ∷ items) o =
      ap (λ t. call ∷ t) (called-zip all calls items o.1)
  called-zip all (call ∷ calls) (inr result ∷ items) o =
      ap (λ t. call ∷ t) (called-zip all calls items o)

module _ {W : Type 0} (config : Config W) where
  prepare_all-IsOf :
      (calls : List ToolCall) (w : W) {items : List (PreparedToolCall W ⊎ ToolResult)}
      → prepare_all config calls w ≡ ok items
      → IsOf calls items
  unfolding prepare_all IsOf
  prepare_all-IsOf [] w {items} e =
      let nothing : [] ≡ items = ground arith in subst (IsOf []) nothing tt
  prepare_all-IsOf (call ∷ calls) w {items} e =
      elim (Result-cases (prepare config.codec.loads config.definitions call w)) [
        | inl (item, first) ↦ elim (Result-cases (prepare_all config calls w)) [
          | inl (rest, others) ↦
              let all : item ∷ rest ≡ items = ground arith in
              subst (IsOf (call ∷ calls)) all
                (kept rest item first (prepare_all-IsOf calls w others))
          | inr (x, failed) ↦ absurd (ground arith)
        ]
        | inr (x, failed) ↦ absurd (ground arith)
      ]
    where
      kept :
          (rest : List (PreparedToolCall W ⊎ ToolResult)) (item : PreparedToolCall W ⊎ ToolResult)
          → prepare config.codec.loads config.definitions call w ≡ ok item
          → IsOf calls rest
          → IsOf (call ∷ calls) (item ∷ rest)
      kept rest (inl item) first o =
          ((prepare-IsPrepared config.codec.loads config.definitions call w first).same, o)
      kept rest (inr result) first o = o

module _ {W : Type 0} (config : Config W) (quiet : IsQuiet config) where
  checked-IsAnswered :
      (calls : List ToolCall) (items : List (PreparedToolCall W ⊎ ToolResult)) (l : Loop W)
      → IsOf calls items
      → IsAnswered config calls l.history.messages (checked config calls items l)
  unfolding checked IsNext
  checked-IsAnswered calls items l o =
      elim (Bool-cases (any (is_duplicate calls) calls || any is_refused items)) [
        | inl bad ↦ rw bad (
            rejected-IsAnswered config quiet l.history.messages calls _ l refl
              (called-zip calls calls items o))
        | inr good ↦ rw good (
            run_items-IsAnswered config quiet l.history.messages calls (prepared_of items)
              nothing_done [] l
              (record { results = refl; messages = sym (append-nil l.history.messages) })
              (calls_of-prepared_of calls items o (ground arith)))
      ]

  -- Where no interruption comes while events are delivered and results recorded, a batch that ends with
  -- an outcome has paired its calls, in their order, with the outcome's results, and the history has
  -- gained one message for each pair, with the call's id and the result, in this order and no other:
  -- whether the batch was rejected, cancelled, interrupted in a preflight or a tool, or run to its end.
  -- It ends without an outcome only by an ordinary exception.
  pub execute_batch-IsAnswered :
      (calls : List ToolCall) (l : Loop W)
      → IsAnswered config calls l.history.messages (execute_batch config calls l)
  unfolding execute_batch IsAnswered
  execute_batch-IsAnswered calls l = elim (Bool-cases (finish_not_sole calls)) [
    | inl mixed ↦
        rw (mixed, execute_batch)
          (rejected-IsAnswered config quiet l.history.messages calls _ l refl
            (called-all_answered not_sole_result calls))
    | inr sole ↦ elim (Result-cases (prepare_all config calls l.world)) [
      | inl (items, e) ↦
          rw (sole, e, execute_batch)
            (checked-IsAnswered calls items l (prepare_all-IsOf config calls l.world e))
      | inr (exception, e) ↦ rw (sole, e, execute_batch) refl
      | inr (interrupt, e) ↦
          rw (sole, e, execute_batch)
            (interrupt_rest-IsAnswered config quiet l.history.messages calls nothing_done []
              (all_answered (λ call. interrupted_result false) calls) l
              (record { results = refl; messages = sym (append-nil l.history.messages) })
              (called-all_answered (λ call. interrupted_result false) calls))
    ]
  ]
