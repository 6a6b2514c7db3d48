-- ===== src/Context.antt =====
-- context.py: bounded API views of the message history. The JSON texts and their sizes are those of
-- the codec, and the target ratio is an exact fraction.
pub mod Groups
pub mod Tokens
pub mod Serialize
pub mod Bounded
use proofcoder.Base.{
  ℕ, zero, suc, ◌+◌, ◌-◌, ◌*◌, ◌/◌, min, max, String, Bool, true, false, ◌||◌, not, Option, none,
  some, List, [], ◌∷◌, ◌++◌, if◌then◌else◌, length, drop, ltb, leb,
}
use proofcoder.Base.Host.{Codec}
use proofcoder.Base.Result.{Result, ok, err, ◌>>=◌, ◌>>◌, raise_if}
use proofcoder.History.{MessageHistory, require_no_pending_results}
use proofcoder.Json.{Json}
use proofcoder.Protocol.{Message}
use proofcoder.RunState.{RunState}
use Groups.{interaction_groups}
use Tokens.{TokenBudget, byte_limit, observe}
use Serialize.{assemble, deterministic_request_bytes}

pub record ContextView : Type 0 where
  pub messages : List Json
  pub byte_count : ℕ
  pub compressed_group_count : ℕ

pub record ContextManager : Type 0 where
  pub budget_bytes : ℕ
  -- target_ratio is target_num / target_den
  pub target_num : ℕ
  pub target_den : ℕ
  pub min_recent_groups : ℕ
  pub token_budget : Option TokenBudget

unfoldable pub new_context_manager :
    ℕ → ℕ → ℕ → ℕ → Option TokenBudget → Result String ContextManager
new_context_manager budget_bytes target_num target_den min_recent_groups token_budget = do
  raise_if (ltb budget_bytes 1) "context budget must be positive"
  raise_if (leb target_num 0 || ltb target_den target_num) "context target ratio must be in (0, 1]"
  ok (record {
    budget_bytes = budget_bytes;
    target_num = target_num;
    target_den = target_den;
    min_recent_groups = min_recent_groups;
    token_budget = token_budget;
  })

unfoldable pub effective_budget_bytes : ContextManager → ℕ
effective_budget_bytes c = elim c.token_budget [
  | none ↦ c.budget_bytes
  | some b ↦ min c.budget_bytes (byte_limit b)
]

unfoldable pub observe_usage : ℕ → Option ℕ → ContextManager → ContextManager
observe_usage request_bytes prompt_tokens c = elim c.token_budget [
  | none ↦ c
  | some b ↦ record c { token_budget = some (observe request_bytes prompt_tokens b) }
]

unfoldable pub target_bytes : ContextManager → ℕ
target_bytes c = max 1 (effective_budget_bytes c * c.target_num / c.target_den)

pub data ContextError : Type 0 where
  history_error : String → ContextError
  budget_error : String → ContextError

module _ (codec : Codec) (tools : List Json) (state : RunState) where
  unfoldable pub view_of : Message → Message → List (List Message) → ℕ → ContextView
  view_of first task groups removed =
      let messages = assemble codec state first task groups removed in
      record {
        messages = messages;
        byte_count = deterministic_request_bytes codec messages tools;
        compressed_group_count = removed;
      }

  -- the `while` loop and the check behind it, with the groups that are left
  module _ (c : ContextManager) (first task : Message) where
    unfoldable pub trim : ℕ → List (List Message) → Result ContextError ContextView
    unfolding view_of
    trim removed [] =
        let view = view_of first task [] removed in
        if ltb (effective_budget_bytes c) view.byte_count
        then err (
            budget_error
              "Required messages and newest atomic interaction group exceed context budget.")
        else ok view
    trim removed (group ∷ rest) =
        let next = view_of first task rest (suc removed) in
        let further = trim (suc removed) rest in
        let view = view_of first task (group ∷ rest) removed in
        if ltb c.min_recent_groups (length (group ∷ rest))
        then (if leb next.byte_count (target_bytes c) then ok next else further)
        else if ltb (effective_budget_bytes c) view.byte_count
        then err (
            budget_error
              "Required messages and newest atomic interaction group exceed context budget.")
        else ok view

  unfoldable pub build_messages : ContextManager → List Message → Result ContextError ContextView
  unfolding view_of trim
  build_messages c (first ∷ task ∷ rest) =
      let groups = interaction_groups rest in
      let view = view_of first task groups 0 in
      let trimmed = trim c first task 0 groups in
      if leb view.byte_count (effective_budget_bytes c) then ok view else trimmed
  build_messages c _ = err (history_error "Context requires a system message and original task.")

  unfoldable pub build : ContextManager → MessageHistory → Result ContextError ContextView
  build c history = elim (require_no_pending_results history) [
    | err message ↦ err (history_error message)
    | ok done ↦ build_messages c history.messages
  ]
