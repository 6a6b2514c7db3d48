-- ===== src/Agent/Request.antt =====
-- agent.py, _request_model: one model request, tried again after a transient failure, within the time
-- and the number of attempts that the run has.
use proofcoder.Base.{
  ℕ, zero, suc, ◌+◌, ◌-◌, String, ◌⁀◌, ◌||◌, not, Option, none, some, List, if◌then◌else◌, eqb, leb,
}
use proofcoder.Base.Result.{Result, ok, err}
use proofcoder.Errors.{LlmRequestError, retryable, category_text}
use proofcoder.Events.{warning}
use proofcoder.Json.{Fields}
use proofcoder.Protocol.{AssistantMessage, TerminationReason, api_error, max_time}
use proofcoder.Registry.{Raised, exception}
use proofcoder.Retry.{retry_delay_seconds}
use proofcoder.RunState.{RunState, record_error_code, warn}
use proofcoder.Agent.Record.{Config, Loop, after, emit_event}

-- What the client's complete does: it returns, or raises LLMRequestError, another ProofCoderError or
-- any other exception.
pub data Completion : Type 0 where
  response : AssistantMessage → Completion
  request_failed : LlmRequestError → Completion
  program_failed : Completion
  other_raised : Raised → Completion

-- The client, the clocks and the limits of a loop. Times are clock ticks.
pub record Requests (W : Type 0) : Type 0 where
  pub complete : List Fields → List Fields → W → Completion × W
  pub clock : W → ℕ × W
  -- self._approval.waited_seconds, 0 without a gate
  pub waited : W → ℕ
  pub random_value : W → ℕ × W
  -- what a sleep raised, if anything
  pub sleep : ℕ → W → Option Raised × W
  pub scale : ℕ
  pub max_seconds : ℕ
  pub max_api_attempts : ℕ

-- a reason to end the run, and no response
abbrev pub stop :
    {W : Type 0} → TerminationReason → Loop W → Result Raised (Option AssistantMessage) × Loop W
stop reason l = (ok none, record l { state = record l.state { termination_reason = some reason } })

unfoldable pub counted_attempt : RunState → RunState
counted_attempt s = record s { api_attempt_count = s.api_attempt_count + 1 }

unfoldable pub counted_retry : RunState → RunState
counted_retry s = record s { api_retry_count = s.api_retry_count + 1 }

module _ {W : Type 0} (config : Config W) (requests : Requests W) where
  unfoldable pub observe_time : Loop W → Loop W
  observe_time l =
      let (now, w) = requests.clock l.world in
      let waited = requests.waited l.world in
      record l {
        world = w;
        state = record l.state {
          approval_wait_seconds = waited;
          elapsed_seconds = (now - l.state.started_at) - waited;
        };
      }

  unfoldable pub remaining_seconds : Loop W → ℕ × Loop W
  remaining_seconds l =
      let l1 = observe_time l in (requests.max_seconds - l1.state.elapsed_seconds, l1)

  abbrev pub Attempt : Type 0
  Attempt = Loop W → Result Raised (Option AssistantMessage) × Loop W

  unfoldable pub slept :
      Attempt → Option Raised × W → Loop W → Result Raised (Option AssistantMessage) × Loop W
  slept again (none, w) l = again (record l { world = w })
  slept again (some e, w) l = (err e, record l { world = w })

  -- the wait before the next attempt, if the time is enough
  unfoldable pub wait : Attempt → Result String ℕ → Attempt
  wait again (err message) l = (err exception, l)
  wait again (ok delay) l =
      let (remaining, l1) = remaining_seconds l in
      if leb remaining delay
      then stop max_time l1
      else after config
          (emit_event config (warning "API_RETRY")
            (record l1 { state = warn "API_RETRY" (counted_retry l1.state) }))
          (λ l2. slept again (requests.sleep delay l2.world) l2)

  -- LLMRequestError after this many attempts
  unfoldable pub failed : Attempt → ℕ → LlmRequestError → Attempt
  failed again attempts error l0 =
      let l = record l0 {
        state = record_error_code ("LLM_" ⁀ category_text error.category) l0.state;
      } in
      if not (retryable error) || leb requests.max_api_attempts attempts
      then stop api_error l
      else (let (random, w) = requests.random_value l.world in
          wait again (retry_delay_seconds requests.scale error attempts random)
            (record l { world = w }))

  unfoldable pub completed : Attempt → ℕ → Completion → Attempt
  completed again attempts (response r) l = (ok (some r), l)
  completed again attempts (request_failed error) l = failed again attempts error l
  completed again attempts program_failed l =
      stop api_error (record l { state = record_error_code "LLM_PERMANENT" l.state })
  completed again attempts (other_raised e) l = (err e, l)

  -- the loop, with `left` attempts left and this many made
  unfoldable pub attempt : List Fields → List Fields → ℕ → ℕ → Attempt
  attempt messages schemas zero attempts l = stop api_error l
  attempt messages schemas (suc left) attempts l =
      let (remaining, l1) = remaining_seconds l in
      let l2 = record l1 { state = counted_attempt l1.state } in
      let (answer, w) = requests.complete messages schemas l2.world in
      let again = λ (k : Loop W). attempt messages schemas left (suc attempts) k in
      if eqb remaining 0
      then stop max_time l1
      else completed again (suc attempts) answer (record l2 { world = w })

  unfoldable pub request_model : List Fields → List Fields → Attempt
  unfolding attempt completed failed wait slept counted_attempt counted_retry
  request_model messages schemas l = attempt messages schemas requests.max_api_attempts 0 l
