-- ===== src/Agent/Attempts.antt =====
-- agent.py, _request_model: the attempts of a request and how it ends.
use proofcoder.Base.{
  ℕ, zero, suc, ◌+◌, ◌≤◌, ◌<◌, ◌≡◌, refl, ◌∙◌, String, ◌⁀◌, ◌||◌, not, Option, none, some, List,
  eqb, leb, arith, inl, inr, Bool-cases, ◌⊎◌, subst,
}
use proofcoder.Base.Result.{Result, ok, err}
use proofcoder.Errors.{LlmRequestError, retryable, category_text}
use proofcoder.Events.{warning}
use proofcoder.Json.{Fields}
use proofcoder.Protocol.{AssistantMessage, TerminationReason, api_error, max_time}
use proofcoder.Registry.{Raised}
use proofcoder.RunState.{record_error_code, warn}
use proofcoder.Agent.Record.{Config, Loop, after, emit_event}
use proofcoder.Agent.Request.{
  Completion, response, request_failed, program_failed, other_raised, Requests, stop,
  counted_attempt, counted_retry, observe_time, remaining_seconds, slept, wait, failed, completed,
  attempt, request_model,
}

-- A request without a response has a reason to end the run.
abbrev pub HasReason : {W : Type 0} → Result Raised (Option AssistantMessage) → Loop W → Type 0
HasReason (ok none) l =
    (l.state.termination_reason ≡ some api_error) ⊎ (l.state.termination_reason ≡ some max_time)
HasReason (ok (some r)) l = Unit
HasReason (err e) l = Unit

-- A request that ends with a response or an exception has made an attempt.
abbrev pub HasAttempt :
    {W : Type 0} → Loop W → Result Raised (Option AssistantMessage) → Loop W → Type 0
HasAttempt l (ok none) l' = Unit
HasAttempt l (ok (some r)) l' = l.state.api_attempt_count < l'.state.api_attempt_count
HasAttempt l (err e) l' = l.state.api_attempt_count < l'.state.api_attempt_count

has_attempt :
    {W : Type 0} (l l' : Loop W) (r : Result Raised (Option AssistantMessage))
    → l.state.api_attempt_count < l'.state.api_attempt_count
    → HasAttempt l r l'
has_attempt l l' (ok none) h = tt
has_attempt l l' (ok (some r)) h = h
has_attempt l l' (err e) h = h

-- From one loop to another at most `n` attempts are made, and neither
-- the history nor the evidence changes.
pub record IsWithin {W : Type 0} (n : ℕ) (l l' : Loop W) : Type 0 where
  pub more : l.state.api_attempt_count ≤ l'.state.api_attempt_count
  pub few : l'.state.api_attempt_count ≤ l.state.api_attempt_count + n
  pub same_history : l'.history ≡ l.history
  pub same_evidence : l'.state.latest_verification ≡ l.state.latest_verification
  pub same_files : l'.state.changed_files ≡ l.state.changed_files
  pub same_observations : l'.state.command_observations ≡ l.state.command_observations

IsWithin-trans :
    {W : Type 0} (n m : ℕ) {a b c : Loop W} → IsWithin n a b → IsWithin m b c → IsWithin (n + m) a c
IsWithin-trans n m ab bc = record {
  more = omega (arith, ab.more, bc.more);
  few = omega (arith, ab.few, bc.few);
  same_history = bc.same_history ∙ ab.same_history;
  same_evidence = bc.same_evidence ∙ ab.same_evidence;
  same_files = bc.same_files ∙ ab.same_files;
  same_observations = bc.same_observations ∙ ab.same_observations;
}

-- A loop that differs in nothing that is claimed.
quiet :
    {W : Type 0} (n : ℕ) {a b : Loop W}
    → b.state.api_attempt_count ≡ a.state.api_attempt_count
    → b.history ≡ a.history
    → b.state.latest_verification ≡ a.state.latest_verification
    → b.state.changed_files ≡ a.state.changed_files
    → b.state.command_observations ≡ a.state.command_observations
    → IsWithin n a b
quiet n e h v f o = record {
  more = omega (arith, e);
  few = omega (arith, e);
  same_history = h;
  same_evidence = v;
  same_files = f;
  same_observations = o;
}

abbrev Outcome :
    {W : Type 0} → ℕ → Loop W → Result Raised (Option AssistantMessage) × Loop W → Type 0
Outcome n l (result, l') = IsWithin n l l' × HasReason result l'

module _ {W : Type 0} (config : Config W) (requests : Requests W) where
  observe_time_lem : (n : ℕ) (l : Loop W) → IsWithin n l (observe_time config requests l)
  unfolding observe_time
  observe_time_lem n l = quiet n refl refl refl refl refl

  Outcome-after :
      (n m k : ℕ) {a b : Loop W} (r : Result Raised (Option AssistantMessage) × Loop W)
      → n + m ≡ k
      → IsWithin n a b
      → Outcome m b r
      → Outcome k a r
  Outcome-after n m k {a} r e w (v, reason) =
      (subst (λ i. IsWithin i a r.1) e (IsWithin-trans n m w v), reason)

  stop_lem :
      (n : ℕ) (reason : TerminationReason) {a b : Loop W}
      → (reason ≡ api_error) ⊎ (reason ≡ max_time)
      → IsWithin n a b
      → Outcome n a (stop reason b)
  stop_lem n reason (inl e) w = (
    record {
      more = w.more;
      few = w.few;
      same_history = w.same_history;
      same_evidence = w.same_evidence;
      same_files = w.same_files;
      same_observations = w.same_observations;
    },
    inl (rw e refl),
  )
  stop_lem n reason (inr e) w = (
    record {
      more = w.more;
      few = w.few;
      same_history = w.same_history;
      same_evidence = w.same_evidence;
      same_files = w.same_files;
      same_observations = w.same_observations;
    },
    inr (rw e refl),
  )

  slept_lem :
      (n : ℕ) (again : Loop W → Result Raised (Option AssistantMessage) × Loop W)
      → ((k : Loop W) → Outcome n k (again k))
      → (sleep : Option Raised × W) (a l : Loop W) → IsWithin 0 a l
      → Outcome n a (slept config requests again sleep l)
  unfolding slept
  slept_lem n again h (none, w) a l v =
      Outcome-after 0 n n (again (record l { world = w })) (omega arith)
        (IsWithin-trans 0 0 v (quiet 0 refl refl refl refl refl)) (h (record l { world = w }))
  slept_lem n again h (some e, w) a l v =
      Outcome-after 0 n n (err e, record l { world = w }) (omega arith) v
        (quiet n refl refl refl refl refl, tt)

  after-Outcome :
      (n : ℕ) (a : Loop W) (p : Result Raised (Unit {0}) × Loop W)
      (k : Loop W → Result Raised (Option AssistantMessage) × Loop W)
      → IsWithin 0 a p.1
      → ((l : Loop W) → IsWithin 0 a l → Outcome n a (k l))
      → Outcome n a (after config p k)
  after-Outcome n a (ok u, l) k w next = next l w
  after-Outcome n a (err e, l) k w next =
      Outcome-after 0 n n (err e, l) (omega arith) w (quiet n refl refl refl refl refl, tt)

  wait_lem :
      (n : ℕ) (again : Loop W → Result Raised (Option AssistantMessage) × Loop W)
      → ((k : Loop W) → Outcome n k (again k))
      → (delay : Result String ℕ) (l : Loop W) → Outcome n l (wait config requests again delay l)
  unfolding wait remaining_seconds counted_retry emit_event warn observe_time
  wait_lem n again h (err message) l = (quiet n refl refl refl refl refl, tt)
  wait_lem n again h (ok delay) l =
      elim (Bool-cases (leb (remaining_seconds config requests l).0 delay)) [
        | inl late ↦ rw late (stop_lem n max_time (inr refl) (observe_time_lem n l))
        | inr early ↦ rw early (
            let slowed : Loop W = (remaining_seconds config requests l).1 in
            let warned : Loop W = record slowed {
              state = warn "API_RETRY" (counted_retry slowed.state);
            } in
            after-Outcome n l (emit_event config (warning "API_RETRY") warned)
              (λ k. slept config requests again (requests.sleep delay k.world) k)
              (quiet 0 refl refl refl refl refl)
              (λ k w. slept_lem n again h (requests.sleep delay k.world) l k w))
      ]

  failed_lem :
      (n : ℕ) (again : Loop W → Result Raised (Option AssistantMessage) × Loop W)
      → ((k : Loop W) → Outcome n k (again k))
      → (attempts : ℕ) (error : LlmRequestError) (l : Loop W)
      → Outcome n l (failed config requests again attempts error l)
  unfolding failed record_error_code
  failed_lem n again h attempts error l =
      let l1 : Loop W = record l {
        state = record_error_code ("LLM_" ⁀ category_text error.category) l.state;
      } in
      elim (Bool-cases (not (retryable error) || leb requests.max_api_attempts attempts)) [
        | inl last ↦
            rw last
              (stop_lem n api_error {a = l} {b = l1} (inl refl) (quiet n refl refl refl refl refl))
        | inr further ↦ rw further (
            Outcome-after 0 n n _ (omega arith) (quiet 0 refl refl refl refl refl)
              (wait_lem n again h _ _))
      ]

  completed_lem :
      (n : ℕ) (again : Loop W → Result Raised (Option AssistantMessage) × Loop W)
      → ((k : Loop W) → Outcome n k (again k))
      → (attempts : ℕ) (answer : Completion) (l : Loop W)
      → Outcome n l (completed config requests again attempts answer l)
  unfolding completed record_error_code
  completed_lem n again h attempts (response r) l = (quiet n refl refl refl refl refl, tt)
  completed_lem n again h attempts (request_failed error) l = failed_lem n again h attempts error l
  completed_lem n again h attempts program_failed l =
      stop_lem n api_error {a = l}
        {b = record l { state = record_error_code "LLM_PERMANENT" l.state }} (inl refl)
        (quiet n refl refl refl refl refl)
  completed_lem n again h attempts (other_raised e) l = (quiet n refl refl refl refl refl, tt)

  attempt_lem :
      (messages schemas : List Fields) (left attempts : ℕ) (l : Loop W)
      → Outcome left l (attempt config requests messages schemas left attempts l)
  unfolding attempt remaining_seconds counted_attempt observe_time
  attempt_lem messages schemas zero attempts l =
      stop_lem zero api_error {a = l} {b = l} (inl refl) (quiet zero refl refl refl refl refl)
  attempt_lem messages schemas (suc left) attempts l =
      elim (Bool-cases (eqb (remaining_seconds config requests l).0 0)) [
        | inl none_left ↦
            rw none_left (stop_lem (suc left) max_time (inr refl) (observe_time_lem (suc left) l))
        | inr time_left ↦ rw time_left (
            Outcome-after 1 left (suc left) _ (omega arith)
              (record {
                more = omega arith;
                few = omega arith;
                same_history = refl;
                same_evidence = refl;
                same_files = refl;
                same_observations = refl;
              })
              (completed_lem left _ (λ k. attempt_lem messages schemas left (suc attempts) k)
                (suc attempts) _ _))
      ]

  attempt-HasAttempt :
      (messages schemas : List Fields) (left attempts : ℕ) (l : Loop W)
      → HasAttempt l
          (attempt config requests messages schemas left attempts l).0
          (attempt config requests messages schemas left attempts l).1
  unfolding attempt remaining_seconds counted_attempt observe_time
  attempt-HasAttempt messages schemas zero attempts l = tt
  attempt-HasAttempt messages schemas (suc left) attempts l =
      elim (Bool-cases (eqb (remaining_seconds config requests l).0 0)) [
        | inl none_left ↦ rw none_left tt
        | inr time_left ↦ rw time_left (
            has_attempt l _ _ (
              omega (
                arith,
                (completed_lem left _ (λ k. attempt_lem messages schemas left (suc attempts) k)
                    (suc attempts) _ _).0.more,
              )))
      ]

  -- A model request makes at most as many attempts as the run allows, whatever the client answers, and
  -- at least one before a response or an exception;
  -- it ends with a response, with an exception of the client, the sleep or the delay, or with API_ERROR
  -- or MAX_TIME as the run's reason to end; and it changes neither the history nor what the run
  -- knows about files and commands.
  pub request_model-IsWithin :
      (messages schemas : List Fields) (l : Loop W)
      → IsWithin requests.max_api_attempts l (request_model config requests messages schemas l).1
        × HasReason
            (request_model config requests messages schemas l).0
            (request_model config requests messages schemas l).1
        × HasAttempt l
            (request_model config requests messages schemas l).0
            (request_model config requests messages schemas l).1
  unfolding request_model
  request_model-IsWithin messages schemas l =
      let (within, reason) = attempt_lem messages schemas requests.max_api_attempts 0 l in
      (within, reason, attempt-HasAttempt messages schemas requests.max_api_attempts 0 l)
