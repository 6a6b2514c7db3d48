-- ===== src/Approval.antt =====
-- approval.py: how a command that needs a person waits for one. The responder, the clock and the
-- factory of request ids are functions on a world `W`, and SHA-256 is a parameter. Times are ticks.
pub mod Consent
pub mod Served
use proofcoder.Base.{
  ℕ, ◌+◌, ◌-◌, String, Bool, true, false, not, ◌||◌, Option, none, some, List, [], ◌∷◌, ◌++◌,
  if◌then◌else◌, ltb,
}
use proofcoder.Base.Host.{Codec}
use proofcoder.Base.Int.{pos}
use proofcoder.Base.Result.{Result, ok, err, ◌>>=◌, ◌>>◌, raise_if}
use proofcoder.Json.{Json, str, int, bool, arr, obj, Fields, end, field, of_texts}
use proofcoder.Registry.{Raised, interrupt, exception}

pub data ApprovalMode : Type 0 where
  on_risk never : ApprovalMode

pub data ApprovalOutcome : Type 0 where
  approved denied timed_out interrupted : ApprovalOutcome

pub record ApprovalRequest : Type 0 where
  pub request_id : String
  pub display_argv : List String
  pub relative_cwd : String
  pub timeout_seconds : ℕ
  pub command_kind : String
  pub decision_source : String
  pub approval_timeout_seconds : ℕ

pub record ApprovalRecord : Type 0 where
  pub request : ApprovalRequest
  pub outcome : ApprovalOutcome
  pub decided_by : String
  pub waited_seconds : ℕ

-- outcome is ApprovalOutcome.APPROVED
unfoldable pub is_approved : ApprovalOutcome → Bool
is_approved approved = true
is_approved _ = false

unfoldable pub executed : ApprovalRecord → Bool
unfolding is_approved
executed r = is_approved r.outcome

-- What calling a responder ends in: an outcome, another value, or an exception.
pub data Answer : Type 0 where
  answers : ApprovalOutcome → Answer
  other_value : Answer
  raises : Raised → Answer

pub record ApprovalGate : Type 0 where
  pub mode : ApprovalMode
  pub timeout_seconds : ℕ
  pub waited_seconds : ℕ
  pub pending : List ApprovalRecord

unfoldable pub new_gate : ApprovalMode → ℕ → Result String ApprovalGate
new_gate mode timeout_seconds = do
  raise_if (ltb timeout_seconds 1 || ltb 3600 timeout_seconds)
      "approval timeout_seconds must be between 1 and 3600"
  ok (record { mode = mode; timeout_seconds = timeout_seconds; waited_seconds = 0; pending = [] })

unfoldable pub record_decision :
    ApprovalRequest → ApprovalOutcome → String → ℕ → ApprovalGate → ApprovalRecord × ApprovalGate
record_decision request outcome decided_by waited gate =
    let r : ApprovalRecord = record {
      request = request;
      outcome = outcome;
      decided_by = decided_by;
      waited_seconds = waited;
    } in
    (
      r,
      record gate {
        waited_seconds = gate.waited_seconds + waited;
        pending = gate.pending ++ r ∷ [];
      },
    )

unfoldable pub decided_by : ApprovalOutcome → String
decided_by timed_out = "timeout"
decided_by _ = "responder"

unfoldable pub drain : ApprovalGate → List ApprovalRecord × ApprovalGate
drain gate = (gate.pending, record gate { pending = [] })

-- the record of an answer, or the exception that passes through
unfoldable pub settle :
    ApprovalRequest → ℕ → Answer → ApprovalGate → Result Raised ApprovalRecord × ApprovalGate
unfolding record_decision decided_by
settle request waited (raises exception) gate = (err exception, gate)
settle request waited (raises interrupt) gate =
    let (r, gate') = record_decision request interrupted "interrupt" waited gate in
    (err interrupt, gate')
settle request waited other_value gate =
    let (r, gate') = record_decision request denied "unavailable" waited gate in (ok r, gate')
settle request waited (answers interrupted) gate =
    let (r, gate') = record_decision request denied "unavailable" waited gate in (ok r, gate')
settle request waited (answers outcome) gate =
    let (r, gate') = record_decision request outcome (decided_by outcome) waited gate in
    (ok r, gate')

-- Who is asked, if anyone is, and what the time is.
pub record ApprovalHost (W : Type 0) : Type 0 where
  pub responder : Option (ApprovalRequest → W → Answer × W)
  pub clock : W → ℕ × W
  pub request_id_factory : W → String × W

refuse : ApprovalRequest → String → ApprovalGate → Result Raised ApprovalRecord × ApprovalGate
refuse request who gate =
    let (r, gate') = record_decision request denied who 0 gate in (ok r, gate')

module _ {W : Type 0} where
  unfoldable pub new_request :
      ApprovalHost W
      → List String
      → String
      → ℕ
      → String
      → String
      → ApprovalGate
      → W
      → ApprovalRequest × W
  new_request host display_argv relative_cwd timeout_seconds command_kind decision_source gate w =
      let (id, w') = host.request_id_factory w in
      (
        record {
          request_id = id;
          display_argv = display_argv;
          relative_cwd = relative_cwd;
          timeout_seconds = timeout_seconds;
          command_kind = command_kind;
          decision_source = decision_source;
          approval_timeout_seconds = gate.timeout_seconds;
        },
        w',
      )

  -- the clock is read again, but not after an ordinary exception
  answered :
      (W → ℕ × W)
      → ApprovalRequest
      → ℕ
      → ApprovalGate
      → Answer
      → W
      → (Result Raised ApprovalRecord × ApprovalGate) × W
  answered clock request started gate (raises exception) w =
      (settle request 0 (raises exception) gate, w)
  answered clock request started gate answer w =
      let (now, w') = clock w in (settle request (now - started) answer gate, w')

  ask :
      (W → ℕ × W)
      → (ApprovalRequest → W → Answer × W)
      → ApprovalRequest
      → ApprovalGate
      → W
      → (Result Raised ApprovalRecord × ApprovalGate) × W
  unfolding answered
  ask clock respond request gate w =
      let (started, w1) = clock w in
      let (answer, w2) = respond request w1 in answered clock request started gate answer w2

  review_by :
      ApprovalMode
      → ApprovalHost W
      → ApprovalRequest
      → ApprovalGate
      → W
      → (Result Raised ApprovalRecord × ApprovalGate) × W
  review_by never host request gate w = (refuse request "mode" gate, w)
  review_by on_risk host request gate w = elim host.responder [
    | none ↦ (refuse request "unavailable" gate, w)
    | some respond ↦ ask host.clock respond request gate w
  ]

  unfoldable pub review :
      ApprovalHost W
      → ApprovalRequest
      → ApprovalGate
      → W
      → (Result Raised ApprovalRecord × ApprovalGate) × W
  unfolding review_by refuse record_decision ask
  review host request gate w = review_by gate.mode host request gate w

module _ (codec : Codec) (sha256 : String → String) where
  -- binds a decision to this command
  unfoldable pub digest : ApprovalRequest → String
  digest r = sha256 (
      codec.dumps_sorted (
        obj (
          field "command_kind" (str r.command_kind) (
            field "cwd" (str r.relative_cwd) (
              field "decision_source" (str r.decision_source) (
                field "display_argv" (arr (of_texts r.display_argv)) (
                  field "request_id" (str r.request_id)
                    (field "timeout_seconds" (int (pos r.timeout_seconds)) end))))))))

  -- approval_request_payload(request)
  unfoldable pub approval_request_payload : ApprovalRequest → Fields
  unfolding digest
  approval_request_payload r = field "phase" (str "request") (
      field "approval_timeout_seconds" (int (pos r.approval_timeout_seconds)) (
        field "command_kind" (str r.command_kind) (
          field "cwd" (str r.relative_cwd) (
            field "decision_source" (str r.decision_source) (
              field "digest" (str (digest r)) (
                field "display_argv" (arr (of_texts r.display_argv)) (
                  field "request_id" (str r.request_id)
                    (field "timeout_seconds" (int (pos r.timeout_seconds)) end))))))))
