-- ===== src/Approval/Consent.antt =====
-- approval.py: ApprovalGate.review, and what was answered.
use proofcoder.Base.{ℕ, ◌≡◌, refl, ◌↔◌, true, some, arith, inl, inr, Option-cases}
use proofcoder.Base.Result.{Result, ok}
use proofcoder.Registry.{Raised, interrupt, exception}
use proofcoder.Approval.{
  ApprovalMode, on_risk, never, approved, denied, timed_out, interrupted, ApprovalRequest,
  ApprovalRecord, executed, Answer, answers, other_value, raises, ApprovalGate, record_decision,
  settle, ApprovalHost, refuse, answered, ask, review_by, review,
}

module _ {W : Type 0} (host : ApprovalHost W) (request : ApprovalRequest) where
  -- The mode allows asking, there is a responder, and its answer to this request is an approval.
  pub Consents : ApprovalMode → W → Type 0
  Consents mode w =
      (mode ≡ on_risk)
      × ((respond : ApprovalRequest → W → Answer × W) × (host.responder ≡ some respond)
          × ((respond request (host.clock w).1).0 ≡ answers approved))

  -- The review ends with a record of this request that permits the command.
  pub Permits : (Result Raised ApprovalRecord × ApprovalGate) × W → Type 0
  Permits outcome =
      (r : ApprovalRecord) × (outcome.0.0 ≡ ok r) × (executed r ≡ true) × (r.request ≡ request)

  settle_approves :
      (waited : ℕ) (answer : Answer) (gate : ApprovalGate) (r : ApprovalRecord)
      → (settle request waited answer gate).0 ≡ ok r
      → executed r ≡ true
      → answer ≡ answers approved
  unfolding settle executed record_decision
  settle_approves waited (raises exception) gate r e x = absurd (ground arith)
  settle_approves waited (raises interrupt) gate r e x = absurd (ground arith)
  settle_approves waited other_value gate r e x = absurd (ground arith)
  settle_approves waited (answers approved) gate r e x = refl
  settle_approves waited (answers denied) gate r e x = absurd (ground arith)
  settle_approves waited (answers timed_out) gate r e x = absurd (ground arith)
  settle_approves waited (answers interrupted) gate r e x = absurd (ground arith)

  answered_approves :
      (started : ℕ) (gate : ApprovalGate) (answer : Answer) (w : W) (r : ApprovalRecord)
      → (answered host.clock request started gate answer w).0.0 ≡ ok r
      → executed r ≡ true
      → answer ≡ answers approved
  unfolding answered
  answered_approves started gate (raises exception) w r e x =
      settle_approves _ (raises exception) gate r e x
  answered_approves started gate (raises interrupt) w r e x =
      settle_approves _ (raises interrupt) gate r e x
  answered_approves started gate other_value w r e x = settle_approves _ other_value gate r e x
  answered_approves started gate (answers o) w r e x = settle_approves _ (answers o) gate r e x

  review_by-Consents :
      (mode : ApprovalMode) (gate : ApprovalGate) (w : W)
      → Permits (review_by mode host request gate w)
      → Consents mode w
  unfolding review_by ask refuse executed record_decision Consents Permits
  review_by-Consents never gate w (r, e, x, same) = absurd (ground arith)
  review_by-Consents on_risk gate w (r, e, x, same) = elim (Option-cases host.responder) [
    | inl nobody ↦ absurd (ground arith)
    | inr (respond, found) ↦
        let asked : (answered host.clock request (host.clock w).0 gate
              (respond request (host.clock w).1).0 (respond request (host.clock w).1).1).0.0
            ≡ ok r =
          ground arith in
        (refl, (respond, found, answered_approves _ gate _ _ r asked x))
  ]

  answered_approved :
      (started : ℕ) (gate : ApprovalGate) (w : W)
      → Permits (answered host.clock request started gate (answers approved) w)
  unfolding answered settle executed record_decision Permits
  answered_approved started gate w = (_, refl, refl, refl)

  Consents-review_by :
      (mode : ApprovalMode) (gate : ApprovalGate) (w : W)
      → Consents mode w
      → Permits (review_by mode host request gate w)
  unfolding review_by ask Consents Permits
  Consents-review_by never gate w (m, c) = cc
  Consents-review_by on_risk gate w (m, (respond, found, agreed)) =
      rw (found, agreed, review_by)
        (answered_approved (host.clock w).0 gate (respond request (host.clock w).1).1)

  -- A review ends with a record that permits the command, and it is a record of this request, exactly
  -- if the mode allows asking, there is a responder, and the responder approved this request. Silence,
  -- a timeout, an interruption, another value, an exception and an absent responder never permit it.
  pub review-Consents :
      (gate : ApprovalGate) (w : W) → Permits (review host request gate w) ↔ Consents gate.mode w
  unfolding review
  review-Consents gate w =
      (review_by-Consents gate.mode gate w, Consents-review_by gate.mode gate w)
