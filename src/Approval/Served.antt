-- ===== src/Approval/Served.antt =====
-- ApprovalGate over a run: the waiting time and the records.
use mathlib.Core.List.{append-nil, append_assoc}
use proofcoder.Base.{ℕ, ◌+◌, ◌≡◌, refl, List, [], ◌∷◌, ◌++◌, arith, inl, inr, ◌⊎◌, Option-cases}
use proofcoder.Base.Result.{Result, ok, err}
use proofcoder.Registry.{Raised, interrupt, exception}
use proofcoder.Approval.{
  ApprovalMode, on_risk, never, approved, denied, timed_out, interrupted, ApprovalRequest,
  ApprovalRecord, Answer, answers, other_value, raises, ApprovalGate, new_gate, record_decision,
  settle, drain, ApprovalHost, refuse, answered, ask, review_by, review,
}

unfoldable pub total_waited : List ApprovalRecord → ℕ
total_waited [] = 0
total_waited (r ∷ rs) = r.waited_seconds + total_waited rs

pub total_waited-append :
    (rs ss : List ApprovalRecord) → total_waited (rs ++ ss) ≡ total_waited rs + total_waited ss
unfolding total_waited
total_waited-append [] ss = omega arith
total_waited-append (r ∷ rs) ss = omega (arith, total_waited-append rs ss)

-- What a review does to the gate: one more record, which waited, or nothing.
pub data Reviewed (request : ApprovalRequest) (gate : ApprovalGate)
    (result : Result Raised ApprovalRecord) (gate' : ApprovalGate) : Type 0 where
  recorded :
      (r : ApprovalRecord)
      → r.request ≡ request
      → gate'.pending ≡ gate.pending ++ r ∷ []
      → gate'.waited_seconds ≡ gate.waited_seconds + r.waited_seconds
      → (result ≡ ok r) ⊎ ((result ≡ err interrupt) × (r.outcome ≡ interrupted))
      → Reviewed request gate result gate'
  raised : gate' ≡ gate → result ≡ err exception → Reviewed request gate result gate'

settle-Reviewed :
    (request : ApprovalRequest) (waited : ℕ) (answer : Answer) (gate : ApprovalGate)
    → Reviewed request gate
        (settle request waited answer gate).0
        (settle request waited answer gate).1
unfolding settle record_decision
settle-Reviewed request waited (raises exception) gate = raised refl refl
settle-Reviewed request waited (raises interrupt) gate =
    recorded _ refl refl refl (inr (refl, refl))
settle-Reviewed request waited other_value gate = recorded _ refl refl refl (inl refl)
settle-Reviewed request waited (answers approved) gate = recorded _ refl refl refl (inl refl)
settle-Reviewed request waited (answers denied) gate = recorded _ refl refl refl (inl refl)
settle-Reviewed request waited (answers timed_out) gate = recorded _ refl refl refl (inl refl)
settle-Reviewed request waited (answers interrupted) gate = recorded _ refl refl refl (inl refl)

-- The gate has waited as long as the records that were drained and those that are pending.
pub IsAccounted : List ApprovalRecord → ApprovalGate → Type 0
IsAccounted log gate = gate.waited_seconds ≡ total_waited (log ++ gate.pending)

-- The records of reviews, in their order: a review that answers gave its record, one that was interrupted
-- gave a record of that, and one that an ordinary exception ended gave none.
pub data IsLogged
    : List (ApprovalRequest × Result Raised ApprovalRecord) → List ApprovalRecord → Type 0 where
  nothing_logged : IsLogged [] []
  answer_logged :
      {results : List (ApprovalRequest × Result Raised ApprovalRecord)}
      {records : List ApprovalRecord} (r : ApprovalRecord)
      → IsLogged results records
      → IsLogged (results ++ (r.request, ok r) ∷ []) (records ++ r ∷ [])
  interruption_logged :
      {results : List (ApprovalRequest × Result Raised ApprovalRecord)}
      {records : List ApprovalRecord} (r : ApprovalRecord)
      → r.outcome ≡ interrupted
      → IsLogged results records
      → IsLogged (results ++ (r.request, err interrupt) ∷ []) (records ++ r ∷ [])
  exception_logged :
      {results : List (ApprovalRequest × Result Raised ApprovalRecord)}
      {records : List ApprovalRecord} (request : ApprovalRequest)
      → IsLogged results records
      → IsLogged (results ++ (request, err exception) ∷ []) records

Reviewed-IsLogged :
    (request : ApprovalRequest) (results : List (ApprovalRequest × Result Raised ApprovalRecord))
    (log : List ApprovalRecord) (gate : ApprovalGate) {result : Result Raised ApprovalRecord}
    {gate' : ApprovalGate}
    → Reviewed request gate result gate'
    → IsLogged results (log ++ gate.pending)
    → IsLogged (results ++ (request, result) ∷ []) (log ++ gate'.pending)
Reviewed-IsLogged request results log gate (recorded r asked more waited (inl same)) a =
    rw (same, more, ← asked, ← append_assoc log gate.pending (r ∷ [])) (answer_logged r a)
Reviewed-IsLogged request results log gate (recorded r asked more waited (inr (same, stopped))) a =
    rw (same, more, ← asked, ← append_assoc log gate.pending (r ∷ []))
      (interruption_logged r stopped a)
Reviewed-IsLogged request results log gate (raised same how) a =
    rw (same, how) (exception_logged request a)

opened_lem :
    (mode : ApprovalMode) (timeout : ℕ) {gate : ApprovalGate}
    → new_gate mode timeout ≡ ok gate
    → IsLogged [] ([] ++ gate.pending)
unfolding new_gate
opened_lem mode timeout {gate} e =
    let nothing : gate.pending ≡ [] = ground arith in rw nothing nothing_logged

Reviewed-IsAccounted :
    (request : ApprovalRequest) (log : List ApprovalRecord) (gate : ApprovalGate)
    {result : Result Raised ApprovalRecord} {gate' : ApprovalGate}
    → Reviewed request gate result gate'
    → IsAccounted log gate
    → IsAccounted log gate'
unfolding IsAccounted total_waited
Reviewed-IsAccounted request log gate (recorded r asked more waited how) a = rw more (
    omega (
      arith,
      waited,
      a,
      total_waited-append log gate.pending,
      total_waited-append log (gate.pending ++ r ∷ []),
      total_waited-append gate.pending (r ∷ []),
    ))
Reviewed-IsAccounted request log gate (raised same how) a = rw same a

module _ {W : Type 0} (host : ApprovalHost W) where
  abbrev After :
      ApprovalRequest → ApprovalGate → (Result Raised ApprovalRecord × ApprovalGate) × W → Type 0
  After request gate outcome = Reviewed request gate outcome.0.0 outcome.0.1

  answered-Reviewed :
      (request : ApprovalRequest) (started : ℕ) (gate : ApprovalGate) (answer : Answer) (w : W)
      → After request gate (answered host.clock request started gate answer w)
  unfolding answered
  answered-Reviewed request started gate (raises exception) w =
      settle-Reviewed request _ (raises exception) gate
  answered-Reviewed request started gate (raises interrupt) w =
      settle-Reviewed request _ (raises interrupt) gate
  answered-Reviewed request started gate other_value w = settle-Reviewed request _ other_value gate
  answered-Reviewed request started gate (answers o) w = settle-Reviewed request _ (answers o) gate

  review_by-Reviewed :
      (mode : ApprovalMode) (request : ApprovalRequest) (gate : ApprovalGate) (w : W)
      → After request gate (review_by mode host request gate w)
  unfolding review_by refuse record_decision ask
  review_by-Reviewed never request gate w = recorded _ refl refl refl (inl refl)
  review_by-Reviewed on_risk request gate w = elim (Option-cases host.responder) [
    | inl nobody ↦ simp (nobody, review_by) (recorded _ refl refl refl (inl refl))
    | inr (respond, found) ↦ simp (found, review_by) (answered-Reviewed request _ gate _ _)
  ]

  review-Reviewed :
      (request : ApprovalRequest) (gate : ApprovalGate) (w : W)
      → After request gate (review host request gate w)
  unfolding review
  review-Reviewed request gate w = review_by-Reviewed gate.mode request gate w

  -- The reviews so far with their results, the records that were drained, and the gate.
  pub data Served
      : List (ApprovalRequest × Result Raised ApprovalRecord)
        → List ApprovalRecord
        → ApprovalGate
        → Type 0 where
    opened :
        (mode : ApprovalMode) (timeout : ℕ) {gate : ApprovalGate}
        → new_gate mode timeout ≡ ok gate
        → Served [] [] gate
    reviewed :
        {results : List (ApprovalRequest × Result Raised ApprovalRecord)}
        {log : List ApprovalRecord} {gate : ApprovalGate} (request : ApprovalRequest) (w : W)
        → Served results log gate
        → Served
            (results ++ (request, (review host request gate w).0.0) ∷ [])
            log
            (review host request gate w).0.1
    drained :
        {results : List (ApprovalRequest × Result Raised ApprovalRecord)}
        {log : List ApprovalRecord} {gate : ApprovalGate}
        → Served results log gate
        → Served results (log ++ (drain gate).0) (drain gate).1

  -- In any run of reviews and drains, the records that were drained and those that are pending are the
  -- records of the reviews, in their order: one for each review but those that an ordinary exception
  -- ended; and the time that the gate counts as waiting is the time that these records waited.
  pub Served-IsAccounted :
      {results : List (ApprovalRequest × Result Raised ApprovalRecord)} {log : List ApprovalRecord}
      {gate : ApprovalGate}
      → Served results log gate
      → IsAccounted log gate × IsLogged results (log ++ gate.pending)
  unfolding IsAccounted drain
  Served-IsAccounted (opened mode timeout e) =
      ((unfold total_waited new_gate in ground arith), opened_lem mode timeout e)
  Served-IsAccounted (reviewed {results} {log} {gate} request w s) =
      let (accounted, logged) = Served-IsAccounted s in
      (
        Reviewed-IsAccounted request log gate (review-Reviewed request gate w) accounted,
        Reviewed-IsLogged request results log gate (review-Reviewed request gate w) logged,
      )
  Served-IsAccounted (drained {results} {log} {gate} s) =
      rw (append-nil (log ++ gate.pending)) (Served-IsAccounted s)
