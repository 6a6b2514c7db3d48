-- ===== src/Tests/Approval.antt =====
-- A gate whose responder approves one command; the world is the time.
use proofcoder.Base.{◌++◌, ℕ, ◌+◌, ◌≡◌, refl, some, [], ◌∷◌, ◌↔◌}
use proofcoder.Approval.{
  on_risk, approved, ApprovalRequest, answers, ApprovalGate, ApprovalHost, new_gate, new_request,
  review, drain, settle,
}
use proofcoder.Approval.Consent.{Permits, Consents, review-Consents}
use proofcoder.Approval.Served.{
  opened, reviewed, drained, IsAccounted, IsLogged, Served-IsAccounted,
}

abbrev host : ApprovalHost ℕ
host = record {
  responder = some (λ request now. (answers approved, now + 20));
  clock = λ now. (now, now);
  request_id_factory = λ now. ("r1", now);
}

abbrev gate : ApprovalGate
gate = record { mode = on_risk; timeout_seconds = 300; waited_seconds = 0; pending = [] }

abbrev request : ApprovalRequest
request = record {
  request_id = "r1";
  display_argv = "git" ∷ "commit" ∷ [];
  relative_cwd = ".";
  timeout_seconds = 60;
  command_kind = "git_write";
  decision_source = "builtin";
  approval_timeout_seconds = 300;
}

requested :
    (new_request host ("git" ∷ "commit" ∷ []) "." 60 "git_write" "builtin" gate 5).0 ≡ request
unfolding new_request
requested = refl

waited : (review host request gate 5).0.1.waited_seconds ≡ 20
unfolding review settle
waited = refl

review-Consents_example :
    Permits host request (review host request gate 5) ↔ Consents host request on_risk 5
review-Consents_example = review-Consents host request gate 5

Served-IsAccounted_example :
    IsAccounted
      (drain (review host request gate 5).0.1).0
      (drain (review host request gate 5).0.1).1
    × IsLogged ((request, (review host request gate 5).0.0) ∷ []) (
        (drain (review host request gate 5).0.1).0
        ++ (drain (review host request gate 5).0.1).1.pending)
unfolding new_gate
Served-IsAccounted_example =
    Served-IsAccounted host (drained (reviewed request 5 (opened on_risk 300 refl)))
