-- ===== src/Verification/Fresh.antt =====
-- verification.py: the verification that counts is younger than every recorded modification.
use proofcoder.Base.{
  ℕ, ◌+◌, ◌≤◌, ◌<◌, String, ◌≡◌, refl, subst, inl, inr, Bool, true, false, Option, none, some,
  arith, ◌==◌, Bool-cases, Option-cases,
}
use proofcoder.Base.Dict.{Dict, AllValues, AllValues-insert, AllValues-map}
use proofcoder.Base.Int.{ℤ, pos}
use proofcoder.Base.Text.{mem_text}
use proofcoder.ToolResult.{ToolResult}
use proofcoder.RunState.{
  CommandObservation, RunState, next_event, record_changed_file, record_command,
}
use proofcoder.Verification.{
  modification_tools, command_fields, verification_command_kinds, CommandFields, accepted,
  exited_with_zero, observation, observed, record_command_result, modified_path,
  record_modification, record_execution,
}

-- A command that started, ended by itself with exit code 0, and is a test, a build or a check.
pub record IsAccepted (o : CommandObservation) : Type 0 where
  pub flagged : o.accepted_as_verification ≡ true
  pub in_time : o.timed_out ≡ false
  pub exited : o.exit_code ≡ some (pos 0)
  pub kind : mem_text o.command_kind verification_command_kinds ≡ true

-- Accepted, and younger than every modification of the dict.
pub record IsFresh (modified : Dict ℕ) (now : ℕ) (o : CommandObservation) : Type 0 where
  pub accepted : IsAccepted o
  pub past : o.event_sequence ≤ now
  pub newest : AllValues (λ e. e < o.event_sequence) modified

abbrev pub FreshIfAny : Dict ℕ → ℕ → Option CommandObservation → Type 0
FreshIfAny modified now none = Unit
FreshIfAny modified now (some o) = IsFresh modified now o

pub record IsConsistent (s : RunState) : Type 0 where
  pub past : AllValues (λ e. e ≤ s.event_sequence) s.last_modified_events
  pub fresh : FreshIfAny s.last_modified_events s.event_sequence s.latest_verification

exited_with_zero_inv : (c : Option ℤ) → exited_with_zero c ≡ true → c ≡ some (pos 0)
unfolding exited_with_zero
exited_with_zero_inv c h = ground arith

accepted-IsAccepted :
    (result : ToolResult) (f : CommandFields) (event : ℕ)
    → accepted result f ≡ true
    → IsAccepted (observation result f event)
unfolding accepted observation
accepted-IsAccepted result f event h = record {
  flagged = h;
  in_time = ground arith;
  exited = ground (arith, exited_with_zero_inv f.exit_code);
  kind = ground arith;
}

observed_inv :
    (result : ToolResult) (event : ℕ) {o : CommandObservation}
    → observed result event ≡ some o
    → (f : CommandFields) × (observation result f event ≡ o)
unfolding observed
observed_inv result event h = elim (Option-cases result.contents) [
  | inl empty ↦ cc (rw empty at h)
  | inr (d, there) ↦ elim (Option-cases (command_fields d)) [
    | inl bad ↦ cc (rw (there, bad) at h)
    | inr (f, good) ↦ (f, ground arith)
  ]
]

observed-IsAccepted :
    (result : ToolResult) (event : ℕ) {o : CommandObservation}
    → observed result event ≡ some o
    → o.accepted_as_verification ≡ true
    → IsAccepted o
observed-IsAccepted result event h a =
    let (f, e) = observed_inv result event h in
    subst IsAccepted e (accepted-IsAccepted result f event (unfold observation in rw (← e) at a))

observed-event :
    (result : ToolResult) (event : ℕ) {o : CommandObservation}
    → observed result event ≡ some o
    → o.event_sequence ≡ event
observed-event result event h =
    let (f, e) = observed_inv result event h in unfold observation in rw (← e) refl

FreshIfAny-later :
    (v : Option CommandObservation) (d : Dict ℕ) (now : ℕ)
    → FreshIfAny d now v
    → FreshIfAny d (now + 1) v
FreshIfAny-later none d now h = tt
FreshIfAny-later (some o) d now h = record {
  accepted = h.accepted;
  past = omega arith;
  newest = h.newest;
}

-- The next number only makes room.
module _ (s : RunState) (h : IsConsistent s) where
  past_later : AllValues (λ e. e ≤ s.event_sequence + 1) s.last_modified_events
  past_later = AllValues-map (λ e. e ≤ s.event_sequence) _ (λ e k. omega arith) _ h.past

  next_event-IsConsistent : IsConsistent (next_event s).0
  unfolding next_event
  next_event-IsConsistent = record {
    past = past_later;
    fresh = FreshIfAny-later s.latest_verification s.last_modified_events s.event_sequence h.fresh;
  }

  modified-IsConsistent :
      (path : String)
      → IsConsistent (record_changed_file path (s.event_sequence + 1) (next_event s).0)
  unfolding next_event record_changed_file
  modified-IsConsistent path = record {
    past =
        AllValues-insert _ path (s.event_sequence + 1) s.last_modified_events (omega arith)
          past_later;
    fresh = tt;
  }

  -- The observation of the event that was just allotted is younger than every modification.
  newest_now :
      (result : ToolResult) {o : CommandObservation}
      → observed result (s.event_sequence + 1) ≡ some o
      → o.accepted_as_verification ≡ true
      → IsFresh s.last_modified_events (s.event_sequence + 1) o
  newest_now result {o} e a =
      let number : o.event_sequence ≡ s.event_sequence + 1 = observed-event result _ e in
      record {
        accepted = observed-IsAccepted result (s.event_sequence + 1) e a;
        past = omega arith;
        newest =
            AllValues-map (λ e. e ≤ s.event_sequence) (λ e. e < o.event_sequence)
              (λ e k. omega arith) _ h.past;
      }

  commanded-IsConsistent :
      (result : ToolResult)
      → IsConsistent (record_command_result result (s.event_sequence + 1) (next_event s).0)
  unfolding record_command_result next_event record_command
  commanded-IsConsistent result = elim (Option-cases (observed result (s.event_sequence + 1))) [
    | inl nothing ↦ rw (nothing, record_command_result) next_event-IsConsistent
    | inr (o, seen) ↦
        rw (seen, record_command_result)
          (elim (Bool-cases o.accepted_as_verification) [
            | inl passed ↦ record {
              past = past_later;
              fresh = simp passed (newest_now result seen passed);
            }
            | inr failed ↦ record {
              past = past_later;
              fresh = simp failed (
                  FreshIfAny-later s.latest_verification s.last_modified_events s.event_sequence
                    h.fresh);
            }
          ])
  ]

module _ (has_drive : String → Bool) where
  modification-IsConsistent :
      (result : ToolResult) (s : RunState)
      → IsConsistent s
      → IsConsistent (record_modification has_drive result (s.event_sequence + 1) (next_event s).0)
  unfolding record_modification
  modification-IsConsistent result s h = elim (Option-cases (modified_path has_drive result)) [
    | inl nothing ↦ rw (nothing, record_modification) (next_event-IsConsistent s h)
    | inr (path, there) ↦ rw (there, record_modification) (modified-IsConsistent s h path)
  ]

  -- Whatever tool was executed with whatever result, a consistent state stays consistent.
  pub record_execution-IsConsistent :
      (name : String) (result : ToolResult) (s : RunState)
      → IsConsistent s
      → IsConsistent (record_execution has_drive name result s).0
  unfolding record_execution
  record_execution-IsConsistent name result s h =
      elim (Bool-cases (mem_text name modification_tools)) [
        | inl edit ↦ rw edit (modification-IsConsistent result s h)
        | inr other ↦ elim (Bool-cases (name == "run_command")) [
          | inl command ↦ rw (other, command) (commanded-IsConsistent s h result)
          | inr neither ↦ rw (other, neither) (next_event-IsConsistent s h)
        ]
      ]
