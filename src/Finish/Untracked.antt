-- ===== src/Finish/Untracked.antt =====
-- verification.py and tools/finish.py: the tools that write files and that the tracker does not know.
use proofcoder.Base.{
  ℕ, String, ◌≡◌, refl, Bool, true, false, List, [], ◌∷◌, arith, ◌==◌, eq_iff, subst, Bool-cases,
  inl, inr,
}
use proofcoder.Base.Text.{mem_text}
use proofcoder.Protocol.{completed_verified}
use proofcoder.RunState.{RunState, next_event}
use proofcoder.ToolResult.{ToolResult}
use proofcoder.Verification.{modification_tools, record_execution}
use proofcoder.Verification.Latest.{Execution, replay}
use proofcoder.Finish.{build_finish_outcome}
use proofcoder.Finish.Evidence.{after}
use proofcoder.Finish.Request.{FinishTaskRequest}

-- The names of tools/edit.py and tools/paths.py with modifies_workspace=True that are no
-- modification tools of verification.py.
abbrev pub untracked_tools : List String
untracked_tools = "patch_file" ∷ "delete_path" ∷ "move_path" ∷ "make_directory" ∷ []

abbrev IsUntracked : String → Type 0
IsUntracked name = (mem_text name modification_tools ≡ false) × ((name == "run_command") ≡ false)

mem_text-IsUntracked : (name : String) → mem_text name untracked_tools ≡ true → IsUntracked name
mem_text-IsUntracked name h = elim (Bool-cases ("patch_file" == name)) [
  | inl e ↦
      subst (λ n. IsUntracked n) ((eq_iff "patch_file" name).0 e) (unfold mem_text in (refl, refl))
  | inr a ↦ elim (Bool-cases ("delete_path" == name)) [
    | inl e ↦
        subst (λ n. IsUntracked n) ((eq_iff "delete_path" name).0 e)
          (unfold mem_text in (refl, refl))
    | inr b ↦ elim (Bool-cases ("move_path" == name)) [
      | inl e ↦
          subst (λ n. IsUntracked n) ((eq_iff "move_path" name).0 e)
            (unfold mem_text in (refl, refl))
      | inr c ↦ elim (Bool-cases ("make_directory" == name)) [
        | inl e ↦
            subst (λ n. IsUntracked n) ((eq_iff "make_directory" name).0 e)
              (unfold mem_text in (refl, refl))
        | inr d ↦ absurd (unfold mem_text in ground arith)
      ]
    ]
  ]
]

module _ (has_drive : String → Bool) (task run_id : String) (now : ℕ) where
  untracked_execution :
      (name : String) (result : ToolResult) (s : RunState)
      → mem_text name untracked_tools ≡ true
      → (record_execution has_drive name result s).0 ≡ (next_event s).0
  unfolding record_execution mem_text
  untracked_execution name result s h = ground (arith, mem_text-IsUntracked name h)

  -- A completion that was verified stays so after any further execution of patch_file, delete_path,
  -- move_path or make_directory, whatever it did: no such write makes the verification stale.
  pub untracked_write_stays_verified :
      (request : FinishTaskRequest) (name : String) (result : ToolResult) (h : List Execution)
      → mem_text name untracked_tools ≡ true
      → (build_finish_outcome request (after has_drive task run_id now h)).status
        ≡ completed_verified
      → (build_finish_outcome request
          (after has_drive task run_id now (record { name = name; result = result } ∷ h))).status
        ≡ completed_verified
  unfolding replay build_finish_outcome next_event
  untracked_write_stays_verified request name result h m v =
      rw (untracked_execution name result (after has_drive task run_id now h) m) v
