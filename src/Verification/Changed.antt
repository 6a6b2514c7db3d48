-- ===== src/Verification/Changed.antt =====
-- verification.py: the changed files are the keys of the modification events, in the order of the
-- first modification, and there are some exactly when some execution modified a file.
use proofcoder.Base.{
  ℕ, String, ◌≡◌, refl, Bool, true, false, ◌&&◌, ◌||◌, not, is_none, List, [], ◌∷◌, ◌++◌, ◌∙◌,
  arith, is_empty, any, Option-cases, ◌+◌, Bool-cases, inl, inr,
}
use proofcoder.Base.Dict.{Dict, keys, keys-insert, lookup}
use proofcoder.RunState.{RunState, next_event, record_changed_file, record_command}
use proofcoder.Verification.{
  record_command_result, modified_path, record_modification, record_execution,
}
use proofcoder.Verification.Latest.{Execution, replay, modifies}

abbrev pub KeysMatch : RunState → Type 0
KeysMatch s = keys s.last_modified_events ≡ s.changed_files

is_empty-snoc : (xs : List String) (x : String) → is_empty (xs ++ x ∷ []) ≡ false
is_empty-snoc [] x = refl
is_empty-snoc (y ∷ ys) x = refl

found_nonempty :
    {A : Type 0} (k : String) (d : Dict A)
    → is_none (lookup k d) ≡ false
    → is_empty (keys d) ≡ false
unfolding lookup
found_nonempty k [] h = cc
found_nonempty k ((j, v) ∷ d) h = refl

record_changed_file-KeysMatch :
    (path : String) (event : ℕ) (s : RunState)
    → KeysMatch s
    → KeysMatch (record_changed_file path event s)
unfolding record_changed_file
record_changed_file-KeysMatch path event s h =
    ground (arith, keys-insert path event s.last_modified_events)

is_empty-record_changed_file :
    (path : String) (event : ℕ) (s : RunState)
    → KeysMatch s
    → is_empty (record_changed_file path event s).changed_files ≡ false
unfolding record_changed_file
is_empty-record_changed_file path event s h =
    elim (Bool-cases (is_none (lookup path s.last_modified_events))) [
      | inl new ↦ simp (new, is_empty-snoc)
      | inr old ↦ simp old (rw (← h) (found_nonempty path s.last_modified_events old))
    ]

not-and : (a b : Bool) {c : Bool} → c ≡ not b → (not a && c) ≡ not (a || b)
not-and true b h = refl
not-and false b h = h

module _ (has_drive : String → Bool) where
  record_execution-KeysMatch :
      (e : Execution) (s : RunState)
      → KeysMatch s
      → KeysMatch (record_execution has_drive e.name e.result s).0
  unfolding record_execution record_modification record_command_result record_command
  record_execution-KeysMatch e s h = elim (Option-cases (modified_path has_drive e.result)) [
    | inl nothing ↦ ground arith
    | inr (path, there) ↦
        ground (arith, record_changed_file-KeysMatch path (s.event_sequence + 1) (next_event s).0)
  ]

  changed-record_execution :
      (e : Execution) (s : RunState)
      → KeysMatch s
      → is_empty (record_execution has_drive e.name e.result s).0.changed_files
        ≡ (not (modifies has_drive e) && is_empty s.changed_files)
  unfolding record_execution record_modification record_command_result record_command
  changed-record_execution e s h = elim (Option-cases (modified_path has_drive e.result)) [
    | inl nothing ↦ ground arith
    | inr (path, there) ↦
        ground (arith, is_empty-record_changed_file path (s.event_sequence + 1) (next_event s).0)
  ]

  -- From a state without changes, the changed files are the keys of the modification events, in their
  -- order, and there are none exactly when no execution of the history modified a file.
  pub changed-replay :
      (h : List Execution) (s : RunState)
      → s.last_modified_events ≡ []
      → s.changed_files ≡ []
      → KeysMatch (replay has_drive h s)
        × (is_empty (replay has_drive h s).changed_files ≡ not (any (modifies has_drive) h))
  unfolding replay
  changed-replay [] s d c = (rw (d, c), rw c)
  changed-replay (e ∷ older) s d c =
      let ih : KeysMatch (replay has_drive older s)
          × (is_empty (replay has_drive older s).changed_files
              ≡ not (any (modifies has_drive) older)) =
        changed-replay older s d c in
      (
        record_execution-KeysMatch e (replay has_drive older s) ih.0,
        changed-record_execution e (replay has_drive older s) ih.0
            ∙ not-and (modifies has_drive e) (any (modifies has_drive) older) ih.1,
      )
