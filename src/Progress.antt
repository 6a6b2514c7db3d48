-- ===== src/Progress.antt =====
-- progress.py: fingerprints of completed tool batches, and the count of equal ones in a row.
use Prim.Native.String.{compare}
use proofcoder.Base.{
  ℕ, suc, String, ◌≡◌, refl, ap, Bool, true, false, Option, none, some, List, [], ◌∷◌, arith,
  if◌then◌else◌, ◌==◌, eq_iff, eqb, not, inl, inr, Option-cases, leb, length,
}
use proofcoder.Base.Host.{Codec}
use proofcoder.Base.Result.{Result, ok, ◌>>=◌, ◌>>◌, raise_if}
use proofcoder.Base.Text.{mem_text}
use proofcoder.Json.{
  Json, null, bool, int, real, str, arr, obj, Items, nil, cons, Fields, end, field, of_texts,
}
use proofcoder.Protocol.{ToolCall}
use proofcoder.ToolResult.{ToolError, ToolResult}
use text.Mathlib.Text.{is_le}

abbrev pub unstable_keys : List String
unstable_keys =
    "audit_path" ∷ "call_id" ∷ "duration_ms" ∷ "elapsed" ∷ "elapsed_seconds" ∷ "request_id"
    ∷ "timestamp" ∷ "timestamps" ∷ "tool_call_id" ∷ []

insert_sorted : String → Json → Fields → Fields
insert_sorted k v end = field k v end
insert_sorted k v (field j w d) =
    if is_le (compare k j) then field k v (field j w d) else field j w (insert_sorted k v d)

unfoldable mutual
  unfolding insert_sorted

  pub stable_value : Json → Json
  stable_value null = null
  stable_value (bool b) = bool b
  stable_value (int n) = int n
  stable_value (real t) = real t
  stable_value (str s) = str s
  stable_value (arr xs) = arr (stable_items xs)
  stable_value (obj d) = obj (stable_fields d)

  pub stable_items : Items → Items
  stable_items nil = nil
  stable_items (cons x xs) = cons (stable_value x) (stable_items xs)

  -- the stable entries, sorted by their keys
  pub stable_fields : Fields → Fields
  stable_fields end = end
  stable_fields (field k v d) =
      let v' = stable_value v in
      let rest = stable_fields d in
      if mem_text k unstable_keys then rest else insert_sorted k v' rest

optional_error : Option ToolError → Json
optional_error none = null
optional_error (some e) = obj (field "code" (str e.code) (field "retryable" (bool e.retryable) end))

optional_data : Option Fields → Json
optional_data none = null
optional_data (some d) = stable_value (obj d)

unfoldable pub semantic_result : ToolResult → Json
unfolding optional_error optional_data stable_value
semantic_result r = obj (
    field "data" (optional_data r.contents) (
      field "error" (optional_error r.error) (
        field "ok" (bool r.ok) (
          field "truncated" (bool r.meta.truncated)
            (field "warnings" (arr (of_texts r.meta.warnings)) end)))))

-- `strip` is value.strip(), and `sha256` the hexadecimal digest of a text's UTF-8 bytes
module _ (codec : Codec) (strip : String → String) (sha256 : String → String) where
  unfoldable pub normalized_arguments : String → Json
  normalized_arguments arguments = elim (codec.loads arguments) [
    | none ↦ str (strip arguments)
    | some value ↦ stable_value value
  ]

  batch_items : List ToolCall → List ToolResult → Items
  batch_items [] results = nil
  batch_items (call ∷ calls) [] = nil
  batch_items (call ∷ calls) (result ∷ results) =
      cons
        (obj (
          field "arguments" (normalized_arguments call.function.arguments)
            (field "name" (str call.function.name) (field "result" (semantic_result result) end))))
        (batch_items calls results)

  unfoldable pub batch_fingerprint : List ToolCall → List ToolResult → Result String String
  unfolding batch_items normalized_arguments
  batch_fingerprint calls results = do
    raise_if (not (eqb (length calls) (length results))) "calls and results must have equal lengths"
    ok (sha256 (codec.dumps_sorted (arr (batch_items calls results))))

pub record ProgressObservation : Type 0 where
  pub repeat_count : ℕ
  pub warn : Bool
  pub terminate : Bool

pub record NoProgressTracker : Type 0 where
  pub fingerprint : Option String
  pub repeats : ℕ

abbrev pub new_tracker : NoProgressTracker
new_tracker = record { fingerprint = none; repeats = 0 }

unfoldable pub reset : NoProgressTracker → NoProgressTracker
reset t = record { fingerprint = none; repeats = 0 }

same_fingerprint : String → Option String → Bool
same_fingerprint f none = false
same_fingerprint f (some g) = f == g

-- The bookkeeping of `observe` once the fingerprint is known.
unfoldable pub count_fingerprint : String → NoProgressTracker → NoProgressTracker
unfolding same_fingerprint
count_fingerprint f t =
    if same_fingerprint f t.fingerprint
    then record t { repeats = suc t.repeats }
    else record { fingerprint = some f; repeats = 1 }

unfoldable pub observation_of : NoProgressTracker → ProgressObservation
observation_of t = record {
  repeat_count = t.repeats;
  warn = eqb t.repeats 2;
  terminate = leb 3 t.repeats;
}

-- `fingerprint` is batch_fingerprint(calls, results)
unfoldable pub observe :
    Result String String
    → Bool
    → NoProgressTracker
    → Result String (NoProgressTracker × ProgressObservation)
unfolding count_fingerprint observation_of reset
observe fingerprint true t =
    ok (reset t, record { repeat_count = 0; warn = false; terminate = false })
observe fingerprint false t = do
  f ← fingerprint
  let t' = count_fingerprint f t
  ok (t', observation_of t')

-- A completed batch: it modified the workspace, or it did not and has this fingerprint.
pub data Batch : Type 0 where
  modified : Batch
  unmodified : String → Batch

step : Batch → NoProgressTracker → NoProgressTracker
step modified t = reset t
step (unmodified f) t = count_fingerprint f t

-- The tracker after a history of batches, the newest first.
unfoldable pub after : List Batch → NoProgressTracker
unfolding step
after [] = new_tracker
after (b ∷ older) = step b (after older)

-- The batches at the front that have this fingerprint.
unfoldable pub run_of : String → List Batch → ℕ
run_of f [] = 0
run_of f (modified ∷ older) = 0
run_of f (unmodified g ∷ older) = let more = suc (run_of f older) in if f == g then more else 0

-- The length of the longest run of equal unmodified batches that ends with the newest one.
unfoldable pub streak : List Batch → ℕ
unfolding run_of
streak [] = 0
streak (modified ∷ older) = 0
streak (unmodified f ∷ older) = suc (run_of f older)

after-run_of :
    (f : String) (h : List Batch)
    → run_of f h ≡ (if same_fingerprint f (after h).fingerprint then (after h).repeats else 0)
unfolding after run_of same_fingerprint count_fingerprint reset
after-run_of f [] = refl
after-run_of f (modified ∷ older) = refl
after-run_of f (unmodified g ∷ older) = elim (Option-cases (after older).fingerprint) [
  | inl fresh ↦ ground (arith, after-run_of f older, eq_iff g f, eq_iff f g)
  | inr (x, e) ↦ ground (arith, after-run_of f older, eq_iff f g, eq_iff g x, eq_iff f x)
]

abbrev observed : ℕ → ProgressObservation
observed n = record { repeat_count = n; warn = eqb n 2; terminate = leb 3 n }

after_fingerprint :
    (f : String) (h : List Batch) → (after (unmodified f ∷ h)).repeats ≡ suc (run_of f h)
unfolding after count_fingerprint
after_fingerprint f h = ground (arith, after-run_of f h)

abbrev pub batch : Bool → String → Batch
batch true f = modified
batch false f = unmodified f

-- Observing one more batch after any history gives the tracker of the longer history, and reports the
-- run of equal unmodified batches that ends with the new one: a warning exactly at a run of two, and
-- the end from a run of three on. A batch that modified the workspace reports a run of length 0.
pub observe-after :
    (f : String) (modified_workspace : Bool) (h : List Batch)
    → observe (ok f) modified_workspace (after h)
      ≡ ok (
        after (batch modified_workspace f ∷ h),
        observed (streak (batch modified_workspace f ∷ h)),
      )
unfolding observe streak after
observe-after f true h = refl
observe-after f false h =
    ap (λ (n : ℕ). ok (after (unmodified f ∷ h), observed n)) (after_fingerprint f h)
