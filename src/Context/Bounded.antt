-- ===== src/Context/Bounded.antt =====
-- context.py, ContextManager.build: a view that is built fits the budget, and what it leaves out are
-- the oldest groups.
use native.Mathlib.Nat.{div-le_of_le-mul, mul-le-mul_left}
use proofcoder.Base.{
  ℕ, zero, suc, ◌+◌, ◌-◌, ◌*◌, ◌/◌, ◌≤◌, ◌<◌, String, ◌≡◌, refl, ◌⊎◌, inl, inr, true, List, [], ◌∷◌,
  arith, length, drop, ltb, leb, leb→le, Bool-cases,
}
use proofcoder.Base.Host.{Codec}
use proofcoder.Base.Result.{ok, err}
use proofcoder.Context.{
  ContextView, ContextManager, effective_budget_bytes, target_bytes, budget_error, view_of, trim,
  build_messages, build,
}
use proofcoder.Context.Groups.{interaction_groups}
use proofcoder.Context.Tokens.{byte_limit}
use proofcoder.History.{MessageHistory}
use proofcoder.Json.{Json}
use proofcoder.Protocol.{Message}
use proofcoder.RunState.{RunState}

-- What the constructor of ContextManager checks.
pub record IsConfigured (c : ContextManager) : Type 0 where
  pub budget : 0 < c.budget_bytes
  pub positive : 0 < c.target_num
  pub ratio : c.target_num ≤ c.target_den

effective_pos : (c : ContextManager) → IsConfigured c → 0 < effective_budget_bytes c
unfolding effective_budget_bytes byte_limit
effective_pos c h = ground arith

-- A token budget only ever tightens the byte budget.
effective_le : (c : ContextManager) → effective_budget_bytes c ≤ c.budget_bytes
unfolding effective_budget_bytes
effective_le c = ground arith

target_le : (c : ContextManager) → IsConfigured c → target_bytes c ≤ effective_budget_bytes c
unfolding target_bytes
target_le c h =
    let e : ℕ = effective_budget_bytes c in
    let part : e * c.target_num / c.target_den ≤ e =
      div-le_of_le-mul c.target_den (omega (arith, mul-le-mul_left e h.ratio)) in
    omega (arith, effective_pos c h)

-- A view of the last groups: the oldest ones are left out, and if any is, the newest stay.
pub record KeepsNewest (codec : Codec) (tools : List Json) (state : RunState) (c : ContextManager)
    (first task : Message) (groups : List (List Message)) (start : ℕ) (view : ContextView)
    : Type 0 where
  pub left_out : ℕ
  pub few : left_out ≤ length groups
  pub removed : ℕ
  pub counted : removed ≡ start + left_out
  pub shown : view ≡ view_of codec tools state first task (drop left_out groups) removed
  pub newest : (left_out ≡ 0) ⊎ (c.min_recent_groups ≤ length groups - left_out)
  pub fits : view.byte_count ≤ effective_budget_bytes c

module _ (codec : Codec) (tools : List Json) (state : RunState) (c : ContextManager)
    (first task : Message) where
  abbrev next : List (List Message) → ℕ → ContextView
  next rest removed = view_of codec tools state first task rest (suc removed)

  later :
      (g : List Message) (rest : List (List Message)) (removed : ℕ) {view : ContextView}
      → ltb c.min_recent_groups (length (g ∷ rest)) ≡ true
      → KeepsNewest codec tools state c first task rest (suc removed) view
      → KeepsNewest codec tools state c first task (g ∷ rest) removed view
  later g rest removed {view} more k = record {
    left_out = suc k.left_out;
    few = omega (arith, k.few);
    removed = k.removed;
    counted = omega (arith, k.counted);
    shown = k.shown;
    newest = inr (newest_later k.newest);
    fits = k.fits;
  }
    where
      newest_later :
          (k.left_out ≡ 0) ⊎ (c.min_recent_groups ≤ length rest - k.left_out)
          → c.min_recent_groups ≤ length (g ∷ rest) - suc k.left_out
      newest_later n = ground arith

  trim-KeepsNewest :
      (removed : ℕ) (groups : List (List Message)) {view : ContextView}
      → IsConfigured c
      → trim codec tools state c first task removed groups ≡ ok view
      → KeepsNewest codec tools state c first task groups removed view
  unfolding trim
  trim-KeepsNewest removed [] {view} h e = record {
    left_out = zero;
    few = omega arith;
    removed = removed;
    counted = omega arith;
    shown = ground arith;
    newest = inl refl;
    fits = ground arith;
  }
  trim-KeepsNewest removed (g ∷ rest) {view} h e =
      elim (Bool-cases (ltb c.min_recent_groups (length (g ∷ rest)))) [
        | inl more ↦ elim (Bool-cases (leb (next rest removed).byte_count (target_bytes c))) [
          | inl enough ↦ record {
            left_out = suc zero;
            few = omega arith;
            removed = suc removed;
            counted = omega arith;
            shown = ground arith;
            newest = inr (ground arith);
            fits =
                let same : (next rest removed) ≡ view = ground arith in
                rw (← same) (omega (arith, leb→le _ _ enough, target_le c h));
          }
          | inr again ↦
              later g rest removed more (trim-KeepsNewest (suc removed) rest h (ground arith))
        ]
        | inr few ↦ record {
          left_out = zero;
          few = omega arith;
          removed = removed;
          counted = omega arith;
          shown = ground arith;
          newest = inl refl;
          fits = ground arith;
        }
      ]

  trim_refuses :
      (removed : ℕ) (groups : List (List Message)) (message : String) (k : ℕ)
      → k ≡ length groups - c.min_recent_groups
      → trim codec tools state c first task removed groups ≡ err (budget_error message)
      → (count : ℕ) × (count ≡ removed + k)
        × (effective_budget_bytes c
            < (view_of codec tools state first task (drop k groups) count).byte_count)
  unfolding trim
  trim_refuses removed [] message zero ek e = (removed, omega arith, ground arith)
  trim_refuses removed [] message (suc k) ek e = absurd (omega arith)
  trim_refuses removed (g ∷ rest) message zero ek e = (removed, omega arith, ground arith)
  trim_refuses removed (g ∷ rest) message (suc k) ek e =
      let (count, counted, over) =
        trim_refuses (suc removed) rest message k (omega arith) (ground arith) in
      (count, omega (arith, counted), over)

module _ (codec : Codec) (tools : List Json) (state : RunState) (c : ContextManager) where
  -- A view that is built has at most the bytes of the budget in force. It holds the system message
  -- with the run's facts, the task, and all interaction groups but the oldest ones; if any group is
  -- left out, the configured number of newest groups is still there, and the view says how many are
  -- out.
  pub build_messages-KeepsNewest :
      (first task : Message) (rest : List Message) {view : ContextView}
      → IsConfigured c
      → build_messages codec tools state c (first ∷ task ∷ rest) ≡ ok view
      → KeepsNewest codec tools state c first task (interaction_groups rest) 0 view
  unfolding build_messages
  build_messages-KeepsNewest first task rest {view} h e =
      let whole : ContextView = view_of codec tools state first task (interaction_groups rest) 0 in
      elim (Bool-cases (leb whole.byte_count (effective_budget_bytes c))) [
        | inl enough ↦ record {
          left_out = zero;
          few = omega arith;
          removed = 0;
          counted = omega arith;
          shown = ground arith;
          newest = inl refl;
          fits = let same : whole ≡ view = ground arith in rw (← same) (leb→le _ _ enough);
        }
        | inr large ↦
            trim-KeepsNewest codec tools state c first task 0 (interaction_groups rest) h
              (ground arith)
      ]

  -- If building is refused for the budget, the view with only the configured number of newest groups
  -- exceeds the budget in force.
  pub build_messages_refuses :
      (first task : Message) (rest : List Message) (message : String)
      → build_messages codec tools state c (first ∷ task ∷ rest) ≡ err (budget_error message)
      → (count : ℕ) × (count ≡ length (interaction_groups rest) - c.min_recent_groups)
        × (effective_budget_bytes c
            < (view_of codec tools state first task
                (drop count (interaction_groups rest))
                count).byte_count)
  unfolding build_messages
  build_messages_refuses first task rest message e =
      let k : ℕ = length (interaction_groups rest) - c.min_recent_groups in
      let (count, counted, over) =
        trim_refuses codec tools state c first task 0 (interaction_groups rest) message k refl
          (ground arith) in
      let same : count ≡ k = omega (arith, counted) in (k, refl, rw same at over)

  build_messages-fits :
      (ms : List Message) {view : ContextView}
      → IsConfigured c
      → build_messages codec tools state c ms ≡ ok view
      → view.byte_count ≤ effective_budget_bytes c
  build_messages-fits [] h e = absurd (unfold build_messages in ground arith)
  build_messages-fits (m ∷ []) h e = absurd (unfold build_messages in ground arith)
  build_messages-fits (first ∷ task ∷ rest) h e =
      (build_messages-KeepsNewest first task rest h e).fits

  -- A view that is built fits the budget in force, and that never exceeds the byte budget, with a
  -- token budget or without.
  pub build-fits :
      (history : MessageHistory) {view : ContextView}
      → IsConfigured c
      → build codec tools state c history ≡ ok view
      → (view.byte_count ≤ effective_budget_bytes c) × (effective_budget_bytes c ≤ c.budget_bytes)
  unfolding build
  build-fits history {view} h e =
      (build_messages-fits history.messages {view = view} h (ground arith), effective_le c)
