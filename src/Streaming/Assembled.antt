-- ===== src/Streaming/Assembled.antt =====
-- The calls of an assembler after any pieces.
use text.Mathlib.TextLemmas.{append-nil}
use proofcoder.Base.{
  String, ◌⁀◌, ◌≡◌, refl, sym, ◌∙◌, ap, subst, Bool, true, false, Option, none, some, is_some, List,
  [], ◌∷◌, ◌++◌, if◌then◌else◌, ◌==◌, arith, eq_iff, inl, inr, Bool-cases, Option-cases,
}
use proofcoder.Base.Int.{ℤ, eqb_ℤ, eqb_ℤ_iff}
use proofcoder.Base.Result.{ok, Result-cases}
use proofcoder.Protocol.{TokenUsage}
use proofcoder.Streaming.{
  StreamAssembler, Calls, Piece, text_piece, reasoning_piece, finish_piece, usage_piece, call_piece,
  PartialToolCall, or_empty, first_of, changes, find, put, extend, begin, continue_call,
  add_tool_call_fragment, add_text, add_reasoning, set_finish_reason, set_usage, add_piece, feed,
}
use proofcoder.Streaming.Reference.{
  mentions, given_id, given_name, given_arguments, first_given, all_given, whole, or_blank,
  assembled, absorb, absorb-assembled, mem_ℤ, add_index, indices,
}

pub find-put :
    (i j : ℤ) (p : PartialToolCall) (calls : Calls)
    → find i (put j p calls) ≡ (if eqb_ℤ j i then some p else find i calls)
unfolding find put
find-put i j p [] = refl
find-put i j p ((k, q) ∷ calls) =
    ground (arith, eqb_ℤ_iff j i, eqb_ℤ_iff k i, eqb_ℤ_iff k j, find-put i j p calls)

abbrev pub extended : ℤ → PartialToolCall → String → StreamAssembler → StreamAssembler
extended j p arguments a = record a {
  calls = put j (record p { arguments = p.arguments ⁀ arguments }) a.calls;
}

extend_lem :
    (j : ℤ) (p : PartialToolCall) (arguments : String) (a : StreamAssembler) {b : StreamAssembler}
    → extend j p arguments a ≡ ok b
    → b ≡ extended j p arguments a
unfolding extend
extend_lem j p arguments a {b} e = ground (arith, eq_iff arguments "", append-nil p.arguments)

or_nothing : (s : String) → (if s == "" then "" else s) ≡ s
or_nothing s = ground (arith, eq_iff s "")

eqb_ℤ_refl : (i : ℤ) → eqb_ℤ i i ≡ true
eqb_ℤ_refl i = (eqb_ℤ_iff i i).1 refl

nothing_first : (s : String) → first_of "" s ≡ s
unfolding first_of
nothing_first s = refl

-- One fragment after a part of its call.
whole_single :
    (j : ℤ) (id name arguments : Option String) (q : PartialToolCall)
    → whole j (call_piece j id name arguments ∷ []) q ≡ record {
      call_id = first_of q.call_id (or_empty id);
      name = first_of q.name (or_empty name);
      arguments = q.arguments ⁀ or_empty arguments;
    }
unfolding whole first_given all_given given_id given_name given_arguments
whole_single j id name arguments q = simp (eqb_ℤ_refl, or_nothing, append-nil) refl

pub begin_lem :
    (j : ℤ) (id name arguments : String) (a : StreamAssembler) {b : StreamAssembler}
    → begin j id name arguments a ≡ ok b
    → b
      ≡ extended j
          (record { call_id = id; name = name; arguments = "" })
          arguments
          (record a { order = a.order ++ j ∷ [] })
unfolding begin
begin_lem j id name arguments a e =
    extend_lem j _ arguments (record a { order = a.order ++ j ∷ [] }) (ground arith)

pub continue_lem :
    (j : ℤ) (id name arguments : String) (p : PartialToolCall) (a : StreamAssembler)
    {b : StreamAssembler}
    → continue_call j id name arguments p a ≡ ok b
    → (b
        ≡ extended j
            (record p { call_id = first_of p.call_id id; name = first_of p.name name })
            arguments
            a)
      × (changes id p.call_id ≡ false)
      × (changes name p.name ≡ false)
unfolding continue_call
continue_lem j id name arguments p a e =
    (extend_lem j _ arguments a (ground arith), ground arith, ground arith)

-- What an accepted fragment leaves.
fragment_lem :
    (j : ℤ) (id name arguments : Option String) (a : StreamAssembler) {b : StreamAssembler}
    → add_tool_call_fragment j id name arguments a ≡ ok b
    → (b.calls
        ≡ put j (whole j (call_piece j id name arguments ∷ []) (or_blank (find j a.calls))) a.calls)
      × (b.order ≡ (if is_some (find j a.calls) then a.order else a.order ++ j ∷ []))
unfolding add_tool_call_fragment
fragment_lem j id name arguments a {b} e = elim (Option-cases (find j a.calls)) [
  | inl fresh ↦
      let left =
        begin_lem j (or_empty id) (or_empty name) (or_empty arguments)
          (record a { saw_fragment = true }) {b = b} (ground arith) in
      rw (fresh, whole_single, nothing_first, nothing_first)
        (ap (λ (x : StreamAssembler). x.calls) left, ap (λ (x : StreamAssembler). x.order) left)
  | inr (p, old) ↦
      let left =
        continue_lem j (or_empty id) (or_empty name) (or_empty arguments) p
          (record a { saw_fragment = true }) {b = b} (ground arith) in
      rw (old, whole_single)
        (ap (λ (x : StreamAssembler). x.calls) left.0, ap (λ (x : StreamAssembler). x.order) left.0)
]

-- The indices of the calls are the ones in the order, so `finish` finds each.
unfoldable pub IsOrdered : StreamAssembler → Type 0
IsOrdered a = (i : ℤ) → is_some (find i a.calls) ≡ mem_ℤ i a.order

mem_ℤ-snoc :
    (i j : ℤ) (js : List ℤ) → mem_ℤ i (js ++ j ∷ []) ≡ (if eqb_ℤ j i then true else mem_ℤ i js)
mem_ℤ-snoc i j [] = ground arith
mem_ℤ-snoc i j (k ∷ js) = ground (arith, mem_ℤ-snoc i j js)

-- What one accepted piece does to the calls.
pub record Absorbs (a : StreamAssembler) (p : Piece) (b : StreamAssembler) : Type 0 where
  pub each : (i : ℤ) → find i b.calls ≡ absorb i p (find i a.calls)
  pub order : IsOrdered a → b.order ≡ add_index p a.order
  pub ordered : IsOrdered a → IsOrdered b

-- a piece that leaves the calls alone
same_calls :
    (a b : StreamAssembler) (p : Piece)
    → b.calls ≡ a.calls
    → b.order ≡ a.order
    → ((i : ℤ) → mentions i p ≡ false)
    → add_index p a.order ≡ a.order
    → Absorbs a p b
unfolding absorb IsOrdered
same_calls a b p calls order quiet index = record {
  each = λ i. rw (calls, quiet i) refl;
  order = λ o. order ∙ sym index;
  ordered = λ o i. rw (calls, order) (o i);
}

fragment-Absorbs :
    (j : ℤ) (id name arguments : Option String) (a : StreamAssembler) {b : StreamAssembler}
    → add_tool_call_fragment j id name arguments a ≡ ok b
    → Absorbs a (call_piece j id name arguments) b
unfolding absorb mentions IsOrdered add_index
fragment-Absorbs j id name arguments a {b} e =
    let piece : Piece = call_piece j id name arguments in
    let (calls, order) = fragment_lem j id name arguments a e in
    let found : (i : ℤ)
        → find i b.calls ≡ (
            if eqb_ℤ j i
            then some (whole j (piece ∷ []) (or_blank (find j a.calls)))
            else find i a.calls) =
      λ i. rw calls (find-put i j _ a.calls) in
    record {
      each = λ i. elim (Bool-cases (eqb_ℤ j i)) [
        | inl here ↦
            found i
            ∙ rw here (
                ap (λ k. some (whole k (piece ∷ []) (or_blank (find k a.calls))))
                  ((eqb_ℤ_iff j i).0 here))
        | inr away ↦ found i ∙ rw away refl
      ];
      order = λ o. order ∙ rw (o j) refl;
      ordered =
          λ o i. ground (arith, found i, order, o i, o j, mem_ℤ-snoc i j a.order, eqb_ℤ_iff j i);
    }

text-Absorbs :
    (reports : Bool) (s : String) (a : StreamAssembler) {b : StreamAssembler}
    → add_text reports s a ≡ ok b
    → Absorbs a (text_piece s) b
unfolding add_text add_index mentions
text-Absorbs reports s a {b} e =
    same_calls a b (text_piece s) (ground arith) (ground arith) (λ i. refl) refl

reasoning-Absorbs :
    (s : String) (a : StreamAssembler) → Absorbs a (reasoning_piece s) (add_reasoning s a)
unfolding add_reasoning add_index mentions
reasoning-Absorbs s a =
    same_calls a (add_reasoning s a) (reasoning_piece s) (ground arith) (ground arith) (λ i. refl)
      refl

finish-Absorbs :
    (r : Option String) (a : StreamAssembler) → Absorbs a (finish_piece r) (set_finish_reason r a)
unfolding set_finish_reason add_index mentions
finish-Absorbs r a =
    same_calls a (set_finish_reason r a) (finish_piece r) (ground arith) (ground arith) (λ i. refl)
      refl

usage-Absorbs :
    (u : Option TokenUsage) (a : StreamAssembler) → Absorbs a (usage_piece u) (set_usage u a)
unfolding set_usage add_index mentions
usage-Absorbs none a = same_calls a a (usage_piece none) refl refl (λ i. refl) refl
usage-Absorbs (some u) a =
    same_calls a (set_usage (some u) a) (usage_piece (some u)) refl refl (λ i. refl) refl

add_piece-Absorbs :
    (reports : Bool) (p : Piece) (a : StreamAssembler) {b : StreamAssembler}
    → add_piece reports p a ≡ ok b
    → Absorbs a p b
unfolding add_piece
add_piece-Absorbs reports (text_piece s) a e = text-Absorbs reports s a e
add_piece-Absorbs reports (reasoning_piece s) a e =
    subst (Absorbs a (reasoning_piece s)) (ground arith) (reasoning-Absorbs s a)
add_piece-Absorbs reports (finish_piece r) a e =
    subst (Absorbs a (finish_piece r)) (ground arith) (finish-Absorbs r a)
add_piece-Absorbs reports (usage_piece u) a e =
    subst (Absorbs a (usage_piece u)) (ground arith) (usage-Absorbs u a)
add_piece-Absorbs reports (call_piece j id name arguments) a e =
    fragment-Absorbs j id name arguments a e

-- The assembler after pieces, against what the pieces say.
pub record Feeds (a : StreamAssembler) (ps : List Piece) (b : StreamAssembler) : Type 0 where
  pub each : (i : ℤ) → find i b.calls ≡ assembled i ps (find i a.calls)
  pub order : IsOrdered a → b.order ≡ indices a.order ps
  pub ordered : IsOrdered a → IsOrdered b

pub feed-Feeds :
    (reports : Bool) (ps : List Piece) (a : StreamAssembler) {b : StreamAssembler}
    → feed reports ps a ≡ ok b
    → Feeds a ps b
unfolding feed indices assembled
feed-Feeds reports [] a {b} e =
    let same : a ≡ b = ground arith in
    subst (Feeds a []) same (record { each = λ i. refl; order = λ o. refl; ordered = λ o. o })
feed-Feeds reports (p ∷ ps) a {b} e = elim (Result-cases (add_piece reports p a)) [
  | inl (m, done) ↦
      let first = add_piece-Absorbs reports p a done in
      let rest = feed-Feeds reports ps m {b = b} (ground arith) in
      record {
        each = λ i.
            rest.each i
            ∙ ap (assembled i ps) (first.each i)
            ∙ absorb-assembled i p ps (find i a.calls);
        order = λ o. rest.order (first.ordered o) ∙ ap (λ js. indices js ps) (first.order o);
        ordered = λ o. rest.ordered (first.ordered o);
      }
  | inr (x, failed) ↦ absurd (ground arith)
]
