-- ===== src/Streaming/Cut.antt =====
-- llm/streaming.py: a response that is cut into pieces.
use text.Mathlib.TextLemmas.{nil-append}
use text.Mathlib.TextLemmas
use proofcoder.Base.{
  ℕ, suc, ◌+◌, ◌≤◌, String, ◌⁀◌, ◌≡◌, refl, ◌∙◌, ap, true, false, Option, none, some, List, [], ◌∷◌,
  ◌++◌, ◌==◌, ltb, is_empty, arith, eq_iff, inl, inr, Bool-cases,
}
use proofcoder.Base.Int.{ℤ, pos, eqb_ℤ, eqb_ℤ_iff}
use proofcoder.Base.Result.{ok}
use proofcoder.Base.Text.{text_length}
use proofcoder.Json.{Json, obj, Fields}
use proofcoder.Protocol.{TokenUsage, ToolCall}
use proofcoder.Streaming.{
  PartialToolCall, Calls, StreamAssembler, new_assembler, find, put, Piece, text_piece,
  reasoning_piece, usage_piece, finish_piece, call_piece, extend, join,
  max_tool_argument_characters,
}

-- A call, with its arguments cut into a first fragment and further ones.
pub record Cut : Type 0 where
  pub call : ToolCall
  pub first : String
  pub more : List String

abbrev pub text_pieces : List String → List Piece → List Piece
text_pieces [] rest = rest
text_pieces (t ∷ ts) rest = text_piece t ∷ text_pieces ts rest

abbrev pub reasoning_pieces : List String → List Piece → List Piece
reasoning_pieces [] rest = rest
reasoning_pieces (t ∷ ts) rest = reasoning_piece t ∷ reasoning_pieces ts rest

-- fragments without an id and a name
abbrev pub fragments : ℤ → List String → List Piece → List Piece
fragments i [] rest = rest
fragments i (f ∷ fs) rest = call_piece i none none (some f) ∷ fragments i fs rest

-- the pieces of calls, from this index on
abbrev pub call_pieces : ℕ → List Cut → List Piece → List Piece
call_pieces n [] rest = rest
call_pieces n (c ∷ cs) rest =
    call_piece (pos n) (some c.call.id) (some c.call.function.name) (some c.first)
    ∷ fragments (pos n) c.more (call_pieces (suc n) cs rest)

abbrev pub calls_of : List Cut → List ToolCall
calls_of [] = []
calls_of (c ∷ cs) = c.call ∷ calls_of cs

abbrev pub IsGiven : String → Type 0
IsGiven t = (t == "") ≡ false

-- A call that a provider may send: named, with an id, and with a JSON object that is not too long; and
-- the fragments are its arguments.
pub record IsSendable (loads : String → Option Json) (c : Cut) : Type 0 where
  pub has_id : IsGiven c.call.id
  pub has_name : IsGiven c.call.function.name
  pub has_arguments : IsGiven c.call.function.arguments
  pub whole : c.first ⁀ join c.more ≡ c.call.function.arguments
  pub short : text_length c.call.function.arguments ≤ max_tool_argument_characters
  pub is_function : c.call.type ≡ "function"
  pub fields : Fields
  pub loaded : loads c.call.function.arguments ≡ some (obj fields)

abbrev pub partial : ToolCall → PartialToolCall
partial c = record { call_id = c.id; name = c.function.name; arguments = c.function.arguments }

abbrev pub stored : ℕ → List Cut → Calls
stored n [] = []
stored n (c ∷ cs) = (pos n, partial c.call) ∷ stored (suc n) cs

abbrev pub numbers : ℕ → List Cut → List ℤ
numbers n [] = []
numbers n (c ∷ cs) = pos n ∷ numbers (suc n) cs

-- No call from this index on is there.
abbrev pub IsFresh : ℕ → Calls → Type 0
IsFresh n calls = (i : ℕ) → n ≤ i → find (pos i) calls ≡ none

pub text_length-append : (s t : String) → text_length (s ⁀ t) ≡ text_length s + text_length t
unfolding text_length
text_length-append String.[] t = rw (nil-append t) (omega arith)
text_length-append (String.◌∷◌ c s) t =
    rw (TextLemmas.cons-append c s t) (omega (arith, text_length-append s t))

pub put-absent :
    (i : ℤ) (p : PartialToolCall) (calls : Calls)
    → find i calls ≡ none
    → put i p calls ≡ calls ++ (i, p) ∷ []
unfolding put find
put-absent i p [] h = refl
put-absent i p ((j, q) ∷ calls) h = elim (Bool-cases (eqb_ℤ j i)) [
  | inl here ↦ absurd (ground (arith, here))
  | inr other ↦ rw other (ap (λ c. (j, q) ∷ c) (put-absent i p calls (ground (arith, other))))
]

pub find-append :
    (i : ℤ) (calls more : Calls) → find i calls ≡ none → find i (calls ++ more) ≡ find i more
unfolding find
find-append i [] more h = refl
find-append i ((j, q) ∷ calls) more h = elim (Bool-cases (eqb_ℤ j i)) [
  | inl here ↦ absurd (ground (arith, here))
  | inr other ↦ rw other (find-append i calls more (ground (arith, other)))
]

pub IsFresh-append :
    (n : ℕ) (p : PartialToolCall) (calls : Calls)
    → IsFresh n calls
    → IsFresh (suc n) (calls ++ (pos n, p) ∷ [])
unfolding find
IsFresh-append n p calls h i le =
    find-append (pos i) calls ((pos n, p) ∷ []) (h i (omega (arith, le))) ∙ ground (arith, le)

put-last :
    (i : ℤ) (p q : PartialToolCall) (calls : Calls)
    → find i calls ≡ none
    → put i q (calls ++ (i, p) ∷ []) ≡ calls ++ (i, q) ∷ []
unfolding put find
put-last i p q [] h = rw ((eqb_ℤ_iff i i).1 refl) refl
put-last i p q ((j, r) ∷ calls) h = elim (Bool-cases (eqb_ℤ j i)) [
  | inl here ↦ absurd (ground (arith, here))
  | inr other ↦ rw other (ap (λ c. (j, r) ∷ c) (put-last i p q calls (ground (arith, other))))
]

-- An assembler that also has these calls, from this index on.
abbrev pub with_calls : ℕ → List Cut → StreamAssembler → StreamAssembler
with_calls n cs a = record a {
  saw_fragment = true;
  calls = a.calls ++ stored n cs;
  order = a.order ++ numbers n cs;
}

-- An assembler whose last call has these arguments.
abbrev pub with_last : Calls → ℤ → PartialToolCall → String → StreamAssembler → StreamAssembler
with_last before i p arguments a = record a {
  saw_fragment = true;
  calls = before ++ (i, record p { arguments = arguments }) ∷ [];
}

-- a fragment of the last call is appended to its arguments
pub extend_lem :
    (before : Calls) (i : ℤ) (p : PartialToolCall) (old f : String) (a : StreamAssembler)
    → find i before ≡ none
    → text_length (old ⁀ f) ≤ max_tool_argument_characters
    → extend i (record p { arguments = old }) f (with_last before i p old a)
      ≡ ok (with_last before i p (old ⁀ f) a)
unfolding extend
extend_lem before i p old f a fresh short = elim (Bool-cases (f == "")) [
  | inl nothing ↦
      let same : f ≡ "" = (eq_iff f "").0 nothing in
      rw
        (
          nothing,
          same,
          TextLemmas.append-nil old,
          put-last i _ (record p { arguments = old }) before fresh,
        )
        refl
  | inr something ↦
      let room : ltb max_tool_argument_characters (text_length old + text_length f) ≡ false =
        ground (arith, short, text_length-append old f) in
      rw (something, room, put-last i _ (record p { arguments = old ⁀ f }) before fresh) refl
]

pub is_empty_lem : (cs : List Cut) → is_empty (calls_of cs) ≡ is_empty cs
is_empty_lem [] = refl
is_empty_lem (c ∷ cs) = refl

-- The pieces of a response: its first piece of reasoning, the further ones, its text, its calls, its
-- finish reason and its usage.
abbrev pub pieces_of :
    String → List String → List String → List Cut → String → TokenUsage → List Piece
pieces_of r rs ts cs reason u =
    reasoning_piece r
    ∷ reasoning_pieces rs
        (text_pieces ts (call_pieces 0 cs (finish_piece (some reason) ∷ usage_piece (some u) ∷ [])))

-- The assembler after the first piece.
abbrev pub opened : String → StreamAssembler
opened r = record new_assembler { saw_fragment = true; reasoning = r ∷ [] }
