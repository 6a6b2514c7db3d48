-- ===== src/Streaming/Reference.antt =====
-- What a response is, read off the pieces of its stream without an assembler.
use text.Mathlib.TextLemmas.{nil-append, append-nil, append_assoc}
use proofcoder.Base.{
  String, ◌⁀◌, ◌≡◌, refl, sym, ◌∙◌, ap, Bool, false, ◌||◌, Option, none, some, List, [], ◌∷◌, ◌++◌,
  if◌then◌else◌, ◌==◌, any, is_empty, map, arith, eq_iff, inl, inr, Bool-cases,
}
use proofcoder.Base.Int.{ℤ, eqb_ℤ}
use proofcoder.Protocol.{TokenUsage, AssistantMessage}
use proofcoder.Streaming.{
  Piece, text_piece, reasoning_piece, finish_piece, usage_piece, call_piece, PartialToolCall,
  or_empty, first_of, or_none, call_of,
}

unfoldable pub mentions : ℤ → Piece → Bool
mentions i (call_piece j id name arguments) = eqb_ℤ j i
mentions i _ = false

-- the id, the name and the arguments that a piece gives the call of this index
unfoldable pub given_id : ℤ → Piece → String
given_id i (call_piece j id name arguments) = if eqb_ℤ j i then or_empty id else ""
given_id i _ = ""

unfoldable pub given_name : ℤ → Piece → String
given_name i (call_piece j id name arguments) = if eqb_ℤ j i then or_empty name else ""
given_name i _ = ""

unfoldable pub given_arguments : ℤ → Piece → String
given_arguments i (call_piece j id name arguments) = if eqb_ℤ j i then or_empty arguments else ""
given_arguments i _ = ""

-- the first text that is given and not empty
unfoldable pub first_given : (Piece → String) → List Piece → String
first_given f [] = ""
first_given f (p ∷ ps) = let rest = first_given f ps in if f p == "" then rest else f p

-- all texts that are given, in their order
unfoldable pub all_given : (Piece → String) → List Piece → String
all_given f [] = ""
all_given f (p ∷ ps) = f p ⁀ all_given f ps

-- The call of an index, after a part of it that is there already.
unfoldable pub whole : ℤ → List Piece → PartialToolCall → PartialToolCall
whole i ps q = record {
  call_id = first_of q.call_id (first_given (given_id i) ps);
  name = first_of q.name (first_given (given_name i) ps);
  arguments = q.arguments ⁀ all_given (given_arguments i) ps;
}

abbrev pub blank : PartialToolCall
blank = record { call_id = ""; name = ""; arguments = "" }

abbrev pub or_blank : Option PartialToolCall → PartialToolCall
or_blank none = blank
or_blank (some p) = p

unfoldable pub assembled : ℤ → List Piece → Option PartialToolCall → Option PartialToolCall
assembled i ps o = if any (mentions i) ps then some (whole i ps (or_blank o)) else o

abbrev pub mem_ℤ : ℤ → List ℤ → Bool
mem_ℤ i [] = false
mem_ℤ i (j ∷ js) = eqb_ℤ j i || mem_ℤ i js

-- the indices after the ones that were seen, in the order of their first mention
unfoldable pub add_index : Piece → List ℤ → List ℤ
add_index (call_piece j id name arguments) seen = if mem_ℤ j seen then seen else seen ++ j ∷ []
add_index _ seen = seen

unfoldable pub indices : List ℤ → List Piece → List ℤ
indices seen [] = seen
indices seen (p ∷ ps) = indices (add_index p seen) ps

unfoldable pub given_text : Piece → String
given_text (text_piece s) = s
given_text _ = ""

unfoldable pub given_reasoning : Piece → String
given_reasoning (reasoning_piece s) = s
given_reasoning _ = ""

-- the last finish reason that is given and not empty
unfoldable pub last_reason : Option String → List Piece → Option String
last_reason r [] = r
last_reason r (finish_piece s ∷ ps) = last_reason (if or_empty s == "" then r else s) ps
last_reason r (_ ∷ ps) = last_reason r ps

unfoldable pub last_usage : Option TokenUsage → List Piece → Option TokenUsage
last_usage u [] = u
last_usage u (usage_piece (some v) ∷ ps) = last_usage (some v) ps
last_usage u (_ ∷ ps) = last_usage u ps

unfoldable pub reference : (ℤ → String) → List Piece → AssistantMessage
reference show_int ps =
    let calls = map (λ i. call_of show_int i (whole i ps blank)) (indices [] ps) in
    record {
      content = or_none (all_given given_text ps);
      reasoning_content = or_none (all_given given_reasoning ps);
      finish_reason = if is_empty calls then last_reason none ps else some "tool_calls";
      usage = last_usage none ps;
      tool_calls = calls;
    }

-- What one piece does to the call of an index.
unfoldable pub absorb : ℤ → Piece → Option PartialToolCall → Option PartialToolCall
absorb i p o = if mentions i p then some (whole i (p ∷ []) (or_blank o)) else o

first_of_assoc :
    (a b c : String) → first_of (first_of a b) c ≡ first_of a (if b == "" then c else b)
unfolding first_of
first_of_assoc a b c = ground (arith, eq_iff a "", eq_iff b "")

no_mention :
    (i : ℤ) (p : Piece)
    → mentions i p ≡ false
    → (given_id i p ≡ "") × (given_name i p ≡ "") × (given_arguments i p ≡ "")
unfolding mentions given_id given_name given_arguments
no_mention i (text_piece s) e = (refl, refl, refl)
no_mention i (reasoning_piece s) e = (refl, refl, refl)
no_mention i (finish_piece r) e = (refl, refl, refl)
no_mention i (usage_piece u) e = (refl, refl, refl)
no_mention i (call_piece j id name arguments) e = (rw e, rw e, rw e)

no_mentions :
    (i : ℤ) (ps : List Piece)
    → any (mentions i) ps ≡ false
    → (first_given (given_id i) ps ≡ "")
      × (first_given (given_name i) ps ≡ "")
      × (all_given (given_arguments i) ps ≡ "")
unfolding first_given all_given
no_mentions i [] e = (refl, refl, refl)
no_mentions i (p ∷ ps) e =
    let quiet : mentions i p ≡ false = ground arith in
    let (a, b, c) = no_mention i p quiet in
    let (x, y, z) = no_mentions i ps (ground arith) in
    (
      ground (arith, a, x, eq_iff (given_id i p) ""),
      ground (arith, b, y, eq_iff (given_name i p) ""),
      rw (c, z) refl,
    )

first_of_nothing : (s : String) → first_of s "" ≡ s
unfolding first_of
first_of_nothing s = ground (arith, eq_iff s "")

whole_quiet :
    (i : ℤ) (ps : List Piece) (q : PartialToolCall) → any (mentions i) ps ≡ false → whole i ps q ≡ q
unfolding whole
whole_quiet i ps q e =
    let (a, b, c) = no_mentions i ps e in simp (a, b, c, first_of_nothing, append-nil) (refl)

once :
    (g rest : String)
    → (if (if g == "" then "" else g) == "" then rest else (if g == "" then "" else g))
      ≡ (if g == "" then rest else g)
once g rest = ground (arith, eq_iff g "", eq_iff "" "")

-- Pieces one after the other are the pieces together.
whole-whole :
    (i : ℤ) (p : Piece) (ps : List Piece) (q : PartialToolCall)
    → whole i ps (whole i (p ∷ []) q) ≡ whole i (p ∷ ps) q
unfolding whole first_given all_given
whole-whole i p ps q = simp (first_of_assoc, append-nil, append_assoc, once) refl

whole_skips :
    (i : ℤ) (p : Piece) (ps : List Piece) (q : PartialToolCall)
    → mentions i p ≡ false
    → whole i (p ∷ ps) q ≡ whole i ps q
unfolding whole first_given all_given
whole_skips i p ps q e = let (a, b, c) = no_mention i p e in simp (a, b, c, nil-append) refl

pub absorb-assembled :
    (i : ℤ) (p : Piece) (ps : List Piece) (o : Option PartialToolCall)
    → assembled i ps (absorb i p o) ≡ assembled i (p ∷ ps) o
unfolding assembled absorb
absorb-assembled i p ps o = elim (Bool-cases (mentions i p)) [
  | inl here ↦ elim (Bool-cases (any (mentions i) ps)) [
    | inl more ↦ rw (here, more) (ap some (whole-whole i p ps (or_blank o)))
    | inr last ↦
        rw (here, last)
          (ap some (
            sym (whole_quiet i ps (whole i (p ∷ []) (or_blank o)) last)
            ∙ whole-whole i p ps (or_blank o)))
  ]
  | inr skip ↦ elim (Bool-cases (any (mentions i) ps)) [
    | inl more ↦ rw (skip, more) (ap some (sym (whole_skips i p ps (or_blank o) skip)))
    | inr last ↦ rw (skip, last) refl
  ]
]
