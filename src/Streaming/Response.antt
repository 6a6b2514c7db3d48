-- ===== src/Streaming/Response.antt =====
-- llm/streaming.py: the response of an assembler, and its pieces.
use text.Mathlib.TextLemmas.{nil-append, append-nil, append_assoc}
use proofcoder.Base.{
  String, ◌⁀◌, ◌≡◌, refl, sym, ◌∙◌, ap, subst, Bool, true, false, Option, none, some, List, [], ◌∷◌,
  ◌++◌, if◌then◌else◌, ◌==◌, arith, eq_iff, inl, inr, Bool-cases, Option-cases,
}
use proofcoder.Base.Int.{ℤ}
use proofcoder.Base.Result.{ok, Result-cases}
use proofcoder.Protocol.{TokenUsage}
use proofcoder.Streaming.{
  StreamAssembler, Piece, text_piece, reasoning_piece, finish_piece, usage_piece, call_piece,
  or_empty, find, add_tool_call_fragment, add_text, add_reasoning, set_finish_reason, set_usage,
  add_piece, feed, join,
}
use proofcoder.Streaming.Reference.{all_given, given_text, given_reasoning, last_reason, last_usage}
use proofcoder.Streaming.Assembled.{begin_lem, continue_lem}

join-snoc : (ss : List String) (s : String) → join (ss ++ s ∷ []) ≡ join ss ⁀ s
unfolding join
join-snoc [] s = append-nil s ∙ sym (nil-append s)
join-snoc (t ∷ ss) s = ap (λ u. t ⁀ u) (join-snoc ss s) ∙ sym (append_assoc t (join ss) s)

-- a list of texts with one more, unless that is empty
join_add :
    (ss : List String) (s : String)
    → join (if s == "" then ss else ss ++ s ∷ []) ≡ join ss ⁀ (s ⁀ "")
join_add ss s = elim (Bool-cases (s == "")) [
  | inl nothing ↦
      let empty : s ≡ "" = (eq_iff s "").0 nothing in
      rw (nothing, empty) (sym (append-nil (join ss)))
  | inr more ↦ rw (more, append-nil) (join-snoc ss s)
]

-- The text that the callback was given, if there is one.
abbrev pub told : Bool → String → String
told true s = s
told false s = ""

-- All but the calls of an assembler after pieces.
pub record Says (reports : Bool) (a : StreamAssembler) (ps : List Piece) (b : StreamAssembler)
    : Type 0 where
  pub text : join b.text ≡ join a.text ⁀ all_given given_text ps
  pub reasoning : join b.reasoning ≡ join a.reasoning ⁀ all_given given_reasoning ps
  pub reason : b.finish_reason ≡ last_reason a.finish_reason ps
  pub usage : b.usage ≡ last_usage a.usage ps
  pub reported : join b.reported ≡ join a.reported ⁀ told reports (all_given given_text ps)

-- one more text, none of which is new
still : {xs ys : List String} → xs ≡ ys → join xs ≡ join ys ⁀ ""
still {ys} e = ap join e ∙ sym (append-nil (join ys))

other_fields :
    {b c : StreamAssembler}
    → b ≡ c
    → (b.text ≡ c.text)
      × (b.reasoning ≡ c.reasoning)
      × (b.finish_reason ≡ c.finish_reason)
      × (b.usage ≡ c.usage)
      × (b.reported ≡ c.reported)
other_fields e = (
  ap (λ (x : StreamAssembler). x.text) e,
  ap (λ (x : StreamAssembler). x.reasoning) e,
  ap (λ (x : StreamAssembler). x.finish_reason) e,
  ap (λ (x : StreamAssembler). x.usage) e,
  ap (λ (x : StreamAssembler). x.reported) e,
)

fragment_keeps :
    (j : ℤ) (id name arguments : Option String) (a : StreamAssembler) {b : StreamAssembler}
    → add_tool_call_fragment j id name arguments a ≡ ok b
    → (b.text ≡ a.text)
      × (b.reasoning ≡ a.reasoning)
      × (b.finish_reason ≡ a.finish_reason)
      × (b.usage ≡ a.usage)
      × (b.reported ≡ a.reported)
unfolding add_tool_call_fragment
fragment_keeps j id name arguments a {b} e = elim (Option-cases (find j a.calls)) [
  | inl fresh ↦ other_fields (
      begin_lem j (or_empty id) (or_empty name) (or_empty arguments)
        (record a { saw_fragment = true }) {b = b} (ground arith))
  | inr (p, old) ↦
      other_fields
        (continue_lem j (or_empty id) (or_empty name) (or_empty arguments) p
          (record a { saw_fragment = true }) {b = b} (ground arith)).0
]

told-nothing : (reports : Bool) → told reports "" ≡ ""
told-nothing true = refl
told-nothing false = refl

told-append :
    (reports : Bool) (s t : String) → told reports (s ⁀ t) ≡ told reports s ⁀ told reports t
told-append true s t = refl
told-append false s t = refl

piece-Says :
    (reports : Bool) (p : Piece) (a : StreamAssembler) {b : StreamAssembler}
    → add_piece reports p a ≡ ok b
    → Says reports a (p ∷ []) b
unfolding add_piece all_given given_text given_reasoning last_reason last_usage add_text
    add_reasoning set_finish_reason set_usage
piece-Says true (text_piece s) a {b} e =
    let facts : (b.text ≡ (if s == "" then a.text else a.text ++ s ∷ []))
        × (b.reasoning ≡ a.reasoning)
        × (b.finish_reason ≡ a.finish_reason)
        × (b.usage ≡ a.usage)
        × (b.reported ≡ (if s == "" then a.reported else a.reported ++ s ∷ [])) =
      ground arith in
    record {
      text = ap join facts.0 ∙ join_add a.text s;
      reasoning = still facts.1;
      reason = facts.2;
      usage = facts.3;
      reported = ap join facts.4 ∙ join_add a.reported s;
    }
piece-Says false (text_piece s) a {b} e =
    let facts : (b.text ≡ (if s == "" then a.text else a.text ++ s ∷ []))
        × (b.reasoning ≡ a.reasoning)
        × (b.finish_reason ≡ a.finish_reason)
        × (b.usage ≡ a.usage)
        × (b.reported ≡ a.reported) =
      ground arith in
    record {
      text = ap join facts.0 ∙ join_add a.text s;
      reasoning = still facts.1;
      reason = facts.2;
      usage = facts.3;
      reported = still facts.4;
    }
piece-Says reports (reasoning_piece s) a {b} e =
    let facts : (b.text ≡ a.text)
        × (b.reasoning ≡ (if s == "" then a.reasoning else a.reasoning ++ s ∷ []))
        × (b.finish_reason ≡ a.finish_reason)
        × (b.usage ≡ a.usage)
        × (b.reported ≡ a.reported) =
      ground arith in
    record {
      text = still facts.0;
      reasoning = ap join facts.1 ∙ join_add a.reasoning s;
      reason = facts.2;
      usage = facts.3;
      reported = rw (told-nothing reports) (still facts.4);
    }
piece-Says reports (finish_piece r) a {b} e =
    let facts : (b.text ≡ a.text)
        × (b.reasoning ≡ a.reasoning)
        × (b.finish_reason ≡ (if or_empty r == "" then a.finish_reason else r))
        × (b.usage ≡ a.usage)
        × (b.reported ≡ a.reported) =
      ground arith in
    record {
      text = still facts.0;
      reasoning = still facts.1;
      reason = facts.2;
      usage = facts.3;
      reported = rw (told-nothing reports) (still facts.4);
    }
piece-Says reports (usage_piece u) a {b} e =
    let facts : (b.text ≡ a.text)
        × (b.reasoning ≡ a.reasoning)
        × (b.finish_reason ≡ a.finish_reason)
        × (b.usage ≡ last_usage a.usage (usage_piece u ∷ []))
        × (b.reported ≡ a.reported) =
      ground arith in
    record {
      text = still facts.0;
      reasoning = still facts.1;
      reason = facts.2;
      usage = facts.3;
      reported = rw (told-nothing reports) (still facts.4);
    }
piece-Says reports (call_piece j id name arguments) a {b} e =
    let (text, reasoning, reason, usage, reported) = fragment_keeps j id name arguments a e in
    record {
      text = still text;
      reasoning = still reasoning;
      reason = reason;
      usage = usage;
      reported = rw (told-nothing reports) (still reported);
    }

last_reason-cons :
    (r : Option String) (p : Piece) (ps : List Piece)
    → last_reason (last_reason r (p ∷ [])) ps ≡ last_reason r (p ∷ ps)
unfolding last_reason
last_reason-cons r (text_piece s) ps = refl
last_reason-cons r (reasoning_piece s) ps = refl
last_reason-cons r (finish_piece s) ps = refl
last_reason-cons r (usage_piece u) ps = refl
last_reason-cons r (call_piece j id name arguments) ps = refl

last_usage-cons :
    (u : Option TokenUsage) (p : Piece) (ps : List Piece)
    → last_usage (last_usage u (p ∷ [])) ps ≡ last_usage u (p ∷ ps)
unfolding last_usage
last_usage-cons u (text_piece s) ps = refl
last_usage-cons u (reasoning_piece s) ps = refl
last_usage-cons u (finish_piece s) ps = refl
last_usage-cons u (usage_piece none) ps = refl
last_usage-cons u (usage_piece (some v)) ps = refl
last_usage-cons u (call_piece j id name arguments) ps = refl

pub feed-Says :
    (reports : Bool) (ps : List Piece) (a : StreamAssembler) {b : StreamAssembler}
    → feed reports ps a ≡ ok b
    → Says reports a ps b
unfolding feed all_given last_reason last_usage
feed-Says reports [] a {b} e =
    let same : a ≡ b = ground arith in
    subst (Says reports a []) same (record {
      text = sym (append-nil (join a.text));
      reasoning = sym (append-nil (join a.reasoning));
      reason = refl;
      usage = refl;
      reported = rw (told-nothing reports) (sym (append-nil (join a.reported)));
    })
feed-Says reports (p ∷ ps) a {b} e = elim (Result-cases (add_piece reports p a)) [
  | inl (m, done) ↦
      let first = piece-Says reports p a done in
      let rest = feed-Says reports ps m {b = b} (ground arith) in
      record {
        text = rest.text ∙ rw first.text (simp (append_assoc, append-nil) refl);
        reasoning = rest.reasoning ∙ rw first.reasoning (simp (append_assoc, append-nil) refl);
        reason = rest.reason ∙ rw first.reason (last_reason-cons a.finish_reason p ps);
        usage = rest.usage ∙ rw first.usage (last_usage-cons a.usage p ps);
        reported =
            rest.reported ∙ rw first.reported (simp (append_assoc, append-nil, told-append) refl);
      }
  | inr (x, failed) ↦ absurd (ground arith)
]
