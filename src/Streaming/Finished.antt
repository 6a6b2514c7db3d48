-- ===== src/Streaming/Finished.antt =====
-- StreamAssembler.finish, after any pieces.
use proofcoder.Base.{
  String, ◌≡◌, ◌≢◌, refl, sym, ◌∙◌, ap, subst, Bool, true, false, Option, none, some, is_some, List,
  [], ◌∷◌, if◌then◌else◌, ◌==◌, is_empty, map, arith, inl, inr, All, Option-cases,
}
use text.Mathlib.TextLemmas.{nil-append}
use proofcoder.Base.Int.{ℤ, eqb_ℤ_iff}
use proofcoder.Base.Result.{ok, err, Result-cases}
use proofcoder.Json.{Json, null, bool, int, real, str, arr, obj, Fields}
use proofcoder.Protocol.{ToolCall, AssistantMessage}
use proofcoder.Streaming.{
  StreamAssembler, new_assembler, key_error, Calls, Piece, PartialToolCall, find, feed, join,
  or_none, or_braces, call_of, checked_arguments, build_call, build_calls, finish,
}
use proofcoder.Streaming.Reference.{
  all_given, given_text, whole, blank, assembled, indices, reference, mem_ℤ,
}
use proofcoder.Streaming.Assembled.{IsOrdered, feed-Feeds}
use proofcoder.Streaming.Response.{told, feed-Says}

object_of :
    (value : Option Json) → checked_arguments value ≡ ok tt → (d : Fields) × (value ≡ some (obj d))
unfolding checked_arguments
object_of none e = absurd (ground arith)
object_of (some null) e = absurd (ground arith)
object_of (some (bool b)) e = absurd (ground arith)
object_of (some (int n)) e = absurd (ground arith)
object_of (some (real t)) e = absurd (ground arith)
object_of (some (str t)) e = absurd (ground arith)
object_of (some (arr xs)) e = absurd (ground arith)
object_of (some (obj d)) e = (d, refl)

checked-ne-key_error : (value : Option Json) → checked_arguments value ≢ err key_error
unfolding checked_arguments
checked-ne-key_error none e = cc
checked-ne-key_error (some null) e = cc
checked-ne-key_error (some (bool b)) e = cc
checked-ne-key_error (some (int n)) e = cc
checked-ne-key_error (some (real t)) e = cc
checked-ne-key_error (some (str t)) e = cc
checked-ne-key_error (some (arr xs)) e = cc
checked-ne-key_error (some (obj d)) e = cc

module _ (loads : String → Option Json) (show_int : ℤ → String) where
  -- A call that names a function, and whose arguments are a JSON object.
  pub record IsReady (call : ToolCall) : Type 0 where
    pub named : (call.function.name == "") ≡ false
    pub arguments : Fields
    pub decoded : loads call.function.arguments ≡ some (obj arguments)

  build_call_lem :
      (i : ℤ) (o : Option PartialToolCall) {call : ToolCall}
      → build_call loads show_int i o ≡ ok call
      → (p : PartialToolCall) × (o ≡ some p) × (call ≡ call_of show_int i p) × IsReady call
  unfolding build_call call_of
  build_call_lem i none e = absurd (ground arith)
  build_call_lem i (some p) {call} e =
      let facts : ((p.name == "") ≡ false)
          × (checked_arguments (loads (or_braces p.arguments)) ≡ ok tt)
          × (call_of show_int i p ≡ call) =
        ground arith in
      let (d, decoded) = object_of (loads (or_braces p.arguments)) facts.1 in
      (
        p,
        refl,
        sym facts.2,
        subst IsReady facts.2 (record { named = facts.0; arguments = d; decoded = decoded }),
      )

  build_calls_lem :
      (order : List ℤ) (calls : Calls) (q : ℤ → PartialToolCall) {built : List ToolCall}
      → ((i : ℤ) (p : PartialToolCall) → find i calls ≡ some p → p ≡ q i)
      → build_calls loads show_int order calls ≡ ok built
      → (built ≡ map (λ i. call_of show_int i (q i)) order) × All IsReady built
  unfolding build_calls
  build_calls_lem [] calls q {built} same e =
      let nothing : [] ≡ built = ground arith in (sym nothing, subst (All IsReady) nothing tt)
  build_calls_lem (i ∷ order) calls q {built} same e =
      elim (Result-cases (build_call loads show_int i (find i calls))) [
        | inr (x, failed) ↦ absurd (ground arith)
        | inl (call, done) ↦ elim (Result-cases (build_calls loads show_int order calls)) [
          | inr (x, failed) ↦ absurd (ground arith)
          | inl (rest, more) ↦
              let (p, found, made, ready) = build_call_lem i (find i calls) done in
              let (equal, all_ready) = build_calls_lem order calls q same more in
              let whole_list : call ∷ rest ≡ built = ground arith in
              let made_so : call ≡ call_of show_int i (q i) =
                made ∙ ap (call_of show_int i) (same i p found) in
              (
                sym whole_list ∙ cc (made_so, equal),
                subst (All IsReady) whole_list (ready, all_ready),
              )
        ]
      ]

  build_call-ne-key_error :
      (i : ℤ) (p : PartialToolCall) → build_call loads show_int i (some p) ≢ err key_error
  unfolding build_call
  build_call-ne-key_error i p e =
      ground (arith, checked-ne-key_error (loads (or_braces p.arguments)))

  build_calls-ne-key_error :
      (order : List ℤ) (calls : Calls)
      → All (λ i. is_some (find i calls) ≡ true) order
      → build_calls loads show_int order calls ≢ err key_error
  unfolding build_calls
  build_calls-ne-key_error [] calls found e = cc
  build_calls-ne-key_error (i ∷ order) calls found e = elim (Option-cases (find i calls)) [
    | inl missing ↦ ground (arith, found.0)
    | inr (p, here) ↦
        ground (arith, build_call-ne-key_error i p, build_calls-ne-key_error order calls found.1)
  ]

  -- the indices of a list are in it
  All-in :
      (js : List ℤ) (calls : Calls) (order : List ℤ)
      → ((i : ℤ) → mem_ℤ i js ≡ true → mem_ℤ i order ≡ true)
      → ((i : ℤ) → is_some (find i calls) ≡ mem_ℤ i order)
      → All (λ i. is_some (find i calls) ≡ true) js
  All-in [] calls order sub o = tt
  All-in (j ∷ js) calls order sub o = (
    o j ∙ sub j (ground (arith, (eqb_ℤ_iff j j).1 refl)),
    All-in js calls order (λ i m. sub i (ground arith)) o,
  )

  new-IsOrdered : IsOrdered new_assembler
  unfolding IsOrdered find
  new-IsOrdered i = refl

  -- Whatever pieces an assembler accepts, `finish` finds a call for each index of the order: the
  -- lookup never fails.
  pub finish-ne-key_error :
      (reports : Bool) (ps : List Piece) {a : StreamAssembler}
      → feed reports ps new_assembler ≡ ok a
      → finish loads show_int a ≢ err key_error
  unfolding finish IsOrdered
  finish-ne-key_error reports ps {a} fed e =
      let fed_so = feed-Feeds reports ps new_assembler {b = a} fed in
      let found = All-in a.order a.calls a.order (λ i m. m) (fed_so.ordered new-IsOrdered) in
      ground (arith, build_calls-ne-key_error a.order a.calls found)

  whole_of :
      (i : ℤ) (ps : List Piece) (p : PartialToolCall)
      → some p ≡ assembled i ps (find i [])
      → p ≡ whole i ps blank
  unfolding assembled find
  whole_of i ps p e = ground arith

  response_of : StreamAssembler → List ToolCall → AssistantMessage
  response_of a calls = record {
    content = or_none (join a.text);
    reasoning_content = or_none (join a.reasoning);
    finish_reason = if is_empty calls then a.finish_reason else some "tool_calls";
    usage = a.usage;
    tool_calls = calls;
  }

  -- What `finish` makes of accepted pieces is the response that the pieces say: each index has one call,
  -- in the order of first mention, with the first id and name that its pieces give and all their
  -- arguments in order, so it does not matter how the pieces of different calls are interleaved or how
  -- finely texts are cut. Each call names a function and its arguments are a JSON object, and the text
  -- callback, if there is one, was given exactly the visible text.
  pub finish-reference :
      (reports : Bool) (ps : List Piece) {a : StreamAssembler} {m : AssistantMessage}
      → feed reports ps new_assembler ≡ ok a
      → finish loads show_int a ≡ ok m
      → (m ≡ reference show_int ps)
        × All IsReady m.tool_calls
        × (join a.reported ≡ told reports (all_given given_text ps))
  unfolding finish reference response_of join
  finish-reference reports ps {a} {m} fed e =
      let fed_so = feed-Feeds reports ps new_assembler {b = a} fed in
      let says = feed-Says reports ps new_assembler {b = a} fed in
      let same : (i : ℤ) (p : PartialToolCall) → find i a.calls ≡ some p → p ≡ whole i ps blank =
        λ i p found. whole_of i ps p (sym found ∙ fed_so.each i) in
      let order : a.order ≡ indices [] ps = fed_so.order new-IsOrdered in
      elim (Result-cases (build_calls loads show_int a.order a.calls)) [
        | inr (x, failed) ↦ absurd (ground arith)
        | inl (built, done) ↦
            let (equal, ready) =
              build_calls_lem a.order a.calls (λ i. whole i ps blank) same done in
            let made : response_of a built ≡ m = ground arith in
            (
              sym made
                  ∙ rw (says.text, says.reasoning, says.reason, says.usage, equal, order)
                      (simp nil-append refl),
              subst (λ (n : AssistantMessage). All IsReady n.tool_calls) made ready,
              says.reported ∙ nil-append _,
            )
      ]
