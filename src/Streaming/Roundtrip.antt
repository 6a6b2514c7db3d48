-- ===== src/Streaming/Roundtrip.antt =====
-- llm/streaming.py: the assembler, fed with the pieces of a response.
use mathlib.Core.List.{append-nil, append_assoc}
use text.Mathlib.TextLemmas.{nil-append}
use text.Mathlib.TextLemmas
use proofcoder.Base.{
  ℕ, suc, ◌+◌, ◌≤◌, ◌<◌, String, ◌⁀◌, ◌≡◌, refl, subst, ◌∙◌, ap, Bool, true, false, Option, none,
  some, List, [], ◌∷◌, ◌++◌, if◌then◌else◌, ◌==◌, ltb, leb, length, length-append, is_empty, arith,
  All, eq_iff, inl, inr, Bool-cases,
}
use proofcoder.Base.Int.{ℤ, pos, eqb_ℤ_iff}
use proofcoder.Base.Result.{ok, ◌>>=◌}
use proofcoder.Base.Text.{text_length}
use proofcoder.Json.{Json}
use proofcoder.Protocol.{TokenUsage}
use proofcoder.Streaming.{
  PartialToolCall, Calls, StreamAssembler, new_assembler, find, Piece, usage_piece, finish_piece,
  call_piece, add_reasoning, set_usage, set_finish_reason, add_piece, feed, add_text,
  add_tool_call_fragment, begin, extend, or_none, or_braces, join, id_of, call_of,
  checked_arguments, build_call, build_calls, finish, continue_call, changes, first_of,
  max_stream_tool_calls, max_tool_argument_characters, max_stream_text_characters,
}
use proofcoder.Streaming.Cut.{
  Cut, IsSendable, text_pieces, reasoning_pieces, fragments, call_pieces, calls_of, IsGiven,
  partial, stored, numbers, IsFresh, text_length-append, put-absent, find-append, IsFresh-append,
  with_calls, with_last, extend_lem, is_empty_lem, pieces_of, opened,
}

module _ (reports : Bool) (loads : String → Option Json) (show_int : ℤ → String) where
  fragment_lem :
      (before : Calls) (i : ℤ) (p : PartialToolCall) (old f : String) (a : StreamAssembler)
      → find i before ≡ none
      → text_length (old ⁀ f) ≤ max_tool_argument_characters
      → add_piece reports (call_piece i none none (some f)) (with_last before i p old a)
        ≡ ok (with_last before i p (old ⁀ f) a)
  unfolding add_piece add_tool_call_fragment continue_call changes first_of find
  fragment_lem before i p old f a fresh short =
      let found : find i (before ++ (i, record p { arguments = old }) ∷ [])
          ≡ some (record p { arguments = old }) =
        find-append i before ((i, record p { arguments = old }) ∷ []) fresh
        ∙ rw ((eqb_ℤ_iff i i).1 refl) refl in
      let id : (if p.call_id == "" then "" else p.call_id) ≡ p.call_id =
        ground (arith, eq_iff p.call_id "") in
      let name : (if p.name == "" then "" else p.name) ≡ p.name =
        ground (arith, eq_iff p.name "") in
      let appended = extend_lem before i p old f a fresh short in
      ground (arith, found, id, name, appended)

  feed_fragments_lem :
      (before : Calls) (i : ℤ) (p : PartialToolCall) (fs : List String) (old : String)
      (a : StreamAssembler) (rest : List Piece)
      → find i before ≡ none
      → text_length (old ⁀ join fs) ≤ max_tool_argument_characters
      → feed reports (fragments i fs rest) (with_last before i p old a)
        ≡ feed reports rest (with_last before i p (old ⁀ join fs) a)
  unfolding feed join
  feed_fragments_lem before i p [] old a rest fresh short = rw (TextLemmas.append-nil old) refl
  feed_fragments_lem before i p (f ∷ fs) old a rest fresh short =
      let same : (old ⁀ f) ⁀ join fs ≡ old ⁀ (f ⁀ join fs) =
        TextLemmas.append_assoc old f (join fs) in
      let small : text_length (old ⁀ f) ≤ max_tool_argument_characters =
        omega (arith, short, ap text_length same, text_length-append (old ⁀ f) (join fs)) in
      rw (fragment_lem before i p old f a fresh small) (
        feed_fragments_lem before i p fs (old ⁀ f) a rest fresh (rw same short)
        ∙ ap (λ s. feed reports rest (with_last before i p s a)) same)

  first_lem :
      (n : ℕ) (c : Cut) (a : StreamAssembler)
      → IsFresh n a.calls
      → text_length c.first ≤ max_tool_argument_characters
      → length a.calls < max_stream_tool_calls
      → add_piece reports
          (call_piece (pos n) (some c.call.id) (some c.call.function.name) (some c.first))
          a
        ≡ ok (
            with_last a.calls
              (pos n)
              (partial c.call)
              c.first
              (record a { order = a.order ++ pos n ∷ [] }))
  unfolding add_piece add_tool_call_fragment begin extend text_length
  first_lem n c a fresh short few =
      let none_yet = fresh n (omega arith) in
      let room : leb max_stream_tool_calls (length a.calls) ≡ false = ground (arith, few) in
      let fits : ltb max_tool_argument_characters (0 + text_length c.first) ≡ false =
        ground (arith, short) in
      let p : PartialToolCall = record {
        call_id = c.call.id;
        name = c.call.function.name;
        arguments = "";
      } in
      let opened : StreamAssembler = record a {
        saw_fragment = true;
        order = a.order ++ pos n ∷ [];
      } in
      let extended : extend (pos n) p c.first opened
          ≡ ok (with_last a.calls (pos n) (partial c.call) c.first opened) =
        elim (Bool-cases (c.first == "")) [
          | inl nothing ↦
              rw (nothing, (eq_iff c.first "").0 nothing, put-absent (pos n) p a.calls none_yet)
                refl
          | inr something ↦
              rw
                (
                  something,
                  fits,
                  nil-append c.first,
                  put-absent (pos n) (record p { arguments = c.first }) a.calls none_yet,
                )
                refl
        ] in
      ground (arith, none_yet, room, extended)

  feed_calls_lem :
      (n : ℕ) (cs : List Cut) (a : StreamAssembler) (rest : List Piece)
      → All (IsSendable loads) cs
      → IsFresh n a.calls
      → length a.calls + length cs ≤ max_stream_tool_calls
      → a.saw_fragment ≡ true
      → feed reports (call_pieces n cs rest) a ≡ feed reports rest (with_calls n cs a)
  unfolding feed
  feed_calls_lem n [] a rest s fresh few saw = rw (append-nil a.calls, append-nil a.order, saw) refl
  feed_calls_lem n (c ∷ cs) a rest s fresh few saw =
      let opened : StreamAssembler = record a { order = a.order ++ pos n ∷ [] } in
      let length_whole = text_length-append c.first (join c.more) in
      let joined = ap text_length s.0.whole in
      let first =
        first_lem n c a fresh (omega (arith, s.0.short, joined, length_whole))
          (omega (arith, few)) in
      let further =
        feed_fragments_lem a.calls (pos n) (partial c.call) c.more c.first opened
          (call_pieces (suc n) cs rest) (fresh n (omega arith))
          (omega (arith, s.0.short, joined)) in
      let others =
        feed_calls_lem (suc n) cs (with_calls n (c ∷ []) a) rest s.1
          (IsFresh-append n (partial c.call) a.calls fresh)
          (omega (arith, few, length-append a.calls ((pos n, partial c.call) ∷ []))) refl in
      rw first (
        further
        ∙ ap
            (λ t.
              feed reports (call_pieces (suc n) cs rest)
                (with_last a.calls (pos n) (partial c.call) t opened))
            s.0.whole
        ∙ others
        ∙ simp append_assoc refl)

  built_lem :
      (n : ℕ) (cs : List Cut) (before : Calls)
      → All (IsSendable loads) cs
      → IsFresh n before
      → build_calls loads show_int (numbers n cs) (before ++ stored n cs) ≡ ok (calls_of cs)
  unfolding build_calls build_call checked_arguments call_of id_of or_braces find
  built_lem n [] before s fresh = refl
  built_lem n (c ∷ cs) before s fresh =
      let found : find (pos n) (before ++ stored n (c ∷ cs)) ≡ some (partial c.call) =
        find-append (pos n) before (stored n (c ∷ cs)) (fresh n (omega arith)) ∙ ground arith in
      let rest : build_calls loads show_int (numbers (suc n) cs) (before ++ stored n (c ∷ cs))
          ≡ ok (calls_of cs) =
        subst (λ calls. build_calls loads show_int (numbers (suc n) cs) calls ≡ ok (calls_of cs))
          (append_assoc before ((pos n, partial c.call) ∷ []) (stored (suc n) cs))
          (built_lem (suc n) cs (before ++ (pos n, partial c.call) ∷ []) s.1
            (IsFresh-append n (partial c.call) before fresh)) in
      let made : build_call loads show_int (pos n) (some (partial c.call)) ≡ ok c.call =
        rw (s.0.has_name, s.0.has_arguments, s.0.loaded, s.0.has_id, ← s.0.is_function) refl in
      ground (arith, found, made, rest)

  -- An assembler that also has this text.
  abbrev with_texts : List String → StreamAssembler → StreamAssembler
  with_texts ts a = record a {
    text = a.text ++ ts;
    text_length = a.text_length + text_length (join ts);
    reported = if reports then a.reported ++ ts else a.reported;
  }

  reported_lem :
      (told : List String) (t : String) (ts : List String)
      → (if reports
          then (if reports then told ++ t ∷ [] else told) ++ ts
          else (if reports then told ++ t ∷ [] else told))
        ≡ (if reports then told ++ t ∷ ts else told)
  reported_lem told t ts = elim (Bool-cases reports) [
    | inl shown ↦ rw shown (append_assoc told (t ∷ []) ts)
    | inr quiet ↦ rw quiet refl
  ]

  feed_texts_lem :
      (ts : List String) (a : StreamAssembler) (rest : List Piece)
      → All IsGiven ts
      → a.text_length + text_length (join ts) ≤ max_stream_text_characters
      → a.saw_fragment ≡ true
      → feed reports (text_pieces ts rest) a ≡ feed reports rest (with_texts ts a)
  unfolding feed join add_piece add_text text_length
  feed_texts_lem [] a rest given short saw =
      let same : (if reports then a.reported ++ [] else a.reported) ≡ a.reported =
        ground (arith, append-nil a.reported) in
      rw (append-nil a.text, same)
        (ap (λ n. feed reports rest (record a { text_length = n })) (omega arith))
  feed_texts_lem (t ∷ ts) a rest given short saw =
      let total = text_length-append t (join ts) in
      let room : ltb max_stream_text_characters (a.text_length + text_length t) ≡ false =
        ground (arith, short, total) in
      let told = if reports then a.reported ++ t ∷ [] else a.reported in
      let next : StreamAssembler = record a {
        saw_fragment = true;
        text_length = a.text_length + text_length t;
        text = a.text ++ t ∷ [];
        reported = told;
      } in
      let count : a.text_length + text_length t + text_length (join ts)
          ≡ a.text_length + text_length (t ⁀ join ts) =
        omega (arith, total) in
      rw (given.0, room)
        (feed_texts_lem ts next rest given.1 (omega (arith, short, total)) refl
          ∙ rw (count, append_assoc a.text (t ∷ []) ts, reported_lem a.reported t ts, saw) refl)

  feed_reasoning_lem :
      (ts : List String) (a : StreamAssembler) (rest : List Piece)
      → All IsGiven ts
      → a.saw_fragment ≡ true
      → feed reports (reasoning_pieces ts rest) a
        ≡ feed reports rest (record a { reasoning = a.reasoning ++ ts })
  unfolding feed add_piece add_reasoning
  feed_reasoning_lem [] a rest given saw = rw (append-nil a.reasoning) refl
  feed_reasoning_lem (t ∷ ts) a rest given saw = rw given.0 (
      feed_reasoning_lem ts (record a { saw_fragment = true; reasoning = a.reasoning ++ t ∷ [] })
        rest given.1 refl
      ∙ rw (append_assoc a.reasoning (t ∷ []) ts, saw) refl)

  -- A response whose reasoning and text come in non-empty pieces, the reasoning in at least one, and
  -- whose at most 64 sendable calls come in fragments, a first one with the id, the name and some
  -- arguments and then others with further arguments, is put together again when the pieces are fed
  -- and finished: reasoning, text and each call's arguments are the pieces joined, and the usage is the
  -- one given; the finish reason is the one given, or "tool_calls" where there are calls.
  pub finish-feed :
      (r : String) (rs ts : List String) (cs : List Cut) (reason : String) (u : TokenUsage)
      → IsGiven r
      → All IsGiven rs
      → All IsGiven ts
      → IsGiven reason
      → text_length (join ts) ≤ max_stream_text_characters
      → All (IsSendable loads) cs
      → length cs ≤ max_stream_tool_calls
      → (feed reports (pieces_of r rs ts cs reason u) new_assembler >>= finish loads show_int)
        ≡ ok (record {
          content = or_none (join ts);
          reasoning_content = or_none (r ⁀ join rs);
          finish_reason = if is_empty cs then some reason else some "tool_calls";
          usage = some u;
          tool_calls = calls_of cs;
        })
  unfolding feed add_piece add_reasoning set_usage set_finish_reason finish join find
  finish-feed r rs ts cs reason u given givens texts reasoned short s few =
      let a1 : StreamAssembler = record (opened r) { reasoning = r ∷ rs } in
      let a2 = with_texts ts a1 in
      let closing = finish_piece (some reason) ∷ usage_piece (some u) ∷ [] in
      let fed : feed reports (pieces_of r rs ts cs reason u) new_assembler
          ≡ feed reports closing (with_calls 0 cs a2) =
        rw given (
          feed_reasoning_lem rs (opened r) _ givens refl
          ∙ feed_texts_lem ts a1 _ texts (omega (arith, short)) refl
          ∙ feed_calls_lem 0 cs a2 closing s (λ i le. refl) (omega (arith, few)) refl) in
      let built : build_calls loads show_int (numbers 0 cs) (stored 0 cs) ≡ ok (calls_of cs) =
        built_lem 0 cs [] s (λ i le. refl) in
      let empty : is_empty (calls_of cs) ≡ is_empty cs = is_empty_lem cs in
      rw fed (rw (reasoned, built, empty) refl)
