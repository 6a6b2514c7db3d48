-- ===== src/History/Answers.antt =====
-- MessageHistory takes the results of a batch: one JSON object for each call, in call order.
use proofcoder.Base.{
  ℕ, ◌<◌, String, ◌≡◌, refl, subst, true, Option, some, List, [], ◌∷◌, ◌++◌, arith, eq_refl,
  is_empty,
}
use proofcoder.Base.Dict.{Dict}
use proofcoder.Base.Result.{Result, ok, ◌>>=◌}
use proofcoder.Json.{Json, obj, Fields}
use proofcoder.Protocol.{ToolCall, AssistantMessage, Message, assistant, tool}
use proofcoder.History.{
  MessageHistory, last_message, count_of, update, decrement, may_precede_tool,
  require_no_pending_results, add_assistant, add_tool,
}
use proofcoder.History.Counter.{
  IsCounter, count_of-update, count_of-decrement, update-IsCounter, decrement-IsCounter,
  is_empty_of_counts,
}
use proofcoder.History.Legal.{calls_of}

empty_dict : (d : Dict ℕ) → is_empty d ≡ true → d ≡ []
empty_dict [] e = refl
empty_dict (x ∷ d) e = absurd (ground arith)

counts_only : (cs : List ToolCall) (id : String) → count_of id (update cs []) ≡ calls_of id cs
unfolding count_of
counts_only cs id = omega (arith, count_of-update cs id [])

abbrev accepted_message : AssistantMessage → MessageHistory → MessageHistory
accepted_message m h = record {
  messages = h.messages ++ assistant m ∷ [];
  pending = update m.tool_calls h.pending;
}

module _ (loads : String → Option Json) where
  -- history.add_tool(call.id, content) for each call with its content
  unfoldable pub add_results :
      List (ToolCall × String) → MessageHistory → Result String MessageHistory
  add_results [] h = ok h
  add_results ((call, content) ∷ rest) h = add_tool loads call.id content h >>= add_results rest

  abbrev pub AllObjects : List (ToolCall × String) → Type 0
  AllObjects [] = Unit
  AllObjects ((call, content) ∷ rest) =
      ((d : Fields) × (loads content ≡ some (obj d))) × AllObjects rest

  abbrev pub calls_in : List (ToolCall × String) → List ToolCall
  calls_in [] = []
  calls_in ((call, content) ∷ rest) = call ∷ calls_in rest

  last_message-snoc : (ms : List Message) (m : Message) → last_message (ms ++ m ∷ []) ≡ some m
  unfolding last_message
  last_message-snoc [] m = refl
  last_message-snoc (n ∷ []) m = refl
  last_message-snoc (n ∷ k ∷ ms) m = last_message-snoc (k ∷ ms) m

  abbrev answered : ToolCall → String → MessageHistory → MessageHistory
  answered call content h = record {
    messages = h.messages ++ tool call.id content ∷ [];
    pending = decrement call.id h.pending;
  }

  add_tool-answered :
      (call : ToolCall) (content : String) (d : Fields) (h : MessageHistory)
      → 0 < count_of call.id h.pending
      → may_precede_tool (last_message h.messages) ≡ true
      → loads content ≡ some (obj d)
      → add_tool loads call.id content h ≡ ok (answered call content h)
  unfolding add_tool
  add_tool-answered call content d h p q r = ground arith

  add_results_complete :
      (results : List (ToolCall × String)) (h : MessageHistory)
      → AllObjects results
      → IsCounter h.pending
      → ((id : String) → count_of id h.pending ≡ calls_of id (calls_in results))
      → may_precede_tool (last_message h.messages) ≡ true
      → (h' : MessageHistory) × (add_results results h ≡ ok h')
        × (is_empty h'.pending ≡ true)
        × (may_precede_tool (last_message h'.messages) ≡ true)
  unfolding add_results
  add_results_complete [] h o c e q = (h, refl, is_empty_of_counts h.pending c e, q)
  add_results_complete ((call, content) ∷ rest) h o c e q =
      let waits : 0 < count_of call.id h.pending = ground (arith, e call.id, eq_refl call.id) in
      rw (add_tool-answered call content o.0.0 h waits q o.0.1) (
        add_results_complete rest (answered call content h) o.1
          (decrement-IsCounter call.id h.pending c)
          (λ id. ground (arith, e id, count_of-decrement call.id id h.pending c))
          (unfold may_precede_tool in rw last_message-snoc refl))

  -- After an assistant message that the history accepts, one JSON object for each of its calls, in
  -- their order, is accepted too (also where two calls share an id), and then nothing is pending.
  pub assistant_then_results :
      (m : AssistantMessage) (results : List (ToolCall × String)) (h h1 : MessageHistory)
      → add_assistant m h ≡ ok h1
      → calls_in results ≡ m.tool_calls
      → AllObjects results
      → (h' : MessageHistory) × (add_results results h1 ≡ ok h')
        × (require_no_pending_results h' ≡ ok tt)
  assistant_then_results m results h h1 done same objects =
      let facts : (is_empty h.pending ≡ true) × (accepted_message m h ≡ h1) =
        unfold add_assistant in ground arith in
      subst Completes facts.1 (
        let none_yet : h.pending ≡ [] = empty_dict h.pending facts.0 in
        let (h', r, e, q) =
          add_results_complete results (accepted_message m h) objects
            (update-IsCounter m.tool_calls h.pending (rw none_yet tt))
            (λ id. rw (none_yet, same) (counts_only m.tool_calls id))
            (unfold may_precede_tool in rw last_message-snoc refl) in
        (h', r, unfold require_no_pending_results in rw e))
    where
      Completes : MessageHistory → Type 0
      Completes k =
          (h' : MessageHistory) × (add_results results k ≡ ok h')
          × (require_no_pending_results h' ≡ ok tt)
