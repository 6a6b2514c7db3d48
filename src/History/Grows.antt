-- ===== src/History/Grows.antt =====
-- The operations of MessageHistory keep the sequence legal, and the counter holds what is due.
use proofcoder.Base.{
  ℕ, ◌<◌, String, ◌≡◌, refl, sym, ap, subst, ◌∙◌, true, Option, none, some, List, [], ◌∷◌, ◌++◌,
  arith, is_empty,
}
use proofcoder.Base.Dict.{Dict}
use proofcoder.Base.Result.{ok}
use proofcoder.Json.{Json}
use proofcoder.Protocol.{AssistantMessage, Message, system, user, assistant, tool}
use proofcoder.History.{
  append, require_no_pending_results, MessageHistory, empty_history, last_message, count_of, update,
  decrement, add_system, add_user, add_assistant, add_tool, may_precede_user, may_precede_assistant,
  may_precede_tool,
}
use proofcoder.History.Counter.{
  IsCounter, count_of-update, count_of-decrement, update-IsCounter, decrement-IsCounter,
  nothing_counted,
}
use proofcoder.History.Legal.{
  Due, nothing_due, due_after, AllAnswered, MayFollow, IsLegal, due_in, last_from, due_from-snoc,
  LegalFrom-snoc,
}

pub record IsSound (h : MessageHistory) : Type 0 where
  pub legal : IsLegal h.messages
  pub counted : (id : String) → count_of id h.pending ≡ due_in h.messages id
  pub counter : IsCounter h.pending

last_message-last_from :
    (l : Option Message) (m : Message) (ms : List Message)
    → last_message (m ∷ ms) ≡ last_from l (m ∷ ms)
unfolding last_message
last_message-last_from l m [] = refl
last_message-last_from l m (n ∷ ms) = last_message-last_from (some m) n ms

last_message_lem : (ms : List Message) → last_message ms ≡ last_from none ms
last_message_lem [] = unfold last_message in refl
last_message_lem (m ∷ ms) = last_message-last_from none m ms

user-MayFollow :
    (l : Option Message) (due : Due) (c : String)
    → may_precede_user l ≡ true
    → AllAnswered due
    → MayFollow l due (user c)
unfolding may_precede_user
user-MayFollow none due c p a = absurd (ground arith)
user-MayFollow (some (system d)) due c p a = a
user-MayFollow (some (user d)) due c p a = absurd (ground arith)
user-MayFollow (some (assistant m)) due c p a = a
user-MayFollow (some (tool i d)) due c p a = a

assistant-MayFollow :
    (l : Option Message) (due : Due) (m : AssistantMessage)
    → may_precede_assistant l ≡ true
    → AllAnswered due
    → MayFollow l due (assistant m)
unfolding may_precede_assistant
assistant-MayFollow none due m p a = absurd (ground arith)
assistant-MayFollow (some (system d)) due m p a = absurd (ground arith)
assistant-MayFollow (some (user d)) due m p a = a
assistant-MayFollow (some (assistant n)) due m p a = absurd (ground arith)
assistant-MayFollow (some (tool i d)) due m p a = a

tool-MayFollow :
    (l : Option Message) (due : Due) (i c : String)
    → may_precede_tool l ≡ true
    → 0 < due i
    → MayFollow l due (tool i c)
unfolding may_precede_tool
tool-MayFollow none due i c p a = absurd (ground arith)
tool-MayFollow (some (system d)) due i c p a = absurd (ground arith)
tool-MayFollow (some (user d)) due i c p a = absurd (ground arith)
tool-MayFollow (some (assistant m)) due i c p a = a
tool-MayFollow (some (tool j d)) due i c p a = a

empty_list : (ms : List Message) → is_empty ms ≡ true → ms ≡ []
empty_list [] e = refl
empty_list (m ∷ ms) e = absurd (ground arith)

-- Appending a message that may follow keeps the sequence legal; what is due changes by it alone.
module _ (h : MessageHistory) (sound : IsSound h) where
  extended :
      (m : Message) (pending' : Dict ℕ)
      → MayFollow (last_message h.messages) (due_in h.messages) m
      → ((id : String) → count_of id pending' ≡ due_after (due_in h.messages) m id)
      → IsCounter pending'
      → IsSound (record { messages = h.messages ++ m ∷ []; pending = pending' })
  extended m pending' follows counted counter = record {
    legal =
        LegalFrom-snoc none nothing_due h.messages m sound.legal
          (rw (← last_message_lem h.messages) follows);
    counted =
        λ id. counted id ∙ sym (ap (λ (d : Due). d id) (due_from-snoc nothing_due h.messages m));
    counter = counter;
  }

  nothing_pending : is_empty h.pending ≡ true → AllAnswered (due_in h.messages)
  nothing_pending e id = sym (sound.counted id) ∙ nothing_counted h.pending e id

  add_system-IsSound : (c : String) {h' : MessageHistory} → add_system c h ≡ ok h' → IsSound h'
  unfolding add_system
  add_system-IsSound c {h'} done =
      let start : h.messages ≡ [] = empty_list h.messages (ground arith) in
      let facts : append h (system c) ≡ h' = ground arith in
      subst IsSound facts (
        extended (system c) h.pending (rw start (unfold last_message in tt)) sound.counted
          sound.counter)

  add_user-IsSound : (c : String) {h' : MessageHistory} → add_user c h ≡ ok h' → IsSound h'
  unfolding add_user
  add_user-IsSound c {h'} done =
      let facts : (may_precede_user (last_message h.messages) ≡ true)
          × (is_empty h.pending ≡ true)
          × (append h (user c) ≡ h') =
        ground arith in
      subst IsSound facts.2 (
        extended (user c) h.pending
          (user-MayFollow (last_message h.messages) _ c facts.0 (nothing_pending facts.1))
          sound.counted sound.counter)

  add_assistant-IsSound :
      (m : AssistantMessage) {h' : MessageHistory} → add_assistant m h ≡ ok h' → IsSound h'
  unfolding add_assistant
  add_assistant-IsSound m {h'} done =
      let facts : (may_precede_assistant (last_message h.messages) ≡ true)
          × (is_empty h.pending ≡ true)
          × ((record {
            messages = h.messages ++ assistant m ∷ [];
            pending = update m.tool_calls h.pending;
          })
              ≡ h') =
        ground arith in
      subst IsSound facts.2 (
        extended (assistant m) (update m.tool_calls h.pending)
          (assistant-MayFollow (last_message h.messages) _ m facts.0 (nothing_pending facts.1))
          (λ id. omega (arith, count_of-update m.tool_calls id h.pending, sound.counted id))
          (update-IsCounter m.tool_calls h.pending sound.counter))

  add_tool-IsSound :
      (loads : String → Option Json) (i c : String) {h' : MessageHistory}
      → add_tool loads i c h ≡ ok h'
      → IsSound h'
  unfolding add_tool
  add_tool-IsSound loads i c {h'} done =
      let facts : (0 < count_of i h.pending)
          × (may_precede_tool (last_message h.messages) ≡ true)
          × ((record { messages = h.messages ++ tool i c ∷ []; pending = decrement i h.pending })
              ≡ h') =
        ground arith in
      subst IsSound facts.2 (
        extended (tool i c) (decrement i h.pending)
          (tool-MayFollow (last_message h.messages) _ i c facts.1
            (omega (arith, facts.0, sound.counted i)))
          (λ id. ground (arith, count_of-decrement i id h.pending sound.counter, sound.counted id))
          (decrement-IsCounter i h.pending sound.counter))

-- One operation that succeeded.
pub data Adds (loads : String → Option Json) (h h' : MessageHistory) : Type 0 where
  system_added : (c : String) → add_system c h ≡ ok h' → Adds loads h h'
  user_added : (c : String) → add_user c h ≡ ok h' → Adds loads h h'
  assistant_added : (m : AssistantMessage) → add_assistant m h ≡ ok h' → Adds loads h h'
  tool_added : (i c : String) → add_tool loads i c h ≡ ok h' → Adds loads h h'

-- The histories that operations build from the empty one.
pub data Built (loads : String → Option Json) : MessageHistory → Type 0 where
  nothing_yet : Built loads empty_history
  grown : {h h' : MessageHistory} → Built loads h → Adds loads h h' → Built loads h'

Adds-IsSound :
    {loads : String → Option Json} {h h' : MessageHistory}
    → Adds loads h h'
    → IsSound h
    → IsSound h'
Adds-IsSound {loads} {h} (system_added c e) s = add_system-IsSound h s c e
Adds-IsSound {loads} {h} (user_added c e) s = add_user-IsSound h s c e
Adds-IsSound {loads} {h} (assistant_added m e) s = add_assistant-IsSound h s m e
Adds-IsSound {loads} {h} (tool_added i c e) s = add_tool-IsSound h s loads i c e

-- Every history that operations built from the empty one is a legal message sequence, and its counter
-- holds exactly the results that the sequence still waits for.
pub Built-IsSound : {loads : String → Option Json} {h : MessageHistory} → Built loads h → IsSound h
Built-IsSound nothing_yet = record {
  legal = tt;
  counted = λ id. unfold count_of in refl;
  counter = tt;
}
Built-IsSound (grown b a) = Adds-IsSound a (Built-IsSound b)

-- A built history without pending results, the only kind that to_api_messages serializes, answers
-- every call: no id is due.
pub complete-AllAnswered :
    {loads : String → Option Json} {h : MessageHistory}
    → Built loads h
    → require_no_pending_results h ≡ ok tt
    → AllAnswered (due_in h.messages)
unfolding require_no_pending_results
complete-AllAnswered {loads} {h} b done = nothing_pending h (Built-IsSound b) (ground arith)
