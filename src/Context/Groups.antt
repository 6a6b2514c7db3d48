-- ===== src/Context/Groups.antt =====
-- context.py, _interaction_groups: an assistant message and what follows it up to the next one.
use proofcoder.Base.{
  ◌≡◌, refl, sym, ap, subst, ◌∙◌, ◌⊎◌, Bool, true, false, List, [], ◌∷◌, ◌++◌, if◌then◌else◌,
  is_empty, All, All-append, inl, inr, Bool-cases,
}
use proofcoder.Protocol.{Message, assistant}
use mathlib.Core.List.{append-nil, append_assoc}

pub is_assistant : Message → Bool
is_assistant (assistant m) = true
is_assistant _ = false

close : List (List Message) → List Message → List (List Message)
close groups [] = groups
close groups (m ∷ ms) = groups ++ (m ∷ ms) ∷ []

-- the loop, with the groups so far and the current group
group_loop : List (List Message) → List Message → List Message → List (List Message)
unfolding close is_assistant
group_loop groups current [] = close groups current
group_loop groups current (message ∷ rest) =
    let (groups', current') =
      if is_assistant message
      then (close groups current, message ∷ [])
      else if is_empty current
      then (groups ++ (message ∷ []) ∷ [], [])
      else (groups, current ++ message ∷ []) in
    group_loop groups' current' rest

unfoldable pub interaction_groups : List Message → List (List Message)
unfolding group_loop
interaction_groups messages = group_loop [] [] messages

abbrev pub concat : List (List Message) → List Message
concat [] = []
concat (g ∷ gs) = g ++ concat gs

concat-append : (gs hs : List (List Message)) → concat (gs ++ hs) ≡ concat gs ++ concat hs
concat-append [] hs = refl
concat-append (g ∷ gs) hs =
    ap (λ t. g ++ t) (concat-append gs hs) ∙ sym (append_assoc g (concat gs) (concat hs))

concat-snoc : (gs : List (List Message)) (g : List Message) → concat (gs ++ g ∷ []) ≡ concat gs ++ g
concat-snoc gs g = concat-append gs (g ∷ []) ∙ ap (λ t. concat gs ++ t) (append-nil g)

concat-close : (gs : List (List Message)) (c : List Message) → concat (close gs c) ≡ concat gs ++ c
unfolding close
concat-close gs [] = sym (append-nil (concat gs))
concat-close gs (m ∷ ms) = concat-snoc gs (m ∷ ms)

abbrev pub NoAssistant : List Message → Type 0
NoAssistant ms = All (λ m. is_assistant m ≡ false) ms

-- A group that starts with its only assistant message.
abbrev pub IsTurn : List Message → Type 0
IsTurn [] = ⊥
IsTurn (m ∷ ms) = (is_assistant m ≡ true) × NoAssistant ms

-- Single messages that are no assistant messages, then turns only.
abbrev pub SinglesThenTurns : List (List Message) → Type 0
SinglesThenTurns [] = Unit
SinglesThenTurns ([] ∷ gs) = ⊥
SinglesThenTurns ((m ∷ ms) ∷ gs) =
    ((is_assistant m ≡ false) × (ms ≡ []) × SinglesThenTurns gs) ⊎ All IsTurn ((m ∷ ms) ∷ gs)

concat-group_loop :
    (gs : List (List Message)) (c ms : List Message)
    → concat (group_loop gs c ms) ≡ concat gs ++ (c ++ ms)
unfolding group_loop
concat-group_loop gs c [] = concat-close gs c ∙ ap (λ t. concat gs ++ t) (sym (append-nil c))
concat-group_loop gs [] (m ∷ ms) = elim (Bool-cases (is_assistant m)) [
  | inl starts ↦
      rw starts (concat-group_loop (close gs []) (m ∷ []) ms ∙ rw (concat-close, append-nil))
  | inr goes ↦
      rw goes (concat-group_loop (gs ++ (m ∷ []) ∷ []) [] ms ∙ simp (concat-snoc, append_assoc))
]
concat-group_loop gs (x ∷ xs) (m ∷ ms) = elim (Bool-cases (is_assistant m)) [
  | inl starts ↦
      rw starts
        (concat-group_loop (close gs (x ∷ xs)) (m ∷ []) ms ∙ simp (concat-close, append_assoc))
  | inr goes ↦ rw goes (concat-group_loop gs (x ∷ (xs ++ m ∷ [])) ms ∙ simp append_assoc)
]

extend-IsTurn :
    (x : Message) (xs : List Message) (m : Message)
    → IsTurn (x ∷ xs)
    → is_assistant m ≡ false
    → IsTurn (x ∷ (xs ++ m ∷ []))
extend-IsTurn x xs m o e = (o.0, All-append (λ m. is_assistant m ≡ false) xs (m ∷ []) o.1 (e, tt))

-- From an open turn on, only turns are added.
group_loop-IsTurn :
    (gs : List (List Message)) (x : Message) (xs ms : List Message)
    → IsTurn (x ∷ xs)
    → (added : List (List Message)) × (group_loop gs (x ∷ xs) ms ≡ gs ++ added) × All IsTurn added
unfolding group_loop
group_loop-IsTurn gs x xs [] o = ((x ∷ xs) ∷ [], refl, (o, tt))
group_loop-IsTurn gs x xs (m ∷ ms) o = elim (Bool-cases (is_assistant m)) [
  | inl starts ↦
      let (added, e, t) = group_loop-IsTurn (gs ++ (x ∷ xs) ∷ []) m [] ms (starts, tt) in
      rw starts ((x ∷ xs) ∷ added, e ∙ append_assoc gs ((x ∷ xs) ∷ []) added, (o, t))
  | inr goes ↦ rw goes (group_loop-IsTurn gs x (xs ++ m ∷ []) ms (extend-IsTurn x xs m o goes))
]

turns-SinglesThenTurns : (gs : List (List Message)) → All IsTurn gs → SinglesThenTurns gs
turns-SinglesThenTurns [] t = tt
turns-SinglesThenTurns ([] ∷ gs) t = absurd t.0
turns-SinglesThenTurns ((m ∷ ms) ∷ gs) t = inr t

single_loop :
    (gs : List (List Message)) (ms : List Message)
    → (added : List (List Message)) × (group_loop gs [] ms ≡ gs ++ added) × SinglesThenTurns added
unfolding group_loop close
single_loop gs [] = ([], sym (append-nil gs), tt)
single_loop gs (m ∷ ms) = elim (Bool-cases (is_assistant m)) [
  | inl starts ↦
      let (added, e, t) = group_loop-IsTurn gs m [] ms (starts, tt) in
      rw starts (added, e, turns-SinglesThenTurns added t)
  | inr goes ↦
      let (added, e, t) = single_loop (gs ++ (m ∷ []) ∷ []) ms in
      rw goes ((m ∷ []) ∷ added, e ∙ append_assoc gs ((m ∷ []) ∷ []) added, inl (goes, refl, t))
]

-- The groups of any messages give back the messages in order. Before the first assistant message
-- each message is a group of its own; from there on each group is one assistant message with all
-- that follows it up to the next. So no group boundary stands between an assistant message and the
-- results of its calls.
pub interaction_groups_lem :
    (ms : List Message)
    → (concat (interaction_groups ms) ≡ ms) × SinglesThenTurns (interaction_groups ms)
unfolding interaction_groups
interaction_groups_lem ms =
    let (added, e, t) = single_loop [] ms in
    (concat-group_loop [] [] ms, subst SinglesThenTurns (sym e) t)
