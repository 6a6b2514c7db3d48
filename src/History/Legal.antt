-- ===== src/History/Legal.antt =====
-- What a legal message sequence is, said without the history's counter: the system message comes
-- first and only there, user and assistant turns wait until every call has its result, and a tool
-- message answers a call that still waits.
use proofcoder.Base.{
  ℕ, suc, ◌+◌, ◌-◌, ◌<◌, String, ◌≡◌, refl, Option, none, some, List, [], ◌∷◌, ◌++◌, if◌then◌else◌,
  ◌==◌,
}
use proofcoder.Protocol.{ToolCall, Message, system, user, assistant, tool}

-- How many results each id waits for.
abbrev pub Due : Type 0
Due = String → ℕ

abbrev pub nothing_due : Due
nothing_due id = 0

abbrev pub calls_of : String → List ToolCall → ℕ
calls_of id [] = 0
calls_of id (c ∷ cs) = if c.id == id then suc (calls_of id cs) else calls_of id cs

abbrev pub due_after : Due → Message → Due
due_after due (system c) id = due id
due_after due (user c) id = due id
due_after due (assistant m) id = due id + calls_of id m.tool_calls
due_after due (tool i c) id = if i == id then due id - 1 else due id

abbrev pub AllAnswered : Due → Type 0
AllAnswered due = (id : String) → due id ≡ 0

abbrev pub MayFollow : Option Message → Due → Message → Type 0
MayFollow none due (system c) = Unit
MayFollow none due _ = ⊥
MayFollow (some l) due (system c) = ⊥
MayFollow (some (user d)) due (user c) = ⊥
MayFollow (some l) due (user c) = AllAnswered due
MayFollow (some (user d)) due (assistant m) = AllAnswered due
MayFollow (some (tool i d)) due (assistant m) = AllAnswered due
MayFollow (some l) due (assistant m) = ⊥
MayFollow (some (assistant m)) due (tool i c) = 0 < due i
MayFollow (some (tool j d)) due (tool i c) = 0 < due i
MayFollow (some l) due (tool i c) = ⊥

abbrev pub LegalFrom : Option Message → Due → List Message → Type 0
LegalFrom last due [] = Unit
LegalFrom last due (m ∷ ms) = MayFollow last due m × LegalFrom (some m) (due_after due m) ms

abbrev pub IsLegal : List Message → Type 0
IsLegal ms = LegalFrom none nothing_due ms

abbrev pub due_from : Due → List Message → Due
due_from due [] = due
due_from due (m ∷ ms) = due_from (due_after due m) ms

-- The results that a message sequence still waits for.
abbrev pub due_in : List Message → Due
due_in ms = due_from nothing_due ms

abbrev pub last_from : Option Message → List Message → Option Message
last_from last [] = last
last_from last (m ∷ ms) = last_from (some m) ms

pub due_from-snoc :
    (due : Due) (ms : List Message) (m : Message)
    → due_from due (ms ++ m ∷ []) ≡ due_after (due_from due ms) m
due_from-snoc due [] m = refl
due_from-snoc due (x ∷ ms) m = due_from-snoc (due_after due x) ms m

pub LegalFrom-snoc :
    (last : Option Message) (due : Due) (ms : List Message) (m : Message)
    → LegalFrom last due ms
    → MayFollow (last_from last ms) (due_from due ms) m
    → LegalFrom last due (ms ++ m ∷ [])
LegalFrom-snoc last due [] m h f = (f, tt)
LegalFrom-snoc last due (x ∷ ms) m h f = (h.0, LegalFrom-snoc (some x) (due_after due x) ms m h.1 f)
