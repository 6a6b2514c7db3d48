-- ===== src/Tests/Events.antt =====
-- Two events and a sink that fails for each: one warning is added.
use proofcoder.Base.{String, Option, some, ◌≡◌, refl}
use proofcoder.Base.Text.{mem_text}
use proofcoder.Events.{Event, Emitter, new_emitter, emit, approval_request}
use proofcoder.Events.Numbered.{nothing_yet, one_more, IsNumbered, Emitted-IsNumbered}

abbrev broken : Event → Option String
broken event = some "EVENT_SINK_ERROR"

abbrev twice : Emitter
twice = emit broken 1 (approval_request "b") (emit broken 1 (approval_request "a") new_emitter)

three_events : (twice.sequence ≡ 3) × (twice.warning_count ≡ 1)
unfolding emit mem_text
three_events = (refl, refl)

Emitted-IsNumbered_example : IsNumbered twice
Emitted-IsNumbered_example =
    Emitted-IsNumbered {sink = broken}
      (one_more 1 (approval_request "b") (one_more 1 (approval_request "a") nothing_yet))
