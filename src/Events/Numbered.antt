-- ===== src/Events/Numbered.antt =====
-- EventEmitter: events are numbered from 1 without a gap, and warnings are counted.
use proofcoder.Base.{
  ℕ, String, suc, ◌+◌, Option, none, some, List, [], ◌∷◌, ◌++◌, ◌≡◌, refl, arith, length,
  if◌then◌else◌, inl, inr, Bool-cases,
}
use proofcoder.Base.Text.{mem_text}
use proofcoder.Events.{
  Payload, warning, Event, Emitter, new_emitter, is_warning, new_event, record_sink_error, emit,
  emit_interrupted,
}

-- The numbers n, n + 1, ... in this order.
pub AreNumbered : ℕ → List Event → Type 0
AreNumbered n [] = Unit
AreNumbered n (event ∷ events) = (event.sequence ≡ n) × AreNumbered (suc n) events

unfoldable pub warnings_in : List Event → ℕ
unfolding is_warning
warnings_in [] = 0
warnings_in (event ∷ events) =
    let more = warnings_in events in if is_warning event.payload then suc more else more

pub record IsNumbered (e : Emitter) : Type 0 where
  pub numbers : AreNumbered 1 e.delivered
  pub last : length e.delivered ≡ e.sequence
  pub warnings : warnings_in e.delivered ≡ e.warning_count

-- What comes from new_emitter by emit, interrupted or not.
pub data Emitted (sink : Event → Option String) : Emitter → Type 0 where
  nothing_yet : Emitted sink new_emitter
  one_more :
      {e : Emitter} (step : ℕ) (payload : Payload)
      → Emitted sink e
      → Emitted sink (emit sink step payload e)
  one_interrupted :
      {e : Emitter} (step : ℕ) (payload : Payload)
      → Emitted sink e
      → Emitted sink (emit_interrupted step payload e)

AreNumbered-snoc :
    (n : ℕ) (events : List Event) (event : Event)
    → AreNumbered n events
    → event.sequence ≡ n + length events
    → AreNumbered n (events ++ event ∷ [])
unfolding AreNumbered
AreNumbered-snoc n [] event a e = (omega (arith, e), tt)
AreNumbered-snoc n (first ∷ events) event a e =
    (a.0, AreNumbered-snoc (suc n) events event a.1 (omega (arith, e)))

length-snoc :
    (events : List Event) (event : Event) → length (events ++ event ∷ []) ≡ suc (length events)
length-snoc [] event = refl
length-snoc (first ∷ events) event = omega (arith, length-snoc events event)

warnings_in-snoc :
    (events : List Event) (event : Event)
    → warnings_in (events ++ event ∷ [])
      ≡ (if is_warning event.payload then warnings_in events + 1 else warnings_in events)
unfolding warnings_in
warnings_in-snoc [] event = ground arith
warnings_in-snoc (first ∷ events) event = ground (arith, warnings_in-snoc events event)

new_event-IsNumbered :
    (step : ℕ) (payload : Payload) (e : Emitter)
    → IsNumbered e
    → IsNumbered (new_event step payload e)
unfolding new_event
new_event-IsNumbered step payload e h = record {
  numbers = AreNumbered-snoc 1 e.delivered _ h.numbers (omega (arith, h.last));
  last = omega (
    arith,
    length-snoc e.delivered (record { sequence = e.sequence + 1; step = step; payload = payload }),
    h.last,
  );
  warnings = ground (
    arith,
    warnings_in-snoc e.delivered
        (record { sequence = e.sequence + 1; step = step; payload = payload }),
    h.warnings,
  );
}

record_sink_error-IsNumbered :
    (step : ℕ) (code : Option String) (e : Emitter)
    → IsNumbered e
    → IsNumbered (record_sink_error step code e)
unfolding record_sink_error
record_sink_error-IsNumbered step none e h = h
record_sink_error-IsNumbered step (some code) e h =
    elim (Bool-cases (mem_text code e.sink_error_codes)) [
      | inl known ↦ rw (known, record_sink_error) h
      | inr fresh ↦
          rw (fresh, record_sink_error)
            (new_event-IsNumbered step (warning code) _
              (record { numbers = h.numbers; last = h.last; warnings = h.warnings }))
    ]

-- Whatever the sink does, and whether it is interrupted or not, the events of a run are numbered 1, 2, ... in the order of their delivery,
-- the sequence is their number, and the warning count is the number of warnings among them.
pub Emitted-IsNumbered :
    {sink : Event → Option String} {e : Emitter} → Emitted sink e → IsNumbered e
unfolding emit emit_interrupted
Emitted-IsNumbered nothing_yet = record {
  numbers = unfold AreNumbered in tt;
  last = refl;
  warnings = unfold warnings_in in refl;
}
Emitted-IsNumbered {sink} (one_more {e} step payload before) =
    record_sink_error-IsNumbered step _ _
      (new_event-IsNumbered step payload e (Emitted-IsNumbered before))
Emitted-IsNumbered {sink} (one_interrupted {e} step payload before) =
    new_event-IsNumbered step payload e (Emitted-IsNumbered before)
