-- ===== src/Events/Payload.antt =====
-- src/event_stream.cpp, Event::v8Object, and the call of emitEvent in src/region_event_registry.cpp:
-- what the JavaScript object of a region hears of an event.
mod Examples
use node_gemfire.Base.{ℕ, List, [], ◌∷◌, codes}
use node_gemfire.Conversions.Data.{
  V8Value, Cacheable, Platform, Out, object, end, field, ret, ◌>>=◌,
}
use node_gemfire.Conversions.ToV8.{v8_value}
use node_gemfire.Conversions.ToGemfire.{gemfire_value}
use node_gemfire.Events.Registry.{Emission, EventName, create, update, destroy}
use node_gemfire.Functions.Emitter.{JsEvent, emit_payload}

-- `apache::geode::client::EntryEvent`
pub record EntryEvent (D : Type 0) : Type 0 where
  pub key : Cacheable D
  pub old_value : Cacheable D
  pub new_value : Cacheable D

-- The names that the listener gives.
unfoldable pub event_text : EventName → List ℕ
event_text create = codes "create"
event_text update = codes "update"
event_text destroy = codes "destroy"

-- The names of the events in doc/region.md.
abbrev pub documented_name : EventName → List ℕ
documented_name create = b'c' ∷ b'r' ∷ b'e' ∷ b'a' ∷ b't' ∷ b'e' ∷ []
documented_name update = b'u' ∷ b'p' ∷ b'd' ∷ b'a' ∷ b't' ∷ b'e' ∷ []
documented_name destroy = b'd' ∷ b'e' ∷ b's' ∷ b't' ∷ b'r' ∷ b'o' ∷ b'y' ∷ []

module _ {D : Type 0} (P : Platform D) where
  unfoldable pub v8_event : EntryEvent D → Out (V8Value D)
  unfolding v8_value
  v8_event e = do
    key ← v8_value P e.key
    old_value ← v8_value P e.old_value
    new_value ← v8_value P e.new_value
    ret (
        object (
          field (codes "key") key
            (field (codes "oldValue") old_value (field (codes "newValue") new_value end))))

  -- `emitEvent(regionObject, event->getName().c_str(), eventPayload)`
  unfoldable pub js_emission : Emission (EntryEvent D) → JsEvent D
  unfolding event_text v8_event
  js_emission m = emit_payload (event_text m.event_name) (v8_event m.event_payload).value

  abbrev pub stored_entry : V8Value D → V8Value D → V8Value D → EntryEvent D
  stored_entry k old new = record {
    key = (gemfire_value P k).value;
    old_value = (gemfire_value P old).value;
    new_value = (gemfire_value P new).value;
  }
