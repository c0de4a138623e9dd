-- ===== src/Functions/Emitter.antt =====
-- src/events.cpp, and the calls of it in src/functions.cpp: what the JavaScript emitter of a function
-- execution hears.
mod Examples
use mathlib.Core.List.{map-append}
use node_gemfire.Base.{
  ℕ, ◌≡◌, refl, sym, ap, ◌∙◌, Bool, true, List, [], ◌∷◌, ◌++◌, Option, none, some, map, codes,
  arith, if◌then◌else◌,
}
use node_gemfire.Conversions.Data.{V8Value, Cacheable, Exception, Platform}
use node_gemfire.Conversions.ToV8.{v8_value}
use node_gemfire.Conversions.Errors.{v8_error, is_native_error}
use node_gemfire.Functions.Stream.{returned}
use node_gemfire.Functions.Worker.{Emission, data_event, error_event, failure, end_event, emission}
use node_gemfire.Functions.System.{System, Reach}
use node_gemfire.Functions.Log.{emissions}
use node_gemfire.Functions.Safety.{deleted_after_all}

-- A call of `emit` of the emitter: the name of the event, and the payload if there is one.
pub record JsEvent (D : Type 0) : Type 0 where
  pub event_name : List ℕ
  pub payload : Option (V8Value D)

module _ {D : Type 0} where
  -- emitEvent without and with a payload, and emitError.
  abbrev pub emit_event : List ℕ → JsEvent D
  emit_event name = record { event_name = name; payload = none }

  abbrev pub emit_payload : List ℕ → V8Value D → JsEvent D
  emit_payload name v = record { event_name = name; payload = some v }

  unfoldable pub emit_error : V8Value D → JsEvent D
  emit_error v = emit_payload (codes "error") v

module _ {D : Type 0} (P : Platform D) where
  -- `v8Value(*iterator)->IsNativeError()`
  unfoldable pub is_error_result : Cacheable D → Bool
  unfolding v8_value
  is_error_result c = is_native_error (v8_value P c).value

  -- The calls in `Data`, `ExecuteComplete` and `End`.
  unfoldable pub js_event : Emission (Cacheable D) Exception → JsEvent D
  unfolding emit_error v8_error v8_value
  js_event (data_event c) = emit_payload (codes "data") (v8_value P c).value
  js_event (error_event c) = emit_error (v8_value P c).value
  js_event (failure e) = emit_error (v8_error P e)
  js_event end_event = emit_event (codes "end")

  -- What a result is heard as.
  unfoldable pub heard : Cacheable D → JsEvent D
  heard c =
      let v = (v8_value P c).value in
      emit_payload (if is_native_error v then codes "error" else codes "data") v

  js_event-emissions :
      (cs : List (Cacheable D)) → map js_event (emissions is_error_result cs) ≡ map heard cs
  unfolding js_event heard emission is_error_result
  js_event-emissions [] = refl
  js_event-emissions (c ∷ cs) = ground (arith, js_event-emissions cs)

  -- When the worker of an execution that returned is deleted, the emitter has heard every result that
  -- Geode added, in order, as an "error" event if it converts to an Error and as a "data" event
  -- otherwise, and then "end", and nothing else.
  pub emitter_hears :
      {s : System (Cacheable D) Exception}
      → Reach is_error_result s
      → s.worker.deleted ≡ true
      → s.phase ≡ returned
      → map js_event s.worker.emitted ≡ map heard s.added ++ emit_event (codes "end") ∷ []
  unfolding js_event
  emitter_hears {s} r d p =
      ap (map js_event) (deleted_after_all r d p)
      ∙ map-append js_event (emissions is_error_result s.added) (end_event ∷ [])
      ∙ ap (λ l. l ++ emit_event (codes "end") ∷ []) (js_event-emissions s.added)
