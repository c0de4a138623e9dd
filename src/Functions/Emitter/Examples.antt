-- ===== src/Functions/Emitter/Examples.antt =====
-- A run of a function execution with one result, and what the emitter hears.
use node_gemfire.Base.{◌≡◌, refl, ℤ, pos, [], ◌∷◌, map, codes}
use node_gemfire.Conversions.Data.{Cacheable, Exception, cacheable_double, number}
use node_gemfire.Conversions.Examples.{plain}
use node_gemfire.Conversions.ToV8.{v8_value}
use node_gemfire.Functions.Stream.{end_turn, results_processed, push_result, send_results, send_end}
use node_gemfire.Functions.Worker.{new_worker, end, execute_complete, emit_results}
use node_gemfire.Functions.System.{
  System, Step, adds, sends, enters_end, tests, announces, returns, takes, emits, signals, ends,
  completes, Reach, begin, then_step, take_batch,
}
use node_gemfire.Functions.Emitter.{
  is_error_result, js_event, heard, emit_event, emit_payload, emitter_hears,
}

record Run : Type 0 where
  last : System (Cacheable ℤ) Exception
  reach : Reach (is_error_result plain) last

infixl 20 ◌▸◌
abbrev ◌▸◌ :
    {s t : System (Cacheable ℤ) Exception}
    → Reach (is_error_result plain) s
    → Step (is_error_result plain) s t
    → Reach (is_error_result plain) t
r ▸ st = then_step r st

abbrev result : Cacheable ℤ
result = cacheable_double (pos 4)

abbrev answered : Run
unfolding new_worker push_result send_results send_end end_turn results_processed take_batch end
    execute_complete emit_results is_error_result
answered = record {
  last = _;
  reach =
      begin
      ▸ adds result refl
      ▸ sends 0 refl
      ▸ takes refl refl refl
      ▸ emits _ refl
      ▸ signals refl
      ▸ enters_end refl refl
      ▸ tests refl
      ▸ announces refl
      ▸ returns refl
      ▸ completes refl refl refl
      ▸ ends refl refl refl;
}

heard_number : heard plain result ≡ emit_payload (codes "data") (number (pos 4))
unfolding heard v8_value
heard_number = refl

emitter_hears_example :
    map (js_event plain) answered.last.worker.emitted
    ≡ heard plain result ∷ emit_event (codes "end") ∷ []
unfolding answered
emitter_hears_example = emitter_hears plain answered.reach refl refl
