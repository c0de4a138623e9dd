-- ===== src/Functions/Worker.antt =====
-- src/functions.cpp, class ExecuteFunctionWorker, with src/streaming_result_collector.cpp: the part
-- that runs on the event loop. `V` stands for Geode's results, `E` for its exceptions, and
-- `is_error v` for `v8Value(v)->IsNativeError()`.
use node_gemfire.Base.{
  Bool, true, false, ◌&&◌, List, [], ◌∷◌, ◌++◌, Option, none, some, if◌then◌else◌,
}
use node_gemfire.Functions.Stream.{ResultStream, add}

-- What the emitter is told: `emitEvent` and `emitError`.
pub data Emission (V E : Type 0) : Type 0 where
  data_event : V → Emission V E
  error_event : V → Emission V E
  failure : E → Emission V E
  end_event : Emission V E

pub record Worker (V E : Type 0) : Type 0 where
  pub stream : ResultStream V
  pub exception : Option E
  pub ended : Bool
  pub execute_completed : Bool
  pub deleted : Bool  -- `delete this` has run
  pub emitted : List (Emission V E)

module _ {V E : Type 0} where
  -- The constructor, before any result.
  unfoldable pub new_worker : Worker V E
  new_worker = record {
    stream = record { results = []; results_async = false; end_async = false };
    exception = none;
    ended = false;
    execute_completed = false;
    deleted = false;
    emitted = [];
  }

  unfoldable pub teardown_if_ready : Worker V E → Worker V E
  teardown_if_ready w = if w.ended && w.execute_completed then record w { deleted = true } else w

  -- `StreamingResultCollector::addResult`
  unfoldable pub add_result : V → Worker V E → Worker V E
  unfolding add
  add_result v w = record w { stream = add v w.stream }

  -- `End`
  unfoldable pub end : Worker V E → Worker V E
  unfolding teardown_if_ready
  end w = teardown_if_ready (record w { emitted = w.emitted ++ end_event ∷ []; ended = true })

  -- The error branch of `ExecuteComplete`.
  unfoldable pub report_exception : Option E → Worker V E → Worker V E
  report_exception none w = w
  report_exception (some e) w = record w { emitted = w.emitted ++ failure e ∷ []; ended = true }

  unfoldable pub execute_complete : Worker V E → Worker V E
  unfolding report_exception teardown_if_ready
  execute_complete w =
      teardown_if_ready (record (report_exception w.exception w) { execute_completed = true })

  module _ (is_error : V → Bool) where
    unfoldable pub emission : V → Emission V E
    emission v = if is_error v then error_event v else data_event v

    -- The loop of `Data` over one batch.
    unfoldable pub emit_results : List V → List (Emission V E) → List (Emission V E)
    unfolding emission
    emit_results [] log = log
    emit_results (v ∷ vs) log = emit_results vs (log ++ emission v ∷ [])
