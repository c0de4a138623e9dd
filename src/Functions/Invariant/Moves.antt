-- ===== src/Functions/Invariant/Moves.antt =====
-- Every step of the system in Functions/System.antt keeps each invariant.
use mathlib.Core.List.{map-append}
use node_gemfire.Base.{Bool, [], ◌∷◌, ◌++◌, append-nil, append_assoc, arith}
use node_gemfire.Functions.Stream.{push_result, send_results, send_end, end_turn, results_processed}
use node_gemfire.Functions.Worker.{end_event, new_worker, end, execute_complete, emission}
use node_gemfire.Functions.System.{
  System, take_batch, start, Step, adds, sends, enters_end, tests, wakes, announces, returns, fails,
  fails_late, takes, emits, signals, ends, completes,
}
use node_gemfire.Functions.Log.{
  payloads, told, emissions, payloads-append, told-append, has_end-append, has_failure-append,
  report_exception_log, emit_results_lem, payloads-emissions, told-emissions, has_end-emissions,
  has_failure-emissions, copy_results_lem, failures, failures-append, failures-emissions,
}
use node_gemfire.Functions.Invariant.Defs.{Delivery, Signals, Teardown, held}

module _ {V E : Type 0} where
  pub start-Signals : Signals (start {V = V} {E = E})
  unfolding new_worker
  start-Signals = ground arith

  pub start-Teardown : Teardown (start {V = V} {E = E})
  unfolding new_worker
  start-Teardown = ground arith

  pub start-Delivery : (is_error : V → Bool) → Delivery is_error (start {V = V} {E = E})
  unfolding new_worker
  start-Delivery is_error = ground arith

module _ {V E : Type 0} {is_error : V → Bool} where
  pub Step-Signals :
      {s t : System V E}
      → Step is_error s t
      → Signals s
      → Teardown s
      → Delivery is_error s
      → Signals t
  unfolding push_result send_results send_end end_turn results_processed take_batch end
      execute_complete
  Step-Signals (adds v p) i d k = ground arith
  Step-Signals (sends n p) i d k = ground arith
  Step-Signals (enters_end p q) i d k = ground arith
  Step-Signals (tests p) i d k = ground arith
  Step-Signals (wakes p) i d k = ground arith
  Step-Signals (announces p) i d k = ground arith
  Step-Signals (returns p) i d k = ground arith
  Step-Signals (fails e p q) i d k = ground arith
  Step-Signals (fails_late e p) i d k = ground arith
  Step-Signals (takes p q r) i d k = ground arith
  Step-Signals {s} (emits b p) i d k = ground (
    arith,
    emit_results_lem {E = E} is_error b s.worker.emitted,
    has_end-append s.worker.emitted (emissions is_error b),
    has_end-emissions E is_error b,
  )
  Step-Signals (signals p) i d k = ground arith
  Step-Signals {s} (ends p q r) i d k =
      ground (arith, has_end-append s.worker.emitted (end_event ∷ []))
  Step-Signals {s} (completes p q r) i d k =
      ground (arith, report_exception_log s.worker.exception s.worker)

  pub Step-Teardown : {s t : System V E} → Step is_error s t → Signals s → Teardown s → Teardown t
  unfolding push_result send_results send_end end_turn results_processed take_batch end
      execute_complete
  Step-Teardown (adds v p) i d = ground arith
  Step-Teardown (sends n p) i d = ground arith
  Step-Teardown (enters_end p q) i d = ground arith
  Step-Teardown {s} (tests p) i d = ground (arith)
  Step-Teardown (wakes p) i d = ground arith
  Step-Teardown (announces p) i d = ground arith
  Step-Teardown (returns p) i d = ground arith
  Step-Teardown (fails e p q) i d = ground arith
  Step-Teardown (fails_late e p) i d = ground arith
  Step-Teardown (takes p q r) i d = ground arith
  Step-Teardown {s} (emits b p) i d = ground (
    arith,
    emit_results_lem {E = E} is_error b s.worker.emitted,
    has_end-append s.worker.emitted (emissions is_error b),
    has_end-emissions E is_error b,
    has_failure-append s.worker.emitted (emissions is_error b),
    has_failure-emissions E is_error b,
    failures-append s.worker.emitted (emissions is_error b),
    failures-emissions E is_error b,
    append-nil (failures s.worker.emitted),
  )
  Step-Teardown (signals p) i d = ground arith
  Step-Teardown {s} (ends p q r) i d = ground (
    arith,
    has_end-append s.worker.emitted (end_event ∷ []),
    has_failure-append s.worker.emitted (end_event ∷ []),
    failures-append s.worker.emitted (end_event ∷ []),
    append-nil (failures s.worker.emitted),
  )
  Step-Teardown {s} (completes p q r) i d =
      ground (arith, report_exception_log s.worker.exception s.worker)

  pub Step-Delivery :
      {s t : System V E}
      → Step is_error s t
      → Signals s
      → Teardown s
      → Delivery is_error s
      → Delivery is_error t
  unfolding push_result send_results send_end end_turn results_processed take_batch end
      execute_complete
  Step-Delivery {s} (adds v p) i d k = ground (
    arith,
    append_assoc (held s.loop) s.worker.stream.results (v ∷ []),
    append_assoc (payloads s.worker.emitted) (held s.loop ++ s.worker.stream.results) (v ∷ []),
  )
  Step-Delivery (sends n p) i d k = ground arith
  Step-Delivery (enters_end p q) i d k = ground arith
  Step-Delivery {s} (tests p) i d k = ground arith
  Step-Delivery (wakes p) i d k = ground arith
  Step-Delivery (announces p) i d k = ground arith
  Step-Delivery (returns p) i d k = ground arith
  Step-Delivery (fails e p q) i d k = ground arith
  Step-Delivery (fails_late e p) i d k = ground arith
  Step-Delivery {s} (takes p q r) i d k =
      ground
        (arith, copy_results_lem [] s.worker.stream.results, append-nil s.worker.stream.results)
  Step-Delivery {s} (emits b p) i d k = ground (
    arith,
    emit_results_lem {E = E} is_error b s.worker.emitted,
    payloads-append s.worker.emitted (emissions is_error b),
    told-append s.worker.emitted (emissions is_error b),
    has_end-append s.worker.emitted (emissions is_error b),
    payloads-emissions E is_error b,
    told-emissions {E = E} is_error b,
    has_end-emissions E is_error b,
    append_assoc (payloads s.worker.emitted) b s.worker.stream.results,
    append-nil (payloads s.worker.emitted),
    append-nil (told s.worker.emitted),
    append-nil (emissions {E = E} is_error (payloads s.worker.emitted)),
    append-nil (emissions {E = E} is_error (payloads s.worker.emitted ++ b)),
    map-append (emission {E = E} is_error) (payloads s.worker.emitted) b,
  )
  Step-Delivery (signals p) i d k = ground arith
  Step-Delivery {s} (ends p q r) i d k = ground (
    arith,
    payloads-append s.worker.emitted (end_event ∷ []),
    told-append s.worker.emitted (end_event ∷ []),
    has_end-append s.worker.emitted (end_event ∷ []),
    append-nil (payloads s.worker.emitted),
    append-nil (emissions {E = E} is_error (payloads s.worker.emitted)),
  )
  Step-Delivery {s} (completes p q r) i d k =
      ground (arith, report_exception_log s.worker.exception s.worker)
