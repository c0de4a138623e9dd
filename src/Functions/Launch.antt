-- ===== src/Functions/Launch.antt =====
-- src/functions.cpp: the start of `Execute`, which prepares the execution, and what follows when Geode
-- throws there.
mod Examples
use node_gemfire.Base.{
  ◌≡◌, refl, ap, ◌∙◌, Bool, true, false, List, [], ◌∷◌, ◌++◌, none, some, inl, map, arith,
}
use node_gemfire.Conversions.Data.{Cacheable, Exception}
use node_gemfire.Functions.Stream.{
  failed, push_result, send_results, send_end, end_turn, results_processed,
}
use node_gemfire.Functions.Worker.{
  Emission, failure, data_event, error_event, end_event, new_worker,
}
use node_gemfire.Functions.System.{
  System, Step, start, adds, sends, enters_end, tests, wakes, announces, returns, fails, fails_late,
  takes, emits, signals, ends, completes, Reach, begin, then_step, take_batch,
}
use node_gemfire.Functions.Log.{payloads, failures, has_end}
use node_gemfire.Functions.Invariant.Defs.{Delivery, Signals, held}
use node_gemfire.Functions.Safety.{Inv, Reach-Inv, exception_reported_once}
use node_gemfire.Functions.Request.{Attempt, done, raised, GeodeExecution, prepare}

module _ {V : Type 0} where
  -- `Execute` has prepared the execution and enters Geode, or an exception was caught.
  unfoldable pub launch : {X : Type 0} → Attempt X → System V Exception
  launch (done x) = start
  launch (raised e) = record start {
    worker = record (new_worker) { exception = some e };
    phase = failed e;
  }

  pub launch-Reach : {X : Type 0} (is_error : V → Bool) (a : Attempt X) → Reach is_error (launch a)
  unfolding launch new_worker
  launch-Reach is_error (done x) = begin
  launch-Reach is_error (raised e) = then_step begin (fails e refl refl)

  only_failures :
      (log : List (Emission V Exception))
      → payloads log ≡ []
      → has_end log ≡ false
      → log ≡ map failure (failures log)
  only_failures [] p h = refl
  only_failures (data_event v ∷ log) p h = cc
  only_failures (error_event v ∷ log) p h = cc
  only_failures (failure e ∷ log) p h = ap (◌∷◌ (failure e)) (only_failures log p h)
  only_failures (end_event ∷ log) p h = cc

-- The states after a state.
pub data After {V E : Type 0} (is_error : V → Bool) (s : System V E) : System V E → Type 0 where
  now : After is_error s s
  later : {t u : System V E} → After is_error s t → Step is_error t u → After is_error s u

-- The thread of `Execute` has nothing more to do, and nothing was added.
record IsFailed {V : Type 0} (e : Exception) (s : System V Exception) : Type 0 where
  phase : s.phase ≡ failed e
  added : s.added ≡ []

module _ {V : Type 0} {is_error : V → Bool} where
  Step-IsFailed :
      {e : Exception} {s t : System V Exception} → Step is_error s t → IsFailed e s → IsFailed e t
  unfolding end_turn results_processed take_batch
  Step-IsFailed (adds v p) i = ground arith
  Step-IsFailed (sends n p) i = ground arith
  Step-IsFailed (enters_end p q) i = ground arith
  Step-IsFailed (tests p) i = ground arith
  Step-IsFailed (wakes p) i = ground arith
  Step-IsFailed (announces p) i = ground arith
  Step-IsFailed (returns p) i = ground arith
  Step-IsFailed (fails x p q) i = ground arith
  Step-IsFailed (fails_late x p) i = ground arith
  Step-IsFailed (takes p q r) i = ground arith
  Step-IsFailed (emits b p) i = ground arith
  Step-IsFailed (signals p) i = ground arith
  Step-IsFailed (ends p q r) i = ground arith
  Step-IsFailed (completes p q r) i = ground arith

  After-IsFailed :
      {e : Exception} {s t : System V Exception} → IsFailed e s → After is_error s t → IsFailed e t
  After-IsFailed i now = i
  After-IsFailed i (later p st) = Step-IsFailed st (After-IsFailed i p)

  After-Reach :
      {s t : System V Exception} → Reach is_error s → After is_error s t → Reach is_error t
  After-Reach r now = r
  After-Reach r (later p st) = then_step (After-Reach r p) st

  failed_emitted :
      {s : System V Exception} (e : Exception)
      → Reach is_error s
      → IsFailed e s
      → failures s.worker.emitted ≡ e ∷ []
      → s.worker.emitted ≡ failure e ∷ []
  failed_emitted {s} e r i f =
      let v : Inv is_error s = Reach-Inv r in
      let d : Delivery is_error s = v.delivery in
      let g : Signals s = v.signals in
      let none_told : payloads s.worker.emitted ≡ [] = ground arith in
      let no_end : has_end s.worker.emitted ≡ false = ground arith in
      only_failures s.worker.emitted none_told no_end ∙ ap (map failure) f

module _ {D X : Type 0} (G : GeodeExecution D X) (is_error : Cacheable D → Bool) where
  -- If Geode throws while the execution is prepared, then the emitter of a worker that is deleted has
  -- been told of that exception once, and of nothing else.
  pub launch-prepare :
      (args filter : Cacheable D) (x : X) (e : Exception) {s : System (Cacheable D) Exception}
      → prepare G args filter x ≡ raised e
      → After is_error (launch (prepare G args filter x)) s
      → s.worker.deleted ≡ true
      → s.worker.emitted ≡ failure e ∷ []
  unfolding launch
  launch-prepare args filter x e {s} h p d =
      let first : IsFailed e (launch (prepare G args filter x)) = record {
        phase = ground arith;
        added = ground arith;
      } in
      let last : IsFailed e s = After-IsFailed first p in
      let r : Reach is_error s = After-Reach (launch-Reach is_error (prepare G args filter x)) p in
      failed_emitted e r last (exception_reported_once e r (inl last.phase) d)
