-- ===== src/Functions/Safety.antt =====
-- What every interleaving of src/functions.cpp and src/result_stream.cpp guarantees.
use node_gemfire.Base.{◌≡◌, sym, ◌⊎◌, ◌∙◌, Bool, true, [], ◌∷◌, ◌++◌, append-nil, arith}
use node_gemfire.Functions.Stream.{returned, failed, failed_late}
use node_gemfire.Functions.Worker.{end_event}
use node_gemfire.Functions.System.{
  System, Step, adds, sends, enters_end, tests, wakes, announces, returns, fails, fails_late, takes,
  emits, signals, ends, completes, Reach, begin, then_step,
}
use node_gemfire.Functions.Log.{payloads, told, has_end, emissions, failures, told-eq_self}
use node_gemfire.Functions.Invariant.Defs.{Delivery, Signals, Teardown}
use node_gemfire.Functions.Invariant.Moves.{
  start-Signals, start-Teardown, start-Delivery, Step-Signals, Step-Teardown, Step-Delivery,
}

pub record Inv {V E : Type 0} (is_error : V → Bool) (s : System V E) : Type 0 where
  pub signals : Signals s
  pub teardown : Teardown s
  pub delivery : Delivery is_error s

module _ {V E : Type 0} {is_error : V → Bool} where
  pub Step-Inv : {s t : System V E} → Step is_error s t → Inv is_error s → Inv is_error t
  Step-Inv st i = record {
    signals = Step-Signals st i.signals i.teardown i.delivery;
    teardown = Step-Teardown st i.signals i.teardown;
    delivery = Step-Delivery st i.signals i.teardown i.delivery;
  }

  pub Reach-Inv : {s : System V E} → Reach is_error s → Inv is_error s
  Reach-Inv begin = record {
    signals = start-Signals;
    teardown = start-Teardown;
    delivery = start-Delivery is_error;
  }
  Reach-Inv (then_step r st) = Step-Inv st (Reach-Inv r)

  -- Once the emitter has been told of the end, it has been told of every result before, each once
  -- and in the order in which it was added, and nothing is left in the buffer.
  pub end_follows_all :
      {s : System V E}
      → Reach is_error s
      → has_end s.worker.emitted ≡ true
      → (told s.worker.emitted ≡ emissions is_error s.added ++ end_event ∷ [])
        × (s.worker.stream.results ≡ [])
  end_follows_all {s} r h =
      let i : Inv is_error s = Reach-Inv r in
      let d : Delivery is_error s = i.delivery in
      let g : Signals s = i.signals in ground (arith, append-nil (payloads s.worker.emitted))

  -- A worker that is deleted after `execute` returned has told its emitter exactly the results that
  -- were added, in order, and then the end.
  pub deleted_after_all :
      {s : System V E}
      → Reach is_error s
      → s.worker.deleted ≡ true
      → s.phase ≡ returned
      → s.worker.emitted ≡ emissions is_error s.added ++ end_event ∷ []
  deleted_after_all {s} r h p =
      let i : Inv is_error s = Reach-Inv r in
      let g : Signals s = i.signals in
      let d : Teardown s = i.teardown in
      let reported : failures s.worker.emitted ≡ [] = ground arith in
      let (log, _) = end_follows_all r (ground arith) in
      sym (told-eq_self s.worker.emitted reported) ∙ log

  -- An exception of `execute` is reported exactly once before the worker is deleted.
  pub exception_reported_once :
      {s : System V E} (e : E)
      → Reach is_error s
      → (s.phase ≡ failed e) ⊎ (s.phase ≡ failed_late e)
      → s.worker.deleted ≡ true
      → failures s.worker.emitted ≡ e ∷ []
  exception_reported_once {s} e r p h =
      let i : Inv is_error s = Reach-Inv r in let d : Teardown s = i.teardown in ground arith

  blocked :
      {s t : System V E} → Signals s → Teardown s → s.worker.deleted ≡ true → Step is_error s t → ⊥
  blocked g d h (adds v p) = ground arith
  blocked g d h (sends n p) = ground arith
  blocked g d h (enters_end p q) = ground arith
  blocked g d h (tests p) = ground arith
  blocked g d h (wakes p) = ground arith
  blocked g d h (announces p) = ground arith
  blocked g d h (returns p) = ground arith
  blocked g d h (fails e p q) = ground arith
  blocked g d h (fails_late e p) = ground arith
  blocked g d h (takes p q r) = ground arith
  blocked g d h (emits b p) = ground arith
  blocked g d h (signals p) = ground arith
  blocked g d h (ends p q r) = ground arith
  blocked g d h (completes p q r) = ground arith

  -- No thread touches a worker after its deletion: no step is possible.
  pub no-Step_after_delete :
      {s t : System V E} → Reach is_error s → s.worker.deleted ≡ true → ¬ Step is_error s t
  no-Step_after_delete {s} r h st =
      let i : Inv is_error s = Reach-Inv r in blocked i.signals i.teardown h st
