-- ===== src/Functions/Refinement.antt =====
-- The threads of src/functions.cpp and src/result_stream.cpp against the channel of
-- Functions/Channel.antt.
use node_gemfire.Base.{
  ◌≡◌, refl, Bool, false, List, [], ◌∷◌, ◌++◌, Option, none, some, append-nil, append_assoc, arith,
}
use node_gemfire.Functions.Stream.{push_result, send_results, send_end}
use node_gemfire.Functions.Worker.{
  failure, end_event, new_worker, end, execute_complete, report_exception, emission,
}
use node_gemfire.Functions.System.{
  System, take_batch, Step, adds, sends, enters_end, tests, wakes, announces, returns, fails,
  fails_late, takes, emits, signals, ends, completes, Reach, begin, then_step,
}
use node_gemfire.Functions.Log.{
  has_end, has_failure, has_end-append, has_failure-append, emissions, emit_results_lem,
  has_end-emissions, has_failure-emissions, report_exception_log, copy_results_lem,
}
use node_gemfire.Functions.Invariant.Defs.{held, Delivery, Signals, Teardown}
use node_gemfire.Functions.Safety.{Inv, Reach-Inv}
use node_gemfire.Functions.Channel.{
  Channel, opened, receives, delivers, closes, reports, Served, unserved, served, Served-trans,
  Served-subst,
}

module _ {V E : Type 0} where
  -- The channel that a state stands for: its queue is the batch in hand and the buffer.
  abbrev pub channel : System V E → Channel V E
  channel s = record {
    queue = held s.loop ++ s.worker.stream.results;
    log = s.worker.emitted;
    over = has_end s.worker.emitted;
    failed_once = has_failure s.worker.emitted;
  }

module _ {V E : Type 0} {is_error : V → Bool} where
  -- Emitting a batch is delivering its results one by one.
  delivers_all :
      (b : List V) (c : Channel V E) (rest : List V)
      → c.queue ≡ b ++ rest
      → Served is_error c (record c { queue = rest; log = c.log ++ emissions is_error b })
  delivers_all [] c rest h = Served-subst _ unserved (ground (arith, append-nil c.log))
  delivers_all (v ∷ b) c rest h =
      Served-subst _
        (Served-trans (served unserved (delivers v (b ++ rest) h)) (delivers_all b _ rest refl))
        (ground (arith, append_assoc c.log (emission is_error v ∷ []) (emissions is_error b)))

  completes_Served :
      (s : System V E) (o : Option E)
      → s.worker.exception ≡ o
      → has_failure s.worker.emitted ≡ false
      → (t : System V E) → t.loop ≡ s.loop
      → t.worker.stream ≡ s.worker.stream
      → t.worker.emitted ≡ (report_exception o s.worker).emitted
      → Served is_error (channel s) (channel t)
  unfolding report_exception
  completes_Served s none h n t l m e = Served-subst _ unserved (ground arith)
  completes_Served s (some x) h n t l m e = Served-subst _ (served unserved (reports x n)) (
      ground (
        arith,
        has_end-append s.worker.emitted (failure x ∷ []),
        has_failure-append s.worker.emitted (failure x ∷ []),
      ))

  -- Every step of the threads is some steps of the channel.
  Step-Served :
      {s t : System V E}
      → Inv is_error s
      → Step is_error s t
      → Served is_error (channel s) (channel t)
  unfolding push_result send_results send_end take_batch end execute_complete
  Step-Served {s} i (adds v p) =
      let g : Signals s = i.signals in
      Served-subst _ (served unserved (receives v (ground arith)))
        (ground (arith, append_assoc (held s.loop) s.worker.stream.results (v ∷ [])))
  Step-Served i (sends n p) = unserved
  Step-Served i (enters_end p q) = unserved
  Step-Served i (tests p) = unserved
  Step-Served i (wakes p) = unserved
  Step-Served i (announces p) = unserved
  Step-Served i (returns p) = unserved
  Step-Served i (fails e p q) = unserved
  Step-Served i (fails_late e p) = unserved
  Step-Served {s} i (takes p q r) = Served-subst _ unserved (
      ground
        (arith, copy_results_lem [] s.worker.stream.results, append-nil s.worker.stream.results))
  Step-Served {s} i (emits b p) =
      Served-subst _ (delivers_all b (channel s) s.worker.stream.results (ground arith)) (
        ground (
          arith,
          emit_results_lem {E = E} is_error b s.worker.emitted,
          has_end-append s.worker.emitted (emissions is_error b),
          has_end-emissions E is_error b,
          has_failure-append s.worker.emitted (emissions is_error b),
          has_failure-emissions E is_error b,
        ))
  Step-Served i (signals p) = Served-subst _ unserved (ground arith)
  Step-Served {s} i (ends p q r) =
      let g : Signals s = i.signals in
      let d : Delivery is_error s = i.delivery in
      Served-subst _ (served unserved (closes (ground arith) (ground arith))) (
        ground (
          arith,
          has_end-append s.worker.emitted (end_event ∷ []),
          has_failure-append s.worker.emitted (end_event ∷ []),
        ))
  Step-Served {s} i (completes p q r) =
      let d : Teardown s = i.teardown in
      completes_Served s s.worker.exception refl (ground arith)
        (record s { worker = execute_complete s.worker }) refl
        (ground (arith, report_exception_log s.worker.exception s.worker)) (ground arith)

  -- What the emitter is told in a reachable state is what the channel tells after some of its steps.
  pub Reach-Served : {s : System V E} → Reach is_error s → Served is_error opened (channel s)
  unfolding new_worker
  Reach-Served begin = unserved
  Reach-Served (then_step r st) = Served-trans (Reach-Served r) (Step-Served (Reach-Inv r) st)
