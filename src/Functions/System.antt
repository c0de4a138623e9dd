-- ===== src/Functions/System.antt =====
-- src/functions.cpp and src/result_stream.cpp: the threads of one asynchronous function execution,
-- interleaved in any order. One thread runs `Execute`, Geode's threads call `addResult`, and the
-- event loop runs the callbacks. A step is what one thread does without releasing a mutex.
-- Of Geode is assumed that `endResults` is called once, after every `addResult` has returned, and
-- that `execute` throws only when no `addResult` is running; of libuv that a callback runs only after
-- it was asked for and not on a closed handle, and that the after-work callback runs once.
use node_gemfire.Base.{ℕ, suc, ◌≡◌, Bool, true, false, List, [], ◌∷◌, ◌++◌, some}
use node_gemfire.Functions.Stream.{
  ResultStream, Phase, executing, testing, sleeping, leaving, announced, failed, returned,
  failed_late, push_result, send_results, send_end, next_results, end_turn, results_processed,
}
use node_gemfire.Functions.Worker.{Worker, new_worker, end, execute_complete, emit_results}

-- Where the event loop stands in `Data`.
pub data Loop (V : Type 0) : Type 0 where
  idle : Loop V
  holding : List V → Loop V  -- after `nextResults`
  emitted_all : Loop V  -- before `resultsProcessed`

pub record System (V E : Type 0) : Type 0 where
  pub worker : Worker V E
  pub phase : Phase E
  pub loop : Loop V
  pub senders : ℕ  -- threads in `add` between `uv_mutex_unlock` and `uv_async_send`
  pub added : List V  -- every result that was ever added

abbrev pub with_stream : {V E : Type 0} → Worker V E → ResultStream V → Worker V E
with_stream w s = record w { stream = s }

-- `Execute` has returned.
abbrev pub is_done : {E : Type 0} → Phase E → Bool
is_done (failed e) = true
is_done returned = true
is_done (failed_late e) = true
is_done _ = false

abbrev pub clear_results_async : {V : Type 0} → ResultStream V → ResultStream V
clear_results_async s = record s { results_async = false }

abbrev pub clear_end_async : {V : Type 0} → ResultStream V → ResultStream V
clear_end_async s = record s { end_async = false }

module _ {V E : Type 0} where
  -- The first locked part of `Data`, once libuv has taken the call off its list.
  unfoldable pub take_batch : System V E → System V E
  unfolding next_results
  take_batch s =
      let (batch, rest) = next_results (clear_results_async s.worker.stream) in
      record s { worker = with_stream s.worker rest; loop = holding batch }

  abbrev pub start : System V E
  start = record { worker = new_worker; phase = executing; loop = idle; senders = 0; added = [] }

pub data Step {V E : Type 0} (is_error : V → Bool) (s : System V E) : System V E → Type 0 where
  adds :
      (v : V)
      → s.phase ≡ executing
      → Step is_error s (record s {
        worker = with_stream s.worker (push_result v s.worker.stream);
        senders = suc s.senders;
        added = s.added ++ v ∷ [];
      })
  sends :
      (n : ℕ)
      → s.senders ≡ suc n
      → Step is_error s
          (record s { worker = with_stream s.worker (send_results s.worker.stream); senders = n })
  enters_end : s.phase ≡ executing → s.senders ≡ 0 → Step is_error s (record s { phase = testing })
  tests : s.phase ≡ testing → Step is_error s (record s { phase = end_turn s.worker.stream })
  wakes : s.phase ≡ sleeping → Step is_error s (record s { phase = testing })
  announces :
      s.phase ≡ leaving
      → Step is_error s
          (record s { worker = with_stream s.worker (send_end s.worker.stream); phase = announced })
  returns : s.phase ≡ announced → Step is_error s (record s { phase = returned })
  fails :
      (e : E)
      → s.phase ≡ executing
      → s.senders ≡ 0
      → Step is_error s
          (record s { worker = record (s.worker) { exception = some e }; phase = failed e })
  fails_late :
      (e : E)
      → s.phase ≡ announced
      → Step is_error s
          (record s { worker = record (s.worker) { exception = some e }; phase = failed_late e })
  takes :
      s.loop ≡ idle
      → s.worker.deleted ≡ false
      → s.worker.stream.results_async ≡ true
      → Step is_error s (take_batch s)
  emits :
      (batch : List V)
      → s.loop ≡ holding batch
      → Step is_error s (record s {
        worker = record (s.worker) { emitted = emit_results is_error batch s.worker.emitted };
        loop = emitted_all;
      })
  signals :
      s.loop ≡ emitted_all
      → Step is_error s (record s { phase = results_processed s.phase; loop = idle })
  ends :
      s.loop ≡ idle
      → s.worker.deleted ≡ false
      → s.worker.stream.end_async ≡ true
      → Step is_error s
          (record s { worker = end (with_stream s.worker (clear_end_async s.worker.stream)) })
  completes :
      s.loop ≡ idle
      → is_done s.phase ≡ true
      → s.worker.execute_completed ≡ false
      → Step is_error s (record s { worker = execute_complete s.worker })

pub data Reach {V E : Type 0} (is_error : V → Bool) : System V E → Type 0 where
  begin : Reach is_error start
  then_step : {s t : System V E} → Reach is_error s → Step is_error s t → Reach is_error t
