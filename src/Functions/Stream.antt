-- ===== src/Functions/Stream.antt =====
-- src/result_stream.hpp and src/result_stream.cpp: the buffer through which Geode's threads hand
-- function results to the event loop. Each `uv_async_t` is the flag "a call of its callback is due":
-- `uv_async_send` sets it, and several calls before the callback runs count as one.
use node_gemfire.Base.{Bool, true, List, [], ◌∷◌, ◌++◌}

pub record ResultStream (V : Type 0) : Type 0 where
  pub results : List V  -- resultsPtr
  pub results_async : Bool
  pub end_async : Bool

-- Where the thread that runs `ExecuteFunctionWorker::Execute` stands.
pub data Phase (E : Type 0) : Type 0 where
  executing : Phase E  -- inside `Execution::execute`
  testing : Phase E  -- in `ResultStream::end`, before the test of the `while`
  sleeping : Phase E  -- in `uv_cond_wait`
  leaving : Phase E  -- past the `while`, before `uv_async_send(endAsync)`
  announced : Phase E  -- `ResultStream::end` has returned
  failed : E → Phase E  -- `execute` threw before `endResults`
  returned : Phase E  -- `execute` returned after `endResults`
  failed_late : E → Phase E  -- `execute` threw after `endResults`

module _ {V : Type 0} where
  -- The part of `add` under `resultsMutex`.
  unfoldable pub push_result : V → ResultStream V → ResultStream V
  push_result v s = record s { results = s.results ++ v ∷ [] }

  -- `uv_async_send(resultsAsync)`
  unfoldable pub send_results : ResultStream V → ResultStream V
  send_results s = record s { results_async = true }

  unfoldable pub add : V → ResultStream V → ResultStream V
  unfolding push_result send_results
  add v s = send_results (push_result v s)

  -- `uv_async_send(endAsync)`
  unfoldable pub send_end : ResultStream V → ResultStream V
  send_end s = record s { end_async = true }

  -- The copying loop of `nextResults`.
  unfoldable pub copy_results : List V → List V → List V
  copy_results copied [] = copied
  copy_results copied (v ∷ vs) = copy_results (copied ++ v ∷ []) vs

  unfoldable pub next_results : ResultStream V → List V × ResultStream V
  unfolding copy_results
  next_results s = (copy_results [] s.results, record s { results = [] })

module _ {V E : Type 0} where
  -- One turn of the `while` in `end`: `resultsPtr->size() > 0` and then `uv_cond_wait`.
  unfoldable pub end_turn : ResultStream V → Phase E
  end_turn s = elim s.results [ [] ↦ leaving | v ∷ vs ↦ sleeping ]

module _ {E : Type 0} where
  -- `uv_cond_signal` wakes the thread in `uv_cond_wait`, and does nothing if there is none.
  unfoldable pub results_processed : Phase E → Phase E
  results_processed sleeping = testing
  results_processed p = p
