-- ===== src/Cache/Query/Worker.antt =====
-- src/cache.cpp, ExecuteQueryWorker: a query from executeQuery to the call of its callback.
use node_gemfire.Base.{ℕ, ◌≡◌, true, List, [], ◌∷◌, Option, arith}
use node_gemfire.Conversions.Data.{Cacheable, Platform, undefined}
use node_gemfire.Region.Geode.{Answer, answered, threw}
use node_gemfire.Region.Work.{Outcome, Job, guarded, select_result, query_work, complete}
use node_gemfire.Region.Callbacks.{
  Told, JsCall, calls_back, value, select_results, tell_all, state_of, set_error,
}
use node_gemfire.Conversions.Errors.{v8_error}
use node_gemfire.Functions.Request.{GeodeExecution}
use node_gemfire.Cache.{GeodeCache}
use node_gemfire.Cache.Query.{QueryJob}

-- Geode's `Query::execute`: the text, the pool of the service, and the parameters.
abbrev pub GeodeQuery : Type 0 → Type 0 → Type 0
GeodeQuery D S = List ℕ → Option (List ℕ) → Cacheable D → S → Answer S (List (Cacheable D))

module _ {D S : Type 0} (P : Platform D) (Q : GeodeQuery D S) where
  -- `ExecuteGemfireWork`, inside `GemfireWorker::Execute`.
  unfoldable pub execute_query_job : QueryJob D → S → Outcome D S
  execute_query_job j s = guarded select_result (Q j.query_string j.pool j.query_params s)

  -- The worker from the queue to its callback, which is never NULL.
  unfoldable pub run_query_job : QueryJob D → S → Told D S
  unfolding execute_query_job complete tell_all
  run_query_job j s =
      let outcome = execute_query_job j s in
      let job : Job D = record { work = query_work j.query_string; has_callback = true } in
      let calls = tell_all P (complete job outcome) in
      record { js_calls = calls.value; logged = calls.log; state = state_of outcome }

module _ {D S T R L X : Type 0} (P : Platform D) (G : GeodeExecution D X) (C : GeodeCache S R L X)
    (Q : GeodeQuery D T) where
  -- What the callback of a query is called with.
  abbrev pub query_call : Answer T (List (Cacheable D)) → JsCall D
  query_call (answered rs u) = calls_back (value undefined ∷ select_results rs ∷ [])
  query_call (threw e u) = calls_back (value (v8_error P e) ∷ [])

  pub told :
      (j : QueryJob D) (t : T)
      → (run_query_job P Q j t).js_calls
        ≡ query_call (Q j.query_string j.pool j.query_params t) ∷ []
  unfolding run_query_job set_error
  told j t = ground arith
