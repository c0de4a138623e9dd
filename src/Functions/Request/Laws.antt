-- ===== src/Functions/Request/Laws.antt =====
-- Properties of executeFunction in src/functions.cpp.
use node_gemfire.Region.Geode.{
  Instance, no_instance, closed_instance, open_instance, region_destroyed,
}
use node_gemfire.Base.{
  inl, ℕ, ◌≡◌, refl, ◌⊎◌, Bool, true, false, List, [], ◌++◌, arith, length, All,
}
use node_gemfire.Conversions.Data.{V8Value, Cacheable, Platform, is_null}
use node_gemfire.Region.Call.{arg}
use node_gemfire.Region.Laws.Calls.{is_from_conversion, conversions_only}
use node_gemfire.Functions.Request.{
  convert_arguments, convert_filter, return_results, Attempt, done, raised, GeodeExecution, Started,
  FunctionReply, Checked, refused, accepted, prepare, synchronous_results, execute_function,
  execute_on_region, not_started, finished, worker_queued, and_then, check_arguments, start_request,
}

module _ {D X : Type 0} (G : GeodeExecution D X) where
  -- With arguments, the synchronous path has the results of the execution that the worker would
  -- prepare, and none if Geode throws.
  pub synchronous_results-prepare :
      (name : List ℕ) (args filter : Cacheable D) (x : X)
      → is_null args ≡ false
      → synchronous_results G name args filter x
        ≡ (elim (and_then (prepare G args filter x) (G.execute name)) [
          | done results ↦ results
          | raised e ↦ []
        ])
  unfolding synchronous_results prepare
  synchronous_results-prepare name args filter x h = ground arith

  -- Without arguments the synchronous path has no results, whatever the function, the filter and
  -- Geode are.
  pub synchronous_results-no_arguments :
      (name : List ℕ) (args filter : Cacheable D) (x : X)
      → is_null args ≡ true
      → synchronous_results G name args filter x ≡ []
  unfolding synchronous_results
  synchronous_results-no_arguments name args filter x h = ground arith

abbrev pub is_started : {D X : Type 0} → Started D X → Bool
is_started not_started = false
is_started (finished v) = true
is_started (worker_queued x n a f) = true

module _ {D X : Type 0} (P : Platform D) (G : GeodeExecution D X) where
  -- One error is thrown and nothing is started, or the function is, and only conversions have thrown.
  abbrev pub IsSettled : FunctionReply D X → Type 0
  IsSettled r =
      ((is_started r.started ≡ false) × (length r.thrown ≡ 1))
      ⊎ ((is_started r.started ≡ true) × All (λ t. is_from_conversion t ≡ true) r.thrown)

  checked-IsSettled :
      (info : List (V8Value D)) (x : X) (c : Checked D)
      → check_arguments G info ≡ c
      → IsSettled (execute_function P G info x)
  unfolding execute_function start_request
  checked-IsSettled info x (refused t) h = ground arith
  checked-IsSettled info x (accepted r) h = ground (
    arith,
    conversions_only (
        (convert_arguments P r.arguments).log
        ++ (convert_filter P r.filter).log
        ++ (return_results P (
            synchronous_results G (P.utf8_of_value (arg info 0))
              (convert_arguments P r.arguments).value (convert_filter P r.filter).value x)).log),
    conversions_only ((convert_arguments P r.arguments).log ++ (convert_filter P r.filter).log),
  )

  execute_function-IsSettled :
      (info : List (V8Value D)) (x : X) → IsSettled (execute_function P G info x)
  execute_function-IsSettled info x = checked-IsSettled info x (check_arguments G info) refl

  -- Every call of executeFunction on a region throws one error and starts nothing, or it executes the
  -- function or queues a worker, and throws only what the conversions log.
  pub execute_on_region-IsSettled :
      (name : List ℕ) (cache : Instance) (execution : Attempt X) (info : List (V8Value D))
      → IsSettled (execute_on_region P G name cache execution info)
  unfolding execute_on_region
  execute_on_region-IsSettled name no_instance execution info = inl (refl, refl)
  execute_on_region-IsSettled name closed_instance execution info = inl (refl, refl)
  execute_on_region-IsSettled name (region_destroyed e) execution info = inl (refl, refl)
  execute_on_region-IsSettled name open_instance (raised e) info = inl (refl, refl)
  execute_on_region-IsSettled name open_instance (done x) info = execute_function-IsSettled info x
