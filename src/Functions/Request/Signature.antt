-- ===== src/Functions/Request/Signature.antt =====
-- Which calls of executeFunction in src/functions.cpp are accepted, and what they start.
use node_gemfire.Base.{
  ℕ, ◌<◌, ◌≡◌, refl, Bool, true, false, not, ◌&&◌, ◌||◌, List, [], ◌∷◌, ◌++◌, arith, length, All,
  if◌then◌else◌,
}
use node_gemfire.Conversions.Data.{V8Value, Platform, is_array}
use node_gemfire.Region.Geode.{
  Instance, no_instance, closed_instance, open_instance, region_destroyed,
}
use node_gemfire.Region.Call.{arg, is_object, is_undefined}
use node_gemfire.Region.Laws.Calls.{is_from_conversion, conversions_only}
use node_gemfire.Region.Laws.Signatures.{is_open}
use node_gemfire.Functions.Request.{
  is_string, is_boolean, flag, filter_text, synchronous_text, convert_arguments, convert_filter,
  return_results, Attempt, done, raised, GeodeExecution, Started, FunctionReply, Checked, refused,
  accepted, synchronous_results, check_arguments, start_request, execute_function,
  execute_on_region, not_started, finished, worker_queued,
}

-- What a call comes to: nothing, a value that is returned at once, or a worker.
pub data Start : Type 0 where
  no_start value_at_once by_worker : Start

abbrev pub start_of : {D X : Type 0} → Started D X → Start
start_of not_started = no_start
start_of (finished v) = value_at_once
start_of (worker_queued x n a f) = by_worker

abbrev pub is_done : {A : Type 0} → Attempt A → Bool
is_done (done a) = true
is_done (raised e) = false

module _ {D X : Type 0} (G : GeodeExecution D X) where
  abbrev pub or_undefined : (V8Value D → Bool) → V8Value D → Bool
  or_undefined test v = test v || is_undefined v

  abbrev pub is_options : V8Value D → Bool
  is_options v = is_object v && not (is_array v)

  -- An array of arguments, nothing, or options whose filter and whose flag are of their types.
  abbrev pub fits_options : V8Value D → Bool
  fits_options v =
      or_undefined is_array v
      || (is_options v
          && (or_undefined is_array (G.get_property filter_text v)
              && or_undefined is_boolean (G.get_property synchronous_text v)))

  abbrev pub fits_arguments : List (V8Value D) → Bool
  fits_arguments info = is_string (arg info 0) && fits_options (arg info 1)

  -- The options ask for the results at once.
  abbrev pub asks_at_once : List (V8Value D) → Bool
  asks_at_once info = is_options (arg info 1) && flag (G.get_property synchronous_text (arg info 1))

  string-lt-length : (info : List (V8Value D)) → is_string (arg info 0) ≡ true → 0 < length info
  string-lt-length [] h = cc
  string-lt-length (v ∷ vs) h = omega arith

  -- What the checks come to.
  abbrev Fits : Bool → Bool → Checked D → Type 0
  Fits fits now (refused t) = fits ≡ false
  Fits fits now (accepted r) = (fits ≡ true) × (r.synchronous ≡ now)

  check_arguments-Fits :
      (info : List (V8Value D))
      → Fits (fits_arguments info) (asks_at_once info) (check_arguments G info)
  unfolding check_arguments
  check_arguments-Fits info = ground (arith, string-lt-length info)

module _ {D X : Type 0} (P : Platform D) (G : GeodeExecution D X) where
  -- A value is returned or a worker queued, as asked for, and all that is thrown was logged by a conversion, or nothing is
  -- started and one error is thrown.
  abbrev pub Begins : Bool → Bool → FunctionReply D X → Type 0
  Begins fits now r =
      (start_of r.started ≡ (if fits then if now then value_at_once else by_worker else no_start))
      × (if fits then All (λ t. is_from_conversion t ≡ true) r.thrown else (length r.thrown ≡ 1))

  checked-Begins :
      (info : List (V8Value D)) (x : X) (fits now : Bool) (c : Checked D)
      → check_arguments G info ≡ c
      → Fits G fits now c
      → Begins fits now (execute_function P G info x)
  unfolding execute_function start_request
  checked-Begins info x fits now (refused t) h f = ground arith
  checked-Begins info x fits now (accepted r) h f = ground (
    arith,
    conversions_only (
        (convert_arguments P r.arguments).log
        ++ (convert_filter P r.filter).log
        ++ (return_results P (
            synchronous_results G (P.utf8_of_value (arg info 0))
              (convert_arguments P r.arguments).value (convert_filter P r.filter).value x)).log),
    conversions_only ((convert_arguments P r.arguments).log ++ (convert_filter P r.filter).log),
  )

  -- Every call of executeFunction on a region whose cache is open, where Geode makes an execution for
  -- the region, with a string and with an array, nothing, or options of the right types, returns a
  -- value at once if the options ask for it and queues a worker otherwise, and throws only what the
  -- conversions log; every other call returns no value, queues nothing and throws one error.
  pub execute_on_region-signature :
      (name : List ℕ) (cache : Instance) (execution : Attempt X) (info : List (V8Value D))
      → Begins
          (is_open cache && (is_done execution && fits_arguments G info))
          (asks_at_once G info)
          (execute_on_region P G name cache execution info)
  unfolding execute_on_region
  execute_on_region-signature name no_instance execution info = (refl, refl)
  execute_on_region-signature name closed_instance execution info = (refl, refl)
  execute_on_region-signature name (region_destroyed e) execution info = (refl, refl)
  execute_on_region-signature name open_instance (raised e) info = (refl, refl)
  execute_on_region-signature name open_instance (done x) info =
      checked-Begins info x (fits_arguments G info) (asks_at_once G info) (check_arguments G info)
        refl (check_arguments-Fits G info)
