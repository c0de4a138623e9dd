-- ===== src/Functions/Request.antt =====
-- src/functions.cpp: executeFunction, which checks its arguments, converts them, and executes on the
-- event loop or starts an ExecuteFunctionWorker; with the start of `ExecuteFunctionWorker::Execute`.
pub mod Laws
pub mod Signature
pub mod Examples
use node_gemfire.Base.{
  ℕ, Bool, true, false, not, ◌||◌, ◌&&◌, List, [], ◌∷◌, ◌++◌, Option, none, some, if◌then◌else◌,
  length, ◌==◌, map,
}
use node_gemfire.Conversions.Data.{
  V8Value, V8Items, Cacheable, Platform, Exception, Effect, Out, string, boolean, undefined, array,
  nil, cons, null_ptr, is_array, is_null, ret,
}
use node_gemfire.Conversions.ToGemfire.{gemfire_value, gemfire_vector}
use node_gemfire.Region.Call.{
  Thrown, error, in_conversion, gemfire, get_cache_from_region, arg, is_object, is_undefined,
}
use node_gemfire.Region.Geode.{Instance}
use node_gemfire.Region.Methods.{elements}
use node_gemfire.Region.Results.{v8_list}

-- A call of Geode that answers or throws.
pub data Attempt (A : Type 0) : Type 0 where
  done : A → Attempt A
  raised : Exception → Attempt A

abbrev pub and_then : {A B : Type 0} → Attempt A → (A → Attempt B) → Attempt B
and_then (done a) f = f a
and_then (raised e) f = raised e

-- Geode's `Execution`, whose methods give executions with more settings, and V8's `Object::Get`.
pub record GeodeExecution (D X : Type 0) : Type 0 where
  pub with_args : Cacheable D → X → Attempt X
  pub with_filter : Cacheable D → X → Attempt X
  pub execute : List ℕ → X → Attempt (List (Cacheable D))  -- execute, and getResult
  pub null_pointer : Exception  -- what `->` of a NULL pointer throws
  pub get_property : List ℕ → V8Value D → V8Value D

-- The handles after the checks; one that was never set is empty.
pub record Request (D : Type 0) : Type 0 where
  pub arguments : Option (V8Value D)
  pub filter : Option (V8Value D)
  pub synchronous : Bool

pub data Checked (D : Type 0) : Type 0 where
  refused : Thrown → Checked D
  accepted : Request D → Checked D

-- What executeFunction comes to.
pub data Started (D X : Type 0) : Type 0 where
  not_started : Started D X  -- undefined is returned
  finished : V8Value D → Started D X
  worker_queued : X → List ℕ → Cacheable D → Cacheable D → Started D X

pub record FunctionReply (D X : Type 0) : Type 0 where
  pub thrown : List Thrown
  pub started : Started D X

abbrev arguments_text : List ℕ
arguments_text = b'a' ∷ b'r' ∷ b'g' ∷ b'u' ∷ b'm' ∷ b'e' ∷ b'n' ∷ b't' ∷ b's' ∷ []

abbrev pub filter_text : List ℕ
filter_text = b'f' ∷ b'i' ∷ b'l' ∷ b't' ∷ b'e' ∷ b'r' ∷ []

abbrev pub synchronous_text : List ℕ
synchronous_text = b's' ∷ b'y' ∷ b'n' ∷ b'c' ∷ b'h' ∷ b'r' ∷ b'o' ∷ b'n' ∷ b'o' ∷ b'u' ∷ b's' ∷ []

module _ {D : Type 0} where
  abbrev pub is_string : V8Value D → Bool
  is_string (string s) = true
  is_string _ = false

  abbrev pub is_boolean : V8Value D → Bool
  is_boolean (boolean b) = true
  is_boolean _ = false

  -- ToBoolean of a boolean.
  abbrev pub flag : V8Value D → Bool
  flag (boolean b) = b
  flag _ = false

module _ {D X : Type 0} (G : GeodeExecution D X) where
  -- The checks of an options object.
  unfoldable pub check_options : V8Value D → Checked D
  check_options options =
      let filter = G.get_property filter_text options in
      let synchronous = G.get_property synchronous_text options in
      if not (is_array filter) && not (is_undefined filter)
      then refused (error "You must pass an Array of keys as the filter for executeFunction().")
      else if not (is_boolean synchronous) && not (is_undefined synchronous)
      then refused
          (error "You must pass true or false for the synchronous option for executeFunction().")
      else accepted (record {
        arguments = some (G.get_property arguments_text options);
        filter = some filter;
        synchronous = flag synchronous;
      })

  unfoldable pub check_arguments : List (V8Value D) → Checked D
  unfolding check_options
  check_arguments info =
      if length info == 0 || not (is_string (arg info 0))
      then refused (error "You must provide the name of a function to execute.")
      else if is_array (arg info 1)
      then accepted (record { arguments = some (arg info 1); filter = none; synchronous = false })
      else if is_object (arg info 1)
      then check_options (arg info 1)
      else if not (is_undefined (arg info 1))
      then refused (
          error
            "You must pass either an Array of arguments or an options Object to executeFunction().")
      else accepted (record { arguments = none; filter = none; synchronous = false })

  -- `ExecuteFunctionWorker::Execute` before the collector.
  unfoldable pub prepare : Cacheable D → Cacheable D → X → Attempt X
  prepare args filter x =
      and_then (if is_null args then done x else G.with_args args x)
        (λ y. if is_null filter then done y else G.with_filter filter y)

  -- `->` of a pointer that is NULL or an execution.
  abbrev pub deref : Option X → Attempt X
  deref none = raised G.null_pointer
  deref (some x) = done x

  -- synchronousExecutionPtr after its settings; it starts as NULL.
  unfoldable pub synchronous_execution : Cacheable D → Cacheable D → X → Attempt (Option X)
  synchronous_execution args filter x =
      and_then
        (if is_null args then done none else and_then (G.with_args args x) (λ y. done (some y)))
        (λ p.
          if is_null filter
          then done p
          else and_then (deref p) (λ y. and_then (G.with_filter filter y) (λ z. done (some z))))

  -- The `try` of the synchronous path, after which no one looks at the exception.
  unfoldable pub synchronous_results : List ℕ → Cacheable D → Cacheable D → X → List (Cacheable D)
  unfolding synchronous_execution
  synchronous_results name args filter x =
      elim (and_then (synchronous_execution args filter x)
        (λ p. and_then (deref p) (G.execute name))) [ done results ↦ results | raised e ↦ [] ]

module _ {D : Type 0} (P : Platform D) where
  -- One result is returned by itself, others in an array.
  unfoldable pub return_results : List (Cacheable D) → Out (V8Value D)
  unfolding v8_list
  return_results results =
      let vs = v8_list P results in
      record {
        value = elim (vs.value) [
          | nil ↦ array nil
          | cons v nil ↦ v
          | cons v (cons w ws) ↦ array (cons v (cons w ws))
        ];
        log = vs.log;
      }

  -- NULLPTR for an empty handle or undefined.
  unfoldable pub convert_arguments : Option (V8Value D) → Out (Cacheable D)
  convert_arguments none = ret null_ptr
  convert_arguments (some v) = if is_undefined v then ret null_ptr else gemfire_value P v

  unfoldable pub convert_filter : Option (V8Value D) → Out (Cacheable D)
  convert_filter none = ret null_ptr
  convert_filter (some v) = if is_undefined v then ret null_ptr else gemfire_vector P (elements P v)

module _ {D X : Type 0} (P : Platform D) (G : GeodeExecution D X) where
  -- executeFunction after the checks.
  unfoldable pub start_request : List ℕ → Request D → X → FunctionReply D X
  unfolding convert_arguments convert_filter synchronous_results return_results
  start_request name r x =
      let args = convert_arguments P r.arguments in
      let filter = convert_filter P r.filter in
      if r.synchronous
      then (let result = return_results P (synchronous_results G name args.value filter.value x) in
          record {
            thrown = map in_conversion (args.log ++ filter.log ++ result.log);
            started = finished result.value;
          })
      else record {
        thrown = map in_conversion (args.log ++ filter.log);
        started = worker_queued x name args.value filter.value;
      }

  unfoldable pub execute_function : List (V8Value D) → X → FunctionReply D X
  unfolding check_arguments start_request
  execute_function info x = elim (check_arguments G info) [
    | refused t ↦ record { thrown = t ∷ []; started = not_started }
    | accepted r ↦ start_request (P.utf8_of_value (arg info 0)) r x
  ]

  -- `Region::ExecuteFunction`, with what `FunctionService::onRegion` comes to.
  unfoldable pub execute_on_region :
      List ℕ → Instance → Attempt X → List (V8Value D) → FunctionReply D X
  unfolding get_cache_from_region execute_function
  execute_on_region name cache execution info = elim (get_cache_from_region name cache) [
    | some t ↦ record { thrown = t ∷ []; started = not_started }
    | none ↦ elim execution [
      | done x ↦ execute_function info x
      | raised e ↦ record { thrown = gemfire e ∷ []; started = not_started }
    ]
  ]
