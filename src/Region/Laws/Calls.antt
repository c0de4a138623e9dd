-- ===== src/Region/Laws/Calls.antt =====
-- What every queueing method of src/region.cpp guarantees, whatever its arguments.
use node_gemfire.Base.{
  ℕ, ◌≡◌, refl, ◌⊎◌, Bool, true, false, List, [], ◌∷◌, ◌++◌, Option, none, some, arith, map,
  if◌then◌else◌, length, All,
}
use node_gemfire.Conversions.Data.{V8Value, Platform, Effect}
use node_gemfire.Conversions.ToGemfire.{gemfire_value, gemfire_key, gemfire_keys, gemfire_hash_map}
use node_gemfire.Region.Geode.{Instance}
use node_gemfire.Region.Work.{
  Job, Outcome, succeeded, errored, is_evented, called_back, called_back_error, error_event,
  complete,
}
use node_gemfire.Region.Call.{
  is_function, is_function_or_undefined, Thrown, Reply, in_conversion, arg,
}
use node_gemfire.Region.Methods.{
  Method, clear_method, put_method, get_method, get_all_method, put_all_method, remove_method,
  query_method, server_keys_method, keys_method, values_method, entries_method,
  destroy_region_method, local_destroy_region_method, call, query_kind, select_value_kind,
  exists_value_kind, own_fields, elements,
}

abbrev pub is_from_conversion : Thrown → Bool
is_from_conversion (in_conversion e) = true
is_from_conversion _ = false

-- A worker with no callback is one that may do without.
abbrev pub IsServed : {D : Type 0} → Option (Job D) → Type 0
IsServed none = ⊥
IsServed (some j) = (j.has_callback ≡ true) ⊎ (is_evented j.work ≡ true)

-- The call throws one error and queues nothing, or it queues a worker, which has a callback unless
-- it may do without one, and throws only what the conversions log.
abbrev pub Settled : {D : Type 0} → Reply D → Type 0
Settled r =
    ((length r.thrown ≡ 1) × (r.queued ≡ none))
    ⊎ (IsServed r.queued × All (λ t. is_from_conversion t ≡ true) r.thrown)

pub conversions_only :
    (log : List Effect) → All (λ t. is_from_conversion t ≡ true) (map in_conversion log)
conversions_only [] = tt
conversions_only (e ∷ log) = (refl, conversions_only log)

module _ {D : Type 0} where
  module _ (P : Platform D) (name : List ℕ) (cache : Instance) where
    -- Every call of a queueing method throws one error and queues nothing, or it queues a worker and
    -- throws only what the conversions log. A worker with no callback is one that needs none.
    pub call-Settled : (m : Method) (info : List (V8Value D)) → Settled (call P name cache m info)
    unfolding call
    call-Settled clear_method info = ground arith
    call-Settled put_method info = ground (
      arith,
      conversions_only ((gemfire_key P (arg info 0)).log ++ (gemfire_value P (arg info 1)).log),
    )
    call-Settled get_method info = ground (arith, conversions_only (gemfire_key P (arg info 0)).log)
    call-Settled get_all_method info =
        ground (arith, conversions_only (gemfire_keys P (elements P (arg info 0))).log)
    call-Settled put_all_method info =
        ground (arith, conversions_only (gemfire_hash_map P (own_fields P (arg info 0))).log)
    call-Settled remove_method info =
        ground (arith, conversions_only (gemfire_key P (arg info 0)).log)
    call-Settled (query_method query_kind) info = ground arith
    call-Settled (query_method select_value_kind) info = ground arith
    call-Settled (query_method exists_value_kind) info = ground arith
    call-Settled server_keys_method info = ground arith
    call-Settled keys_method info = ground arith
    call-Settled values_method info = ground arith
    call-Settled entries_method info = ground arith
    call-Settled destroy_region_method info = ground arith
    call-Settled local_destroy_region_method info = ground arith

    -- Once a queued worker has run, its callback is called exactly once, with the error or the
    -- result; with no callback a region event tells of the error, and success is silent. No call
    -- goes through a NULL callback.
    pub complete-call :
        {S : Type 0} (m : Method) (info : List (V8Value D)) (j : Job D) (o : Outcome D S)
        → (call P name cache m info).queued ≡ some j
        → complete j o ≡ (elim o [
          | succeeded r s ↦ if j.has_callback then called_back r ∷ [] else []
          | errored e s ↦ if j.has_callback then called_back_error e ∷ [] else error_event e ∷ []
        ])
    unfolding complete
    complete-call m info j (succeeded r s) h = ground (arith, call-Settled m info)
    complete-call m info j (errored e s) h = ground (arith, call-Settled m info)

-- Where the callback of a method stands among its arguments.
abbrev pub callback_place : Method → ℕ
callback_place clear_method = 0
callback_place put_method = 2
callback_place get_method = 1
callback_place get_all_method = 1
callback_place put_all_method = 1
callback_place remove_method = 1
callback_place (query_method kind) = 1
callback_place server_keys_method = 0
callback_place keys_method = 0
callback_place values_method = 0
callback_place entries_method = 0
callback_place destroy_region_method = 0
callback_place local_destroy_region_method = 0

module _ {D : Type 0} (P : Platform D) (name : List ℕ) (cache : Instance) where
  -- A worker is queued only if the argument in the place of the callback is a function or undefined,
  -- and it has a callback exactly if that argument is a function.
  pub call-is_function :
      (m : Method) (info : List (V8Value D)) (j : Job D)
      → (call P name cache m info).queued ≡ some j
      → (is_function_or_undefined (arg info (callback_place m)) ≡ true)
        × (j.has_callback ≡ is_function (arg info (callback_place m)))
  unfolding call
  call-is_function clear_method info j h = ground arith
  call-is_function put_method info j h = ground arith
  call-is_function get_method info j h = ground arith
  call-is_function get_all_method info j h = ground arith
  call-is_function put_all_method info j h = ground arith
  call-is_function remove_method info j h = ground arith
  call-is_function (query_method query_kind) info j h = ground arith
  call-is_function (query_method select_value_kind) info j h = ground arith
  call-is_function (query_method exists_value_kind) info j h = ground arith
  call-is_function server_keys_method info j h = ground arith
  call-is_function keys_method info j h = ground arith
  call-is_function values_method info j h = ground arith
  call-is_function entries_method info j h = ground arith
  call-is_function destroy_region_method info j h = ground arith
  call-is_function local_destroy_region_method info j h = ground arith
