-- ===== src/Region/Callbacks.antt =====
-- src/region.cpp and src/gemfire_worker.cpp, with src/exceptions.cpp and src/events.cpp: what
-- JavaScript is called with when a worker has run.
pub mod Laws
mod Examples
use node_gemfire.Base.{ℕ, Bool, List, [], ◌∷◌, ◌++◌, Option, none, some, map, codes}
use node_gemfire.Conversions.Data.{
  V8Value, Cacheable, Exception, Effect, Platform, Out, native_error, undefined, string, boolean,
  array, field, end, ret, ◌>>=◌,
}
use node_gemfire.Conversions.ToV8.{v8_value}
use node_gemfire.Conversions.Errors.{v8_error}
use node_gemfire.Region.Geode.{GeodeRegion}
use node_gemfire.Region.Work.{
  Result, no_result, value_result, table_result, list_result, select_result, entries_result,
  bool_result, WorkError, invalid_key, invalid_value, key_not_found, from_exception, Outcome,
  succeeded, errored, execute, Job, Notice, called_back, called_back_error, error_event,
  null_dereference, complete,
}
use node_gemfire.Region.Call.{Reply}
use node_gemfire.Region.Results.{
  v8_table, v8_list, v8_entries, v8_hash_map, v8_vector, v8_entry_vector, v8_boolean,
}

-- `SetError`: the name and the message of an error.
unfoldable pub set_error : WorkError → Exception
set_error invalid_key = record {
  exception_name = codes "InvalidKeyError";
  message = codes "Invalid GemFire key.";
}
set_error invalid_value = record {
  exception_name = codes "InvalidValueError";
  message = codes "Invalid GemFire value.";
}
set_error key_not_found = record {
  exception_name = codes "KeyNotFoundError";
  message = codes "Key not found in region.";
}
set_error (from_exception e) = e

-- An argument of a callback; the result of a query is an object of its own class.
pub data Argument (D : Type 0) : Type 0 where
  value : V8Value D → Argument D
  select_results : List (Cacheable D) → Argument D

-- What JavaScript sees.
pub data JsCall (D : Type 0) : Type 0 where
  calls_back : List (Argument D) → JsCall D
  emits_error : V8Value D → JsCall D  -- `emit` of the region with "error"
  crashes : JsCall D

pub record Told (D S : Type 0) : Type 0 where
  pub js_calls : List (JsCall D)
  pub logged : List Effect
  pub state : S

-- v8Value of the results of a query, by SelectResults::NewInstance.
abbrev pub v8_select_results : {D : Type 0} → List (Cacheable D) → Argument D
v8_select_results cs = select_results cs

module _ {D : Type 0} (P : Platform D) where
  -- The arguments in `HandleOKCallback` of each worker.
  unfoldable pub ok_arguments : Result D → Out (List (Argument D))
  unfolding v8_value v8_table v8_list v8_entries
  ok_arguments no_result = ret []
  ok_arguments (value_result c) = do v ← v8_value P c; ret (value undefined ∷ value v ∷ [])
  ok_arguments (table_result table) = do
    v ← v8_hash_map P table
    ret (value undefined ∷ value v ∷ [])
  ok_arguments (list_result cs) = do v ← v8_vector P cs; ret (value undefined ∷ value v ∷ [])
  ok_arguments (select_result cs) = ret (value undefined ∷ v8_select_results cs ∷ [])
  ok_arguments (entries_result es) = do
    v ← v8_entry_vector P es
    ret (value undefined ∷ value v ∷ [])
  ok_arguments (bool_result b) = ret (value undefined ∷ value (v8_boolean b) ∷ [])

  -- errorObject makes the same Error of the name and the message as v8Error.
  unfoldable pub tell : Notice D → Out (JsCall D)
  unfolding ok_arguments v8_error set_error
  tell (called_back r) = do args ← ok_arguments r; ret (calls_back args)
  tell (called_back_error e) = ret (calls_back (value (v8_error P (set_error e)) ∷ []))
  tell (error_event e) = ret (emits_error (v8_error P (set_error e)))
  tell null_dereference = ret crashes

  unfoldable pub tell_all : List (Notice D) → Out (List (JsCall D))
  unfolding tell
  tell_all [] = ret []
  tell_all (n ∷ ns) = do c ← tell n; cs ← tell_all ns; ret (c ∷ cs)

module _ {D S : Type 0} where
  abbrev pub state_of : Outcome D S → S
  state_of (succeeded r s) = s
  state_of (errored e s) = s

module _ {D S : Type 0} (P : Platform D) (g : GeodeRegion D S) where
  -- A worker from the queue to its callback.
  unfoldable pub run_job : Job D → S → Told D S
  unfolding execute complete tell_all
  run_job j s =
      let outcome = execute g j.work s in
      let calls = tell_all P (complete j outcome) in
      record { js_calls = calls.value; logged = calls.log; state = state_of outcome }

  -- The worker that a method has queued, if it has.
  unfoldable pub run_queued : Reply D → S → Told D S
  unfolding run_job
  run_queued r s = elim (r.queued) [
    | none ↦ record { js_calls = []; logged = []; state = s }
    | some j ↦ run_job j s
  ]
