-- ===== src/Region/Work.antt =====
-- src/region.cpp, the workers, and src/gemfire_worker.cpp: what runs on a worker thread, and what
-- the event loop tells JavaScript afterwards.
use node_gemfire.Base.{
  ℕ, Bool, true, false, List, [], ◌∷◌, Option, none, some, if◌then◌else◌, is_empty,
}
use node_gemfire.Conversions.Data.{Cacheable, Exception, is_null}
use node_gemfire.Region.Geode.{Answer, answered, threw, GeodeRegion}

-- The worker classes with their fields.
pub data Work (D : Type 0) : Type 0 where
  clear_work : Work D
  put_work : Cacheable D → Cacheable D → Work D
  get_work : Cacheable D → Work D
  get_all_work : Option (List (Cacheable D)) → Work D
  put_all_work : Option (List (Cacheable D × Cacheable D)) → Work D
  remove_work : Cacheable D → Work D
  query_work : List ℕ → Work D
  select_value_work : List ℕ → Work D
  exists_value_work : List ℕ → Work D
  server_keys_work : Work D
  keys_work : Work D
  values_work : Work D
  entries_work : Bool → Work D
  destroy_region_work : Bool → Work D  -- local

-- The subclasses of GemfireEventedWorker.
abbrev pub is_evented : {D : Type 0} → Work D → Bool
is_evented clear_work = true
is_evented (put_work k v) = true
is_evented (put_all_work m) = true
is_evented (remove_work k) = true
is_evented (destroy_region_work l) = true
is_evented _ = false

-- What the worker keeps for its callback.
pub data Result (D : Type 0) : Type 0 where
  no_result : Result D
  value_result : Cacheable D → Result D
  table_result : List (Cacheable D × Cacheable D) → Result D
  list_result : List (Cacheable D) → Result D
  select_result : List (Cacheable D) → Result D
  entries_result : List (Cacheable D × Cacheable D) → Result D
  bool_result : Bool → Result D

-- `SetError`: a name and a message, those of the source or those of an exception.
pub data WorkError : Type 0 where
  invalid_key : WorkError  -- InvalidKeyError, Invalid GemFire key.
  invalid_value : WorkError  -- InvalidValueError, Invalid GemFire value.
  key_not_found : WorkError  -- KeyNotFoundError, Key not found in region.
  from_exception : Exception → WorkError

-- The end of `Execute`: the result, or the error that was set.
pub data Outcome (D S : Type 0) : Type 0 where
  succeeded : Result D → S → Outcome D S
  errored : WorkError → S → Outcome D S

-- `GemfireWorker::Execute` around one call: its `catch` turns an exception into an error.
abbrev pub guarded : {D S A : Type 0} → (A → Result D) → Answer S A → Outcome D S
guarded f (answered a s) = succeeded (f a) s
guarded f (threw e s) = errored (from_exception e) s

module _ {D S : Type 0} (g : GeodeRegion D S) where
  -- `ExecuteGemfireWork` of each worker, inside `GemfireWorker::Execute`.
  unfoldable pub execute_clear : S → Outcome D S
  execute_clear s = elim (g.check_open s) [
    | threw e t ↦ errored (from_exception e) t
    | answered _ t ↦ guarded (λ _. no_result) (g.clear t)
  ]

  unfoldable pub execute_put : Cacheable D → Cacheable D → S → Outcome D S
  execute_put k v s =
      if is_null k
      then errored invalid_key s
      else if is_null v
      then errored invalid_value s
      else guarded (λ _. no_result) (g.put k v s)

  unfoldable pub execute_get : Cacheable D → S → Outcome D S
  execute_get k s = if is_null k then errored invalid_key s else guarded value_result (g.get k s)

  unfoldable pub execute_get_all : Option (List (Cacheable D)) → S → Outcome D S
  execute_get_all none s = errored invalid_key s
  execute_get_all (some ks) s =
      if is_empty ks then succeeded (table_result []) s else guarded table_result (g.get_all ks s)

  unfoldable pub execute_put_all : Option (List (Cacheable D × Cacheable D)) → S → Outcome D S
  execute_put_all none s = errored invalid_value s
  execute_put_all (some m) s = guarded (λ _. no_result) (g.put_all m s)

  unfoldable pub execute_remove : Cacheable D → S → Outcome D S
  execute_remove k s = if is_null k then errored invalid_key s else elim (g.destroy k s) [
    | answered _ t ↦ succeeded no_result t
    | threw e t ↦
        if g.is_entry_not_found e then errored key_not_found t else errored (from_exception e) t
  ]

  unfoldable pub execute_query : List ℕ → S → Outcome D S
  execute_query q s = guarded select_result (g.query q s)

  unfoldable pub execute_select_value : List ℕ → S → Outcome D S
  execute_select_value q s = guarded value_result (g.select_value q s)

  unfoldable pub execute_exists_value : List ℕ → S → Outcome D S
  execute_exists_value q s = guarded bool_result (g.exists_value q s)

  unfoldable pub execute_server_keys : S → Outcome D S
  execute_server_keys s = guarded list_result (g.server_keys s)

  unfoldable pub execute_keys : S → Outcome D S
  execute_keys s = guarded list_result (g.keys s)

  unfoldable pub execute_values : S → Outcome D S
  execute_values s = guarded list_result (g.values s)

  unfoldable pub execute_entries : Bool → S → Outcome D S
  execute_entries recursive s = guarded entries_result (g.entries recursive s)

  unfoldable pub execute_destroy_region : Bool → S → Outcome D S
  execute_destroy_region true s = guarded (λ _. no_result) (g.local_destroy_region s)
  execute_destroy_region false s = guarded (λ _. no_result) (g.destroy_region s)

  unfoldable pub execute : Work D → S → Outcome D S
  unfolding execute_clear execute_put execute_get execute_get_all execute_put_all execute_remove
      execute_query execute_select_value execute_exists_value execute_server_keys execute_keys
      execute_values execute_entries execute_destroy_region
  execute clear_work s = execute_clear s
  execute (put_work k v) s = execute_put k v s
  execute (get_work k) s = execute_get k s
  execute (get_all_work ks) s = execute_get_all ks s
  execute (put_all_work m) s = execute_put_all m s
  execute (remove_work k) s = execute_remove k s
  execute (query_work q) s = execute_query q s
  execute (select_value_work q) s = execute_select_value q s
  execute (exists_value_work q) s = execute_exists_value q s
  execute server_keys_work s = execute_server_keys s
  execute keys_work s = execute_keys s
  execute values_work s = execute_values s
  execute (entries_work recursive) s = execute_entries recursive s
  execute (destroy_region_work local) s = execute_destroy_region local s

-- A queued worker, with whether its callback is not NULL.
pub record Job (D : Type 0) : Type 0 where
  pub work : Work D
  pub has_callback : Bool

-- What JavaScript is told.
pub data Notice (D : Type 0) : Type 0 where
  called_back : Result D → Notice D  -- the callback, with no error
  called_back_error : WorkError → Notice D  -- the callback, with an error object
  error_event : WorkError → Notice D  -- `emitError` on the region object
  null_dereference : Notice D  -- a call through a NULL callback

-- `HandleOKCallback`
unfoldable pub handle_ok : {D : Type 0} → Job D → Result D → List (Notice D)
handle_ok j r =
    if j.has_callback
    then called_back r ∷ []
    else if is_evented j.work
    then []
    else null_dereference ∷ []

-- `HandleErrorCallback`
unfoldable pub handle_error : {D : Type 0} → Job D → WorkError → List (Notice D)
handle_error j e =
    if j.has_callback
    then called_back_error e ∷ []
    else if is_evented j.work
    then error_event e ∷ []
    else null_dereference ∷ []

-- Nan::AsyncWorker calls `HandleErrorCallback` if an error message was set, and else
-- `HandleOKCallback`.
unfoldable pub complete : {D S : Type 0} → Job D → Outcome D S → List (Notice D)
unfolding handle_ok handle_error
complete j (succeeded r s) = handle_ok j r
complete j (errored e s) = handle_error j e
