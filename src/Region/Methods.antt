-- ===== src/Region/Methods.antt =====
-- src/region.cpp, the methods that queue a worker. Each checks its arguments in order, asks for the
-- cache where it converts values, converts, and queues.
use Prim.Native.String.{String}
use Prim.Native.String.{◌++◌ as append}
use node_gemfire.Base.{ℕ, true, false, not, ◌||◌, List, [], ◌++◌, if◌then◌else◌, length, ltb, ◌==◌}
use node_gemfire.Conversions.Data.{
  V8Value, V8Fields, V8Items, Platform, object, native_error, array, is_array, nil,
}
use node_gemfire.Conversions.ToGemfire.{gemfire_value, gemfire_key, gemfire_keys, gemfire_hash_map}
use node_gemfire.Region.Geode.{Instance}
use node_gemfire.Region.Work.{
  Work, clear_work, put_work, get_work, get_all_work, put_all_work, remove_work, query_work,
  select_value_work, exists_value_work, server_keys_work, keys_work, values_work, entries_work,
  destroy_region_work,
}
use node_gemfire.Region.Call.{
  Reply, error, nothing, holder, arg, is_function, is_function_or_undefined, get_callback,
  is_object, reject, queue, get_cache_from_region, with_cache,
}

-- The worker class that `Query` is instantiated with.
pub data QueryKind : Type 0 where
  query_kind select_value_kind exists_value_kind : QueryKind

abbrev pub worker_name : QueryKind → String
worker_name query_kind = "query()"
worker_name select_value_kind = "selectValue()"
worker_name exists_value_kind = "existsValue()"

abbrev pub query_work_of : {D : Type 0} → QueryKind → List ℕ → Work D
query_work_of query_kind q = query_work q
query_work_of select_value_kind q = select_value_work q
query_work_of exists_value_kind q = exists_value_work q

module _ {D : Type 0} (P : Platform D) where
  -- ToObject, with its own properties.
  abbrev pub own_fields : V8Value D → V8Fields D
  own_fields (object fs) = fs
  own_fields (native_error m fs) = fs
  own_fields v = P.own_properties v

  -- `Local<Array>::Cast`, after IsArray().
  abbrev pub elements : V8Value D → V8Items D
  elements (array vs) = vs
  elements _ = nil

  unfoldable pub clear : List (V8Value D) → Reply D
  clear info =
      if not (is_function_or_undefined (arg info 0))
      then reject (error "You must pass a function as the callback to clear().")
      else queue [] clear_work (get_callback (arg info 0)) holder

  module _ (name : List ℕ) (cache : Instance) where
    unfoldable pub put : List (V8Value D) → Reply D
    unfolding get_cache_from_region
    put info =
        if ltb (length info) 2
        then reject (error "You must pass a key and value to put().")
        else if not (is_function_or_undefined (arg info 2))
        then reject (error "You must pass a function as the callback to put().")
        else with_cache (get_cache_from_region name cache) (
            let key = gemfire_key P (arg info 0) in
            let value = gemfire_value P (arg info 1) in
            queue (key.log ++ value.log) (put_work key.value value.value)
              (get_callback (arg info 2)) holder)

    unfoldable pub get : List (V8Value D) → Reply D
    unfolding get_cache_from_region
    get info =
        if not (length info == 2)
        then reject (error "You must pass a key and a callback to get().")
        else if not (is_function (arg info 1))
        then reject (error "You must pass a function as the callback to get().")
        else with_cache (get_cache_from_region name cache)
            (let key = gemfire_key P (arg info 0) in queue key.log (get_work key.value) true holder)

    unfoldable pub get_all : List (V8Value D) → Reply D
    unfolding get_cache_from_region
    get_all info =
        if length info == 0 || not (is_array (arg info 0))
        then reject (error "You must pass an array of keys and a callback to getAll().")
        else if length info == 1
        then reject (error "You must pass a callback to getAll().")
        else if not (is_function (arg info 1))
        then reject (error "You must pass a function as the callback to getAll().")
        else with_cache (get_cache_from_region name cache) (
            let keys = gemfire_keys P (elements (arg info 0)) in
            queue keys.log (get_all_work keys.value) true holder)

    unfoldable pub put_all : List (V8Value D) → Reply D
    unfolding get_cache_from_region
    put_all info =
        if length info == 0 || not (is_object (arg info 0))
        then reject (error "You must pass an object and a callback to putAll().")
        else if not (is_function_or_undefined (arg info 1))
        then reject (error "You must pass a function as the callback to putAll().")
        else with_cache (get_cache_from_region name cache) (
            let entries = gemfire_hash_map P (own_fields (arg info 0)) in
            queue entries.log (put_all_work entries.value) (get_callback (arg info 1)) holder)

    unfoldable pub remove : List (V8Value D) → Reply D
    unfolding get_cache_from_region
    remove info =
        if ltb (length info) 1
        then reject (error "You must pass a key to remove().")
        else if not (is_function_or_undefined (arg info 1))
        then reject (error "You must pass a function as the callback to remove().")
        else with_cache (get_cache_from_region name cache) (
            let key = gemfire_key P (arg info 0) in
            queue key.log (remove_work key.value) (get_callback (arg info 1)) holder)

  unfoldable pub query : QueryKind → List (V8Value D) → Reply D
  query kind info =
      if ltb (length info) 2
      then reject (
          error (
            append
              (append "You must pass a query predicate string and a callback to "
                (worker_name kind))
              "."))
      else if not (is_function (arg info 1))
      then reject (
          error
            (append (append "You must pass a function as the callback to " (worker_name kind)) "."))
      else queue [] (query_work_of kind (P.utf8_of_value (arg info 0))) true holder

  unfoldable pub server_keys : List (V8Value D) → Reply D
  server_keys info =
      if length info == 0
      then reject (error "You must pass a callback to serverKeys().")
      else if not (is_function (arg info 0))
      then reject (error "You must pass a function as the callback to serverKeys().")
      else queue [] server_keys_work true nothing

  unfoldable pub keys : List (V8Value D) → Reply D
  keys info =
      if length info == 0
      then reject (error "You must pass a callback to keys().")
      else if not (is_function (arg info 0))
      then reject (error "You must pass a function as the callback to keys().")
      else queue [] keys_work true nothing

  unfoldable pub values : List (V8Value D) → Reply D
  values info =
      if length info == 0
      then reject (error "You must pass a callback to values().")
      else if not (is_function (arg info 0))
      then reject (error "You must pass a function as the callback to values().")
      else queue [] values_work true nothing

  unfoldable pub entries : List (V8Value D) → Reply D
  entries info =
      if length info == 0
      then reject (error "You must pass a callback to entries().")
      else if not (is_function (arg info 0))
      then reject (error "You must pass a function as the callback to entries().")
      else queue [] (entries_work true) true nothing

  unfoldable pub destroy_region : List (V8Value D) → Reply D
  destroy_region info =
      if not (is_function_or_undefined (arg info 0))
      then reject (error "You must pass a function as the callback to destroyRegion().")
      else queue [] (destroy_region_work false) (get_callback (arg info 0)) holder

  unfoldable pub local_destroy_region : List (V8Value D) → Reply D
  local_destroy_region info =
      if not (is_function_or_undefined (arg info 0))
      then reject (error "You must pass a function as the callback to localDestroyRegion().")
      else queue [] (destroy_region_work true) (get_callback (arg info 0)) holder

-- The method that a JavaScript call reaches, by the names of `Region::Init`.
pub data Method : Type 0 where
  clear_method put_method get_method get_all_method put_all_method remove_method : Method
  query_method : QueryKind → Method
  server_keys_method keys_method values_method entries_method : Method
  destroy_region_method local_destroy_region_method : Method

unfoldable pub call :
    {D : Type 0} → Platform D → List ℕ → Instance → Method → List (V8Value D) → Reply D
unfolding clear put get get_all put_all remove query server_keys keys values entries destroy_region
    local_destroy_region
call P name cache clear_method info = clear P info
call P name cache put_method info = put P name cache info
call P name cache get_method info = get P name cache info
call P name cache get_all_method info = get_all P name cache info
call P name cache put_all_method info = put_all P name cache info
call P name cache remove_method info = remove P name cache info
call P name cache (query_method kind) info = query P kind info
call P name cache server_keys_method info = server_keys P info
call P name cache keys_method info = keys P info
call P name cache values_method info = values P info
call P name cache entries_method info = entries P info
call P name cache destroy_region_method info = destroy_region P info
call P name cache local_destroy_region_method info = local_destroy_region P info
