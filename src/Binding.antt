-- ===== src/Binding.antt =====
-- src/binding.cpp, and the Init functions of src/cache.cpp, src/region.cpp, src/select_results.cpp and
-- src/cache_factory.cpp: what the module exports, and which method each name of a class reaches.
pub mod Properties
mod Examples
use node_gemfire.Base.{ℕ, Bool, List, [], ◌∷◌, Option, codes}
use node_gemfire.Conversions.Data.{V8Value, boolean}
use node_gemfire.Binding.Properties.{Property, define_fixed, set_property, read}
use node_gemfire.Region.Methods.{
  Method, clear_method, put_method, get_method, get_all_method, put_all_method, remove_method,
  query_method, server_keys_method, keys_method, values_method, entries_method,
  destroy_region_method, local_destroy_region_method, query_kind, select_value_kind,
  exists_value_kind,
}
use node_gemfire.CacheFactory.Setters.{
  Setter, free_connection_timeout_setter, idle_timeout_setter, load_conditioning_interval_setter,
  max_connections_setter, min_connections_setter, pdx_ignore_unread_fields_setter,
  ping_interval_setter, pr_single_hop_enabled_setter, read_timeout_setter, retry_attempts_setter,
  socket_buffer_size_setter, statistic_interval_setter, subscription_ack_interval_setter,
  subscription_enabled_setter, subscription_message_tracking_timeout_setter,
  subscription_redundancy_setter, thread_local_connections_setter,
  update_locator_list_interval_setter, server_group_setter,
}

pub data Class : Type 0 where
  cache_class region_class select_results_class cache_factory_class : Class

-- The C++ methods behind the names.
pub data CacheMethod : Type 0 where
  close_slot execute_function_slot execute_query_slot create_region_slot : CacheMethod
  get_region_slot root_regions_slot inspect_slot : CacheMethod

-- Those of regions that queue a worker, and the others.
pub data RegionMethod : Type 0 where
  queueing : Method → RegionMethod
  put_sync_slot get_sync_slot get_all_sync_slot put_all_sync_slot : RegionMethod
  execute_function_slot inspect_slot register_all_keys_slot : RegionMethod
  unregister_all_keys_slot : RegionMethod

pub data SelectResultsMethod : Type 0 where
  to_array_slot each_slot inspect_slot : SelectResultsMethod

pub data FactoryMethod : Type 0 where
  setting : Setter → FactoryMethod
  add_locator_slot add_server_slot create_slot set_slot : FactoryMethod

-- What `gemfire` has under a name.
pub data Export : Type 0 where
  text : List ℕ → Export
  connected_function : Export
  class : Class → Export
  configure_function create_cache_factory_function get_cache_function : Export  -- of lib/binding.js

-- Connected, with what Geode's distributed system answers.
unfoldable pub connected : {D : Type 0} → Bool → V8Value D
connected is_connected = boolean is_connected

-- What JavaScript passes to `initialize`: the constructor of the emitters, and `process`.
pub data Dependency : Type 0 where
  event_emitter process_object : Dependency

-- The object that Initialize returns, and the object that `dependencies` refers to.
pub record Initialized : Type 0 where
  pub gemfire : List (Property Export)
  pub dependencies : List (Property Dependency)

-- Initialize, with the version of Geode and the object that it is passed.
unfoldable pub initialize : List ℕ → List (Property Dependency) → Initialized
unfolding define_fixed set_property
initialize gemfire_version passed =
    let v = define_fixed (codes "version") (text (codes "1.0.1")) [] in
    let g = define_fixed (codes "gemfireVersion") (text gemfire_version) v in
    let c = define_fixed (codes "connected") connected_function g in
    let cache = set_property (codes "Cache") (class cache_class) c in
    let region = set_property (codes "Region") (class region_class) cache in
    let results = set_property (codes "SelectResults") (class select_results_class) region in
    record {
      gemfire = set_property (codes "CacheFactory") (class cache_factory_class) results;
      dependencies = passed;
    }

-- The constructor that executeFunction takes from the dependencies.
unfoldable pub emitter_constructor : Initialized → Option Dependency
unfolding read
emitter_constructor i = read (codes "EventEmitter") i.dependencies

-- Cache::Init
unfoldable pub cache_prototype : List (List ℕ × CacheMethod)
cache_prototype =
    (codes "close", close_slot)
    ∷ (codes "executeFunction", execute_function_slot)
    ∷ (codes "executeQuery", execute_query_slot)
    ∷ (codes "createRegion", create_region_slot)
    ∷ (codes "getRegion", get_region_slot)
    ∷ (codes "rootRegions", root_regions_slot)
    ∷ (codes "inspect", inspect_slot)
    ∷ []

-- Region::Init
unfoldable pub region_prototype : List (List ℕ × RegionMethod)
region_prototype =
    (codes "clear", queueing clear_method)
    ∷ (codes "put", queueing put_method)
    ∷ (codes "putSync", put_sync_slot)
    ∷ (codes "get", queueing get_method)
    ∷ (codes "getSync", get_sync_slot)
    ∷ (codes "getAll", queueing get_all_method)
    ∷ (codes "getAllSync", get_all_sync_slot)
    ∷ (codes "entries", queueing entries_method)
    ∷ (codes "putAll", queueing put_all_method)
    ∷ (codes "putAllSync", put_all_sync_slot)
    ∷ (codes "remove", queueing remove_method)
    ∷ (codes "query", queueing (query_method query_kind))
    ∷ (codes "selectValue", queueing (query_method select_value_kind))
    ∷ (codes "existsValue", queueing (query_method exists_value_kind))
    ∷ (codes "executeFunction", execute_function_slot)
    ∷ (codes "serverKeys", queueing server_keys_method)
    ∷ (codes "keys", queueing keys_method)
    ∷ (codes "values", queueing values_method)
    ∷ (codes "inspect", inspect_slot)
    ∷ (codes "registerAllKeys", register_all_keys_slot)
    ∷ (codes "unregisterAllKeys", unregister_all_keys_slot)
    ∷ (codes "destroyRegion", queueing destroy_region_method)
    ∷ (codes "localDestroyRegion", queueing local_destroy_region_method)
    ∷ []

-- SelectResults::Init
unfoldable pub select_results_prototype : List (List ℕ × SelectResultsMethod)
select_results_prototype =
    (codes "toArray", to_array_slot)
    ∷ (codes "each", each_slot)
    ∷ (codes "inspect", inspect_slot)
    ∷ []

-- CacheFactory::Init
unfoldable pub cache_factory_prototype : List (List ℕ × FactoryMethod)
cache_factory_prototype =
    (codes "addLocator", add_locator_slot)
    ∷ (codes "addServer", add_server_slot)
    ∷ (codes "create", create_slot)
    ∷ (codes "set", set_slot)
    ∷ (codes "setFreeConnectionTimeout", setting free_connection_timeout_setter)
    ∷ (codes "setIdleTimeout", setting idle_timeout_setter)
    ∷ (codes "setLoadConditioningInterval", setting load_conditioning_interval_setter)
    ∷ (codes "setMaxConnections", setting max_connections_setter)
    ∷ (codes "setMinConnections", setting min_connections_setter)
    ∷ (codes "setPdxIgnoreUnreadFields", setting pdx_ignore_unread_fields_setter)
    ∷ (codes "setPingInterval", setting ping_interval_setter)
    ∷ (codes "setPRSingleHopEnabled", setting pr_single_hop_enabled_setter)
    ∷ (codes "setReadTimeout", setting read_timeout_setter)
    ∷ (codes "setRetryAttempts", setting retry_attempts_setter)
    ∷ (codes "setServerGroup", setting server_group_setter)
    ∷ (codes "setSocketBufferSize", setting socket_buffer_size_setter)
    ∷ (codes "setStatisticInterval", setting statistic_interval_setter)
    ∷ (codes "setSubscriptionAckInterval", setting subscription_ack_interval_setter)
    ∷ (codes "setSubscriptionEnabled", setting subscription_enabled_setter)
    ∷ (
      codes "setSubscriptionMessageTrackingTimeout",
      setting subscription_message_tracking_timeout_setter,
    )
    ∷ (codes "setSubscriptionRedundancy", setting subscription_redundancy_setter)
    ∷ (codes "setThreadLocalConnections", setting thread_local_connections_setter)
    ∷ (codes "setUpdateLocatorListInterval", setting update_locator_list_interval_setter)
    ∷ []
