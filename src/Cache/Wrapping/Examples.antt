-- ===== src/Cache/Wrapping/Examples.antt =====
-- A region that createRegion of src/cache.cpp returns, and an event of it.
use node_gemfire.Base.{ℕ, refl, ℤ, false, List, [], ◌∷◌, none, some}
use node_gemfire.Conversions.Data.{V8Value, Cacheable, string, object, end, field}
use node_gemfire.Conversions.Examples.{plain}
use node_gemfire.Functions.Request.{done}
use node_gemfire.Functions.Request.Examples.{echo}
use node_gemfire.RegionShortcuts.{local_text, get_region_shortcut}
use node_gemfire.Events.Registry.{Event, Wrapper, create, new_registry}
use node_gemfire.Events.Stream.{push_event}
use node_gemfire.Events.WrapperSet.{wrapper_at}
use node_gemfire.Events.System.{System, start, begin, occurs, Runs, stop, go}
use node_gemfire.Events.Safety.{Grown}
use node_gemfire.Cache.{GeodeCache, create_region, type_text}
use node_gemfire.Cache.Wrapping.{wrap_returned, with_registry, Created, create_region-delivers}

-- The regions are numbered by the length of the state.
abbrev counting : GeodeCache ℕ ℕ ℕ (List (Cacheable ℤ))
counting = record {
  is_closed = λ s. false;
  close = λ s. s;
  find_pool = λ n. none;
  all_pools = [];
  query_service = λ p. none;
  region_factory = λ k. none;
  create_region = λ k p n s. done (s, s);
  new_query = λ p q. none;
  get_region = λ n s. done (some s);
  root_regions = λ s. s ∷ [];
  on_server = λ l. done [];
}

abbrev creation : List (V8Value ℤ)
creation = string (b'q' ∷ []) ∷ object (field type_text (string local_text) end) ∷ []

abbrev new_wrapper : Wrapper
new_wrapper = record { address = 40; region_ptr = 3 }

abbrev wrapped : System ℕ
wrapped =
    with_registry start
      (wrap_returned 40 (create_region plain echo counting creation 3).returned new_registry).1

abbrev created : Event ℕ
created = record { name = create; region = 3; payload = 8 }

abbrev after : System ℕ
unfolding push_event
after = record wrapped {
  registry = record (wrapped.registry) {
    event_stream = push_event created wrapped.registry.event_stream;
  };
  senders = 1;
  occurred = created ∷ [];
}

happens : Runs 40 wrapped after
unfolding after create_region get_region_shortcut wrap_returned new_registry
happens = go stop (occurs created) refl

create_region-delivers_example :
    Created plain echo counting creation 3 (create_region plain echo counting creation 3) 3
    × Grown new_wrapper wrapped after
unfolding create_region get_region_shortcut wrap_returned new_registry wrapper_at
create_region-delivers_example =
    create_region-delivers plain echo counting creation 3 40 new_wrapper begin refl refl happens
