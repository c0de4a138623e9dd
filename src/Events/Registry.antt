-- ===== src/Events/Registry.antt =====
-- src/region_event_registry.cpp and src/region_event_listener.cpp: the set of region wrappers, and
-- the loop that tells each wrapper of the events of its region. Regions of Geode and wrappers
-- (`node_gemfire::Region *`) are numbered by their addresses.
use node_gemfire.Base.{ℕ, List, [], ◌∷◌, ◌++◌, ltb, ◌==◌, if◌then◌else◌}
use node_gemfire.Events.Stream.{EventStream, new_stream, add, next_events}

pub data EventName : Type 0 where
  create update destroy : EventName

-- `EventStream::Event`: the name and what the listener read from the entry event.
pub record Event (P : Type 0) : Type 0 where
  pub name : EventName
  pub region : ℕ  -- getRegion
  pub payload : P  -- v8Object: key, oldValue and newValue

-- `node_gemfire::Region`
pub record Wrapper : Type 0 where
  pub address : ℕ
  pub region_ptr : ℕ

pub record Emission (P : Type 0) : Type 0 where
  pub emitter : ℕ  -- the address of the wrapper whose handle emits
  pub event_name : EventName
  pub event_payload : P

pub record Registry (P : Type 0) : Type 0 where
  pub region_set : List Wrapper  -- std::set, in the order of addresses
  pub event_stream : EventStream (Event P)
  pub listening : List ℕ  -- regions whose cache listener is the registry's
  pub emitted : List (Emission P)

-- `std::set::insert`
unfoldable pub insert : Wrapper → List Wrapper → List Wrapper
insert r [] = r ∷ []
insert r (q ∷ qs) =
    if ltb r.address q.address
    then r ∷ q ∷ qs
    else if r.address == q.address
    then q ∷ qs
    else q ∷ insert r qs

-- `std::set::erase`
unfoldable pub erase : ℕ → List Wrapper → List Wrapper
erase a [] = []
erase a (q ∷ qs) = if q.address == a then qs else q ∷ erase a qs

module _ {P : Type 0} where
  unfoldable pub new_registry : Registry P
  unfolding new_stream
  new_registry = record { region_set = []; event_stream = new_stream; listening = []; emitted = [] }

  -- `add`, where `setCacheListener` replaces the listener of the wrapper's region.
  unfoldable pub add_region : Wrapper → Registry P → Registry P
  unfolding insert
  add_region r g = record g {
    listening = r.region_ptr ∷ g.listening;
    region_set = insert r g.region_set;
  }

  -- `remove`, from the destructor of the wrapper.
  unfoldable pub remove_region : ℕ → Registry P → Registry P
  unfolding erase
  remove_region a g = record g { region_set = erase a g.region_set }

  unfoldable pub emit : EventName → ℕ → P → Registry P → Registry P
  unfolding add
  emit n r p g = record g {
    event_stream = add (record { name = n; region = r; payload = p }) g.event_stream;
  }

  -- The listener's callbacks.
  unfoldable pub after_create : ℕ → P → Registry P → Registry P
  unfolding emit
  after_create r p g = emit create r p g

  unfoldable pub after_update : ℕ → P → Registry P → Registry P
  unfolding emit
  after_update r p g = emit update r p g

  unfoldable pub after_destroy : ℕ → P → Registry P → Registry P
  unfolding emit
  after_destroy r p g = emit destroy r p g

  -- The inner loop of `publishEvents`.
  unfoldable pub publish_to : Event P → List Wrapper → List (Emission P) → List (Emission P)
  publish_to e [] log = log
  publish_to e (r ∷ rs) log = publish_to e rs (
      if r.region_ptr == e.region
      then log
        ++ record { emitter = r.address; event_name = e.name; event_payload = e.payload } ∷ []
      else log)

  -- The outer loop.
  unfoldable pub publish_all : List (Event P) → List Wrapper → List (Emission P) → List (Emission P)
  unfolding publish_to
  publish_all [] rs log = log
  publish_all (e ∷ es) rs log = publish_all es rs (publish_to e rs log)

  unfoldable pub publish_events : Registry P → Registry P
  unfolding publish_all next_events
  publish_events g =
      let (events, rest) = next_events g.event_stream in
      record g { event_stream = rest; emitted = publish_all events g.region_set g.emitted }
