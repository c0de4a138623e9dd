-- ===== src/Events/Delivery.antt =====
-- What a wrapper of src/region_event_registry.cpp has emitted, and what is due to it.
use node_gemfire.Base.{ℕ, List, map, ◌==◌, select}
use node_gemfire.Events.Registry.{Event, Wrapper, Emission}

module _ {P : Type 0} where
  -- What the wrapper at an address has emitted.
  abbrev pub received : ℕ → List (Emission P) → List (Emission P)
  received a = select (λ m. m.emitter == a)

  abbrev pub emission : Wrapper → Event P → Emission P
  emission r e = record { emitter = r.address; event_name = e.name; event_payload = e.payload }

  -- The events of the wrapper's region, as the wrapper emits them.
  abbrev pub due_to : Wrapper → List (Event P) → List (Emission P)
  due_to r es = map (emission r) (select (λ e. r.region_ptr == e.region) es)
