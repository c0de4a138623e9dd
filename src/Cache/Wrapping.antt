-- ===== src/Cache/Wrapping.antt =====
-- src/region.cpp, Region::NewInstance, with the destructor in src/region.hpp: the regions that the
-- methods of src/cache.cpp return are wrapped, and every wrapper is registered for events. Regions of
-- Geode and wrappers are numbered by their addresses.
mod Examples
use node_gemfire.Base.{
  ℕ, ◌≡◌, refl, sym, subst, List, [], ◌∷◌, Option, none, some, arith, true, if◌then◌else◌,
}
use node_gemfire.Conversions.Data.{V8Value, Platform}
use node_gemfire.Region.Call.{arg, is_object, is_undefined}
use node_gemfire.RegionShortcuts.{RegionShortcut, get_region_shortcut}
use node_gemfire.Functions.Request.{GeodeExecution, done, is_string}
use node_gemfire.Events.Registry.{Wrapper, Registry, add_region, remove_region}
use node_gemfire.Events.WrapperSet.{wrapper_at, wrapper_at-insert}
use node_gemfire.Events.System.{System, Reach, then_step, wraps, Runs}
use node_gemfire.Events.Safety.{Grown, run_delivers, Reach-Alive, Alive}
use node_gemfire.Cache.{
  GeodeCache, type_text, pool_name_text, RegionReply, create_region, root_regions,
}

module _ {P : Type 0} where
  -- Region::NewInstance, where `new` gives the address.
  unfoldable pub new_instance : ℕ → ℕ → Registry P → Wrapper × Registry P
  unfolding add_region
  new_instance address region g =
      let w : Wrapper = record { address = address; region_ptr = region } in (w, add_region w g)

  -- Region::~Region
  unfoldable pub finalize : Wrapper → Registry P → Registry P
  unfolding remove_region
  finalize w g = remove_region w.address g

  -- The last lines of createRegion and getRegion: a region is wrapped, and else undefined is returned.
  unfoldable pub wrap_returned : ℕ → Option ℕ → Registry P → Option Wrapper × Registry P
  unfolding new_instance
  wrap_returned address none g = (none, g)
  wrap_returned address (some region) g = let (w, h) = new_instance address region g in (some w, h)

  -- The loop of rootRegions, which wraps each region anew.
  unfoldable pub wrap_all : List (ℕ × ℕ) → Registry P → List Wrapper × Registry P
  unfolding new_instance
  wrap_all [] g = ([], g)
  wrap_all ((address, region) ∷ more) g =
      let (w, h) = new_instance address region g in let (ws, k) = wrap_all more h in (w ∷ ws, k)

  abbrev pub with_registry : System P → Registry P → System P
  with_registry s g = record s { registry = g }

  returned_delivers :
      (address : ℕ) (o : Option ℕ) (w : Wrapper) {s t : System P}
      → Reach s
      → wrapper_at address s.registry.region_set ≡ none
      → (wrap_returned address o s.registry).0 ≡ some w
      → Runs address (with_registry s (wrap_returned address o s.registry).1) t
      → Grown w (with_registry s (wrap_returned address o s.registry).1) t
  unfolding wrap_returned add_region
  returned_delivers address none w r n e runs = cc
  returned_delivers address (some region) w {s} {t} r n e runs =
      let v : Wrapper = record { address = address; region_ptr = region } in
      let same : v ≡ w = ground arith in
      let i : Alive s = Reach-Alive r in
      subst (λ x. Grown x (with_registry s (add_region v s.registry)) t) same
        (run_delivers v (then_step r (wraps v))
          (ground (arith, wrapper_at-insert address v s.registry.region_set i.ascending)) runs)

module _ {P : Type 0} where
  wrap_returned-region :
      (address : ℕ) (o : Option ℕ) (w : Wrapper) (g : Registry P)
      → (wrap_returned address o g).0 ≡ some w
      → o ≡ some w.region_ptr
  unfolding wrap_returned
  wrap_returned-region address none w g h = cc
  wrap_returned-region address (some region) w g h = ground arith

module _ {D S L X : Type 0} (V : Platform D) (G : GeodeExecution D X) (C : GeodeCache S ℕ L X) where
  abbrev pub pool_of : V8Value D → Option (List ℕ)
  pool_of name = if is_undefined name then none else some (V.utf8_of_value name)

  -- What createRegion asked of Geode: a region with the name that it was passed, of the type and in the
  -- pool that the configuration names.
  pub record Created (info : List (V8Value D)) (cache : S) (reply : RegionReply S ℕ) (region : ℕ)
      : Type 0 where
    pub shortcut : RegionShortcut
    pub named : is_string (arg info 0) ≡ true
    pub with_object : is_object (arg info 1) ≡ true
    pub typed :
        get_region_shortcut (V.utf8_of_value (G.get_property type_text (arg info 1)))
        ≡ some shortcut
    pub made :
        C.create_region shortcut
          (pool_of (G.get_property pool_name_text (arg info 1)))
          (V.utf8_of_value (arg info 0))
          cache
        ≡ done (region, reply.state)
    pub silent : reply.thrown ≡ []

  shortcut-Created :
      (info : List (V8Value D)) (cache : S) (region : ℕ) (o : Option RegionShortcut)
      → get_region_shortcut (V.utf8_of_value (G.get_property type_text (arg info 1))) ≡ o
      → (create_region V G C info cache).returned ≡ some region
      → Created info cache (create_region V G C info cache) region
  unfolding create_region
  shortcut-Created info cache region none e h = ground arith
  shortcut-Created info cache region (some k) e h = record {
    shortcut = k;
    named = ground arith;
    with_object = ground arith;
    typed = e;
    made = ground arith;
    silent = ground arith;
  }

module _ {P D S L X : Type 0} (V : Platform D) (G : GeodeExecution D X)
    (C : GeodeCache S ℕ L X) where
  -- If createRegion returns a wrapper at a fresh address, then it was passed a name and a configuration
  -- object with a known type, has thrown nothing, and Geode has created the region of the wrapper, with
  -- that name, of that type and in the pool of the configuration, and left the cache in the state that
  -- it is in after the call; and from then on the wrapper receives the events of that region that wait
  -- or occur, each once and in order, as long as it is not deleted; of the events of a publication that
  -- is going on, those at which the iterator still comes to it.
  pub create_region-delivers :
      (info : List (V8Value D)) (cache : S) (address : ℕ) (w : Wrapper) {s t : System P}
      → Reach s
      → wrapper_at address s.registry.region_set ≡ none
      → (wrap_returned address (create_region V G C info cache).returned s.registry).0 ≡ some w
      → Runs address
          (with_registry s
            (wrap_returned address (create_region V G C info cache).returned s.registry).1)
          t
      → Created V G C info cache (create_region V G C info cache) w.region_ptr
        × Grown w
            (with_registry s
              (wrap_returned address (create_region V G C info cache).returned s.registry).1)
            t
  create_region-delivers info cache address w {s} r n e runs = (
    shortcut-Created V G C info cache w.region_ptr
        (get_region_shortcut (V.utf8_of_value (G.get_property type_text (arg info 1)))) refl
        (wrap_returned-region address (create_region V G C info cache).returned w s.registry e),
    returned_delivers address (create_region V G C info cache).returned w r n e runs,
  )
