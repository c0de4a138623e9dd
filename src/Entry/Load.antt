-- ===== src/Entry/Load.antt =====
-- lib/binding.js, as lib/index.js calls it: what loading the module makes. `E` stands for the methods
-- of Node's EventEmitter, whose prototype is a parameter; its names are those that `for in` visits.
mod Examples
use mathlib.Core.Option
use node_gemfire.Base.{
  ℕ, ◌≡◌, refl, sym, ap, ◌∙◌, List, [], ◌∷◌, Option, none, some, map, arith, codes, if◌then◌else◌,
}
use node_gemfire.Binding.{
  RegionMethod, region_prototype, Export, text, connected_function, class, cache_class,
  select_results_class, cache_factory_class, configure_function, create_cache_factory_function,
  get_cache_function, Dependency, event_emitter, process_object, Initialized, initialize,
  emitter_constructor,
}
use node_gemfire.Binding.Properties.{
  Property, Change, plain, set_property, delete_property, find, read, set_all, change_all, under,
  AllPlain, IsFixed, read-IsFixed, change_all-IsFixed, set_all-AllPlain, read-set_all,
}

-- What a property of Region's prototype holds.
pub data Slot (E : Type 0) : Type 0 where
  native : RegionMethod → Slot E
  inherited : E → Slot E

pub record Loaded (E : Type 0) : Type 0 where
  pub initialized : Initialized
  pub region_methods : List (Property (Slot E))

-- `{ EventEmitter: EventEmitter, process: process }`
abbrev pub passed_dependencies : List (Property Dependency)
passed_dependencies =
    plain (codes "EventEmitter") event_emitter ∷ plain (codes "process") process_object ∷ []

-- The functions that are assigned, and the classes that are deleted.
unfoldable pub dress : List (Property Export) → List (Property Export)
unfolding set_property delete_property
dress gemfire =
    let c = set_property (codes "configure") configure_function gemfire in
    let f = set_property (codes "createCacheFactory") create_cache_factory_function c in
    let g = set_property (codes "getCache") get_cache_function f in
    let no_cache = delete_property (codes "Cache") g in
    let no_factory = delete_property (codes "CacheFactory") no_cache in
    delete_property (codes "Region") no_factory

kept :
    (k : List ℕ) (a : Export) (changes : List (Change Export)) (ps : List (Property Export))
    {qs : List (Property Export)}
    → IsFixed k a ps
    → change_all changes ps ≡ qs
    → read k qs ≡ some a
kept k a changes ps h e =
    ap (read k) (sym e)
    ∙ read-IsFixed k a (change_all changes ps) (change_all-IsFixed k a changes ps h)

module _ {E : Type 0} where
  -- Region's prototype, as Region::Init leaves it.
  unfoldable pub native_methods : List (Property (Slot E))
  unfolding set_all
  native_methods = set_all (map (λ m. (m.0, native m.1)) region_prototype) []

  -- The loop of `inherits`.
  unfoldable pub inherits : List (List ℕ × E) → List (Property (Slot E)) → List (Property (Slot E))
  unfolding set_property
  inherits [] target = target
  inherits ((key, e) ∷ more) target = inherits more (set_property key (inherited e) target)

  unfoldable pub load_binding : List ℕ → List (List ℕ × E) → Loaded E
  unfolding initialize dress
  load_binding gemfire_version emitter_prototype =
      let i = initialize gemfire_version passed_dependencies in
      record {
        initialized = record i { gemfire = dress i.gemfire };
        region_methods = inherits emitter_prototype native_methods;
      }

  -- The method of an emitter that executeFunction makes.
  unfoldable pub emitter_method : List ℕ → List (List ℕ × E) → Initialized → Option E
  unfolding emitter_constructor
  emitter_method name emitter_prototype i = elim (emitter_constructor i) [
    | some event_emitter ↦ under name emitter_prototype
    | some process_object ↦ none
    | none ↦ none
  ]

  under-map :
      {A : Type 0} (f : A → Slot E) (k : List ℕ) (l : List (List ℕ × A))
      → under k (map (λ m. (m.0, f m.1)) l) ≡ Option.map f (under k l)
  under-map f k [] = refl
  under-map f k (m ∷ more) = ground (arith, under-map f k more)

  inherits-set_all :
      (source : List (List ℕ × E)) (target : List (Property (Slot E)))
      → inherits source target ≡ set_all (map (λ m. (m.0, inherited m.1)) source) target
  unfolding inherits set_all
  inherits-set_all [] target = refl
  inherits-set_all ((k, e) ∷ more) target =
      inherits-set_all more (set_property k (inherited e) target)

native_methods-AllPlain : (E : Type 0) → AllPlain (native_methods {E = E})
unfolding native_methods
native_methods-AllPlain E =
    set_all-AllPlain {A = Slot E} (map (λ m. (m.0, native m.1)) region_prototype) [] tt

module _ {E : Type 0} where
  read-native_methods :
      (name : List ℕ)
      → read name (native_methods {E = E}) ≡ Option.map native (under name region_prototype)
  unfolding native_methods read
  read-native_methods name = ground (
    arith,
    read-set_all {A = Slot E} name (map (λ m. (m.0, native m.1)) region_prototype) [] tt,
    under-map {E = E} native name region_prototype,
  )

  read-inherits :
      (name : List ℕ) (source : List (List ℕ × E)) (target : List (Property (Slot E)))
      → AllPlain target
      → read name (inherits source target)
        ≡ (elim (under name source) [ some e ↦ some (inherited e) | none ↦ read name target ])
  read-inherits name source target h = ground (
    arith,
    inherits-set_all source target,
    read-set_all name (map (λ m. (m.0, inherited m.1)) source) target h,
    under-map {E = E} inherited name source,
  )

  -- After loading, a region has under every name EventEmitter's method if there is one, and else the
  -- C++ method that Region::Init sets; and an emitter that executeFunction makes has EventEmitter's
  -- method.
  pub load_binding-reaches :
      (gemfire_version name : List ℕ) (emitter_prototype : List (List ℕ × E))
      → (read name (load_binding gemfire_version emitter_prototype).region_methods
          ≡ (elim (under name emitter_prototype) [
            | some e ↦ some (inherited e)
            | none ↦ Option.map native (under name region_prototype)
          ]))
        × (emitter_method name emitter_prototype
              (load_binding gemfire_version emitter_prototype).initialized
            ≡ under name emitter_prototype)
  unfolding load_binding emitter_method
  load_binding-reaches gemfire_version name emitter_prototype = (
    ground (
      arith,
      read-inherits name emitter_prototype native_methods (native_methods-AllPlain E),
      read-native_methods name,
    ),
    refl,
  )

  -- After loading, whatever JavaScript assigns to the module's properties or deletes, its version,
  -- Geode's version and `connected` are what C++ defined.
  pub load_binding-keeps :
      (gemfire_version : List ℕ) (emitter_prototype : List (List ℕ × E))
      (changes : List (Change Export)) (gemfire : List (Property Export))
      → change_all changes (load_binding gemfire_version emitter_prototype).initialized.gemfire
        ≡ gemfire
      → (read (codes "version") gemfire ≡ some (text (codes "1.0.1")))
        × (read (codes "gemfireVersion") gemfire ≡ some (text gemfire_version))
        × (read (codes "connected") gemfire ≡ some connected_function)
  unfolding load_binding find
  load_binding-keeps gemfire_version emitter_prototype changes gemfire e =
      let start = (load_binding gemfire_version emitter_prototype).initialized.gemfire in
      (
        kept (codes "version") (text (codes "1.0.1")) changes start refl e,
        kept (codes "gemfireVersion") (text gemfire_version) changes start refl e,
        kept (codes "connected") connected_function changes start refl e,
      )
