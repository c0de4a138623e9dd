-- ===== src/Entry.antt =====
-- lib/binding.js: the object that `require("gemfire")` gives, with its one cache. The factories and
-- the caches are numbered in the order in which they are made. CacheFactory::Create does not catch an
-- exception of Geode, which ends the process. That a properties file can be read is taken for granted.
pub mod Load
pub mod Count
pub mod Laws
mod Examples
use Prim.Native.String.{String}
use node_gemfire.Base.{
  ℕ, List, [], ◌∷◌, ◌++◌, Option, none, some, codes, length, get_elem?, zero, suc, Bool, true,
  false, if◌then◌else◌,
}
use node_gemfire.Conversions.Data.{V8Value, string, function}
use node_gemfire.CacheFactory.{
  Factory, FactoryReply, Coercions, Setting, new_factory, add_locator, add_server, set, create,
}
use node_gemfire.CacheFactory.Setters.{call_setter}
use node_gemfire.Binding.{
  FactoryMethod, setting, add_locator_slot, add_server_slot, create_slot, set_slot,
}

-- The properties file and the settings that Geode made a cache with.
pub record Made : Type 0 where
  pub properties : Option (List ℕ)
  pub settings : List Setting

pub record Entry : Type 0 where
  pub cache_singleton : Option ℕ
  pub factories : List Factory
  pub caches : List Made
  pub running : Bool  -- the process has not ended

-- Whether Geode makes a cache of a properties file and settings, where it has made some already; else
-- its `create` throws.
abbrev pub Maker : Type 0
Maker = List Made → Made → Bool

pub data EntryCall (D : Type 0) : Type 0 where
  configure : V8Value D → V8Value D → EntryCall D
  create_cache_factory : V8Value D → EntryCall D
  call_factory : ℕ → FactoryMethod → List (V8Value D) → EntryCall D
  get_cache : EntryCall D

pub data EntryReply : Type 0 where
  nothing : EntryReply
  a_factory : ℕ → EntryReply
  a_cache : ℕ → EntryReply
  threw : String → EntryReply
  process_ended : EntryReply

abbrev pub new_entry : Entry
new_entry = record { cache_singleton = none; factories = []; caches = []; running = true }

-- A factory in place of another.
abbrev pub replace : List Factory → ℕ → Factory → List Factory
replace [] n f = []
replace (g ∷ gs) zero f = f ∷ gs
replace (g ∷ gs) (suc n) f = g ∷ replace gs n f

-- The cache that a factory asks Geode for.
abbrev pub made_of : Factory → Made
made_of f = record { properties = f.properties; settings = (create f).0 }

-- `create` of a factory: its callback sets `cacheSingleton`.
unfoldable pub make_cache : Maker → Factory → Entry → Entry × EntryReply
unfolding create
make_cache makes f s =
    if makes s.caches (made_of f)
    then (
      record s {
        caches = s.caches ++ made_of f ∷ [];
        cache_singleton = elim (create f).1 [
          | true ↦ some (length s.caches)
          | false ↦ s.cache_singleton
        ];
      },
      a_cache (length s.caches),
    )
    else (record s { running = false }, process_ended)

-- What configure returns, for what `create` comes to.
abbrev pub returned_of : EntryReply → EntryReply
returned_of process_ended = process_ended
returned_of _ = nothing

-- A method that makes a setting, or ends the process.
abbrev pub keep_setting : ℕ → Entry → FactoryReply → Entry × EntryReply
keep_setting n s r = if r.aborts then (record s { running = false }, process_ended) else (
  record s { factories = replace s.factories n r.factory },
  elim (r.thrown) [ none ↦ a_factory n | some m ↦ threw m ],
)

-- `if(cacheSingleton) { throw(...); }`, and the code that follows.
abbrev pub unless_made : Option ℕ → String → Entry → Entry × EntryReply → Entry × EntryReply
unless_made (some k) m s after = (s, threw m)
unless_made none m s after = after

-- `new CacheFactory`, and the code that follows.
abbrev pub with_factory :
    Option Factory → Entry → (Factory → Entry × EntryReply) → Entry × EntryReply
with_factory none s after =
    (s, threw "You must call the CacheFactory with a properties file location and a callback.")
with_factory (some f) s after = after f

-- `set`, and then `create`.
unfoldable pub create_set : Maker → FactoryReply → Entry → Entry × EntryReply
unfolding make_cache
create_set makes r s = elim (r.thrown) [
  | some m ↦ (s, threw m)
  | none ↦ (let (t, reply) = make_cache makes r.factory s in (t, returned_of reply))
]

module _ {D : Type 0} (C : Coercions D) (makes : Maker) where
  -- `configure` after the test.
  unfoldable pub configured : V8Value D → V8Value D → Entry → Entry × EntryReply
  unfolding new_factory set create_set
  configured xml props s =
      with_factory (new_factory C (props ∷ function ∷ [])) s
        (λ f. create_set makes (set C (string (codes "cache-xml-file") ∷ xml ∷ []) f) s)

  -- `createCacheFactory` after the test.
  unfoldable pub factory_made : V8Value D → Entry → Entry × EntryReply
  unfolding new_factory
  factory_made props s =
      with_factory (new_factory C (props ∷ function ∷ [])) s
        (λ f. (record s { factories = s.factories ++ f ∷ [] }, a_factory (length s.factories)))

  unfoldable pub configure_cache : V8Value D → V8Value D → Entry → Entry × EntryReply
  unfolding configured
  configure_cache xml props s =
      unless_made s.cache_singleton
        "gemfire: configure() can only be called once per process. Please call configure() once in an application initializer. Afterwards, you can call getCache() multiple times to get the cache singleton object."
        s (configured xml props s)

  unfoldable pub make_factory : V8Value D → Entry → Entry × EntryReply
  unfolding factory_made
  make_factory props s =
      unless_made s.cache_singleton
        "gemfire: configure() or createCacheFactory() can only be called once per process. Please call configure() or createCacheFactory() after a create() once in an application initializer. Afterwards, you can call getCache() multiple times to get the cache singleton object."
        s (factory_made props s)

  -- A method of a factory.
  unfoldable pub on_factory :
      ℕ → FactoryMethod → List (V8Value D) → Factory → Entry → Entry × EntryReply
  unfolding add_locator add_server set make_cache call_setter
  on_factory n (setting k) info f s = keep_setting n s (call_setter C k info f)
  on_factory n add_locator_slot info f s = keep_setting n s (add_locator C info f)
  on_factory n add_server_slot info f s = keep_setting n s (add_server C info f)
  on_factory n set_slot info f s = keep_setting n s (set C info f)
  on_factory n create_slot info f s = make_cache makes f s

  -- A call while the process runs.
  unfoldable pub call_running : EntryCall D → Entry → Entry × EntryReply
  unfolding configure_cache make_factory on_factory
  call_running (configure xml props) s = configure_cache xml props s
  call_running (create_cache_factory props) s = make_factory props s
  call_running (call_factory n m info) s = elim (get_elem? s.factories n) [
    | none ↦ (s, nothing)
    | some f ↦ on_factory n m info f s
  ]
  call_running get_cache s = elim (s.cache_singleton) [
    | none ↦ (s, threw "gemfire: You must call configure() before calling getCache().")
    | some k ↦ (s, a_cache k)
  ]

  unfoldable pub call_entry : EntryCall D → Entry → Entry × EntryReply
  unfolding call_running
  call_entry c s = if s.running then call_running c s else (s, process_ended)

  unfoldable pub run_calls : List (EntryCall D) → Entry → Entry
  unfolding call_entry
  run_calls [] s = s
  run_calls (c ∷ cs) s = run_calls cs (call_entry c s).0
