-- ===== src/Cache.antt =====
-- src/cache.cpp: the JavaScript class around Geode's Cache.
pub mod Laws
pub mod Wrapping
pub mod Query
mod Examples
use Prim.Native.String.{String}
use node_gemfire.Base.{
  ◌⊎◌, inl, inr, ℕ, Bool, true, false, not, ◌||◌, ◌&&◌, List, [], ◌∷◌, ◌++◌, Option, none, some,
  if◌then◌else◌, codes, length, ltb, ◌==◌, map,
}
use node_gemfire.Conversions.Data.{
  V8Value, Cacheable, Platform, Exception, Out, undefined, is_array, same_key, null_ptr, ret,
  string,
}
use node_gemfire.Conversions.ToGemfire.{gemfire_vector}
use node_gemfire.Region.Call.{
  Thrown, error, in_conversion, gemfire, invalid_pool, arg, is_object, is_undefined, is_function,
}
use node_gemfire.Region.Methods.{elements}
use node_gemfire.RegionShortcuts.{RegionShortcut, get_region_shortcut}
use node_gemfire.Functions.Request.{
  Attempt, done, raised, GeodeExecution, FunctionReply, not_started, execute_function, is_string,
  filter_text, convert_filter,
}

-- Geode's cache, with states `S`, regions `R`, pools `L` and executions `X`.
pub record GeodeCache (S R L X : Type 0) : Type 0 where
  pub is_closed : S → Bool
  pub close : S → S
  pub find_pool : List ℕ → Option L  -- PoolManager::find
  pub all_pools : List L  -- PoolManager::getAll
  pub query_service : Option (List ℕ) → Option Exception  -- what getQueryService throws
  pub new_query : Option (List ℕ) → List ℕ → Option Exception  -- what newQuery throws
  pub region_factory : RegionShortcut → Option Exception  -- what createRegionFactory throws
  pub create_region : RegionShortcut → Option (List ℕ) → List ℕ → S → Attempt (R × S)
  pub get_region : List ℕ → S → Attempt (Option R)
  pub root_regions : S → List R
  pub on_server : L → Attempt X

abbrev pub pool_name_text : List ℕ
pool_name_text = b'p' ∷ b'o' ∷ b'o' ∷ b'l' ∷ b'N' ∷ b'a' ∷ b'm' ∷ b'e' ∷ []

abbrev type_text : List ℕ
type_text = b't' ∷ b'y' ∷ b'p' ∷ b'e' ∷ []

-- What getPool comes to.
pub data PoolAnswer (L : Type 0) : Type 0 where
  a_pool : L → PoolAnswer L
  null_pool : PoolAnswer L
  past_the_end : PoolAnswer L  -- `second` of the end of an empty map

pub data Ran (A : Type 0) : Type 0 where
  ran : A → Ran A
  undefined_behaviour : Ran A

pub record RegionReply (S R : Type 0) : Type 0 where
  pub uncaught : Option Exception  -- leaves the method, which ends the process
  pub thrown : List Thrown
  pub returned : Option R  -- nothing is undefined
  pub state : S

module _ {D S R L X : Type 0} (P : Platform D) (G : GeodeExecution D X)
    (C : GeodeCache S R L X) where
  unfoldable pub close : S → S
  close s = if not (C.is_closed s) then C.close s else s

  -- Cache::~Cache, when the wrapper is deleted.
  unfoldable pub finalize : S → S
  unfolding close
  finalize s = close s

  -- closeCacheAtExit, where nothing is a NULL `closeThisCache`.
  unfoldable pub close_cache_at_exit : Option S → Option S
  close_cache_at_exit none = none
  close_cache_at_exit (some s) = some (if not (C.is_closed s) then C.close s else s)

  unfoldable pub inspect : V8Value D
  inspect = string (P.utf8_decode (codes "[Cache]"))

  -- createRegion: the shortcut is looked up by the type property.
  unfoldable pub create_region : List (V8Value D) → S → RegionReply S R
  create_region info s =
      let refuse : Thrown → RegionReply S R =
        λ t. record { uncaught = none; thrown = t ∷ []; returned = none; state = s } in
      let type = G.get_property type_text (arg info 1) in
      let pool_name = G.get_property pool_name_text (arg info 1) in
      if length info == 0
      then refuse (
          error
            "createRegion: You must pass the name of a GemFire region to create and a region configuration object.")
      else if not (is_string (arg info 0))
      then refuse (error "createRegion: You must pass a string as the name of a GemFire region.")
      else if not (is_object (arg info 1))
      then refuse
          (error "createRegion: You must pass a configuration object as the second argument.")
      else if is_undefined type
      then refuse (error "createRegion: The region configuration object must have a type property.")
      else elim (get_region_shortcut (P.utf8_of_value type)) [
        | none ↦ refuse (error "createRegion: This type is not a valid GemFire client region type")
        | some shortcut ↦ elim (C.region_factory shortcut) [
          | some e ↦ refuse (gemfire e)
          | none ↦
              elim (C.create_region shortcut
                (if is_undefined pool_name then none else some (P.utf8_of_value pool_name))
                (P.utf8_of_value (arg info 0)) s) [
                  | raised e ↦ refuse (gemfire e)
                  | done (r, t) ↦ record {
                    uncaught = none;
                    thrown = [];
                    returned = some r;
                    state = t;
                  }
                ]
        ]
      ]

  -- getRegion, which calls Geode outside any `try`.
  unfoldable pub get_region : List (V8Value D) → S → RegionReply S R
  get_region info s =
      if not (length info == 1)
      then record {
        uncaught = none;
        thrown = error "You must pass the name of a GemFire region to getRegion." ∷ [];
        returned = none;
        state = s;
      }
      else if not (is_string (arg info 0))
      then record {
        uncaught = none;
        thrown = error "You must pass a string as the name of a GemFire region to getRegion." ∷ [];
        returned = none;
        state = s;
      }
      else elim (C.get_region (P.utf8_of_value (arg info 0)) s) [
        | done r ↦ record { uncaught = none; thrown = []; returned = r; state = s }
        | raised e ↦ record { uncaught = some e; thrown = []; returned = none; state = s }
      ]

  unfoldable pub root_regions : S → List R
  root_regions s = map (λ r. r) (C.root_regions s)

  unfoldable pub get_pool : V8Value D → PoolAnswer L
  get_pool pool_name =
      if not (is_undefined pool_name)
      then elim (C.find_pool (P.utf8_of_value pool_name)) [ none ↦ null_pool | some l ↦ a_pool l ]
      else elim (C.all_pools) [ [] ↦ past_the_end | l ∷ ls ↦ a_pool l ]

  -- The `try` of executeFunction.
  unfoldable pub run_on_pool : List (V8Value D) → V8Value D → PoolAnswer L → Ran (FunctionReply D X)
  unfolding execute_function
  run_on_pool info pool_name (a_pool l) = elim (C.on_server l) [
    | done x ↦ ran (execute_function P G info x)
    | raised e ↦ ran (record { thrown = gemfire e ∷ []; started = not_started })
  ]
  run_on_pool info pool_name null_pool =
      ran (record { thrown = invalid_pool (P.utf8_of_value pool_name) ∷ []; started = not_started })
  run_on_pool info pool_name past_the_end = undefined_behaviour

  -- `Cache::ExecuteFunction`
  unfoldable pub execute_on_cache : List (V8Value D) → S → Ran (FunctionReply D X)
  unfolding get_pool run_on_pool
  execute_on_cache info s =
      if C.is_closed s
      then ran (record {
        thrown = error "Cannot execute function; cache is closed." ∷ [];
        started = not_started;
      })
      else if is_object (arg info 1) && not (is_array (arg info 1))
      then (if not (is_undefined (G.get_property filter_text (arg info 1)))
          then ran (record {
            thrown = error "You cannot pass a filter to executeFunction for a Cache." ∷ [];
            started = not_started;
          })
          else (let pool_name = G.get_property pool_name_text (arg info 1) in
              run_on_pool info pool_name (get_pool pool_name)))
      else run_on_pool info undefined (get_pool undefined)
