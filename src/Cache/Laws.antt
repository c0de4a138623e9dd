-- ===== src/Cache/Laws.antt =====
-- Properties of src/cache.cpp.
use node_gemfire.Base.{
  ℕ, ◌≡◌, ◌↔◌, Bool, not, ◌&&◌, refl, true, false, List, [], ◌∷◌, Option, none, some, arith, length,
  if◌then◌else◌, is_empty,
}
use node_gemfire.Conversions.Data.{
  V8Value, V8Items, Platform, is_array, string, array, function, undefined,
}
use node_gemfire.Region.Call.{arg, is_undefined, is_object, error}
use node_gemfire.Functions.Request.{done, GeodeExecution, not_started, filter_text}
use node_gemfire.RegionShortcuts.{RegionShortcut, get_region_shortcut}
use node_gemfire.Cache.{
  GeodeCache, type_text, pool_name_text, create_region, get_region, ran, undefined_behaviour,
  execute_on_cache,
}
use node_gemfire.Cache.Query.{
  QueryArguments, bad_query, good_query, check_query, run_query, execute_query,
}

module _ {D S R L X : Type 0} (P : Platform D) (G : GeodeExecution D X)
    (C : GeodeCache S R L X) where
  -- The parameters of a query are dropped if they are passed with no options: executeQuery with a
  -- string, an array that has no property poolName and a callback does what it does without the array.
  pub execute_query-parameters_alone :
      (q : List ℕ) (vs : V8Items D) (s : S)
      → G.get_property pool_name_text (array vs) ≡ undefined
      → execute_query P G C (string q ∷ array vs ∷ function ∷ []) s
        ≡ execute_query P G C (string q ∷ function ∷ []) s
  unfolding execute_query
  execute_query-parameters_alone q vs s h = rw h refl

  run_query-closed :
      (q : List ℕ) (a : QueryArguments D) (s : S)
      → C.is_closed s ≡ true
      → ((run_query P G C q a s).queued ≡ none) × (length (run_query P G C q a s).thrown ≡ 1)
  unfolding run_query
  run_query-closed q (bad_query m) s h = (refl, refl)
  run_query-closed q (good_query p params) s h = rw h (refl, refl)

  -- On a closed cache executeQuery throws one error and queues nothing, and executeFunction throws that
  -- the cache is closed and starts nothing.
  pub closed_cache :
      (info : List (V8Value D)) (s : S)
      → C.is_closed s ≡ true
      → ((execute_query P G C info s).queued ≡ none)
        × (length (execute_query P G C info s).thrown ≡ 1)
        × (execute_on_cache P G C info s
            ≡ ran (record {
              thrown = error "Cannot execute function; cache is closed." ∷ [];
              started = not_started;
            }))
  unfolding execute_query execute_on_cache
  closed_cache info s h =
      let query = run_query-closed (P.utf8_of_value (arg info 0)) (check_query P G C info) s h in
      (query.0, query.1, rw h refl)

  region_of_shortcut :
      (info : List (V8Value D)) (s : S) (r : R) (o : Option RegionShortcut)
      → ((k : RegionShortcut) (pool : Option (List ℕ)) (n : List ℕ) (s t : S) (q : R)
          → C.create_region k pool n s ≡ done (q, t)
          → C.get_region n t ≡ done (some q))
      → get_region_shortcut (P.utf8_of_value (G.get_property type_text (arg info 1))) ≡ o
      → (create_region P G C info s).returned ≡ some r
      → get_region P G C (arg info 0 ∷ []) (create_region P G C info s).state ≡ record {
        uncaught = none;
        thrown = [];
        returned = some r;
        state = (create_region P G C info s).state;
      }
  unfolding create_region get_region
  region_of_shortcut info s r none found e h = ground arith
  region_of_shortcut info s r (some k) found e h =
      let pool : Option (List ℕ) =
        if is_undefined (G.get_property pool_name_text (arg info 1))
        then none
        else some (P.utf8_of_value (G.get_property pool_name_text (arg info 1))) in
      ground
        (arith, found k pool (P.utf8_of_value (arg info 0)) s (create_region P G C info s).state r)

  -- Where Geode finds a region under the name under which it was created, getRegion returns the region
  -- that createRegion has returned, and throws nothing.
  pub get_region-create_region :
      (info : List (V8Value D)) (s : S) (r : R)
      → ((k : RegionShortcut) (pool : Option (List ℕ)) (n : List ℕ) (s t : S) (q : R)
          → C.create_region k pool n s ≡ done (q, t)
          → C.get_region n t ≡ done (some q))
      → (create_region P G C info s).returned ≡ some r
      → get_region P G C (arg info 0 ∷ []) (create_region P G C info s).state ≡ record {
        uncaught = none;
        thrown = [];
        returned = some r;
        state = (create_region P G C info s).state;
      }
  get_region-create_region info s r found h = region_of_shortcut info s r _ found refl h

  -- The options name neither a filter nor a pool, or there are none.
  abbrev pub asks_any_pool : List (V8Value D) → Bool
  asks_any_pool info =
      if is_object (arg info 1) && not (is_array (arg info 1))
      then is_undefined (G.get_property filter_text (arg info 1))
        && is_undefined (G.get_property pool_name_text (arg info 1))
      else true

  -- executeFunction on a cache reads past the end of an empty map exactly if the cache is open, the
  -- options name neither a filter nor a pool, and there is no pool; else it has defined behaviour.
  pub execute_on_cache-all_pools :
      (info : List (V8Value D)) (s : S)
      → (execute_on_cache P G C info s ≡ undefined_behaviour)
        ↔ ((C.is_closed s ≡ false) × (asks_any_pool info ≡ true) × (is_empty C.all_pools ≡ true))
  unfolding execute_on_cache
  execute_on_cache-all_pools info s = (λ e. ground arith, λ h. ground arith)
