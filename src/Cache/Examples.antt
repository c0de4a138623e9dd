-- ===== src/Cache/Examples.antt =====
-- src/cache.cpp and src/region_shortcuts.cpp for a cache whose regions are their names.
use node_gemfire.Base.{
  ℕ, ◌≡◌, ◌↔◌, refl, ℤ, pos, Bool, true, false, List, [], ◌∷◌, Option, none, some,
}
use node_gemfire.Conversions.Data.{
  V8Value, V8Items, undefined, Cacheable, string, number, array, object, function, end, field, cons,
  nil,
}
use node_gemfire.Conversions.Examples.{plain}
use node_gemfire.Functions.Request.{done}
use node_gemfire.Functions.Request.Examples.{echo}
use node_gemfire.RegionShortcuts.{local, local_text, get_region_shortcut}
use node_gemfire.Cache.{GeodeCache, undefined_behaviour, execute_on_cache, type_text}
use node_gemfire.Cache.Query.{QueryJob}
use node_gemfire.Conversions.ToGemfire.{gemfire_vector}
use node_gemfire.Region.Geode.{answered}
use node_gemfire.Cache.Query.Worker.{GeodeQuery}
use node_gemfire.Cache.Query.Signature.{expected_job, asked}
use node_gemfire.Cache.Laws.{execute_on_cache-all_pools, asks_any_pool}

-- The state is the name of the last region that was created.
abbrev cache_of : Bool → List ℕ → GeodeCache (List ℕ) (List ℕ) ℕ (List (Cacheable ℤ))
cache_of closed pools = record {
  is_closed = λ s. closed;
  close = λ s. s;
  find_pool = λ n. none;
  all_pools = pools;
  query_service = λ p. none;
  region_factory = λ k. none;
  create_region = λ k p n s. done (n, n);
  new_query = λ p q. none;
  get_region = λ n s. done (some s);
  root_regions = λ s. s ∷ [];
  on_server = λ l. done [];
}

abbrev query_text : V8Value ℤ
query_text = string (b'q' ∷ [])

local_known : get_region_shortcut local_text ≡ some local
unfolding get_region_shortcut
local_known = refl

-- `createRegion("q", { type: "LOCAL" })`
abbrev creation : List (V8Value ℤ)
creation = query_text ∷ object (field type_text (string local_text) end) ∷ []

execute_on_cache-all_pools_example :
    (execute_on_cache plain echo (cache_of false []) (query_text ∷ []) [] ≡ undefined_behaviour) ↔ (
      (false ≡ false)
      × (asks_any_pool plain echo (cache_of false []) (query_text ∷ []) ≡ true)
      × (true ≡ true))
execute_on_cache-all_pools_example =
    execute_on_cache-all_pools plain echo (cache_of false []) (query_text ∷ []) []

with_no_pool :
    execute_on_cache plain echo (cache_of false []) (query_text ∷ []) [] ≡ undefined_behaviour
unfolding execute_on_cache
with_no_pool = refl

-- Geode answers a query with its parameters.
abbrev answering : GeodeQuery ℤ ℕ
answering = λ q pool params s. answered (params ∷ []) s

abbrev three : V8Items ℤ
three = cons (number (pos 3)) nil

-- `executeQuery("q", [3], undefined, callback)`
abbrev query_info : List (V8Value ℤ)
query_info = query_text ∷ array three ∷ undefined ∷ function ∷ []

abbrev expected : Option (QueryJob ℤ)
expected =
    expected_job plain echo (cache_of false []) (b'q' ∷ [])
      (asked plain echo (cache_of false []) query_info) []

expected_query :
    expected
    ≡ some (record {
      query_string = b'q' ∷ [];
      pool = none;
      query_params = (gemfire_vector plain three).value;
    })
expected_query = refl
