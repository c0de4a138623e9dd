-- ===== src/Entry/Examples.antt =====
-- lib/binding.js with two factories that were made before the first cache.
use node_gemfire.Base.{◌⊎◌, false, ℤ, none, ◌≡◌, ◌≢◌, ◌≤◌, refl, length, true, List, [], ◌∷◌}
use node_gemfire.Conversions.Data.{undefined, string}
use node_gemfire.CacheFactory.{Factory}
use node_gemfire.CacheFactory.Examples.{simple}
use node_gemfire.Binding.{create_slot}
use node_gemfire.Entry.{
  Maker, made_of, process_ended, Entry, EntryCall, configure, create_cache_factory, call_factory,
  get_cache, a_cache, new_entry, call_entry, run_calls,
}
use node_gemfire.Entry.Count.{length-run_calls}
use node_gemfire.Entry.Laws.{is_threw, get_cache-run_calls, create-replaces}

-- Geode makes every cache.
abbrev always : Maker
always cs m = true

abbrev plain_factory : Factory
plain_factory = record { properties = none; settings = []; has_callback = true }

abbrev two_factories : List (EntryCall ℤ)
two_factories =
    create_cache_factory undefined
    ∷ create_cache_factory undefined
    ∷ call_factory 0 create_slot []
    ∷ []

unfoldable first_made : Entry
unfolding run_calls
first_made = run_calls simple always two_factories new_entry

-- A second cache replaces the first.
unfoldable second_made : Entry
unfolding first_made call_entry
second_made = (call_entry simple always (call_factory 1 create_slot []) first_made).0

get_cache-run_calls_example :
    (call_entry simple always get_cache first_made ≡ (first_made, a_cache 0))
    × (is_threw (call_entry simple always (configure (string []) undefined) first_made).1 ≡ true)
    × (is_threw (call_entry simple always (create_cache_factory undefined) first_made).1 ≡ true)
unfolding first_made
get_cache-run_calls_example =
    get_cache-run_calls simple always two_factories (string []) undefined first_made refl refl

create-replaces_example :
    ((always first_made.caches (made_of plain_factory) ≡ true)
      × ((call_entry simple always get_cache second_made).1 ≡ a_cache 1)
      × ((call_entry simple always get_cache first_made).1 ≢ a_cache 1))
    ⊎ ((always first_made.caches (made_of plain_factory) ≡ false)
        × ((c : EntryCall ℤ)
            → call_entry simple always c second_made ≡ (second_made, process_ended)))
unfolding second_made
create-replaces_example =
    create-replaces simple always two_factories 1 plain_factory [] first_made second_made refl refl
      refl refl

-- Where Geode makes no cache, the first call of `create` ends the process.
create_ends :
    (call_entry simple
      (λ cs m. false)
      get_cache
      (run_calls simple (λ cs m. false) two_factories new_entry)).1
    ≡ process_ended
unfolding run_calls
create_ends = refl

-- After configure a second configure throws.
abbrev configured_twice : List (EntryCall ℤ)
configured_twice = configure (string []) undefined ∷ configure (string []) undefined ∷ []

unfoldable made_once : Entry
unfolding run_calls
made_once = run_calls simple always configured_twice new_entry

length-run_calls_example : length made_once.caches ≤ 1
unfolding made_once
length-run_calls_example = length-run_calls simple always configured_twice made_once refl
