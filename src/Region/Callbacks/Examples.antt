-- ===== src/Region/Callbacks/Examples.antt =====
-- The theorems about the callbacks of src/region.cpp for a region that is a list of entries.
use node_gemfire.Base.{◌≡◌, refl, [], ◌∷◌}
use node_gemfire.Conversions.Data.{function, undefined, throw_function, throw_unknown_object}
use node_gemfire.Conversions.ToGemfire.{gemfire_key, gemfire_value}
use node_gemfire.Conversions.RoundTrip.{normal}
use node_gemfire.Conversions.Refused.{refusals, strip}
use node_gemfire.Conversions.Examples.{
  plain, plain-IsWilling, sample, sample-Storable, mixed, stripped, stripped-Storable,
}
use node_gemfire.Region.Call.{in_conversion}
use node_gemfire.Region.Geode.{open_instance}
use node_gemfire.Region.Methods.{put, get}
use node_gemfire.Region.Examples.{Entries, shelf, a_key, stored}
use node_gemfire.Region.Callbacks.{value, calls_back, run_queued}
use node_gemfire.Region.Callbacks.Laws.{get-put, get-put_stripped}

get-put_run :
    (run_queued plain shelf (put plain shelf.name open_instance (a_key ∷ sample ∷ function ∷ [])) []
      ≡ record { js_calls = calls_back [] ∷ []; logged = []; state = stored })
    × (run_queued plain shelf (get plain shelf.name open_instance (a_key ∷ function ∷ [])) stored
        ≡ record {
          js_calls = calls_back (value undefined ∷ value (normal sample) ∷ []) ∷ [];
          logged = [];
          state = stored;
        })
unfolding gemfire_key gemfire_value
get-put_run =
    get-put plain shelf a_key sample [] stored plain-IsWilling sample-Storable refl refl refl refl

unfoldable mixed_stored : Entries
unfolding gemfire_key gemfire_value
mixed_stored = ((gemfire_key plain a_key).value, (gemfire_value plain stripped).value) ∷ []

get-put_stripped_example :
    ((put plain shelf.name open_instance (a_key ∷ mixed ∷ function ∷ [])).thrown
      ≡ in_conversion throw_function ∷ in_conversion (throw_unknown_object (b's' ∷ [])) ∷ [])
    × (run_queued plain shelf
          (put plain shelf.name open_instance (a_key ∷ mixed ∷ function ∷ []))
          []
        ≡ record { js_calls = calls_back [] ∷ []; logged = []; state = mixed_stored })
    × (run_queued plain shelf
          (get plain shelf.name open_instance (a_key ∷ function ∷ []))
          mixed_stored
        ≡ record {
          js_calls = calls_back (value undefined ∷ value (normal stripped) ∷ []) ∷ [];
          logged = [];
          state = mixed_stored;
        })
unfolding mixed_stored gemfire_key gemfire_value refusals strip
get-put_stripped_example =
    get-put_stripped plain shelf a_key mixed [] mixed_stored plain-IsWilling stripped-Storable refl
      refl refl refl
