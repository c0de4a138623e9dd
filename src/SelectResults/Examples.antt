-- ===== src/SelectResults/Examples.antt =====
-- The theorem about src/select_results.cpp for two results.
use node_gemfire.Base.{◌≡◌, ℤ, pos, List, [], ◌∷◌}
use node_gemfire.Conversions.Data.{Cacheable, cacheable_double, wide_string}
use node_gemfire.Conversions.Examples.{plain}
use node_gemfire.SelectResults.{to_array, each}
use node_gemfire.SelectResults.Laws.{elements_of, calls, each-to_array}
use node_gemfire.Conversions.Data.{function}

abbrev two : List (Cacheable ℤ)
two = cacheable_double (pos 3) ∷ wide_string (b'x' ∷ []) ∷ []

each-to_array_example :
    calls (each plain (function ∷ []) two).events ≡ elements_of (to_array plain two).value
each-to_array_example = each-to_array plain two
