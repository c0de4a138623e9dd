-- ===== src/CacheFactory/Examples.antt =====
-- The theorems about src/cache_factory.cpp for given arguments.
use node_gemfire.Base.{ℤ, pos, true, false, [], none, some}
use node_gemfire.Conversions.Data.{number, boolean, string, other}
use node_gemfire.CacheFactory.{Factory, Coercions}

-- Undefined is 0, false and the empty text; symbols are not converted.
abbrev pub simple : Coercions ℤ
simple = record {
  to_int = λ v. elim v [ number n ↦ some n | other s ↦ none | _ ↦ some (pos 0) ];
  to_long = λ v. elim v [ number n ↦ some n | other s ↦ none | _ ↦ some (pos 0) ];
  to_bool = λ v. elim v [ boolean b ↦ some b | other s ↦ none | _ ↦ some false ];
  to_utf8 = λ v. elim v [ string s ↦ s | _ ↦ [] ];
}

abbrev fresh : Factory
fresh = record { properties = none; settings = []; has_callback = true }
