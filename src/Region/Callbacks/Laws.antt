-- ===== src/Region/Callbacks/Laws.antt =====
-- Storing and reading through the workers of src/region.cpp.
use node_gemfire.Base.{◌≡◌, false, [], ◌∷◌, ◌++◌, map, arith}
use node_gemfire.Conversions.Data.{V8Value, Platform, function, undefined, is_null}
use node_gemfire.Conversions.ToGemfire.{gemfire_value, gemfire_key}
use node_gemfire.Conversions.RoundTrip.{normal, Storable}
use node_gemfire.Conversions.RoundTrip.Laws.{IsWilling, v8_value-gemfire_value}
use node_gemfire.Conversions.Refused.{refusals, strip, gemfire_value-strip}
use node_gemfire.Region.Call.{in_conversion}
use node_gemfire.Region.Geode.{GeodeRegion, answered, open_instance}
use node_gemfire.Region.Methods.{put, get}
use node_gemfire.Region.Callbacks.{value, calls_back, run_queued}

module _ {D S : Type 0} (P : Platform D) (g : GeodeRegion D S) where
  -- With an open cache, `put` of a storable value under a valid key calls its callback once, with
  -- nothing, and `get` of that key then calls its callback once, with undefined and the normal form of
  -- the value: where Geode accepts the value, takes the entry, and reads back the entry that it took.
  pub get-put :
      (k v : V8Value D) (s t : S)
      → IsWilling P
      → Storable v
      → is_null (gemfire_key P k).value ≡ false
      → is_null (gemfire_value P v).value ≡ false
      → g.put (gemfire_key P k).value (gemfire_value P v).value s ≡ answered tt t
      → g.get (gemfire_key P k).value t ≡ answered (gemfire_value P v).value t
      → (run_queued P g (put P g.name open_instance (k ∷ v ∷ function ∷ [])) s
          ≡ record { js_calls = calls_back [] ∷ []; logged = []; state = t })
        × (run_queued P g (get P g.name open_instance (k ∷ function ∷ [])) t ≡ record {
          js_calls = calls_back (value undefined ∷ value (normal v) ∷ []) ∷ [];
          logged = [];
          state = t;
        })
  unfolding put get run_queued
  get-put k v s t w h kn vn p q =
      let (quiet, back) = v8_value-gemfire_value P w v h in (ground arith, ground arith)

  -- With an open cache and a valid key, `put` of a value throws what the conversion of the key logs, and
  -- one exception for each function and symbol in the value; it still queues the worker, whose
  -- callback is called once and with nothing, and `get` then calls its callback once, with undefined
  -- and the normal form of the value with null in their places: where that value is storable, Geode
  -- accepts it, takes the entry, and reads back the entry that it took.
  pub get-put_stripped :
      (k v : V8Value D) (s t : S)
      → IsWilling P
      → Storable (strip v)
      → is_null (gemfire_key P k).value ≡ false
      → is_null (gemfire_value P (strip v)).value ≡ false
      → g.put (gemfire_key P k).value (gemfire_value P (strip v)).value s ≡ answered tt t
      → g.get (gemfire_key P k).value t ≡ answered (gemfire_value P (strip v)).value t
      → ((put P g.name open_instance (k ∷ v ∷ function ∷ [])).thrown
          ≡ map in_conversion ((gemfire_key P k).log ++ refusals v))
        × (run_queued P g (put P g.name open_instance (k ∷ v ∷ function ∷ [])) s
            ≡ record { js_calls = calls_back [] ∷ []; logged = []; state = t })
        × (run_queued P g (get P g.name open_instance (k ∷ function ∷ [])) t ≡ record {
          js_calls = calls_back (value undefined ∷ value (normal (strip v)) ∷ []) ∷ [];
          logged = [];
          state = t;
        })
  unfolding put get run_queued
  get-put_stripped k v s t w h kn vn p q =
      let (thrown, same, none_thrown) = gemfire_value-strip P w v in
      let (quiet, back) = v8_value-gemfire_value P w (strip v) h in
      (ground arith, ground arith, ground arith)
