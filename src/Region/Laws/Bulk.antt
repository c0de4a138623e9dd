-- ===== src/Region/Laws/Bulk.antt =====
-- Storing and reading whole objects through src/region.cpp, putAllSync and getAllSync.
use node_gemfire.Base.{ℕ, ◌≡◌, true, false, List, [], ◌∷◌, none, Option}
use node_gemfire.Conversions.Data.{
  V8Value, V8Items, V8Fields, Cacheable, Platform, string, cons, nil, field, end, wide_string,
  is_null, ret, Out, ◌>>=◌,
}
use node_gemfire.Conversions.Strings.{c_string, wstring_from_v8_string, AllUnits}
use node_gemfire.Conversions.ToGemfire.{gemfire_value}

-- The same properties in another order.
pub data Rearranged {D : Type 0} : V8Fields D → V8Fields D → Type 0 where
  same : {fs : V8Fields D} → Rearranged fs fs
  later :
      (k : List ℕ) (v : V8Value D) {fs gs : V8Fields D}
      → Rearranged fs gs
      → Rearranged (field k v fs) (field k v gs)
  swapped :
      (k j : List ℕ) (v w : V8Value D) {fs : V8Fields D}
      → Rearranged (field k v (field j w fs)) (field j w (field k v fs))
  chained : {fs gs hs : V8Fields D} → Rearranged fs gs → Rearranged gs hs → Rearranged fs hs

module _ {D : Type 0} (P : Platform D) where
  abbrev pub key_of : List ℕ → Cacheable D
  key_of k = wide_string (wstring_from_v8_string (P.utf8_decode k))

  -- V8 gives a property the key that it was asked for, a string of 16-bit units, Geode takes the key,
  -- and no value is null.
  abbrev pub Enterable : V8Fields D → Type 0
  Enterable end = Unit {0}
  Enterable (field k v fs) =
      AllUnits (P.utf8_decode k)
      × (P.is_key (key_of k) ≡ true)
      × (P.property_key (string (c_string (P.utf8_decode k))) ≡ k)
      × (is_null (gemfire_value P v).value ≡ false)
      × Enterable fs

  -- The entries that an object stands for, their keys, and the array of the object's keys.
  abbrev pub entries_of : V8Fields D → List (Cacheable D × Cacheable D)
  entries_of end = []
  entries_of (field k v fs) = (key_of k, (gemfire_value P v).value) ∷ entries_of fs

  abbrev pub keys_of : V8Fields D → List (Cacheable D)
  keys_of end = []
  keys_of (field k v fs) = key_of k ∷ keys_of fs

  abbrev pub names_of : V8Fields D → V8Items D
  names_of end = nil
  names_of (field k v fs) = cons (string (P.utf8_decode k)) (names_of fs)

  -- One turn of the loop of gemfireHashMap, with the map so far.
  abbrev with_entry :
      Out (Cacheable D)
      → Out (Cacheable D)
      → (List (Cacheable D × Cacheable D) → Out (Option (List (Cacheable D × Cacheable D))))
      → List (Cacheable D × Cacheable D)
      → Out (Option (List (Cacheable D × Cacheable D)))
  with_entry converted_key converted fill filled = do
    key ← converted_key
    c ← converted
    elim (is_null c) [ true ↦ ret none | false ↦ fill (P.map_insert key c filled) ]
