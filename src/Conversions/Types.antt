-- ===== src/Conversions/Types.antt =====
-- src/conversions.cpp: which values come out of the conversions, whatever goes in.
use node_gemfire.Base.{ℕ, ℤ, ◌≡◌, false, List, Option, none, some, arith}
use node_gemfire.Conversions.Data.{
  V8Value, V8Items, V8Fields, Cacheable, Cacheables, CacheableFields, CacheableEntries, Platform,
  string_object, number_object, array, boolean_object, function, object, native_error, undefined,
  other, nil, cons, end, field, null_ptr, wide_string, narrow_string, cacheable_boolean,
  cacheable_double, cacheable_float, cacheable_int16, cacheable_int32, cacheable_int64,
  cacheable_date, cacheable_undefined, struct, object_array, array_list, vector, hash_map, hash_set,
  function_exception, pdx_instance, unknown, none_left, item, no_fields, named, entry, no_entries,
  same_key, Exception, Out, emit, throw_gemfire, ◌>>=◌,
}
use node_gemfire.Conversions.ToV8.{
  set_field, v8_int64, v8_value, v8_items, v8_struct, v8_pdx, v8_object,
}
use node_gemfire.Conversions.Keys.{same_key-eq}
use node_gemfire.Conversions.RoundTrip.{Absent}

module _ {D : Type 0} where
  -- Plain data: no functions, no wrapper objects and no symbols, and no key twice in an object.
  abbrev mutual
    pub IsData : V8Value D → Type 0
    IsData (string_object s) = ⊥
    IsData (number_object d) = ⊥
    IsData (boolean_object b) = ⊥
    IsData function = ⊥
    IsData (other s) = ⊥
    IsData (array vs) = AreData vs
    IsData (object fs) = DataFields fs
    IsData (native_error m fs) = DataFields fs
    IsData _ = Unit {0}

    pub AreData : V8Items D → Type 0
    AreData nil = Unit {0}
    AreData (cons v vs) = IsData v × AreData vs

    pub DataFields : V8Fields D → Type 0
    DataFields end = Unit {0}
    DataFields (field k v fs) = Absent k fs × IsData v × DataFields fs

  set_field-Absent :
      (i k : List ℕ) (v : V8Value D) (fs : V8Fields D)
      → Absent i fs
      → same_key k i ≡ false
      → Absent i (set_field k v fs)
  unfolding set_field
  set_field-Absent i k v end h e = (e, tt)
  set_field-Absent i k v (field j w fs) h e = ground (arith, set_field-Absent i k v fs h.1 e)

  set_field-DataFields :
      (k : List ℕ) (v : V8Value D) (fs : V8Fields D)
      → IsData v
      → DataFields fs
      → DataFields (set_field k v fs)
  unfolding set_field
  set_field-DataFields k v end d h = (tt, d, tt)
  set_field-DataFields k v (field j w fs) d h =
      ground
        (arith, set_field-DataFields k v fs d h.2, set_field-Absent j k v fs h.0, same_key-eq k j)

  -- The `catch` around a field of a PDX instance.
  caught-IsData :
      (o : Option Exception) (m : Out (V8Value D))
      → IsData m.value
      → IsData
          (elim o as (λ x. Out (V8Value D)) [
            | none ↦ m
            | some e ↦ emit (throw_gemfire e) undefined
          ]).value
  caught-IsData none m h = h
  caught-IsData (some e) m h = tt

  module _ (P : Platform D) where
    v8_int64-IsData : (n : ℤ) → IsData (v8_int64 P n).value
    unfolding v8_int64
    v8_int64-IsData n = ground arith

    mutual
      unfolding v8_value

      cacheable-IsData : (c : Cacheable D) → IsData (v8_value P c).value
      cacheable-IsData null_ptr = tt
      cacheable-IsData (wide_string s) = tt
      cacheable-IsData (narrow_string s) = tt
      cacheable-IsData (cacheable_boolean b) = tt
      cacheable-IsData (cacheable_double d) = tt
      cacheable-IsData (cacheable_float d) = tt
      cacheable-IsData (cacheable_int16 n) = tt
      cacheable-IsData (cacheable_int32 n) = tt
      cacheable-IsData (cacheable_int64 n) = v8_int64-IsData n
      cacheable-IsData (cacheable_date t) = tt
      cacheable-IsData cacheable_undefined = tt
      cacheable-IsData (struct fs) = v8_struct-IsData fs end tt
      cacheable-IsData (object_array xs) = v8_items-AreData xs
      cacheable-IsData (array_list xs) = v8_items-AreData xs
      cacheable-IsData (vector xs) = v8_items-AreData xs
      cacheable-IsData (hash_map es) = v8_object-IsData es end tt
      cacheable-IsData (hash_set xs) = v8_items-AreData xs
      cacheable-IsData (function_exception m) = tt
      cacheable-IsData (pdx_instance name fs) =
          caught-IsData (P.pdx_names name) (v8_pdx P fs end) (v8_pdx-IsData fs end tt)
      cacheable-IsData (unknown n) = tt

      v8_items-AreData : (cs : Cacheables D) → AreData (v8_items P cs).value
      v8_items-AreData none_left = tt
      v8_items-AreData (item c cs) = (cacheable-IsData c, v8_items-AreData cs)

      v8_struct-IsData :
          (fs : CacheableFields D) (made : V8Fields D)
          → DataFields made
          → IsData (v8_struct P fs made).value
      v8_struct-IsData no_fields made h = h
      v8_struct-IsData (named k c fs) made h =
          v8_struct-IsData fs (set_field k (v8_value P c).value made)
            (set_field-DataFields k (v8_value P c).value made (cacheable-IsData c) h)

      v8_pdx-IsData :
          (fs : CacheableFields D) (made : V8Fields D)
          → DataFields made
          → IsData (v8_pdx P fs made).value
      v8_pdx-IsData no_fields made h = h
      v8_pdx-IsData (named k c fs) made h =
          caught-IsData (P.pdx_read k c) (v8_value P c >>= λ v. v8_pdx P fs (set_field k v made)) (
            v8_pdx-IsData fs (set_field k (v8_value P c).value made)
              (set_field-DataFields k (v8_value P c).value made (cacheable-IsData c) h))

      v8_object-IsData :
          (es : CacheableEntries D) (made : V8Fields D)
          → DataFields made
          → IsData (v8_object P es made).value
      v8_object-IsData no_entries made h = h
      v8_object-IsData (entry k c es) made h =
          v8_object-IsData es
            (set_field (P.property_key (v8_value P k).value) (v8_value P c).value made)
            (set_field-DataFields (P.property_key (v8_value P k).value) (v8_value P c).value made
              (cacheable-IsData c) h)

    -- Whatever value Geode gives whose type ids above CacheableStringHuge are all of PDX instances,
    -- JavaScript gets plain data: no functions, wrapper objects or symbols at any depth, and objects
    -- with each key once.
    pub v8_value-IsData : (c : Cacheable D) → IsData (v8_value P c).value
    v8_value-IsData c = cacheable-IsData c
