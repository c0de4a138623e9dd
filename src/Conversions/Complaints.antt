-- ===== src/Conversions/Complaints.antt =====
-- src/conversions.cpp: what v8Value warns of and throws, at any depth of a value.
use node_gemfire.Base.{
  suc, Bool, ℤ, pos, negsuc, ◌≡◌, refl, List, [], ◌∷◌, ◌++◌, append-nil, arith, leb, if◌then◌else◌,
}
use node_gemfire.Conversions.Data.{
  V8Fields, Cacheable, Cacheables, CacheableFields, CacheableEntries, Platform, Effect, null_ptr,
  wide_string, narrow_string, cacheable_boolean, cacheable_double, cacheable_float, cacheable_int16,
  cacheable_int32, cacheable_int64, cacheable_date, cacheable_undefined, struct, object_array,
  array_list, vector, hash_map, hash_set, function_exception, pdx_instance, unknown, none_left,
  item, no_fields, named, no_entries, entry, warn_above, warn_below, throw_unknown_type,
}
use node_gemfire.Conversions.ToV8.{
  v8_value, v8_items, v8_struct, v8_pdx, v8_object, v8_int64, set_field, max_safe_integer,
}
use node_gemfire.Conversions.RoundTrip.Laws.{IsWilling}

-- A warning for an integer whose magnitude is above 2^53 - 1.
abbrev pub integer_complaints : ℤ → List Effect
integer_complaints (pos n) = if leb n max_safe_integer then [] else warn_above ∷ []
integer_complaints (negsuc n) = if leb (suc n) max_safe_integer then [] else warn_below ∷ []

module _ {D : Type 0} (key_first : Bool) where
  -- One warning for each 64-bit integer of such a magnitude, and one exception for each value of an
  -- unknown type, in order; in a hash map each key stands before its value, or each value before its
  -- key.
  unfoldable mutual
    pub complaints : Cacheable D → List Effect
    complaints (cacheable_int64 n) = integer_complaints n
    complaints (struct fs) = field_complaints fs
    complaints (object_array xs) = item_complaints xs
    complaints (array_list xs) = item_complaints xs
    complaints (vector xs) = item_complaints xs
    complaints (hash_map es) = entry_complaints es
    complaints (hash_set xs) = item_complaints xs
    complaints (pdx_instance n fs) = field_complaints fs
    complaints (unknown n) = throw_unknown_type n ∷ []
    complaints _ = []

    pub item_complaints : Cacheables D → List Effect
    item_complaints none_left = []
    item_complaints (item c cs) = complaints c ++ item_complaints cs

    pub field_complaints : CacheableFields D → List Effect
    field_complaints no_fields = []
    field_complaints (named k c fs) = complaints c ++ field_complaints fs

    pub entry_complaints : CacheableEntries D → List Effect
    entry_complaints no_entries = []
    entry_complaints (entry k c es) =
        (if key_first then complaints k ++ complaints c else complaints c ++ complaints k)
        ++ entry_complaints es

module _ {D : Type 0} (P : Platform D) (w : IsWilling P) where
  v8_int64-complaints : (n : ℤ) → (v8_int64 P n).log ≡ integer_complaints n
  unfolding v8_int64
  v8_int64-complaints (pos n) = ground arith
  v8_int64-complaints (negsuc n) = ground arith

  mutual
    unfolding v8_value complaints

    value_log : (c : Cacheable D) → (v8_value P c).log ≡ complaints P.key_first c
    value_log null_ptr = refl
    value_log (wide_string s) = refl
    value_log (narrow_string s) = refl
    value_log (cacheable_boolean b) = refl
    value_log (cacheable_double d) = refl
    value_log (cacheable_float d) = refl
    value_log (cacheable_int16 n) = refl
    value_log (cacheable_int32 n) = refl
    value_log (cacheable_int64 n) = v8_int64-complaints n
    value_log (cacheable_date t) = refl
    value_log cacheable_undefined = refl
    value_log (struct fs) = struct_log fs V8Fields.end
    value_log (object_array xs) = simp (items_log xs, append-nil)
    value_log (array_list xs) = simp (items_log xs, append-nil)
    value_log (vector xs) = simp (items_log xs, append-nil)
    value_log (hash_map es) = object_log es V8Fields.end
    value_log (hash_set xs) = simp (items_log xs, append-nil)
    value_log (function_exception m) = refl
    value_log (pdx_instance n fs) = ground (arith, w.names n, pdx_log fs V8Fields.end)
    value_log (unknown n) = refl

    items_log : (cs : Cacheables D) → (v8_items P cs).log ≡ item_complaints P.key_first cs
    items_log none_left = refl
    items_log (item c cs) = simp (value_log c, items_log cs, append-nil)

    struct_log :
        (fs : CacheableFields D) (done : V8Fields D)
        → (v8_struct P fs done).log ≡ field_complaints P.key_first fs
    struct_log no_fields done = refl
    struct_log (named k c fs) done =
        simp (value_log c, struct_log fs (set_field k (v8_value P c).value done))

    pdx_log :
        (fs : CacheableFields D) (done : V8Fields D)
        → (v8_pdx P fs done).log ≡ field_complaints P.key_first fs
    pdx_log no_fields done = refl
    pdx_log (named k c fs) done =
        ground (arith, w.read k c, value_log c, pdx_log fs (set_field k (v8_value P c).value done))

    object_log :
        (es : CacheableEntries D) (done : V8Fields D)
        → (v8_object P es done).log ≡ entry_complaints P.key_first es
    object_log no_entries done = refl
    object_log (entry k c es) done = ground (
      arith,
      value_log k,
      value_log c,
      object_log es (set_field (P.property_key (v8_value P k).value) (v8_value P c).value done),
    )

  -- Where Geode accepts and reads every PDX instance, v8Value of a value whose type ids above
  -- CacheableStringHuge are all of PDX instances warns once of each 64-bit integer whose magnitude is
  -- above 2^53 - 1 and throws once for each value of an unknown type, at any depth, and nothing else:
  -- in order, but each key of a hash map before its value, or each value before its key, as the
  -- compiler has it.
  pub v8_value-log : (c : Cacheable D) → (v8_value P c).log ≡ complaints P.key_first c
  v8_value-log c = value_log c
