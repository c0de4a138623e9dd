-- ===== src/Conversions/ToV8.antt =====
-- src/conversions.cpp, the overloads of v8Value, with v8Array and v8Object of src/conversions.hpp
-- and v8Error of src/exceptions.cpp.
use node_gemfire.Base.{ℕ, ℤ, ◌-◌, ◌^◌, List, none, some, if◌then◌else◌, is_above, is_below_neg}
use node_gemfire.Conversions.Strings.{v8_string_from_wstring}
use node_gemfire.Conversions.Errors.{v8_function_error}
use node_gemfire.Conversions.Data.{
  V8Value, V8Items, V8Fields, Cacheable, Cacheables, CacheableFields, CacheableEntries, Out,
  Platform, string, boolean, number, date, array, object, undefined, null, nil, cons, end, field,
  null_ptr, wide_string, narrow_string, cacheable_boolean, cacheable_double, cacheable_float,
  cacheable_int16, cacheable_int32, cacheable_int64, cacheable_date, cacheable_undefined, struct,
  object_array, array_list, vector, hash_map, hash_set, function_exception, pdx_instance, unknown,
  none_left, item, no_fields, named, entry, no_entries, throw_unknown_type, throw_gemfire,
  warn_above, warn_below, ret, emit, ◌>>=◌, same_key, both,
}

abbrev pub max_safe_integer : ℕ
max_safe_integer = 2 ^ 53 - 1

-- `Nan::Set` on an object: a new property goes to the end, an old one keeps its place. Integer keys,
-- which V8 lists first, are not told apart.
unfoldable pub set_field : {D : Type 0} → List ℕ → V8Value D → V8Fields D → V8Fields D
set_field k v end = field k v end
set_field k v (field j w fs) = if same_key k j then field k v fs else field j w (set_field k v fs)

-- v8Array, once its elements are converted.
abbrev pub as_array : {D : Type 0} → Out (V8Items D) → Out (V8Value D)
as_array m = m >>= λ vs. ret (array vs)

-- v8Value of a date, by its milliseconds.
abbrev pub v8_date : {D : Type 0} → ℤ → V8Value D
v8_date t = date t

module _ {D : Type 0} (P : Platform D) where
  unfoldable pub v8_int64 : ℤ → Out (V8Value D)
  v8_int64 n =
      if is_above max_safe_integer n
      then emit warn_above (number (P.double_of_int n))
      else if is_below_neg max_safe_integer n
      then emit warn_below (number (P.double_of_int n))
      else ret (number (P.double_of_int n))

  unfoldable mutual
    unfolding v8_string_from_wstring v8_int64 set_field

    pub v8_value : Cacheable D → Out (V8Value D)
    v8_value null_ptr = ret null
    v8_value (wide_string s) = ret (string (v8_string_from_wstring s))
    v8_value (narrow_string s) = ret (string (P.utf8_decode s))
    v8_value (cacheable_boolean b) = ret (boolean b)
    v8_value (cacheable_double d) = ret (number d)
    v8_value (cacheable_float d) = ret (number d)
    v8_value (cacheable_int16 n) = ret (number (P.double_of_int n))
    v8_value (cacheable_int32 n) = ret (number (P.double_of_int n))
    v8_value (cacheable_int64 n) = v8_int64 n
    v8_value (cacheable_date t) = ret (v8_date t)
    v8_value cacheable_undefined = ret undefined
    v8_value (struct fs) = v8_struct fs end
    v8_value (object_array xs) = as_array (v8_items xs)
    v8_value (array_list xs) = as_array (v8_items xs)
    v8_value (vector xs) = as_array (v8_items xs)
    v8_value (hash_map es) = v8_object es end
    v8_value (hash_set xs) = as_array (v8_items xs)
    v8_value (function_exception m) = ret (v8_function_error P m)
    v8_value (pdx_instance name fs) = elim (P.pdx_names name) [
      | none ↦ v8_pdx fs end
      | some e ↦ emit (throw_gemfire e) undefined
    ]
    v8_value (unknown n) = emit (throw_unknown_type n) undefined

    pub v8_items : Cacheables D → Out (V8Items D)
    v8_items none_left = ret nil
    v8_items (item c cs) = do v ← v8_value c; vs ← v8_items cs; ret (cons v vs)

    -- The loop over the fields of a struct.
    pub v8_struct : CacheableFields D → V8Fields D → Out (V8Value D)
    v8_struct no_fields done = ret (object done)
    v8_struct (named k c fs) done = do v ← v8_value c; v8_struct fs (set_field k v done)

    -- The loop over the fields of a PDX instance, with the `catch` around it.
    pub v8_pdx : CacheableFields D → V8Fields D → Out (V8Value D)
    v8_pdx no_fields done = ret (object done)
    v8_pdx (named k c fs) done = elim (P.pdx_read k c) [
      | none ↦ v8_value c >>= λ v. v8_pdx fs (set_field k v done)
      | some e ↦ emit (throw_gemfire e) undefined
    ]

    -- v8Object
    pub v8_object : CacheableEntries D → V8Fields D → Out (V8Value D)
    v8_object no_entries done = ret (object done)
    v8_object (entry k c es) done = do
      (j, v) ← both P (v8_value k) (v8_value c)
      v8_object es (set_field (P.property_key j) v done)
