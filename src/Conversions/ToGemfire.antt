-- ===== src/Conversions/ToGemfire.antt =====
-- src/conversions.cpp: gemfireValue, gemfireKey, gemfireKeys, gemfireHashMap and gemfireVector.
-- Nan::ThrowError leaves the function running: it is an entry of the log, and the code goes on.
use mathlib.Core.Option
use node_gemfire.Base.{ℕ, true, false, List, [], ◌∷◌, Option, none, some, if◌then◌else◌}
use node_gemfire.Conversions.ClassName.{Field, get_class_name}
use node_gemfire.Conversions.Strings.{wstring_from_v8_string, c_string}
use node_gemfire.Conversions.Data.{
  V8Value, V8Items, V8Fields, Cacheable, Cacheables, Out, Platform, Written, string, string_object,
  boolean, number, number_object, date, array, boolean_object, function, object, native_error,
  undefined, null, other, nil, cons, end, field, null_ptr, wide_string, cacheable_boolean,
  cacheable_double, cacheable_date, cacheable_undefined, array_list, vector, pdx_instance,
  none_left, item, no_fields, written, refused, write_first, throw_function, throw_unknown_object,
  throw_gemfire, ret, emit, ◌>>=◌, shape, is_null,
}

-- What createPdxInstanceFactory is given: `pdxClassName.c_str()`, which ends at the first zero.
unfoldable pub pdx_class_name : List Field → List ℕ
unfolding get_class_name c_string
pdx_class_name fields = c_string (get_class_name fields)

-- The end of gemfireValue for an object: `create` and the `catch`.
unfoldable pub pdx_result : {D : Type 0} → Platform D → List ℕ → Written D → Out (Cacheable D)
pdx_result P name (refused e) = emit (throw_gemfire e) null_ptr
pdx_result P name (written fs) = elim (P.pdx_create name fs) [
  | none ↦ ret (pdx_instance name fs)
  | some e ↦ emit (throw_gemfire e) null_ptr
]

module _ {D : Type 0} (P : Platform D) where
  unfoldable mutual
    unfolding wstring_from_v8_string pdx_result pdx_class_name

    pub gemfire_value : V8Value D → Out (Cacheable D)
    gemfire_value (string s) = ret (wide_string (wstring_from_v8_string s))
    gemfire_value (string_object s) = ret (wide_string (wstring_from_v8_string s))
    gemfire_value (boolean b) = ret (cacheable_boolean b)
    gemfire_value (number d) = ret (cacheable_double d)
    gemfire_value (number_object d) = ret (cacheable_double d)
    gemfire_value (date t) = ret (cacheable_date t)
    gemfire_value (array xs) = do ys ← gemfire_items xs; ret (array_list ys)
    gemfire_value (boolean_object b) = ret (cacheable_boolean b)
    gemfire_value function = emit throw_function null_ptr
    gemfire_value (object fs) = elim (P.pdx_factory (pdx_class_name (shape fs))) [
      | some e ↦ emit (throw_gemfire e) null_ptr
      | none ↦ gemfire_fields fs >>= pdx_result P (pdx_class_name (shape fs))
    ]
    gemfire_value (native_error m fs) = elim (P.pdx_factory (pdx_class_name (shape fs))) [
      | some e ↦ emit (throw_gemfire e) null_ptr
      | none ↦ gemfire_fields fs >>= pdx_result P (pdx_class_name (shape fs))
    ]
    gemfire_value undefined = ret cacheable_undefined
    gemfire_value null = ret null_ptr
    gemfire_value (other s) = emit (throw_unknown_object s) null_ptr

    -- The loop over the elements of an array.
    pub gemfire_items : V8Items D → Out (Cacheables D)
    gemfire_items nil = ret none_left
    gemfire_items (cons v vs) = do c ← gemfire_value v; cs ← gemfire_items vs; ret (item c cs)

    -- The loop over the properties of an object.
    pub gemfire_fields : V8Fields D → Out (Written D)
    gemfire_fields end = ret (written no_fields)
    gemfire_fields (field k v fs) = do
      c ← gemfire_value v
      elim (P.pdx_write (c_string k) c) [
        | some e ↦ ret (refused e)
        | none ↦ gemfire_fields fs >>= λ rest. ret (write_first (c_string k) c rest)
      ]

  unfoldable pub gemfire_key : V8Value D → Out (Cacheable D)
  unfolding gemfire_value
  gemfire_key v = do c ← gemfire_value v; ret (if P.is_key c then c else null_ptr)

  unfoldable pub gemfire_vector : V8Items D → Out (Cacheable D)
  unfolding gemfire_items
  gemfire_vector xs = do ys ← gemfire_items xs; ret (vector ys)

  -- The loop of gemfireKeys, which gives up at the first key that is not valid.
  unfoldable pub gemfire_keys : V8Items D → Out (Option (List (Cacheable D)))
  unfolding gemfire_key
  gemfire_keys nil = ret (some [])
  gemfire_keys (cons v vs) = do
    k ← gemfire_key v
    elim (is_null k) [
      | true ↦ ret none
      | false ↦ gemfire_keys vs >>= λ ks. ret (Option.map (λ rest. k ∷ rest) ks)
    ]

  -- gemfireHashMap, which gives up at the first value that is null, with the map that is filled so far.
  unfoldable pub fill_hash_map :
      V8Fields D
      → List (Cacheable D × Cacheable D)
      → Out (Option (List (Cacheable D × Cacheable D)))
  unfolding gemfire_key
  fill_hash_map end filled = ret (some filled)
  fill_hash_map (field k v fs) filled = do
    key ← gemfire_key (string (P.utf8_decode k))
    c ← gemfire_value v
    elim (is_null c) [ true ↦ ret none | false ↦ fill_hash_map fs (P.map_insert key c filled) ]

  unfoldable pub gemfire_hash_map : V8Fields D → Out (Option (List (Cacheable D × Cacheable D)))
  unfolding fill_hash_map
  gemfire_hash_map fs = fill_hash_map fs []
