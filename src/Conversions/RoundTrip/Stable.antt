-- ===== src/Conversions/RoundTrip/Stable.antt =====
-- src/conversions.cpp: gemfireValue of a value that v8Value has read.
use node_gemfire.Base.{ℕ, ◌≡◌, refl, List, [], ◌∷◌, none, some, arith}
use node_gemfire.Conversions.ClassName.{Field}
use node_gemfire.Conversions.Strings.{c_string, wstring_from_v8_string}
use node_gemfire.Conversions.Data.{
  V8Value, V8Items, V8Fields, Cacheable, Out, Platform, Written, string, string_object, boolean,
  number, number_object, date, array, boolean_object, function, object, native_error, undefined,
  null, other, nil, cons, end, field, ret, ◌>>=◌, shape, write_first, refused, is_array, emit,
  throw_gemfire, null_ptr,
}
use node_gemfire.Conversions.ToGemfire.{
  pdx_class_name, gemfire_value, gemfire_items, gemfire_fields, pdx_result,
}
use node_gemfire.Conversions.ToV8.{v8_value}
use node_gemfire.Conversions.RoundTrip.{normal, normal_items, normal_fields, Storable}
use node_gemfire.Conversions.RoundTrip.Laws.{IsWilling, v8_value-gemfire_value}

wstring_from_v8_string-c_string :
    (s : List ℕ) → wstring_from_v8_string (c_string s) ≡ wstring_from_v8_string s
unfolding wstring_from_v8_string c_string
wstring_from_v8_string-c_string [] = refl
wstring_from_v8_string-c_string (c ∷ cs) = ground (arith, wstring_from_v8_string-c_string cs)

module _ {D : Type 0} where
  is_array-normal : (v : V8Value D) → is_array (normal v) ≡ is_array v
  unfolding normal
  is_array-normal (string s) = refl
  is_array-normal (string_object s) = refl
  is_array-normal (boolean b) = refl
  is_array-normal (number d) = refl
  is_array-normal (number_object d) = refl
  is_array-normal (date t) = refl
  is_array-normal (array vs) = refl
  is_array-normal (boolean_object b) = refl
  is_array-normal function = refl
  is_array-normal (object fs) = refl
  is_array-normal (native_error m fs) = refl
  is_array-normal undefined = refl
  is_array-normal null = refl
  is_array-normal (other s) = refl

  shape-normal_fields : (fs : V8Fields D) → shape (normal_fields fs) ≡ shape fs
  unfolding normal shape
  shape-normal_fields end = refl
  shape-normal_fields (field k v fs) = ground (arith, is_array-normal v, shape-normal_fields fs)

module _ {D : Type 0} (P : Platform D) where
  -- gemfireValue of an object, from what it reads of its fields.
  abbrev from_fields : List Field → Out (Written D) → Out (Cacheable D)
  from_fields fields writes = elim (P.pdx_factory (pdx_class_name fields)) [
    | some e ↦ emit (throw_gemfire e) null_ptr
    | none ↦ writes >>= pdx_result P (pdx_class_name fields)
  ]

  -- One turn of the loop over the properties.
  abbrev with_field : List ℕ → Out (Cacheable D) → Out (Written D) → Out (Written D)
  with_field k converted writes = converted >>= λ c. elim (P.pdx_write (c_string k) c) [
    | some e ↦ ret (refused e)
    | none ↦ writes >>= λ rest. ret (write_first (c_string k) c rest)
  ]

  mutual
    unfolding gemfire_value normal

    same_value : (v : V8Value D) → gemfire_value P (normal v) ≡ gemfire_value P v
    same_value (string s) = rw (wstring_from_v8_string-c_string s)
    same_value (string_object s) = rw (wstring_from_v8_string-c_string s)
    same_value (boolean b) = refl
    same_value (number d) = refl
    same_value (number_object d) = refl
    same_value (date t) = refl
    same_value (array vs) = rw (same_items vs)
    same_value (boolean_object b) = refl
    same_value function = refl
    same_value (object fs) = λ i. from_fields (shape-normal_fields fs i) (same_fields fs i)
    same_value (native_error m fs) = λ i. from_fields (shape-normal_fields fs i) (same_fields fs i)
    same_value undefined = refl
    same_value null = refl
    same_value (other s) = refl

    same_items : (vs : V8Items D) → gemfire_items P (normal_items vs) ≡ gemfire_items P vs
    same_items nil = refl
    same_items (cons v vs) = rw (same_value v, same_items vs)

    same_fields : (fs : V8Fields D) → gemfire_fields P (normal_fields fs) ≡ gemfire_fields P fs
    same_fields end = refl
    same_fields (field k v fs) = λ i. with_field k (same_value v i) (same_fields fs i)

  -- A value that was stored and read back is stored as what it was stored as before, and storing it
  -- again throws nothing: where Geode accepts every PDX class, field and instance, for a storable value.
  pub gemfire_value-v8_value :
      (v : V8Value D)
      → IsWilling P
      → Storable v
      → gemfire_value P (v8_value P (gemfire_value P v).value).value ≡ ret (gemfire_value P v).value
  gemfire_value-v8_value v w h =
      let (quiet, back) = v8_value-gemfire_value P w v h in
      ground (arith, quiet, back, same_value v)
