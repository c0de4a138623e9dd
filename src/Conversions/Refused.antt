-- ===== src/Conversions/Refused.antt =====
-- src/conversions.cpp: what gemfireValue does with functions and symbols, at any depth of a value.
use node_gemfire.Base.{ℕ, ◌≡◌, refl, ap, List, [], ◌∷◌, ◌++◌, append-nil, arith}
use node_gemfire.Conversions.Strings.{c_string, wstring_from_v8_string}
use node_gemfire.Conversions.Data.{
  V8Value, V8Items, V8Fields, Cacheable, Cacheables, CacheableFields, Platform, Out, Effect, string,
  string_object, boolean, number, number_object, date, array, boolean_object, function, object,
  native_error, undefined, null, other, nil, cons, end, field, written, no_fields, named, none_left,
  item, ret, shape, is_array, cacheable_boolean, wide_string, cacheable_double, cacheable_date,
  cacheable_undefined, array_list, null_ptr, pdx_instance, throw_function, throw_unknown_object,
}
use node_gemfire.Conversions.ToGemfire.{
  pdx_class_name, gemfire_value, gemfire_items, gemfire_fields,
}
use node_gemfire.Conversions.RoundTrip.Laws.{IsWilling}

module _ {D : Type 0} where
  -- One exception for each function and each symbol of a value, in order.
  unfoldable mutual
    pub refusals : V8Value D → List Effect
    refusals function = throw_function ∷ []
    refusals (other s) = throw_unknown_object s ∷ []
    refusals (array vs) = refusals_items vs
    refusals (object fs) = refusals_fields fs
    refusals (native_error m fs) = refusals_fields fs
    refusals _ = []

    pub refusals_items : V8Items D → List Effect
    refusals_items nil = []
    refusals_items (cons v vs) = refusals v ++ refusals_items vs

    pub refusals_fields : V8Fields D → List Effect
    refusals_fields end = []
    refusals_fields (field k v fs) = refusals v ++ refusals_fields fs

  -- The value with null in the place of each function and each symbol.
  unfoldable mutual
    pub strip : V8Value D → V8Value D
    strip function = null
    strip (other s) = null
    strip (array vs) = array (strip_items vs)
    strip (object fs) = object (strip_fields fs)
    strip (native_error m fs) = native_error m (strip_fields fs)
    strip (string s) = string s
    strip (string_object s) = string_object s
    strip (boolean b) = boolean b
    strip (number d) = number d
    strip (number_object d) = number_object d
    strip (date t) = date t
    strip (boolean_object b) = boolean_object b
    strip undefined = undefined
    strip null = null

    pub strip_items : V8Items D → V8Items D
    strip_items nil = nil
    strip_items (cons v vs) = cons (strip v) (strip_items vs)

    pub strip_fields : V8Fields D → V8Fields D
    strip_fields end = end
    strip_fields (field k v fs) = field k (strip v) (strip_fields fs)

  is_array-strip : (v : V8Value D) → is_array (strip v) ≡ is_array v
  unfolding strip
  is_array-strip (array vs) = refl
  is_array-strip _ = refl

  shape-strip_fields : (fs : V8Fields D) → shape (strip_fields fs) ≡ shape fs
  unfolding shape strip
  shape-strip_fields end = refl
  shape-strip_fields (field k v fs) = rw (is_array-strip v, shape-strip_fields fs)

abbrev logged : {A : Type 0} → A → List Effect → Out A
logged a l = record { value = a; log = l }

module _ {D : Type 0} (P : Platform D) (w : IsWilling P) where
  abbrev Kept : V8Value D → Type 0
  Kept v =
      (c : Cacheable D) × (gemfire_value P v ≡ logged c (refusals v))
      × (gemfire_value P (strip v) ≡ ret c)

  abbrev ItemsKept : V8Items D → Type 0
  ItemsKept vs =
      (cs : Cacheables D) × (gemfire_items P vs ≡ logged cs (refusals_items vs))
      × (gemfire_items P (strip_items vs) ≡ ret cs)

  abbrev FieldsKept : V8Fields D → Type 0
  FieldsKept fs =
      (cs : CacheableFields D) × (gemfire_fields P fs ≡ logged (written cs) (refusals_fields fs))
      × (gemfire_fields P (strip_fields fs) ≡ ret (written cs))

  object-Kept : (fs : V8Fields D) → FieldsKept fs → Kept (object fs)
  unfolding gemfire_value refusals strip
  object-Kept fs (cs, e, s) = (
    pdx_instance (pdx_class_name (shape fs)) cs,
    ground (
      arith,
      w.factory (pdx_class_name (shape fs)),
      w.create (pdx_class_name (shape fs)) cs,
      e,
      append-nil (refusals_fields fs),
    ),
    ground (
      arith,
      w.factory (pdx_class_name (shape fs)),
      w.create (pdx_class_name (shape fs)) cs,
      s,
      shape-strip_fields fs,
    ),
  )

  field-Kept :
      (k : List ℕ) (v : V8Value D) (fs : V8Fields D)
      → Kept v
      → FieldsKept fs
      → FieldsKept (field k v fs)
  unfolding gemfire_value refusals strip
  field-Kept k v fs (c, e, s) (cs, es, ss) = (
    named (c_string k) c cs,
    ground (arith, e, es, w.write (c_string k) c, append-nil (refusals_fields fs)),
    ground (arith, s, ss, w.write (c_string k) c),
  )

  mutual
    unfolding gemfire_value refusals strip

    kept : (v : V8Value D) → Kept v
    kept (string s) = (wide_string (wstring_from_v8_string s), refl, refl)
    kept (string_object s) = (wide_string (wstring_from_v8_string s), refl, refl)
    kept (boolean b) = (cacheable_boolean b, refl, refl)
    kept (number d) = (cacheable_double d, refl, refl)
    kept (number_object d) = (cacheable_double d, refl, refl)
    kept (date t) = (cacheable_date t, refl, refl)
    kept (array vs) =
        let (cs, e, s) = items_kept vs in
        (array_list cs, ground (arith, e, append-nil (refusals_items vs)), ground (arith, s))
    kept (boolean_object b) = (cacheable_boolean b, refl, refl)
    kept function = (null_ptr, refl, refl)
    kept (object fs) = object-Kept fs (fields_kept fs)
    kept (native_error m fs) = object-Kept fs (fields_kept fs)
    kept undefined = (cacheable_undefined, refl, refl)
    kept null = (null_ptr, refl, refl)
    kept (other s) = (null_ptr, refl, refl)

    items_kept : (vs : V8Items D) → ItemsKept vs
    items_kept nil = (none_left, refl, refl)
    items_kept (cons v vs) =
        let (c, e, s) = kept v in
        let (cs, es, ss) = items_kept vs in
        (item c cs, ground (arith, e, es, append-nil (refusals_items vs)), ground (arith, s, ss))

    fields_kept : (fs : V8Fields D) → FieldsKept fs
    fields_kept end = (no_fields, refl, refl)
    fields_kept (field k v fs) = field-Kept k v fs (kept v) (fields_kept fs)

  -- Where Geode accepts every PDX class, field and instance, gemfireValue throws one exception for each
  -- function and each symbol in a value, at any depth and in order, and nothing else, and gives what it
  -- gives for the value with null in their places, which it converts without an exception.
  pub gemfire_value-strip :
      (v : V8Value D)
      → ((gemfire_value P v).log ≡ refusals v)
        × ((gemfire_value P v).value ≡ (gemfire_value P (strip v)).value)
        × ((gemfire_value P (strip v)).log ≡ [])
  gemfire_value-strip v =
      let (c, e, s) = kept v in (ap (λ o. o.log) e, rw (e, s), ap (λ o. o.log) s)
