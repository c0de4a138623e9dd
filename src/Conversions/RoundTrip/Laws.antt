-- ===== src/Conversions/RoundTrip/Laws.antt =====
-- src/conversions.cpp: what gemfireValue stores is what v8Value reads, where Geode does not throw.
use node_gemfire.Base.{ℕ, ◌≡◌, refl, sym, ap, ◌∙◌, List, [], none, arith}
use node_gemfire.Conversions.Strings.{
  c_string, wstring_from_v8_string, v8_string_from_wstring, AllUnits,
  v8_string_from_wstring-wstring_from_v8_string,
}
use node_gemfire.Conversions.Data.{
  V8Value, V8Items, V8Fields, Cacheable, Cacheables, CacheableFields, Platform, string,
  string_object, boolean, number, number_object, date, array, boolean_object, function, object,
  native_error, undefined, null, other, nil, cons, end, field, written, no_fields, named, none_left,
  item, ret, shape, cacheable_boolean, wide_string, cacheable_double, cacheable_date,
  cacheable_undefined, array_list, null_ptr, pdx_instance,
}
use node_gemfire.Conversions.ToGemfire.{
  pdx_class_name, gemfire_value, gemfire_items, gemfire_fields,
}
use node_gemfire.Conversions.ToV8.{v8_value, v8_items, v8_pdx}
use node_gemfire.Conversions.RoundTrip.{
  normal, normal_items, normal_fields, Storable, StorableItems, StorableFields, beside, Disjoint,
  set_field-Fresh, beside_assoc, Disjoint-beside, Disjoint-end, beside-end,
}

-- Geode accepts every PDX class, field and instance, and reads every field.
pub record IsWilling {D : Type 0} (P : Platform D) : Type 0 where
  pub factory : (n : List ℕ) → P.pdx_factory n ≡ none
  pub write : (k : List ℕ) (c : Cacheable D) → P.pdx_write k c ≡ none
  pub create : (n : List ℕ) (fs : CacheableFields D) → P.pdx_create n fs ≡ none
  pub names : (n : List ℕ) → P.pdx_names n ≡ none
  pub read : (k : List ℕ) (c : Cacheable D) → P.pdx_read k c ≡ none

module _ {D : Type 0} (P : Platform D) (w : IsWilling P) where
  abbrev Trip : V8Value D → Type 0
  Trip v = (c : Cacheable D) × (gemfire_value P v ≡ ret c) × (v8_value P c ≡ ret (normal v))

  abbrev ItemsTrip : V8Items D → Type 0
  ItemsTrip vs =
      (cs : Cacheables D) × (gemfire_items P vs ≡ ret cs) × (v8_items P cs ≡ ret (normal_items vs))

  abbrev FieldsTrip : V8Fields D → Type 0
  FieldsTrip fs =
      (cs : CacheableFields D) × (gemfire_fields P fs ≡ ret (written cs))
      × ((done : V8Fields D)
          → Disjoint done fs
          → v8_pdx P cs done ≡ ret (object (beside done (normal_fields fs))))

  -- An object, from its fields.
  object-Trip :
      (v : V8Value D) (fs : V8Fields D)
      → gemfire_value P v ≡ gemfire_value P (object fs)
      → normal v ≡ object (normal_fields fs)
      → Disjoint end fs
      → FieldsTrip fs
      → Trip v
  unfolding gemfire_value v8_value
  object-Trip v fs same n d (cs, e, back) = (
    pdx_instance (pdx_class_name (shape fs)) cs,
    same
        ∙ ground (
          arith,
          w.factory (pdx_class_name (shape fs)),
          w.create (pdx_class_name (shape fs)) cs,
          e,
        ),
    ground (arith, w.names (pdx_class_name (shape fs)), back end d, n),
  )

  string_trip :
      (s : List ℕ) → AllUnits s → v8_string_from_wstring (wstring_from_v8_string s) ≡ c_string s
  string_trip s h = v8_string_from_wstring-wstring_from_v8_string s h

  field-Trip :
      (k : List ℕ) (v : V8Value D) (fs : V8Fields D)
      → StorableFields (field k v fs)
      → Trip v
      → FieldsTrip fs
      → FieldsTrip (field k v fs)
  unfolding gemfire_value v8_value normal
  field-Trip k v fs (key, absent, _, _) (c, e, b) (cs, es, bs) = (
    named k c cs,
    ground (arith, key, e, es, w.write k c),
    λ done d.
        rw (w.read k c, b, set_field-Fresh k (normal v) done d.0)
          (bs _ (Disjoint-beside done k (normal v) fs d.1 absent)
            ∙ ap (λ r. ret (object r))
                (beside_assoc done (field k (normal v) end) (normal_fields fs))),
  )

  mutual
    unfolding gemfire_value v8_value normal

    trip : (v : V8Value D) → Storable v → Trip v
    trip (string s) h = (wide_string (wstring_from_v8_string s), refl, rw (string_trip s h))
    trip (string_object s) h = (wide_string (wstring_from_v8_string s), refl, rw (string_trip s h))
    trip (boolean b) h = (cacheable_boolean b, refl, refl)
    trip (number d) h = (cacheable_double d, refl, refl)
    trip (number_object d) h = (cacheable_double d, refl, refl)
    trip (date t) h = (cacheable_date t, refl, refl)
    trip (array vs) h =
        let (cs, e, b) = items_trip vs h in (array_list cs, ground (arith, e), ground (arith, b))
    trip (boolean_object b) h = (cacheable_boolean b, refl, refl)
    trip function h = absurd h
    trip (object fs) h = object-Trip (object fs) fs refl refl (Disjoint-end fs) (fields_trip fs h)
    trip (native_error m fs) h =
        object-Trip (native_error m fs) fs refl refl (Disjoint-end fs) (fields_trip fs h)
    trip undefined h = (cacheable_undefined, refl, refl)
    trip null h = (null_ptr, refl, refl)
    trip (other s) h = absurd h

    items_trip : (vs : V8Items D) → StorableItems vs → ItemsTrip vs
    items_trip nil h = (none_left, refl, refl)
    items_trip (cons v vs) h =
        let (c, e, b) = trip v h.0 in
        let (cs, es, bs) = items_trip vs h.1 in
        (item c cs, ground (arith, e, es), ground (arith, b, bs))

    fields_trip : (fs : V8Fields D) → StorableFields fs → FieldsTrip fs
    fields_trip end h =
        (no_fields, refl, λ done d. ap (λ r. ret (object r)) (sym (beside-end done)))
    fields_trip (field k v fs) h = field-Trip k v fs h (trip v h.2) (fields_trip fs h.3)

  -- A storable value is stored without an error, and reads back as its normal form.
  pub v8_value-gemfire_value :
      (v : V8Value D)
      → Storable v
      → ((gemfire_value P v).log ≡ []) × (v8_value P (gemfire_value P v).value ≡ ret (normal v))
  v8_value-gemfire_value v h = let (c, e, b) = trip v h in (rw e, rw e b)
