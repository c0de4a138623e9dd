-- ===== src/Conversions/Stored.antt =====
-- src/conversions.cpp: which values gemfireValue gives to Geode, whatever JavaScript passes.
use node_gemfire.Base.{ℕ, ◌≡◌, false, List, [], ◌∷◌, ◌++◌, Option, none, some, arith, ◌==◌, All}
use node_gemfire.Conversions.Strings.{c_string, widen, wstring_from_v8_string}
use node_gemfire.Conversions.Data.{
  V8Value, V8Items, V8Fields, Cacheable, Cacheables, CacheableFields, Platform, string,
  string_object, boolean, number, number_object, date, array, boolean_object, function, object,
  native_error, undefined, null, other, nil, cons, end, field, null_ptr, wide_string,
  cacheable_boolean, cacheable_double, cacheable_date, cacheable_undefined, array_list,
  pdx_instance, none_left, item, no_fields, named, Written, written, refused, write_first,
  Exception, Out, emit, ret, throw_gemfire, ◌>>=◌, shape,
}
use node_gemfire.Conversions.ToGemfire.{
  pdx_class_name, gemfire_value, gemfire_items, gemfire_fields, pdx_result,
}

abbrev pub NoZero : List ℕ → Type 0
NoZero = All (λ c. (c == 0) ≡ false)

c_string-NoZero : (s : List ℕ) → NoZero (c_string s)
unfolding c_string
c_string-NoZero [] = tt
c_string-NoZero (c ∷ cs) = ground (arith, c_string-NoZero cs)

module _ {D : Type 0} where
  -- The types that gemfireValue makes, at any depth, with no zero in a string or in a field's name.
  abbrev mutual
    pub IsStored : Cacheable D → Type 0
    IsStored null_ptr = Unit {0}
    IsStored (wide_string s) = NoZero s
    IsStored (cacheable_boolean b) = Unit {0}
    IsStored (cacheable_double d) = Unit {0}
    IsStored (cacheable_date t) = Unit {0}
    IsStored cacheable_undefined = Unit {0}
    IsStored (array_list cs) = AreStored cs
    IsStored (pdx_instance n fs) = StoredFields fs
    IsStored _ = ⊥

    pub AreStored : Cacheables D → Type 0
    AreStored none_left = Unit {0}
    AreStored (item c cs) = IsStored c × AreStored cs

    pub StoredFields : CacheableFields D → Type 0
    StoredFields no_fields = Unit {0}
    StoredFields (named k c fs) = NoZero k × IsStored c × StoredFields fs

  abbrev WrittenStored : Written D → Type 0
  WrittenStored (written fs) = StoredFields fs
  WrittenStored (refused e) = Unit {0}

  write_first-WrittenStored :
      (k : List ℕ) (c : Cacheable D) (w : Written D)
      → NoZero k
      → IsStored c
      → WrittenStored w
      → WrittenStored (write_first k c w)
  write_first-WrittenStored k c (written fs) n h g = (n, h, g)
  write_first-WrittenStored k c (refused e) n h g = tt

  -- The checks after which the loop over the fields goes on.
  accepted-WrittenStored :
      (o : Option Exception) (m : Out (Written D))
      → WrittenStored m.value
      → WrittenStored
          (elim o as (λ x. Out (Written D)) [ some e ↦ ret (refused e) | none ↦ m ]).value
  accepted-WrittenStored none m h = h
  accepted-WrittenStored (some e) m h = tt

  made-IsStored :
      (o : Option Exception) (m : Out (Cacheable D))
      → IsStored m.value
      → IsStored
          (elim o as (λ x. Out (Cacheable D)) [
            | some e ↦ emit (throw_gemfire e) null_ptr
            | none ↦ m
          ]).value
  made-IsStored none m h = h
  made-IsStored (some e) m h = tt

  module _ (P : Platform D) where
    created-IsStored :
        (o : Option Exception) (n : List ℕ) (fs : CacheableFields D)
        → StoredFields fs
        → IsStored
            (elim o as (λ x. Out (Cacheable D)) [
              | none ↦ ret (pdx_instance n fs)
              | some e ↦ emit (throw_gemfire e) null_ptr
            ]).value
    created-IsStored none n fs h = h
    created-IsStored (some e) n fs h = tt

    pdx_result-IsStored :
        (n : List ℕ) (w : Written D) → WrittenStored w → IsStored (pdx_result P n w).value
    unfolding pdx_result
    pdx_result-IsStored n (written fs) h = created-IsStored (P.pdx_create n fs) n fs h
    pdx_result-IsStored n (refused e) h = tt

    mutual
      unfolding gemfire_value wstring_from_v8_string

      value-IsStored : (v : V8Value D) → IsStored (gemfire_value P v).value
      value-IsStored (string s) = c_string-NoZero (widen s ++ 0 ∷ [])
      value-IsStored (string_object s) = c_string-NoZero (widen s ++ 0 ∷ [])
      value-IsStored (boolean b) = tt
      value-IsStored (number d) = tt
      value-IsStored (number_object d) = tt
      value-IsStored (date t) = tt
      value-IsStored (array vs) = gemfire_items-AreStored vs
      value-IsStored (boolean_object b) = tt
      value-IsStored function = tt
      value-IsStored (object fs) =
          made-IsStored (P.pdx_factory (pdx_class_name (shape fs)))
            (gemfire_fields P fs >>= pdx_result P (pdx_class_name (shape fs)))
            (pdx_result-IsStored _ (gemfire_fields P fs).value (gemfire_fields-WrittenStored fs))
      value-IsStored (native_error m fs) =
          made-IsStored (P.pdx_factory (pdx_class_name (shape fs)))
            (gemfire_fields P fs >>= pdx_result P (pdx_class_name (shape fs)))
            (pdx_result-IsStored _ (gemfire_fields P fs).value (gemfire_fields-WrittenStored fs))
      value-IsStored undefined = tt
      value-IsStored null = tt
      value-IsStored (other s) = tt

      gemfire_items-AreStored : (vs : V8Items D) → AreStored (gemfire_items P vs).value
      gemfire_items-AreStored nil = tt
      gemfire_items-AreStored (cons v vs) = (value-IsStored v, gemfire_items-AreStored vs)

      gemfire_fields-WrittenStored : (fs : V8Fields D) → WrittenStored (gemfire_fields P fs).value
      gemfire_fields-WrittenStored end = tt
      gemfire_fields-WrittenStored (field k v fs) =
          accepted-WrittenStored (P.pdx_write (c_string k) (gemfire_value P v).value)
            (gemfire_fields P fs >>= λ rest.
              ret (write_first (c_string k) (gemfire_value P v).value rest))
            (write_first-WrittenStored (c_string k) (gemfire_value P v).value
              (gemfire_fields P fs).value (c_string-NoZero k) (value-IsStored v)
              (gemfire_fields-WrittenStored fs))

    -- Whatever JavaScript passes, Geode is given one of eight types at every depth: null, a wide
    -- string, a boolean, a double, a date, undefined, an array list or a PDX instance, with no zero in
    -- a string or in the name of a field.
    pub gemfire_value-IsStored : (v : V8Value D) → IsStored (gemfire_value P v).value
    gemfire_value-IsStored v = value-IsStored v
