-- ===== src/Conversions/RoundTrip.antt =====
-- src/conversions.cpp: v8Value after gemfireValue.
pub mod Laws
pub mod Stable
use node_gemfire.Base.{
  ℕ, ℤ, ◌≡◌, refl, sym, ap, ◌∙◌, Bool, true, false, List, [], ◌∷◌, ◌++◌, Option, none, some, arith,
}
use node_gemfire.Conversions.ClassName.{get_class_name}
use node_gemfire.Conversions.Strings.{
  c_string, wstring_from_v8_string, v8_string_from_wstring, AllUnits,
  v8_string_from_wstring-wstring_from_v8_string,
}
use node_gemfire.Conversions.Data.{
  V8Value, V8Items, V8Fields, Cacheable, Cacheables, CacheableFields, Exception, Out, Platform,
  string, string_object, boolean, number, number_object, date, array, boolean_object, function,
  object, native_error, undefined, null, other, nil, cons, end, field, written, refused,
  write_first, no_fields, named, none_left, item, ret, ◌>>=◌, same_key, shape, cacheable_boolean,
  wide_string, cacheable_double, cacheable_date, cacheable_undefined, array_list, null_ptr,
  pdx_instance,
}
use node_gemfire.Conversions.ToGemfire.{gemfire_value, gemfire_items, gemfire_fields, pdx_result}
use node_gemfire.Conversions.ToV8.{v8_value, v8_items, v8_pdx, set_field}

module _ {D : Type 0} where
  -- What comes back: strings end before their first zero, wrapper objects are unwrapped, and an
  -- error is an object with its own fields.
  unfoldable mutual
    pub normal : V8Value D → V8Value D
    normal (string s) = string (c_string s)
    normal (string_object s) = string (c_string s)
    normal (boolean b) = boolean b
    normal (number d) = number d
    normal (number_object d) = number d
    normal (date t) = date t
    normal (array xs) = array (normal_items xs)
    normal (boolean_object b) = boolean b
    normal function = function
    normal (object fs) = object (normal_fields fs)
    normal (native_error m fs) = object (normal_fields fs)
    normal undefined = undefined
    normal null = null
    normal (other s) = other s

    pub normal_items : V8Items D → V8Items D
    normal_items nil = nil
    normal_items (cons v vs) = cons (normal v) (normal_items vs)

    pub normal_fields : V8Fields D → V8Fields D
    normal_fields end = end
    normal_fields (field k v fs) = field k (normal v) (normal_fields fs)

  -- No key of the fields is `k`.
  abbrev pub Absent : List ℕ → V8Fields D → Type 0
  Absent k end = Unit {0}
  Absent k (field j v fs) = (same_key j k ≡ false) × Absent k fs

  -- Strings of 16-bit units, keys without zeros and each once, no functions and no symbols.
  abbrev mutual
    pub Storable : V8Value D → Type 0
    Storable (string s) = AllUnits s
    Storable (string_object s) = AllUnits s
    Storable (array xs) = StorableItems xs
    Storable function = ⊥
    Storable (object fs) = StorableFields fs
    Storable (native_error m fs) = StorableFields fs
    Storable (other s) = ⊥
    Storable _ = Unit {0}

    pub StorableItems : V8Items D → Type 0
    StorableItems nil = Unit {0}
    StorableItems (cons v vs) = Storable v × StorableItems vs

    pub StorableFields : V8Fields D → Type 0
    StorableFields end = Unit {0}
    StorableFields (field k v fs) = (c_string k ≡ k) × Absent k fs × Storable v × StorableFields fs

  -- Two objects side by side.
  abbrev pub beside : V8Fields D → V8Fields D → V8Fields D
  beside end gs = gs
  beside (field k v fs) gs = field k v (beside fs gs)

  -- `k` is no key of `fs`, as `set_field` asks.
  abbrev pub Fresh : List ℕ → V8Fields D → Type 0
  Fresh k end = Unit {0}
  Fresh k (field j v fs) = (same_key k j ≡ false) × Fresh k fs

  abbrev pub Disjoint : V8Fields D → V8Fields D → Type 0
  Disjoint done end = Unit {0}
  Disjoint done (field k v fs) = Fresh k done × Disjoint done fs

  pub set_field-Fresh :
      (k : List ℕ) (v : V8Value D) (fs : V8Fields D)
      → Fresh k fs
      → set_field k v fs ≡ beside fs (field k v end)
  unfolding set_field
  set_field-Fresh k v end h = refl
  set_field-Fresh k v (field j w fs) h = rw (h.0) (ap (field j w) (set_field-Fresh k v fs h.1))

  pub beside_assoc : (a b c : V8Fields D) → beside (beside a b) c ≡ beside a (beside b c)
  beside_assoc end b c = refl
  beside_assoc (field k v a) b c = ap (field k v) (beside_assoc a b c)

  Fresh-beside :
      (j k : List ℕ) (v : V8Value D) (fs : V8Fields D)
      → Fresh j fs
      → same_key j k ≡ false
      → Fresh j (beside fs (field k v end))
  Fresh-beside j k v end h e = (e, tt)
  Fresh-beside j k v (field i w fs) h e = (h.0, Fresh-beside j k v fs h.1 e)

  pub Disjoint-beside :
      (done : V8Fields D) (k : List ℕ) (v : V8Value D) (fs : V8Fields D)
      → Disjoint done fs
      → Absent k fs
      → Disjoint (beside done (field k v end)) fs
  Disjoint-beside done k v end d a = tt
  Disjoint-beside done k v (field j w fs) d a =
      (Fresh-beside j k v done d.0 a.0, Disjoint-beside done k v fs d.1 a.1)

  pub Disjoint-end : (fs : V8Fields D) → Disjoint end fs
  Disjoint-end end = tt
  Disjoint-end (field k v fs) = (tt, Disjoint-end fs)

  pub beside-end : (fs : V8Fields D) → beside fs end ≡ fs
  beside-end end = refl
  beside-end (field k v fs) = ap (field k v) (beside-end fs)
