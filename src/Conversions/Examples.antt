-- ===== src/Conversions/Examples.antt =====
-- Runs of the conversions in src/conversions.cpp, and the theorems at concrete values.
use node_gemfire.Base.{
  codes, ◌++◌, ◌≡◌, ◌^◌, ◌↔◌, refl, ℤ, pos, negsuc, true, false, [], ◌∷◌, none, arith, In, inl, inr,
  ◌≤◌,
}
use node_gemfire.Conversions.ClassName.{Field, get_class_name}
use node_gemfire.Conversions.ClassName.Laws.{get_class_name_iff}
use node_gemfire.Conversions.Strings.{
  c_string, wstring_from_v8_string, v8_string_from_wstring,
  v8_string_from_wstring-wstring_from_v8_string,
}
use node_gemfire.Conversions.Data.{
  Cacheable, struct, named, no_fields, cacheable_date, hash_map, entry, no_entries, wide_string,
  narrow_string, null_ptr, cacheable_int64, V8Value, Platform, string, number, array, object, null,
  nil, cons, end, field, ret, function, other, throw_function, throw_unknown_object, warn_below,
  native_error, throw_unknown_type, unknown, array_list, item, none_left,
}
use node_gemfire.Conversions.ToGemfire.{gemfire_value, gemfire_keys, gemfire_hash_map}
use node_gemfire.Conversions.ToV8.{v8_value, v8_int64, max_safe_integer}
use node_gemfire.Conversions.RoundTrip.{normal, Storable}
use node_gemfire.Conversions.RoundTrip.Laws.{IsWilling, v8_value-gemfire_value}
use node_gemfire.Conversions.RoundTrip.Stable.{gemfire_value-v8_value}
use node_gemfire.Conversions.Types.{IsData, v8_value-IsData}
use node_gemfire.Conversions.Stored.{IsStored, gemfire_value-IsStored}
use node_gemfire.Conversions.Refused.{refusals, strip, gemfire_value-strip}
use node_gemfire.Conversions.Effects.{throws, js_effect}
use node_gemfire.Conversions.Complaints.{complaints, v8_value-log}
use node_gemfire.Conversions.Laws.{v8_int64-log}

-- A platform that accepts everything, where a double is an integer and a key is kept as it is.
abbrev pub plain : Platform ℤ
plain = record {
  utf8_decode = λ s. s;
  utf8_of_value = λ v. elim v [ string s ↦ s | _ ↦ [] ];
  own_properties = λ v. end;
  double_of_int = λ n. n;
  property_key = λ v. elim v [ string s ↦ s | _ ↦ [] ];
  key_first = false;
  map_insert = λ k c entries. entries ++ (k, c) ∷ [];
  is_key = λ c. true;
  pdx_factory = λ n. none;
  pdx_write = λ k c. none;
  pdx_create = λ n fs. none;
  pdx_names = λ n. none;
  pdx_read = λ k c. none;
}

pub plain-IsWilling : IsWilling plain
plain-IsWilling = record {
  factory = λ n. refl;
  write = λ k c. refl;
  create = λ n fs. refl;
  names = λ n. refl;
  read = λ k c. refl;
}

-- { b: [1], a: "x" }, with a zero after the x.
abbrev pub sample : V8Value ℤ
sample = object (
    field (b'b' ∷ []) (array (cons (number (pos 1)) nil))
      (field (b'a' ∷ []) (string (b'x' ∷ 0 ∷ b'y' ∷ [])) end))

abbrev a_field : Field
a_field = record { name = b'a' ∷ []; is_array = false }

abbrev b_field : Field
b_field = record { name = b'b' ∷ []; is_array = true }

-- "JSON: a,b[],"
class_name_runs :
    get_class_name (b_field ∷ a_field ∷ [])
    ≡ b'J' ∷ b'S' ∷ b'O' ∷ b'N' ∷ b':' ∷ b' ' ∷ b'a' ∷ b',' ∷ b'b' ∷ b'[' ∷ b']' ∷ b',' ∷ []
unfolding get_class_name
class_name_runs = refl

swap_mem : (f : Field) → In f (a_field ∷ b_field ∷ []) ↔ In f (b_field ∷ a_field ∷ [])
swap_mem f = (
  λ m. elim m [ inl p ↦ inr (inl p) | inr (inl p) ↦ inl p | inr (inr p) ↦ absurd p ],
  λ m. elim m [ inl p ↦ inr (inl p) | inr (inl p) ↦ inl p | inr (inr p) ↦ absurd p ],
)

same_class_name : get_class_name (a_field ∷ b_field ∷ []) ≡ get_class_name (b_field ∷ a_field ∷ [])
same_class_name = (get_class_name_iff (a_field ∷ b_field ∷ []) (b_field ∷ a_field ∷ [])).1 swap_mem

get_class_name_iff_example :
    (get_class_name (a_field ∷ b_field ∷ []) ≡ get_class_name (b_field ∷ a_field ∷ []))
    ↔ ((f : Field) → In f (a_field ∷ b_field ∷ []) ↔ In f (b_field ∷ a_field ∷ []))
get_class_name_iff_example = get_class_name_iff (a_field ∷ b_field ∷ []) (b_field ∷ a_field ∷ [])

string_trip_run :
    v8_string_from_wstring (wstring_from_v8_string (b'x' ∷ 0 ∷ b'y' ∷ []))
    ≡ c_string (b'x' ∷ 0 ∷ b'y' ∷ [])
string_trip_run = v8_string_from_wstring-wstring_from_v8_string (b'x' ∷ 0 ∷ b'y' ∷ []) (omega arith)

pub sample-Storable : Storable sample
unfolding c_string
sample-Storable =
    (refl, (refl, tt), (tt, tt), (refl, tt, (omega arith, (omega arith, (omega arith, tt))), tt))

v8_value-gemfire_value_example :
    ((gemfire_value plain sample).log ≡ [])
    × (v8_value plain (gemfire_value plain sample).value ≡ ret (normal sample))
v8_value-gemfire_value_example = v8_value-gemfire_value plain plain-IsWilling sample sample-Storable

v8_int64-log_run :
    ((v8_int64 plain (negsuc 7)).value ≡ number (negsuc 7))
    × (((v8_int64 plain (negsuc 7)).log ≡ []) ↔ (8 ≤ max_safe_integer))
v8_int64-log_run = v8_int64-log plain (negsuc 7)

gemfire_keys_refuses : (gemfire_keys plain (cons (string (b'k' ∷ [])) (cons null nil))).value ≡ none
unfolding gemfire_keys
gemfire_keys_refuses = refl

gemfire_hash_map_refuses : (gemfire_hash_map plain (field (b'k' ∷ []) null end)).value ≡ none
unfolding gemfire_hash_map
gemfire_hash_map_refuses = refl

-- A struct with a date, and a hash map in which two keys become one property.
abbrev geode_value : Cacheable ℤ
geode_value = struct (
    named (b'd' ∷ []) (cacheable_date (pos 5)) (
      named (b'm' ∷ [])
        (hash_map (
          entry (wide_string (b'k' ∷ [])) null_ptr
            (entry (narrow_string (b'k' ∷ [])) (cacheable_int64 (pos 7)) no_entries)))
        no_fields))

v8_value-IsData_example : IsData (v8_value plain geode_value).value
v8_value-IsData_example = v8_value-IsData plain geode_value

gemfire_value-IsStored_example : IsStored (gemfire_value plain sample).value
gemfire_value-IsStored_example = gemfire_value-IsStored plain sample

gemfire_value-v8_value_example :
    gemfire_value plain (v8_value plain (gemfire_value plain sample).value).value
    ≡ ret (gemfire_value plain sample).value
gemfire_value-v8_value_example = gemfire_value-v8_value plain sample plain-IsWilling sample-Storable

-- [function, { a: symbol }], and the same with null in their places.
abbrev pub mixed : V8Value ℤ
mixed = array (cons function (cons (object (field (b'a' ∷ []) (other (b's' ∷ [])) end)) nil))

abbrev pub stripped : V8Value ℤ
stripped = array (cons null (cons (object (field (b'a' ∷ []) null end)) nil))

pub stripped-Storable : Storable stripped
unfolding c_string
stripped-Storable = (tt, ((refl, tt, tt, tt), tt))

gemfire_value-strip_example :
    ((gemfire_value plain mixed).log ≡ throw_function ∷ throw_unknown_object (b's' ∷ []) ∷ [])
    × ((gemfire_value plain mixed).value ≡ (gemfire_value plain stripped).value)
    × ((gemfire_value plain stripped).log ≡ [])
unfolding refusals strip
gemfire_value-strip_example = gemfire_value-strip plain plain-IsWilling mixed

-- An array list of a struct, an unknown value and an integer below -(2^53 - 1).
abbrev odd_value : Cacheable ℤ
odd_value =
    array_list
      (item geode_value (item (unknown 3) (item (cacheable_int64 (negsuc (2 ^ 53))) none_left)))

v8_value-log_example : (v8_value plain odd_value).log ≡ throw_unknown_type 3 ∷ warn_below ∷ []
unfolding complaints
v8_value-log_example = v8_value-log plain plain-IsWilling odd_value

-- "Unable to serialize value from GemFire; unknown typeId: 42"
unknown_text :
    js_effect plain (throw_unknown_type 42)
    ≡ throws (native_error (codes "Unable to serialize value from GemFire; unknown typeId: 42") end)
unfolding js_effect
unknown_text = refl
