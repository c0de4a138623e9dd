-- ===== src/Region/Laws/Signatures.antt =====
-- Which calls of the queueing methods of src/region.cpp are accepted: one table for all methods.
use node_gemfire.Base.{
  ℕ, zero, suc, ◌<◌, ◌≡◌, Bool, true, false, not, ◌&&◌, ◌||◌, List, [], ◌∷◌, ◌++◌, Option, none,
  some, arith, if◌then◌else◌, length, ltb, ◌==◌, All,
}
use node_gemfire.Conversions.Data.{V8Value, Platform, is_array}
use node_gemfire.Conversions.ToGemfire.{gemfire_value, gemfire_key, gemfire_keys, gemfire_hash_map}
use node_gemfire.Region.Geode.{
  Instance, no_instance, closed_instance, open_instance, region_destroyed,
}
use node_gemfire.Region.Call.{is_function, is_function_or_undefined, is_object, arg, Reply}
use node_gemfire.Region.Methods.{
  Method, clear_method, put_method, get_method, get_all_method, put_all_method, remove_method,
  query_method, server_keys_method, keys_method, values_method, entries_method,
  destroy_region_method, local_destroy_region_method, call, put, get, get_all, put_all, remove,
  query_kind, select_value_kind, exists_value_kind, own_fields, elements,
}
use node_gemfire.Region.Laws.Calls.{is_from_conversion, conversions_only}

pub data Kind : Type 0 where
  any_value an_array an_object : Kind

-- The arguments before the callback, whether the callback may be left out, whether nothing may stand
-- after it, and whether the cache must be open.
pub record Signature : Type 0 where
  pub leading : List Kind
  pub optional : Bool
  pub exact : Bool
  pub needs_cache : Bool

abbrev pub signature : Method → Signature
signature clear_method = record {
  leading = [];
  optional = true;
  exact = false;
  needs_cache = false;
}
signature put_method = record {
  leading = any_value ∷ any_value ∷ [];
  optional = true;
  exact = false;
  needs_cache = true;
}
signature get_method = record {
  leading = any_value ∷ [];
  optional = false;
  exact = true;
  needs_cache = true;
}
signature get_all_method = record {
  leading = an_array ∷ [];
  optional = false;
  exact = false;
  needs_cache = true;
}
signature put_all_method = record {
  leading = an_object ∷ [];
  optional = true;
  exact = false;
  needs_cache = true;
}
signature remove_method = record {
  leading = any_value ∷ [];
  optional = true;
  exact = false;
  needs_cache = true;
}
signature (query_method kind) = record {
  leading = any_value ∷ [];
  optional = false;
  exact = false;
  needs_cache = false;
}
signature server_keys_method = record {
  leading = [];
  optional = false;
  exact = false;
  needs_cache = false;
}
signature keys_method = record {
  leading = [];
  optional = false;
  exact = false;
  needs_cache = false;
}
signature values_method = record {
  leading = [];
  optional = false;
  exact = false;
  needs_cache = false;
}
signature entries_method = record {
  leading = [];
  optional = false;
  exact = false;
  needs_cache = false;
}
signature destroy_region_method = record {
  leading = [];
  optional = true;
  exact = false;
  needs_cache = false;
}
signature local_destroy_region_method = record {
  leading = [];
  optional = true;
  exact = false;
  needs_cache = false;
}

abbrev pub is_open : Instance → Bool
is_open open_instance = true
is_open _ = false

abbrev pub is_some : {A : Type 0} → Option A → Bool
is_some none = false
is_some (some a) = true

module _ {D : Type 0} where
  abbrev pub is_kind : Kind → V8Value D → Bool
  is_kind any_value v = true
  is_kind an_array v = is_array v
  is_kind an_object v = is_object v

  -- The arguments from place `i` on are there and of the kinds.
  abbrev pub has_leading : ℕ → List Kind → List (V8Value D) → Bool
  has_leading i [] info = true
  has_leading i (k ∷ ks) info =
      ltb i (length info) && (is_kind k (arg info i) && has_leading (suc i) ks info)

  abbrev pub has_callback : Bool → V8Value D → Bool
  has_callback optional v = if optional then is_function_or_undefined v else is_function v

  abbrev pub accepts : Signature → Instance → List (V8Value D) → Bool
  accepts s cache info =
      has_leading 0 s.leading info
      && (has_callback s.optional (arg info (length s.leading))
          && ((not s.exact || (length info == suc (length s.leading)))
              && (not s.needs_cache || is_open cache)))

  arg-lt-length :
      (info : List (V8Value D)) (i : ℕ) → is_function (arg info i) ≡ true → i < length info
  arg-lt-length [] i h = cc
  arg-lt-length (v ∷ vs) zero h = omega arith
  arg-lt-length (v ∷ vs) (suc i) h = omega (arith, arg-lt-length vs i h)

  object-lt-length : (info : List (V8Value D)) → is_object (arg info 0) ≡ true → 0 < length info
  object-lt-length [] h = cc
  object-lt-length (v ∷ vs) h = omega arith

-- A worker is queued and all that is thrown was logged by a conversion, or nothing is queued and one
-- error is thrown.
abbrev pub Answers : {D : Type 0} → Bool → Reply D → Type 0
Answers fits r =
    (is_some r.queued ≡ fits)
    × (if fits then All (λ t. is_from_conversion t ≡ true) r.thrown else (length r.thrown ≡ 1))

module _ {D : Type 0} (P : Platform D) (name : List ℕ) where
  -- A method that needs the cache, for each state of it.
  put-Answers :
      (cache : Instance) (info : List (V8Value D))
      → Answers (accepts (signature put_method) cache info) (put P name cache info)
  unfolding put
  put-Answers no_instance info = ground arith
  put-Answers closed_instance info = ground arith
  put-Answers open_instance info = ground (
    arith,
    conversions_only ((gemfire_key P (arg info 0)).log ++ (gemfire_value P (arg info 1)).log),
  )
  put-Answers (region_destroyed e) info = ground arith

  get-Answers :
      (cache : Instance) (info : List (V8Value D))
      → Answers (accepts (signature get_method) cache info) (get P name cache info)
  unfolding get
  get-Answers no_instance info = ground arith
  get-Answers closed_instance info = ground arith
  get-Answers open_instance info = ground (arith, conversions_only (gemfire_key P (arg info 0)).log)
  get-Answers (region_destroyed e) info = ground arith

  get_all-Answers :
      (cache : Instance) (info : List (V8Value D))
      → Answers (accepts (signature get_all_method) cache info) (get_all P name cache info)
  unfolding get_all
  get_all-Answers no_instance info = ground arith
  get_all-Answers closed_instance info = ground arith
  get_all-Answers open_instance info =
      ground (
        arith,
        arg-lt-length info 1,
        conversions_only (gemfire_keys P (elements P (arg info 0))).log,
      )
  get_all-Answers (region_destroyed e) info = ground arith

  put_all-Answers :
      (cache : Instance) (info : List (V8Value D))
      → Answers (accepts (signature put_all_method) cache info) (put_all P name cache info)
  unfolding put_all
  put_all-Answers no_instance info = ground arith
  put_all-Answers closed_instance info = ground arith
  put_all-Answers open_instance info = ground (
    arith,
    object-lt-length info,
    conversions_only (gemfire_hash_map P (own_fields P (arg info 0))).log,
  )
  put_all-Answers (region_destroyed e) info = ground arith

  remove-Answers :
      (cache : Instance) (info : List (V8Value D))
      → Answers (accepts (signature remove_method) cache info) (remove P name cache info)
  unfolding remove
  remove-Answers no_instance info = ground arith
  remove-Answers closed_instance info = ground arith
  remove-Answers open_instance info =
      ground (arith, conversions_only (gemfire_key P (arg info 0)).log)
  remove-Answers (region_destroyed e) info = ground arith

module _ {D : Type 0} (P : Platform D) (name : List ℕ) (cache : Instance) where
  -- Every call of a queueing method whose arguments fit the signature of the method, with the cache
  -- open if it needs one, queues a worker and throws only what the conversions log; every other call
  -- queues nothing and throws one error.
  pub call-signature :
      (m : Method) (info : List (V8Value D))
      → Answers (accepts (signature m) cache info) (call P name cache m info)
  unfolding call
  call-signature clear_method info = ground arith
  call-signature put_method info = put-Answers P name cache info
  call-signature get_method info = get-Answers P name cache info
  call-signature get_all_method info = get_all-Answers P name cache info
  call-signature put_all_method info = put_all-Answers P name cache info
  call-signature remove_method info = remove-Answers P name cache info
  call-signature (query_method query_kind) info = ground (arith, arg-lt-length info 1)
  call-signature (query_method select_value_kind) info = ground (arith, arg-lt-length info 1)
  call-signature (query_method exists_value_kind) info = ground (arith, arg-lt-length info 1)
  call-signature server_keys_method info = ground (arith, arg-lt-length info 0)
  call-signature keys_method info = ground (arith, arg-lt-length info 0)
  call-signature values_method info = ground (arith, arg-lt-length info 0)
  call-signature entries_method info = ground (arith, arg-lt-length info 0)
  call-signature destroy_region_method info = ground arith
  call-signature local_destroy_region_method info = ground arith
