-- ===== src/Conversions/Laws.antt =====
-- Properties of single conversions of src/conversions.cpp.
use node_gemfire.Base.{
  ℕ, ◌≤◌, suc, ◌≡◌, ◌↔◌, refl, ℤ, pos, negsuc, Bool, true, not, ◌&&◌, List, [], ◌∷◌, none, some,
  arith, if◌then◌else◌,
}
use node_gemfire.Conversions.Data.{
  V8Items, V8Fields, Cacheable, Platform, number, nil, cons, end, field, string, is_null,
}
use node_gemfire.Conversions.ToGemfire.{
  gemfire_value, gemfire_key, gemfire_keys, fill_hash_map, gemfire_hash_map,
}
use node_gemfire.Conversions.ToV8.{v8_int64, max_safe_integer}

abbrev pub magnitude : ℤ → ℕ
magnitude (pos n) = n
magnitude (negsuc n) = suc n

module _ {D : Type 0} (P : Platform D) where
  -- A 64-bit integer becomes the double of the same integer, and a warning is given exactly when its
  -- magnitude is above 2^53 - 1.
  pub v8_int64-log :
      (n : ℤ)
      → ((v8_int64 P n).value ≡ number (P.double_of_int n))
        × (((v8_int64 P n).log ≡ []) ↔ (magnitude n ≤ max_safe_integer))
  unfolding v8_int64
  v8_int64-log (pos n) = (ground arith, (λ h. ground arith, λ h. ground arith))
  v8_int64-log (negsuc n) = (ground arith, (λ h. ground arith, λ h. ground arith))

  -- The keys of an array, converted one by one.
  unfoldable pub key_values : V8Items D → List (Cacheable D)
  key_values nil = []
  key_values (cons v vs) = (gemfire_key P v).value ∷ key_values vs

  unfoldable pub all_keys : V8Items D → Bool
  all_keys nil = true
  all_keys (cons v vs) = not (is_null (gemfire_key P v).value) && all_keys vs

  -- gemfireKeys gives the keys of all elements in order if each is valid, and else nothing.
  pub gemfire_keys_lem :
      (vs : V8Items D)
      → (gemfire_keys P vs).value ≡ (if all_keys vs then some (key_values vs) else none)
  unfolding gemfire_keys key_values all_keys
  gemfire_keys_lem nil = refl
  gemfire_keys_lem (cons v vs) = ground (arith, gemfire_keys_lem vs)

  -- The entries of an object, converted one by one.
  unfoldable pub entry_values : V8Fields D → List (Cacheable D × Cacheable D)
  entry_values end = []
  entry_values (field k v fs) =
      ((gemfire_key P (string (P.utf8_decode k))).value, (gemfire_value P v).value)
      ∷ entry_values fs

  unfoldable pub all_values : V8Fields D → Bool
  all_values end = true
  all_values (field k v fs) = not (is_null (gemfire_value P v).value) && all_values fs

  -- The map into which entries are inserted one after the other.
  unfoldable pub insert_all :
      List (Cacheable D × Cacheable D)
      → List (Cacheable D × Cacheable D)
      → List (Cacheable D × Cacheable D)
  insert_all [] filled = filled
  insert_all ((k, c) ∷ es) filled = insert_all es (P.map_insert k c filled)

  fill_hash_map_lem :
      (fs : V8Fields D) (filled : List (Cacheable D × Cacheable D))
      → (fill_hash_map P fs filled).value
        ≡ (if all_values fs then some (insert_all (entry_values fs) filled) else none)
  unfolding fill_hash_map entry_values all_values insert_all
  fill_hash_map_lem end filled = refl
  fill_hash_map_lem (field k v fs) filled = ground (
    arith,
    fill_hash_map_lem fs (
        P.map_insert (gemfire_key P (string (P.utf8_decode k))).value (gemfire_value P v).value
          filled),
  )

  -- gemfireHashMap gives the map of the entries of all properties, inserted in order, if no value is
  -- null, and else nothing.
  pub gemfire_hash_map_lem :
      (fs : V8Fields D)
      → (gemfire_hash_map P fs).value
        ≡ (if all_values fs then some (insert_all (entry_values fs) []) else none)
  unfolding gemfire_hash_map
  gemfire_hash_map_lem fs = fill_hash_map_lem fs []
