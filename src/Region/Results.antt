-- ===== src/Region/Results.antt =====
-- src/region.cpp and src/conversions.cpp: what the callbacks are given for a worker's result.
use node_gemfire.Base.{ℕ, Bool, List, [], ◌∷◌}
use node_gemfire.Conversions.Data.{
  V8Value, V8Items, V8Fields, Cacheable, Platform, Out, object, boolean, nil, cons, end, field, ret,
  both, ◌>>=◌,
}
use node_gemfire.Conversions.ToV8.{v8_value, set_field, as_array}

abbrev key_text : List ℕ
key_text = b'k' ∷ b'e' ∷ b'y' ∷ []

abbrev value_text : List ℕ
value_text = b'v' ∷ b'a' ∷ b'l' ∷ b'u' ∷ b'e' ∷ []

module _ {D : Type 0} (P : Platform D) where
  -- v8Object over a hash map, whose entries are listed in the order in which it is walked.
  unfoldable pub v8_table : List (Cacheable D × Cacheable D) → V8Fields D → Out (V8Value D)
  unfolding set_field v8_value
  v8_table [] done = ret (object done)
  v8_table ((k, c) ∷ rest) done = do
    (j, v) ← both P (v8_value P k) (v8_value P c)
    v8_table rest (set_field (P.property_key j) v done)

  -- v8Array over a vector.
  unfoldable pub v8_list : List (Cacheable D) → Out (V8Items D)
  unfolding v8_value
  v8_list [] = ret nil
  v8_list (c ∷ cs) = do v ← v8_value P c; vs ← v8_list cs; ret (cons v vs)

  -- v8Value of a region entry, and of a vector of them.
  unfoldable pub v8_entry : Cacheable D × Cacheable D → Out (V8Value D)
  unfolding v8_value
  v8_entry (k, c) = do
    j ← v8_value P k
    v ← v8_value P c
    ret (object (field key_text j (field value_text v end)))

  unfoldable pub v8_entries : List (Cacheable D × Cacheable D) → Out (V8Items D)
  unfolding v8_entry
  v8_entries [] = ret nil
  v8_entries (e ∷ es) = do v ← v8_entry e; vs ← v8_entries es; ret (cons v vs)

  -- v8Value of a hash map, of a vector of values or of keys, of a vector of entries, and of a Boolean.
  abbrev pub v8_hash_map : List (Cacheable D × Cacheable D) → Out (V8Value D)
  v8_hash_map table = v8_table table end

  abbrev pub v8_vector : List (Cacheable D) → Out (V8Value D)
  v8_vector cs = as_array (v8_list cs)

  abbrev pub v8_entry_vector : List (Cacheable D × Cacheable D) → Out (V8Value D)
  v8_entry_vector es = as_array (v8_entries es)

abbrev pub v8_boolean : {D : Type 0} → Bool → V8Value D
v8_boolean b = boolean b
