-- ===== src/SelectResults/Laws.antt =====
-- The two ways to read results in src/select_results.cpp.
use node_gemfire.Base.{◌≡◌, refl, sym, ap, List, [], ◌∷◌, ◌++◌, append-nil, append_assoc, arith}
use node_gemfire.Conversions.Data.{
  V8Value, V8Items, Cacheable, Platform, Effect, nil, cons, function,
}
use node_gemfire.Conversions.ToV8.{v8_value}
use node_gemfire.SelectResults.{
  set_next, fill_array, to_array, EachEvent, converted, called, conversions, call_each, each,
}

module _ {D : Type 0} where
  abbrev pub elements_of : V8Items D → List (V8Value D)
  elements_of nil = []
  elements_of (cons v vs) = v ∷ elements_of vs

  -- The arguments of the calls of the callback.
  abbrev pub calls : List (EachEvent D) → List (V8Value D)
  calls [] = []
  calls (converted e ∷ es) = calls es
  calls (called v ∷ es) = v ∷ calls es

  elements_of-set_next :
      (vs : V8Items D) (v : V8Value D) → elements_of (set_next vs v) ≡ elements_of vs ++ v ∷ []
  unfolding set_next
  elements_of-set_next nil v = refl
  elements_of-set_next (cons w ws) v = ap (λ l. w ∷ l) (elements_of-set_next ws v)

module _ {D : Type 0} (P : Platform D) where
  calls-conversions :
      (log : List Effect) (es : List (EachEvent D)) → calls (conversions P log ++ es) ≡ calls es
  calls-conversions [] es = refl
  calls-conversions (e ∷ log) es = calls-conversions log es

  elements_of-fill_array :
      (made : V8Items D) (cs : List (Cacheable D))
      → elements_of (fill_array P made cs).value ≡ elements_of made ++ calls (call_each P cs)
  unfolding fill_array call_each
  elements_of-fill_array made [] = sym (append-nil (elements_of made))
  elements_of-fill_array made (c ∷ cs) = ground (
    arith,
    elements_of-fill_array (set_next made (v8_value P c).value) cs,
    elements_of-set_next made (v8_value P c).value,
    append_assoc (elements_of made) ((v8_value P c).value ∷ []) (calls (call_each P cs)),
    calls-conversions (v8_value P c).log (called (v8_value P c).value ∷ call_each P cs),
  )

  -- `each` with a callback that does not throw calls it with the elements of `toArray`, once each and
  -- in order.
  pub each-to_array :
      (results : List (Cacheable D))
      → calls (each P (function ∷ []) results).events ≡ elements_of (to_array P results).value
  unfolding each to_array
  each-to_array results = sym (elements_of-fill_array nil results)
