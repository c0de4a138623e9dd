-- ===== src/SelectResults.antt =====
-- src/select_results.cpp: the JavaScript class around the results of a query, which are a list.
pub mod Laws
mod Examples
use node_gemfire.Base.{
  ℕ, suc, Bool, true, false, not, ◌||◌, List, [], ◌∷◌, ◌++◌, if◌then◌else◌, length, ◌==◌, codes,
}
use node_gemfire.Conversions.Data.{
  V8Value, V8Items, Cacheable, Platform, Out, Effect, string, nil, cons, ret, ◌>>=◌,
}
use node_gemfire.Conversions.ToV8.{v8_value}
use node_gemfire.Region.Call.{
  Thrown, error, Returned, nothing, holder, in_conversion, arg, is_function,
}

module _ {D : Type 0} where
  -- `array->Set(i, v)` at the end of the array.
  unfoldable pub set_next : V8Items D → V8Value D → V8Items D
  set_next nil v = cons v nil
  set_next (cons w ws) v = cons w (set_next ws v)

module _ {D : Type 0} (P : Platform D) where
  -- The loop of `ToArray`, with the array so far.
  unfoldable pub fill_array : V8Items D → List (Cacheable D) → Out (V8Items D)
  unfolding set_next v8_value
  fill_array made [] = ret made
  fill_array made (c ∷ cs) = do v ← v8_value P c; fill_array (set_next made v) cs

  unfoldable pub to_array : List (Cacheable D) → Out (V8Items D)
  unfolding fill_array
  to_array results = fill_array nil results

-- What JavaScript sees of `each`, in order.
pub data EachEvent (D : Type 0) : Type 0 where
  converted : Effect → EachEvent D  -- what the conversion of a result logs
  called : V8Value D → EachEvent D  -- the callback

pub record EachReply (D : Type 0) : Type 0 where
  pub thrown : List Thrown
  pub events : List (EachEvent D)
  pub returned : Returned D

module _ {D : Type 0} (P : Platform D) where
  abbrev pub conversions : List Effect → List (EachEvent D)
  conversions [] = []
  conversions (e ∷ es) = converted e ∷ conversions es

  -- The loop of `Each`, if the callback does not throw.
  unfoldable pub call_each : List (Cacheable D) → List (EachEvent D)
  unfolding v8_value
  call_each [] = []
  call_each (c ∷ cs) = conversions (v8_value P c).log ++ called (v8_value P c).value ∷ call_each cs

  unfoldable pub each : List (V8Value D) → List (Cacheable D) → EachReply D
  unfolding call_each
  each info results =
      if length info == 0 || not (is_function (arg info 0))
      then record {
        thrown = error "You must pass a callback to each()" ∷ [];
        events = [];
        returned = nothing;
      }
      else record { thrown = []; events = call_each results; returned = holder }

  -- A stream prints the size.
  unfoldable pub inspect : (ℕ → List ℕ) → List (Cacheable D) → V8Value D
  inspect print results =
      string (P.utf8_decode (codes "[SelectResults size=" ++ print (length results) ++ codes "]"))
