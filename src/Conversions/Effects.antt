-- ===== src/Conversions/Effects.antt =====
-- src/conversions.cpp and src/exceptions.cpp: what JavaScript sees of what a conversion does besides
-- its result. The throwing functions end in Nan::ThrowError, and ConsoleWarn calls `warn` of the
-- global `console`.
use node_gemfire.Base.{
  ℕ, zero, suc, ◌+◌, ◌-◌, ◌*◌, ◌/◌, ◌%◌, ◌<◌, ◌≡◌, refl, List, [], ◌∷◌, ◌++◌, arith, codes, ltb,
  if◌then◌else◌,
}
use node_gemfire.Conversions.Data.{
  V8Value, Exception, Effect, Platform, string, native_error, end, throw_function,
  throw_unknown_object, throw_unknown_type, throw_gemfire, warn_above, warn_below,
}
use node_gemfire.Conversions.Errors.{v8_error}

pub data JsEffect (D : Type 0) : Type 0 where
  throws : V8Value D → JsEffect D
  console_warns : V8Value D → JsEffect D

-- The decimal digits of a number, with fuel.
digits : ℕ → ℕ → List ℕ
digits zero n = []
digits (suc f) n =
    let rest = digits f (n / 10) in if ltb n 10 then (48 + n) ∷ [] else rest ++ (48 + n % 10) ∷ []

-- `<<` of a type id.
unfoldable pub decimal : ℕ → List ℕ
unfolding digits
decimal n = digits (suc n) n

-- The number that a text of digits stands for.
unfoldable pub number_of : List ℕ → ℕ → ℕ
number_of [] n = n
number_of (c ∷ cs) n = number_of cs (n * 10 + (c - 48))

number_of-append :
    (cs : List ℕ) (c n : ℕ) → number_of (cs ++ c ∷ []) n ≡ number_of cs n * 10 + (c - 48)
unfolding number_of
number_of-append [] c n = refl
number_of-append (d ∷ cs) c n = number_of-append cs c (n * 10 + (d - 48))

number_of-digits : (f n : ℕ) → n < f → number_of (digits f n) 0 ≡ n
unfolding digits number_of
number_of-digits zero n h = elim h [ ]
number_of-digits (suc f) n h =
    ground
      (arith, number_of-append (digits f (n / 10)) (48 + n % 10) 0, number_of-digits f (n / 10))

-- The fuel is enough: the digits stand for the number.
pub number_of-decimal : (n : ℕ) → number_of (decimal n) 0 ≡ n
unfolding decimal
number_of-decimal n = number_of-digits (suc n) n (omega arith)

module _ {D : Type 0} (P : Platform D) where
  -- Nan::ThrowError of a text.
  abbrev pub throw_text : List ℕ → JsEffect D
  throw_text m = throws (native_error (P.utf8_decode m) end)

  -- ThrowGemfireException
  abbrev pub throw_gemfire_exception : Exception → JsEffect D
  throw_gemfire_exception e = throws (v8_error P e)

  -- ConsoleWarn
  abbrev pub console_warn : List ℕ → JsEffect D
  console_warn m = console_warns (string (P.utf8_decode m))

  unfoldable pub js_effect : Effect → JsEffect D
  unfolding decimal v8_error
  js_effect throw_function =
      throw_text (codes "Unable to serialize to GemFire; functions are not supported.")
  js_effect (throw_unknown_object s) =
      throw_text (codes "Unable to serialize to GemFire; unknown JavaScript object: " ++ s)
  js_effect (throw_unknown_type n) =
      throw_text (codes "Unable to serialize value from GemFire; unknown typeId: " ++ decimal n)
  js_effect (throw_gemfire e) = throw_gemfire_exception e
  js_effect warn_above =
      console_warn (
        codes
          "Received 64 bit integer from GemFire greater than Number.MAX_SAFE_INTEGER (2^53 - 1)")
  js_effect warn_below = console_warn (
      codes
        "Received 64 bit integer from GemFire less than Number.MIN_SAFE_INTEGER (-1 * 2^53 + 1)")
