-- ===== src/Conversions/Strings.antt =====
-- src/conversions.cpp, wstringFromV8String and v8StringFromWstring. A V8 string is the list of its
-- UTF-16 code units; a `wchar_t` has 32 bits. Both functions hand a buffer that ends with 0 to a
-- constructor that reads up to the first 0.
use node_gemfire.Base.{
  ℕ, ◌%◌, ◌^◌, ◌<◌, ◌≡◌, refl, List, [], ◌∷◌, ◌++◌, ◌==◌, if◌then◌else◌, arith, All,
}

-- What a constructor from a zero-terminated buffer reads.
unfoldable pub c_string : List ℕ → List ℕ
c_string [] = []
c_string (c ∷ cs) = if c == 0 then [] else c ∷ c_string cs

-- The copying loops: `uint16_t` to `wchar_t` keeps the value, `wchar_t` to `uint16_t` cuts it.
unfoldable pub widen : List ℕ → List ℕ
widen [] = []
widen (c ∷ cs) = c ∷ widen cs

unfoldable pub narrow : List ℕ → List ℕ
narrow [] = []
narrow (c ∷ cs) = (c % 2 ^ 16) ∷ narrow cs

unfoldable pub wstring_from_v8_string : List ℕ → List ℕ
unfolding c_string widen
wstring_from_v8_string s = c_string (widen s ++ 0 ∷ [])

unfoldable pub v8_string_from_wstring : List ℕ → List ℕ
unfolding c_string narrow
v8_string_from_wstring s = c_string (narrow s ++ 0 ∷ [])

abbrev pub AllUnits : List ℕ → Type 0
AllUnits = All (λ c. c < 2 ^ 16)

-- A string of 16-bit units comes back from GemFire as its part before the first zero.
pub v8_string_from_wstring-wstring_from_v8_string :
    (s : List ℕ) → AllUnits s → v8_string_from_wstring (wstring_from_v8_string s) ≡ c_string s
unfolding wstring_from_v8_string v8_string_from_wstring
v8_string_from_wstring-wstring_from_v8_string [] h = refl
v8_string_from_wstring-wstring_from_v8_string (c ∷ cs) h =
    let ih = v8_string_from_wstring-wstring_from_v8_string cs h.1 in
    let small : c % 2 ^ 16 ≡ c = omega (arith, h.0) in ground (arith, small)
