-- ===== src/Conversions/Errors.antt =====
-- src/exceptions.cpp: exceptions of Geode as JavaScript errors.
use node_gemfire.Base.{ℕ, List, Bool, true, false, codes}
use node_gemfire.Conversions.Data.{V8Value, Exception, Platform, native_error, string, field, end}

module _ {D : Type 0} (P : Platform D) where
  -- v8Error of an exception: an Error with the message, and with the name as a property.
  unfoldable pub v8_error : Exception → V8Value D
  v8_error e =
      native_error (P.utf8_decode e.message)
        (field (codes "name") (string (P.utf8_decode e.exception_name)) end)

  -- v8Error of a UserFunctionExecutionException, by its message.
  abbrev pub v8_function_error : List ℕ → V8Value D
  v8_function_error m = native_error (P.utf8_decode m) end

module _ {D : Type 0} where
  -- IsNativeError
  abbrev pub is_native_error : V8Value D → Bool
  is_native_error (native_error m fs) = true
  is_native_error _ = false
