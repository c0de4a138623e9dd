-- ===== src/Functions/Request/Examples.antt =====
-- executeFunction of src/functions.cpp for a function that gives back its arguments.
use node_gemfire.Base.{ℕ, ◌≡◌, refl, ℤ, pos, true, List, [], ◌∷◌, if◌then◌else◌}
use node_gemfire.Conversions.Data.{
  V8Value, V8Fields, Cacheable, string, boolean, undefined, object, array, end, field, nil,
  same_key, null_ptr, cacheable_double,
}
use node_gemfire.Conversions.Examples.{plain}
use node_gemfire.Region.Geode.{open_instance}
use node_gemfire.Functions.Request.{
  done, GeodeExecution, execute_function, execute_on_region, synchronous_results, prepare, finished,
}
use node_gemfire.Functions.Request.Signature.{Begins, execute_on_region-signature}
use node_gemfire.Functions.Request.Laws.{
  synchronous_results-prepare, IsSettled, execute_on_region-IsSettled,
}

abbrev lookup : List ℕ → V8Fields ℤ → V8Value ℤ
lookup k end = undefined
lookup k (field j v fs) = if same_key k j then v else lookup k fs

abbrev of_object : V8Value ℤ → V8Fields ℤ
of_object (object fs) = fs
of_object _ = end

-- An execution is the list of the values that it was given.
abbrev pub echo : GeodeExecution ℤ (List (Cacheable ℤ))
echo = record {
  with_args = λ c x. done (c ∷ x);
  with_filter = λ c x. done (c ∷ x);
  execute = λ name x. done x;
  null_pointer = record { exception_name = b'N' ∷ []; message = [] };
  get_property = λ k v. lookup k (of_object v);
}

abbrev pub three : Cacheable ℤ
three = cacheable_double (pos 3)

synchronous_results-prepare_example :
    synchronous_results echo (b'f' ∷ []) three null_ptr [] ≡ three ∷ []
unfolding synchronous_results prepare
synchronous_results-prepare_example =
    synchronous_results-prepare echo (b'f' ∷ []) three null_ptr [] refl

-- `executeFunction("f", { synchronous: true })`
abbrev call_arguments : List (V8Value ℤ)
call_arguments =
    string (b'f' ∷ [])
    ∷ object (
        field (b's' ∷ b'y' ∷ b'n' ∷ b'c' ∷ b'h' ∷ b'r' ∷ b'o' ∷ b'n' ∷ b'o' ∷ b'u' ∷ b's' ∷ [])
          (boolean true) end)
    ∷ []

-- It returns an empty array.
call_runs : (execute_function plain echo call_arguments (three ∷ [])).started ≡ finished (array nil)
unfolding execute_function
call_runs = refl

run-IsSettled :
    IsSettled plain echo
      (execute_on_region plain echo (b'r' ∷ []) open_instance (done []) call_arguments)
run-IsSettled =
    execute_on_region-IsSettled plain echo (b'r' ∷ []) open_instance (done []) call_arguments

execute_on_region-signature_example :
    Begins plain echo true true
      (execute_on_region plain echo (b'r' ∷ []) open_instance (done []) call_arguments)
execute_on_region-signature_example =
    execute_on_region-signature plain echo (b'r' ∷ []) open_instance (done []) call_arguments
