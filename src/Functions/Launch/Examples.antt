-- ===== src/Functions/Launch/Examples.antt =====
-- An execution that Geode refuses to prepare.
use node_gemfire.Base.{◌≡◌, refl, ℤ, Bool, false, List, [], ◌∷◌}
use node_gemfire.Conversions.Data.{Cacheable, Exception, null_ptr}
use node_gemfire.Functions.Worker.{failure, new_worker, execute_complete}
use node_gemfire.Functions.System.{System, completes}
use node_gemfire.Functions.Request.{raised, GeodeExecution, prepare}
use node_gemfire.Functions.Request.Examples.{echo, three}
use node_gemfire.Functions.Launch.{launch, After, now, later, launch-prepare}

abbrev no_arguments : Exception
no_arguments = record { exception_name = b'I' ∷ []; message = [] }

abbrev refusing : GeodeExecution ℤ (List (Cacheable ℤ))
refusing = record echo { with_args = λ c x. raised no_arguments }

abbrev never : Cacheable ℤ → Bool
never c = false

abbrev deleted : System (Cacheable ℤ) Exception
unfolding launch prepare execute_complete
deleted = record (launch (prepare refusing three null_ptr [])) {
  worker = execute_complete (launch (prepare refusing three null_ptr [])).worker;
}

completion : After never (launch (prepare refusing three null_ptr [])) deleted
unfolding deleted new_worker
completion = later now (completes refl refl refl)

launch-prepare_example : deleted.worker.emitted ≡ failure no_arguments ∷ []
unfolding deleted prepare new_worker
launch-prepare_example =
    launch-prepare refusing never three null_ptr [] no_arguments refl completion refl
