-- ===== src/Region/Pool/Examples.antt =====
-- A put and a get side by side in the pool, for a region that is a list of entries: the get runs first.
use node_gemfire.Base.{ℤ, ◌+◌, ◌≡◌, ◌⊎◌, refl, [], ◌∷◌}
use node_gemfire.Conversions.Data.{function}
use node_gemfire.Conversions.ToGemfire.{gemfire_key}
use node_gemfire.Conversions.Examples.{plain, sample}
use node_gemfire.Region.Geode.{open_instance}
use node_gemfire.Region.Methods.{put, get, put_method, get_method, call}
use node_gemfire.Region.Examples.{shelf, a_key, Entries}
use node_gemfire.Region.Pool.{
  Pool, submit, run_waiting, call_back, PoolReach, calls, works, completes, idle, after, callbacks,
}
use node_gemfire.Region.Pool.Drain.{InnerRuns, stop, go, CalledBack, drains}
use node_gemfire.Region.Pool.Settle.{inner_steps, work_left, Settled, GoesOn, settles}

record Shown : Type 0 where
  pool : Pool ℤ Entries
  reach : PoolReach plain shelf pool

-- Both are queued.
abbrev queued_both : Shown
queued_both = record {
  pool = _;
  reach =
      after (after (idle []) (calls open_instance put_method (a_key ∷ sample ∷ function ∷ [])))
        (calls open_instance get_method (a_key ∷ function ∷ []));
}

unfoldable second_first : Shown
unfolding call put get submit
second_first = record { pool = _; reach = after queued_both.reach (works (_ ∷ []) _ [] refl) }

unfoldable told_first : Shown
unfolding second_first run_waiting
told_first = record { pool = _; reach = after second_first.reach (completes [] _ [] refl) }

told_once : (callbacks 1 told_first.pool ≡ 1) × (callbacks 0 told_first.pool ≡ 0)
unfolding told_first call_back gemfire_key
told_once = (refl, refl)

drained : CalledBack plain shelf told_first.pool
drained = drains plain shelf told_first.pool told_first.reach

-- The put runs, and then its callback is due.
record Run : Type 0 where
  last : Pool ℤ Entries
  run : InnerRuns plain shelf told_first.pool last

unfoldable put_run : Run
unfolding told_first call_back
put_run = record { last = _; run = go (works [] _ [] refl) refl stop }

settles_example :
    (inner_steps plain shelf put_run.run + work_left put_run.last ≡ work_left told_first.pool)
    × (Settled plain shelf told_first.pool.jobs put_run.last ⊎ GoesOn plain shelf put_run.last)
settles_example = settles plain shelf told_first.reach put_run.run
