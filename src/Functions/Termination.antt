-- ===== src/Functions/Termination.antt =====
-- src/functions.cpp and src/result_stream.cpp: the length of the runs after Geode has added its last
-- result.
use node_gemfire.Base.{
  ℕ, suc, ◌+◌, ◌*◌, ◌≤◌, ◌<◌, ◌≡◌, ◌⊎◌, inl, inr, Bool, true, false, arith, if◌then◌else◌,
}
use node_gemfire.Functions.Stream.{
  Phase, executing, testing, sleeping, leaving, announced, failed, returned, failed_late,
  send_results, send_end, end_turn, results_processed,
}
use node_gemfire.Functions.Worker.{end, execute_complete}
use node_gemfire.Functions.System.{
  System, Loop, idle, holding, emitted_all, Step, adds, sends, enters_end, tests, wakes, announces,
  returns, fails, fails_late, takes, emits, signals, ends, completes, Reach, then_step, take_batch,
}
use node_gemfire.Functions.Log.{report_exception_log}
use node_gemfire.Functions.Invariant.Defs.{is_executing}
use node_gemfire.Functions.Progress.{Runs, stop, go, is_ordinary, finishes}

abbrev phase_cost : {E : Type 0} → Phase E → ℕ
phase_cost executing = 7
phase_cost testing = 6
phase_cost sleeping = 5
phase_cost leaving = 4
phase_cost announced = 2
phase_cost returned = 1
phase_cost (failed e) = 0
phase_cost (failed_late e) = 0

abbrev loop_cost : {V : Type 0} → Loop V → ℕ
loop_cost idle = 0
loop_cost (holding b) = 3
loop_cost emitted_all = 2

-- A bound for the ordinary steps that are left.
abbrev pub steps_left : {V E : Type 0} → System V E → ℕ
steps_left s =
    5 * s.senders
    + (if s.worker.stream.results_async then 4 else 0)
    + loop_cost s.loop
    + phase_cost s.phase
    + (if s.worker.stream.end_async then 1 else 0)
    + (if s.worker.execute_completed then 0 else 1)

-- The worker is deleted, or some ordinary step is possible.
abbrev pub GoesOn : {V E : Type 0} → (V → Bool) → System V E → Type 0
GoesOn {V} {E} is_error s =
    (s.worker.deleted ≡ true)
    ⊎ ((t : System V E) × (st : Step is_error s t) × (is_ordinary st ≡ true))

module _ {V E : Type 0} {is_error : V → Bool} where
  Step-steps_left :
      {s t : System V E} (st : Step is_error s t)
      → is_ordinary st ≡ true
      → steps_left t < steps_left s
  unfolding send_results send_end end_turn results_processed take_batch end execute_complete
  Step-steps_left (adds v p) o = ground arith
  Step-steps_left (sends n p) o = ground arith
  Step-steps_left (enters_end p q) o = ground arith
  Step-steps_left (tests p) o = ground arith
  Step-steps_left (wakes p) o = ground arith
  Step-steps_left (announces p) o = ground arith
  Step-steps_left (returns p) o = ground arith
  Step-steps_left (fails e p q) o = ground arith
  Step-steps_left (fails_late e p) o = ground arith
  Step-steps_left (takes p q r) o = ground arith
  Step-steps_left (emits b p) o = ground arith
  Step-steps_left (signals p) o = ground arith
  Step-steps_left (ends p q r) o = ground arith
  Step-steps_left {s} (completes p q r) o =
      ground (arith, report_exception_log s.worker.exception s.worker)

  Step-is_executing :
      {s t : System V E}
      → Step is_error s t
      → is_executing s.phase ≡ false
      → is_executing t.phase ≡ false
  unfolding end_turn results_processed take_batch
  Step-is_executing (adds v p) h = ground arith
  Step-is_executing (sends n p) h = h
  Step-is_executing (enters_end p q) h = ground arith
  Step-is_executing (tests p) h = ground arith
  Step-is_executing (wakes p) h = ground arith
  Step-is_executing (announces p) h = ground arith
  Step-is_executing (returns p) h = ground arith
  Step-is_executing (fails e p q) h = ground arith
  Step-is_executing (fails_late e p) h = ground arith
  Step-is_executing (takes p q r) h = h
  Step-is_executing (emits b p) h = h
  Step-is_executing (signals p) h = ground arith
  Step-is_executing (ends p q r) h = h
  Step-is_executing (completes p q r) h = h

  abbrev pub steps : {s t : System V E} → Runs is_error s t → ℕ
  steps stop = 0
  steps (go st o r) = suc (steps r)

  steps_bound : {s t : System V E} (r : Runs is_error s t) → steps r + steps_left t ≤ steps_left s
  steps_bound stop = omega arith
  steps_bound (go st o r) = omega (arith, steps_bound r, Step-steps_left st o)

  first_step : {s t : System V E} → t.worker.deleted ≡ true → Runs is_error s t → GoesOn is_error s
  first_step d stop = inl d
  first_step d (go st o r) = inr (_, st, o)

  Runs-GoesOn :
      {s t : System V E}
      → Reach is_error s
      → is_executing s.phase ≡ false
      → Runs is_error s t
      → GoesOn is_error t
  Runs-GoesOn {s} r h stop = let f = finishes s r h in first_step f.deleted f.runs
  Runs-GoesOn r h (go st o rs) = Runs-GoesOn (then_step r st) (Step-is_executing st h) rs

  -- From a reachable state in which Geode adds no more results, a run without spurious wake-ups has at
  -- most `steps_left` steps, and its last state is one in which the worker is deleted or in which such
  -- a run can go on.
  pub terminates :
      {s t : System V E}
      → Reach is_error s
      → is_executing s.phase ≡ false
      → (r : Runs is_error s t) → (steps r ≤ steps_left s) × GoesOn is_error t
  terminates {s} {t} reach h r = (omega (arith, steps_bound r), Runs-GoesOn reach h r)
