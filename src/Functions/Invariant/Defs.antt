-- ===== src/Functions/Invariant/Defs.antt =====
-- What holds in every reachable state of the system in Functions/System.antt.
use node_gemfire.Base.{
  ◌<◌, ◌≡◌, ◌≢◌, ◌⊎◌, Bool, true, false, ◌&&◌, ◌||◌, List, [], ◌∷◌, ◌++◌, Option, none, some,
  if◌then◌else◌,
}
use node_gemfire.Functions.Stream.{
  Phase, executing, sleeping, leaving, announced, failed, returned, failed_late,
}
use node_gemfire.Functions.Worker.{end_event}
use node_gemfire.Functions.System.{System, Loop, idle, holding, is_done}
use node_gemfire.Functions.Log.{
  payloads, told, has_end, has_failure, emissions, is_some, failures, to_list,
}

module _ {V : Type 0} where
  -- The results that the loop has taken and not yet emitted.
  abbrev pub held : Loop V → List V
  held (holding b) = b
  held _ = []

  abbrev pub is_idle : Loop V → Bool
  is_idle idle = true
  is_idle _ = false

module _ {E : Type 0} where
  -- `ResultStream::end` has seen the buffer empty.
  abbrev pub is_past : Phase E → Bool
  is_past leaving = true
  is_past announced = true
  is_past returned = true
  is_past (failed_late e) = true
  is_past _ = false

  -- `ResultStream::end` has sent `endAsync`.
  abbrev pub is_announced : Phase E → Bool
  is_announced announced = true
  is_announced returned = true
  is_announced (failed_late e) = true
  is_announced _ = false

  abbrev pub is_executing : Phase E → Bool
  is_executing executing = true
  is_executing _ = false

  abbrev pub is_sleeping : Phase E → Bool
  is_sleeping sleeping = true
  is_sleeping _ = false

  abbrev pub thrown : Phase E → Option E
  thrown (failed e) = some e
  thrown (failed_late e) = some e
  thrown _ = none

-- The buffer, the batch in hand and the log.
pub record Delivery {V E : Type 0} (is_error : V → Bool) (s : System V E) : Type 0 where
  pub kept : payloads s.worker.emitted ++ (held s.loop ++ s.worker.stream.results) ≡ s.added
  pub shape :
      told s.worker.emitted
      ≡ emissions is_error (payloads s.worker.emitted)
        ++ (if has_end s.worker.emitted then end_event ∷ [] else [])
  pub quiet : is_past s.phase ≡ true → s.worker.stream.results ≡ []
  pub last : has_end s.worker.emitted ≡ true → held s.loop ≡ []

-- The signals between the threads.
pub record Signals {V E : Type 0} (s : System V E) : Type 0 where
  pub sent : is_executing s.phase ≡ false → s.senders ≡ 0
  pub end_due :
      s.worker.stream.end_async ≡ true
      → (is_announced s.phase ≡ true) × (has_end s.worker.emitted ≡ false)
  pub end_told : has_end s.worker.emitted ≡ true → is_announced s.phase ≡ true
  pub end_owed :
      is_announced s.phase ≡ true
      → (s.worker.stream.end_async ≡ true) ⊎ (has_end s.worker.emitted ≡ true)
  pub awake :
      s.worker.stream.results ≢ [] → (s.worker.stream.results_async ≡ true) ⊎ (0 < s.senders)
  pub watched :
      is_sleeping s.phase ≡ true → (s.worker.stream.results ≢ []) ⊎ (is_idle s.loop ≡ false)

-- The two flags that decide on the teardown.
pub record Teardown {V E : Type 0} (s : System V E) : Type 0 where
  pub ended : s.worker.ended ≡ (has_end s.worker.emitted || has_failure s.worker.emitted)
  pub completed : s.worker.execute_completed ≡ true → is_done s.phase ≡ true
  pub caught : s.worker.exception ≡ thrown s.phase
  pub reported :
      has_failure s.worker.emitted ≡ (s.worker.execute_completed && is_some s.worker.exception)
  pub reports :
      failures s.worker.emitted
      ≡ (if s.worker.execute_completed then to_list s.worker.exception else [])
  pub deleted : s.worker.deleted ≡ (s.worker.ended && s.worker.execute_completed)
  pub rested : s.worker.deleted ≡ true → is_idle s.loop ≡ true
