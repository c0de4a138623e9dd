-- ===== src/Functions/Progress.antt =====
-- src/functions.cpp and src/result_stream.cpp: runs from the call of `endResults` to the deletion of
-- the worker, without a spurious wake-up from `uv_cond_wait`.
use node_gemfire.Base.{
  ◌≡◌, ◌≢◌, refl, ◌⊎◌, inl, inr, Bool, true, false, [], arith, Bool-cases, List-cases,
}
use node_gemfire.Functions.Stream.{
  Phase, executing, testing, sleeping, leaving, announced, failed, returned, failed_late, end_turn,
  results_processed,
}
use node_gemfire.Functions.Worker.{end, execute_complete}
use node_gemfire.Functions.System.{
  System, Loop, idle, holding, emitted_all, is_done, take_batch, Step, adds, wakes, tests,
  announces, returns, takes, emits, signals, ends, completes, Reach, then_step,
}
use node_gemfire.Functions.Invariant.Defs.{Signals, Teardown, is_executing, is_past}
use node_gemfire.Functions.Safety.{Inv, Reach-Inv}

module _ {V E : Type 0} {is_error : V → Bool} where
  -- A step that neither adds a result nor is a spurious wake-up.
  abbrev pub is_ordinary : {s t : System V E} → Step is_error s t → Bool
  is_ordinary (adds v p) = false
  is_ordinary (wakes p) = false
  is_ordinary _ = true

-- Ordinary steps, one after the other.
pub data Runs {V E : Type 0} (is_error : V → Bool) : System V E → System V E → Type 0 where
  stop : {s : System V E} → Runs is_error s s
  go :
      {s t u : System V E} (st : Step is_error s t)
      → is_ordinary st ≡ true
      → Runs is_error t u
      → Runs is_error s u

pub record Finish {V E : Type 0} (is_error : V → Bool) (s : System V E) : Type 0 where
  pub last : System V E
  pub runs : Runs is_error s last
  pub deleted : last.worker.deleted ≡ true

module _ {V E : Type 0} {is_error : V → Bool} where
  via :
      {s t : System V E} (st : Step is_error s t)
      → is_ordinary st ≡ true
      → Finish is_error t
      → Finish is_error s
  via st e f = record { last = f.last; runs = go st e f.runs; deleted = f.deleted }

  -- `ExecuteComplete` has run: the worker is gone, or `End` is due.
  Finish-completed :
      (s : System V E)
      → Reach is_error s
      → s.loop ≡ idle
      → s.worker.execute_completed ≡ true
      → Finish is_error s
  unfolding end
  Finish-completed s r l c = elim (Bool-cases s.worker.deleted) [
    | inl d ↦ record { last = s; runs = stop; deleted = d }
    | inr d ↦
        let i : Inv is_error s = Reach-Inv r in
        let g : Signals s = i.signals in
        let t : Teardown s = i.teardown in
        let due : s.worker.stream.end_async ≡ true = ground arith in
        via (ends l d due) refl (record { last = _; runs = stop; deleted = ground arith })
  ]

  Finish-done :
      (s : System V E)
      → Reach is_error s
      → s.loop ≡ idle
      → is_done s.phase ≡ true
      → Finish is_error s
  unfolding execute_complete
  Finish-done s r l p = elim (Bool-cases s.worker.execute_completed) [
    | inl c ↦ Finish-completed s r l c
    | inr c ↦
        let st : Step is_error s _ = completes l p c in
        via st refl (Finish-completed _ (then_step r st) l (ground arith))
  ]

  Finish-past :
      (s : System V E) (p : Phase E)
      → Reach is_error s
      → s.loop ≡ idle
      → s.phase ≡ p
      → is_past p ≡ true
      → Finish is_error s
  Finish-past s leaving r l e h =
      let st : Step is_error s _ = announces e in
      let st' : Step is_error _ _ = returns refl in
      via st refl (via st' refl (Finish-done _ (then_step (then_step r st) st') l refl))
  Finish-past s announced r l e h =
      let st : Step is_error s _ = returns e in via st refl (Finish-done _ (then_step r st) l refl)
  Finish-past s returned r l e h = Finish-done s r l (rw e)
  Finish-past s (failed_late x) r l e h = Finish-done s r l (rw e)
  Finish-past s executing r l e h = cc
  Finish-past s testing r l e h = cc
  Finish-past s sleeping r l e h = cc
  Finish-past s (failed x) r l e h = cc

  -- `end` finds the buffer empty.
  Finish-empty :
      (s : System V E)
      → Reach is_error s
      → s.loop ≡ idle
      → s.phase ≡ testing
      → s.worker.stream.results ≡ []
      → Finish is_error s
  unfolding end_turn
  Finish-empty s r l p e =
      let st : Step is_error s _ = tests p in
      via st refl (Finish-past _ leaving (then_step r st) l (rw e) refl)

  -- One call of `Data` empties the buffer and wakes `end`.
  Finish-full :
      (s : System V E)
      → Reach is_error s
      → s.loop ≡ idle
      → (s.phase ≡ testing) ⊎ (s.phase ≡ sleeping)
      → s.worker.stream.results ≢ []
      → Finish is_error s
  unfolding take_batch results_processed
  Finish-full s r l p e =
      let i : Inv is_error s = Reach-Inv r in
      let g : Signals s = i.signals in
      let t : Teardown s = i.teardown in
      let st : Step is_error s _ = takes l (ground arith) (ground arith) in
      let st' : Step is_error _ _ = emits _ refl in
      let st'' : Step is_error _ _ = signals refl in
      via st refl (
        via st' refl (
          via st'' refl (
            Finish-empty _ (then_step (then_step (then_step r st) st') st'') refl (ground arith)
              refl)))

  Finish-idle :
      (s : System V E) (p : Phase E)
      → Reach is_error s
      → s.loop ≡ idle
      → s.phase ≡ p
      → is_executing p ≡ false
      → Finish is_error s
  Finish-idle s executing r l e h = cc
  Finish-idle s testing r l e h = elim (List-cases s.worker.stream.results) [
    | inl empty ↦ Finish-empty s r l e empty
    | inr full ↦ Finish-full s r l (inl e) full
  ]
  Finish-idle s sleeping r l e h = elim (List-cases s.worker.stream.results) [
    | inl empty ↦
        let i : Inv is_error s = Reach-Inv r in
        let g : Signals s = i.signals in absurd (ground arith)
    | inr full ↦ Finish-full s r l (inr e) full
  ]
  Finish-idle s (failed x) r l e h = Finish-done s r l (rw e)
  Finish-idle s leaving r l e h = Finish-past s leaving r l e refl
  Finish-idle s announced r l e h = Finish-past s announced r l e refl
  Finish-idle s returned r l e h = Finish-past s returned r l e refl
  Finish-idle s (failed_late x) r l e h = Finish-past s (failed_late x) r l e refl

  Finish-emitted :
      (s : System V E)
      → Reach is_error s
      → s.loop ≡ emitted_all
      → is_executing s.phase ≡ false
      → Finish is_error s
  unfolding results_processed
  Finish-emitted s r l h =
      let st : Step is_error s _ = signals l in
      via st refl (Finish-idle _ _ (then_step r st) refl refl (ground arith))

  Finish-any :
      (s : System V E) (l : Loop V)
      → Reach is_error s
      → s.loop ≡ l
      → is_executing s.phase ≡ false
      → Finish is_error s
  Finish-any s idle r l h = Finish-idle s _ r l refl h
  Finish-any s (holding b) r l h =
      let st : Step is_error s _ = emits b l in
      via st refl (Finish-emitted _ (then_step r st) refl h)
  Finish-any s emitted_all r l h = Finish-emitted s r l h

  -- From every reachable state in which Geode adds no more results, ordinary steps lead to the
  -- deletion of the worker: `end` never sleeps for good, and no worker is left behind.
  pub finishes :
      (s : System V E) → Reach is_error s → is_executing s.phase ≡ false → Finish is_error s
  finishes s r h = Finish-any s s.loop r refl h
