-- ===== src/Region/Pool/Drain.antt =====
-- Runs of Region/Pool.antt in which JavaScript calls no more methods of src/region.cpp.
use node_gemfire.Base.{ℕ, ◌≡◌, refl, Bool, true, false, List, [], ◌∷◌, arith}
use node_gemfire.Conversions.Data.{Platform}
use node_gemfire.Region.Geode.{GeodeRegion}
use node_gemfire.Region.Work.{Job}
use node_gemfire.Region.Pool.{
  Executed, Pool, run_waiting, call_back, PoolStep, works, completes, PoolReach, after, callbacks,
  promised,
}
use node_gemfire.Region.Pool.Laws.{callbacks-pending}

module _ {D S : Type 0} {P : Platform D} {g : GeodeRegion D S} where
  -- A step of the pool or of its callbacks.
  abbrev pub is_inner : {p q : Pool D S} → PoolStep P g p q → Bool
  is_inner (works before x rest h) = true
  is_inner (completes before x rest h) = true
  is_inner _ = false

pub data InnerRuns {D S : Type 0} (P : Platform D) (g : GeodeRegion D S)
    : Pool D S → Pool D S → Type 0 where
  stop : {p : Pool D S} → InnerRuns P g p p
  go :
      {p q r : Pool D S} (st : PoolStep P g p q)
      → is_inner st ≡ true
      → InnerRuns P g q r
      → InnerRuns P g p r

module _ {D S : Type 0} (P : Platform D) (g : GeodeRegion D S) where
  record Drained (p : Pool D S) : Type 0 where
    last : Pool D S
    runs : InnerRuns P g p last
    jobs : last.jobs ≡ p.jobs
    waiting : last.waiting ≡ []
    executed : last.executed ≡ []

  drain_executed :
      (xs : List (Executed D S)) (p : Pool D S) → p.waiting ≡ [] → p.executed ≡ xs → Drained p
  unfolding call_back
  drain_executed [] p w h = record { last = p; runs = stop; jobs = refl; waiting = w; executed = h }
  drain_executed (x ∷ xs) p w h =
      let d : Drained (call_back x xs p) = drain_executed xs (call_back x xs p) w refl in
      record {
        last = d.last;
        runs = go (completes [] x xs h) refl d.runs;
        jobs = d.jobs;
        waiting = d.waiting;
        executed = d.executed;
      }

  drain_waiting : (ws : List (ℕ × Job D)) (p : Pool D S) → p.waiting ≡ ws → Drained p
  unfolding run_waiting
  drain_waiting [] p h = drain_executed p.executed p h refl
  drain_waiting ((n, j) ∷ ws) p h =
      let d : Drained (run_waiting g (n, j) ws p) =
        drain_waiting ws (run_waiting g (n, j) ws p) refl in
      record {
        last = d.last;
        runs = go (works [] (n, j) ws h) refl d.runs;
        jobs = d.jobs;
        waiting = d.waiting;
        executed = d.executed;
      }

  runs-PoolReach : {p q : Pool D S} → PoolReach P g p → InnerRuns P g p q → PoolReach P g q
  runs-PoolReach r stop = r
  runs-PoolReach r (go st i rs) = runs-PoolReach (after r st) rs

  -- A state that the pool comes to by itself, in which every callback has been called as promised.
  pub record CalledBack (p : Pool D S) : Type 0 where
    pub last : Pool D S
    pub runs : InnerRuns P g p last
    pub told : (n : ℕ) → callbacks n last ≡ promised n p.jobs

  -- From every reachable state, some steps of the pool and its callbacks alone lead to a state in which
  -- the callback of every worker queued so far has been called exactly once, if it has one.
  pub drains : (p : Pool D S) → PoolReach P g p → CalledBack p
  drains p r =
      let d : Drained p = drain_waiting p.waiting p refl in
      let kept = callbacks-pending P g (runs-PoolReach r d.runs) in
      record {
        last = d.last;
        runs = d.runs;
        told = λ n. ground (arith, d.jobs, d.waiting, d.executed, kept n);
      }
