-- ===== src/Region/Pool.antt =====
-- src/region.cpp, Nan::AsyncQueueWorker with what libuv and Nan document of it: JavaScript calls
-- methods, which queue workers; the threads of the pool execute waiting workers; the event loop calls
-- back for executed ones. Workers run side by side, so that they may take effect in any order, and
-- other clients and the methods on the event loop change Geode's region at any time.
pub mod Laws
pub mod Drain
pub mod Settle
mod Examples
use node_gemfire.Base.{
  ℕ, zero, suc, ◌+◌, ◌≡◌, Bool, true, false, ◌&&◌, List, [], ◌∷◌, ◌++◌, Option, none, some, length,
  ◌==◌, if◌then◌else◌,
}
use node_gemfire.Conversions.Data.{V8Value, Platform}
use node_gemfire.Region.Geode.{GeodeRegion, Instance}
use node_gemfire.Region.Work.{
  Job, Outcome, execute, complete, Notice, called_back, called_back_error, error_event,
  null_dereference,
}
use node_gemfire.Region.Methods.{Method, call}
use node_gemfire.Region.Callbacks.{state_of}

-- An executed worker, with its number.
pub record Executed (D S : Type 0) : Type 0 where
  pub number : ℕ
  pub job : Job D
  pub outcome : Outcome D S

pub record Pool (D S : Type 0) : Type 0 where
  pub jobs : List (Job D)  -- all workers queued so far; their places are their numbers
  pub waiting : List (ℕ × Job D)
  pub executed : List (Executed D S)
  pub log : List (ℕ × Notice D)  -- what JavaScript was told, with the number of the worker
  pub state : S

module _ {D : Type 0} where
  abbrev pub numbered : ℕ → List (Notice D) → List (ℕ × Notice D)
  numbered n [] = []
  numbered n (m ∷ ms) = (n, m) ∷ numbered n ms

module _ {D S : Type 0} where
  abbrev pub idle_pool : S → Pool D S
  idle_pool s = record { jobs = []; waiting = []; executed = []; log = []; state = s }

  -- `Nan::AsyncQueueWorker`, if the method reaches it.
  unfoldable pub submit : Option (Job D) → Pool D S → Pool D S
  submit none p = p
  submit (some j) p = record p {
    jobs = p.jobs ++ j ∷ [];
    waiting = p.waiting ++ (length p.jobs, j) ∷ [];
  }

  unfoldable pub run_waiting : GeodeRegion D S → ℕ × Job D → List (ℕ × Job D) → Pool D S → Pool D S
  unfolding execute
  run_waiting g (n, j) rest p =
      let o = execute g j.work p.state in
      record p {
        waiting = rest;
        executed = p.executed ++ record { number = n; job = j; outcome = o } ∷ [];
        state = state_of o;
      }

  unfoldable pub call_back : Executed D S → List (Executed D S) → Pool D S → Pool D S
  unfolding complete
  call_back x rest p = record p {
    executed = rest;
    log = p.log ++ numbered x.number (complete x.job x.outcome);
  }

pub data PoolStep {D S : Type 0} (P : Platform D) (g : GeodeRegion D S) (p : Pool D S)
    : Pool D S → Type 0 where
  calls :
      (instance_ : Instance) (m : Method) (info : List (V8Value D))
      → PoolStep P g p (submit (call P g.name instance_ m info).queued p)
  works :
      (before : List (ℕ × Job D)) (x : ℕ × Job D) (after : List (ℕ × Job D))
      → p.waiting ≡ before ++ x ∷ after
      → PoolStep P g p (run_waiting g x (before ++ after) p)
  completes :
      (before : List (Executed D S)) (x : Executed D S) (after : List (Executed D S))
      → p.executed ≡ before ++ x ∷ after
      → PoolStep P g p (call_back x (before ++ after) p)
  changes : (s : S) → PoolStep P g p (record p { state = s })

pub data PoolReach {D S : Type 0} (P : Platform D) (g : GeodeRegion D S) : Pool D S → Type 0 where
  idle : (s : S) → PoolReach P g (idle_pool s)
  after : {p q : Pool D S} → PoolReach P g p → PoolStep P g p q → PoolReach P g q

module _ {ℓ} {A : Type ℓ} where
  -- How many elements pass a test.
  abbrev pub count : (A → Bool) → List A → ℕ
  count p [] = 0
  count p (x ∷ xs) = (if p x then 1 else 0) + count p xs

module _ {D : Type 0} where
  abbrev pub is_callback : Notice D → Bool
  is_callback (called_back r) = true
  is_callback (called_back_error e) = true
  is_callback _ = false

  abbrev pub is_crash : Notice D → Bool
  is_crash null_dereference = true
  is_crash _ = false

  -- One call of the callback for a worker that has one, and else none.
  abbrev pub promised : ℕ → List (Job D) → ℕ
  promised n [] = 0
  promised zero (j ∷ js) = if j.has_callback then 1 else 0
  promised (suc n) (j ∷ js) = promised n js

module _ {D S : Type 0} where
  -- The calls of the callback of a worker.
  abbrev pub callbacks : ℕ → Pool D S → ℕ
  callbacks n p = count (λ (x : ℕ × Notice D). (x.0 == n) && is_callback x.1) p.log

  -- The calls that are still to come.
  abbrev pub pending : ℕ → Pool D S → ℕ
  pending n p =
      count (λ (x : ℕ × Job D). (x.0 == n) && x.1.has_callback) p.waiting
      + count (λ (x : Executed D S). (x.number == n) && x.job.has_callback) p.executed

  -- The calls through a NULL callback.
  abbrev pub crashes : Pool D S → ℕ
  crashes p = count (λ (x : ℕ × Notice D). is_crash x.1) p.log
