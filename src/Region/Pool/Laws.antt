-- ===== src/Region/Pool/Laws.antt =====
-- The callbacks of the methods of src/region.cpp, counted over the steps of Region/Pool.antt.
use node_gemfire.Base.{
  ℕ, zero, suc, ◌+◌, ◌≡◌, refl, Bool, true, not, ◌&&◌, ◌||◌, List, [], ◌∷◌, ◌++◌, Option, none,
  some, length, ◌==◌, if◌then◌else◌, arith,
}
use node_gemfire.Conversions.Data.{V8Value, Platform}
use node_gemfire.Region.Geode.{GeodeRegion, Instance}
use node_gemfire.Region.Work.{
  Job, Outcome, succeeded, errored, is_evented, execute, complete, Notice, handle_ok, handle_error,
}
use node_gemfire.Region.Methods.{Method, call}
use node_gemfire.Region.Laws.Calls.{call-Settled}
use node_gemfire.Region.Pool.{
  Executed, Pool, submit, numbered, run_waiting, call_back, PoolStep, calls, works, completes,
  changes, PoolReach, idle, after, count, is_callback, callbacks, pending, promised, is_crash,
  crashes,
}

module _ {ℓ} {A : Type ℓ} where
  count-append : (p : A → Bool) (xs ys : List A) → count p (xs ++ ys) ≡ count p xs + count p ys
  count-append p [] ys = ground arith
  count-append p (x ∷ xs) ys = ground (arith, count-append p xs ys)

  -- Taking one element out.
  count-middle :
      (p : A → Bool) (xs : List A) (x : A) (ys : List A)
      → count p (xs ++ x ∷ ys) ≡ (if p x then 1 else 0) + count p (xs ++ ys)
  count-middle p [] x ys = refl
  count-middle p (w ∷ xs) x ys = ground (arith, count-middle p xs x ys)

module _ {D : Type 0} where
  promised-append :
      (n : ℕ) (js : List (Job D)) (j : Job D)
      → promised n (js ++ j ∷ [])
        ≡ promised n js + (if (length js == n) && j.has_callback then 1 else 0)
  promised-append zero [] j = ground arith
  promised-append (suc n) [] j = ground arith
  promised-append zero (i ∷ js) j = ground arith
  promised-append (suc n) (i ∷ js) j = ground (arith, promised-append n js j)

  -- What the end of a worker adds.
  callbacks-numbered :
      {S : Type 0} (n m : ℕ) (j : Job D) (o : Outcome D S)
      → count (λ (x : ℕ × Notice D). (x.0 == n) && is_callback x.1) (numbered m (complete j o))
        ≡ (if (m == n) && j.has_callback then 1 else 0)
  unfolding complete handle_ok handle_error
  callbacks-numbered n m j (succeeded r s) = ground arith
  callbacks-numbered n m j (errored e s) = ground arith

  abbrev is_safe : Job D → Bool
  is_safe j = j.has_callback || is_evented j.work

  crashes-numbered :
      {S : Type 0} (m : ℕ) (j : Job D) (o : Outcome D S)
      → is_safe j ≡ true
      → count (λ (x : ℕ × Notice D). is_crash x.1) (numbered m (complete j o)) ≡ 0
  unfolding complete handle_ok handle_error
  crashes-numbered m j (succeeded r s) h = ground arith
  crashes-numbered m j (errored e s) h = ground arith

  submitted-is_safe :
      (P : Platform D) (name : List ℕ) (cache : Instance) (m : Method) (info : List (V8Value D))
      (j : Job D)
      → (call P name cache m info).queued ≡ some j
      → is_safe j ≡ true
  submitted-is_safe P name cache m info j h = ground (arith, call-Settled P name cache m info)

module _ {D S : Type 0} (P : Platform D) (g : GeodeRegion D S) where
  -- The calls of a callback, those made and those to come, are those promised, and no worker calls
  -- through a NULL callback.
  record Kept (p : Pool D S) : Type 0 where
    numbers : (n : ℕ) → callbacks n p + pending n p ≡ promised n p.jobs
    safe_waiting : count (λ (x : ℕ × Job D). not (is_safe x.1)) p.waiting ≡ 0
    safe_executed : count (λ (x : Executed D S). not (is_safe x.job)) p.executed ≡ 0
    no_crash : crashes p ≡ 0

  submit-Kept :
      (o : Option (Job D)) (p : Pool D S)
      → ((j : Job D) → o ≡ some j → is_safe j ≡ true)
      → Kept p
      → Kept (submit o p)
  unfolding submit
  submit-Kept none p h k = k
  submit-Kept (some j) p h k = record {
    numbers = λ n. ground (
      arith,
      k.numbers n,
      promised-append n p.jobs j,
      count-append (λ (x : ℕ × Job D). (x.0 == n) && x.1.has_callback) p.waiting
          ((length p.jobs, j) ∷ []),
    );
    safe_waiting = ground (
      arith,
      k.safe_waiting,
      h j refl,
      count-append (λ (x : ℕ × Job D). not (is_safe x.1)) p.waiting ((length p.jobs, j) ∷ []),
    );
    safe_executed = k.safe_executed;
    no_crash = k.no_crash;
  }

  run_waiting-Kept :
      (before : List (ℕ × Job D)) (x : ℕ × Job D) (rest : List (ℕ × Job D)) (p : Pool D S)
      → p.waiting ≡ before ++ x ∷ rest
      → Kept p
      → Kept (run_waiting g x (before ++ rest) p)
  unfolding run_waiting
  run_waiting-Kept before (m, j) rest p h k =
      let e : Executed D S = record { number = m; job = j; outcome = execute g j.work p.state } in
      record {
        numbers = λ n. ground (
          arith,
          k.numbers n,
          count-middle (λ (x : ℕ × Job D). (x.0 == n) && x.1.has_callback) before (m, j) rest,
          count-append (λ (x : Executed D S). (x.number == n) && x.job.has_callback) p.executed
              (e ∷ []),
        );
        safe_waiting = ground (
          arith,
          k.safe_waiting,
          count-middle (λ (x : ℕ × Job D). not (is_safe x.1)) before (m, j) rest,
        );
        safe_executed = ground (
          arith,
          k.safe_waiting,
          k.safe_executed,
          count-middle (λ (x : ℕ × Job D). not (is_safe x.1)) before (m, j) rest,
          count-append (λ (x : Executed D S). not (is_safe x.job)) p.executed (e ∷ []),
        );
        no_crash = k.no_crash;
      }

  call_back-Kept :
      (before : List (Executed D S)) (x : Executed D S) (rest : List (Executed D S)) (p : Pool D S)
      → p.executed ≡ before ++ x ∷ rest
      → Kept p
      → Kept (call_back x (before ++ rest) p)
  unfolding call_back
  call_back-Kept before x rest p h k =
      let taken = count-middle (λ (x : Executed D S). not (is_safe x.job)) before x rest in
      let safe : is_safe x.job ≡ true = ground (arith, k.safe_executed, taken) in
      record {
        numbers = λ n. ground (
          arith,
          k.numbers n,
          count-middle (λ (x : Executed D S). (x.number == n) && x.job.has_callback) before x rest,
          count-append (λ (x : ℕ × Notice D). (x.0 == n) && is_callback x.1) p.log
              (numbered x.number (complete x.job x.outcome)),
          callbacks-numbered n x.number x.job x.outcome,
        );
        safe_waiting = k.safe_waiting;
        safe_executed = ground (arith, k.safe_executed, taken);
        no_crash = ground (
          arith,
          k.no_crash,
          crashes-numbered x.number x.job x.outcome safe,
          count-append (λ (x : ℕ × Notice D). is_crash x.1) p.log
              (numbered x.number (complete x.job x.outcome)),
        );
      }

  PoolStep-Kept : {p q : Pool D S} → PoolStep P g p q → Kept p → Kept q
  PoolStep-Kept {p} (calls c m info) k =
      submit-Kept (call P g.name c m info).queued p (submitted-is_safe P g.name c m info) k
  PoolStep-Kept {p} (works before x rest h) k = run_waiting-Kept before x rest p h k
  PoolStep-Kept {p} (completes before x rest h) k = call_back-Kept before x rest p h k
  PoolStep-Kept (changes s) k = record {
    numbers = k.numbers;
    safe_waiting = k.safe_waiting;
    safe_executed = k.safe_executed;
    no_crash = k.no_crash;
  }

  PoolReach-Kept : {p : Pool D S} → PoolReach P g p → Kept p
  PoolReach-Kept (idle s) = record {
    numbers = λ n. ground arith;
    safe_waiting = refl;
    safe_executed = refl;
    no_crash = refl;
  }
  PoolReach-Kept (after r st) = PoolStep-Kept st (PoolReach-Kept r)

  pub callbacks-pending :
      {p : Pool D S}
      → PoolReach P g p
      → (n : ℕ) → (callbacks n p + pending n p ≡ promised n p.jobs) × (crashes p ≡ 0)
  callbacks-pending r n = let k = PoolReach-Kept r in (k.numbers n, k.no_crash)
