-- ===== src/Region/Pool/Settle.antt =====
-- Every run of Region/Pool.antt in which JavaScript calls no more methods of src/region.cpp and no one
-- else changes the region: how long it can be, and where it can end.
use node_gemfire.Base.{
  ℕ, suc, ◌+◌, ◌≡◌, refl, subst, ap, ◌∙◌, ◌⊎◌, inl, inr, true, List, [], ◌∷◌, ◌++◌, length,
  length-append_one, arith,
}
use node_gemfire.Conversions.Data.{Platform}
use node_gemfire.Region.Geode.{GeodeRegion}
use node_gemfire.Region.Work.{Job, execute}
use node_gemfire.Region.Pool.{
  Executed, Pool, run_waiting, call_back, PoolStep, calls, works, completes, changes, PoolReach,
  after, callbacks, promised,
}
use node_gemfire.Region.Pool.Laws.{callbacks-pending}
use node_gemfire.Region.Pool.Drain.{is_inner, InnerRuns, stop, go}

module _ {ℓ} {A : Type ℓ} where
  length-middle :
      (xs : List A) (x : A) (ys : List A) → length (xs ++ x ∷ ys) ≡ suc (length (xs ++ ys))
  length-middle [] x ys = refl
  length-middle (w ∷ xs) x ys = ap suc (length-middle xs x ys)

module _ {D S : Type 0} where
  -- A waiting worker is still to run and to call back, an executed one to call back.
  abbrev pub work_left : Pool D S → ℕ
  work_left p = length p.waiting + length p.waiting + length p.executed

module _ {D S : Type 0} (P : Platform D) (g : GeodeRegion D S) where
  abbrev pub inner_steps : {p q : Pool D S} → InnerRuns P g p q → ℕ
  inner_steps stop = 0
  inner_steps (go st i rs) = suc (inner_steps rs)

  step-work_left :
      {p q : Pool D S} (st : PoolStep P g p q)
      → is_inner st ≡ true
      → (suc (work_left q) ≡ work_left p) × (q.jobs ≡ p.jobs)
  unfolding run_waiting call_back
  step-work_left (calls c m info) i = cc
  step-work_left (changes s) i = cc
  step-work_left {p} (works before (n, j) rest h) i =
      let e : Executed D S = record { number = n; job = j; outcome = execute g j.work p.state } in
      (
        omega
            (arith, ap length h, length-middle before (n, j) rest, length-append_one p.executed e),
        refl,
      )
  step-work_left (completes before x rest h) i =
      (omega (arith, ap length h, length-middle before x rest), refl)

  runs-work_left :
      {p q : Pool D S} (rs : InnerRuns P g p q)
      → (inner_steps rs + work_left q ≡ work_left p) × (q.jobs ≡ p.jobs)
  runs-work_left stop = (omega arith, refl)
  runs-work_left (go st i rs) =
      let (one, same) = step-work_left st i in
      let (more, kept) = runs-work_left rs in (omega (arith, one, more), kept ∙ same)

  runs-PoolReach : {p q : Pool D S} → PoolReach P g p → InnerRuns P g p q → PoolReach P g q
  runs-PoolReach r stop = r
  runs-PoolReach r (go st i rs) = runs-PoolReach (after r st) rs

  -- The pool or the event loop can go on.
  abbrev pub GoesOn : Pool D S → Type 0
  GoesOn p = (q : Pool D S) × (st : PoolStep P g p q) × (is_inner st ≡ true)

  -- Nothing is left to do, and every callback has been called as promised.
  abbrev pub Settled : List (Job D) → Pool D S → Type 0
  Settled jobs p = (work_left p ≡ 0) × ((n : ℕ) → callbacks n p ≡ promised n jobs)

  ends :
      (p : Pool D S) (ws : List (ℕ × Job D)) (xs : List (Executed D S))
      → PoolReach P g p
      → p.waiting ≡ ws
      → p.executed ≡ xs
      → Settled p.jobs p ⊎ GoesOn p
  ends p (w ∷ ws) xs r h e = inr (_, works [] w ws h, refl)
  ends p [] (x ∷ xs) r h e = inr (_, completes [] x xs e, refl)
  ends p [] [] r h e =
      inl (ground (arith, h, e), λ n. ground (arith, h, e, callbacks-pending P g r n))

  -- In a run of the pool and its callbacks alone, from a reachable state, each step takes one from the
  -- work that is left, which is two for each waiting worker and one for each executed one; at the end
  -- of the run no work is left, and the callback of every worker queued so far has been called exactly
  -- once, if it has one, or the run can go on.
  pub settles :
      {p q : Pool D S}
      → PoolReach P g p
      → (rs : InnerRuns P g p q)
      → (inner_steps rs + work_left q ≡ work_left p) × (Settled p.jobs q ⊎ GoesOn q)
  settles {p} {q} r rs =
      let (count, same) = runs-work_left rs in
      (
        count,
        subst (λ js. Settled js q ⊎ GoesOn q) same
            (ends q q.waiting q.executed (runs-PoolReach r rs) refl refl),
      )
