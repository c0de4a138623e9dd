-- ===== src/Events/Settle.antt =====
-- Every run of Events/System.antt in which no event occurs and no wrapper comes or goes: how long it
-- can be, and where it can end.
use node_gemfire.Base.{
  ℕ, zero, suc, ◌+◌, ◌≤◌, ◌<◌, ◌≡◌, refl, sym, ap, ◌∙◌, ◌⊎◌, inl, inr, Bool, true, false, List, [],
  ◌∷◌, Option, none, some, length, if◌then◌else◌, List-cases, arith,
}
use node_gemfire.Events.Stream.{send, copy_events}
use node_gemfire.Events.Registry.{Event, Wrapper}
use node_gemfire.Events.WrapperSet.{Ascending, wrapper_at}
use node_gemfire.Events.Delivery.{received}
use node_gemfire.Events.Publication.{Cursor, next_wrapper}
use node_gemfire.Events.System.{
  System, Step, occurs, sends, takes, visits, finishes_event, wraps, unwraps, take_events, Reach,
  then_step, Runs, stop, go,
}
use node_gemfire.Events.Safety.{Alive, Reach-Alive, account, copy_events_lem, run_delivers}
use node_gemfire.Events.Loops.{first_of, ahead, ahead-none, ahead-next, next_wrapper-ahead}
use node_gemfire.Events.Progress.{is_empty-false, nothing_new}

first_of-some :
    (ws : List Wrapper) (q : Wrapper) → first_of ws ≡ some q → (qs : List Wrapper) × (ws ≡ q ∷ qs)
first_of-some [] q h = cc
first_of-some (w ∷ ws) q h = (ws, cc)

first_of-none : (ws : List Wrapper) → first_of ws ≡ none → ws ≡ []
first_of-none [] h = refl
first_of-none (w ∷ ws) h = cc

-- A visit takes one wrapper off those past the iterator.
ahead-visited :
    (c : Cursor) (ws : List Wrapper) (q : Wrapper)
    → Ascending ws
    → next_wrapper c ws ≡ some q
    → suc (length (ahead (some q.address) ws)) ≡ length (ahead c ws)
ahead-visited c ws q h n =
    let (qs, e) = first_of-some (ahead c ws) q (sym (next_wrapper-ahead c ws) ∙ n) in
    ap (λ xs. suc (length xs)) ((ahead-next c ws q qs h e).0) ∙ sym (ap length e)

ahead-finished :
    (c : Cursor) (ws : List Wrapper) → next_wrapper c ws ≡ none → length (ahead c ws) ≡ 0
ahead-finished c ws n = ap length (first_of-none (ahead c ws) (sym (next_wrapper-ahead c ws) ∙ n))

module _ {P : Type 0} where
  -- A step of a sender, or of the callback and its loops.
  abbrev pub is_inner : {s t : System P} → Step s t → Bool
  is_inner (occurs e) = false
  is_inner (wraps q) = false
  is_inner (unwraps a h) = false
  is_inner _ = true

  -- The turns that a batch of events takes: one for each wrapper, and one to go to the next event.
  abbrev pub turns : List Wrapper → List (Event P) → ℕ
  turns ws [] = 0
  turns ws (e ∷ es) = suc (length ws) + turns ws es

  -- The turns that are left of a publication.
  abbrev pub turns_left : Cursor → List Wrapper → List (Event P) → ℕ
  turns_left c ws [] = 0
  turns_left c ws (e ∷ es) = suc (length (ahead c ws)) + turns ws es

  -- Two for each thread that is still to ask for a callback, one for a callback that is due, and the
  -- turns that the events of the batch and of the vector take.
  abbrev pub work_left : System P → ℕ
  work_left s =
      s.senders
      + s.senders
      + (if s.registry.event_stream.due then 1 else 0)
      + turns_left s.cursor s.registry.region_set s.batch
      + turns s.registry.region_set s.registry.event_stream.event_vector

pub data InnerRuns {P : Type 0} (s : System P) : System P → Type 0 where
  start : InnerRuns s s
  next : {t u : System P} → InnerRuns s t → (st : Step t u) → is_inner st ≡ true → InnerRuns s u

module _ {P : Type 0} where
  abbrev pub inner_steps : {s t : System P} → InnerRuns s t → ℕ
  inner_steps start = 0
  inner_steps (next rs st i) = suc (inner_steps rs)

  turns_left-none : (ws : List Wrapper) (es : List (Event P)) → turns_left none ws es ≡ turns ws es
  turns_left-none ws [] = refl
  turns_left-none ws (e ∷ es) = ap (λ xs. suc (length xs) + turns ws es) (ahead-none ws)

  Step-work_left :
      {s t : System P} (st : Step s t)
      → is_inner st ≡ true
      → Ascending s.registry.region_set
      → (work_left t < work_left s) × (t.occurred ≡ s.occurred)
  unfolding send take_events
  Step-work_left (occurs e) i h = cc
  Step-work_left (wraps q) i h = cc
  Step-work_left (unwraps a n) i h = cc
  Step-work_left {s} (sends n p) i h = (ground (arith, p), refl)
  Step-work_left {s} (takes b d) i h = (
    ground (
      arith,
      ap (turns_left s.cursor s.registry.region_set) b,
      turns_left-none s.registry.region_set (copy_events [] s.registry.event_stream.event_vector),
      ap (turns s.registry.region_set) (copy_events_lem [] s.registry.event_stream.event_vector),
    ),
    refl,
  )
  Step-work_left {s} (visits e es q b n) i h = (
    omega (
      arith,
      ap (turns_left s.cursor s.registry.region_set) b,
      ap (turns_left (some q.address) s.registry.region_set) b,
      ahead-visited s.cursor s.registry.region_set q h n,
    ),
    refl,
  )
  Step-work_left {s} (finishes_event e es b n) i h = (
    omega (
      arith,
      ap (turns_left s.cursor s.registry.region_set) b,
      turns_left-none s.registry.region_set es,
      ahead-finished s.cursor s.registry.region_set n,
    ),
    refl,
  )

  runs_without : (a : ℕ) {s t : System P} → InnerRuns s t → Runs a s t
  runs_without a start = stop
  runs_without a (next rs (occurs e) i) = cc
  runs_without a (next rs (wraps q) i) = cc
  runs_without a (next rs (unwraps b h) i) = cc
  runs_without a (next rs (sends n p) i) = go (runs_without a rs) (sends n p) refl
  runs_without a (next rs (takes b d) i) = go (runs_without a rs) (takes b d) refl
  runs_without a (next rs (visits e es q b n) i) = go (runs_without a rs) (visits e es q b n) refl
  runs_without a (next rs (finishes_event e es b n) i) =
      go (runs_without a rs) (finishes_event e es b n) refl

  runs-Reach : {s t : System P} → Reach s → InnerRuns s t → Reach t
  runs-Reach r start = r
  runs-Reach r (next rs st i) = then_step (runs-Reach r rs) st

  runs-work_left :
      {s t : System P}
      → Reach s
      → (rs : InnerRuns s t)
      → (inner_steps rs + work_left t ≤ work_left s) × (t.occurred ≡ s.occurred)
  runs-work_left r start = (omega arith, refl)
  runs-work_left r (next rs st i) =
      let (before, same) = runs-work_left r rs in
      let (less, kept) = Step-work_left st i (Reach-Alive (runs-Reach r rs)).ascending in
      (omega (arith, before, less), kept ∙ same)

  -- A sender, or the callback, can go on.
  abbrev pub GoesOn : System P → Type 0
  GoesOn s = (t : System P) × (st : Step s t) × (is_inner st ≡ true)

  -- No event is on its way, and no thread or callback has anything left to do.
  record Resting (s : System P) : Type 0 where
    batch : s.batch ≡ []
    vector : s.registry.event_stream.event_vector ≡ []
    work : work_left s ≡ 0

  goes_on :
      (s : System P) (e : Event P) (es : List (Event P)) (o : Option Wrapper)
      → s.batch ≡ e ∷ es
      → next_wrapper s.cursor s.registry.region_set ≡ o
      → GoesOn s
  goes_on s e es none b n = (_, finishes_event e es b n, refl)
  goes_on s e es (some q) b n = (_, visits e es q b n, refl)

  none_waits :
      (s : System P)
      → Alive s
      → s.senders ≡ 0
      → s.registry.event_stream.due ≡ false
      → s.registry.event_stream.event_vector ≡ []
  none_waits s i n d = elim (List-cases s.registry.event_stream.event_vector) [
    | inl e ↦ e
    | inr h ↦
        absurd
          (ground (arith, n, d, i.awake (is_empty-false s.registry.event_stream.event_vector h)))
  ]

  rests :
      (s : System P)
      → Alive s
      → s.senders ≡ 0
      → s.registry.event_stream.due ≡ false
      → s.batch ≡ []
      → Resting s
  rests s i n d b =
      let v : s.registry.event_stream.event_vector ≡ [] = none_waits s i n d in
      record {
        batch = b;
        vector = v;
        work = omega (
          arith,
          n,
          ap {B = ℕ} (λ x. if x then 1 else 0) d,
          ap (turns_left s.cursor s.registry.region_set) b,
          ap (turns s.registry.region_set) v,
        );
      }

  ends :
      (s : System P) (n : ℕ) (d : Bool) (es : List (Event P))
      → Alive s
      → s.senders ≡ n
      → s.registry.event_stream.due ≡ d
      → s.batch ≡ es
      → Resting s ⊎ GoesOn s
  ends s (suc n) d es i p q b = inr (_, sends n p, refl)
  ends s zero d (e ∷ es) i p q b =
      inr (goes_on s e es (next_wrapper s.cursor s.registry.region_set) b refl)
  ends s zero true [] i p q b = inr (_, takes b q, refl)
  ends s zero false [] i p q b = inl (rests s i p q b)

  -- All that was on its way at `s` has been told at `t`, and nothing keeps the event loop alive.
  pub record Settled (s t : System P) : Type 0 where
    pub work : work_left t ≡ 0
    pub idle : t.registry.event_stream.referenced ≡ false
    pub told :
        (r : Wrapper)
        → wrapper_at r.address s.registry.region_set ≡ some r
        → received r.address t.registry.emitted ≡ account r s

  -- In a run of the sending threads and of publications alone, from a reachable state, each step
  -- takes at least one from the work that is left, which is two for each thread that is still to ask
  -- for a callback, one for a callback that is due, and the turns of the loops that the waiting events
  -- take; at the end of the run the run can go on, or no work is left, every wrapper has been told every
  -- event that was due to it, and the event stream no longer keeps the event loop alive.
  pub all_told_in_the_end :
      {s t : System P}
      → Reach s
      → (rs : InnerRuns s t)
      → (inner_steps rs + work_left t ≤ work_left s) × (Settled s t ⊎ GoesOn t)
  all_told_in_the_end {s} {t} r rs =
      let (count, same) = runs-work_left r rs in
      let i : Alive t = Reach-Alive (runs-Reach r rs) in
      (
        count,
        elim (ends t t.senders t.registry.event_stream.due t.batch i refl refl refl) [
          | inl w ↦ inl (record {
            work = w.work;
            idle = ground (arith, i.alive, w.vector);
            told = λ q p.
                nothing_new s t q w.batch w.vector same
                  (run_delivers q r p (runs_without q.address rs));
          })
          | inr g ↦ inr g
        ],
      )
