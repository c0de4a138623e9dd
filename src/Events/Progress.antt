-- ===== src/Events/Progress.antt =====
-- Publications of src/region_event_registry.cpp run to their end by the steps of Events/System.antt.
use mathlib.Core.List.{append_cancel_left}
use node_gemfire.Base.{
  ℕ, zero, suc, ◌<◌, ◌≡◌, ◌≢◌, refl, sym, ap, ◌∙◌, subst, List-cases, ◌⊎◌, inl, inr, true, false,
  List, [], ◌∷◌, none, some, append-nil, arith, is_empty,
}
use node_gemfire.Events.Stream.{send}
use node_gemfire.Events.Registry.{Event, Wrapper, Registry, publish_events}
use node_gemfire.Events.WrapperSet.{Ascending, wrapper_at}
use node_gemfire.Events.Delivery.{received}
use node_gemfire.Events.System.{System, sends, takes, take_events, Reach, then_step, Runs, stop, go}
use node_gemfire.Events.Safety.{Alive, Reach-Alive, account, Grown, run_delivers}
use node_gemfire.Events.Loops.{looping, ahead, inner_loop, outer_loop}

pub is_empty-false : {A : Type 0} (xs : List A) → xs ≢ [] → is_empty xs ≡ false
is_empty-false [] h = absurd (h refl)
is_empty-false (x ∷ xs) h = refl

module _ {P : Type 0} where
  -- `emitCallback` as one function, for callbacks that leave the wrappers alone.
  unfoldable pub run_callback : Registry P → Registry P
  unfolding publish_events
  run_callback g =
      publish_events (record g { event_stream = record (g.event_stream) { due = false } })

  -- If a callback is due and no publication is going on, then some steps do exactly what
  -- `publishEvents` does as one function, and leave every wrapper in place.
  pub publish_events-Runs :
      (a : ℕ) {s : System P}
      → Reach s
      → s.batch ≡ []
      → s.registry.event_stream.due ≡ true
      → Runs a s (record s { registry = run_callback s.registry; batch = []; cursor = none })
  unfolding run_callback take_events
  publish_events-Runs a {s} r b d =
      outer_loop a s (take_events s) _ s.registry.emitted (Reach-Alive r).ascending
        (go stop (takes b d) refl)

  -- A state after `s` in which no publication is going on.
  record Rested (s : System P) : Type 0 where
    last : System P
    runs : (a : ℕ) → Runs a s last
    batch : last.batch ≡ []
    occurred : last.occurred ≡ s.occurred
    stream : last.registry.event_stream ≡ s.registry.event_stream
    senders : last.senders ≡ s.senders

  rest_from :
      (s : System P) (es : List (Event P))
      → Ascending s.registry.region_set
      → s.batch ≡ es
      → Rested s
  rest_from s [] h b = record {
    last = s;
    runs = λ a. stop;
    batch = b;
    occurred = refl;
    stream = refl;
    senders = refl;
  }
  rest_from s (e ∷ es) h b =
      let log = s.registry.emitted in
      let here : s ≡ looping s (e ∷ es) s.cursor log = ap (λ x. looping s x s.cursor log) b in
      record {
        last = looping s [] none _;
        runs = λ a. outer_loop a s s es _ h (
            inner_loop a s s e es (ahead s.cursor s.registry.region_set) s.cursor log h refl
              (subst (Runs a s) here stop));
        batch = refl;
        occurred = refl;
        stream = refl;
        senders = refl;
      }

  -- The callback is asked for, if it was not.
  record Due (s : System P) : Type 0 where
    last : System P
    runs : (a : ℕ) → Runs a s last
    batch : last.batch ≡ s.batch
    occurred : last.occurred ≡ s.occurred
    due : last.registry.event_stream.due ≡ true

  ask :
      (n : ℕ) (s : System P)
      → s.senders ≡ n
      → (s.registry.event_stream.due ≡ true) ⊎ (0 < n)
      → Due s
  unfolding send
  ask zero s e (inl d) = record {
    last = s;
    runs = λ a. stop;
    batch = refl;
    occurred = refl;
    due = d;
  }
  ask zero s e (inr l) = absurd (omega arith)
  ask (suc n) s e d = record {
    last = _;
    runs = λ a. go stop (sends n e) refl;
    batch = refl;
    occurred = refl;
    due = refl;
  }

  Runs-trans : {a : ℕ} {s t u : System P} → Runs a s t → Runs a t u → Runs a s u
  Runs-trans p stop = p
  Runs-trans p (go q st k) = go (Runs-trans p q) st k

  Runs-Reach : {a : ℕ} {s t : System P} → Reach s → Runs a s t → Reach t
  Runs-Reach r stop = r
  Runs-Reach r (go rs st k) = then_step (Runs-Reach r rs) st

  -- A state after `s` with no event on its way.
  record Quiet (s : System P) : Type 0 where
    last : System P
    runs : (a : ℕ) → Runs a s last
    batch : last.batch ≡ []
    occurred : last.occurred ≡ s.occurred
    vector : last.registry.event_stream.event_vector ≡ []

  publish_waiting : (s : System P) → Reach s → s.batch ≡ [] → Quiet s
  unfolding run_callback publish_events
  publish_waiting s r b = elim (List-cases s.registry.event_stream.event_vector) [
    | inl e ↦ record { last = s; runs = λ a. stop; batch = b; occurred = refl; vector = e }
    | inr h ↦
        let i : Alive s = Reach-Alive r in
        let d : Due s =
          ask s.senders s refl (i.awake (is_empty-false s.registry.event_stream.event_vector h)) in
        let asked : Reach d.last = Runs-Reach r (d.runs 0) in
        record {
          last = _;
          runs = λ a. Runs-trans (d.runs a) (publish_events-Runs a asked (d.batch ∙ b) d.due);
          batch = refl;
          occurred = d.occurred;
          vector = refl;
        }
  ]

  settle : (s : System P) → Reach s → Quiet s
  settle s r =
      let p : Rested s = rest_from s s.batch (Reach-Alive r).ascending refl in
      let q : Quiet p.last = publish_waiting p.last (Runs-Reach r (p.runs 0)) p.batch in
      record {
        last = q.last;
        runs = λ a. Runs-trans (p.runs a) (q.runs a);
        batch = q.batch;
        occurred = q.occurred ∙ p.occurred;
        vector = q.vector;
      }

  -- A state after `s` in which every wrapper has been told all, and nothing keeps the loop alive.
  record AllTold (s : System P) : Type 0 where
    last : System P
    runs : (a : ℕ) → Runs a s last
    occurred : last.occurred ≡ s.occurred
    idle : last.registry.event_stream.referenced ≡ false
    told :
        (r : Wrapper)
        → wrapper_at r.address s.registry.region_set ≡ some r
        → received r.address last.registry.emitted ≡ account r s

  pub nothing_new :
      (s t : System P) (r : Wrapper)
      → t.batch ≡ []
      → t.registry.event_stream.event_vector ≡ []
      → t.occurred ≡ s.occurred
      → Grown r s t
      → received r.address t.registry.emitted ≡ account r s
  nothing_new s t r batch vector occurred g =
      let none_new : g.news ≡ [] =
        append_cancel_left s.occurred g.news []
          (sym g.occurred ∙ occurred ∙ sym (append-nil s.occurred)) in
      ground (
        arith,
        g.accounted,
        batch,
        vector,
        append-nil (received r.address t.registry.emitted),
        append-nil (account r s),
      )

  -- From every reachable state, some steps that remove no wrapper and add no event lead to a state in
  -- which every wrapper has been told every event that was due to it, and in which the event stream no
  -- longer keeps the event loop alive.
  tells_all : (s : System P) → Reach s → AllTold s
  tells_all s r =
      let q : Quiet s = settle s r in
      record {
        last = q.last;
        runs = q.runs;
        occurred = q.occurred;
        idle = ground (arith, (Reach-Alive (Runs-Reach r (q.runs 0))).alive, q.vector);
        told = λ w p.
            nothing_new s q.last w q.batch q.vector q.occurred
              (run_delivers w r p (q.runs w.address));
      }
