-- ===== src/Events/Safety.antt =====
-- What every interleaving of src/event_stream.cpp and src/region_event_registry.cpp guarantees.
use mathlib.Core.List.{map-append}
use node_gemfire.Base.{
  ℕ, ◌<◌, ◌≡◌, refl, sym, ap, ◌∙◌, ◌⊎◌, true, false, not, List, [], ◌∷◌, ◌++◌, some, append-nil,
  append_assoc, arith, ◌==◌, select-append, is_empty, map,
}
use node_gemfire.Events.Stream.{push_event, send, copy_events}
use node_gemfire.Events.Registry.{Event, Wrapper, Emission, new_registry, add_region, remove_region}
use node_gemfire.Events.WrapperSet.{
  Ascending, wrapper_at, Attended, insert-Ascending, erase-Ascending, insert-Attended,
  erase-Attended, wrapper_at-insert, wrapper_at-erase,
}
use node_gemfire.Events.Delivery.{received, due_to}
use node_gemfire.Events.System.{
  System, take_events, publication, Step, occurs, sends, takes, visits, finishes_event, wraps,
  unwraps, retains, Reach, begin, then_step, Runs, stop, go,
}
use node_gemfire.Events.Publication.{Turn, Turn-total, total}

-- The loop is kept alive exactly while events wait, and then a callback is due or a thread is about
-- to ask for it.
pub record Alive {P : Type 0} (s : System P) : Type 0 where
  pub alive :
      s.registry.event_stream.referenced ≡ not (is_empty s.registry.event_stream.event_vector)
  pub awake :
      is_empty s.registry.event_stream.event_vector ≡ false
      → (s.registry.event_stream.due ≡ true) ⊎ (0 < s.senders)
  pub ascending : Ascending s.registry.region_set
  pub attended : Attended s.registry.listening s.registry.region_set

is_empty-snoc : {A : Type 0} (xs : List A) (x : A) → is_empty (xs ++ x ∷ []) ≡ false
is_empty-snoc [] x = refl
is_empty-snoc (y ∷ ys) x = refl

module _ {P : Type 0} where
  Step-Alive : {s t : System P} → Step s t → Alive s → Alive t
  unfolding push_event send take_events add_region remove_region
  Step-Alive {s} (occurs e) i = ground (arith, is_empty-snoc s.registry.event_stream.event_vector e)
  Step-Alive (sends n p) i = ground arith
  Step-Alive (takes p q) i = ground arith
  Step-Alive (visits e es q h n) i = ground arith
  Step-Alive (finishes_event e es h n) i = ground arith
  Step-Alive {s} (wraps r) i = ground (
    arith,
    insert-Ascending r s.registry.region_set i.ascending,
    insert-Attended r s.registry.listening s.registry.region_set i.attended,
  )
  Step-Alive {s} (unwraps a h) i = ground (
    arith,
    erase-Ascending a s.registry.region_set i.ascending,
    erase-Attended a s.registry.listening s.registry.region_set i.attended,
  )

  -- In every reachable state the loop is kept alive exactly while events wait, waiting events have a
  -- callback due or about to be asked for, the wrappers stand in ascending order, and the registry
  -- is the listener of the region of each.
  pub Reach-Alive : {s : System P} → Reach s → Alive s
  unfolding new_registry
  Reach-Alive begin = ground arith
  Reach-Alive (then_step r st) = Step-Alive st (Reach-Alive r)

  -- What a wrapper has received, with what it is owed of the batch, and what waits for it.
  abbrev pub account : Wrapper → System P → List (Emission P)
  account r s = total r (publication s) ++ due_to r s.registry.event_stream.event_vector

  -- Between two states the account of a wrapper grows by the events of its region that occurred.
  pub record Grown (r : Wrapper) (s t : System P) : Type 0 where
    pub news : List (Event P)
    pub occurred : t.occurred ≡ s.occurred ++ news
    pub accounted : account r t ≡ account r s ++ due_to r news
    pub in_place : wrapper_at r.address t.registry.region_set ≡ some r

  pub copy_events_lem : (copied es : List (Event P)) → copy_events copied es ≡ copied ++ es
  unfolding copy_events
  copy_events_lem copied [] = sym (append-nil copied)
  copy_events_lem copied (e ∷ es) =
      copy_events_lem (copied ++ e ∷ []) es ∙ append_assoc copied (e ∷ []) es

  due_to-append :
      (r : Wrapper) (xs ys : List (Event P)) → due_to r (xs ++ ys) ≡ due_to r xs ++ due_to r ys
  due_to-append r xs ys =
      ap (map _) (select-append (λ (e : Event P). r.region_ptr == e.region) xs ys)
      ∙ map-append _ _ _

  same :
      (r : Wrapper) (s t : System P)
      → t.occurred ≡ s.occurred
      → account r t ≡ account r s
      → wrapper_at r.address t.registry.region_set ≡ some r
      → Grown r s t
  same r s t p q w = record {
    news = [];
    occurred = p ∙ sym (append-nil s.occurred);
    accounted = q ∙ sym (append-nil (account r s));
    in_place = w;
  }

  Step-Grown :
      {s t : System P} (r : Wrapper) (st : Step s t)
      → retains r.address st ≡ true
      → Alive s
      → wrapper_at r.address s.registry.region_set ≡ some r
      → Grown r s t
  unfolding push_event send take_events add_region remove_region
  Step-Grown {s} r (occurs e) k i w = record {
    news = e ∷ [];
    occurred = refl;
    accounted = ground (
      arith,
      due_to-append r s.registry.event_stream.event_vector (e ∷ []),
      append_assoc (total r (publication s)) (due_to r s.registry.event_stream.event_vector)
          (due_to r (e ∷ [])),
    );
    in_place = w;
  }
  Step-Grown {s} r (sends n p) k i w = same r s _ refl refl w
  Step-Grown {s} r (takes p q) k i w =
      same r s _ refl
        (ground (
          arith,
          copy_events_lem [] s.registry.event_stream.event_vector,
          append-nil (received r.address s.registry.emitted),
          append-nil (
              received r.address s.registry.emitted
              ++ due_to r s.registry.event_stream.event_vector),
        ))
        w
  Step-Grown {s} r (visits e es q h n) k i w =
      same r s _ refl
        (ap (λ l. l ++ due_to r s.registry.event_stream.event_vector)
          (Turn-total r (Turn.visits e es q h n) (record { ascending = i.ascending; placed = w })))
        w
  Step-Grown {s} r (finishes_event e es h n) k i w =
      same r s _ refl
        (ap (λ l. l ++ due_to r s.registry.event_stream.event_vector)
          (Turn-total r (Turn.finishes_event e es h n)
            (record { ascending = i.ascending; placed = w })))
        w
  Step-Grown {s} r (wraps q) k i w =
      same r s _ refl refl
        (ground (arith, wrapper_at-insert r.address q s.registry.region_set i.ascending))
  Step-Grown {s} r (unwraps b h) k i w =
      same r s _ refl refl
        (ground (arith, wrapper_at-erase r.address b s.registry.region_set i.ascending))

  Runs-Alive : {a : ℕ} {s t : System P} → Runs a s t → Alive s → Alive t
  Runs-Alive stop i = i
  Runs-Alive (go rs st k) i = Step-Alive st (Runs-Alive rs i)

  run_grows :
      (r : Wrapper) {s t : System P}
      → Alive s
      → wrapper_at r.address s.registry.region_set ≡ some r
      → Runs r.address s t
      → Grown r s t
  run_grows r {s} i w stop = same r s s refl refl w
  run_grows r {s} i w (go rs st k) =
      let before = run_grows r i w rs in
      let after = Step-Grown r st k (Runs-Alive rs i) before.in_place in
      record {
        news = before.news ++ after.news;
        occurred = ground (
          arith,
          before.occurred,
          after.occurred,
          append_assoc s.occurred before.news after.news,
        );
        accounted = ground (
          arith,
          before.accounted,
          after.accounted,
          due_to-append r before.news after.news,
          append_assoc (account r s) (due_to r before.news) (due_to r after.news),
        );
        in_place = after.in_place;
      }

  -- While a wrapper stays registered, what it has emitted together with what it is still to be told
  -- grows by exactly the events of its region that occur, each once and in the order of their
  -- occurrence, also if other wrappers come and go in the middle of a publication.
  pub run_delivers :
      (r : Wrapper) {s t : System P}
      → Reach s
      → wrapper_at r.address s.registry.region_set ≡ some r
      → Runs r.address s t
      → Grown r s t
  run_delivers r i w rs = run_grows r (Reach-Alive i) w rs
