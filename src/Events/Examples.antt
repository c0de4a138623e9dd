-- ===== src/Events/Examples.antt =====
-- A run of the system in Events/System.antt, and the theorems at its states.
use node_gemfire.Base.{ℕ, ◌+◌, ◌≤◌, ◌≡◌, ◌⊎◌, refl, [], ◌∷◌, none}
use node_gemfire.Events.Stream.{push_event, send}
use node_gemfire.Events.Registry.{
  Event, Wrapper, create, new_registry, add_region, insert, publish_to,
}
use node_gemfire.Events.WrapperSet.{wrapper_at}
use node_gemfire.Events.Delivery.{emission}
use node_gemfire.Events.System.{
  System, Step, occurs, sends, takes, Reach, begin, then_step, Runs, stop, go, take_events,
}
use node_gemfire.Events.Publication.{
  Publication, next_wrapper, Turns, stay, turn, visits, finishes_event, wraps,
}
use node_gemfire.Events.Settle.{
  InnerRuns, start, next, inner_steps, work_left, Settled, GoesOn, all_told_in_the_end,
}
use node_gemfire.Events.Safety.{Alive, Reach-Alive, Grown, run_delivers}

-- Two wrappers of region 1, and one of region 2.
abbrev first : Wrapper
first = record { address = 10; region_ptr = 1 }

abbrev second : Wrapper
second = record { address = 20; region_ptr = 1 }

abbrev elsewhere : Wrapper
elsewhere = record { address = 15; region_ptr = 2 }

-- A wrapper of region 1 between the two.
abbrev newcomer : Wrapper
newcomer = record { address = 12; region_ptr = 1 }

abbrev created : Event ℕ
created = record { name = create; region = 1; payload = 7 }

record Run : Type 0 where
  last : System ℕ
  reach : Reach last

infixl 20 ◌▸◌
abbrev ◌▸◌ : {s t : System ℕ} → Reach s → Step s t → Reach t
r ▸ st = then_step r st

abbrev wrapped : Run
unfolding new_registry add_region
wrapped = record {
  last = _;
  reach = begin ▸ Step.wraps second ▸ Step.wraps first ▸ Step.wraps elsewhere;
}

record Later : Type 0 where
  last : System ℕ
  runs : Runs 10 wrapped.last last

-- An event of region 1 occurs, and a publication tells the first wrapper of it; then the callback
-- wraps the region once more, and the publication goes on.
abbrev published : Later
unfolding wrapped push_event send take_events add_region insert publish_to next_wrapper
published = record {
  last = _;
  runs =
      go
        (go
          (go
            (go
              (go
                (go
                  (go (go (go stop (occurs created) refl) (sends 0 refl) refl) (takes refl refl)
                    refl)
                  (Step.visits created [] first refl refl) refl)
                (Step.wraps newcomer) refl)
              (Step.visits created [] newcomer refl refl) refl)
            (Step.visits created [] elsewhere refl refl) refl)
          (Step.visits created [] second refl refl) refl)
        (Step.finishes_event created [] refl refl) refl;
}

published_log :
    published.last.registry.emitted
    ≡ emission first created ∷ emission newcomer created ∷ emission second created ∷ []
unfolding published
published_log = refl

Reach-Alive_example : Alive wrapped.last
Reach-Alive_example = Reach-Alive wrapped.reach

run_delivers_example : Grown first wrapped.last published.last
unfolding wrapped wrapper_at
run_delivers_example = run_delivers first wrapped.reach refl published.runs

-- A publication in which the callback at the first wrapper wraps the region once more.
abbrev told_all : Publication ℕ
unfolding publish_to insert
told_all = record {
  events = [];
  cursor = none;
  wrappers = insert newcomer (first ∷ second ∷ []);
  log =
      publish_to created (second ∷ [])
        (publish_to created (newcomer ∷ []) (publish_to created (first ∷ []) []));
}

turns :
    Turns 20
      (record { events = created ∷ []; cursor = none; wrappers = first ∷ second ∷ []; log = [] })
      told_all
unfolding told_all next_wrapper
turns =
    turn
      (turn
        (turn (turn (turn stay (visits created [] first refl refl) refl) (wraps newcomer) refl)
          (visits created [] newcomer refl refl) refl)
        (visits created [] second refl refl) refl)
      (finishes_event created [] refl refl) refl

-- A callback is due: an event has occurred.
abbrev due_state : Run
unfolding wrapped push_event send
due_state = record { last = _; reach = wrapped.reach ▸ occurs created ▸ sends 0 refl }

record Settling : Type 0 where
  last : System ℕ
  runs : InnerRuns due_state.last last

-- The whole publication: a turn for each of three wrappers, and one to go to the next event.
abbrev settled : Settling
unfolding due_state take_events publish_to next_wrapper
settled = record {
  last = _;
  runs =
      next
        (next
          (next
            (next (next start (takes refl refl) refl) (Step.visits created [] first refl refl) refl)
            (Step.visits created [] elsewhere refl refl) refl)
          (Step.visits created [] second refl refl) refl)
        (Step.finishes_event created [] refl refl) refl;
}

settled_work :
    (work_left due_state.last ≡ 5) × (inner_steps settled.runs ≡ 5) × (work_left settled.last ≡ 0)
unfolding settled
settled_work = (refl, refl, refl)

all_told_in_the_end_example :
    (inner_steps settled.runs + work_left settled.last ≤ work_left due_state.last)
    × (Settled due_state.last settled.last ⊎ GoesOn settled.last)
all_told_in_the_end_example = all_told_in_the_end due_state.reach settled.runs
