-- ===== src/Events/System.antt =====
-- src/event_stream.cpp and src/region_event_registry.cpp: Geode's threads call the listener, the
-- event loop publishes, and wrappers come and go on the event loop, also between two turns of a
-- publication. A step is what one thread does without releasing the mutex and without calling
-- JavaScript. Of libuv is assumed that the callback runs only after `uv_async_send`, and not inside
-- another callback; the wrapper at the iterator is not deleted, as Events/Publication.antt says.
use node_gemfire.Base.{
  ℕ, suc, ◌≡◌, ◌≢◌, Bool, true, false, List, [], ◌∷◌, ◌++◌, some, none, not, ◌==◌,
}
use node_gemfire.Events.Stream.{push_event, send, next_events}
use node_gemfire.Events.Registry.{
  Event, Wrapper, Registry, new_registry, add_region, remove_region, publish_to,
}
use node_gemfire.Events.Publication.{Cursor, next_wrapper, Publication}

pub record System (P : Type 0) : Type 0 where
  pub registry : Registry P
  pub senders : ℕ  -- threads in `EventStream::add` between the unlock and `uv_async_send`
  pub occurred : List (Event P)  -- every event of which a listener was told
  pub batch : List (Event P)  -- the rest of `eventVector` in `publishEvents`
  pub cursor : Cursor  -- the iterator of the set in `publishEvents`

abbrev pub start : {P : Type 0} → System P
start = record { registry = new_registry; senders = 0; occurred = []; batch = []; cursor = none }

module _ {P : Type 0} where
  -- libuv takes the call off its list and runs `emitCallback`, up to the loops of `publishEvents`.
  unfoldable pub take_events : System P → System P
  unfolding next_events
  take_events s =
      let stream = record (s.registry.event_stream) { due = false } in
      let (events, rest) = next_events stream in
      record s {
        registry = record (s.registry) { event_stream = rest };
        batch = events;
        cursor = none;
      }

  abbrev pub with_emitted : Event P → Wrapper → Registry P → Registry P
  with_emitted e q g = record g { emitted = publish_to e (q ∷ []) g.emitted }

  -- The publication that is going on.
  abbrev pub publication : System P → Publication P
  publication s = record {
    events = s.batch;
    cursor = s.cursor;
    wrappers = s.registry.region_set;
    log = s.registry.emitted;
  }

pub data Step {P : Type 0} (s : System P) : System P → Type 0 where
  occurs :
      (e : Event P)
      → Step s (record s {
        registry = record (s.registry) { event_stream = push_event e s.registry.event_stream };
        senders = suc s.senders;
        occurred = s.occurred ++ e ∷ [];
      })
  sends :
      (n : ℕ)
      → s.senders ≡ suc n
      → Step s (record s {
        registry = record (s.registry) { event_stream = send s.registry.event_stream };
        senders = n;
      })
  takes : s.batch ≡ [] → s.registry.event_stream.due ≡ true → Step s (take_events s)
  visits :
      (e : Event P) (es : List (Event P)) (q : Wrapper)
      → s.batch ≡ e ∷ es
      → next_wrapper s.cursor s.registry.region_set ≡ some q
      → Step s (record s { registry = with_emitted e q s.registry; cursor = some q.address })
  finishes_event :
      (e : Event P) (es : List (Event P))
      → s.batch ≡ e ∷ es
      → next_wrapper s.cursor s.registry.region_set ≡ none
      → Step s (record s { batch = es; cursor = none })
  wraps : (r : Wrapper) → Step s (record s { registry = add_region r s.registry })
  unwraps :
      (a : ℕ) → s.cursor ≢ some a → Step s (record s { registry = remove_region a s.registry })

-- The step does not remove the wrapper at the address.
abbrev pub retains : {P : Type 0} {s t : System P} → ℕ → Step s t → Bool
retains a (unwraps b h) = not (a == b)
retains a _ = true

pub data Reach {P : Type 0} : System P → Type 0 where
  begin : Reach start
  then_step : {s t : System P} → Reach s → Step s t → Reach t

-- Steps that leave the wrapper at `a` in place.
pub data Runs {P : Type 0} (a : ℕ) (s : System P) : System P → Type 0 where
  stop : Runs a s s
  go : {t u : System P} → Runs a s t → (st : Step t u) → retains a st ≡ true → Runs a s u
