-- ===== src/Events/Publication.antt =====
-- The two loops of `publishEvents` in src/region_event_registry.cpp, one turn at a time: a callback
-- that an event reaches runs JavaScript, which may wrap regions, and the collector may delete wrappers.
-- The wrapper at the iterator is not deleted, since the loop has a handle to its object.
use node_gemfire.Base.{
  ℕ, ◌≤◌, ◌≡◌, ◌≢◌, refl, ◌∙◌, Bool, true, false, not, List, [], ◌∷◌, ◌++◌, Option, none, some,
  arith, leb, ◌==◌, if◌then◌else◌, append-nil, append_assoc, select-append,
}
use node_gemfire.Events.Registry.{Event, Wrapper, Emission, insert, erase, publish_to}
use node_gemfire.Events.WrapperSet.{
  Ascending, wrapper_at, insert-Ascending, erase-Ascending, wrapper_at-insert, wrapper_at-erase,
  AllAbove-none,
}
use node_gemfire.Events.Delivery.{received, emission, due_to}

-- Where the iterator stands: at the wrapper with an address, or before the first.
abbrev pub Cursor : Type 0
Cursor = Option ℕ

abbrev pub is_past : ℕ → Cursor → Bool
is_past a none = false
is_past a (some b) = leb a b

-- The first wrapper of the set past the iterator: `begin()`, or `++iterator`.
unfoldable pub next_wrapper : Cursor → List Wrapper → Option Wrapper
next_wrapper c [] = none
next_wrapper c (q ∷ qs) = if is_past q.address c then next_wrapper c qs else some q

pub record Publication (P : Type 0) : Type 0 where
  pub events : List (Event P)  -- those not yet told to all, the current one first
  pub cursor : Cursor
  pub wrappers : List Wrapper
  pub log : List (Emission P)

pub data Turn {P : Type 0} (s : Publication P) : Publication P → Type 0 where
  visits :
      (e : Event P) (es : List (Event P)) (q : Wrapper)
      → s.events ≡ e ∷ es
      → next_wrapper s.cursor s.wrappers ≡ some q
      → Turn s (record s { cursor = some q.address; log = publish_to e (q ∷ []) s.log })
  finishes_event :
      (e : Event P) (es : List (Event P))
      → s.events ≡ e ∷ es
      → next_wrapper s.cursor s.wrappers ≡ none
      → Turn s (record s { events = es; cursor = none })
  wraps : (q : Wrapper) → Turn s (record s { wrappers = insert q s.wrappers })
  unwraps : (a : ℕ) → s.cursor ≢ some a → Turn s (record s { wrappers = erase a s.wrappers })

abbrev pub keeps : {P : Type 0} {s t : Publication P} → ℕ → Turn s t → Bool
keeps a (unwraps b h) = not (a == b)
keeps a _ = true

-- Turns that leave the wrapper at `a` in place.
pub data Turns {P : Type 0} (a : ℕ) (s : Publication P) : Publication P → Type 0 where
  stay : Turns a s s
  turn : {t u : Publication P} → Turns a s t → (st : Turn t u) → keeps a st ≡ true → Turns a s u

next_wrapper-found :
    (c : Cursor) (ws : List Wrapper) (q : Wrapper)
    → Ascending ws
    → next_wrapper c ws ≡ some q
    → (wrapper_at q.address ws ≡ some q) × (is_past q.address c ≡ false)
unfolding next_wrapper wrapper_at
next_wrapper-found c [] q h e = cc
next_wrapper-found c (w ∷ ws) q h e =
    ground (arith, next_wrapper-found c ws q h.1, AllAbove-none q.address w.address ws h.0)

next_wrapper-least :
    (c : Cursor) (ws : List Wrapper) (a : ℕ) (q r : Wrapper)
    → Ascending ws
    → next_wrapper c ws ≡ some q
    → wrapper_at a ws ≡ some r
    → is_past a c ≡ false
    → q.address ≤ a
unfolding next_wrapper wrapper_at
next_wrapper-least c [] a q r h e w p = cc
next_wrapper-least c (x ∷ ws) a q r h e w p =
    ground (arith, next_wrapper-least c ws a q r h.1, AllAbove-none a x.address ws h.0)

next_wrapper-none :
    (c : Cursor) (ws : List Wrapper) (a : ℕ) (r : Wrapper)
    → next_wrapper c ws ≡ none
    → wrapper_at a ws ≡ some r
    → is_past a c ≡ true
unfolding next_wrapper wrapper_at
next_wrapper-none c [] a r e w = cc
next_wrapper-none c (x ∷ ws) a r e w = ground (arith, next_wrapper-none c ws a r)

module _ {P : Type 0} where
  abbrev pub rest : List (Event P) → List (Event P)
  rest [] = []
  rest (e ∷ es) = es

  -- The events that a wrapper still has to be told.
  abbrev pub owed : Wrapper → Publication P → List (Emission P)
  owed r s = due_to r (if is_past r.address s.cursor then rest s.events else s.events)

  -- What a wrapper has received, with what it is owed.
  abbrev pub total : Wrapper → Publication P → List (Emission P)
  total r s = received r.address s.log ++ owed r s

  pub record InPlace (r : Wrapper) (s : Publication P) : Type 0 where
    pub ascending : Ascending s.wrappers
    pub placed : wrapper_at r.address s.wrappers ≡ some r

  Turn-InPlace :
      {s t : Publication P} (r : Wrapper) (st : Turn s t)
      → keeps r.address st ≡ true
      → InPlace r s
      → InPlace r t
  Turn-InPlace r (visits e es q h n) k i = ground arith
  Turn-InPlace r (finishes_event e es h n) k i = ground arith
  Turn-InPlace {s} r (wraps q) k i = ground (
    arith,
    insert-Ascending q s.wrappers i.ascending,
    wrapper_at-insert r.address q s.wrappers i.ascending,
  )
  Turn-InPlace {s} r (unwraps a h) k i = ground (
    arith,
    erase-Ascending a s.wrappers i.ascending,
    wrapper_at-erase r.address a s.wrappers i.ascending,
  )

  -- A visit of a wrapper.
  received-publish_to :
      (e : Event P) (q r : Wrapper) (log : List (Emission P))
      → received r.address (publish_to e (q ∷ []) log)
        ≡ received r.address log ++ (if q.address == r.address then due_to q (e ∷ []) else [])
  unfolding publish_to
  received-publish_to e q r log = ground (
    arith,
    select-append (λ (m : Emission P). m.emitter == r.address) log (emission q e ∷ []),
    append-nil (received r.address log),
  )

  pub Turn-total :
      {s t : Publication P} (r : Wrapper) (st : Turn s t) → InPlace r s → total r t ≡ total r s
  Turn-total {s} r (visits e es q h n) i = ground (
    arith,
    received-publish_to e q r s.log,
    next_wrapper-found s.cursor s.wrappers q i.ascending n,
    next_wrapper-least s.cursor s.wrappers r.address q r i.ascending n i.placed,
    append-nil (received r.address s.log),
    append_assoc (received r.address s.log) (due_to r (e ∷ [])) (due_to r es),
  )
  Turn-total {s} r (finishes_event e es h n) i =
      ground (arith, next_wrapper-none s.cursor s.wrappers r.address r n i.placed)
  Turn-total r (wraps q) i = refl
  Turn-total r (unwraps a h) i = refl

  Turns-total :
      (r : Wrapper) {s t : Publication P}
      → InPlace r s
      → Turns r.address s t
      → InPlace r t × (total r t ≡ total r s)
  Turns-total r i stay = (i, refl)
  Turns-total r i (turn ts st k) =
      let (j, e) = Turns-total r i ts in (Turn-InPlace r st k j, Turn-total r st j ∙ e)

  -- When a publication has told all its events, a wrapper that was there from its start and was not
  -- deleted has received exactly the events of its region, each once and in order, whatever wrappers
  -- were added or deleted by the callbacks in between.
  pub publishes_once :
      (r : Wrapper) (es : List (Event P)) (ws : List Wrapper) (log : List (Emission P))
      (t : Publication P)
      → Ascending ws
      → wrapper_at r.address ws ≡ some r
      → Turns r.address (record { events = es; cursor = none; wrappers = ws; log = log }) t
      → t.events ≡ []
      → received r.address t.log ≡ received r.address log ++ due_to r es
  publishes_once r es ws log t a w ts h =
      let (j, e) = Turns-total r (record { ascending = a; placed = w }) ts in
      ground (arith, append-nil (received r.address t.log))
