-- ===== src/Events/Loops.antt =====
-- The two loops of `publishEvents` in src/region_event_registry.cpp, run by the steps of
-- Events/System.antt.
use node_gemfire.Base.{
  ℕ, ◌<◌, ◌≡◌, refl, ap, ◌∙◌, false, not, List, [], ◌∷◌, Option, none, some, arith, select,
}
use node_gemfire.Events.Registry.{Event, Wrapper, Emission, publish_to, publish_all}
use node_gemfire.Events.WrapperSet.{Ascending, AllAbove}
use node_gemfire.Events.Publication.{Cursor, is_past, next_wrapper}
use node_gemfire.Events.System.{System, visits, finishes_event, Runs, go}

-- The wrappers past the iterator.
abbrev pub ahead : Cursor → List Wrapper → List Wrapper
ahead c = select (λ q. not (is_past q.address c))

abbrev pub first_of : List Wrapper → Option Wrapper
first_of [] = none
first_of (q ∷ qs) = some q

pub next_wrapper-ahead :
    (c : Cursor) (ws : List Wrapper) → next_wrapper c ws ≡ first_of (ahead c ws)
unfolding next_wrapper
next_wrapper-ahead c [] = refl
next_wrapper-ahead c (w ∷ ws) = ground (arith, next_wrapper-ahead c ws)

pub ahead-none : (ws : List Wrapper) → ahead none ws ≡ ws
ahead-none [] = refl
ahead-none (w ∷ ws) = ap (◌∷◌ w) (ahead-none ws)

ahead-AllAbove : (b n : ℕ) (ws : List Wrapper) → AllAbove n ws → b < n → ahead (some b) ws ≡ ws
ahead-AllAbove b n [] h l = refl
ahead-AllAbove b n (w ∷ ws) h l = ground (arith, ahead-AllAbove b n ws h.1)

ahead_self : (n : ℕ) (ws : List Wrapper) → AllAbove n ws → ahead (some n) ws ≡ ws
ahead_self n [] h = refl
ahead_self n (w ∷ ws) h = ground (arith, ahead_self n ws h.1)

-- The step of the iterator.
pub ahead-next :
    (c : Cursor) (ws : List Wrapper) (q : Wrapper) (qs : List Wrapper)
    → Ascending ws
    → ahead c ws ≡ q ∷ qs
    → (ahead (some q.address) ws ≡ qs) × (is_past q.address c ≡ false)
ahead-next c [] q qs h e = cc
ahead-next none (w ∷ ws) q qs h e = ground (arith, ahead-none ws, ahead_self w.address ws h.0)
ahead-next (some b) (w ∷ ws) q qs h e = ground (
  arith,
  ahead-next (some b) ws q qs h.1,
  ahead_self w.address ws h.0,
  ahead-AllAbove b w.address ws h.0,
)

module _ {P : Type 0} where
  -- The state in the middle of the loops.
  abbrev pub looping : System P → List (Event P) → Cursor → List (Emission P) → System P
  looping s es c log = record s {
    registry = record (s.registry) { emitted = log };
    batch = es;
    cursor = c;
  }

  pub inner_loop :
      (a : ℕ) (s0 s : System P) (e : Event P) (es : List (Event P)) (rest : List Wrapper)
      (c : Cursor) (log : List (Emission P))
      → Ascending s.registry.region_set
      → ahead c s.registry.region_set ≡ rest
      → Runs a s0 (looping s (e ∷ es) c log)
      → Runs a s0 (looping s es none (publish_to e rest log))
  unfolding publish_to
  inner_loop a s0 s e es [] c log h r rs =
      go rs (finishes_event e es refl (next_wrapper-ahead c s.registry.region_set ∙ ap first_of r))
        refl
  inner_loop a s0 s e es (q ∷ qs) c log h r rs =
      inner_loop a s0 s e es qs (some q.address) (publish_to e (q ∷ []) log) h
        (ahead-next c s.registry.region_set q qs h r).0
        (go rs (visits e es q refl (next_wrapper-ahead c s.registry.region_set ∙ ap first_of r))
          refl)

  -- The steps of the loops, where no wrapper comes or goes, do what `publish_all` does.
  pub outer_loop :
      (a : ℕ) (s0 s : System P) (es : List (Event P)) (log : List (Emission P))
      → Ascending s.registry.region_set
      → Runs a s0 (looping s es none log)
      → Runs a s0 (looping s [] none (publish_all es s.registry.region_set log))
  unfolding publish_all
  outer_loop a s0 s [] log h rs = rs
  outer_loop a s0 s (e ∷ es) log h rs =
      outer_loop a s0 s es (publish_to e s.registry.region_set log) h (
        inner_loop a s0 s e es s.registry.region_set none log h (ahead-none s.registry.region_set)
          rs)
