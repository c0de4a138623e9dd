-- ===== src/Events/WrapperSet.antt =====
-- The `std::set` of wrappers in src/region_event_registry.hpp: ascending addresses, each once.
use node_gemfire.Base.{
  ℕ, ◌<◌, ◌≡◌, refl, inl, inr, List, [], ◌∷◌, Option, none, some, arith, ◌==◌, if◌then◌else◌, In,
}
use node_gemfire.Events.Registry.{Wrapper, insert, erase}

-- All addresses lie above `n`.
abbrev pub AllAbove : ℕ → List Wrapper → Type 0
AllAbove n [] = Unit {0}
AllAbove n (q ∷ qs) = (n < q.address) × AllAbove n qs

abbrev pub Ascending : List Wrapper → Type 0
Ascending [] = Unit {0}
Ascending (q ∷ qs) = AllAbove q.address qs × Ascending qs

unfoldable pub wrapper_at : ℕ → List Wrapper → Option Wrapper
wrapper_at a [] = none
wrapper_at a (q ∷ qs) = if q.address == a then some q else wrapper_at a qs

AllAbove-mono : (m n : ℕ) (qs : List Wrapper) → m < n → AllAbove n qs → AllAbove m qs
AllAbove-mono m n [] h a = tt
AllAbove-mono m n (q ∷ qs) h a = (omega arith, AllAbove-mono m n qs h a.1)

pub AllAbove-none : (a n : ℕ) (qs : List Wrapper) → AllAbove n qs → a < n → wrapper_at a qs ≡ none
unfolding wrapper_at
AllAbove-none a n [] h l = refl
AllAbove-none a n (q ∷ qs) h l = ground (arith, AllAbove-none a n qs h.1 l)

pub AllAbove-self : (n : ℕ) (qs : List Wrapper) → AllAbove n qs → wrapper_at n qs ≡ none
unfolding wrapper_at
AllAbove-self n [] h = refl
AllAbove-self n (q ∷ qs) h = ground (arith, AllAbove-self n qs h.1)

insert-AllAbove :
    (n : ℕ) (r : Wrapper) (qs : List Wrapper)
    → AllAbove n qs
    → n < r.address
    → AllAbove n (insert r qs)
unfolding insert
insert-AllAbove n r [] h l = (l, tt)
insert-AllAbove n r (q ∷ qs) h l = ground (arith, insert-AllAbove n r qs h.1 l)

pub insert-Ascending : (r : Wrapper) (qs : List Wrapper) → Ascending qs → Ascending (insert r qs)
unfolding insert
insert-Ascending r [] h = (tt, tt)
insert-Ascending r (q ∷ qs) h = ground (
  arith,
  insert-Ascending r qs h.1,
  insert-AllAbove q.address r qs h.0,
  AllAbove-mono r.address q.address qs,
)

erase-AllAbove : (n a : ℕ) (qs : List Wrapper) → AllAbove n qs → AllAbove n (erase a qs)
unfolding erase
erase-AllAbove n a [] h = tt
erase-AllAbove n a (q ∷ qs) h = ground (arith, erase-AllAbove n a qs h.1)

pub erase-Ascending : (a : ℕ) (qs : List Wrapper) → Ascending qs → Ascending (erase a qs)
unfolding erase
erase-Ascending a [] h = tt
erase-Ascending a (q ∷ qs) h =
    ground (arith, erase-Ascending a qs h.1, erase-AllAbove q.address a qs h.0)

-- An insertion keeps the wrapper that stands at its address, as `std::set::insert` does.
pub wrapper_at-insert :
    (a : ℕ) (r : Wrapper) (qs : List Wrapper)
    → Ascending qs
    → wrapper_at a (insert r qs) ≡ (elim (wrapper_at a qs) [
      | none ↦ if r.address == a then some r else none
      | some q ↦ some q
    ])
unfolding wrapper_at insert
wrapper_at-insert a r [] h = refl
wrapper_at-insert a r (q ∷ qs) h = ground (
  arith,
  wrapper_at-insert a r qs h.1,
  AllAbove-none a q.address qs h.0,
  AllAbove-self q.address qs h.0,
)

pub wrapper_at-erase :
    (a b : ℕ) (qs : List Wrapper)
    → Ascending qs
    → wrapper_at a (erase b qs) ≡ (if a == b then none else wrapper_at a qs)
unfolding wrapper_at erase
wrapper_at-erase a b [] h = ground arith
wrapper_at-erase a b (q ∷ qs) h =
    ground (arith, wrapper_at-erase a b qs h.1, AllAbove-self q.address qs h.0)

-- The registry listens to the region of each wrapper.
abbrev pub Attended : List ℕ → List Wrapper → Type 0
Attended regions [] = Unit {0}
Attended regions (q ∷ qs) = In q.region_ptr regions × Attended regions qs

Attended-cons :
    (n : ℕ) (regions : List ℕ) (qs : List Wrapper) → Attended regions qs → Attended (n ∷ regions) qs
Attended-cons n regions [] h = tt
Attended-cons n regions (q ∷ qs) h = (inr (h.0), Attended-cons n regions qs h.1)

pub insert-Attended :
    (r : Wrapper) (regions : List ℕ) (qs : List Wrapper)
    → Attended regions qs
    → Attended (r.region_ptr ∷ regions) (insert r qs)
unfolding insert
insert-Attended r regions [] h = (inl refl, tt)
insert-Attended r regions (q ∷ qs) h =
    ground (arith, insert-Attended r regions qs h.1, Attended-cons r.region_ptr regions (q ∷ qs) h)

pub erase-Attended :
    (a : ℕ) (regions : List ℕ) (qs : List Wrapper)
    → Attended regions qs
    → Attended regions (erase a qs)
unfolding erase
erase-Attended a regions [] h = tt
erase-Attended a regions (q ∷ qs) h = ground (arith, erase-Attended a regions qs h.1)
