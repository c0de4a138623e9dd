-- ===== src/Conversions/ClassName/Order.antt =====
-- The set of names in getClassName: ascending, and determined by its members.
use Prim.Native.Nat.{Ordering}
use node_gemfire.Base.{ℕ, ◌≡◌, refl, sym, ◌∙◌, ◌⊎◌, inl, inr, List, [], ◌∷◌, arith, ◌↔◌, subst, In}
use node_gemfire.Conversions.ClassName.{order, insert}

pub order-eq : (a b : List ℕ) → order a b ≡ Ordering.eq → a ≡ b
unfolding order
order-eq [] [] h = refl
order-eq [] (d ∷ ds) h = cc
order-eq (c ∷ cs) [] h = cc
order-eq (c ∷ cs) (d ∷ ds) h = ground (arith, order-eq cs ds)

pub order_refl : (a : List ℕ) → order a a ≡ Ordering.eq
unfolding order
order_refl [] = refl
order_refl (c ∷ cs) = ground (arith, order_refl cs)

pub order-swap : (a b : List ℕ) → order a b ≡ Ordering.gt → order b a ≡ Ordering.lt
unfolding order
order-swap [] [] h = cc
order-swap [] (d ∷ ds) h = cc
order-swap (c ∷ cs) [] h = refl
order-swap (c ∷ cs) (d ∷ ds) h = ground (arith, order-swap cs ds)

pub order_trans :
    (a b c : List ℕ) → order a b ≡ Ordering.lt → order b c ≡ Ordering.lt → order a c ≡ Ordering.lt
unfolding order
order_trans [] [] c p q = cc
order_trans [] (y ∷ ys) [] p q = cc
order_trans [] (y ∷ ys) (z ∷ zs) p q = refl
order_trans (x ∷ xs) [] c p q = cc
order_trans (x ∷ xs) (y ∷ ys) [] p q = cc
order_trans (x ∷ xs) (y ∷ ys) (z ∷ zs) p q = ground (arith, order_trans xs ys zs)

-- Every name of the list comes after `x`.
abbrev pub AllAfter : List ℕ → List (List ℕ) → Type 0
AllAfter x [] = Unit {0}
AllAfter x (y ∷ ys) = (order x y ≡ Ordering.lt) × AllAfter x ys

abbrev pub Ascending : List (List ℕ) → Type 0
Ascending [] = Unit {0}
Ascending (x ∷ xs) = AllAfter x xs × Ascending xs

AllAfter-In :
    (x y : List ℕ) (ys : List (List ℕ)) → AllAfter x ys → In y ys → order x y ≡ Ordering.lt
AllAfter-In x y [] h m = absurd m
AllAfter-In x y (z ∷ zs) h (inl e) = rw e h.0
AllAfter-In x y (z ∷ zs) h (inr m) = AllAfter-In x y zs h.1 m

AllAfter-trans :
    (x y : List ℕ) (ys : List (List ℕ)) → order x y ≡ Ordering.lt → AllAfter y ys → AllAfter x ys
AllAfter-trans x y [] p h = tt
AllAfter-trans x y (z ∷ zs) p h = (order_trans x y z p h.0, AllAfter-trans x y zs p h.1)

insert-AllAfter :
    (x y : List ℕ) (ys : List (List ℕ))
    → AllAfter x ys
    → order x y ≡ Ordering.lt
    → AllAfter x (insert y ys)
unfolding insert
insert-AllAfter x y [] h p = (p, tt)
insert-AllAfter x y (z ∷ zs) h p = ground (arith, insert-AllAfter x y zs h.1 p)

pub insert-Ascending : (x : List ℕ) (xs : List (List ℕ)) → Ascending xs → Ascending (insert x xs)
unfolding insert
insert-Ascending x [] h = (tt, tt)
insert-Ascending x (y ∷ ys) h = ground (
  arith,
  insert-Ascending x ys h.1,
  order-swap x y,
  AllAfter-trans x y ys,
  insert-AllAfter y x ys h.0,
)

-- The members of the set after an insertion.
pub mem_insert_elim : (x z : List ℕ) (xs : List (List ℕ)) → In z (insert x xs) → (z ≡ x) ⊎ In z xs
unfolding insert
mem_insert_elim x z [] m = m
mem_insert_elim x z (y ∷ ys) m = ground (arith, mem_insert_elim x z ys)

pub mem_insert_intro : (x z : List ℕ) (xs : List (List ℕ)) → (z ≡ x) ⊎ In z xs → In z (insert x xs)
unfolding insert
mem_insert_intro x z [] m = m
mem_insert_intro x z (y ∷ ys) m = ground (arith, mem_insert_intro x z ys, order-eq x y)

order-lt_irrefl : (x : List ℕ) → order x x ≡ Ordering.lt → ⊥
order-lt_irrefl x h = cc (order_refl x)

order-asym : (x y : List ℕ) → order x y ≡ Ordering.lt → order y x ≡ Ordering.lt → ⊥
order-asym x y p q = order-lt_irrefl x (order_trans x y x p q)

-- The first names of two ascending lists with the same members are the same.
heads_eq :
    (x y : List ℕ) (xs ys : List (List ℕ))
    → AllAfter x xs
    → AllAfter y ys
    → In x (y ∷ ys)
    → In y (x ∷ xs)
    → x ≡ y
heads_eq x y xs ys p q (inl e) n = e
heads_eq x y xs ys p q (inr m) (inl e) = sym e
heads_eq x y xs ys p q (inr m) (inr n) =
    absurd (order-asym x y (AllAfter-In x y xs p n) (AllAfter-In y x ys q m))

In-rest :
    (x y z : List ℕ) (xs ys : List (List ℕ))
    → AllAfter x xs
    → x ≡ y
    → In z xs
    → In z (y ∷ ys)
    → In z ys
In-rest x y z xs ys p e m (inl f) =
    absurd (
      order-lt_irrefl x (subst (λ w. order x w ≡ Ordering.lt) (f ∙ sym e) (AllAfter-In x z xs p m)))
In-rest x y z xs ys p e m (inr n) = n

-- Two ascending lists with the same members are equal.
pub Ascending-ext :
    (xs ys : List (List ℕ))
    → Ascending xs
    → Ascending ys
    → ((z : List ℕ) → In z xs ↔ In z ys)
    → xs ≡ ys
Ascending-ext [] [] p q h = refl
Ascending-ext [] (y ∷ ys) p q h = absurd ((h y).1 (inl refl))
Ascending-ext (x ∷ xs) [] p q h = absurd ((h x).0 (inl refl))
Ascending-ext (x ∷ xs) (y ∷ ys) p q h =
    let e = heads_eq x y xs ys p.0 q.0 ((h x).0 (inl refl)) ((h y).1 (inl refl)) in
    let rest = Ascending-ext xs ys p.1 q.1 λ z. (
      λ m. In-rest x y z xs ys p.0 e m ((h z).0 (inr m)),
      λ m. In-rest y x z ys xs q.0 (sym e) m ((h z).1 (inr m)),
    ) in
    cc
