-- ===== src/Conversions/ClassName/Laws.antt =====
-- The set of fields that a class name of getClassName stands for.
use node_gemfire.Base.{
  ℕ, ◌≡◌, refl, sym, ap, ◌∙◌, ◌⊎◌, inl, inr, List, [], ◌∷◌, ◌++◌, ◌↔◌, append-nil, append_assoc, In,
  subst,
}
use node_gemfire.Conversions.ClassName.{
  Field, full_field_name, field_names, join, json_prefix, get_class_name,
}
use node_gemfire.Conversions.ClassName.Order.{
  Ascending, insert-Ascending, mem_insert_elim, mem_insert_intro, Ascending-ext,
}
use node_gemfire.Conversions.ClassName.Decode.{full_field_name-cancel, full_field_name-ne-nil}

-- A full name of one of the fields.
abbrev Named : List ℕ → List Field → Type 0
Named x fs = (f : Field) × In f fs × (x ≡ full_field_name f)

field_names-Ascending :
    (fs : List Field) (s : List (List ℕ)) → Ascending s → Ascending (field_names fs s)
unfolding field_names
field_names-Ascending [] s h = h
field_names-Ascending (f ∷ fs) s h =
    field_names-Ascending fs _ (insert-Ascending (full_field_name f) s h)

field_names_elim :
    (x : List ℕ) (fs : List Field) (s : List (List ℕ))
    → In x (field_names fs s)
    → In x s ⊎ Named x fs
unfolding field_names
field_names_elim x [] s m = inl m
field_names_elim x (f ∷ fs) s m = elim (field_names_elim x fs _ m) [
  | inl old ↦ elim (mem_insert_elim (full_field_name f) x s old) [
    | inl e ↦ inr (f, inl refl, e)
    | inr older ↦ inl older
  ]
  | inr (g, n, e) ↦ inr (g, inr n, e)
]

field_names_old :
    (x : List ℕ) (fs : List Field) (s : List (List ℕ)) → In x s → In x (field_names fs s)
unfolding field_names
field_names_old x [] s m = m
field_names_old x (f ∷ fs) s m = field_names_old x fs _ (mem_insert_intro _ x s (inr m))

field_names_new :
    (f : Field) (fs : List Field) (s : List (List ℕ))
    → In f fs
    → In (full_field_name f) (field_names fs s)
unfolding field_names
field_names_new f [] s m = absurd m
field_names_new f (g ∷ fs) s (inl e) =
    field_names_old _ fs _ (mem_insert_intro (full_field_name g) _ s (inl (ap full_field_name e)))
field_names_new f (g ∷ fs) s (inr m) = field_names_new f fs _ m

join_lem : (a b : List ℕ) (xs : List (List ℕ)) → join (a ++ b) xs ≡ a ++ join b xs
unfolding join
join_lem a b [] = refl
join_lem a b (x ∷ xs) = ap (λ (w : List ℕ). join w xs) (append_assoc a b x) ∙ join_lem a (b ++ x) xs

prefix-cancel : (p xs ys : List ℕ) → p ++ xs ≡ p ++ ys → xs ≡ ys
prefix-cancel [] xs ys e = e
prefix-cancel (c ∷ p) xs ys e = prefix-cancel p xs ys (cc)

-- All names of the list are full names of fields.
abbrev AllNames : List (List ℕ) → Type 0
AllNames [] = Unit {0}
AllNames (x ∷ xs) = ((f : Field) × (x ≡ full_field_name f)) × AllNames xs

AllNames-of :
    (xs : List (List ℕ)) (fs : List Field) → ((x : List ℕ) → In x xs → Named x fs) → AllNames xs
AllNames-of [] fs h = tt
AllNames-of (x ∷ xs) fs h =
    let (f, m, e) = h x (inl refl) in ((f, e), AllNames-of xs fs (λ y n. h y (inr n)))

join_cons : (x : List ℕ) (xs : List (List ℕ)) → join [] (x ∷ xs) ≡ x ++ join [] xs
unfolding join
join_cons x xs = ap (λ (w : List ℕ). join w xs) (sym (append-nil x)) ∙ join_lem x [] xs

join-cons-ne-nil :
    (x : List ℕ) (xs : List (List ℕ)) (f : Field)
    → x ≡ full_field_name f
    → join [] (x ∷ xs) ≡ []
    → ⊥
join-cons-ne-nil x xs f e h =
    full_field_name-ne-nil f (join [] xs) (rw (← e) (sym (join_cons x xs) ∙ h))

-- Names of fields, written one after the other, can be told apart again.
join-injective :
    (xs ys : List (List ℕ)) → AllNames xs → AllNames ys → join [] xs ≡ join [] ys → xs ≡ ys
unfolding join
join-injective [] [] p q e = refl
join-injective [] (y ∷ ys) p ((g, d), q) e = absurd (join-cons-ne-nil y ys g d (sym e))
join-injective (x ∷ xs) [] ((f, c), p) q e = absurd (join-cons-ne-nil x xs f c e)
join-injective (x ∷ xs) (y ∷ ys) ((f, c), p) ((g, d), q) e =
    let h : full_field_name f ++ join [] xs ≡ full_field_name g ++ join [] ys =
      rw (← c, ← d) (sym (join_cons x xs) ∙ e ∙ join_cons y ys) in
    let (same, rest) = full_field_name-cancel f g (join [] xs) (join [] ys) h in
    let tails = join-injective xs ys p q rest in cc (c, d)

body_eq :
    (fs gs : List Field)
    → get_class_name fs ≡ get_class_name gs
    → field_names fs [] ≡ field_names gs []
unfolding get_class_name
body_eq fs gs e = join-injective _ _ (names fs) (names gs) (
    prefix-cancel json_prefix _ _ (
      sym (join_lem json_prefix [] (field_names fs []))
      ∙ e
      ∙ join_lem json_prefix [] (field_names gs [])))
  where
    names : (hs : List Field) → AllNames (field_names hs [])
    names hs =
        AllNames-of _ hs
          λ x m. elim (field_names_elim x hs [] m) [ inl none ↦ absurd none | inr n ↦ n ]

mem_of_names :
    (fs gs : List Field) (f : Field) → field_names fs [] ≡ field_names gs [] → In f fs → In f gs
mem_of_names fs gs f e m =
    elim (field_names_elim _ gs [] (subst (In (full_field_name f)) e (field_names_new f fs [] m))) [
      | inl none ↦ absurd none
      | inr (g, n, d) ↦
          let same : f ≡ g =
            (full_field_name-cancel f g [] []
              (append-nil _ ∙ d ∙ sym (append-nil (full_field_name g)))).0 in
          subst (λ h. In h gs) (sym same) n
    ]

-- Objects with the same PDX class name have the same fields: the same names, and the same of them
-- marked as arrays.
get_class_name-injective :
    (fs gs : List Field) → get_class_name fs ≡ get_class_name gs → (f : Field) → In f fs ↔ In f gs
get_class_name-injective fs gs e f =
    (mem_of_names fs gs f (body_eq fs gs e), mem_of_names gs fs f (sym (body_eq fs gs e)))

names_of_mem :
    (fs gs : List Field)
    → ((f : Field) → In f fs → In f gs)
    → (x : List ℕ) → In x (field_names fs [])
    → In x (field_names gs [])
names_of_mem fs gs h x m = elim (field_names_elim x fs [] m) [
  | inl none ↦ absurd none
  | inr (f, n, e) ↦ subst (λ z. In z (field_names gs [])) (sym e) (field_names_new f gs [] (h f n))
]

-- Objects with the same fields have the same PDX class name, whatever the order of their keys.
get_class_name-extensional :
    (fs gs : List Field) → ((f : Field) → In f fs ↔ In f gs) → get_class_name fs ≡ get_class_name gs
unfolding get_class_name
get_class_name-extensional fs gs h = ap (join json_prefix) (
    Ascending-ext _ _ (field_names-Ascending fs [] tt) (field_names-Ascending gs [] tt)
      (λ x. (names_of_mem fs gs (λ f. (h f).0) x, names_of_mem gs fs (λ f. (h f).1) x)))

-- Objects have the same PDX class name exactly if they have the same fields, whatever the order of
-- their keys: the same names, and the same of them marked as arrays.
pub get_class_name_iff :
    (fs gs : List Field)
    → (get_class_name fs ≡ get_class_name gs) ↔ ((f : Field) → In f fs ↔ In f gs)
get_class_name_iff fs gs = (get_class_name-injective fs gs, get_class_name-extensional fs gs)
