-- ===== src/Binding/Properties.antt =====
-- The properties of the JavaScript objects that src/binding.cpp makes and lib/binding.js changes: what
-- defining, assigning, deleting and reading a property does.
use node_gemfire.Base.{
  ℕ, ◌≡◌, refl, Bool, true, false, List, [], ◌∷◌, Option, none, some, arith, if◌then◌else◌,
}
use node_gemfire.Conversions.Data.{same_key}
use node_gemfire.Conversions.Keys.{same_key-eq}

-- `fixed` stands for the attributes ReadOnly and DontDelete.
pub record Property (A : Type 0) : Type 0 where
  pub name : List ℕ
  pub content : A
  pub fixed : Bool

pub data Change (A : Type 0) : Type 0 where
  assign : List ℕ → A → Change A
  delete : List ℕ → Change A

module _ {A : Type 0} where
  abbrev pub plain : List ℕ → A → Property A
  plain k a = record { name = k; content = a; fixed = false }

  -- DefineOwnProperty with ReadOnly and DontDelete.
  unfoldable pub define_fixed : List ℕ → A → List (Property A) → List (Property A)
  define_fixed k a [] = record { name = k; content = a; fixed = true } ∷ []
  define_fixed k a (p ∷ ps) =
      if same_key k p.name
      then (if p.fixed then p else record { name = k; content = a; fixed = true }) ∷ ps
      else p ∷ define_fixed k a ps

  -- An assignment, which does nothing to a fixed property.
  unfoldable pub set_property : List ℕ → A → List (Property A) → List (Property A)
  set_property k a [] = plain k a ∷ []
  set_property k a (p ∷ ps) =
      if same_key k p.name then (if p.fixed then p else plain k a) ∷ ps else p ∷ set_property k a ps

  -- `delete`, which does nothing to a fixed property.
  unfoldable pub delete_property : List ℕ → List (Property A) → List (Property A)
  delete_property k [] = []
  delete_property k (p ∷ ps) =
      if same_key k p.name then (if p.fixed then p ∷ ps else ps) else p ∷ delete_property k ps

  unfoldable pub find : List ℕ → List (Property A) → Option (Property A)
  find k [] = none
  find k (p ∷ ps) = if same_key k p.name then some p else find k ps

  unfoldable pub read : List ℕ → List (Property A) → Option A
  read k [] = none
  read k (p ∷ ps) = if same_key k p.name then some p.content else read k ps

  unfoldable pub change : Change A → List (Property A) → List (Property A)
  unfolding set_property delete_property
  change (assign k a) ps = set_property k a ps
  change (delete k) ps = delete_property k ps

  unfoldable pub change_all : List (Change A) → List (Property A) → List (Property A)
  unfolding change
  change_all [] ps = ps
  change_all (c ∷ cs) ps = change_all cs (change c ps)

  -- Assignments one after the other.
  unfoldable pub set_all : List (List ℕ × A) → List (Property A) → List (Property A)
  unfolding set_property
  set_all [] ps = ps
  set_all ((k, a) ∷ more) ps = set_all more (set_property k a ps)

  -- What a name reaches after assignments: the last one counts.
  abbrev pub under : List ℕ → List (List ℕ × A) → Option A
  under k [] = none
  under k ((n, a) ∷ more) =
      let later = under k more in
      elim later [ some b ↦ some b | none ↦ if same_key k n then some a else none ]

  abbrev pub AllPlain : List (Property A) → Type 0
  AllPlain [] = Unit {0}
  AllPlain (p ∷ ps) = (p.fixed ≡ false) × AllPlain ps

  abbrev pub IsFixed : List ℕ → A → List (Property A) → Type 0
  IsFixed k a ps = find k ps ≡ some (record { name = k; content = a; fixed = true })

  pub read-IsFixed :
      (k : List ℕ) (a : A) (ps : List (Property A)) → IsFixed k a ps → read k ps ≡ some a
  unfolding find read
  read-IsFixed k a [] h = cc
  read-IsFixed k a (p ∷ ps) h = ground (arith, read-IsFixed k a ps)

  change-IsFixed :
      (k : List ℕ) (a : A) (c : Change A) (ps : List (Property A))
      → IsFixed k a ps
      → IsFixed k a (change c ps)
  unfolding find change
  change-IsFixed k a (assign j b) [] h = cc
  change-IsFixed k a (delete j) [] h = cc
  change-IsFixed k a (assign j b) (p ∷ ps) h =
      ground (arith, change-IsFixed k a (assign j b) ps, same_key-eq j p.name, same_key-eq k p.name)
  change-IsFixed k a (delete j) (p ∷ ps) h =
      ground (arith, change-IsFixed k a (delete j) ps, same_key-eq j p.name, same_key-eq k p.name)

  -- No assignment and no `delete` takes a fixed property away.
  pub change_all-IsFixed :
      (k : List ℕ) (a : A) (cs : List (Change A)) (ps : List (Property A))
      → IsFixed k a ps
      → IsFixed k a (change_all cs ps)
  unfolding change_all
  change_all-IsFixed k a [] ps h = h
  change_all-IsFixed k a (c ∷ cs) ps h =
      change_all-IsFixed k a cs (change c ps) (change-IsFixed k a c ps h)

  set_property-AllPlain :
      (k : List ℕ) (a : A) (ps : List (Property A)) → AllPlain ps → AllPlain (set_property k a ps)
  unfolding set_property
  set_property-AllPlain k a [] h = (refl, tt)
  set_property-AllPlain k a (p ∷ ps) h = ground (arith, set_property-AllPlain k a ps h.1)

  pub set_all-AllPlain :
      (l : List (List ℕ × A)) (ps : List (Property A)) → AllPlain ps → AllPlain (set_all l ps)
  unfolding set_all
  set_all-AllPlain [] ps h = h
  set_all-AllPlain ((k, a) ∷ more) ps h =
      set_all-AllPlain more (set_property k a ps) (set_property-AllPlain k a ps h)

  read-set_property :
      (j k : List ℕ) (a : A) (ps : List (Property A))
      → AllPlain ps
      → read j (set_property k a ps) ≡ (if same_key j k then some a else read j ps)
  unfolding read set_property
  read-set_property j k a [] h = refl
  read-set_property j k a (p ∷ ps) h = ground (
    arith,
    read-set_property j k a ps h.1,
    same_key-eq j k,
    same_key-eq k p.name,
    same_key-eq j p.name,
  )

  -- After assignments to plain properties a name reaches the last one, and else what it reached before.
  pub read-set_all :
      (k : List ℕ) (l : List (List ℕ × A)) (ps : List (Property A))
      → AllPlain ps
      → read k (set_all l ps) ≡ (elim (under k l) [ some a ↦ some a | none ↦ read k ps ])
  unfolding set_all
  read-set_all k [] ps h = refl
  read-set_all k ((n, a) ∷ more) ps h = ground (
    arith,
    read-set_all k more (set_property n a ps) (set_property-AllPlain n a ps h),
    read-set_property k n a ps h,
  )
