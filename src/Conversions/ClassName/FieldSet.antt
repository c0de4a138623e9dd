-- ===== src/Conversions/ClassName/FieldSet.antt =====
-- The set of the fields of an object, which forgets the order of its keys: what getClassName of
-- src/conversions.cpp makes a name of.
use mathlib.Core.Quot
use mathlib.Core.Quot.{Quot, Quot-set}
use node_gemfire.Base.{ℕ, ◌≡◌, ◌↔◌, ap, List, In}
use node_gemfire.Conversions.ClassName.{Field, get_class_name}
use node_gemfire.Conversions.ClassName.Laws.{get_class_name_iff}

abbrev pub SameFields : List Field → List Field → Type 0
SameFields fs gs = (f : Field) → In f fs ↔ In f gs

abbrev pub FieldSet : Type 0
FieldSet = Quot SameFields

FieldSet-set : IsSet FieldSet
FieldSet-set = Quot-set

text_set : IsSet (List ℕ)
text_set = hlevel

-- getClassName on sets of fields.
pub class_name : FieldSet → List ℕ
class_name = Quot.lift text_set get_class_name (λ fs gs h. (get_class_name_iff fs gs).1 h)

-- The name tells sets of fields apart, and nothing else.
pub class_name_iff : (x y : FieldSet) → (class_name x ≡ class_name y) ↔ (x ≡ y)
unfolding class_name
class_name_iff x y = (injective x y, ap class_name)
  where
    injective : (x y : FieldSet) → class_name x ≡ class_name y → x ≡ y
    injective =
        Quot.ind (λ x. hlevel (FieldSet-set))
          (λ fs.
            Quot.ind (λ y. hlevel (FieldSet-set))
              (λ gs e. Quot.sound ((get_class_name_iff fs gs).0 e)))
