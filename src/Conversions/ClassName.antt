-- ===== src/Conversions/ClassName.antt =====
-- src/conversions.cpp, getClassName: the PDX class name of a JavaScript object. A `std::string` is
-- the list of its bytes; the fields are the object's own properties in the order of its keys.
pub mod Order
pub mod Decode
pub mod Laws
pub mod FieldSet
use node_gemfire.Base.{ℕ, Bool, ◌||◌, List, [], ◌∷◌, ◌++◌, ◌==◌, if◌then◌else◌}
use Prim.Native.Nat.{compare, Ordering}

pub record Field : Type 0 where
  pub name : List ℕ  -- the key in UTF-8
  pub is_array : Bool  -- IsArray() && !IsString()

-- The characters of the `switch`.
abbrev pub is_special : ℕ → Bool
is_special c = c == b',' || (c == b'[' || (c == b']' || c == b'\\'))

-- The loop over the characters of a key.
unfoldable pub escape : List ℕ → List ℕ
escape [] = []
escape (c ∷ cs) = (if is_special c then b'\\' ∷ c ∷ [] else c ∷ []) ++ escape cs

unfoldable pub full_field_name : Field → List ℕ
unfolding escape
full_field_name f = (escape f.name ++ (if f.is_array then b'[' ∷ b']' ∷ [] else [])) ++ b',' ∷ []

-- `std::string::compare`
unfoldable pub order : List ℕ → List ℕ → Ordering
order [] [] = Ordering.eq
order [] (d ∷ ds) = Ordering.lt
order (c ∷ cs) [] = Ordering.gt
order (c ∷ cs) (d ∷ ds) = elim (compare c d) [
  | Ordering.lt ↦ Ordering.lt
  | Ordering.gt ↦ Ordering.gt
  | Ordering.eq ↦ order cs ds
]

-- `std::set<std::string>::insert`
unfoldable pub insert : List ℕ → List (List ℕ) → List (List ℕ)
unfolding order
insert x [] = x ∷ []
insert x (y ∷ ys) = elim (order x y) [
  | Ordering.lt ↦ x ∷ y ∷ ys
  | Ordering.eq ↦ y ∷ ys
  | Ordering.gt ↦ y ∷ insert x ys
]

-- The loop over the keys.
unfoldable pub field_names : List Field → List (List ℕ) → List (List ℕ)
unfolding insert full_field_name
field_names [] names = names
field_names (f ∷ fs) names = field_names fs (insert (full_field_name f) names)

-- The loop over the set.
unfoldable pub join : List ℕ → List (List ℕ) → List ℕ
join name [] = name
join name (x ∷ xs) = join (name ++ x) xs

abbrev pub json_prefix : List ℕ
json_prefix = b'J' ∷ b'S' ∷ b'O' ∷ b'N' ∷ b':' ∷ b' ' ∷ []

unfoldable pub get_class_name : List Field → List ℕ
unfolding field_names join
get_class_name fs = join json_prefix (field_names fs [])
