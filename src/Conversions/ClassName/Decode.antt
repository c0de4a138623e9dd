-- ===== src/Conversions/ClassName/Decode.antt =====
-- Reading a field back from a class name of getClassName: the names end where their comma stands.
use node_gemfire.Base.{
  ℕ, ◌≡◌, refl, sym, ap, ◌∙◌, Bool, true, false, List, [], ◌∷◌, ◌++◌, Option, none, some,
  append_assoc, arith, ◌==◌, if◌then◌else◌, ◌&&◌, Bool-cases, inl, inr,
}
use node_gemfire.Conversions.ClassName.{Field, is_special, escape, full_field_name}

abbrev prepend : ℕ → Option (Field × List ℕ) → Option (Field × List ℕ)
prepend c none = none
prepend c (some (f, rest)) = some (record { name = c ∷ f.name; is_array = f.is_array }, rest)

-- After a bare `[` a name ends with `],`.
abbrev read_mark : List ℕ → Option (Field × List ℕ)
read_mark [] = none
read_mark (c ∷ []) = none
read_mark (c ∷ d ∷ rest) =
    if c == b']' && d == b',' then some (record { name = []; is_array = true }, rest) else none

-- One field and the rest of the text.
pub read_field : List ℕ → Option (Field × List ℕ)
read_field [] = none
read_field (c ∷ []) = if c == b',' then some (record { name = []; is_array = false }, []) else none
read_field (c ∷ d ∷ ds) =
    let escaped = prepend d (read_field ds) in
    let plain = prepend c (read_field (d ∷ ds)) in
    if c == b','
    then some (record { name = []; is_array = false }, d ∷ ds)
    else if c == b'['
    then read_mark (d ∷ ds)
    else if c == b'\\'
    then escaped
    else plain

read_field_plain :
    (c : ℕ) (ds : List ℕ) (f : Field) (rest : List ℕ)
    → is_special c ≡ false
    → read_field ds ≡ some (f, rest)
    → read_field (c ∷ ds) ≡ some (record { name = c ∷ f.name; is_array = f.is_array }, rest)
unfolding read_field
read_field_plain c [] f rest h e = cc
read_field_plain c (d ∷ ds) f rest h e = ground arith

read_field_escaped :
    (c d : ℕ) (ds : List ℕ) (f : Field) (rest : List ℕ)
    → c ≡ b'\\'
    → read_field ds ≡ some (f, rest)
    → read_field (c ∷ d ∷ ds) ≡ some (record { name = d ∷ f.name; is_array = f.is_array }, rest)
unfolding read_field
read_field_escaped c d ds f rest h e = ground arith

read_field_end :
    (a : Bool) (rest : List ℕ)
    → read_field ((if a then b'[' ∷ b']' ∷ [] else []) ++ b',' ∷ rest)
      ≡ some (record { name = []; is_array = a }, rest)
unfolding read_field
read_field_end true rest = refl
read_field_end false [] = refl
read_field_end false (c ∷ rest) = refl

read_field-escape :
    (name tail rest : List ℕ) (a : Bool)
    → read_field tail ≡ some (record { name = []; is_array = a }, rest)
    → read_field (escape name ++ tail) ≡ some (record { name = name; is_array = a }, rest)
unfolding escape
read_field-escape [] tail rest a h = h
read_field-escape (c ∷ cs) tail rest a h =
    let ih = read_field-escape cs tail rest a h in
    elim (Bool-cases (is_special c)) [
      | inl s ↦ rw s (read_field_escaped _ c (escape cs ++ tail) _ rest refl ih)
      | inr s ↦ rw s (read_field_plain c (escape cs ++ tail) _ rest s ih)
    ]

-- A field reads back from its full name, whatever follows.
pub read_field-full_field_name :
    (f : Field) (rest : List ℕ) → read_field (full_field_name f ++ rest) ≡ some (f, rest)
unfolding full_field_name
read_field-full_field_name f rest =
    rw
      (
        append_assoc (escape f.name ++ (if f.is_array then b'[' ∷ b']' ∷ [] else [])) (b',' ∷ [])
            rest,
        append_assoc (escape f.name) (if f.is_array then b'[' ∷ b']' ∷ [] else []) (b',' ∷ rest),
      )
      (read_field-escape f.name _ rest f.is_array (read_field_end f.is_array rest))

pub full_field_name-cancel :
    (f g : Field) (r s : List ℕ)
    → full_field_name f ++ r ≡ full_field_name g ++ s
    → (f ≡ g) × (r ≡ s)
full_field_name-cancel f g r s e =
    let p : ◌≡◌ {A = Option (Field × List ℕ)} (some (f, r)) (some (g, s)) =
      sym (read_field-full_field_name f r) ∙ ap read_field e ∙ read_field-full_field_name g s in
    ground arith

pub full_field_name-ne-nil : (f : Field) (r : List ℕ) → full_field_name f ++ r ≡ [] → ⊥
unfolding read_field
full_field_name-ne-nil f r e = cc (read_field-full_field_name f r)
