-- ===== src/Conversions/Keys.antt =====
-- Keys of the objects in Conversions/Data.antt, compared byte by byte.
use node_gemfire.Base.{ℕ, ◌≡◌, refl, true, List, [], ◌∷◌, arith, ==_iff}
use node_gemfire.Conversions.Data.{same_key}

pub same_key-eq : (a b : List ℕ) → same_key a b ≡ true → a ≡ b
same_key-eq [] [] h = refl
same_key-eq [] (d ∷ ds) h = cc
same_key-eq (c ∷ cs) [] h = cc
same_key-eq (c ∷ cs) (d ∷ ds) h = ground (arith, same_key-eq cs ds, ==_iff c d)
