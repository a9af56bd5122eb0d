-- ===== src/Directory/Names.antt =====
-- Names that agree in their first bytes, as strncmp of Project 2/code/filesys/directory.cc sees them.
use tree_fiddy.Prelude.{ℕ, zero, suc, ◌≡◌, refl, true, List, [], ◌∷◌, take, arith}
use tree_fiddy.Directory.{same_name}

pub same_name_refl : (n : ℕ) (a : List ℕ) → same_name n a a ≡ true
unfolding same_name
same_name_refl zero a = refl
same_name_refl (suc n) [] = refl
same_name_refl (suc n) (x ∷ a) = ground (arith, same_name_refl n a)

pub same_name_sym : (n : ℕ) (a b : List ℕ) → same_name n a b ≡ same_name n b a
unfolding same_name
same_name_sym zero a b = refl
same_name_sym (suc n) [] [] = refl
same_name_sym (suc n) [] (y ∷ b) = refl
same_name_sym (suc n) (x ∷ a) [] = refl
same_name_sym (suc n) (x ∷ a) (y ∷ b) = ground (arith, same_name_sym n a b)

-- Two names that agree are found by the same names.
pub same_name_trans :
    (n : ℕ) (a b c : List ℕ) → same_name n a b ≡ true → same_name n a c ≡ same_name n b c
unfolding same_name
same_name_trans zero a b c h = refl
same_name_trans (suc n) [] [] c h = refl
same_name_trans (suc n) [] (y ∷ b) c h = ground arith
same_name_trans (suc n) (x ∷ a) [] c h = ground arith
same_name_trans (suc n) (x ∷ a) (y ∷ b) [] h = refl
same_name_trans (suc n) (x ∷ a) (y ∷ b) (z ∷ c) h =
    ground (arith, same_name_trans n a b c (ground arith))

pub same_name-take : (n : ℕ) (a b : List ℕ) → same_name n (take n a) b ≡ same_name n a b
unfolding same_name
same_name-take zero a b = refl
same_name-take (suc n) [] b = refl
same_name-take (suc n) (x ∷ a) [] = refl
same_name-take (suc n) (x ∷ a) (y ∷ b) = ground (arith, same_name-take n a b)
