-- ===== src/Examples/Maps.antt =====
-- Bit maps (Project 2/code/userprog/bitmap.cc) and tables (addrspace.cc) at concrete inputs.
use tree_fiddy.Prelude.{ℕ, ◌≡◌, refl, none, some, [], ◌∷◌, arith}
use tree_fiddy.Prelude.Outcome.{ok}
use tree_fiddy.BitMap.{BitMap, test, find, num_clear}
use tree_fiddy.BitMap.Members.{has}
use tree_fiddy.BitMap.Clears.{Takes, find-Takes}
use tree_fiddy.Table.{Table}
use tree_fiddy.Table.Laws.{IsValid}

-- 40 bits, of which 0 and 2 are marked.
abbrev sparse : BitMap
sparse = record { num_bits = 40; num_words = 2; map = 5 ∷ 0 ∷ [] }

sparse_count : num_clear sparse ≡ ok 38
unfolding num_clear test has
sparse_count = refl

find-Takes_example : Takes sparse 38 (find sparse)
find-Takes_example = find-Takes sparse 38 (omega arith) sparse_count

abbrev open_files : Table ℕ
open_files = record {
  map = record { num_bits = 3; num_words = 1; map = 3 ∷ [] };
  table = none ∷ some 8 ∷ none ∷ [];
  size = 3;
}

open_files-IsValid : IsValid open_files
open_files-IsValid = record { room = omega arith; bits = refl; slots = refl }
