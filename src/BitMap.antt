-- ===== src/BitMap.antt =====
-- Project 2/code/userprog/bitmap.cc and bitmap.h: an array of bits kept in 32-bit words.
-- An `int` argument is a ℤ; the result -1 of Find is `none`; a failed ASSERT is `fault`.
-- FetchFrom and WriteBack only copy `map` from and to a file, and Print only prints.
pub mod Members
pub mod Find
pub mod Clears
use Prim.Native.Nat.{bit_and, bit_or}
use tree_fiddy.Prelude.{
  ℕ, zero, suc, ◌+◌, ◌*◌, ◌/◌, ◌%◌, ◌^◌, ◌≤◌, Bool, Option, none, some, List, [], ◌∷◌, ltb, ◌==◌,
  if◌then◌else◌, not, get_or, set, length,
}
use tree_fiddy.Prelude.Int.{ℤ, pos, negsuc}
use tree_fiddy.Prelude.Bits.{bit_at, not_bit}
use tree_fiddy.Prelude.Outcome.{Outcome, ok, fault, ◌>>=◌}

-- The macro divRoundUp of threads/utility.h.
abbrev pub div_round_up : ℕ → ℕ → ℕ
div_round_up n s = n / s + (if ltb 0 (n % s) then 1 else 0)

abbrev pub bits_in_word : ℕ
bits_in_word = 32

pub record BitMap : Type 0 where
  pub num_bits : ℕ
  pub num_words : ℕ
  pub map : List ℕ

-- `ASSERT(which >= 0 && which < numBits)`, with the index that it admits.
index : BitMap → ℤ → Outcome ℕ
index m (pos i) = if ltb i m.num_bits then ok i else fault
index m (negsuc n) = fault

pub set_bit : BitMap → ℕ → BitMap
set_bit m i = record m {
  map =
      set m.map (i / bits_in_word)
        (bit_or (get_or m.map (i / bits_in_word) 0) (2 ^ (i % bits_in_word)));
}

pub clear_bit : BitMap → ℕ → BitMap
clear_bit m i = record m {
  map =
      set m.map (i / bits_in_word)
        (bit_and (get_or m.map (i / bits_in_word) 0) (not_bit (i % bits_in_word)));
}

pub mark : BitMap → ℤ → Outcome BitMap
unfolding index
mark m which = do i ← index m which; ok (set_bit m i)

pub clear : BitMap → ℤ → Outcome BitMap
unfolding index
clear m which = do i ← index m which; ok (clear_bit m i)

unfoldable pub test : BitMap → ℤ → Outcome Bool
unfolding index
test m which = do
  i ← index m which
  ok (not (bit_and (get_or m.map (i / bits_in_word) 0) (2 ^ (i % bits_in_word)) == 0))

-- The words that `new unsigned int[numWords]` returns, with whatever they hold.
storage : ℕ → (ℕ → ℕ) → List ℕ
storage zero junk = []
storage (suc n) junk = junk n ∷ storage n junk

-- The loop of the constructor, with `n` rounds left at index i.
clear_loop : ℕ → ℕ → BitMap → Outcome BitMap
clear_loop zero i m = ok m
clear_loop (suc n) i m = clear m (pos i) >>= clear_loop n (i + 1)

pub new_bit_map : ℕ → (ℕ → ℕ) → Outcome BitMap
unfolding storage clear_loop
new_bit_map nitems junk = clear_loop nitems 0 (record {
  num_bits = nitems;
  num_words = div_round_up nitems bits_in_word;
  map = storage (div_round_up nitems bits_in_word) junk;
})

find_loop : ℕ → ℕ → BitMap → Outcome (Option ℕ × BitMap)
find_loop zero i m = ok (none, m)
find_loop (suc n) i m =
    let rest = find_loop n (i + 1) m in
    let take : Outcome (Option ℕ × BitMap) = (do m' ← mark m (pos i); ok (some i, m')) in
    do taken ← test m (pos i); if taken then rest else take

pub find : BitMap → Outcome (Option ℕ × BitMap)
unfolding find_loop
find m = find_loop m.num_bits 0 m

num_clear_loop : ℕ → ℕ → ℕ → BitMap → Outcome ℕ
num_clear_loop zero i count m = ok count
num_clear_loop (suc n) i count m = do
  taken ← test m (pos i)
  num_clear_loop n (i + 1) (if taken then count else count + 1) m

unfoldable pub num_clear : BitMap → Outcome ℕ
unfolding num_clear_loop
num_clear m = num_clear_loop m.num_bits 0 0 m
