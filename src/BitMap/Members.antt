-- ===== src/BitMap/Members.antt =====
-- The bit map seen as a set of numbers: what Mark, Clear and Test do to it.
use Prim.Native.Nat.{bit_and, bit_or}
use tree_fiddy.Prelude.{
  ℕ, ◌*◌, ◌/◌, ◌%◌, ◌^◌, ◌≤◌, ◌<◌, ◌≡◌, refl, Bool, ◌||◌, ◌&&◌, not, ◌==◌, arith, get_or,
  get_or-set, length, length-set,
}
use tree_fiddy.Prelude.Int.{ℤ, pos, negsuc}
use tree_fiddy.Prelude.Bits.{bit_at, not_bit, test_bit, bit_at-set_bit, bit_at-clear_bit}
use tree_fiddy.Prelude.Outcome.{ok, fault}
use tree_fiddy.BitMap.{BitMap, bits_in_word, set_bit, clear_bit, mark, clear, test}

-- Every bit has a word to stand in.
abbrev pub HasRoom : BitMap → Type 0
HasRoom m = m.num_bits ≤ bits_in_word * length m.map

unfoldable pub has : BitMap → ℕ → Bool
has m i = not (bit_at (get_or m.map (i / bits_in_word) 0) (i % bits_in_word) == 0)

module _ (m : BitMap) (i : ℕ) (room : HasRoom m) (below : i < m.num_bits) where
  abbrev word : ℕ
  word = get_or m.map (i / 32) 0

  pub has-set_bit : (j : ℕ) → has (set_bit m i) j ≡ (i == j || has m j)
  unfolding has set_bit
  has-set_bit j =
      rw (get_or-set m.map (i / 32) (j / 32) (bit_or word (2 ^ (i % 32))) 0 (omega arith))
        (ground (arith, bit_at-set_bit word (i % 32) (j % 32)))

  pub has-clear_bit : (j : ℕ) → has (clear_bit m i) j ≡ (not (i == j) && has m j)
  unfolding has clear_bit
  has-clear_bit j =
      rw (get_or-set m.map (i / 32) (j / 32) (bit_and word (not_bit (i % 32))) 0 (omega arith))
        (ground (arith, bit_at-clear_bit word (i % 32) (j % 32) (omega arith) (omega arith)))

  pub set_bit-HasRoom : HasRoom (set_bit m i)
  unfolding set_bit
  set_bit-HasRoom = omega (arith, length-set m.map (i / 32) (bit_or word (2 ^ (i % 32))))

  pub clear_bit-HasRoom : HasRoom (clear_bit m i)
  unfolding clear_bit
  clear_bit-HasRoom = omega (arith, length-set m.map (i / 32) (bit_and word (not_bit (i % 32))))

module _ (m : BitMap) (i : ℕ) where
  pub num_bits-set_bit : (set_bit m i).num_bits ≡ m.num_bits
  unfolding set_bit
  num_bits-set_bit = refl

  pub num_bits-clear_bit : (clear_bit m i).num_bits ≡ m.num_bits
  unfolding clear_bit
  num_bits-clear_bit = refl

  module _ (below : i < m.num_bits) where
    pub mark_lem : mark m (pos i) ≡ ok (set_bit m i)
    unfolding mark
    mark_lem = ground arith

    pub clear_lem : clear m (pos i) ≡ ok (clear_bit m i)
    unfolding clear
    clear_lem = ground arith

    pub test_lem : test m (pos i) ≡ ok (has m i)
    unfolding test has
    test_lem = ground (arith, test_bit (get_or m.map (i / 32) 0) (i % 32))

-- Mark, Clear and Test on an index inside the bit map: Mark adds exactly that number to the set,
-- Clear takes exactly that number out, Test answers membership, and none of them fails.
pub mark-clear-test : (m : BitMap) (i : ℕ) → HasRoom m → i < m.num_bits → record {
  marks :
      (m' : BitMap) × (mark m (pos i) ≡ ok m')
      × HasRoom m'
      × (m'.num_bits ≡ m.num_bits)
      × ((j : ℕ) → has m' j ≡ (i == j || has m j));
  clears :
      (m' : BitMap) × (clear m (pos i) ≡ ok m')
      × HasRoom m'
      × (m'.num_bits ≡ m.num_bits)
      × ((j : ℕ) → has m' j ≡ (not (i == j) && has m j));
  tests : test m (pos i) ≡ ok (has m i);
}
mark-clear-test m i room below = record {
  marks = (
    set_bit m i,
    mark_lem m i below,
    set_bit-HasRoom m i room below,
    num_bits-set_bit m i,
    has-set_bit m i room below,
  );
  clears = (
    clear_bit m i,
    clear_lem m i below,
    clear_bit-HasRoom m i room below,
    num_bits-clear_bit m i,
    has-clear_bit m i room below,
  );
  tests = test_lem m i below;
}

-- An index that is negative or not below the size ends the program, in Mark, Clear and Test alike.
pub outside_faults :
    (m : BitMap) (which : ℤ)
    → ((i : ℕ) → which ≡ pos i → m.num_bits ≤ i)
    → (mark m which ≡ fault) × (clear m which ≡ fault) × (test m which ≡ fault)
unfolding mark clear test
outside_faults m (pos i) h = let far : m.num_bits ≤ i = h i refl in ground arith
outside_faults m (negsuc n) h = (refl, refl, refl)
