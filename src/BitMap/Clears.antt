-- ===== src/BitMap/Clears.antt =====
-- The constructor's loop and the count of clear bits.
use tree_fiddy.Prelude.{
  ℕ, zero, suc, ◌+◌, ◌≤◌, ◌<◌, ◌≡◌, refl, ap, ◌∙◌, inl, inr, false, not, ◌==◌, ◌||◌, Option, some,
  none, Bool-cases, arith, bit, length, ℕ_discrete,
}
use tree_fiddy.Prelude.Outcome.{Outcome, ok}
use tree_fiddy.BitMap.{
  BitMap, bits_in_word, div_round_up, set_bit, clear_bit, find, clear_loop, num_clear,
  num_clear_loop, new_bit_map, storage,
}
use tree_fiddy.BitMap.Members.{
  has, HasRoom, clear_lem, test_lem, has-set_bit, has-clear_bit, clear_bit-HasRoom,
  num_bits-set_bit, set_bit-HasRoom,
}
use tree_fiddy.BitMap.Find.{FirstClear, find-FirstClear, Full}

-- The clear numbers from `lo` on, among `n` of them.
pub free : BitMap → ℕ → ℕ → ℕ
free m zero lo = 0
free m (suc n) lo = bit (not (has m lo)) + free m n (lo + 1)

num_clear_loop_lem :
    (n i c : ℕ) (m : BitMap) → i + n ≡ m.num_bits → num_clear_loop n i c m ≡ ok (c + free m n i)
unfolding num_clear_loop free
num_clear_loop_lem zero i c m e = ground arith
num_clear_loop_lem (suc n) i c m e = elim (Bool-cases (has m i)) [
  | inl taken ↦
      rw (test_lem m i (omega arith), taken)
        (num_clear_loop_lem n (i + 1) c m (omega arith) ∙ ground arith)
  | inr clear ↦
      rw (test_lem m i (omega arith), clear)
        (num_clear_loop_lem n (i + 1) (c + 1) m (omega arith) ∙ ground arith)
]

-- NumClear never fails, and returns the number of clear bits.
pub num_clear_lem : (m : BitMap) → num_clear m ≡ ok (free m m.num_bits 0)
unfolding num_clear
num_clear_lem m = num_clear_loop_lem m.num_bits 0 0 m (omega arith) ∙ ground arith

free-set_bit_outside :
    (m : BitMap) (i n lo : ℕ)
    → HasRoom m
    → i < m.num_bits
    → i < lo
    → free (set_bit m i) n lo ≡ free m n lo
unfolding free
free-set_bit_outside m i zero lo room below h = refl
free-set_bit_outside m i (suc n) lo room below h = ground (
  arith,
  has-set_bit m i room below lo,
  free-set_bit_outside m i n (lo + 1) room below (omega arith),
)

free-set_bit :
    (m : BitMap) (i n lo : ℕ)
    → HasRoom m
    → i < m.num_bits
    → lo ≤ i
    → i < lo + n
    → has m i ≡ false
    → free (set_bit m i) n lo + 1 ≡ free m n lo
unfolding free
free-set_bit m i zero lo room below p q c = absurd (omega arith)
free-set_bit m i (suc n) lo room below p q c = elim (ℕ_discrete lo i) [
  | yes e ↦ rw e (
      ground (
        arith,
        has-set_bit m i room below i,
        free-set_bit_outside m i n (i + 1) room below (omega arith),
      ))
  | no ne ↦ ground (
    arith,
    has-set_bit m i room below lo,
    free-set_bit m i n (lo + 1) room below (omega arith) (omega arith) c,
  )
]

free-Full : (m : BitMap) (n lo : ℕ) → Full m lo (lo + n) → free m n lo ≡ 0
unfolding free
free-Full m zero lo full = refl
free-Full m (suc n) lo full = ground (
  arith,
  full lo (omega arith) (omega arith),
  free-Full m n (lo + 1) (λ j p q. full j (omega arith) (omega arith)),
)

-- What Find leaves of `k` clear bits.
abbrev pub Takes : BitMap → ℕ → Outcome (Option ℕ × BitMap) → Type 0
Takes m zero r = r ≡ ok (none, m)
Takes m (suc k) r =
    (i : ℕ) × (m' : BitMap) × (r ≡ ok (some i, m'))
    × (i < m.num_bits)
    × (m'.num_bits ≡ m.num_bits)
    × HasRoom m'
    × (num_clear m' ≡ ok k)
    × (has m i ≡ false)
    × ((j : ℕ) → has m' j ≡ (i == j || has m j))

-- Find succeeds exactly as long as NumClear is not 0: with none left it returns -1 and changes
-- nothing; otherwise it returns a clear number, marks it and nothing else, and leaves one less.
pub find-Takes : (m : BitMap) (k : ℕ) → HasRoom m → num_clear m ≡ ok k → Takes m k (find m)
find-Takes m k room e = go (find-FirstClear m) k (ground (arith, num_clear_lem m))
  where
    go : FirstClear m 0 m.num_bits (find m) → (c : ℕ) → free m m.num_bits 0 ≡ c → Takes m c (find m)
    go (inr (full, r)) zero f = r
    go (inr (full, r)) (suc c) f =
        absurd (omega (arith, free-Full m m.num_bits 0 (λ j p q. full j p (omega arith))))
    go (inl (i, p, q, clear, full, r)) zero f =
        absurd (omega (arith, free-set_bit m i m.num_bits 0 room q p (omega arith) clear))
    go (inl (i, p, q, clear, full, r)) (suc c) f = (
      i,
      set_bit m i,
      r,
      q,
      num_bits-set_bit m i,
      set_bit-HasRoom m i room q,
      num_clear_lem (set_bit m i) ∙ left,
      clear,
      has-set_bit m i room q,
    )
      where
        left : ok (free (set_bit m i) (set_bit m i).num_bits 0) ≡ ok c
        left =
            ap (λ n. ok (free (set_bit m i) n 0)) (num_bits-set_bit m i)
            ∙ ground (arith, free-set_bit m i m.num_bits 0 room q p (omega arith) clear)

length-storage : (n : ℕ) (junk : ℕ → ℕ) → length (storage n junk) ≡ n
unfolding storage
length-storage zero junk = refl
length-storage (suc n) junk = ap suc (length-storage n junk)

abbrev ClearBelow : BitMap → ℕ → Type 0
ClearBelow m i = (j : ℕ) → j < i → has m j ≡ false

abbrev Cleared : ℕ → Outcome BitMap → Type 0
Cleared n r = (m' : BitMap) × (r ≡ ok m') × HasRoom m' × (m'.num_bits ≡ n) × ClearBelow m' n

clear_loop-Cleared :
    (n i : ℕ) (m : BitMap)
    → i + n ≡ m.num_bits
    → HasRoom m
    → ClearBelow m i
    → Cleared m.num_bits (clear_loop n i m)
unfolding clear_loop clear_bit
clear_loop-Cleared zero i m e room below = (m, refl, room, refl, λ j p. below j (omega arith))
clear_loop-Cleared (suc n) i m e room below =
    let q : i < m.num_bits = omega arith in
    rw (clear_lem m i q) (
      clear_loop-Cleared n (i + 1) (clear_bit m i) (omega arith) (clear_bit-HasRoom m i room q)
        (λ j p. ground (arith, has-clear_bit m i room q j, below j)))

free_clear : (m : BitMap) (n lo : ℕ) → ClearBelow m (lo + n) → free m n lo ≡ n
unfolding free
free_clear m zero lo h = refl
free_clear m (suc n) lo h =
    ground (arith, h lo (omega arith), free_clear m n (lo + 1) (λ j p. h j (omega arith)))

-- Whatever the storage held, the constructor gives a bit map of the size asked for with every bit
-- clear, and with a word for every bit.
pub new_bit_map-Cleared :
    (n : ℕ) (junk : ℕ → ℕ)
    → (m : BitMap) × (new_bit_map n junk ≡ ok m)
      × HasRoom m
      × (m.num_bits ≡ n)
      × ((j : ℕ) → j < n → has m j ≡ false)
      × (num_clear m ≡ ok n)
unfolding new_bit_map
new_bit_map-Cleared n junk =
    let (m, made, room, size, below) = cleared in
    (m, made, room, size, below, num_clear_lem m ∙ counted m size below)
  where
    cleared : Cleared n (
        clear_loop n 0 (record {
          num_bits = n;
          num_words = div_round_up n bits_in_word;
          map = storage (div_round_up n bits_in_word) junk;
        }))
    cleared =
        clear_loop-Cleared n 0 _ (omega arith)
          (ground (arith, length-storage (div_round_up n bits_in_word) junk))
          (λ j p. absurd (omega arith))

    counted : (m : BitMap) → m.num_bits ≡ n → ClearBelow m n → ok (free m m.num_bits 0) ≡ ok n
    counted m size below =
        ap (λ k. ok (free m k 0)) size ∙ ap ok (free_clear m n 0 (λ j p. below j (omega arith)))
