-- ===== src/FileHeader/Taking.antt =====
-- What FileHeader::Allocate of Project 2/code/filesys/filehdr.cc takes from the map of free sectors.
use tree_fiddy.Prelude.{
  ℕ, zero, suc, ◌+◌, ◌≤◌, ◌<◌, ◌≡◌, ◌≢◌, refl, sym, ◌∙◌, true, false, ◌||◌, ltb, ◌==◌, get_elem?,
  set, length, length-set, get_elem?-set_self, get_elem?-set_ne, arith, ℕ_discrete,
}
use tree_fiddy.Prelude.Int.{pos}
use tree_fiddy.Prelude.Outcome.{Outcome, ok}
use tree_fiddy.BitMap.{BitMap, div_round_up, num_clear, clear}
use tree_fiddy.BitMap.Members.{has, HasRoom}
use tree_fiddy.BitMap.Clears.{find-Takes}
use tree_fiddy.FileHeader.{FileHeader, sector_size, num_direct, put_sector, allocate_loop, allocate}
use tree_fiddy.FileHeader.Allocation.{Names, Owns, Names-unique}

-- What a loop that fills the entries from lo on and below hi leaves, from a map with k + n clear bits.
pub record Fills (h : FileHeader) (m : BitMap) (lo hi k : ℕ) (r : Outcome (FileHeader × BitMap))
    : Type 0 where
  pub header : FileHeader
  pub left : BitMap
  pub made : r ≡ ok (header, left)
  pub room : HasRoom left
  pub size : left.num_bits ≡ m.num_bits
  pub sectors : header.num_sectors ≡ h.num_sectors
  pub bytes : header.num_bytes ≡ h.num_bytes
  pub below : (j : ℕ) → j < lo → get_elem? header.data_sectors j ≡ get_elem? h.data_sectors j
  pub owns : Owns header left lo hi
  pub were_free : (j s : ℕ) → lo ≤ j → j < hi → Names header j s → has m s ≡ false
  pub kept : (s : ℕ) → ((j : ℕ) → lo ≤ j → j < hi → ¬ (Names header j s)) → has left s ≡ has m s
  pub count : num_clear left ≡ ok k

abbrev pub named_at : ℕ → ℕ → FileHeader → FileHeader
named_at i s h = record h { data_sectors = set h.data_sectors i (pos s) }

module _ (h : FileHeader) (m m' : BitMap) (i hi k s : ℕ) (long : i < length h.data_sectors)
    (size : m'.num_bits ≡ m.num_bits) (in_map : s < m.num_bits) (clear : has m s ≡ false)
    (marks : (j : ℕ) → has m' j ≡ (s == j || has m j)) where
  Fills-cons :
      i < hi
      → (r : Outcome (FileHeader × BitMap)) → Fills (named_at i s h) m' (i + 1) hi k r
      → Fills h m i hi k r
  Fills-cons inside r f = record {
    header = f.header;
    left = f.left;
    made = f.made;
    room = f.room;
    size = f.size ∙ size;
    sectors = f.sectors;
    bytes = f.bytes;
    below =
        λ j p. f.below j (omega arith) ∙ get_elem?-set_ne h.data_sectors (pos s) (λ e. omega arith);
    owns = record {
      named = λ j p q. elim (ℕ_discrete j i) [
        | yes e ↦ rw e (s, first, omega (arith, f.size), still)
        | no ne ↦ f.owns.named j (omega arith) q
      ];
      distinct = λ j l t p q r a b. elim (ℕ_discrete j i) [
        | yes e ↦
            let same : s ≡ t = Names-unique f.header i s t first (ground arith) in
            unnamed l (omega arith) r (rw same b)
        | no ne ↦ f.owns.distinct j l t (omega arith) q r a b
      ];
    };
    were_free = λ j t p q a. elim (ℕ_discrete j i) [
      | yes e ↦ let same : s ≡ t = Names-unique f.header i s t first (ground arith) in ground arith
      | no ne ↦ ground (arith, marks t, f.were_free j t (omega arith) q a)
    ];
    kept = λ t none_named.
        let differ : s ≢ t = λ same. none_named i (omega arith) inside (rw (sym same) first) in
        f.kept t (λ j p q. none_named j (omega arith) q) ∙ ground (arith, marks t);
    count = f.count;
  }
    where
      first : Names f.header i s
      first = f.below i (omega arith) ∙ get_elem?-set_self h.data_sectors i (pos s) long

      unnamed : (j : ℕ) → i + 1 ≤ j → j < hi → ¬ (Names f.header j s)
      unnamed j p q e = let free = f.were_free j s p q e in ground (arith, marks s)

      still : has f.left s ≡ true
      still = f.kept s unnamed ∙ ground (arith, marks s)

pub put_sector_lem :
    (i s : ℕ) (h : FileHeader)
    → i < length h.data_sectors
    → put_sector i (pos s) h ≡ ok (named_at i s h)
unfolding put_sector
put_sector_lem i s h below = ground arith

allocate_loop-Fills :
    (n i hi k : ℕ) (h : FileHeader) (m : BitMap)
    → i + n ≡ hi
    → hi ≤ length h.data_sectors
    → HasRoom m
    → num_clear m ≡ ok (n + k)
    → Fills h m i hi k (allocate_loop n i h m)
unfolding allocate_loop
allocate_loop-Fills zero i hi k h m e long room count = record {
  header = h;
  left = m;
  made = refl;
  room = room;
  size = refl;
  sectors = refl;
  bytes = refl;
  below = λ j p. refl;
  owns = record {
    named = λ j p q. absurd (omega arith);
    distinct = λ j l t p q r a b. absurd (omega arith);
  };
  were_free = λ j s p q a. absurd (omega arith);
  kept = λ s none_named. refl;
  count = count ∙ ground arith;
}
allocate_loop-Fills (suc n) i hi k h m e long room count =
    let (s, m', found, in_map, size, room', count', clear, marks) =
      find-Takes m (suc (n + k)) room (count ∙ ground arith) in
    let stored : put_sector i (pos s) h ≡ ok (named_at i s h) =
      put_sector_lem i s h (omega arith) in
    let rest =
      allocate_loop-Fills n (i + 1) hi k (named_at i s h) m' (omega arith)
        (omega (arith, length-set h.data_sectors i (pos s))) room' count' in
    rw found (
      rw stored
        (Fills-cons h m m' i hi k s (omega arith) size in_map clear marks (omega arith) _ rest))

abbrev pub sized : ℕ → FileHeader → FileHeader
sized bytes h = record h { num_bytes = bytes; num_sectors = div_round_up bytes sector_size }

-- On a header with its 30 entries, for a file of at most 30 sectors and with enough free ones: Allocate
-- succeeds and records both sizes; the header's sectors are all different, were free and are now
-- marked; no other bit of the map changes, and as many fewer are free.
pub allocate-Fills :
    (m : BitMap) (bytes k : ℕ) (h : FileHeader)
    → HasRoom m
    → length h.data_sectors ≡ num_direct
    → div_round_up bytes sector_size ≤ num_direct
    → num_clear m ≡ ok (div_round_up bytes sector_size + k)
    → (f : Fills
        (sized bytes h)
        m
        0
        (div_round_up bytes sector_size)
        k
        (allocate_loop (div_round_up bytes sector_size) 0 (sized bytes h) m))
      × (allocate m bytes h ≡ ok (true, f.header, f.left))
unfolding allocate
allocate-Fills m bytes k h room long fits count =
    let n : ℕ = div_round_up bytes sector_size in
    let f = allocate_loop-Fills n 0 n k (sized bytes h) m (omega arith) (omega arith) room count in
    let enough : ltb (n + k) n ≡ false = ground arith in (f, rw count (rw enough (rw f.made refl)))
