-- ===== src/FileHeader/RoundTrip.antt =====
-- FileHeader::Allocate and Deallocate of Project 2/code/filesys/filehdr.cc, one after the other, and a
-- file that is too large.
use tree_fiddy.Prelude.{
  ℕ, zero, suc, ◌+◌, ◌≤◌, ◌<◌, ◌≡◌, refl, sym, subst, ◌∙◌, inl, inr, true, false, ltb, get_elem?,
  length, length-set, arith, Bool-cases, Option-cases, ◌/◌,
}
use tree_fiddy.Prelude.Int.{pos}
use tree_fiddy.Prelude.Outcome.{Outcome, ok, fault}
use tree_fiddy.BitMap.{BitMap, div_round_up, num_clear, clear}
use tree_fiddy.BitMap.Members.{has, HasRoom}
use tree_fiddy.BitMap.Clears.{find-Takes}
use tree_fiddy.FileHeader.{
  FileHeader, sector_size, num_direct, put_sector, allocate_loop, allocate, byte_to_sector,
  deallocate,
}
use tree_fiddy.FileHeader.Allocation.{Names, Owns, Frees, deallocate-Frees}
use tree_fiddy.FileHeader.Taking.{Fills, sized, named_at, put_sector_lem, allocate-Fills}

module _ (h : FileHeader) (m : BitMap) (hi k : ℕ) (r : Outcome (FileHeader × BitMap))
    (f : Fills h m 0 hi k r) (d : Frees f.header f.left 0 hi (deallocate f.header f.left)) where
  bits_back : (s : ℕ) → has d.left s ≡ has m s
  bits_back s = elim (Bool-cases (has d.left s)) [
    | inl marked ↦
        let unnamed : (j : ℕ) → 0 ≤ j → j < hi → ¬ (Names f.header j s) =
          λ j p q x. absurd (ground (arith, d.cleared j s p q x)) in
        d.kept s unnamed ∙ f.kept s unnamed
    | inr unmarked ↦ elim (Bool-cases (has m s)) [
      | inl taken ↦
          let unnamed : (j : ℕ) → 0 ≤ j → j < hi → ¬ (Names f.header j s) =
            λ j p q x. absurd (ground (arith, f.were_free j s p q x)) in
          d.kept s unnamed ∙ f.kept s unnamed
      | inr free ↦ unmarked ∙ sym free
    ]
  ]

-- Deallocating what Allocate has just taken, for a file of at most 30 sectors, succeeds and gives back
-- a map with the same bits as before.
pub allocate-deallocate :
    (m : BitMap) (bytes k : ℕ) (h : FileHeader)
    → HasRoom m
    → length h.data_sectors ≡ num_direct
    → div_round_up bytes sector_size ≤ num_direct
    → num_clear m ≡ ok (div_round_up bytes sector_size + k)
    → (h' : FileHeader) × (m' : BitMap) × (m'' : BitMap) × (allocate m bytes h ≡ ok (true, h', m'))
      × (deallocate h' m' ≡ ok m'')
      × ((s : ℕ) → has m'' s ≡ has m s)
allocate-deallocate m bytes k h room long fits count =
    let (f, made) = allocate-Fills m bytes k h room long fits count in
    let n : ℕ = div_round_up bytes sector_size in
    let owns : Owns f.header f.left 0 f.header.num_sectors =
      subst (Owns f.header f.left 0) (sym f.sectors) f.owns in
    let d = deallocate-Frees f.header f.left f.room owns in
    let d' : Frees f.header f.left 0 n (deallocate f.header f.left) =
      subst (λ x. Frees f.header f.left 0 x (deallocate f.header f.left)) f.sectors d in
    (f.header, f.left, d'.left, made, d'.freed, bits_back (sized bytes h) m n k _ f d')

overrun_loop :
    (n i k : ℕ) (h : FileHeader) (m : BitMap)
    → i ≤ length h.data_sectors
    → length h.data_sectors < i + n
    → HasRoom m
    → num_clear m ≡ ok (n + k)
    → allocate_loop n i h m ≡ fault
unfolding allocate_loop put_sector
overrun_loop zero i k h m inside over room count = absurd (omega arith)
overrun_loop (suc n) i k h m inside over room count =
    let (s, m', found, in_map, size, room', count', clear, marks) =
      find-Takes m (suc (n + k)) room (count ∙ ground arith) in
    elim (Bool-cases (ltb i (length h.data_sectors))) [
      | inl fits ↦
          let long = length-set h.data_sectors i (pos s) in
          rw found (
            rw (put_sector_lem i s h (ground arith)) (
              overrun_loop n (i + 1) k (named_at i s h) m' (ground (arith, long))
                (omega (arith, long)) room' count'))
      | inr full ↦ rw found (rw full refl)
    ]

-- Allocate does not compare the number of sectors with the 30 that a header can name: for a larger file
-- for which there are enough free sectors it writes past the end of `dataSectors`.
pub allocate_overruns :
    (m : BitMap) (bytes k : ℕ) (h : FileHeader)
    → HasRoom m
    → length h.data_sectors ≡ num_direct
    → num_direct < div_round_up bytes sector_size
    → num_clear m ≡ ok (div_round_up bytes sector_size + k)
    → allocate m bytes h ≡ fault
unfolding allocate
allocate_overruns m bytes k h room long large count =
    let n : ℕ = div_round_up bytes sector_size in
    let enough : ltb (n + k) n ≡ false = ground arith in
    let over = overrun_loop n 0 k (sized bytes h) m (omega arith) (omega arith) room count in
    rw count (rw enough (rw over refl))

sector_in_range :
    (bytes offset : ℕ) → offset < bytes → offset / sector_size < div_round_up bytes sector_size
sector_in_range bytes offset h = ground arith

byte_to_sector_lem :
    (h : FileHeader) (offset s : ℕ)
    → Names h (offset / sector_size) s
    → byte_to_sector h offset ≡ ok (pos s)
unfolding byte_to_sector
byte_to_sector_lem h offset s name = rw name refl

pub named_by :
    (h : FileHeader) (offset s : ℕ)
    → byte_to_sector h offset ≡ ok (pos s)
    → Names h (offset / sector_size) s
unfolding byte_to_sector
named_by h offset s e = elim (Option-cases (get_elem? h.data_sectors (offset / sector_size))) [
  | inl none_there ↦ absurd (ground arith)
  | inr (z, there) ↦ ground arith
]

module _ (h : FileHeader) (m : BitMap) (hi : ℕ) (owns : Owns h m 0 hi) where
  same_sector : (i j s : ℕ) → i < hi → j < hi → Names h i s → Names h j s → i ≡ j
  same_sector i j s p q a b = elim (Bool-cases (ltb i j)) [
    | inl before ↦ absurd (owns.distinct i j s (omega arith) (ground arith) q a b)
    | inr not_before ↦ elim (Bool-cases (ltb j i)) [
      | inl after ↦ absurd (owns.distinct j i s (omega arith) (ground arith) p b a)
      | inr not_after ↦ ground arith
    ]
  ]

-- After Allocate of at most 30 sectors, ByteToSector gives for each byte of the file a sector that was
-- free and is now marked, and gives two bytes the same sector only when they stand in the same block of
-- 128 bytes of the file.
pub allocated_bytes :
    (m : BitMap) (bytes k : ℕ) (h : FileHeader)
    → HasRoom m
    → length h.data_sectors ≡ num_direct
    → div_round_up bytes sector_size ≤ num_direct
    → num_clear m ≡ ok (div_round_up bytes sector_size + k)
    → (h' : FileHeader) × (m' : BitMap) × (allocate m bytes h ≡ ok (true, h', m'))
      × ((o : ℕ)
          → o < bytes
          → (s : ℕ) × (byte_to_sector h' o ≡ ok (pos s)) × (has m s ≡ false) × (has m' s ≡ true))
      × ((o o' s : ℕ)
          → o < bytes
          → o' < bytes
          → byte_to_sector h' o ≡ ok (pos s)
          → byte_to_sector h' o' ≡ ok (pos s)
          → o / sector_size ≡ o' / sector_size)
allocated_bytes m bytes k h room long fits count =
    let (f, made) = allocate-Fills m bytes k h room long fits count in
    (
      f.header,
      f.left,
      made,
      λ o p.
          let q = sector_in_range bytes o p in
          let (s, name, below, marked) = f.owns.named (o / sector_size) (omega arith) q in
          (
            s,
            byte_to_sector_lem f.header o s name,
            f.were_free (o / sector_size) s (omega arith) q name,
            marked,
          ),
      λ o o' s p p' e e'.
          same_sector f.header f.left (div_round_up bytes sector_size) f.owns (o / sector_size)
            (o' / sector_size) s (sector_in_range bytes o p) (sector_in_range bytes o' p')
            (named_by f.header o s e) (named_by f.header o' s e'),
    )
