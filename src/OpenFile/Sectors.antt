-- ===== src/OpenFile/Sectors.antt =====
-- The loops of Project 2/code/filesys/openfile.cc over the sectors of a file.
use tree_fiddy.Prelude.{
  ℕ, zero, suc, ◌+◌, ◌-◌, ◌*◌, ◌/◌, ◌%◌, ◌≤◌, ◌<◌, ◌≡◌, ◌≢◌, refl, ap, ◌∙◌, Bool, true, false, ◌&&◌,
  if◌then◌else◌, ltb, leb, ◌==◌, arith, Bool-cases, inl, inr,
}
use tree_fiddy.Prelude.Int.{pos}
use tree_fiddy.Prelude.Outcome.{ok}
use tree_fiddy.Disk.{num_sectors_on_disk}
use tree_fiddy.FileHeader.{FileHeader, sector_size, byte_to_sector}
use tree_fiddy.OpenFile.{
  Buffer, Storage, copy, from_offset, read_sector, write_sector, read_loop, write_loop,
}

-- The header names a sector of the disk for each block of the file, and different ones.
pub record LaidOut (h : FileHeader) : Type 0 where
  pub sectors : ℕ → ℕ
  pub named :
      (b : ℕ)
      → b * sector_size < h.num_bytes
      → byte_to_sector h (b * sector_size) ≡ ok (pos (sectors b))
  pub on_disk : (b : ℕ) → b * sector_size < h.num_bytes → sectors b < num_sectors_on_disk
  pub distinct :
      (b c : ℕ)
      → b * sector_size < h.num_bytes
      → c * sector_size < h.num_bytes
      → sectors b ≡ sectors c
      → b ≡ c

-- The byte of the file at an offset.
abbrev pub byte_of : {h : FileHeader} → LaidOut h → Storage → ℕ → ℕ
byte_of w d o = d (w.sectors (o / sector_size)) (o % sector_size)

abbrev pub between : ℕ → ℕ → ℕ → Bool
between lo hi j = leb lo j && ltb j hi

block_of :
    (first i j : ℕ)
    → first ≤ i
    → (i - first) * sector_size ≤ j
    → j < (i - first) * sector_size + sector_size
    → (first * sector_size + j) / sector_size ≡ i
block_of first i j a b c = omega arith

offset_of :
    (first i j : ℕ)
    → first ≤ i
    → (i - first) * sector_size ≤ j
    → j < (i - first) * sector_size + sector_size
    → (first * sector_size + j) % sector_size ≡ j - (i - first) * sector_size
offset_of first i j a b c = omega arith

module _ (h : FileHeader) (w : LaidOut h) (first : ℕ) where
  byte_of_block :
      (d : Storage) (i j : ℕ)
      → first ≤ i
      → between ((i - first) * sector_size) ((i - first) * sector_size + sector_size) j ≡ true
      → byte_of w d (first * sector_size + j) ≡ d (w.sectors i) (j - (i - first) * sector_size)
  byte_of_block d i j a b =
      let lo : (i - first) * sector_size ≤ j = ground arith in
      let hi : j < (i - first) * sector_size + sector_size = ground arith in
      ap (λ b. d (w.sectors b) ((first * sector_size + j) % sector_size))
        (block_of first i j a lo hi)
      ∙ ap (d (w.sectors i)) (offset_of first i j a lo hi)

  -- The loop of ReadAt puts the bytes of its sectors at their places in the buffer.
  pub read_loop_lem :
      (n i : ℕ) (d : Storage) (buf : Buffer)
      → first ≤ i
      → (i + n) * sector_size < h.num_bytes + sector_size
      → (buf' : Buffer) × (read_loop n i first h d buf ≡ ok buf')
        × ((j : ℕ)
            → buf' j ≡ (
                if between ((i - first) * sector_size) ((i - first + n) * sector_size) j
                then byte_of w d (first * sector_size + j)
                else buf j))
  unfolding read_loop read_sector copy
  read_loop_lem zero i d buf from inside = (buf, refl, λ j. ground arith)
  read_loop_lem (suc n) i d buf from inside =
      let below : i * sector_size < h.num_bytes = omega arith in
      let name = w.named i below in
      let there : ltb (w.sectors i) num_sectors_on_disk ≡ true =
        ground (arith, w.on_disk i below) in
      let next : Buffer = copy sector_size (d (w.sectors i)) ((i - first) * sector_size) buf in
      let (buf', e, bytes) = read_loop_lem n (i + 1) d next (omega arith) (omega arith) in
      (buf', rw name (rw there e), λ j. bytes j ∙ ground (arith, byte_of_block d i j from))

  abbrev stored : Storage → ℕ → Buffer → Storage
  stored d i buf t = if t == w.sectors i then from_offset ((i - first) * sector_size) buf else d t

  byte_of_stored :
      (d : Storage) (i o : ℕ) (buf : Buffer)
      → first ≤ i
      → i * sector_size < h.num_bytes
      → o < h.num_bytes
      → byte_of w (stored d i buf) o ≡ (
          if between (i * sector_size) (i * sector_size + sector_size) o
          then buf (o - first * sector_size)
          else byte_of w d o)
  byte_of_stored d i o buf from below inside =
      elim (Bool-cases (between (i * sector_size) (i * sector_size + sector_size) o)) [
        | inl within ↦
            let lo : i * sector_size ≤ o = ground arith in
            let hi : o < i * sector_size + sector_size = ground arith in
            let block : o / sector_size ≡ i = omega arith in
            let place : (i - first) * sector_size + o % sector_size ≡ o - first * sector_size =
              omega arith in
            let same : (w.sectors (o / sector_size) == w.sectors i) ≡ true =
              ground (arith, ap w.sectors block) in
            rw within (rw same (ap buf place))
        | inr without ↦
            let start : o / sector_size * sector_size < h.num_bytes = omega arith in
            let differ : o / sector_size ≢ i = λ block.
              let lo : i * sector_size ≤ o = omega arith in
              let hi : o < i * sector_size + sector_size = omega arith in ground arith in
            let differ_sectors : w.sectors (o / sector_size) ≢ w.sectors i =
              λ e. differ (w.distinct (o / sector_size) i start below e) in
            let other : (w.sectors (o / sector_size) == w.sectors i) ≡ false =
              ground (arith, differ_sectors) in
            rw without (rw other refl)
      ]

  -- The loop of WriteAt writes its part of the buffer to the bytes of its sectors, and to no other byte
  -- of the file and no sector of another file.
  pub write_loop_lem :
      (n i : ℕ) (d : Storage) (buf : Buffer)
      → first ≤ i
      → (i + n) * sector_size < h.num_bytes + sector_size
      → (d' : Storage) × (write_loop n i first h buf d ≡ ok d')
        × ((o : ℕ)
            → o < h.num_bytes
            → byte_of w d' o ≡ (
                if between (i * sector_size) ((i + n) * sector_size) o
                then buf (o - first * sector_size)
                else byte_of w d o))
        × ((s : ℕ) → ((b : ℕ) → b * sector_size < h.num_bytes → w.sectors b ≢ s) → d' s ≡ d s)
  unfolding write_loop write_sector
  write_loop_lem zero i d buf from inside = (d, refl, λ o p. ground arith, λ s p. refl)
  write_loop_lem (suc n) i d buf from inside =
      let below : i * sector_size < h.num_bytes = omega arith in
      let name = w.named i below in
      let there : ltb (w.sectors i) num_sectors_on_disk ≡ true =
        ground (arith, w.on_disk i below) in
      let (d', e, bytes, others) =
        write_loop_lem n (i + 1) (stored d i buf) buf (omega arith) (omega arith) in
      (
        d',
        rw name (rw there e),
        λ o p. bytes o p ∙ ground (arith, byte_of_stored d i o buf from below p),
        λ s unnamed.
            let differ : w.sectors i ≢ s = unnamed i below in others s unnamed ∙ ground arith,
      )
