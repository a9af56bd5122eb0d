-- ===== src/OpenFile/Whole.antt =====
-- Project 2/code/filesys/openfile.cc: what one call has written, a later one reads, and the header that
-- Allocate of filehdr.cc makes is fit for both.
use tree_fiddy.Prelude.{
  ℕ, ◌+◌, ◌-◌, ◌*◌, ◌/◌, ◌<◌, ◌≡◌, refl, sym, ap, ◌∙◌, Option, some, get_elem?, arith,
}
use tree_fiddy.Prelude.Int.{ℤ, pos}
use tree_fiddy.Prelude.Outcome.{ok}
use tree_fiddy.BitMap.{BitMap}
use tree_fiddy.Disk.{num_sectors_on_disk}
use tree_fiddy.FileHeader.{FileHeader, sector_size, byte_to_sector}
use tree_fiddy.FileHeader.Allocation.{Names, Owns}
use tree_fiddy.OpenFile.{Buffer, Storage, OpenFile, read, write, seek}
use tree_fiddy.OpenFile.Sectors.{LaidOut}
use tree_fiddy.OpenFile.Reading.{amount, read_at-Gets}
use tree_fiddy.OpenFile.Writing.{Puts, write_at-Puts}

module _ (f : OpenFile) (w : LaidOut f.hdr) (d : Storage) where
  -- For a file whose header names different sectors of the disk for its blocks: Write, then Seek back to
  -- where it began, then Read of the same count both answer with that count, cut off at the end of the
  -- file, and Read gives the bytes that Write was given. Every other byte of the file, and every
  -- sector of another file, is as before.
  pub write-seek-read :
      (buf first_buf last_buf from read_buf into : Buffer) (num_bytes : ℕ)
      → (d' : Storage) × (into' : Buffer) × (f' f'' : OpenFile) × (write f d buf first_buf last_buf
            from num_bytes
          ≡ ok (amount f.hdr num_bytes f.seek_position, d', f'))
        × (read (seek f.seek_position f') d' read_buf into num_bytes
            ≡ ok (amount f.hdr num_bytes f.seek_position, into', f''))
        × ((j : ℕ) → j < amount f.hdr num_bytes f.seek_position → into' j ≡ from j)
        × Puts w (amount f.hdr num_bytes f.seek_position) f.seek_position from d d'
  unfolding write read
  write-seek-read buf first_buf last_buf from read_buf into num_bytes =
      let p : ℕ = f.seek_position in
      let n : ℕ = amount f.hdr num_bytes p in
      let (d', wrote, puts) = write_at-Puts f.hdr w d buf first_buf last_buf from num_bytes p in
      let (into', has_read, gets) = read_at-Gets f.hdr w d' read_buf 0 into num_bytes p in
      let moved : OpenFile = record f { seek_position = p + n } in
      (
        d',
        into',
        moved,
        moved,
        rw wrote refl,
        rw has_read refl,
        λ j below.
            let inside : p + (j - 0) < f.hdr.num_bytes = ground arith in
            let place : p + (j - 0) - p ≡ j = omega arith in
            gets j ∙ ground (arith, puts.bytes (p + (j - 0)) inside, ap from place),
        puts,
      )

-- The sector that an entry names.
abbrev pub sector_number : Option ℤ → ℕ
sector_number (some (pos s)) = s
sector_number other = 0

module _ (h : FileHeader) (m : BitMap) (hi : ℕ) (owns : Owns h m 0 hi)
    (size : m.num_bits ≡ num_sectors_on_disk)
    (blocks : (b : ℕ) → b * sector_size < h.num_bytes → b < hi) where
  abbrev entry : ℕ → ℕ
  entry b = sector_number (get_elem? h.data_sectors b)

  entry_named : (b : ℕ) → b < hi → Names h b (entry b) × (entry b < num_sectors_on_disk)
  entry_named b below =
      let (s, name, inside, marked) = owns.named b (omega arith) below in
      let same : entry b ≡ s = ap sector_number name in
      (name ∙ ap (λ (t : ℕ). some (pos t)) (sym same), omega arith)

  same_entry : (b c : ℕ) → b < hi → c < hi → entry b ≡ entry c → ¬ (b < c)
  same_entry b c p q e before =
      let (name, inside) = entry_named b p in
      let (name', inside') = entry_named c q in
      owns.distinct b c (entry b) (omega arith) before q name
        (name' ∙ ap (λ (t : ℕ). some (pos t)) (sym e))

  -- A header whose entries own their sectors in the disk's map is fit for reading and writing.
  pub Owns-LaidOut : LaidOut h
  unfolding byte_to_sector
  Owns-LaidOut = record {
    sectors = entry;
    named = λ b p.
        let block : b * sector_size / sector_size ≡ b = omega arith in
        let (name, inside) = entry_named b (blocks b p) in rw block (rw name refl);
    on_disk = λ b p. let (name, inside) = entry_named b (blocks b p) in inside;
    distinct = λ b c p q e.
        let not_before = same_entry b c (blocks b p) (blocks c q) e in
        let not_after = same_entry c b (blocks c q) (blocks b p) (sym e) in ground arith;
  }
