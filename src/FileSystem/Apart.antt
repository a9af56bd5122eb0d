-- ===== src/FileSystem/Apart.antt =====
-- Two files of the disk of Project 2/code/filesys/filesys.cc, opened and written by openfile.cc.
use tree_fiddy.Prelude.{
  ℕ, ◌+◌, ◌*◌, ◌/◌, ◌%◌, ◌<◌, ◌≡◌, refl, ap, subst, inl, inr, false, some, List, arith,
}
use tree_fiddy.Prelude.Int.{pos}
use tree_fiddy.Prelude.Outcome.{ok}
use tree_fiddy.BitMap.{BitMap}
use tree_fiddy.Disk.{num_sectors_on_disk}
use tree_fiddy.Directory.Laws.{lookup, same, find-lookup}
use tree_fiddy.FileHeader.{FileHeader, sector_size}
use tree_fiddy.FileHeader.Allocation.{Names}
use tree_fiddy.FileHeader.RoundTrip.{named_by}
use tree_fiddy.OpenFile.{OpenFile, Buffer, Storage, write, seek}
use tree_fiddy.OpenFile.Sectors.{LaidOut, byte_of}
use tree_fiddy.OpenFile.Reading.{amount}
use tree_fiddy.OpenFile.Writing.{Puts, write_at-Puts}
use tree_fiddy.FileSystem.{FileSystem, open_file}
use tree_fiddy.FileSystem.Consistent.{Holds, IsFile, IsConsistent}
use tree_fiddy.FileSystem.Whole.{IsFile-LaidOut}

LaidOut-Holds :
    (h : FileHeader) (m : BitMap) (s : ℕ) (file : IsFile h m s) (w : LaidOut h) (b : ℕ)
    → b * sector_size < h.num_bytes
    → (b < h.num_sectors) × Names h b (w.sectors b)
LaidOut-Holds h m s file w b below =
    let block : b * sector_size / sector_size ≡ b = omega arith in
    let name = named_by h (b * sector_size) (w.sectors b) (w.named b below) in
    (ground (arith, file.long_enough), subst (λ x. Names h x (w.sectors b)) block name)

open_file_lem :
    (name : List ℕ) (fs : FileSystem) (s : ℕ)
    → lookup fs.directory name ≡ some (pos s)
    → open_file name fs ≡ some (record { hdr = fs.headers s; seek_position = 0 })
unfolding open_file
open_file_lem name fs s there = rw (find-lookup fs.directory name) (rw there refl)

module _ (fs : FileSystem) (c : IsConsistent fs) (a b : List ℕ) (s t : ℕ)
    (there : lookup fs.directory a ≡ some (pos s)) (there' : lookup fs.directory b ≡ some (pos t))
    (differ : same a b ≡ false) (file : IsFile (fs.headers s) fs.free_map s)
    (file' : IsFile (fs.headers t) fs.free_map t) (w : LaidOut (fs.headers s))
    (w' : LaidOut (fs.headers t)) (n position : ℕ) (from : Buffer) (d d' : Storage)
    (puts : Puts w n position from d d') where
  spared :
      (u : ℕ)
      → ((j : ℕ) → j < (fs.headers s).num_sectors → ¬ (Names (fs.headers s) j u))
      → d' u ≡ d u
  spared u unnamed = puts.others u (λ x below e.
      let (inside, name) = LaidOut-Holds (fs.headers s) fs.free_map s file w x below in
      unnamed x inside (subst (Names (fs.headers s) x) e name))

  not_shared : (u : ℕ) → Holds (fs.headers t) t u → d' u ≡ d u
  not_shared u h =
      spared u (λ j below name. c.apart a b s t u there there' differ (inr (j, below, name)) h)

  same_bytes : (o : ℕ) → o < (fs.headers t).num_bytes → byte_of w' d' o ≡ byte_of w' d o
  same_bytes o below =
      let block : o / sector_size * sector_size < (fs.headers t).num_bytes = omega arith in
      let (inside, name) =
        LaidOut-Holds (fs.headers t) fs.free_map t file' w' (o / sector_size) block in
      ap (λ (x : Buffer). x (o % sector_size))
        (not_shared (w'.sectors (o / sector_size)) (inr (o / sector_size, inside, name)))

-- Two names of a disk in order that differ in their first nine bytes open two files fit for reading and
-- writing. A Write to the one, after any Seek, returns and changes no byte of the other file and neither
-- of the two sectors with their headers.
pub write_other_file :
    (fs : FileSystem) (a b : List ℕ) (s t : ℕ)
    → IsConsistent fs
    → fs.free_map.num_bits ≡ num_sectors_on_disk
    → lookup fs.directory a ≡ some (pos s)
    → lookup fs.directory b ≡ some (pos t)
    → same a b ≡ false
    → (f g : OpenFile) × (open_file a fs ≡ some f)
      × (open_file b fs ≡ some g)
      × (w : LaidOut g.hdr) × ((position num_bytes : ℕ) (d : Storage)
            (buf first_buf last_buf from : Buffer)
          → (n : ℕ) × (d' : Storage) × (f' : OpenFile) × (write
                (seek position f)
                d
                buf
                first_buf
                last_buf
                from
                num_bytes
              ≡ ok (n, d', f'))
            × ((o : ℕ) → o < g.hdr.num_bytes → byte_of w d' o ≡ byte_of w d o)
            × (d' s ≡ d s)
            × (d' t ≡ d t))
unfolding write
write_other_file fs a b s t c size there there' differ =
    let (s', e, whole) = c.whole a (pos s) there in
    let (t', e', whole') = c.whole b (pos t) there' in
    let same_s : s' ≡ s = ground arith in
    let same_t : t' ≡ t = ground arith in
    let file : IsFile (fs.headers s) fs.free_map s =
      subst (λ x. IsFile (fs.headers x) fs.free_map x) same_s whole in
    let file' : IsFile (fs.headers t) fs.free_map t =
      subst (λ x. IsFile (fs.headers x) fs.free_map x) same_t whole' in
    let w = IsFile-LaidOut (fs.headers s) fs.free_map s size file in
    let w' = IsFile-LaidOut (fs.headers t) fs.free_map t size file' in
    (
      record { hdr = fs.headers s; seek_position = 0 },
      record { hdr = fs.headers t; seek_position = 0 },
      open_file_lem a fs s there,
      open_file_lem b fs t there',
      w',
      λ position num_bytes d buf first_buf last_buf from.
          let (d', wrote, puts) =
            write_at-Puts (fs.headers s) w d buf first_buf last_buf from num_bytes position in
          let n : ℕ = amount (fs.headers s) num_bytes position in
          (
            n,
            d',
            record { hdr = fs.headers s; seek_position = position + n },
            rw wrote refl,
            same_bytes fs c a b s t there there' differ file file' w w' n position from d d' puts,
            spared fs c a b s t there there' differ file file' w w' n position from d d' puts s
                file.separate,
            not_shared fs c a b s t there there' differ file file' w w' n position from d d' puts t
                (inl refl),
          ),
    )
