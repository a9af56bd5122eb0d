-- ===== src/OpenFile/Writing.antt =====
-- OpenFile::WriteAt of Project 2/code/filesys/openfile.cc.
use tree_fiddy.Prelude.{
  ℕ, ◌+◌, ◌-◌, ◌*◌, ◌≤◌, ◌<◌, ◌≡◌, ◌≢◌, refl, ap, ◌∙◌, Bool, true, false, not, ◌&&◌, ◌||◌,
  if◌then◌else◌, ltb, ◌==◌, arith, Bool-cases, inl, inr,
}
use tree_fiddy.Prelude.Outcome.{ok}
use tree_fiddy.FileHeader.{FileHeader, sector_size}
use tree_fiddy.OpenFile.{
  Buffer, Storage, copy, cut_off, is_empty_request, read_if, write_inside, write_at,
  first_sector_of, last_sector_of,
}
use tree_fiddy.OpenFile.Sectors.{LaidOut, byte_of, between, write_loop_lem}
use tree_fiddy.OpenFile.Reading.{amount, read_at-Gets}

-- The bytes from a position on are those of a buffer, and all others of the file, and all sectors of
-- other files, are as before.
pub record Puts {h : FileHeader} (w : LaidOut h) (n position : ℕ) (from : Buffer) (d d' : Storage)
    : Type 0 where
  pub bytes :
      (o : ℕ)
      → o < h.num_bytes
      → byte_of w d' o
        ≡ (if between position (position + n) o then from (o - position) else byte_of w d o)
  pub others : (s : ℕ) → ((b : ℕ) → b * sector_size < h.num_bytes → w.sectors b ≢ s) → d' s ≡ d s

module _ (h : FileHeader) (w : LaidOut h) (d : Storage) where
  -- ReadAt of a sector, where it is asked for, gives the file's bytes of that sector.
  read_if_lem :
      (needed : Bool) (buf : Buffer) (at : ℕ) (into : Buffer) (sector : ℕ)
      → (into' : Buffer) × (read_if needed h d buf at into sector ≡ ok into')
        × ((j : ℕ)
            → into' j ≡ (
                if needed && between at (at + amount h sector_size (sector * sector_size)) j
                then byte_of w d (sector * sector_size + (j - at))
                else into j))
  unfolding read_if
  read_if_lem true buf at into sector =
      let (into', e, gets) = read_at-Gets h w d buf at into sector_size (sector * sector_size) in
      (into', rw e refl, gets)
  read_if_lem false buf at into sector = (into, refl, λ j. refl)

  module _ (n position : ℕ) (some_byte : 0 < n) (inside : position + n ≤ h.num_bytes) where
    abbrev first : ℕ
    first = first_sector_of position

    abbrev last : ℕ
    last = last_sector_of n position

    -- The first call of ReadAt brings in the byte at o, and the second one.
    abbrev in_first : ℕ → Bool
    in_first o =
        not (position == first * sector_size)
        && between 0 (0 + amount h sector_size (first * sector_size)) (o - first * sector_size)

    abbrev in_last : ℕ → Bool
    in_last o =
        (not (position + n == (last + 1) * sector_size)
          && (not (first == last) || position == first * sector_size))
        && between ((last - first) * sector_size)
            ((last - first) * sector_size + amount h sector_size (last * sector_size))
            (o - first * sector_size)

    -- A byte of the sectors that WriteAt does not change is brought in.
    brought_in :
        (o : ℕ)
        → o < h.num_bytes
        → first * sector_size ≤ o
        → o < (last + 1) * sector_size
        → between position (position + n) o ≡ false
        → in_last o ≡ false
        → in_first o ≡ true
    brought_in o below lo hi out missed = elim (Bool-cases (ltb o position)) [
      | inl before ↦
          let unaligned : (position == first * sector_size) ≡ false = ground arith in
          let room : o - first * sector_size < amount h sector_size (first * sector_size) =
            ground arith in
          ground arith
      | inr not_before ↦
          let after : position + n ≤ o = ground arith in
          let short : (position + n == (last + 1) * sector_size) ≡ false = ground arith in
          let lo' : (last - first) * sector_size ≤ o - first * sector_size = omega arith in
          let hi' : o - first * sector_size
              < (last - first) * sector_size + amount h sector_size (last * sector_size) =
            ground arith in
          let within : between ((last - first) * sector_size)
                ((last - first) * sector_size + amount h sector_size (last * sector_size))
                (o - first * sector_size)
              ≡ true =
            ground arith in
          let one_sector : first ≡ last = ground arith in
          let unaligned : (position == first * sector_size) ≡ false = ground arith in
          let room : o - first * sector_size < amount h sector_size (first * sector_size) =
            ground arith in
          ground arith
    ]

    -- After both calls the buffer has the file's byte.
    kept_byte :
        (b b' buf : Buffer) (o : ℕ)
        → o < h.num_bytes
        → first * sector_size ≤ o
        → o < (last + 1) * sector_size
        → between position (position + n) o ≡ false
        → b (o - first * sector_size) ≡ (
            if in_first o
            then byte_of w d (first * sector_size + (o - first * sector_size - 0))
            else buf (o - first * sector_size))
        → b' (o - first * sector_size) ≡ (
            if in_last o
            then byte_of w d
                (last * sector_size + (o - first * sector_size - (last - first) * sector_size))
            else b (o - first * sector_size))
        → b' (o - first * sector_size) ≡ byte_of w d o
    kept_byte b b' buf o below lo hi out e e' = elim (Bool-cases (in_last o)) [
      | inl second ↦
          let from : (last - first) * sector_size ≤ o - first * sector_size = ground arith in
          let place : last * sector_size + (o - first * sector_size - (last - first) * sector_size)
              ≡ o =
            omega arith in
          ground (arith, ap (byte_of w d) place)
      | inr missed ↦
          let found = brought_in o below lo hi out missed in
          let place : first * sector_size + (o - first * sector_size - 0) ≡ o = omega arith in
          ground (arith, ap (byte_of w d) place)
    ]

    copied_byte :
        (b from : Buffer) (o : ℕ)
        → (first * sector_size ≤ o
            → o < (last + 1) * sector_size
            → between position (position + n) o ≡ false
            → b (o - first * sector_size) ≡ byte_of w d o)
        → (if between (first * sector_size) ((first + (1 + last - first)) * sector_size) o
            then copy n from (position - first * sector_size) b (o - first * sector_size)
            else byte_of w d o)
          ≡ (if between position (position + n) o then from (o - position) else byte_of w d o)
    unfolding copy
    copied_byte b from o kept = elim (Bool-cases (between position (position + n) o)) [
      | inl within ↦
          let lo : position ≤ o = ground arith in
          let hi : o < position + n = ground arith in
          let in_sectors : between (first * sector_size)
                ((first + (1 + last - first)) * sector_size) o
              ≡ true =
            ground arith in
          let in_copy : between (position - first * sector_size)
                (position - first * sector_size + n) (o - first * sector_size)
              ≡ true =
            ground arith in
          let place : o - first * sector_size - (position - first * sector_size) ≡ o - position =
            omega arith in
          rw in_sectors (rw in_copy (rw within (ap from place)))
      | inr without ↦
          elim (Bool-cases
            (between (first * sector_size) ((first + (1 + last - first)) * sector_size) o)) [
              | inl in_sectors ↦
                  let lo : first * sector_size ≤ o = ground arith in
                  let hi : o < (last + 1) * sector_size = ground arith in
                  let same = kept lo hi without in
                  let not_copied : between (position - first * sector_size)
                        (position - first * sector_size + n) (o - first * sector_size)
                      ≡ false =
                    ground arith in
                  rw in_sectors (rw not_copied (rw without same))
              | inr beyond ↦ rw beyond (rw without refl)
            ]
    ]

    pub write_inside-Puts :
        (buf first_buf last_buf from : Buffer)
        → (d' : Storage) × (write_inside n position h d buf first_buf last_buf from ≡ ok (n, d'))
          × Puts w n position from d d'
    unfolding write_inside copy
    write_inside-Puts buf first_buf last_buf from =
        let (b, e, bytes) =
          read_if_lem (not (position == first * sector_size)) first_buf 0 buf first in
        let (b', e', bytes') =
          read_if_lem
            (not (position + n == (last + 1) * sector_size)
              && (not (first == last) || position == first * sector_size))
            last_buf ((last - first) * sector_size) b last in
        let whole : Buffer = copy n from (position - first * sector_size) b' in
        let (d', e'', written, others) =
          write_loop_lem h w first (1 + last - first) first d whole (omega arith) (omega arith) in
        (
          d',
          rw e (rw e' (rw e'' refl)),
          record {
            bytes = λ o p.
                written o p
                ∙ copied_byte b' from o (λ lo hi out.
                  kept_byte b b' buf o p lo hi out (bytes (o - first * sector_size))
                    (bytes' (o - first * sector_size)));
            others = others;
          },
        )

  -- WriteAt answers with the number of bytes asked for, cut off at the end of the file, and puts so many.
  pub write_at-Puts :
      (buf first_buf last_buf from : Buffer) (num_bytes position : ℕ)
      → (d' : Storage) × (write_at h d buf first_buf last_buf from num_bytes position
          ≡ ok (amount h num_bytes position, d'))
        × Puts w (amount h num_bytes position) position from d d'
  unfolding write_at
  write_at-Puts buf first_buf last_buf from num_bytes position =
      elim (Bool-cases (is_empty_request h num_bytes position)) [
        | inl nothing ↦
            let zero_bytes : amount h num_bytes position ≡ 0 = ground arith in
            (
              d,
              rw nothing (rw zero_bytes refl),
              record { bytes = λ o p. rw zero_bytes (ground arith); others = λ s p. refl },
            )
        | inr asked ↦
            let cut : cut_off h num_bytes position ≡ amount h num_bytes position = ground arith in
            let n_positive : 0 < amount h num_bytes position = ground arith in
            let inside : position + amount h num_bytes position ≤ h.num_bytes = ground arith in
            rw asked (
              rw cut (
                write_inside-Puts (amount h num_bytes position) position n_positive inside buf
                  first_buf last_buf from))
      ]
