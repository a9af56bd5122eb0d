-- ===== src/OpenFile/Reading.antt =====
-- OpenFile::ReadAt of Project 2/code/filesys/openfile.cc.
use tree_fiddy.Prelude.{
  ℕ, ◌+◌, ◌-◌, ◌*◌, ◌≤◌, ◌<◌, ◌≡◌, refl, ap, if◌then◌else◌, leb, arith, Bool-cases, inl, inr,
}
use tree_fiddy.Prelude.Outcome.{ok}
use tree_fiddy.FileHeader.{FileHeader, sector_size}
use tree_fiddy.OpenFile.{
  Buffer, Storage, copy, from_offset, cut_off, is_empty_request, read_inside, read_at,
  first_sector_of, last_sector_of,
}
use tree_fiddy.OpenFile.Sectors.{LaidOut, byte_of, between, read_loop_lem}

-- How many of the bytes asked for the file has from a position on.
abbrev pub amount : FileHeader → ℕ → ℕ → ℕ
amount h num_bytes position =
    if leb num_bytes (h.num_bytes - position) then num_bytes else h.num_bytes - position

-- The buffer gets n bytes of the file, from a position on, at `at`.
abbrev pub Gets :
    {h : FileHeader} → LaidOut h → Storage → (n position at : ℕ) → Buffer → Buffer → Type 0
Gets w d n position at into into' =
    (j : ℕ)
    → into' j ≡ (if between at (at + n) j then byte_of w d (position + (j - at)) else into j)

module _ (h : FileHeader) (w : LaidOut h) (d : Storage) (buf : Buffer) (at : ℕ)
    (into : Buffer) where
  abbrev first_part : ℕ → Buffer → Buffer
  first_part position whole = from_offset (position - first_sector_of position * sector_size) whole

  copy-Gets :
      (n position : ℕ) (whole : Buffer)
      → 0 < n
      → ((j : ℕ)
          → whole j ≡ (
              if between
                ((first_sector_of position - first_sector_of position) * sector_size)
                ((first_sector_of position
                    - first_sector_of position
                    + (1 + last_sector_of n position - first_sector_of position))
                  * sector_size)
                j
              then byte_of w d (first_sector_of position * sector_size + j)
              else buf j))
      → Gets w d n position at into (copy n (first_part position whole) at into)
  unfolding copy
  copy-Gets n position whole some_byte bytes j = elim (Bool-cases (between at (at + n) j)) [
    | inl within ↦
        let lo : at ≤ j = ground arith in
        let hi : j < at + n = ground arith in
        let k : ℕ = position - first_sector_of position * sector_size + (j - at) in
        let place : first_sector_of position * sector_size + k ≡ position + (j - at) =
          omega arith in
        let below : k
            < (first_sector_of position
                - first_sector_of position
                + (1 + last_sector_of n position - first_sector_of position))
              * sector_size =
          omega arith in
        let above : (first_sector_of position - first_sector_of position) * sector_size ≤ k =
          omega arith in
        let read = bytes k in rw within (ground (arith, ap (byte_of w d) place))
    | inr without ↦ rw without refl
  ]

  read_inside-Gets :
      (n position : ℕ)
      → 0 < n
      → position + n ≤ h.num_bytes
      → (into' : Buffer) × (read_inside n position h d buf at into ≡ ok (n, into'))
        × Gets w d n position at into into'
  unfolding read_inside
  read_inside-Gets n position some_byte inside =
      let first : ℕ = first_sector_of position in
      let last : ℕ = last_sector_of n position in
      let (whole, e, bytes) =
        read_loop_lem h w first (1 + last - first) first d buf (omega arith) (omega arith) in
      (
        copy n (first_part position whole) at into,
        rw e refl,
        copy-Gets n position whole some_byte bytes,
      )

  pub read_at-Gets :
      (num_bytes position : ℕ)
      → (into' : Buffer) × (read_at h d buf at into num_bytes position
          ≡ ok (amount h num_bytes position, into'))
        × Gets w d (amount h num_bytes position) position at into into'
  unfolding read_at
  read_at-Gets num_bytes position = elim (Bool-cases (is_empty_request h num_bytes position)) [
    | inl nothing ↦
        let zero_bytes : amount h num_bytes position ≡ 0 = ground arith in
        (into, rw nothing (rw zero_bytes refl), λ j. rw zero_bytes (ground arith))
    | inr asked ↦
        let cut : cut_off h num_bytes position ≡ amount h num_bytes position = ground arith in
        let n_positive : 0 < amount h num_bytes position = ground arith in
        let inside : position + amount h num_bytes position ≤ h.num_bytes = ground arith in
        rw asked
          (rw cut (read_inside-Gets (amount h num_bytes position) position n_positive inside))
  ]
