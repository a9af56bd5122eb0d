-- ===== src/Disk.antt =====
-- The time that a request takes on the disk of Project 2/code/machine/disk.cc. Sectors are natural numbers.
-- totalTicks has 64 bits, and the int timeAfter and the int bufferInit take its sums modulo 2 ^ 32, with a
-- sign. A difference of two ints that is not an int is a fault: C leaves it undefined. Reading and writing
-- the file that stands for the disk, and the interrupt at the end of a request, are left out.
pub mod Latency
use tree_fiddy.Prelude.{
  ℕ, suc, ◌+◌, ◌-◌, ◌*◌, ◌/◌, ◌%◌, ◌^◌, Bool, false, not, ◌&&◌, ltb, ◌==◌, if◌then◌else◌,
}
use tree_fiddy.Prelude.Int.{ℤ, pos, negsuc, pos_part, neg_part, sub_ℕ, ◌-ℤ◌, ltb_ℤ}
use tree_fiddy.Prelude.Outcome.{Outcome, ok, fault, ◌>>=◌}
use tree_fiddy.Alu.Signed.{signed}

abbrev pub sectors_per_track : ℕ
sectors_per_track = 32

abbrev pub num_sectors_on_disk : ℕ
num_sectors_on_disk = 1024

abbrev pub seek_time : ℕ
seek_time = 500

abbrev pub rotation_time : ℕ
rotation_time = 500

pub record Disk : Type 0 where
  pub last_sector : ℕ
  pub buffer_init : ℤ
  pub total_ticks : ℕ  -- stats->totalTicks

-- Disk::TimeToSeek: the time to seek, and the time to the next sector boundary after it.
unfoldable pub time_to_seek : Disk → ℕ → ℕ × ℕ
time_to_seek d new_sector =
    let new_track : ℕ = new_sector / sectors_per_track in
    let old_track : ℕ = d.last_sector / sectors_per_track in
    let seek : ℕ = ((new_track - old_track) + (old_track - new_track)) * seek_time in
    let over : ℕ = (d.total_ticks + seek) % rotation_time in
    (seek, if ltb 0 over then rotation_time - over else 0)

-- A number of 64 bits assigned to an int.
abbrev pub to_int : ℕ → ℤ
to_int n = signed (n % 2 ^ 32)

-- The operators / and % on an int: towards 0, with the sign of the dividend.
abbrev pub div_int : ℤ → ℕ → ℤ
div_int (pos a) b = pos (a / b)
div_int (negsuc a) b = sub_ℕ 0 (suc a / b)

abbrev pub rem_int : ℤ → ℕ → ℤ
rem_int (pos a) b = pos (a % b)
rem_int (negsuc a) b = sub_ℕ 0 (suc a % b)

abbrev pub is_int : ℤ → Bool
is_int (pos n) = ltb n (2 ^ 31)
is_int (negsuc n) = ltb n (2 ^ 31)

-- Disk::ModuloDiff
unfoldable pub modulo_diff : ℕ → ℤ → ℕ
modulo_diff to from =
    let to_offset : ℕ = to % sectors_per_track in
    let from_offset : ℤ = rem_int from sectors_per_track in
    (to_offset + neg_part from_offset + sectors_per_track - pos_part from_offset)
    % sectors_per_track

-- The last test whether the track buffer has the sector.
unfoldable pub buffer_passed : ℤ → ℕ → ℤ → Outcome Bool
unfolding modulo_diff
buffer_passed buffer_init new_sector time_after =
    let since : ℤ = time_after -ℤ buffer_init in
    let diff : ℕ = modulo_diff new_sector (div_int buffer_init rotation_time) in
    if is_int since then ok (ltb_ℤ (pos diff) (div_int since rotation_time)) else fault

unfoldable pub in_buffer : Disk → ℕ → Bool → ℕ → ℤ → Outcome Bool
unfolding buffer_passed
in_buffer d new_sector writing seek time_after =
    if not writing && seek == 0 then buffer_passed d.buffer_init new_sector time_after else ok false

-- Disk::ComputeLatency
unfoldable pub compute_latency : Disk → ℕ → Bool → Outcome ℕ
unfolding time_to_seek modulo_diff in_buffer
compute_latency d new_sector writing = do
  let (seek, rotation) = time_to_seek d new_sector
  let time_after : ℤ = to_int (d.total_ticks + seek + rotation)
  let turn : ℕ = modulo_diff new_sector (div_int time_after rotation_time) * rotation_time
  hit ← in_buffer d new_sector writing seek time_after
  ok (if hit then rotation_time else seek + (rotation + turn) + rotation_time)

-- Disk::UpdateLast
unfoldable pub update_last : Disk → ℕ → Disk
unfolding time_to_seek
update_last d new_sector =
    let (seek, rotate) = time_to_seek d new_sector in
    record d {
      buffer_init = if seek == 0 then d.buffer_init else to_int (d.total_ticks + seek + rotate);
      last_sector = new_sector;
    }
