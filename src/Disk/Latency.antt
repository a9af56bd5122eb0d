-- ===== src/Disk/Latency.antt =====
-- What the latency of Disk::ComputeLatency in Project 2/code/machine/disk.cc means, as long as the time
-- after the seek is below 2 ^ 31.
use tree_fiddy.Prelude.{
  ℕ, ◌+◌, ◌*◌, ◌/◌, ◌%◌, ◌^◌, ◌≤◌, ◌<◌, ◌≡◌, ◌≢◌, refl, ◌∙◌, ap, ◌⊎◌, inl, inr, Bool, Bool-cases,
  true, false, not, ◌&&◌, ◌==◌, if◌then◌else◌, arith,
}
use tree_fiddy.Prelude.Int.{ℤ, pos, ◌-ℤ◌}
use tree_fiddy.Prelude.Outcome.{ok, fault}
use tree_fiddy.Disk.{
  Disk, sectors_per_track, num_sectors_on_disk, seek_time, rotation_time, time_to_seek, to_int,
  is_int, modulo_diff, buffer_passed, in_buffer, compute_latency, update_last,
}

-- A time at which the sector begins to pass the head, not before the seek is over.
pub record Starts (d : Disk) (s t : ℕ) : Type 0 where
  pub after_seek : d.total_ticks + (time_to_seek d s).0 ≤ t
  pub boundary : t % rotation_time ≡ 0
  pub under_head : t / rotation_time % sectors_per_track ≡ s % sectors_per_track

-- The head's turn from block b to the next block that the sector is at.
modulo_diff-turn :
    (s b : ℕ) → (b + modulo_diff s (pos b)) % sectors_per_track ≡ s % sectors_per_track
unfolding modulo_diff
modulo_diff-turn s b = omega arith

modulo_diff_first :
    (s b b' : ℕ)
    → b ≤ b'
    → b' % sectors_per_track ≡ s % sectors_per_track
    → b + modulo_diff s (pos b) ≤ b'
unfolding modulo_diff
modulo_diff_first s b b' h at = omega arith

modulo_diff_bound : (s : ℕ) (b : ℤ) → modulo_diff s b < sectors_per_track
unfolding modulo_diff
modulo_diff_bound s b = omega arith

if_ok : (c r : Bool) → c ≡ true → (r' : Bool) × ((if c then ok r else fault) ≡ ok r')
if_ok true r e = (r, refl)
if_ok false r e = absurd (ground arith)

-- The difference of two numbers below 2 ^ 31 is an int.
buffer_passed-ok :
    (s a b : ℕ) → a < 2 ^ 31 → b < 2 ^ 31 → (r : Bool) × (buffer_passed (pos b) s (pos a) ≡ ok r)
unfolding buffer_passed ◌-ℤ◌
buffer_passed-ok s a b p q =
    let within : is_int (pos a -ℤ pos b) ≡ true = ground arith in if_ok _ _ within

module _ (d : Disk) (s : ℕ) where
  abbrev seek : ℕ
  seek = (time_to_seek d s).0

  abbrev rotation : ℕ
  rotation = (time_to_seek d s).1

  -- The first sector boundary after the seek.
  abbrev pub arrival : ℕ
  arrival = d.total_ticks + seek + rotation

  arrival_boundary : arrival % rotation_time ≡ 0
  unfolding time_to_seek
  arrival_boundary = ground arith

  rotation_bound : rotation < rotation_time
  unfolding time_to_seek
  rotation_bound = ground arith

  arrival_first : (t : ℕ) → d.total_ticks + seek ≤ t → t % rotation_time ≡ 0 → arrival ≤ t
  arrival_first t late boundary =
      let at = arrival_boundary in let small = rotation_bound in omega arith

  seek_bound : s < num_sectors_on_disk → d.last_sector < num_sectors_on_disk → seek ≤ 31 * seek_time
  unfolding time_to_seek
  seek_bound on_disk last = omega arith

  turn_latency : ℕ
  turn_latency =
      seek
      + (rotation + modulo_diff s (pos (arrival / rotation_time)) * rotation_time)
      + rotation_time

  module _ (fits : arrival < 2 ^ 31) where
    kept_int : to_int arrival ≡ pos arrival
    kept_int = ground arith

    hit_latency :
        (writing hit : Bool)
        → in_buffer d s writing seek (pos arrival) ≡ ok hit
        → (compute_latency d s writing ≡ ok rotation_time)
          ⊎ (compute_latency d s writing ≡ ok turn_latency)
    unfolding compute_latency turn_latency
    hit_latency writing true e = inl (rw kept_int (rw e refl))
    hit_latency writing false e = inr (rw kept_int (rw e refl))

    write_latency : compute_latency d s true ≡ ok turn_latency
    unfolding compute_latency in_buffer turn_latency
    write_latency = rw kept_int refl

    in_buffer-ok :
        (writing : Bool) (b : ℕ)
        → d.buffer_init ≡ pos b
        → b < 2 ^ 31
        → (hit : Bool) × (in_buffer d s writing seek (pos arrival) ≡ ok hit)
    unfolding in_buffer
    in_buffer-ok writing b init small = elim (Bool-cases (not writing && seek == 0)) [
      | inl asks ↦
          let (hit, e) = buffer_passed-ok s arrival b fits small in
          (hit, rw asks (ap (λ z. buffer_passed z s (pos arrival)) init ∙ e))
      | inr skips ↦ (false, rw skips refl)
    ]

-- On a disk's sector, and as long as the first sector boundary after the seek is below 2 ^ 31, a write
-- ends one sector's turn after the first time at which its sector begins to pass the head.
pub write_first_turn :
    (d : Disk) (s : ℕ)
    → s < num_sectors_on_disk
    → d.last_sector < num_sectors_on_disk
    → arrival d s < 2 ^ 31
    → (latency t : ℕ) × (compute_latency d s true ≡ ok latency)
      × (d.total_ticks + latency ≡ t + rotation_time)
      × Starts d s t
      × ((t' : ℕ) → Starts d s t' → t ≤ t')
unfolding turn_latency
write_first_turn d s on_disk last fits =
    let b : ℕ = arrival d s / rotation_time in
    let at = arrival_boundary d s in
    let turned = modulo_diff-turn s b in
    let block : (arrival d s + modulo_diff s (pos b) * rotation_time) / rotation_time
        ≡ b + modulo_diff s (pos b) =
      omega arith in
    (
      turn_latency d s,
      arrival d s + modulo_diff s (pos b) * rotation_time,
      write_latency d s fits,
      omega arith,
      record { after_seek = omega arith; boundary = omega arith; under_head = rw block turned },
      λ t' starts.
          let late = arrival_first d s t' starts.after_seek starts.boundary in
          let turn = modulo_diff_first s b (t' / rotation_time) (omega arith) starts.under_head in
          let there = starts.boundary in omega arith,
    )

-- On a disk's sector, as long as the first sector boundary after the seek and the start of the track
-- buffer are not negative and below 2 ^ 31, a request takes at least one sector's turn, and less than 33
-- turns besides the seek, which takes at most 31 tracks.
pub compute_latency-bounds :
    (d : Disk) (s b : ℕ) (writing : Bool)
    → s < num_sectors_on_disk
    → d.last_sector < num_sectors_on_disk
    → arrival d s < 2 ^ 31
    → d.buffer_init ≡ pos b
    → b < 2 ^ 31
    → (latency : ℕ) × (compute_latency d s writing ≡ ok latency)
      × (rotation_time ≤ latency)
      × (latency < 31 * seek_time + 33 * rotation_time)
unfolding turn_latency
compute_latency-bounds d s b writing on_disk last fits init small =
    let sought = seek_bound d s on_disk last in
    let rotated = rotation_bound d s in
    let turned = modulo_diff_bound s (pos (arrival d s / rotation_time)) in
    let (hit, e) = in_buffer-ok d s fits writing b init small in
    elim (hit_latency d s fits writing hit e) [
      | inl e ↦ (rotation_time, e, omega arith, omega arith)
      | inr e ↦ (turn_latency d s, e, omega arith, omega arith)
    ]

module _ (d : Disk) (s : ℕ) where
  recorded : (update_last d s).last_sector ≡ s
  unfolding update_last
  recorded = refl

  init_kept :
      s / sectors_per_track ≡ d.last_sector / sectors_per_track
      → (update_last d s).buffer_init ≡ d.buffer_init
  unfolding update_last
  init_kept e = ground arith

  init_moved :
      s / sectors_per_track ≢ d.last_sector / sectors_per_track
      → (update_last d s).buffer_init ≡ to_int (arrival d s)
  unfolding update_last time_to_seek
  init_moved ne = ground arith

-- UpdateLast records the sector, and moves the start of the track buffer exactly when the head moves to
-- another track: then to the first sector boundary after the seek, while that is below 2 ^ 31.
pub update_last_lem :
    (d : Disk) (s : ℕ)
    → arrival d s < 2 ^ 31
    → ((update_last d s).last_sector ≡ s)
      × (s / sectors_per_track ≡ d.last_sector / sectors_per_track
          → (update_last d s).buffer_init ≡ d.buffer_init)
      × (s / sectors_per_track ≢ d.last_sector / sectors_per_track
          → (b : ℕ) × ((update_last d s).buffer_init ≡ pos b)
            × (b % rotation_time ≡ 0)
            × (d.total_ticks + (time_to_seek d s).0 ≤ b)
            × ((t : ℕ) → d.total_ticks + (time_to_seek d s).0 ≤ t → t % rotation_time ≡ 0 → b ≤ t))
update_last_lem d s fits = (
  recorded d s,
  λ e. init_kept d s e,
  λ ne. (
    arrival d s,
    init_moved d s ne ∙ kept_int d s fits,
    arrival_boundary d s,
    omega arith,
    λ t late there. arrival_first d s t late there,
  ),
)
