-- ===== src/Examples/Latency.antt =====
-- The latency of Project 2/code/machine/disk.cc for one request.
use tree_fiddy.Prelude.{ℕ, ◌+◌, ◌*◌, ◌≤◌, ◌<◌, ◌≡◌, refl, true, false, arith}
use tree_fiddy.Prelude.Int.{pos}
use tree_fiddy.Prelude.Outcome.{ok}
use tree_fiddy.Disk.{Disk, seek_time, rotation_time, time_to_seek, compute_latency}
use tree_fiddy.Disk.Latency.{Starts, write_first_turn, compute_latency-bounds}

-- The head was last over sector 35, on track 1.
abbrev turning : Disk
turning = record { last_sector = 35; buffer_init = pos 1000; total_ticks = 7321 }

write_first_turn_example :
    (latency t : ℕ) × (compute_latency turning 70 true ≡ ok latency)
    × (turning.total_ticks + latency ≡ t + rotation_time)
    × Starts turning 70 t
    × ((t' : ℕ) → Starts turning 70 t' → t ≤ t')
unfolding time_to_seek
write_first_turn_example = write_first_turn turning 70 (omega arith) (omega arith) (ground arith)

-- A read from the track that the head is on.
compute_latency-bounds_example :
    (latency : ℕ) × (compute_latency turning 40 false ≡ ok latency)
    × (rotation_time ≤ latency)
    × (latency < 31 * seek_time + 33 * rotation_time)
unfolding time_to_seek
compute_latency-bounds_example =
    compute_latency-bounds turning 40 1000 false (omega arith) (omega arith) (ground arith) refl
      (omega arith)
