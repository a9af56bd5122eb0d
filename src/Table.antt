-- ===== src/Table.antt =====
-- Class Table of Project 2/code/userprog/table.h and addrspace.cc: numbered slots, the free ones kept
-- in a bit map. A stored pointer is a value of A, a null pointer is `none`. Its lock is held across
-- one call that never sleeps, so the calls of Acquire and Release are left out.
pub mod Laws
use tree_fiddy.Prelude.{
  ℕ, ◌&&◌, Bool, Option, none, some, List, ltb, if◌then◌else◌, get_or, set, replicate,
}
use tree_fiddy.Prelude.Int.{ℤ, pos, negsuc}
use tree_fiddy.Prelude.Outcome.{Outcome, ok, ◌>>=◌}
use tree_fiddy.BitMap
use tree_fiddy.BitMap.{BitMap}

pub record Table {ℓ} (A : Type ℓ) : Type ℓ where
  pub map : BitMap
  pub table : List (Option A)
  pub size : ℕ

module _ {ℓ} {A : Type ℓ} where
  -- The slots that `new void *[size]` returns hold anything: `junk`.
  pub new_table : ℕ → (ℕ → ℕ) → List (Option A) → Outcome (Table A)
  new_table s bits junk = do
    m ← BitMap.new_bit_map s bits
    ok (record { map = m; table = junk; size = s })

  pub get : Table A → ℤ → Outcome (Option A)
  get t (negsuc n) = ok none
  get t (pos i) =
      let read : Outcome (Option A) = (do
        used ← BitMap.test t.map (pos i)
        ok (if used then get_or t.table i none else none)) in
      if ltb i t.size then read else ok none

  -- The slot found, or -1 as `none`.
  put_at : Table A → Option A → Option ℕ × BitMap → Outcome (Option ℕ × Table A)
  put_at t f (none, m) = ok (none, record t { map = m })
  put_at t f (some i, m) = ok (some i, record t { map = m; table = set t.table i f })

  pub put : Table A → Option A → Outcome (Option ℕ × Table A)
  unfolding put_at
  put t f = BitMap.find t.map >>= put_at t f

  remove_at : Table A → ℕ → Outcome (Option A × Table A)
  remove_at t i = do
    m ← BitMap.clear t.map (pos i)
    ok (get_or t.table i none, record t { map = m; table = set t.table i none })

  pub remove : Table A → ℤ → Outcome (Option A × Table A)
  unfolding remove_at
  remove t (negsuc n) = ok (none, t)
  remove t (pos i) =
      let taken : Outcome (Option A × Table A) = (do
        used ← BitMap.test t.map (pos i)
        if used then remove_at t i else ok (none, t)) in
      if ltb i t.size then taken else ok (none, t)
