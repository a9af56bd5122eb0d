-- ===== src/Memory/Bytes.antt =====
-- The accesses to mainMemory of ReadMem and WriteMem in Project 2/code/machine/translate.cc.
use tree_fiddy.Prelude.{
  ℕ, ◌+◌, ◌*◌, ◌/◌, ◌%◌, ◌^◌, ◌<◌, ◌≤◌, ◌≡◌, refl, ◌⊎◌, inl, inr, arith, ◌==◌, if◌then◌else◌,
}
use tree_fiddy.Prelude.Outcome.{ok}
use tree_fiddy.Memory.{store, load, sign_extend}

-- The sizes that the machine's instructions use.
abbrev pub IsSize : ℕ → Type 0
IsSize size = (size ≡ 1) ⊎ (size ≡ 2) ⊎ (size ≡ 4)

-- What a read of that size gives back of a value written.
abbrev pub kept : ℕ → ℕ → ℕ
kept size value = if size == 1 then sign_extend (value % 256) else value % 2 ^ (8 * size)

-- Storing a value at a size, and what it leaves.
abbrev pub Stores : ℕ → ℕ → ℕ → (ℕ → ℕ) → Type 0
Stores size pa value mem =
    (mem' : ℕ → ℕ) × (store size pa value mem ≡ ok mem')
    × (load size pa mem' ≡ ok (kept size value))
    × ((j : ℕ) → (j < pa) ⊎ (pa + size ≤ j) → mem' j ≡ mem j)

store_byte : (pa value : ℕ) (mem : ℕ → ℕ) → Stores 1 pa value mem
unfolding store load
store_byte pa value mem =
    (λ j. if j == pa then value % 256 else mem j, refl, ground arith, λ j out. ground arith)

store_half : (pa value : ℕ) (mem : ℕ → ℕ) → Stores 2 pa value mem
unfolding store load
store_half pa value mem = (
  λ j. if j == pa then value % 256 else if j == pa + 1 then value / 256 % 256 else mem j,
  refl,
  ground arith,
  λ j out. ground arith,
)

store_word : (pa value : ℕ) (mem : ℕ → ℕ) → Stores 4 pa value mem
unfolding store load
store_word pa value mem = (
  λ j.
      if j == pa
      then value % 256
      else if j == pa + 1
      then value / 256 % 256
      else if j == pa + 2
      then value / 65536 % 256
      else if j == pa + 3
      then value / 16777216 % 256
      else mem j,
  refl,
  ground arith,
  λ j out. ground arith,
)

pub store-Stores : (size pa value : ℕ) (mem : ℕ → ℕ) → IsSize size → Stores size pa value mem
store-Stores size pa value mem (inl e) = rw e (store_byte pa value mem)
store-Stores size pa value mem (inr (inl e)) = rw e (store_half pa value mem)
store-Stores size pa value mem (inr (inr e)) = rw e (store_word pa value mem)
