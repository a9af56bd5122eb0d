-- ===== src/Memory/Total.antt =====
-- That Machine::ReadMem and WriteMem of Project 2/code/machine/translate.cc always come to a result.
use tree_fiddy.Prelude.{
  ℕ, zero, suc, ◌+◌, ◌*◌, ◌/◌, ◌%◌, ◌<◌, ◌≤◌, ◌≡◌, refl, ◌&&◌, inl, inr, true, false, Bool,
  Bool-cases, none, some, List, [], ◌∷◌, arith, length, leb, get_elem?, if◌then◌else◌,
}
use tree_fiddy.Prelude.Outcome.{Outcome, ok}
use tree_fiddy.Memory.{
  Machine, TranslationEntry, Found, address_error, read_only, bus_error, missing, at_index,
  Translation, refused, physical, done, raises, page_size, num_phys_pages, memory_size, misaligned,
  find_in, find_entry, page_entry, use_entry, translate, touch, load, stamp, read_at, write_at,
  read_mem, write_mem,
}
use tree_fiddy.Memory.RoundTrip.{aligned_fits}
use tree_fiddy.Memory.Bytes.{IsSize, store-Stores}

-- The machine has a TLB or a page table, not both, and the page table is as long as it says.
pub data HasPages (m : Machine) : Type 0 where
  has_table :
      (t : List TranslationEntry)
      → m.tlb ≡ none
      → m.page_table ≡ some t
      → m.page_table_size ≤ length t
      → HasPages m
  has_tlb : (t : List TranslationEntry) → m.tlb ≡ some t → m.page_table ≡ none → HasPages m

-- The result is not a fault.
abbrev pub Answers : {A : Type 0} → Outcome A → Type 0
Answers {A = A} o = (a : A) × (o ≡ ok a)

if-Answers :
    {A : Type 0} {x y : Outcome A} (b : Bool)
    → (b ≡ true → Answers x)
    → (b ≡ false → Answers y)
    → Answers (if b then x else y)
if-Answers true hit miss = hit refl
if-Answers false hit miss = miss refl

page_entry-Answers :
    (t : List TranslationEntry) (i vpn : ℕ)
    → i < length t
    → Answers (page_entry (get_elem? t i) vpn)
page_entry-Answers [] i vpn h = absurd (omega arith)
page_entry-Answers (e ∷ es) zero vpn h = (_, refl)
page_entry-Answers (e ∷ es) (suc i) vpn h = page_entry-Answers es i vpn (omega arith)

find_table-Answers :
    (t : List TranslationEntry) (size vpn : ℕ)
    → size ≤ length t
    → Answers (find_in none (some t) size vpn)
unfolding find_in
find_table-Answers t size vpn long = elim (Bool-cases (leb size vpn)) [
  | inl large ↦ (missing address_error, ground arith)
  | inr small ↦ let (f, found) = page_entry-Answers t vpn vpn (ground arith) in (f, ground arith)
]

find_entry-Answers : (m : Machine) (vpn : ℕ) → HasPages m → Answers (find_entry m vpn)
unfolding find_in
find_entry-Answers m vpn (has_table t none_tlb table long) =
    rw none_tlb (rw table (find_table-Answers t m.page_table_size vpn long))
find_entry-Answers m vpn (has_tlb t tlb none_table) = rw tlb (rw none_table (_, refl))

use_entry-Answers :
    (f : Found) (addr size : ℕ) (w : Bool) (m : Machine)
    → IsSize size
    → misaligned size addr ≡ false
    → Answers (use_entry f addr size w m)
unfolding use_entry
use_entry-Answers (missing x) addr size w m is h = (refused x, refl)
use_entry-Answers (at_index i e) addr size w m is h =
    let pa : ℕ = e.physical_page * page_size + addr % page_size in
    if-Answers (e.is_read_only && w) (λ q. (refused read_only, refl))
      (λ q.
        if-Answers (leb num_phys_pages e.physical_page) (λ q. (refused bus_error, refl))
          (λ frame.
            let fits = aligned_fits addr size is h in
            let inside : leb (pa + size) memory_size ≡ true = ground arith in
            (physical pa (touch i e w m), rw inside refl)))

pub translate-Answers :
    (addr size : ℕ) (w : Bool) (m : Machine)
    → HasPages m
    → IsSize size
    → Answers (translate addr size w m)
unfolding translate
translate-Answers addr size w m pages is =
    let (f, found) = find_entry-Answers m (addr / page_size) pages in
    if-Answers (misaligned size addr) (λ q. (refused address_error, refl))
      (λ aligned. rw found (use_entry-Answers f addr size w m is aligned))

pub load-Answers : (size pa : ℕ) (mem : ℕ → ℕ) → IsSize size → Answers (load size pa mem)
unfolding load
load-Answers size pa mem (inl e) = rw e (_, refl)
load-Answers size pa mem (inr (inl e)) = rw e (_, refl)
load-Answers size pa mem (inr (inr e)) = rw e (_, refl)

read_at-Answers : (t : Translation) (size : ℕ) → IsSize size → Answers (read_at t size)
unfolding read_at
read_at-Answers (refused x) size is = (raises x, refl)
read_at-Answers (physical pa m) size is =
    let (value, loads) = load-Answers size pa m.main_memory is in
    (done value (stamp pa m), rw loads refl)

write_at-Answers :
    (t : Translation) (size value : ℕ) → IsSize size → Answers (write_at t size value)
unfolding write_at
write_at-Answers (refused x) size value is = (raises x, refl)
write_at-Answers (physical pa m) size value is =
    let (mem, stored, loads, rest) = store-Stores size pa value m.main_memory is in
    (done tt (stamp pa (record m { main_memory = mem })), rw stored refl)

-- On a machine with a page table that is as long as its size says, or with a TLB, no read or write of
-- 1, 2 or 4 bytes ends in a failed ASSERT or outside an array: it is done or raises an exception.
pub access-Answers :
    (addr size value : ℕ) (m : Machine)
    → HasPages m
    → IsSize size
    → Answers (read_mem addr size m) × Answers (write_mem addr size value m)
unfolding read_mem write_mem
access-Answers addr size value m pages is =
    let (r, reads) = translate-Answers addr size false m pages is in
    let (t, writes) = translate-Answers addr size true m pages is in
    (rw reads (read_at-Answers r size is), rw writes (write_at-Answers t size value is))
