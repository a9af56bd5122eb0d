-- ===== src/Memory/Pages.antt =====
-- Accesses of Project 2/code/machine/translate.cc keep the translation table's size, so that a machine
-- can go on after them.
use tree_fiddy.Prelude.{ℕ, ◌≡◌, refl, sym, subst, Bool, true, false, length-set, set, arith}
use tree_fiddy.Prelude.Outcome.{Outcome, ok}
use tree_fiddy.Memory.{
  Machine, TranslationEntry, Translation, refused, physical, Access, raises, done, touched, touch,
  translate, stamp, read_at, write_at, read_mem, write_mem,
}
use tree_fiddy.Memory.Lookup.{translate-Translates}
use tree_fiddy.Memory.Bytes.{IsSize, store-Stores}
use tree_fiddy.Memory.Total.{HasPages, has_table, has_tlb, translate-Answers, load-Answers}

touch-HasPages :
    (i : ℕ) (e : TranslationEntry) (w : Bool) (m : Machine) → HasPages m → HasPages (touch i e w m)
unfolding touch
touch-HasPages i e w m (has_table t no_tlb table long) =
    has_table (set t i (touched w e)) (rw no_tlb refl) (rw table refl)
      (omega (arith, length-set t i (touched w e)))
touch-HasPages i e w m (has_tlb t tlb no_table) =
    has_tlb (set t i (touched w e)) (rw tlb refl) (rw no_table refl)

HasPages-bytes :
    (m : Machine) (mem used : ℕ → ℕ)
    → HasPages m
    → HasPages (record m { main_memory = mem; last_used = used })
HasPages-bytes m mem used (has_table t no_tlb table long) = has_table t no_tlb table long
HasPages-bytes m mem used (has_tlb t tlb no_table) = has_tlb t tlb no_table

abbrev pub StaysReady : {A : Type 0} → Access A → Type 0
StaysReady (raises x) = Unit
StaysReady (done a m) = HasPages m

-- The access comes to a result, and the machine can go on after it.
abbrev pub IsSafe : {A : Type 0} → Outcome (Access A) → Type 0
IsSafe {A = A} o = (a : Access A) × (o ≡ ok a) × StaysReady a

abbrev StaysTranslated : Translation → Type 0
StaysTranslated (refused x) = Unit
StaysTranslated (physical pa m) = HasPages m

translated_ready :
    (addr size : ℕ) (w : Bool) (m : Machine) (t : Translation)
    → HasPages m
    → translate addr size w m ≡ ok t
    → StaysTranslated t
translated_ready addr size w m (refused x) pages e = tt
translated_ready addr size w m (physical pa m') pages e =
    let t = translate-Translates addr size w m pa m' e in
    subst HasPages (sym t.after) (touch-HasPages t.i t.e w m pages)

read_at-IsSafe :
    (t : Translation) (size : ℕ) → IsSize size → StaysTranslated t → IsSafe (read_at t size)
unfolding read_at
read_at-IsSafe (refused x) size is ready = (raises x, refl, tt)
read_at-IsSafe (physical pa m) size is ready =
    let (value, loads) = load-Answers size pa m.main_memory is in
    (done value (stamp pa m), rw loads refl, HasPages-bytes m m.main_memory _ ready)

write_at-IsSafe :
    (t : Translation) (size value : ℕ)
    → IsSize size
    → StaysTranslated t
    → IsSafe (write_at t size value)
unfolding write_at
write_at-IsSafe (refused x) size value is ready = (raises x, refl, tt)
write_at-IsSafe (physical pa m) size value is ready =
    let (mem, stored, loads, rest) = store-Stores size pa value m.main_memory is in
    (
      done tt (stamp pa (record m { main_memory = mem })),
      rw stored refl,
      HasPages-bytes m mem _ ready,
    )

pub read_mem-IsSafe :
    (addr size : ℕ) (m : Machine) → HasPages m → IsSize size → IsSafe (read_mem addr size m)
unfolding read_mem
read_mem-IsSafe addr size m pages is =
    let (t, e) = translate-Answers addr size false m pages is in
    rw e (read_at-IsSafe t size is (translated_ready addr size false m t pages e))

pub write_mem-IsSafe :
    (addr size value : ℕ) (m : Machine)
    → HasPages m
    → IsSize size
    → IsSafe (write_mem addr size value m)
unfolding write_mem
write_mem-IsSafe addr size value m pages is =
    let (t, e) = translate-Answers addr size true m pages is in
    rw e (write_at-IsSafe t size value is (translated_ready addr size true m t pages e))
