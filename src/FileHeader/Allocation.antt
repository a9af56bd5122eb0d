-- ===== src/FileHeader/Allocation.antt =====
-- What FileHeader::Allocate and Deallocate of Project 2/code/filesys/filehdr.cc do to the map of free
-- sectors.
use tree_fiddy.Prelude.{
  ℕ, zero, suc, ◌+◌, ◌≤◌, ◌<◌, ◌≡◌, ◌≢◌, refl, ◌∙◌, true, false, some, get_elem?, arith, ℕ_discrete,
}
use tree_fiddy.Prelude.Int.{pos}
use tree_fiddy.Prelude.Outcome.{Outcome, ok}
use tree_fiddy.BitMap.{BitMap, clear_bit}
use tree_fiddy.BitMap.Members.{
  has, HasRoom, clear_lem, test_lem, has-clear_bit, clear_bit-HasRoom, num_bits-clear_bit,
}
use tree_fiddy.FileHeader.{FileHeader, deallocate_loop, deallocate}

-- Entry j of the header names sector s.
abbrev pub Names : FileHeader → ℕ → ℕ → Type 0
Names h j s = get_elem? h.data_sectors j ≡ some (pos s)

-- The entries from lo on and below hi name sectors that are marked in the map, all different.
pub record Owns (h : FileHeader) (m : BitMap) (lo hi : ℕ) : Type 0 where
  pub named :
      (j : ℕ) → lo ≤ j → j < hi → (s : ℕ) × Names h j s × (s < m.num_bits) × (has m s ≡ true)
  pub distinct : (j k s : ℕ) → lo ≤ j → j < k → k < hi → Names h j s → ¬ (Names h k s)

-- What deallocating those entries leaves of the map.
pub record Frees (h : FileHeader) (m : BitMap) (lo hi : ℕ) (r : Outcome BitMap) : Type 0 where
  pub left : BitMap
  pub freed : r ≡ ok left
  pub room : HasRoom left
  pub size : left.num_bits ≡ m.num_bits
  pub cleared : (j s : ℕ) → lo ≤ j → j < hi → Names h j s → has left s ≡ false
  pub kept : (s : ℕ) → ((j : ℕ) → lo ≤ j → j < hi → ¬ (Names h j s)) → has left s ≡ has m s

pub Names-unique : (h : FileHeader) (j s t : ℕ) → Names h j s → Names h j t → s ≡ t
Names-unique h j s t p q = ground arith

module _ (h : FileHeader) (m : BitMap) (i hi : ℕ) (room : HasRoom m) (owns : Owns h m i hi) (s : ℕ)
    (name : Names h i s) (below : s < m.num_bits) where
  other : (j t : ℕ) → i + 1 ≤ j → j < hi → Names h j t → s ≢ t
  other j t p q e same = owns.distinct i j s (omega arith) (omega arith) q name (rw same e)

  Owns-rest : Owns h (clear_bit m s) (i + 1) hi
  Owns-rest = record {
    named = λ j p q.
        let (t, e, b, marked) = owns.named j (omega arith) q in
        let differ = other j t p q e in
        (t, e, rw (num_bits-clear_bit m s) b, ground (arith, has-clear_bit m s room below t));
    distinct = λ j k t p q r e. owns.distinct j k t (omega arith) q r e;
  }

  Frees-cons :
      i < hi → (r : Outcome BitMap) → Frees h (clear_bit m s) (i + 1) hi r → Frees h m i hi r
  Frees-cons inside r f = record {
    left = f.left;
    freed = f.freed;
    room = f.room;
    size = f.size ∙ num_bits-clear_bit m s;
    cleared = λ j t p q e. elim (ℕ_discrete j i) [
      | yes first ↦
          let same : s ≡ t = Names-unique h i s t name (ground arith) in
          let gone = f.kept t (λ k p' q' e'. other k t p' q' e' same) in
          gone ∙ ground (arith, has-clear_bit m s room below t)
      | no later ↦ f.cleared j t (omega arith) q e
    ];
    kept = λ t none_named.
        let differ : s ≢ t = λ same. none_named i (omega arith) inside (ground arith) in
        f.kept t (λ j p q. none_named j (omega arith) q)
        ∙ ground (arith, has-clear_bit m s room below t);
  }

deallocate_loop-Frees :
    (n i hi : ℕ) (h : FileHeader) (m : BitMap)
    → i + n ≡ hi
    → HasRoom m
    → Owns h m i hi
    → Frees h m i hi (deallocate_loop n i h m)
unfolding deallocate_loop
deallocate_loop-Frees zero i hi h m e room owns = record {
  left = m;
  freed = refl;
  room = room;
  size = refl;
  cleared = λ j s p q x. absurd (omega arith);
  kept = λ s none_named. refl;
}
deallocate_loop-Frees (suc n) i hi h m e room owns =
    let (s, name, below, marked) = owns.named i (omega arith) (omega arith) in
    let rest =
      deallocate_loop-Frees n (i + 1) hi h (clear_bit m s) (omega arith)
        (clear_bit-HasRoom m s room below) (Owns-rest h m i hi room owns s name below) in
    let whole = Frees-cons h m i hi room owns s name below (omega arith) _ rest in
    rw name (rw (test_lem m s below) (rw marked (rw (clear_lem m s below) whole)))

-- On a header whose sectors are marked and all different, Deallocate does not fail: it clears every
-- sector that the header names, and every other bit of the map stays.
pub deallocate-Frees :
    (h : FileHeader) (m : BitMap)
    → HasRoom m
    → Owns h m 0 h.num_sectors
    → Frees h m 0 h.num_sectors (deallocate h m)
unfolding deallocate
deallocate-Frees h m room owns =
    deallocate_loop-Frees h.num_sectors 0 h.num_sectors h m (omega arith) room owns
