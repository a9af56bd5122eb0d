-- ===== src/Table/Laws.antt =====
-- The table seen as a finite map from slot numbers to what was put there.
use tree_fiddy.Prelude.{
  List, ℕ, false, ◌≡◌, refl, ◌<◌, ◌∙◌, ◌⊎◌, inl, inr, ◌&&◌, Option, none, some, Bool-cases, ltb,
  ◌==◌, if◌then◌else◌, get_or, get_or-set, set, length, length-set, arith,
}
use tree_fiddy.Prelude.Int.{pos, negsuc}
use tree_fiddy.Prelude.Outcome.{Outcome, ok}
use tree_fiddy.BitMap.{set_bit, clear_bit, find}
use tree_fiddy.BitMap.Members.{
  has, HasRoom, test_lem, clear_lem, has-set_bit, has-clear_bit, set_bit-HasRoom, clear_bit-HasRoom,
  num_bits-set_bit, num_bits-clear_bit,
}
use tree_fiddy.BitMap.Find.{FirstClear, find-FirstClear}
use tree_fiddy.BitMap.Clears.{new_bit_map-Cleared}
use tree_fiddy.Table.{Table, new_table, get, put, put_at, remove, remove_at}

module _ {ℓ} {A : Type ℓ} where
  pub record IsValid (t : Table A) : Type 0 where
    pub room : HasRoom t.map
    pub bits : t.map.num_bits ≡ t.size
    pub slots : length t.table ≡ t.size

  -- What slot i holds, `none` if it is free.
  unfoldable pub slot : Table A → ℕ → Option (Option A)
  slot t i = if ltb i t.size && has t.map i then some (get_or t.table i none) else none

  -- The value that the slot's content is read as: a null pointer for a free slot.
  abbrev pub or_null : Option (Option A) → Option A
  or_null none = none
  or_null (some f) = f

  -- Get returns what the slot holds, and a null pointer for a free slot or for a number that is
  -- negative or too large. It never fails.
  pub get-slot :
      (t : Table A)
      → IsValid t
      → ((i : ℕ) → get t (pos i) ≡ ok (or_null (slot t i))) × ((n : ℕ) → get t (negsuc n) ≡ ok none)
  unfolding get slot
  get-slot t v = (at_index, λ n. refl)
    where
      at_index : (i : ℕ) → get t (pos i) ≡ ok (or_null (slot t i))
      at_index i = elim (Bool-cases (ltb i t.size)) [
        | inl below ↦ rw (below, test_lem t.map i (ground arith)) (ground arith)
        | inr above ↦ rw above refl
      ]

  abbrev pub Puts : Table A → Option A → Outcome (Option ℕ × Table A) → Type ℓ
  Puts t f r =
      (((j : ℕ) → j < t.size → (c : Option A) × (slot t j ≡ some c)) × (r ≡ ok (none, t)))
      ⊎ ((i : ℕ) × (t' : Table A) × (r ≡ ok (some i, t'))
          × (i < t.size)
          × (slot t i ≡ none)
          × IsValid t'
          × (t'.size ≡ t.size)
          × ((j : ℕ) → slot t' j ≡ (if i == j then some f else slot t j)))

  -- Put fills the first free slot and returns its number, and changes no other slot; it returns -1
  -- and changes nothing when every slot is taken. It never fails.
  pub put-Puts : (t : Table A) (f : Option A) → IsValid t → Puts t f (put t f)
  unfolding put put_at slot
  put-Puts t f v = go (find-FirstClear t.map)
    where
      go : FirstClear t.map 0 t.map.num_bits (find t.map) → Puts t f (put t f)
      go (inr (full, r)) = inl (
        λ j below.
            (get_or t.table j none, ground (arith, full j (omega arith) (omega (arith, v.bits)))),
        rw r refl,
      )
      go (inl (i, p, q, clear, full, r)) = inr (
        i,
        record t { map = set_bit t.map i; table = set t.table i f },
        rw r refl,
        omega (arith, v.bits),
        ground arith,
        record {
          room = set_bit-HasRoom t.map i v.room q;
          bits = num_bits-set_bit t.map i ∙ v.bits;
          slots = length-set t.table i f ∙ v.slots;
        },
        refl,
        λ j. ground (
          arith,
          has-set_bit t.map i v.room q j,
          get_or-set t.table i j f none (omega (arith, v.bits, v.slots)),
        ),
      )

  abbrev pub Removes : Table A → ℕ → Outcome (Option A × Table A) → Type ℓ
  Removes t i r =
      (t' : Table A) × (r ≡ ok (or_null (slot t i), t'))
      × IsValid t'
      × (t'.size ≡ t.size)
      × ((j : ℕ) → slot t' j ≡ (if i == j then none else slot t j))

  -- Remove returns what the slot held, as Get does, and frees that slot and no other. It never fails.
  pub remove-Removes : (t : Table A) (i : ℕ) → IsValid t → Removes t i (remove t (pos i))
  unfolding remove remove_at slot
  remove-Removes t i v = elim (Bool-cases (ltb i t.size)) [
    | inr above ↦ rw above (t, refl, v, refl, λ j. ground arith)
    | inl below ↦ elim (Bool-cases (has t.map i)) [
      | inr idle ↦
          rw (below, test_lem t.map i (ground arith), idle) (t, refl, v, refl, λ j. ground arith)
      | inl used ↦
          let q : i < t.map.num_bits = ground arith in
          rw (below, test_lem t.map i q, used, clear_lem t.map i q)
            (
              record t { map = clear_bit t.map i; table = set t.table i none },
              refl,
              record {
                room = clear_bit-HasRoom t.map i v.room q;
                bits = num_bits-clear_bit t.map i ∙ v.bits;
                slots = length-set t.table i none ∙ v.slots;
              },
              refl,
              λ j. ground (
                arith,
                has-clear_bit t.map i v.room q j,
                get_or-set t.table i j none none (omega (arith, v.bits, v.slots)),
              ),
            )
    ]
  ]

  -- A new table has every slot free.
  pub new_table-IsValid :
      (n : ℕ) (bits : ℕ → ℕ) (junk : List (Option A))
      → length junk ≡ n
      → (t : Table A) × (new_table n bits junk ≡ ok t)
        × IsValid t
        × (t.size ≡ n)
        × ((j : ℕ) → slot t j ≡ none)
  unfolding new_table slot
  new_table-IsValid n bits junk long =
      let (m, made, room, size, clear, count) = new_bit_map-Cleared n bits in
      (
        record { map = m; table = junk; size = n },
        rw made refl,
        record { room = room; bits = size; slots = long },
        refl,
        λ j. elim (Bool-cases (ltb j n)) [
          | inl below ↦ let free : has m j ≡ false = clear j (ground arith) in ground arith
          | inr above ↦ ground arith
        ],
      )

  -- An assignment to what a used slot points to.
  pub assign-slot :
      (t : Table A) (i : ℕ) (c f : Option A)
      → IsValid t
      → slot t i ≡ some c
      → IsValid (record t { table = set t.table i f })
        × ((j : ℕ)
            → slot (record t { table = set t.table i f }) j ≡ (if i == j then some f else slot t j))
  unfolding slot
  assign-slot t i c f v used = (
    record { room = v.room; bits = v.bits; slots = length-set t.table i f ∙ v.slots },
    λ j.
        let below : i < t.size = ground arith in
        ground (arith, get_or-set t.table i j f none (omega (arith, v.bits, v.slots))),
  )
