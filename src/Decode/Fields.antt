-- ===== src/Decode/Fields.antt =====
-- Instruction::Decode of Project 2/code/machine/mipssim.cc always gives an instruction.
use tree_fiddy.Prelude.{
  ℕ, zero, suc, ◌%◌, ◌<◌, ◌≡◌, refl, some, List, [], ◌∷◌, length, get_elem?, arith, Bool, true,
  false, ◌&&◌,
}
use tree_fiddy.Prelude.Outcome.{ok}
use tree_fiddy.Decode.{
  OpCode, op_rfe, special, bcond, op_table, special_table, Instruction, field, decode_bcond,
  decode_extra, decode_op, decode,
}

-- The operations that the switch in OneInstruction has a case for.
abbrev pub has_case : OpCode → Bool
has_case op_rfe = false
has_case special = false
has_case bcond = false
has_case other = true

-- The fields of a decoded instruction name general registers, and the switch has its operation.
pub record IsDecoded (i : Instruction) : Type 0 where
  pub rs : i.rs < 32
  pub rt : i.rt < 32
  pub rd : i.rd < 32
  pub cased : has_case i.op ≡ true

-- The operations in the table of opcodes: RFE is not one of them.
abbrev is_primary : OpCode → Bool
is_primary op_rfe = false
is_primary other = true

abbrev all_entries {ℓ} : {A : Type ℓ} → (A → Bool) → List A → Bool
all_entries f [] = true
all_entries f (x ∷ xs) = f x && all_entries f xs

-- An index in range finds an entry, which has what all entries have.
get_elem?-below {ℓ} :
    {A : Type ℓ} (f : A → Bool) (xs : List A)
    → all_entries f xs ≡ true
    → (i : ℕ) → i < length xs
    → (x : A) × (get_elem? xs i ≡ some x) × (f x ≡ true)
get_elem?-below f [] every i p = absurd (omega arith)
get_elem?-below f (x ∷ xs) every zero p = (x, refl, ground arith)
get_elem?-below f (x ∷ xs) every (suc i) p = get_elem?-below f xs (ground arith) i (omega arith)

decode_bcond-has_case : (t : ℕ) → has_case (decode_bcond t) ≡ true
decode_bcond-has_case t = ground arith

decode_op_given :
    (c : OpCode)
    → is_primary c ≡ true
    → (value : ℕ) → (o : OpCode) × (decode_op c value ≡ ok o) × (has_case o ≡ true)
unfolding decode_op
decode_op_given special primary value =
    let (o, e, cased) = get_elem?-below has_case special_table refl (value % 64) (omega arith) in
    (o, rw e refl, cased)
decode_op_given bcond primary value =
    (decode_bcond (field value 16 5), refl, decode_bcond-has_case (field value 16 5))
decode_op_given op_rfe primary value = absurd (ground arith)
decode_op_given other primary value = (other, refl, refl)

-- Decode of any word finds its entries in the tables, and gives an instruction whose three registers are
-- general ones and whose operation the switch has.
pub decode-IsDecoded : (value : ℕ) → (i : Instruction) × (decode value ≡ ok i) × IsDecoded i
unfolding decode
decode-IsDecoded value =
    let (info, e, primary) =
      get_elem?-below (λ n. is_primary n.op_code) op_table refl (field value 26 6) (omega arith) in
    let (o, f, cased) = decode_op_given info.op_code primary value in
    (
      record {
        op = o;
        rs = field value 21 5;
        rt = field value 16 5;
        rd = field value 11 5;
        extra = decode_extra info.format value;
      },
      rw e (rw f refl),
      record { rs = omega arith; rt = omega arith; rd = omega arith; cased = cased },
    )
