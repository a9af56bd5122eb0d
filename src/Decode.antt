-- ===== src/Decode.antt =====
-- Instruction::Decode of Project 2/code/machine/mipssim.cc, with the tables of mipssim.h. The strings
-- that print an instruction are left out.
pub mod Fields
use Prim.Native.Nat.{bit_and, bit_or}
use tree_fiddy.Prelude.{
  ℕ, ◌+◌, ◌-◌, ◌*◌, ◌/◌, ◌%◌, ◌^◌, ◌<◌, Bool, Option, none, some, List, [], ◌∷◌, ltb, ◌==◌,
  if◌then◌else◌, get_elem?,
}
use tree_fiddy.Prelude.Outcome.{Outcome, ok, fault, ◌>>=◌}

-- The values of opCode; `special` and `bcond` stand in the first table only.
pub data OpCode : Type 0 where
  op_add op_addi op_addiu op_addu op_and op_andi op_beq op_bgez op_bgezal op_bgtz op_blez op_bltz :
      OpCode
  op_bltzal op_bne op_div op_divu op_j op_jal op_jalr op_jr op_lb op_lbu op_lh op_lhu op_lui op_lw :
      OpCode
  op_lwl op_lwr op_mfhi op_mflo op_mthi op_mtlo op_mult op_multu op_nor op_or op_ori op_rfe op_sb :
      OpCode
  op_sh op_sll op_sllv op_slt op_slti op_sltiu op_sltu op_sra op_srav op_srl op_srlv op_sub : OpCode
  op_subu op_sw op_swl op_swr op_xor op_xori op_syscall op_unimp op_res special bcond : OpCode

pub data Format : Type 0 where
  ifmt jfmt rfmt : Format

pub record OpInfo : Type 0 where
  pub op_code : OpCode
  pub format : Format

abbrev pub info : OpCode → Format → OpInfo
info c f = record { op_code = c; format = f }

-- opTable
abbrev pub op_table : List OpInfo
op_table =
    info special rfmt
    ∷ info bcond ifmt
    ∷ info op_j jfmt
    ∷ info op_jal jfmt
    ∷ info op_beq ifmt
    ∷ info op_bne ifmt
    ∷ info op_blez ifmt
    ∷ info op_bgtz ifmt
    ∷ info op_addi ifmt
    ∷ info op_addiu ifmt
    ∷ info op_slti ifmt
    ∷ info op_sltiu ifmt
    ∷ info op_andi ifmt
    ∷ info op_ori ifmt
    ∷ info op_xori ifmt
    ∷ info op_lui ifmt
    ∷ info op_unimp ifmt
    ∷ info op_unimp ifmt
    ∷ info op_unimp ifmt
    ∷ info op_unimp ifmt
    ∷ info op_res ifmt
    ∷ info op_res ifmt
    ∷ info op_res ifmt
    ∷ info op_res ifmt
    ∷ info op_res ifmt
    ∷ info op_res ifmt
    ∷ info op_res ifmt
    ∷ info op_res ifmt
    ∷ info op_res ifmt
    ∷ info op_res ifmt
    ∷ info op_res ifmt
    ∷ info op_res ifmt
    ∷ info op_lb ifmt
    ∷ info op_lh ifmt
    ∷ info op_lwl ifmt
    ∷ info op_lw ifmt
    ∷ info op_lbu ifmt
    ∷ info op_lhu ifmt
    ∷ info op_lwr ifmt
    ∷ info op_res ifmt
    ∷ info op_sb ifmt
    ∷ info op_sh ifmt
    ∷ info op_swl ifmt
    ∷ info op_sw ifmt
    ∷ info op_res ifmt
    ∷ info op_res ifmt
    ∷ info op_swr ifmt
    ∷ info op_res ifmt
    ∷ info op_unimp ifmt
    ∷ info op_unimp ifmt
    ∷ info op_unimp ifmt
    ∷ info op_unimp ifmt
    ∷ info op_res ifmt
    ∷ info op_res ifmt
    ∷ info op_res ifmt
    ∷ info op_res ifmt
    ∷ info op_unimp ifmt
    ∷ info op_unimp ifmt
    ∷ info op_unimp ifmt
    ∷ info op_unimp ifmt
    ∷ info op_res ifmt
    ∷ info op_res ifmt
    ∷ info op_res ifmt
    ∷ info op_res ifmt
    ∷ []

-- specialTable
abbrev pub special_table : List OpCode
special_table =
    op_sll ∷ op_res ∷ op_srl ∷ op_sra ∷ op_sllv ∷ op_res ∷ op_srlv ∷ op_srav ∷ op_jr ∷ op_jalr
    ∷ op_res ∷ op_res ∷ op_syscall ∷ op_unimp ∷ op_res ∷ op_res ∷ op_mfhi ∷ op_mthi ∷ op_mflo
    ∷ op_mtlo ∷ op_res ∷ op_res ∷ op_res ∷ op_res ∷ op_mult ∷ op_multu ∷ op_div ∷ op_divu ∷ op_res
    ∷ op_res ∷ op_res ∷ op_res ∷ op_add ∷ op_addu ∷ op_sub ∷ op_subu ∷ op_and ∷ op_or ∷ op_xor
    ∷ op_nor ∷ op_res ∷ op_res ∷ op_slt ∷ op_sltu ∷ op_res ∷ op_res ∷ op_res ∷ op_res ∷ op_res
    ∷ op_res ∷ op_res ∷ op_res ∷ op_res ∷ op_res ∷ op_res ∷ op_res ∷ op_res ∷ op_res ∷ op_res
    ∷ op_res ∷ op_res ∷ op_res ∷ op_res ∷ op_res ∷ []

-- A decoded instruction; `extra` is an int, read as its 32 bits.
pub record Instruction : Type 0 where
  pub op : OpCode
  pub rs : ℕ
  pub rt : ℕ
  pub rd : ℕ
  pub extra : ℕ

-- (value >> k) & 0x1f and the like, for a field of 2 ^ w values.
abbrev pub field : ℕ → ℕ → ℕ → ℕ
field value k w = value / 2 ^ k % 2 ^ w

-- The sign bit of an immediate is copied into the upper half.
abbrev pub sign_extend_half : ℕ → ℕ
sign_extend_half i = if ltb i 32768 then i else i + 4294901760

abbrev pub decode_extra : Format → ℕ → ℕ
decode_extra ifmt value = sign_extend_half (value % 65536)
decode_extra rfmt value = field value 6 5
decode_extra jfmt value = value % 67108864

abbrev pub decode_bcond : ℕ → OpCode
decode_bcond t =
    if t == 0
    then op_bltz
    else if t == 1
    then op_bgez
    else if t == 16
    then op_bltzal
    else if t == 17
    then op_bgezal
    else op_unimp

-- An entry of a table; the index is in range.
abbrev pub table_entry {ℓ} : {A : Type ℓ} → Option A → Outcome A
table_entry none = fault
table_entry (some a) = ok a

-- The second step of the decoding of opCode.
unfoldable pub decode_op : OpCode → ℕ → Outcome OpCode
decode_op special value = table_entry (get_elem? special_table (value % 64))
decode_op bcond value = ok (decode_bcond (field value 16 5))
decode_op other value = ok other

-- Instruction::Decode
unfoldable pub decode : ℕ → Outcome Instruction
unfolding decode_op
decode value = do
  i ← table_entry (get_elem? op_table (field value 26 6))
  c ← decode_op i.op_code value
  ok (record {
    op = c;
    rs = field value 21 5;
    rt = field value 16 5;
    rd = field value 11 5;
    extra = decode_extra i.format value;
  })
