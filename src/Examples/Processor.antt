-- ===== src/Examples/Processor.antt =====
-- The processor of Project 2/code/machine/mipssim.cc at concrete instructions.
use tree_fiddy.Prelude.{
  ℕ, ◌+◌, ◌*◌, ◌%◌, ◌<◌, ◌≡◌, refl, ◌⊎◌, true, false, none, some, [], ◌∷◌, ◌==◌, if◌then◌else◌,
  arith,
}
use tree_fiddy.Prelude.Int.{◌+ℤ◌, ◌-ℤ◌, ltb_ℤ}
use tree_fiddy.Prelude.Outcome.{ok}
use tree_fiddy.Memory.{
  Machine, syscall_exception, done, read_mem, translate, find_in, use_entry, touch, stamp, load,
  read_at,
}
use tree_fiddy.Memory.Total.{has_table}
use tree_fiddy.Multiply.{word, mult}
use tree_fiddy.Multiply.Rounds.{big}
use tree_fiddy.Multiply.Product.{extend, mult-extend}
use tree_fiddy.Decode.{Instruction, op_srl, op_syscall, decode}
use tree_fiddy.Alu.{add_word, sub_word, add_overflows, addi_overflows, sub_overflows, signed_lt}
use tree_fiddy.Alu.Signed.{signed, Exact, overflow_tests-Exact}
use tree_fiddy.Cpu.{Cpu, pc_reg, trapped}
use tree_fiddy.Cpu.Execute.{one_instruction}
use tree_fiddy.Cpu.Fine.{is_partial}
use tree_fiddy.Cpu.Calls.{Returned, end_call, syscall-Returned}
use tree_fiddy.Cpu.Run.{IsReady, EndsReady, one_instruction-EndsReady}

-- -3 times 5.
mult-extend_example :
    ((mult 4294967293 5 true).0 < word)
    × ((mult 4294967293 5 true).1 < word)
    × ((mult 4294967293 5 true).0 * word + (mult 4294967293 5 true).1
        ≡ extend true 4294967293 * extend true 5 % big)
mult-extend_example = mult-extend 4294967293 5 true (omega arith) (omega arith)

minus_fifteen : mult 4294967293 5 true ≡ (4294967295, 4294967281)
unfolding mult
minus_fifteen = refl

overflow_tests-Exact_example :
    Exact (add_overflows 2147483647 1) (add_word 2147483647 1) (signed 2147483647 +ℤ signed 1)
    × Exact (addi_overflows 2147483647 1) (add_word 2147483647 1) (signed 2147483647 +ℤ signed 1)
    × Exact (sub_overflows 2147483647 1) (sub_word 2147483647 1) (signed 2147483647 -ℤ signed 1)
    × (signed_lt 2147483647 1 ≡ ltb_ℤ (signed 2147483647) (signed 1))
overflow_tests-Exact_example = overflow_tests-Exact 2147483647 1 (omega arith) (omega arith)

-- One page of zeros, which hold the instruction SLL of register 0 by nothing.
abbrev zeros : Machine
zeros = record {
  tlb = none;
  page_table = some (
      record {
        virtual_page = 0;
        physical_page = 3;
        valid = true;
        is_read_only = false;
        is_used = false;
        is_dirty = false;
      }
      ∷ []);
  page_table_size = 1;
  main_memory = λ j. 0;
  last_used = λ j. 0;
  total_ticks = 9;
}

abbrev started : Cpu
started = record {
  registers = λ j. if j == 35 then 4 else if j == 8 then 4294967290 else 0;
  machine = zeros;
}

started-IsReady : IsReady started
started-IsReady = record {
  zero_reg = refl;
  can_go = (omega arith, has_table _ refl refl (omega arith));
}

one_instruction-EndsReady_example :
    EndsReady (one_instruction started)
    ⊎ ((raw : ℕ) × (m : Machine) × (i : Instruction) × (read_mem
            (started.registers pc_reg)
            4
            started.machine
          ≡ ok (done raw m))
        × (decode raw ≡ ok i)
        × (is_partial i.op ≡ true))
one_instruction-EndsReady_example = one_instruction-EndsReady started started-IsReady

-- rd is 2, rs is 1, rt is 8, and the shift is by four places.
abbrev shift_by_four : Instruction
shift_by_four = record { op = op_srl; rs = 1; rt = 8; rd = 2; extra = 4 }

-- The same page with the instruction SYSCALL at its beginning, and the machine that has fetched it.
abbrev calls : Machine
calls = record zeros { main_memory = λ j. if j == 384 then 12 else 0 }

abbrev calling : Cpu
calling = record started { machine = calls }

calling-IsReady : IsReady calling
calling-IsReady = record {
  zero_reg = refl;
  can_go = (omega arith, has_table _ refl refl (omega arith));
}

abbrev fetched_call : Machine
fetched_call = stamp 384 (
    touch 0
      (record {
        virtual_page = 0;
        physical_page = 3;
        valid = true;
        is_read_only = false;
        is_used = false;
        is_dirty = false;
      })
      false calls)

fetches_call : read_mem 0 4 calls ≡ ok (done 12 fetched_call)
unfolding read_mem translate find_in use_entry read_at load touch
fetches_call = refl

abbrev system_call : Instruction
system_call = record { op = op_syscall; rs = 0; rt = 0; rd = 0; extra = 0 }

decodes_call : decode 12 ≡ ok system_call
unfolding decode
decodes_call = refl

syscall-Returned_example :
    (c' : Cpu) × (one_instruction calling ≡ ok (trapped syscall_exception c'))
    × Returned calling 77 fetched_call (end_call 77 c')
syscall-Returned_example =
    syscall-Returned calling 12 77 fetched_call system_call calling-IsReady fetches_call
      decodes_call refl
