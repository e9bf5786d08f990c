-- ===== src/Bytecode/Tests.antt =====
-- The verification of small pieces of bytecode.
mod Accepted
use gengo.Prelude.{
  ℕ, ◌≡◌, ◌<◌, ◌≤◌, refl, inl, inr, List, [], ◌∷◌, Option, none, some, length, get_elem?, arith,
  true, false,
}
use gengo.Bytecode.Checked.{Checked, ok, error, stack_underflow, bad_jump_target, overflow}
use gengo.Bytecode.Op.{op_of}
use gengo.Bytecode.Decoder.{Code, decode_at}
use gengo.Bytecode.Effect.{stack_effect}
use gengo.Bytecode.Scan.{scan, check_instruction, check_targets, target_is_bad}
use gengo.Bytecode.Walk.{
  is_return_op, is_unconditional_branch, is_conditional_branch, slot_is_bad, fall_through, branch,
  visit, is_new, walk, run, WorkItem, work_item,
}
use gengo.Bytecode.Walk.Paths.{Reach, start, then_step, Step, falls, jumps}
use gengo.Bytecode.Verifier.{
  FuncObj, State, func_bodies, stamp, run_bodies, checked_starts, verify_walks, verify,
}

abbrev pub byte_at : List ℕ → ℕ → ℕ
byte_at bytes i = elim (get_elem? bytes i) [ none ↦ 0 | some b ↦ b ]

abbrev pub chunk : List ℕ → List (Option FuncObj) → State
chunk bytes consts = record {
  code = record { byte = byte_at bytes; code_len = length bytes };
  consts = consts;
  main_max_stack = 0;
}

-- All that a run of the verification computes with.
pub verified : State → Checked State
unfolding verify checked_starts verify_walks func_bodies stamp run_bodies run scan check_instruction
    check_targets target_is_bad walk visit is_new fall_through branch is_return_op
    is_unconditional_branch is_conditional_branch slot_is_bad stack_effect decode_at op_of
verified st = verify st

-- constant 0; constant 0; add; pop; halt
abbrev pub sum_of_two : List ℕ
sum_of_two = 0x17 ∷ 0 ∷ 0 ∷ 0x17 ∷ 0 ∷ 0 ∷ 0x1e ∷ 0x1d ∷ 0 ∷ []

sum_accepted :
    verified (chunk sum_of_two (none ∷ []))
    ≡ ok (record (chunk sum_of_two (none ∷ [])) { main_max_stack = 2 })
unfolding verified
sum_accepted = refl

-- Two paths meet at the byte 7, one with an empty stack; the walk takes the depth of the other.
abbrev pub joining : List ℕ
joining = 0x19 ∷ 0x04 ∷ 0 ∷ 0 ∷ 0 ∷ 3 ∷ 0x18 ∷ 0x1d ∷ 0 ∷ 0x06 ∷ 0 ∷ 0 ∷ 0 ∷ 7 ∷ []

joining_accepted :
    verified (chunk joining []) ≡ ok (record (chunk joining []) { main_max_stack = 1 })
unfolding verified
joining_accepted = refl

-- The offset of the body of this fused loop leads into the operands of the next instruction.
abbrev fused_loop : List ℕ
fused_loop = 0xcd ∷ 0 ∷ 0xc3 ∷ 0 ∷ 0 ∷ 0 ∷ 0 ∷ 0 ∷ 4 ∷ 0 ∷ 0 ∷ 0 ∷ 1 ∷ 0x17 ∷ 0 ∷ 0 ∷ 0 ∷ []

fused_loop_accepted :
    verified (chunk fused_loop (none ∷ []))
    ≡ ok (record (chunk fused_loop (none ∷ [])) { main_max_stack = 1 })
unfolding verified
fused_loop_accepted = refl

-- call_spread with 255 arguments
many_arguments : verified (chunk (0x09 ∷ 255 ∷ 1 ∷ 0 ∷ 0 ∷ 0 ∷ []) []) ≡ error overflow
unfolding verified
many_arguments = refl

-- A jump over a function that returns its argument; then null, halt.
abbrev pub identity : FuncObj
identity = record { ip = 5; arity = 1; capture_count = 0; max_stack = 65535 }

abbrev pub with_function : List ℕ
with_function = 0x02 ∷ 0 ∷ 0 ∷ 0 ∷ 3 ∷ 0x0e ∷ 0 ∷ 0x0d ∷ 0x18 ∷ 0 ∷ []

abbrev pub stamped_identity : State
stamped_identity = record (chunk with_function (some (record identity { max_stack = 1 }) ∷ [])) {
  main_max_stack = 1;
}

pub function_accepted : verified (chunk with_function (some identity ∷ [])) ≡ ok stamped_identity
unfolding verified
function_accepted = refl

underflow_refused : verified (chunk (0x1d ∷ 0 ∷ []) []) ≡ error stack_underflow
unfolding verified
underflow_refused = refl

jump_inside_refused :
    verified (chunk (0x02 ∷ 0 ∷ 0 ∷ 0 ∷ 1 ∷ 0x17 ∷ 0 ∷ 0 ∷ 0 ∷ []) (none ∷ []))
    ≡ error bad_jump_target
unfolding verified
jump_inside_refused = refl

-- The operand of the last instruction stands behind the code.
truncated_accepted : verified (chunk (0x6f ∷ []) []) ≡ ok (chunk (0x6f ∷ []) [])
unfolding verified
truncated_accepted = refl
