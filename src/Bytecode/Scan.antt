-- ===== src/Bytecode/Scan.antt =====
-- The two loops of `verify` of lang/chunk_verifier.zig over the instructions: where they start and what is
-- checked of each, and then where the jumps go. The texts of the errors are left out.
pub mod Ends
pub mod Starts
use gengo.Prelude.{
  ℕ, zero, suc, ◌+◌, ◌-◌, ◌*◌, ◌^◌, List, [], ◌∷◌, ◌++◌, Bool, true, false, not, ◌&&◌, ◌||◌, Option,
  none, some, ◌==◌, ltb, leb, if◌then◌else◌, length, get_elem?, replicate,
}
use gengo.Prelude.Updates.{set_elem}
use gengo.Bytecode.Checked.{
  Checked, ok, error, ◌>>=◌, ◌>>◌, refuse_if, bad_opcode, bad_jump_target, bad_constant_index,
  invalid_bytecode, return_at_top_level, stack_underflow, stack_overflow, no_fuel,
}
use gengo.Bytecode.Op.{
  Op, get_local_const_eq, get_local_const_sub, get_local_const_add, get_local_const_lt,
  get_local_const_gt, get_local_const_eq_jif_pop, get_local_const_lt_jif_pop,
  get_local_const_gt_jif_pop, get_local_const_lt_jif_pop_jump, get_global_const_eq,
  get_global_const_sub, get_global_const_add, get_global_const_lt, get_global_const_lt_jif_pop,
  get_local_get_field, get_local_const_sub_call, get_local_const_sub_call_tail,
  call_global_local_sub_const, call_global_local_sub_const_tail, local_add_field,
  get_local_const_add_ret,
}
use gengo.Bytecode.Decoder.{Code, DecodedInstruction, decode_at}
use gengo.Bytecode.Effect.{Effect, stack_effect}

-- One element for each bit of the source's array.
abbrev pub has : List Bool → ℕ → Bool
has starts i = elim (get_elem? starts i) [ none ↦ false | some b ↦ b ]

-- Where a fused operation holds the opcode of a part of it, and which.
embedded : Op → Option (ℕ × ℕ)
embedded get_local_const_eq = some (2, 0xc0)
embedded get_local_const_sub = some (2, 0xc1)
embedded get_local_const_add = some (2, 0xc2)
embedded get_local_const_add_ret = some (2, 0xc2)
embedded get_local_const_lt = some (2, 0xc3)
embedded get_local_const_gt = some (2, 0xc4)
embedded get_local_const_gt_jif_pop = some (2, 0xc4)
embedded get_global_const_eq = some (5, 0xc0)
embedded get_global_const_sub = some (5, 0xc1)
embedded get_global_const_add = some (5, 0xc2)
embedded get_global_const_lt = some (5, 0xc3)
embedded get_local_const_eq_jif_pop = some (2, 0xc0)
embedded get_local_const_lt_jif_pop = some (2, 0xc3)
embedded get_local_const_lt_jif_pop_jump = some (2, 0xc3)
embedded get_global_const_lt_jif_pop = some (5, 0xc3)
embedded get_local_const_sub_call = some (2, 0xc1)
embedded get_local_const_sub_call_tail = some (2, 0xc1)
embedded call_global_local_sub_const = some (5, 0xd8)
embedded call_global_local_sub_const_tail = some (5, 0xd8)
embedded get_local_get_field = some (2, 0x75)
embedded local_add_field = some (3, 0x75)
embedded _ = none

holds_embedded : Code → ℕ → Option (ℕ × ℕ) → Bool
holds_embedded s ip none = true
holds_embedded s ip (some (k, opcode)) = s.byte (ip + k) == opcode

is_past : ℕ → Option ℕ → Bool
is_past count none = false
is_past count (some index) = leb count index

-- What the scan checks of one instruction.
unfoldable pub check_instruction : Code → ℕ → ℕ → DecodedInstruction → Checked (Unit {0})
unfolding embedded holds_embedded is_past
check_instruction s const_count ip inst = do
  refuse_if (is_past const_count inst.const_index) bad_constant_index
  refuse_if (not (holds_embedded s ip (embedded inst.op))) bad_opcode

-- What is set at the places of instructions; each round reads at least one byte.
unfoldable pub scan : ℕ → Code → ℕ → ℕ → List Bool → Checked (List Bool)
scan zero s const_count ip starts = if leb s.code_len ip then ok starts else error no_fuel
scan (suc fuel) s const_count ip starts =
    let rest = (do
      inst ← decode_at s ip
      check_instruction s const_count ip inst
      scan fuel s const_count (ip + inst.width) (set_elem starts ip true)) in
    if leb s.code_len ip then ok starts else rest

unfoldable pub target_is_bad : Code → List Bool → Option ℕ → Bool
target_is_bad s starts none = false
target_is_bad s starts (some target) = leb s.code_len target || not (has starts target)

unfoldable pub check_targets : ℕ → Code → List Bool → ℕ → Checked (Unit {0})
unfolding target_is_bad
check_targets zero s starts ip = if leb s.code_len ip then ok tt else error no_fuel
check_targets (suc fuel) s starts ip =
    let rest = (do
      inst ← decode_at s ip
      refuse_if (target_is_bad s starts inst.jump_target) bad_jump_target
      check_targets fuel s starts (ip + inst.width)) in
    if leb s.code_len ip then ok tt else rest
