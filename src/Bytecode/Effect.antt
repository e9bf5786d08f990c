-- ===== src/Bytecode/Effect.antt =====
-- `stackEffect` of lang/chunk_verifier.zig: how many values an operation pops and pushes.
pub mod Answers
use gengo.Prelude.{ℕ, zero, suc, ◌+◌, ◌-◌, ◌*◌, ◌/◌, ◌%◌, bit_and as masked, ltb}
use gengo.Bytecode.Checked.{Checked, ok, ◌>>=◌, ◌>>◌, refuse_if, overflow}
use gengo.Bytecode.Op.{
  Op, halt, op_unreachable, jump, jump_if_false, jif_pop, jump_if_not_null, loop, call, call_tail,
  call_spread, defer_call, invoke_method, defer_invoke_method, ret, get_local, set_local,
  get_global, set_global, def_global, get_upvalue, set_upvalue, close_upvalue, make_closure,
  constant, null_val, true_val, false_val, dup, dup2, pop, add, sub, mul, div, int_div, rem, mod_op,
  pow, neg, eq, ne, lt, le, gt, ge, not_op, task_self, task_receive, eqz_int, nez_int, ltz_int,
  lez_int, gtz_int, gez_int, eq_float, ne_float, lt_float, le_float, gt_float, ge_float, abs, floor,
  ceil, trunc, nearest, min_op, max, sign, sqrt, clamp, bit_and, bit_or, bit_xor, bit_not, shl, shr,
  cast_int, cast_float, cast_decimal, cast_bool, cast_string, cast_rune, cast_bigint, assert_type,
  assert_interface, assert_struct, type_name, set_named_predicate, validate_type_default, op_assert,
  op_assert_msg, op_trap_check, variant_check, variant_payload, build_array, build_map, build_tuple,
  build_struct_instance, zero_struct, tuple_check_arity, tuple_get, tuple_get_keep, get_index,
  set_index, get_slice, get_field, set_field, iter_init, iter_next1, iter_next2, named_inner,
  check_named_predicate, swap, validate_named_range, len, append, bytelen, bytes_decode,
  get_index_const_str, assert_variant, const_eq, const_sub, const_add, const_lt, const_gt,
  get_local_const_eq, get_local_const_sub, get_local_const_add, get_local_const_lt,
  get_local_const_gt, get_local_const_eq_jif_pop, get_local_const_lt_jif_pop,
  get_local_const_gt_jif_pop, get_local_const_lt_jif_pop_jump, get_global_const_eq,
  get_global_const_sub, get_global_const_add, get_global_const_lt, get_global_const_lt_jif_pop,
  get_local_get_field, set_global_loop, close_upvalue_loop, ret_const, get_local_ret,
  get_local_const_sub_call, get_local_const_sub_call_tail, call_global_local_sub_const,
  call_global_local_sub_const_tail, add_ret, local_add_local, local_add_const, local_add_const_loop,
  local_add_field, inc_global_const, field_add_const, inc_global_const_loop,
  inc_global_const_loop_nc, get_local_const_add_ret, get_global_call, get_global_call_tail,
  call_global_global, call_global_global_tail,
}

pub record Effect : Type 0 where
  pub pop : ℕ
  pub push : ℕ

effect_of : ℕ → ℕ → Checked Effect
effect_of taken given = ok record { pop = taken; push = given }

-- argc + 1, in a byte
one_more : ℕ → ℕ → Checked Effect
unfolding effect_of
one_more argc given = do refuse_if (ltb 254 argc) overflow; effect_of (argc + 1) given

-- @popCount, of the low bits
pop_count : ℕ → ℕ → ℕ
pop_count zero n = 0
pop_count (suc bits) n = n % 2 + pop_count bits (n / 2)

unfoldable pub stack_effect : Op → (ℕ → ℕ) → ℕ → Checked Effect
unfolding effect_of one_more pop_count
stack_effect constant code ip = effect_of 0 1
stack_effect null_val code ip = effect_of 0 1
stack_effect true_val code ip = effect_of 0 1
stack_effect false_val code ip = effect_of 0 1
stack_effect get_local code ip = effect_of 0 1
stack_effect get_upvalue code ip = effect_of 0 1
stack_effect get_global code ip = effect_of 0 1
stack_effect make_closure code ip = effect_of 0 1
stack_effect tuple_get_keep code ip = effect_of 0 1
stack_effect get_local_const_eq code ip = effect_of 0 1
stack_effect get_local_const_sub code ip = effect_of 0 1
stack_effect get_local_const_add code ip = effect_of 0 1
stack_effect get_local_const_lt code ip = effect_of 0 1
stack_effect get_local_const_gt code ip = effect_of 0 1
stack_effect get_global_const_eq code ip = effect_of 0 1
stack_effect get_global_const_sub code ip = effect_of 0 1
stack_effect get_global_const_add code ip = effect_of 0 1
stack_effect get_global_const_lt code ip = effect_of 0 1
stack_effect get_local_get_field code ip = effect_of 0 1
stack_effect task_self code ip = effect_of 0 1
stack_effect task_receive code ip = effect_of 0 1
stack_effect pop code ip = effect_of 1 0
stack_effect def_global code ip = effect_of 1 0
stack_effect set_global code ip = effect_of 1 0
stack_effect set_local code ip = effect_of 1 0
stack_effect set_upvalue code ip = effect_of 1 0
stack_effect jif_pop code ip = effect_of 1 0
stack_effect op_assert code ip = effect_of 1 0
stack_effect set_named_predicate code ip = effect_of 1 0
stack_effect set_field code ip = effect_of 2 0
stack_effect add code ip = effect_of 2 1
stack_effect sub code ip = effect_of 2 1
stack_effect mul code ip = effect_of 2 1
stack_effect div code ip = effect_of 2 1
stack_effect int_div code ip = effect_of 2 1
stack_effect rem code ip = effect_of 2 1
stack_effect mod_op code ip = effect_of 2 1
stack_effect pow code ip = effect_of 2 1
stack_effect eq_float code ip = effect_of 2 1
stack_effect ne_float code ip = effect_of 2 1
stack_effect lt_float code ip = effect_of 2 1
stack_effect le_float code ip = effect_of 2 1
stack_effect gt_float code ip = effect_of 2 1
stack_effect ge_float code ip = effect_of 2 1
stack_effect bit_and code ip = effect_of 2 1
stack_effect bit_or code ip = effect_of 2 1
stack_effect bit_xor code ip = effect_of 2 1
stack_effect shl code ip = effect_of 2 1
stack_effect shr code ip = effect_of 2 1
stack_effect eq code ip = effect_of 2 1
stack_effect ne code ip = effect_of 2 1
stack_effect lt code ip = effect_of 2 1
stack_effect le code ip = effect_of 2 1
stack_effect gt code ip = effect_of 2 1
stack_effect ge code ip = effect_of 2 1
stack_effect min_op code ip = effect_of 2 1
stack_effect max code ip = effect_of 2 1
stack_effect clamp code ip = effect_of 3 1
stack_effect eqz_int code ip = effect_of 1 1
stack_effect nez_int code ip = effect_of 1 1
stack_effect ltz_int code ip = effect_of 1 1
stack_effect lez_int code ip = effect_of 1 1
stack_effect gtz_int code ip = effect_of 1 1
stack_effect gez_int code ip = effect_of 1 1
stack_effect neg code ip = effect_of 1 1
stack_effect not_op code ip = effect_of 1 1
stack_effect bit_not code ip = effect_of 1 1
stack_effect abs code ip = effect_of 1 1
stack_effect floor code ip = effect_of 1 1
stack_effect ceil code ip = effect_of 1 1
stack_effect trunc code ip = effect_of 1 1
stack_effect nearest code ip = effect_of 1 1
stack_effect sign code ip = effect_of 1 1
stack_effect sqrt code ip = effect_of 1 1
stack_effect cast_int code ip = effect_of 1 1
stack_effect cast_float code ip = effect_of 1 1
stack_effect cast_decimal code ip = effect_of 1 1
stack_effect cast_bool code ip = effect_of 1 1
stack_effect cast_string code ip = effect_of 1 1
stack_effect cast_rune code ip = effect_of 1 1
stack_effect cast_bigint code ip = effect_of 1 1
stack_effect type_name code ip = effect_of 1 1
stack_effect len code ip = effect_of 1 1
stack_effect bytelen code ip = effect_of 1 1
stack_effect variant_check code ip = effect_of 1 1
stack_effect variant_payload code ip = effect_of 1 1
stack_effect named_inner code ip = effect_of 1 1
stack_effect const_eq code ip = effect_of 1 1
stack_effect const_sub code ip = effect_of 1 1
stack_effect const_add code ip = effect_of 1 1
stack_effect const_lt code ip = effect_of 1 1
stack_effect const_gt code ip = effect_of 1 1
stack_effect assert_type code ip = effect_of 1 1
stack_effect assert_interface code ip = effect_of 1 1
stack_effect assert_struct code ip = effect_of 1 1
stack_effect assert_variant code ip = effect_of 1 1
stack_effect tuple_get code ip = effect_of 1 1
stack_effect get_field code ip = effect_of 1 1
stack_effect get_index_const_str code ip = effect_of 1 1
stack_effect swap code ip = effect_of 2 2
stack_effect set_index code ip = effect_of 3 0
stack_effect get_index code ip = effect_of 2 1
stack_effect bytes_decode code ip = effect_of 2 1
stack_effect zero_struct code ip = effect_of 1 1
stack_effect iter_init code ip = effect_of 1 1
stack_effect iter_next1 code ip = effect_of 0 2
stack_effect iter_next2 code ip = effect_of 0 3
stack_effect dup code ip = effect_of 0 1
stack_effect dup2 code ip = effect_of 0 2
stack_effect close_upvalue code ip = effect_of 0 0
stack_effect tuple_check_arity code ip = effect_of 0 0
stack_effect validate_type_default code ip = effect_of 0 0
stack_effect check_named_predicate code ip = effect_of 0 0
stack_effect validate_named_range code ip = effect_of 0 0
stack_effect inc_global_const code ip = effect_of 0 0
stack_effect local_add_local code ip = effect_of 0 0
stack_effect local_add_const code ip = effect_of 0 0
stack_effect local_add_const_loop code ip = effect_of 0 0
stack_effect local_add_field code ip = effect_of 0 0
stack_effect field_add_const code ip = effect_of 0 0
stack_effect op_assert_msg code ip = effect_of 2 0
stack_effect op_trap_check code ip = effect_of 1 0
stack_effect ret code ip = effect_of 1 0
stack_effect ret_const code ip = effect_of 0 0
stack_effect get_local_ret code ip = effect_of 0 0
stack_effect get_local_const_add_ret code ip = effect_of 0 0
stack_effect add_ret code ip = effect_of 2 0
stack_effect jump code ip = effect_of 0 0
stack_effect loop code ip = effect_of 0 0
stack_effect set_global_loop code ip = effect_of 0 0
stack_effect close_upvalue_loop code ip = effect_of 0 0
stack_effect jump_if_false code ip = effect_of 0 0
stack_effect jump_if_not_null code ip = effect_of 0 0
stack_effect inc_global_const_loop code ip = effect_of 0 0
stack_effect inc_global_const_loop_nc code ip = effect_of 0 0
stack_effect get_local_const_eq_jif_pop code ip = effect_of 0 0
stack_effect get_local_const_lt_jif_pop code ip = effect_of 0 0
stack_effect get_local_const_gt_jif_pop code ip = effect_of 0 0
stack_effect get_local_const_lt_jif_pop_jump code ip = effect_of 0 0
stack_effect get_global_const_lt_jif_pop code ip = effect_of 0 0
stack_effect halt code ip = effect_of 0 0
stack_effect op_unreachable code ip = effect_of 0 0
stack_effect call code ip = effect_of (masked (code (ip + 1)) 0x7f + 1) 1
stack_effect call_tail code ip = effect_of (masked (code (ip + 1)) 0x7f + 1) 1
stack_effect call_spread code ip = one_more (code (ip + 1)) (code (ip + 2))
stack_effect defer_call code ip = one_more (code (ip + 1)) 0
stack_effect invoke_method code ip = one_more (code (ip + 3)) 1
stack_effect defer_invoke_method code ip = one_more (code (ip + 3)) 0
stack_effect build_array code ip = effect_of (code (ip + 1)) 1
stack_effect append code ip = effect_of (code (ip + 1)) 1
stack_effect build_tuple code ip = effect_of (code (ip + 1)) 1
stack_effect build_map code ip = effect_of (code (ip + 1) * 2) 1
stack_effect build_struct_instance code ip = effect_of (1 + code (ip + 1) * 2) 1
stack_effect get_slice code ip = effect_of (1 + pop_count 8 (code (ip + 1))) 1
stack_effect get_local_const_sub_call code ip = effect_of (masked (code (ip + 5)) 0x7f) 1
stack_effect get_local_const_sub_call_tail code ip = effect_of (masked (code (ip + 5)) 0x7f) 1
stack_effect get_global_call code ip = effect_of (masked (code (ip + 5)) 0x7f) 1
stack_effect get_global_call_tail code ip = effect_of (masked (code (ip + 5)) 0x7f) 1
stack_effect call_global_local_sub_const code ip = effect_of 0 1
stack_effect call_global_local_sub_const_tail code ip = effect_of 0 1
stack_effect call_global_global code ip = effect_of (masked (code (ip + 9)) 0x7f - 1) 1
stack_effect call_global_global_tail code ip = effect_of (masked (code (ip + 9)) 0x7f - 1) 1
