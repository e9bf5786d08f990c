-- ===== src/Bytecode/Decoder.antt =====
-- lang/chunk_decoder.zig: an instruction read from the bytes. The bytes are a function, since the buffer goes
-- on behind the code.
pub mod Answers
use gengo.Prelude.{ℕ, ◌+◌, ◌-◌, ◌*◌, ◌^◌, Option, none, some, ltb, leb, if◌then◌else◌}
use gengo.Bytecode.Checked.{
  Checked, ok, error, ◌>>=◌, ◌>>◌, refuse_if, bytecode_out_of_bounds, bad_opcode, bad_jump_target,
}
use gengo.Bytecode.Op.{
  Op, op_of, jump, jump_if_false, jif_pop, jump_if_not_null, loop, call, call_tail, call_spread,
  defer_call, invoke_method, defer_invoke_method, get_local, set_local, get_global, set_global,
  def_global, get_upvalue, set_upvalue, close_upvalue, make_closure, constant, assert_type,
  assert_interface, assert_struct, variant_check, build_array, build_map, build_tuple,
  build_struct_instance, tuple_check_arity, tuple_get, tuple_get_keep, get_slice, get_field,
  set_field, check_named_predicate, validate_named_range, append, bytes_decode, get_index_const_str,
  assert_variant, const_eq, const_sub, const_add, const_lt, const_gt, get_local_const_eq,
  get_local_const_sub, get_local_const_add, get_local_const_lt, get_local_const_gt,
  get_local_const_eq_jif_pop, get_local_const_lt_jif_pop, get_local_const_gt_jif_pop,
  get_local_const_lt_jif_pop_jump, get_global_const_eq, get_global_const_sub, get_global_const_add,
  get_global_const_lt, get_global_const_lt_jif_pop, get_local_get_field, set_global_loop,
  close_upvalue_loop, ret_const, get_local_ret, get_local_const_sub_call,
  get_local_const_sub_call_tail, call_global_local_sub_const, call_global_local_sub_const_tail,
  local_add_local, local_add_const, local_add_const_loop, local_add_field, inc_global_const,
  field_add_const, inc_global_const_loop, inc_global_const_loop_nc, get_local_const_add_ret,
  get_global_call, get_global_call_tail, call_global_global, call_global_global_tail,
}

-- The code, and the number of its bytes.
pub record Code : Type 0 where
  pub byte : ℕ → ℕ
  pub code_len : ℕ

pub record DecodedInstruction : Type 0 where
  pub op : Op
  pub width : ℕ
  pub const_index : Option ℕ
  pub const_index_pos : Option ℕ
  pub jump_target : Option ℕ

unfoldable pub read_u16_at : Code → ℕ → Checked ℕ
read_u16_at s pos = do
  refuse_if (leb s.code_len (pos + 1)) bytecode_out_of_bounds
  ok (s.byte pos * 2 ^ 8 + s.byte (pos + 1))

unfoldable pub read_u32_at : Code → ℕ → Checked ℕ
read_u32_at s pos = do
  refuse_if (leb s.code_len (pos + 3)) bytecode_out_of_bounds
  ok (s.byte pos * 2 ^ 24 + s.byte (pos + 1) * 2 ^ 16 + s.byte (pos + 2) * 2 ^ 8 + s.byte (pos + 3))

module _ (s : Code) (pos : ℕ) (op : Op) where
  plain : ℕ → Checked DecodedInstruction
  plain width = ok record {
    op = op;
    width = width;
    const_index = none;
    const_index_pos = none;
    jump_target = none;
  }

  -- The index of a constant, `k` bytes into the instruction.
  with_const : ℕ → ℕ → Checked DecodedInstruction
  unfolding read_u16_at
  with_const width k = do
    index ← read_u16_at s (pos + k)
    ok record {
      op = op;
      width = width;
      const_index = some index;
      const_index_pos = some (pos + k);
      jump_target = none;
    }

  with_target : ℕ → Checked ℕ → Checked DecodedInstruction
  with_target width target = do
    t ← target
    ok record {
      op = op;
      width = width;
      const_index = none;
      const_index_pos = none;
      jump_target = some t;
    }

  with_both : ℕ → ℕ → Checked ℕ → Checked DecodedInstruction
  unfolding read_u16_at
  with_both width k target = do
    t ← target
    index ← read_u16_at s (pos + k)
    ok record {
      op = op;
      width = width;
      const_index = some index;
      const_index_pos = some (pos + k);
      jump_target = some t;
    }

module _ (s : Code) (pos : ℕ) where
  -- A jump ahead by the offset that stands `k` bytes into the instruction, and one back.
  ahead : ℕ → ℕ → Checked ℕ
  unfolding read_u32_at
  ahead width k = do off ← read_u32_at s (pos + k); ok (pos + width + off)

  back : ℕ → ℕ → Checked ℕ
  unfolding read_u32_at
  back width k = do
    off ← read_u32_at s (pos + k)
    refuse_if (ltb (pos + width) off) bad_jump_target
    ok (pos + width - off)

  -- The target is where the condition fails; the second offset is read and dropped.
  exit_of_two : Checked ℕ
  unfolding read_u32_at
  exit_of_two = do
    exit_off ← read_u32_at s (pos + 5)
    body_off ← read_u32_at s (pos + 9)
    ok (pos + 9 + exit_off)

-- What follows the opcode.
decode_op : Code → ℕ → Op → Checked DecodedInstruction
unfolding plain with_const with_target with_both ahead back exit_of_two
decode_op s pos constant = with_const s pos constant 3 1
decode_op s pos def_global = with_const s pos def_global 3 1
decode_op s pos make_closure = with_const s pos make_closure 3 1
decode_op s pos ret_const = with_const s pos ret_const 3 1
decode_op s pos const_eq = with_const s pos const_eq 3 1
decode_op s pos const_sub = with_const s pos const_sub 3 1
decode_op s pos const_add = with_const s pos const_add 3 1
decode_op s pos const_lt = with_const s pos const_lt 3 1
decode_op s pos const_gt = with_const s pos const_gt 3 1
decode_op s pos assert_interface = with_const s pos assert_interface 3 1
decode_op s pos assert_struct = with_const s pos assert_struct 3 1
decode_op s pos assert_variant = with_const s pos assert_variant 3 1
decode_op s pos variant_check = with_const s pos variant_check 3 1
decode_op s pos check_named_predicate = with_const s pos check_named_predicate 3 1
decode_op s pos validate_named_range = with_const s pos validate_named_range 3 1
decode_op s pos get_index_const_str = with_const s pos get_index_const_str 3 1
decode_op s pos jump = with_target s pos jump 5 (ahead s pos 5 1)
decode_op s pos jump_if_false = with_target s pos jump_if_false 5 (ahead s pos 5 1)
decode_op s pos jump_if_not_null = with_target s pos jump_if_not_null 5 (ahead s pos 5 1)
decode_op s pos jif_pop = with_target s pos jif_pop 5 (ahead s pos 5 1)
decode_op s pos loop = with_target s pos loop 5 (back s pos 5 1)
decode_op s pos call = plain s pos call 4
decode_op s pos call_tail = plain s pos call_tail 4
decode_op s pos call_spread = plain s pos call_spread 5
decode_op s pos get_local = plain s pos get_local 2
decode_op s pos set_local = plain s pos set_local 2
decode_op s pos get_upvalue = plain s pos get_upvalue 2
decode_op s pos set_upvalue = plain s pos set_upvalue 2
decode_op s pos close_upvalue = plain s pos close_upvalue 2
decode_op s pos get_local_ret = plain s pos get_local_ret 2
decode_op s pos defer_call = plain s pos defer_call 2
decode_op s pos build_array = plain s pos build_array 2
decode_op s pos build_map = plain s pos build_map 2
decode_op s pos build_tuple = plain s pos build_tuple 2
decode_op s pos build_struct_instance = plain s pos build_struct_instance 2
decode_op s pos tuple_check_arity = plain s pos tuple_check_arity 2
decode_op s pos tuple_get = plain s pos tuple_get 2
decode_op s pos tuple_get_keep = plain s pos tuple_get_keep 2
decode_op s pos get_slice = plain s pos get_slice 2
decode_op s pos assert_type = plain s pos assert_type 2
decode_op s pos append = plain s pos append 2
decode_op s pos bytes_decode = plain s pos bytes_decode 2
decode_op s pos get_global = with_const s pos get_global 5 1
decode_op s pos set_global = with_const s pos set_global 5 1
decode_op s pos get_field = with_const s pos get_field 6 1
decode_op s pos set_field = with_const s pos set_field 6 1
decode_op s pos invoke_method = with_const s pos invoke_method 8 1
decode_op s pos defer_invoke_method = with_const s pos defer_invoke_method 4 1
decode_op s pos get_local_const_eq = with_const s pos get_local_const_eq 5 3
decode_op s pos get_local_const_sub = with_const s pos get_local_const_sub 5 3
decode_op s pos get_local_const_add = with_const s pos get_local_const_add 5 3
decode_op s pos get_local_const_lt = with_const s pos get_local_const_lt 5 3
decode_op s pos get_local_const_gt = with_const s pos get_local_const_gt 5 3
decode_op s pos get_local_const_add_ret = with_const s pos get_local_const_add_ret 5 3
decode_op s pos get_local_const_sub_call = with_const s pos get_local_const_sub_call 8 3
decode_op s pos get_local_const_sub_call_tail = with_const s pos get_local_const_sub_call_tail 8 3
decode_op s pos call_global_local_sub_const = with_const s pos call_global_local_sub_const 13 8
decode_op s pos call_global_local_sub_const_tail =
    with_const s pos call_global_local_sub_const_tail 13 8
decode_op s pos get_global_call = with_const s pos get_global_call 8 1
decode_op s pos get_global_call_tail = with_const s pos get_global_call_tail 8 1
decode_op s pos call_global_global = with_const s pos call_global_global 12 1
decode_op s pos call_global_global_tail = with_const s pos call_global_global_tail 12 1
decode_op s pos inc_global_const = with_const s pos inc_global_const 8 6
decode_op s pos inc_global_const_loop = with_both s pos inc_global_const_loop 13 6 (back s pos 13 9)
decode_op s pos inc_global_const_loop_nc =
    with_both s pos inc_global_const_loop_nc 12 6 (back s pos 12 8)
decode_op s pos get_local_const_eq_jif_pop =
    with_both s pos get_local_const_eq_jif_pop 9 3 (ahead s pos 9 5)
decode_op s pos get_local_const_lt_jif_pop =
    with_both s pos get_local_const_lt_jif_pop 9 3 (ahead s pos 9 5)
decode_op s pos get_local_const_gt_jif_pop =
    with_both s pos get_local_const_gt_jif_pop 9 3 (ahead s pos 9 5)
decode_op s pos get_local_const_lt_jif_pop_jump =
    with_both s pos get_local_const_lt_jif_pop_jump 13 3 (exit_of_two s pos)
decode_op s pos get_global_const_eq = with_const s pos get_global_const_eq 8 6
decode_op s pos get_global_const_sub = with_const s pos get_global_const_sub 8 6
decode_op s pos get_global_const_add = with_const s pos get_global_const_add 8 6
decode_op s pos get_global_const_lt = with_const s pos get_global_const_lt 8 6
decode_op s pos get_global_const_lt_jif_pop =
    with_both s pos get_global_const_lt_jif_pop 12 6 (ahead s pos 12 8)
decode_op s pos get_local_get_field = with_const s pos get_local_get_field 8 3
decode_op s pos set_global_loop = with_both s pos set_global_loop 9 1 (back s pos 9 5)
decode_op s pos close_upvalue_loop = with_target s pos close_upvalue_loop 6 (back s pos 6 2)
decode_op s pos local_add_local = plain s pos local_add_local 3
decode_op s pos local_add_const = with_const s pos local_add_const 4 2
decode_op s pos local_add_const_loop = with_both s pos local_add_const_loop 8 2 (back s pos 8 4)
decode_op s pos local_add_field = with_const s pos local_add_field 9 4
decode_op s pos field_add_const = with_const s pos field_add_const 15 3
decode_op s pos op = plain s pos op 1

decoded_if : Code → ℕ → Option Op → Checked DecodedInstruction
unfolding decode_op
decoded_if s pos none = error bad_opcode
decoded_if s pos (some op) = decode_op s pos op

unfoldable pub decode_at : Code → ℕ → Checked DecodedInstruction
unfolding decoded_if
decode_at s pos = do
  refuse_if (leb s.code_len pos) bytecode_out_of_bounds
  decoded_if s pos (op_of (s.byte pos))
