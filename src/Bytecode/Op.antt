-- ===== src/Bytecode/Op.antt =====
-- lang/op.zig: the operations of the machine and their opcodes. `mod`, `not` and `min` are reserved or
-- shared names: they are `mod_op`, `not_op` and `min_op`.
use gengo.Prelude.{ℕ, List, [], ◌∷◌, Option, none, some, get_elem?}

pub data Op : Type 0 where
  halt op_unreachable jump jump_if_false jif_pop jump_if_not_null loop call call_tail call_spread :
      Op
  defer_call invoke_method defer_invoke_method ret get_local set_local get_global set_global : Op
  def_global get_upvalue set_upvalue close_upvalue make_closure constant null_val true_val : Op
  false_val dup dup2 pop add sub mul div int_div rem mod_op pow neg eq ne lt le gt ge not_op : Op
  task_self task_receive eqz_int nez_int ltz_int lez_int gtz_int gez_int eq_float ne_float : Op
  lt_float le_float gt_float ge_float abs floor ceil trunc nearest min_op max sign sqrt clamp : Op
  bit_and bit_or bit_xor bit_not shl shr cast_int cast_float cast_decimal cast_bool cast_string : Op
  cast_rune cast_bigint assert_type assert_interface assert_struct type_name set_named_predicate :
      Op
  validate_type_default op_assert op_assert_msg op_trap_check variant_check variant_payload : Op
  build_array build_map build_tuple build_struct_instance zero_struct tuple_check_arity tuple_get :
      Op
  tuple_get_keep get_index set_index get_slice get_field set_field iter_init iter_next1 : Op
  iter_next2 named_inner check_named_predicate swap validate_named_range len append bytelen : Op
  bytes_decode get_index_const_str assert_variant const_eq const_sub const_add const_lt const_gt :
      Op
  get_local_const_eq get_local_const_sub get_local_const_add get_local_const_lt : Op
  get_local_const_gt get_local_const_eq_jif_pop get_local_const_lt_jif_pop : Op
  get_local_const_gt_jif_pop get_local_const_lt_jif_pop_jump get_global_const_eq : Op
  get_global_const_sub get_global_const_add get_global_const_lt get_global_const_lt_jif_pop : Op
  get_local_get_field set_global_loop close_upvalue_loop ret_const get_local_ret : Op
  get_local_const_sub_call get_local_const_sub_call_tail call_global_local_sub_const : Op
  call_global_local_sub_const_tail add_ret local_add_local local_add_const local_add_const_loop : Op
  local_add_field inc_global_const field_add_const inc_global_const_loop inc_global_const_loop_nc :
      Op
  get_local_const_add_ret get_global_call get_global_call_tail call_global_global : Op
  call_global_global_tail : Op

-- The opcodes in order; `none` is a reserved slot.
abbrev opcodes : List (Option Op)
opcodes =
    some halt
    ∷ some op_unreachable
    ∷ some jump
    ∷ some jump_if_false
    ∷ some jif_pop
    ∷ some jump_if_not_null
    ∷ some loop
    ∷ some call
    ∷ some call_tail
    ∷ some call_spread
    ∷ some defer_call
    ∷ some invoke_method
    ∷ some defer_invoke_method
    ∷ some ret
    ∷ some get_local
    ∷ some set_local
    ∷ some get_global
    ∷ some set_global
    ∷ some def_global
    ∷ some get_upvalue
    ∷ some set_upvalue
    ∷ some close_upvalue
    ∷ some make_closure
    ∷ some constant
    ∷ some null_val
    ∷ some true_val
    ∷ some false_val
    ∷ some dup
    ∷ some dup2
    ∷ some pop
    ∷ some add
    ∷ some sub
    ∷ some mul
    ∷ some div
    ∷ some int_div
    ∷ some rem
    ∷ some mod_op
    ∷ some pow
    ∷ some neg
    ∷ some eq
    ∷ some ne
    ∷ some lt
    ∷ some le
    ∷ some gt
    ∷ some ge
    ∷ some not_op
    ∷ some task_self
    ∷ some task_receive
    ∷ none
    ∷ none
    ∷ some eqz_int
    ∷ some nez_int
    ∷ some ltz_int
    ∷ some lez_int
    ∷ some gtz_int
    ∷ some gez_int
    ∷ none
    ∷ none
    ∷ none
    ∷ none
    ∷ none
    ∷ none
    ∷ none
    ∷ none
    ∷ none
    ∷ none
    ∷ some eq_float
    ∷ some ne_float
    ∷ some lt_float
    ∷ some le_float
    ∷ some gt_float
    ∷ some ge_float
    ∷ some abs
    ∷ some floor
    ∷ some ceil
    ∷ some trunc
    ∷ some nearest
    ∷ some min_op
    ∷ some max
    ∷ some sign
    ∷ some sqrt
    ∷ some clamp
    ∷ some bit_and
    ∷ some bit_or
    ∷ some bit_xor
    ∷ some bit_not
    ∷ some shl
    ∷ some shr
    ∷ some cast_int
    ∷ some cast_float
    ∷ some cast_decimal
    ∷ some cast_bool
    ∷ some cast_string
    ∷ some cast_rune
    ∷ some cast_bigint
    ∷ some assert_type
    ∷ some assert_interface
    ∷ some assert_struct
    ∷ some type_name
    ∷ some set_named_predicate
    ∷ some validate_type_default
    ∷ some op_assert
    ∷ some op_assert_msg
    ∷ some op_trap_check
    ∷ some variant_check
    ∷ some variant_payload
    ∷ some build_array
    ∷ some build_map
    ∷ some build_tuple
    ∷ some build_struct_instance
    ∷ some zero_struct
    ∷ some tuple_check_arity
    ∷ some tuple_get
    ∷ some tuple_get_keep
    ∷ some get_index
    ∷ some set_index
    ∷ some get_slice
    ∷ some get_field
    ∷ some set_field
    ∷ some iter_init
    ∷ some iter_next1
    ∷ some iter_next2
    ∷ some named_inner
    ∷ some check_named_predicate
    ∷ some swap
    ∷ some validate_named_range
    ∷ some len
    ∷ some append
    ∷ some bytelen
    ∷ some bytes_decode
    ∷ some get_index_const_str
    ∷ some assert_variant
    ∷ none
    ∷ none
    ∷ none
    ∷ none
    ∷ none
    ∷ none
    ∷ none
    ∷ none
    ∷ none
    ∷ none
    ∷ none
    ∷ none
    ∷ none
    ∷ none
    ∷ none
    ∷ none
    ∷ none
    ∷ none
    ∷ none
    ∷ none
    ∷ none
    ∷ none
    ∷ none
    ∷ none
    ∷ none
    ∷ none
    ∷ none
    ∷ none
    ∷ none
    ∷ none
    ∷ none
    ∷ none
    ∷ none
    ∷ none
    ∷ none
    ∷ none
    ∷ none
    ∷ none
    ∷ none
    ∷ none
    ∷ none
    ∷ none
    ∷ none
    ∷ none
    ∷ none
    ∷ none
    ∷ none
    ∷ none
    ∷ none
    ∷ none
    ∷ none
    ∷ none
    ∷ none
    ∷ none
    ∷ none
    ∷ none
    ∷ none
    ∷ none
    ∷ none
    ∷ none
    ∷ some const_eq
    ∷ some const_sub
    ∷ some const_add
    ∷ some const_lt
    ∷ some const_gt
    ∷ some get_local_const_eq
    ∷ some get_local_const_sub
    ∷ some get_local_const_add
    ∷ some get_local_const_lt
    ∷ some get_local_const_gt
    ∷ some get_local_const_eq_jif_pop
    ∷ some get_local_const_lt_jif_pop
    ∷ some get_local_const_gt_jif_pop
    ∷ some get_local_const_lt_jif_pop_jump
    ∷ some get_global_const_eq
    ∷ some get_global_const_sub
    ∷ some get_global_const_add
    ∷ some get_global_const_lt
    ∷ some get_global_const_lt_jif_pop
    ∷ some get_local_get_field
    ∷ some set_global_loop
    ∷ some close_upvalue_loop
    ∷ some ret_const
    ∷ some get_local_ret
    ∷ some get_local_const_sub_call
    ∷ some get_local_const_sub_call_tail
    ∷ some call_global_local_sub_const
    ∷ some call_global_local_sub_const_tail
    ∷ some add_ret
    ∷ some local_add_local
    ∷ some local_add_const
    ∷ some local_add_const_loop
    ∷ some local_add_field
    ∷ some inc_global_const
    ∷ some field_add_const
    ∷ some inc_global_const_loop
    ∷ some inc_global_const_loop_nc
    ∷ some get_local_const_add_ret
    ∷ some get_global_call
    ∷ some get_global_call_tail
    ∷ some call_global_global
    ∷ some call_global_global_tail
    ∷ none
    ∷ none
    ∷ none
    ∷ none
    ∷ none
    ∷ none
    ∷ none
    ∷ none
    ∷ none
    ∷ none
    ∷ none
    ∷ none
    ∷ none
    ∷ none
    ∷ none
    ∷ none
    ∷ none
    ∷ none
    ∷ none
    ∷ none
    ∷ none
    ∷ none
    ∷ []

abbrev joined : Option (Option Op) → Option Op
joined none = none
joined (some op) = op

-- is_reserved and @enumFromInt: the operation of a byte, if it is not reserved
unfoldable pub op_of : ℕ → Option Op
op_of raw = joined (get_elem? opcodes raw)
