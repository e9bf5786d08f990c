-- ===== src/Bytecode/Walk.antt =====
-- The walk of `verify` of lang/chunk_verifier.zig, breadth first through the code from one entry, with the
-- depth of the stack above that at the entry. A depth is never negative, since an instruction that pops more is
-- refused before; the source tests the sum again.

pub mod Closed
pub mod Depths
pub mod Ends
pub mod Paths
pub mod Rounds
pub mod Same
use gengo.Prelude.{
  ℕ, zero, suc, ◌+◌, ◌-◌, List, [], ◌∷◌, ◌++◌, Bool, true, false, not, ◌&&◌, ◌||◌, Option, none,
  some, ltb, leb, if◌then◌else◌, replicate, get_elem?,
}
use gengo.Prelude.Updates.{set_elem}
use gengo.Bytecode.Checked.{
  Checked, ok, error, ◌>>=◌, ◌>>◌, refuse_if, invalid_bytecode, return_at_top_level,
  stack_underflow, no_fuel,
}
use gengo.Bytecode.Op.{
  Op, jump, jump_if_false, jif_pop, jump_if_not_null, loop, ret, get_local, set_local, get_upvalue,
  set_upvalue, close_upvalue, get_local_const_eq_jif_pop, get_local_const_lt_jif_pop,
  get_local_const_gt_jif_pop, get_local_const_lt_jif_pop_jump, get_global_const_lt_jif_pop,
  set_global_loop, close_upvalue_loop, ret_const, get_local_ret, add_ret, local_add_const_loop,
  inc_global_const_loop, inc_global_const_loop_nc, get_local_const_add_ret,
}
use gengo.Bytecode.Decoder.{Code, DecodedInstruction, decode_at}
use gengo.Bytecode.Effect.{Effect, stack_effect}
use gengo.Bytecode.Scan.{has}

unfoldable pub is_return_op : Op → Bool
is_return_op ret = true
is_return_op ret_const = true
is_return_op get_local_ret = true
is_return_op add_ret = true
is_return_op get_local_const_add_ret = true
is_return_op _ = false

unfoldable pub is_unconditional_branch : Op → Bool
is_unconditional_branch jump = true
is_unconditional_branch loop = true
is_unconditional_branch set_global_loop = true
is_unconditional_branch close_upvalue_loop = true
is_unconditional_branch local_add_const_loop = true
is_unconditional_branch inc_global_const_loop = true
is_unconditional_branch inc_global_const_loop_nc = true
is_unconditional_branch _ = false

unfoldable pub is_conditional_branch : Op → Bool
is_conditional_branch jump_if_false = true
is_conditional_branch jump_if_not_null = true
is_conditional_branch jif_pop = true
is_conditional_branch get_local_const_eq_jif_pop = true
is_conditional_branch get_local_const_lt_jif_pop = true
is_conditional_branch get_local_const_gt_jif_pop = true
is_conditional_branch get_global_const_lt_jif_pop = true
is_conditional_branch get_local_const_lt_jif_pop_jump = true
is_conditional_branch _ = false

-- The operands that are slots, and their bounds.
unfoldable pub slot_is_bad : Op → ℕ → ℕ → ℕ → Bool
slot_is_bad get_local slot limit upvalue_count = leb limit slot
slot_is_bad set_local slot limit upvalue_count = leb limit slot
slot_is_bad close_upvalue slot limit upvalue_count = leb limit slot
slot_is_bad get_upvalue slot limit upvalue_count = leb upvalue_count slot
slot_is_bad set_upvalue slot limit upvalue_count = leb upvalue_count slot
slot_is_bad _ slot limit upvalue_count = false

pub record WorkItem : Type 0 where
  pub ip : ℕ
  pub depth : ℕ

abbrev pub work_item : ℕ → ℕ → WorkItem
work_item ip depth = record { ip = ip; depth = depth }

pub record Visit : Type 0 where
  pub new_depth : ℕ
  pub work : List WorkItem

-- The parameters of a run.
pub record Entry : Type 0 where
  pub entry_ip : ℕ
  pub check_ret : Bool
  pub local_base : ℕ
  pub upvalue_count : ℕ

unfoldable pub fall_through : Code → DecodedInstruction → ℕ → ℕ → List WorkItem
fall_through s inst ip new_depth =
    if not (is_return_op inst.op) && not (is_unconditional_branch inst.op)
    then (if ltb (ip + inst.width) s.code_len
        then work_item (ip + inst.width) new_depth ∷ []
        else [])
    else []

abbrev pub to_target : Option ℕ → ℕ → List WorkItem
to_target none new_depth = []
to_target (some target) new_depth = work_item target new_depth ∷ []

unfoldable pub branch : DecodedInstruction → ℕ → List WorkItem
branch inst new_depth =
    if is_conditional_branch inst.op || is_unconditional_branch inst.op
    then to_target inst.jump_target new_depth
    else []

abbrev pub visited : Code → DecodedInstruction → ℕ → ℕ → Visit
visited s inst ip new_depth = record {
  new_depth = new_depth;
  work = fall_through s inst ip new_depth ++ branch inst new_depth;
}

-- The checks of an instruction that is met for the first time, and what is appended.
unfoldable pub visit : Code → Entry → WorkItem → Checked Visit
visit s e at = do
  inst ← decode_at s at.ip
  refuse_if (slot_is_bad inst.op (s.byte (at.ip + 1)) (e.local_base + at.depth) e.upvalue_count)
      invalid_bytecode
  effect ← stack_effect inst.op s.byte at.ip
  refuse_if (is_return_op inst.op && e.check_ret) return_at_top_level
  refuse_if (ltb at.depth effect.pop) stack_underflow
  ok (visited s inst at.ip (at.depth - effect.pop + effect.push))

-- depth[ip]
abbrev pub depth_at : List (Option ℕ) → ℕ → Option ℕ
depth_at depths i = elim (get_elem? depths i) [ none ↦ none | some d ↦ d ]

abbrev pub is_none {ℓ} : {A : Type ℓ} → Option A → Bool
is_none none = true
is_none (some a) = false

-- Whether an item is new: in the code, at an instruction, and not met before.
unfoldable pub is_new : Code → List Bool → List (Option ℕ) → ℕ → Bool
is_new s starts depths ip = ltb ip s.code_len && has starts ip && is_none (depth_at depths ip)

abbrev pub larger : ℕ → ℕ → ℕ
larger max_depth new_depth = if ltb max_depth new_depth then new_depth else max_depth

-- The loop over the items that are left.
unfoldable pub walk : ℕ → Code → List Bool → Entry → List WorkItem → List (Option ℕ) → ℕ → Checked ℕ
walk fuel s starts e [] depths max_depth = ok max_depth
walk zero s starts e (at ∷ rest) depths max_depth = error no_fuel
walk (suc fuel) s starts e (at ∷ rest) depths max_depth =
    let skipped = walk fuel s starts e rest depths max_depth in
    let entered = (do
      v ← visit s e at
      walk fuel s starts e (rest ++ v.work) (set_elem depths at.ip (some at.depth))
          (larger max_depth v.new_depth)) in
    if is_new s starts depths at.ip then entered else skipped

-- Each instruction is entered once and appends two items at most.
abbrev pub walk_fuel : Code → ℕ
walk_fuel s = s.code_len + s.code_len + 1

unfoldable pub run : Code → List Bool → Entry → Checked ℕ
run s starts e =
    walk (walk_fuel s) s starts e (work_item e.entry_ip 0 ∷ []) (replicate s.code_len none) 0
