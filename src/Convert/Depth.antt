-- ===== src/Convert/Depth.antt =====
-- The bound MaxWireDepth: arrays nested too deep, and wires that contain themselves, end in an error.
use gengo.Prelude.{ℕ, zero, suc, ◌+◌, ◌*◌, ◌≤◌, ◌≡◌, refl, arith, true, inl, inr, leb, Bool-cases}
use gengo.Wire.{wire_array}
use gengo.Convert.{
  Conversion, fails, host_value_too_deep, Heap, Value, null, array, nil, item, make_wire,
  max_wire_depth, in_block, check_depth, value_to_wire_depth, value_to_wire,
}
use gengo.Convert.Plain.{
  always, if_granted, if_pairs_fit, View, tag_of, read_items, wire_to_value_depth, wire_to_value,
}
use gengo.Convert.Blocks.{bump_room, check_shallow}

-- `v` inside `k` arrays of one item.
unfoldable pub nest : ℕ → Value → Value
nest zero v = v
nest (suc k) v = array (item (nest k v) nil)

check_deep {ℓ} :
    {A : Type ℓ} (depth : ℕ) (r : Conversion A)
    → max_wire_depth ≤ depth
    → check_depth depth r ≡ fails host_value_too_deep
unfolding check_depth
check_deep depth r deep = let e : leb max_wire_depth depth ≡ true = ground arith in rw e refl

value_deep :
    (depth : ℕ) (v : Value) (h : Heap)
    → max_wire_depth ≤ depth
    → value_to_wire_depth depth v h ≡ fails host_value_too_deep
unfolding value_to_wire_depth
value_deep depth null h deep = check_deep depth _ deep
value_deep depth _ h deep = check_deep depth _ deep

nest_deep :
    (k depth : ℕ) (v : Value) (h : Heap)
    → max_wire_depth ≤ depth + k
    → h.overflow_bump + 31 * k ≤ h.permanent_bump
    → value_to_wire_depth depth (nest k v) h ≡ fails host_value_too_deep
unfolding nest value_to_wire_depth in_block
nest_deep zero depth v h deep room = value_deep depth v h (omega arith)
nest_deep (suc k) depth v h deep room = elim (Bool-cases (leb max_wire_depth depth)) [
  | inl too_deep ↦ check_deep depth _ (ground arith)
  | inr shallow ↦
      let (base, bumps, below, padding) = bump_room h 1 (omega arith) in
      let inner =
        nest_deep k (suc depth) v (record h { permanent_bump = base }) (omega arith)
          (omega arith) in
      rw (check_shallow depth _ (ground arith), bumps, inner) refl
]

-- On a heap with room for the blocks of the nesting, any value inside 64 or more arrays of one item each is
-- refused as too deep.
pub value_to_wire_too_deep :
    (k : ℕ) (v : Value) (h : Heap)
    → max_wire_depth ≤ k
    → h.overflow_bump + 31 * k ≤ h.permanent_bump
    → value_to_wire (nest k v) h ≡ fails host_value_too_deep
unfolding value_to_wire
value_to_wire_too_deep k v h deep room = nest_deep k 0 v h (omega arith) room

read_cyclic :
    (left : ℕ) (m : View) (base n : ℕ)
    → m.wires base ≡ make_wire wire_array base (suc n)
    → wire_to_value_depth always left m (make_wire wire_array base (suc n))
      ≡ fails host_value_too_deep
unfolding wire_to_value_depth if_granted if_pairs_fit tag_of read_items
read_cyclic zero m base n itself = refl
read_cyclic (suc left) m base n itself = rw (itself, read_cyclic left m base n itself) refl

-- An array wire whose first item is the array itself is refused as too deep.
pub wire_to_value_cyclic :
    (m : View) (base n : ℕ)
    → m.wires base ≡ make_wire wire_array base (suc n)
    → wire_to_value always m (make_wire wire_array base (suc n)) ≡ fails host_value_too_deep
unfolding wire_to_value
wire_to_value_cyclic m base n itself = read_cyclic max_wire_depth m base n itself
