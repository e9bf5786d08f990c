-- ===== src/Convert.antt =====
-- The conversion between the values of the engine and the wires of the C side, of src/engine.zig:
-- `valueToWireDepth` writes blocks of wires into the permanent part of the heap, and `wireToValueDepth`
-- reads them. A string is the slice of memory it stands in; the conversion writes no byte of a string.
-- Variants are left out.
pub mod Plain
pub mod Fits
pub mod Blocks
pub mod RoundTrip
pub mod Depth
pub mod Scratch
mod Tests
use gengo.Prelude.{ℕ, zero, suc, ◌+◌, ◌-◌, ◌*◌, ◌/◌, ◌^◌, bit_and, ◌≡◌}
use gengo.Prelude.{
  Bool, true, false, not, List, [], ◌∷◌, Option, none, some, ltb, leb, ◌==◌, if◌then◌else◌,
}
use gengo.Wire.{
  Wire, wire_null, wire_boolean, wire_number, wire_string, wire_array, wire_map, wire_error,
  flag_integer, flag_decimal, flag_rune, wire_size,
}

-- the errors, and the panics of a cast to `u21` that does not fit and of a count that overflows
pub data ConvertError : Type 0 where
  host_value_too_deep host_value_too_large unsupported_wire_type wire_buffer_overflow
        out_of_memory :
      ConvertError
  cast_panic overflow_panic : ConvertError

pub data Conversion {ℓ} (A : Type ℓ) : Type ℓ where
  ok : A → Conversion A
  fails : ConvertError → Conversion A

infixl 5 ◌>>=◌
abbrev pub ◌>>=◌ {ℓ κ} :
    {A : Type ℓ} {B : Type κ} → Conversion A → (A → Conversion B) → Conversion B
ok a >>= f = f a
fails e >>= f = fails e

-- the bytes of a string, by address
pub record Slice : Type 0 where
  pub ptr : ℕ
  pub len : ℕ

-- `string` stands for the three representations of a string, `map` for those of a map and for the
-- instances of a struct, `array` for those of an array. An `int`, a `float` and a `decimal` are 64 bits.
mutual
  pub data Value : Type 0 where
    null actor_ref other_object : Value
    boolean : Bool → Value
    int float decimal rune : ℕ → Value
    string error_value enum_value : Slice → Value
    array : Items → Value
    map : Pairs → Value
    named_value : Value → Value

  pub data Items : Type 0 where
    nil : Items
    item : Value → Items → Items

  pub data Pairs : Type 0 where
    end : Pairs
    pair : Value → Value → Pairs → Pairs

-- The part of the heap that is never collected grows down from `permanent_bump`.
pub record Heap : Type 0 where
  pub permanent_bump : ℕ
  pub overflow_bump : ℕ
  pub wires : ℕ → Wire

abbrev pub write : Heap → ℕ → Wire → Heap
write h addr w = record h { wires = λ a. if a == addr then w else h.wires a }

-- heap.bump(ValueWire, n), aligned to 8 bytes
unfoldable pub bump : Heap → ℕ → Option (ℕ × Heap)
bump h n =
    let size = wire_size * n in
    let pos = (h.permanent_bump - size) / 8 * 8 in
    if ltb h.permanent_bump size
    then none
    else if ltb pos h.overflow_bump
    then none
    else some (pos, record h { permanent_bump = pos })

abbrev pub max_wire_depth : ℕ
max_wire_depth = 64

abbrev pub make_wire : ℕ → ℕ → ℕ → Wire
make_wire tag payload len = record {
  tag = tag;
  flags = 0;
  reserved = 0;
  payload = payload;
  len = len;
  reserved2 = 0;
}

abbrev pub number_wire : ℕ → ℕ → Wire
number_wire flags payload = record (make_wire wire_number payload 0) { flags = flags }

unfoldable pub wire_len : ℕ → Conversion ℕ
wire_len n = if leb (2 ^ 32) n then fails host_value_too_large else ok n

unfoldable pub slice_wire : ℕ → Slice → Heap → Conversion (Wire × Heap)
slice_wire tag s h = do len ← wire_len s.len; ok (make_wire tag s.ptr len, h)

-- A container in a block of its own. Without room for the block the answer is a null wire.
unfoldable pub in_block :
    Option (ℕ × Heap) → (ℕ → Heap → Conversion Heap) → ℕ → ℕ → Heap → Conversion (Wire × Heap)
in_block none fill tag n h = ok (make_wire wire_null 0 0, h)
in_block (some (base, h')) fill tag n h = do
  filled ← fill base h'
  len ← wire_len n
  ok (make_wire tag base len, filled)

abbrev pub count_items : Items → ℕ
count_items nil = 0
count_items (item v vs) = suc (count_items vs)

abbrev pub count_pairs : Pairs → ℕ
count_pairs end = 0
count_pairs (pair k v ps) = suc (count_pairs ps)

unfoldable pub check_depth {ℓ} : {A : Type ℓ} → ℕ → Conversion A → Conversion A
check_depth depth r = if leb max_wire_depth depth then fails host_value_too_deep else r

unfoldable mutual
  pub value_to_wire_depth : ℕ → Value → Heap → Conversion (Wire × Heap)
  value_to_wire_depth depth null h = check_depth depth (ok (make_wire wire_null 0 0, h))
  value_to_wire_depth depth (boolean b) h =
      check_depth depth (ok (make_wire wire_boolean (if b then 1 else 0) 0, h))
  value_to_wire_depth depth (int n) h = check_depth depth (ok (number_wire flag_integer n, h))
  value_to_wire_depth depth (float n) h = check_depth depth (ok (number_wire 0 n, h))
  value_to_wire_depth depth (decimal d) h = check_depth depth (ok (number_wire flag_decimal d, h))
  value_to_wire_depth depth (rune r) h = check_depth depth (ok (number_wire flag_rune r, h))
  value_to_wire_depth depth (string s) h = check_depth depth (slice_wire wire_string s h)
  value_to_wire_depth depth (error_value s) h = check_depth depth (slice_wire wire_error s h)
  value_to_wire_depth depth (enum_value s) h = check_depth depth (slice_wire wire_string s h)
  value_to_wire_depth depth (array vs) h =
      let n = count_items vs in
      check_depth depth (in_block (bump h n) (fill_array_wires (suc depth) vs) wire_array n h)
  value_to_wire_depth depth (map ps) h =
      let n = count_pairs ps in
      check_depth depth (in_block (bump h (n * 2)) (fill_map_wires (suc depth) ps) wire_map n h)
  value_to_wire_depth depth (named_value v) h =
      check_depth depth (value_to_wire_depth (suc depth) v h)
  value_to_wire_depth depth actor_ref h = check_depth depth (fails unsupported_wire_type)
  value_to_wire_depth depth other_object h = check_depth depth (fails unsupported_wire_type)

  -- `base` is the address of the wire of the first item.
  pub fill_array_wires : ℕ → Items → ℕ → Heap → Conversion Heap
  fill_array_wires depth nil base h = ok h
  fill_array_wires depth (item v vs) base h = value_to_wire_depth depth v h >>= λ r.
      fill_array_wires depth vs (base + wire_size) (write r.1 base r.0)

  pub fill_map_wires : ℕ → Pairs → ℕ → Heap → Conversion Heap
  fill_map_wires depth end base h = ok h
  fill_map_wires depth (pair k v ps) base h = value_to_wire_depth depth k h >>= λ r.
      value_to_wire_depth depth v (write r.1 base r.0) >>= λ s.
      fill_map_wires depth ps (base + wire_size * 2) (write s.1 (base + wire_size) s.0)

-- valueToWire
unfoldable pub value_to_wire : Value → Heap → Conversion (Wire × Heap)
value_to_wire v h = value_to_wire_depth 0 v h
