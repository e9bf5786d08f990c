-- ===== src/Convert/Blocks.antt =====
-- Steps of the conversion: a block that the heap has room for, a value that takes no block, and the tests
-- on depth and length that pass.
use gengo.Prelude.{ℕ, zero, suc, ◌+◌, ◌-◌, ◌*◌, ◌/◌, ◌^◌, ◌≤◌, ◌<◌, ◌≡◌, refl, arith}
use gengo.Prelude.{false, some, ltb, leb}
use gengo.Wire.{Wire, wire_size}
use gengo.Convert.{
  Conversion, ok, Slice, Heap, bump, max_wire_depth, make_wire, wire_len, slice_wire, check_depth,
  Value, value_to_wire_depth,
}
use gengo.Convert.Plain.{always, View, wire_to_value_depth, content}
use gengo.Convert.Fits.{cost, Grows, IsOutside, Grows-refl, Converted}

-- A block of `n` wires that the heap has room for.
pub bump_room :
    (h : Heap) (n : ℕ)
    → h.overflow_bump + (wire_size * n + 7) ≤ h.permanent_bump
    → (base : ℕ) × (bump h n ≡ some (base, record h { permanent_bump = base }))
      × (base + wire_size * n ≤ h.permanent_bump)
      × (h.permanent_bump ≤ base + (wire_size * n + 7))
unfolding bump
bump_room h n room =
    let pos = (h.permanent_bump - wire_size * n) / 8 * 8 in
    let fits : ltb h.permanent_bump (wire_size * n) ≡ false = ground arith in
    let above : ltb pos h.overflow_bump ≡ false = ground arith in
    (pos, rw (fits, above) refl, omega arith, omega arith)

-- A value that takes no block.
pub leaf :
    (depth : ℕ) (v : Value) (h : Heap) (w : Wire)
    → h.overflow_bump + cost v ≤ h.permanent_bump
    → depth < max_wire_depth
    → value_to_wire_depth depth v h ≡ ok (w, h)
    → ((m : View) (left : ℕ) → wire_to_value_depth always (suc left) m w ≡ ok (content m.byte v))
    → Converted depth v h
leaf depth v h w room shallow answers reads = record {
  wire = w;
  heap = h;
  answers = answers;
  grows = Grows-refl (cost v) 0 0 h (omega arith);
  reads = λ m left deep shows. enough m left deep;
}
  where
    enough :
        (m : View) (left : ℕ)
        → max_wire_depth ≤ left + depth
        → wire_to_value_depth always left m w ≡ ok (content m.byte v)
    enough m zero deep = absurd (omega arith)
    enough m (suc left) deep = reads m left

pub check_shallow {ℓ} :
    {A : Type ℓ} (depth : ℕ) (r : Conversion A) → depth < max_wire_depth → check_depth depth r ≡ r
unfolding check_depth
check_shallow depth r shallow = let e : leb max_wire_depth depth ≡ false = ground arith in rw e refl

pub wire_len_fits : (n : ℕ) → n < 2 ^ 32 → wire_len n ≡ ok n
unfolding wire_len
wire_len_fits n lt = let e : leb (2 ^ 32) n ≡ false = ground arith in rw e refl

pub slice_wire_fits :
    (tag : ℕ) (s : Slice) (h : Heap)
    → s.len < 2 ^ 32
    → slice_wire tag s h ≡ ok (make_wire tag s.ptr s.len, h)
unfolding slice_wire
slice_wire_fits tag s h lt = rw (wire_len_fits s.len lt) refl

-- A block with what its fill took below it.
pub Grows-block :
    (n d base : ℕ) (h h2 : Heap)
    → Grows d base (base + wire_size * n) (record h { permanent_bump = base }) h2
    → base + wire_size * n ≤ h.permanent_bump
    → h.permanent_bump ≤ base + (wire_size * n + 7)
    → Grows (wire_size * n + 7 + d) 0 0 h h2
Grows-block n d base h h2 g below padding = record {
  lowers = omega (arith, g.lowers);
  costs = omega (arith, g.costs);
  limit = g.limit;
  stays = g.stays;
  frame = λ a away outside. framed a away;
}
  where
    framed : (a : ℕ) → IsOutside h a → h2.wires a ≡ h.wires a
    framed a away =
        let low = g.lowers in
        let limit = g.limit in let stays = g.stays in g.frame a (ground arith) (ground arith)

pub level_left :
    (depth left : ℕ)
    → depth < max_wire_depth
    → max_wire_depth ≤ left + depth
    → (l : ℕ) × (left ≡ suc l) × (max_wire_depth ≤ l + suc depth)
level_left depth zero shallow deep = absurd (omega arith)
level_left depth (suc l) shallow deep = (l, refl, omega arith)
