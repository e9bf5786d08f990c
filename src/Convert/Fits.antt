-- ===== src/Convert/Fits.antt =====
-- Which values the conversion accepts and what room it takes; what it is for a value, and for a block,
-- to be converted; and how the heap grows by one wire.
use gengo.Prelude.{ℕ, suc, ◌+◌, ◌*◌, ◌^◌, ◌≤◌, ◌<◌, ◌≡◌, ◌≢◌, ◌⊎◌, inl, inr, refl, ◌∙◌, arith}
use gengo.Prelude.{true, false, ◌==◌}
use gengo.Wire.{Wire, wire_size}
use gengo.Convert.{
  ok, Heap, write, max_wire_depth, count_items, count_pairs, Value, null, actor_ref, other_object,
  boolean, int, float, decimal, rune, string, error_value, enum_value, array, map, named_value,
  Items, nil, item, Pairs, end, pair, value_to_wire_depth, fill_array_wires, fill_map_wires,
}
use gengo.Convert.Plain.{
  always, View, read_items, read_pairs, wire_to_value_depth, content, content_items, content_pairs,
}

-- At `depth`, the value nests to at most MaxWireDepth levels, holds nothing without a wire, its lengths
-- fit in 32 bits, the number of pairs of a map in 31, and its runes in 21.
unfoldable mutual
  pub Fits : ℕ → Value → Type 0
  Fits depth null = depth < max_wire_depth
  Fits depth actor_ref = ⊥
  Fits depth other_object = ⊥
  Fits depth (boolean b) = depth < max_wire_depth
  Fits depth (int n) = depth < max_wire_depth
  Fits depth (float n) = depth < max_wire_depth
  Fits depth (decimal n) = depth < max_wire_depth
  Fits depth (rune r) = (depth < max_wire_depth) × (r < 2 ^ 21)
  Fits depth (string s) = (depth < max_wire_depth) × (s.len < 2 ^ 32)
  Fits depth (error_value s) = (depth < max_wire_depth) × (s.len < 2 ^ 32)
  Fits depth (enum_value s) = (depth < max_wire_depth) × (s.len < 2 ^ 32)
  Fits depth (array vs) =
      (depth < max_wire_depth) × (count_items vs < 2 ^ 32) × FitsItems (suc depth) vs
  Fits depth (map ps) =
      (depth < max_wire_depth) × (count_pairs ps < 2 ^ 31) × FitsPairs (suc depth) ps
  Fits depth (named_value v) = (depth < max_wire_depth) × Fits (suc depth) v

  pub FitsItems : ℕ → Items → Type 0
  FitsItems depth nil = Unit
  FitsItems depth (item v vs) = Fits depth v × FitsItems depth vs

  pub FitsPairs : ℕ → Pairs → Type 0
  FitsPairs depth end = Unit
  FitsPairs depth (pair k v ps) = Fits depth k × Fits depth v × FitsPairs depth ps

-- Bytes of the heap that the blocks of the value take, with the padding of each.
unfoldable mutual
  pub cost : Value → ℕ
  cost null = 0
  cost actor_ref = 0
  cost other_object = 0
  cost (boolean b) = 0
  cost (int n) = 0
  cost (float n) = 0
  cost (decimal n) = 0
  cost (rune r) = 0
  cost (string s) = 0
  cost (error_value s) = 0
  cost (enum_value s) = 0
  cost (array vs) = wire_size * count_items vs + 7 + cost_items vs
  cost (map ps) = wire_size * (count_pairs ps * 2) + 7 + cost_pairs ps
  cost (named_value v) = cost v

  pub cost_items : Items → ℕ
  cost_items nil = 0
  cost_items (item v vs) = cost v + cost_items vs

  pub cost_pairs : Pairs → ℕ
  cost_pairs end = 0
  cost_pairs (pair k v ps) = cost k + cost v + cost_pairs ps

-- An address that no block taken from `h` can hold.
abbrev pub IsOutside : Heap → ℕ → Type 0
IsOutside h a = (h.permanent_bump ≤ a) ⊎ (a < h.overflow_bump)

-- A block of addresses from `lo` to `hi` that no block taken from `h` meets.
abbrev pub IsApart : Heap → ℕ → ℕ → Type 0
IsApart h lo hi = (h.permanent_bump ≤ lo) ⊎ (hi ≤ h.overflow_bump)

-- The heap has lost at most `c` bytes, and nothing outside its free part has changed but, maybe, the
-- addresses from `lo` to `hi`.
pub record Grows (c lo hi : ℕ) (h h' : Heap) : Type 0 where
  pub lowers : h'.permanent_bump ≤ h.permanent_bump
  pub costs : h.permanent_bump ≤ h'.permanent_bump + c
  pub limit : h'.overflow_bump ≡ h.overflow_bump
  pub stays : h'.overflow_bump ≤ h'.permanent_bump
  pub frame : (a : ℕ) → IsOutside h a → (a < lo) ⊎ (hi ≤ a) → h'.wires a ≡ h.wires a

-- `m` shows what stands in `h` from `lo` to `hi`.
abbrev pub Shows : View → Heap → ℕ → ℕ → Type 0
Shows m h lo hi = (a : ℕ) → lo ≤ a → a < hi → m.wires a ≡ h.wires a

pub record Converted (depth : ℕ) (v : Value) (h : Heap) : Type 0 where
  pub wire : Wire
  pub heap : Heap
  pub answers : value_to_wire_depth depth v h ≡ ok (wire, heap)
  pub grows : Grows (cost v) 0 0 h heap
  pub reads :
      (m : View) (left : ℕ)
      → max_wire_depth ≤ left + depth
      → Shows m heap heap.permanent_bump h.permanent_bump
      → wire_to_value_depth always left m wire ≡ ok (content m.byte v)

pub record ItemsFilled (depth : ℕ) (vs : Items) (base : ℕ) (h : Heap) : Type 0 where
  pub heap : Heap
  pub answers : fill_array_wires depth vs base h ≡ ok heap
  pub grows : Grows (cost_items vs) base (base + wire_size * count_items vs) h heap
  pub reads :
      (m : View) (left : ℕ)
      → max_wire_depth ≤ left + depth
      → Shows m heap heap.permanent_bump h.permanent_bump
      → Shows m heap base (base + wire_size * count_items vs)
      → read_items (wire_to_value_depth always left m) m.wires base (count_items vs)
        ≡ ok (content_items m.byte vs)

pub record PairsFilled (depth : ℕ) (ps : Pairs) (base : ℕ) (h : Heap) : Type 0 where
  pub heap : Heap
  pub answers : fill_map_wires depth ps base h ≡ ok heap
  pub grows : Grows (cost_pairs ps) base (base + wire_size * (count_pairs ps * 2)) h heap
  pub reads :
      (m : View) (left : ℕ)
      → max_wire_depth ≤ left + depth
      → Shows m heap heap.permanent_bump h.permanent_bump
      → Shows m heap base (base + wire_size * (count_pairs ps * 2))
      → read_pairs (wire_to_value_depth always left m) m.wires base (count_pairs ps)
        ≡ ok (content_pairs m.byte ps)

pub Grows-refl : (c lo hi : ℕ) (h : Heap) → h.overflow_bump ≤ h.permanent_bump → Grows c lo hi h h
Grows-refl c lo hi h stays = record {
  lowers = omega arith;
  costs = omega arith;
  limit = refl;
  stays = stays;
  frame = λ a away outside. refl;
}

pub write_other :
    (h : Heap) (a base : ℕ) (w : Wire) → a ≢ base → (write h base w).wires a ≡ h.wires a
write_other h a base w other = let e : (a == base) ≡ false = ground arith in rw e refl

pub write_same : (h : Heap) (base : ℕ) (w : Wire) → (write h base w).wires base ≡ w
write_same h base w = let e : (base == base) ≡ true = ground arith in rw e refl

-- One value is converted to `h1`, its wire goes to `base`, and the rest of the block is filled.
module _ (c d base hi : ℕ) (h h1 h2 : Heap) (w : Wire) (first : Grows c 0 0 h h1)
    (rest : Grows d (base + wire_size) hi (write h1 base w) h2) (apart : IsApart h base hi)
    (room : base + wire_size ≤ hi) where
  -- An address that is outside for the first conversion is outside for the rest.
  still-IsOutside : (a : ℕ) → IsOutside h a → IsOutside (write h1 base w) a
  still-IsOutside a away = let low = first.lowers in let limit = first.limit in ground arith

  pub Grows-write : Grows (c + d) base hi h h2
  Grows-write = record {
    lowers = omega (arith, first.lowers, rest.lowers);
    costs = omega (arith, first.costs, rest.costs);
    limit = rest.limit ∙ first.limit;
    stays = rest.stays;
    frame = framed;
  }
    where
      framed : (a : ℕ) → IsOutside h a → (a < base) ⊎ (hi ≤ a) → h2.wires a ≡ h.wires a
      framed a away outside =
          let outside' : (a < base + wire_size) ⊎ (hi ≤ a) = ground arith in
          rest.frame a (still-IsOutside a away) outside'
          ∙ write_other h1 a base w (λ e. absurd (ground arith))
          ∙ first.frame a away (inr (omega arith))

  pub Shows-write :
      (m : View)
      → Shows m h2 h2.permanent_bump h.permanent_bump
      → Shows m h2 base hi
      → (m.wires base ≡ w)
        × Shows m h1 h1.permanent_bump h.permanent_bump
        × Shows m h2 h2.permanent_bump h1.permanent_bump
        × Shows m h2 (base + wire_size) hi
  Shows-write m below block =
      let low = first.lowers in
      let low2 = rest.lowers in
      let limit = first.limit in
      let stays = first.stays in
      let base_outside : IsOutside h base = ground arith in
      (
        block base (omega arith) (omega arith)
            ∙ rest.frame base (still-IsOutside base base_outside) (inl (omega arith))
            ∙ write_same h1 base w,
        λ a le lt. in_first a le lt,
        λ a le lt. below a le (omega arith),
        λ a le lt. block a (omega arith) lt,
      )
    where
      in_first : (a : ℕ) → h1.permanent_bump ≤ a → a < h.permanent_bump → m.wires a ≡ h1.wires a
      in_first a le lt =
          let low = first.lowers in
          let low2 = rest.lowers in
          let limit = first.limit in
          let stays = first.stays in
          let off_block : (a < base) ⊎ (hi ≤ a) = ground arith in
          let outside' : (a < base + wire_size) ⊎ (hi ≤ a) = ground arith in
          below a (omega arith) lt
          ∙ rest.frame a (inl le) outside'
          ∙ write_other h1 a base w (λ e. absurd (ground arith))
