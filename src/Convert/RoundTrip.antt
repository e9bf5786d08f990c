-- ===== src/Convert/RoundTrip.antt =====
-- A value that fits, and for whose blocks the heap has room, is converted, and reading the wire back
-- gives its content.
use gengo.Prelude.{ℕ, suc, ◌+◌, ◌*◌, ◌^◌, ◌≤◌, ◌≡◌, refl, sym, ◌∙◌, arith}
use gengo.Prelude.{true, false, ltb}
use gengo.Prelude.{inl}
use gengo.Wire.{
  Wire, wire_size, wire_array, wire_map, wire_string, wire_error, wire_null, wire_boolean,
  flag_integer, flag_decimal, flag_rune,
}
use gengo.Convert.{
  ok, Heap, write, max_wire_depth, make_wire, number_wire, in_block, count_items, count_pairs,
  Value, null, actor_ref, other_object, boolean, int, float, decimal, rune, string, error_value,
  enum_value, array, map, named_value, Items, nil, item, Pairs, end, pair, value_to_wire_depth,
  value_to_wire,
}
use gengo.Convert.Plain.{
  if_granted, if_pairs_fit, always, View, slice_bytes, number_value, read_items, read_pairs, tag_of,
  wire_to_value_depth, content, wire_to_value,
}
use gengo.Convert.Fits.{
  Fits, FitsItems, FitsPairs, cost, cost_items, cost_pairs, IsApart, Grows-refl, Converted,
  ItemsFilled, PairsFilled, Grows-write, Shows-write,
}
use gengo.Convert.Blocks.{
  bump_room, leaf, check_shallow, wire_len_fits, slice_wire_fits, Grows-block, level_left,
}

mutual
  unfolding Fits cost value_to_wire_depth wire_to_value_depth if_granted if_pairs_fit tag_of content
      slice_bytes number_value read_items read_pairs in_block

  pub convert :
      (depth : ℕ) (v : Value) (h : Heap)
      → Fits depth v
      → h.overflow_bump + cost v ≤ h.permanent_bump
      → Converted depth v h
  convert depth null h fits room =
      leaf depth null h (make_wire wire_null 0 0) room fits (check_shallow depth _ fits)
        (λ m left. refl)
  convert depth actor_ref h fits room = absurd fits
  convert depth other_object h fits room = absurd fits
  convert depth (boolean true) h fits room =
      leaf depth (boolean true) h (make_wire wire_boolean 1 0) room fits
        (check_shallow depth _ fits) (λ m left. refl)
  convert depth (boolean false) h fits room =
      leaf depth (boolean false) h (make_wire wire_boolean 0 0) room fits
        (check_shallow depth _ fits) (λ m left. refl)
  convert depth (int n) h fits room =
      leaf depth (int n) h (number_wire flag_integer n) room fits (check_shallow depth _ fits)
        (λ m left. refl)
  convert depth (float n) h fits room =
      leaf depth (float n) h (number_wire 0 n) room fits (check_shallow depth _ fits)
        (λ m left. refl)
  convert depth (decimal n) h fits room =
      leaf depth (decimal n) h (number_wire flag_decimal n) room fits (check_shallow depth _ fits)
        (λ m left. refl)
  convert depth (rune r) h (shallow, small) room =
      let in_21 : ltb r (2 ^ 21) ≡ true = ground arith in
      leaf depth (rune r) h (number_wire flag_rune r) room shallow (check_shallow depth _ shallow)
        (λ m left. rw in_21 refl)
  convert depth (string s) h (shallow, short) room =
      leaf depth (string s) h (make_wire wire_string s.ptr s.len) room shallow
        (check_shallow depth _ shallow ∙ slice_wire_fits wire_string s h short) (λ m left. refl)
  convert depth (error_value s) h (shallow, short) room =
      leaf depth (error_value s) h (make_wire wire_error s.ptr s.len) room shallow
        (check_shallow depth _ shallow ∙ slice_wire_fits wire_error s h short) (λ m left. refl)
  convert depth (enum_value s) h (shallow, short) room =
      leaf depth (enum_value s) h (make_wire wire_string s.ptr s.len) room shallow
        (check_shallow depth _ shallow ∙ slice_wire_fits wire_string s h short) (λ m left. refl)
  convert depth (named_value v) h (shallow, inner) room =
      let c = convert (suc depth) v h inner room in
      record {
        wire = c.wire;
        heap = c.heap;
        answers = check_shallow depth _ shallow ∙ c.answers;
        grows = c.grows;
        reads = λ m left deep shows. c.reads m left (omega arith) shows;
      }
  convert depth (array vs) h (shallow, short, inner) room =
      let n = count_items vs in
      let (base, bumps, below, padding) = bump_room h n (omega arith) in
      let h0 : Heap = record h { permanent_bump = base } in
      let c = convert_items (suc depth) vs base h0 inner (inl (omega arith)) (omega arith) in
      let low = c.grows.lowers in
      record {
        wire = make_wire wire_array base (count_items vs);
        heap = c.heap;
        answers =
            check_shallow depth _ shallow
            ∙ rw (bumps, c.answers, wire_len_fits (count_items vs) short) refl;
        grows = Grows-block (count_items vs) (cost_items vs) base h c.heap c.grows below padding;
        reads = λ m left deep shows.
            let (l, is_suc, enough) = level_left depth left shallow deep in
            rw is_suc (
              rw
                (c.reads m l enough (λ a le lt. shows a le (omega arith))
                  (λ a le lt. shows a (omega arith) (omega arith)))
                refl);
      }
  convert depth (map ps) h (shallow, short, inner) room =
      let n = count_pairs ps * 2 in
      let (base, bumps, below, padding) = bump_room h n (omega arith) in
      let h0 : Heap = record h { permanent_bump = base } in
      let c = convert_pairs (suc depth) ps base h0 inner (inl (omega arith)) (omega arith) in
      let low = c.grows.lowers in
      record {
        wire = make_wire wire_map base (count_pairs ps);
        heap = c.heap;
        answers =
            check_shallow depth _ shallow
            ∙ rw (bumps, c.answers, wire_len_fits (count_pairs ps) (omega arith)) refl;
        grows =
            Grows-block (count_pairs ps * 2) (cost_pairs ps) base h c.heap c.grows below padding;
        reads = λ m left deep shows.
            let few : ltb (count_pairs ps) (2 ^ 31) ≡ true = ground arith in
            let (l, is_suc, enough) = level_left depth left shallow deep in
            rw is_suc (
              rw
                (
                  few,
                  c.reads m l enough (λ a le lt. shows a le (omega arith))
                      (λ a le lt. shows a (omega arith) (omega arith)),
                )
                refl);
      }

  pub convert_items :
      (depth : ℕ) (vs : Items) (base : ℕ) (h : Heap)
      → FitsItems depth vs
      → IsApart h base (base + wire_size * count_items vs)
      → h.overflow_bump + cost_items vs ≤ h.permanent_bump
      → ItemsFilled depth vs base h
  convert_items depth nil base h fits apart room = record {
    heap = h;
    answers = refl;
    grows = Grows-refl 0 base (base + wire_size * 0) h (omega arith);
    reads = λ m left deep below block. refl;
  }
  convert_items depth (item v vs) base h (first, others) apart room =
      let c = convert depth v h first (omega arith) in
      let low = c.grows.lowers in
      let lost = c.grows.costs in
      let limit = c.grows.limit in
      let h1 = write c.heap base c.wire in
      let r = convert_items depth vs (base + wire_size) h1 others (ground arith) (omega arith) in
      let hi : base + wire_size + wire_size * count_items vs
          ≡ base + wire_size * suc (count_items vs) =
        omega arith in
      let rest = rw hi at r.grows in
      let top = base + wire_size * suc (count_items vs) in
      record {
        heap = r.heap;
        answers = rw c.answers r.answers;
        grows =
            Grows-write (cost v) (cost_items vs) base top h c.heap r.heap c.wire c.grows rest apart
              (omega arith);
        reads = λ m left deep below block.
            let (here, in_value, in_rest, in_block) =
              Shows-write (cost v) (cost_items vs) base top h c.heap r.heap c.wire c.grows rest
                apart (omega arith) m below block in
            rw (here, c.reads m left deep in_value, r.reads m left deep in_rest (rw hi in_block))
              refl;
      }

  pub convert_pairs :
      (depth : ℕ) (ps : Pairs) (base : ℕ) (h : Heap)
      → FitsPairs depth ps
      → IsApart h base (base + wire_size * (count_pairs ps * 2))
      → h.overflow_bump + cost_pairs ps ≤ h.permanent_bump
      → PairsFilled depth ps base h
  convert_pairs depth end base h fits apart room = record {
    heap = h;
    answers = refl;
    grows = Grows-refl 0 base (base + wire_size * (0 * 2)) h (omega arith);
    reads = λ m left deep below block. refl;
  }
  convert_pairs depth (pair k v ps) base h (first, second, others) apart room =
      let c = convert depth k h first (omega arith) in
      let low = c.grows.lowers in
      let lost = c.grows.costs in
      let limit = c.grows.limit in
      let h1 = write c.heap base c.wire in
      let d = convert depth v h1 second (omega arith) in
      let low' = d.grows.lowers in
      let lost' = d.grows.costs in
      let limit' = d.grows.limit in
      let h2 = write d.heap (base + wire_size) d.wire in
      let r =
        convert_pairs depth ps (base + wire_size * 2) h2 others (ground arith) (omega arith) in
      let top = base + wire_size * (suc (count_pairs ps) * 2) in
      let hi : base + wire_size * 2 + wire_size * (count_pairs ps * 2) ≡ top = omega arith in
      let two : base + wire_size * 2 ≡ base + wire_size + wire_size = omega arith in
      let rest = rw two at (rw hi at r.grows) in
      let apart' : IsApart h1 (base + wire_size) top = ground arith in
      let inner =
        Grows-write (cost v) (cost_pairs ps) (base + wire_size) top h1 d.heap r.heap d.wire d.grows
          rest apart' (omega arith) in
      let sum : cost k + (cost v + cost_pairs ps) ≡ cost k + cost v + cost_pairs ps = omega arith in
      let whole =
        Grows-write (cost k) (cost v + cost_pairs ps) base top h c.heap r.heap c.wire c.grows inner
          apart (omega arith) in
      record {
        heap = r.heap;
        answers = rw (c.answers, d.answers) r.answers;
        grows = rw sum at whole;
        reads = λ m left deep below block.
            let (key_here, in_key, below1, block1) =
              Shows-write (cost k) (cost v + cost_pairs ps) base top h c.heap r.heap c.wire c.grows
                inner apart (omega arith) m below block in
            let (value_here, in_value, below2, block2) =
              Shows-write (cost v) (cost_pairs ps) (base + wire_size) top h1 d.heap r.heap d.wire
                d.grows rest apart' (omega arith) m below1 block1 in
            let block3 = rw (sym two) at block2 in
            rw (key_here, c.reads m left deep in_key, value_here, d.reads m left deep in_value)
              (rw (r.reads m left deep below2 (rw hi block3)) refl);
      }

-- On a heap with room for its blocks, a value that fits (it nests below 64 levels, holds no actor and nothing
-- without a wire, and its lengths fit) is converted, and reading the wire back from the heap that is left, with
-- every allocation of the reading granted, gives the content of the value.
pub wire_to_value-value_to_wire :
    (byte : ℕ → ℕ) (v : Value) (h : Heap)
    → Fits 0 v
    → h.overflow_bump + cost v ≤ h.permanent_bump
    → (r : Wire × Heap) × (value_to_wire v h ≡ ok r)
      × (wire_to_value always (record { byte = byte; wires = r.1.wires }) r.0 ≡ ok (content byte v))
unfolding value_to_wire wire_to_value
wire_to_value-value_to_wire byte v h fits room =
    let c = convert 0 v h fits room in
    let m : View = record { byte = byte; wires = c.heap.wires } in
    ((c.wire, c.heap), c.answers, c.reads m max_wire_depth (omega arith) (λ a le lt. refl))
