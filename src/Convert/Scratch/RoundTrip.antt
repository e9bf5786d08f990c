-- ===== src/Convert/Scratch/RoundTrip.antt =====
-- What `engine_call` answers reads back as the content of the value, and the buffer is not overrun.
use gengo.Prelude.{
  ℕ, zero, suc, ◌+◌, ◌-◌, ◌*◌, ◌/◌, ◌^◌, ◌≤◌, ◌<◌, ◌≡◌, ◌⊎◌, inl, inr, refl, ap, arith,
}
use gengo.Prelude.{true, false, ◌∷◌, none, some, ltb, leb, Bool-cases}
use gengo.Wire.{Wire, wire_size, wire_string, wire_array, wire_map}
use gengo.Convert.{
  Conversion, ok, Slice, Value, string, array, map, count_items, count_pairs, make_wire,
  max_wire_depth, value_to_wire,
}
use gengo.Convert.Plain
use gengo.Convert.Plain.{
  always, if_granted, wire_to_value_depth-map, content_pairs, View, slice_bytes, tag_of,
  wire_to_value_depth, wire_to_value, content,
}
use gengo.Convert.Fits.{Fits, cost, IsApart, IsOutside}
use gengo.Convert.RoundTrip.{convert, convert_items, convert_pairs}
use gengo.Convert.Scratch.{
  Scratch, Pages, max_string_scratch, elem_buf_len, copy_bytes, copied_to, to_page,
  set_string_scratch, cast_len, stable_wire, in_elem_buf, by_value_to_wire,
  value_to_wire_with_scratch,
}

-- The outermost container fits in the buffer of the engine.
abbrev pub FitsBuffer : Value → Type 0
FitsBuffer (array vs) = count_items vs ≤ elem_buf_len
FitsBuffer (map ps) = count_pairs ps ≤ elem_buf_len / 2
FitsBuffer _ = Unit

-- The buffer does not meet the free part of the heap.
abbrev pub IsBufferApart : Scratch → Type 0
IsBufferApart st = IsApart st.heap st.wire_elem_buf (st.wire_elem_buf + wire_size * elem_buf_len)

-- What a conversion gives: its wire reads as the content of the value, and no wire has changed outside
-- the free part of the heap and the buffer.
pub record Answered (v : Value) (st : Scratch) (r : Conversion (Wire × Scratch)) : Type 0 where
  pub wire : Wire
  pub left : Scratch
  pub answers : r ≡ ok (wire, left)
  pub reads :
      wire_to_value always (record { byte = left.byte; wires = left.heap.wires }) wire
      ≡ ok (content st.byte v)
  pub frame :
      (a : ℕ)
      → IsOutside st.heap a
      → (a < st.wire_elem_buf) ⊎ (st.wire_elem_buf + wire_size * elem_buf_len ≤ a)
      → left.heap.wires a ≡ st.heap.wires a

slice_bytes-copy_bytes :
    (byte : ℕ → ℕ) (dst src n k m : ℕ)
    → k + m ≤ n
    → slice_bytes (copy_bytes byte dst src n) (dst + k) m ≡ slice_bytes byte (src + k) m
unfolding slice_bytes
slice_bytes-copy_bytes byte dst src n k zero room = refl
slice_bytes-copy_bytes byte dst src n k (suc m) room =
    let from : leb dst (dst + k) ≡ true = ground arith in
    let to : ltb (dst + k) (dst + n) ≡ true = ground arith in
    let at : src + (dst + k - dst) ≡ src + k = omega arith in
    let next_dst : dst + k + 1 ≡ dst + suc k = omega arith in
    let next_src : src + k + 1 ≡ src + suc k = omega arith in
    rw (from, to, at, next_dst, next_src)
      (ap (λ l. byte (src + k) ∷ l) (slice_bytes-copy_bytes byte dst src n (suc k) m (omega arith)))

slice_bytes-copy_whole :
    (byte : ℕ → ℕ) (dst src n : ℕ)
    → slice_bytes (copy_bytes byte dst src n) dst n ≡ slice_bytes byte src n
slice_bytes-copy_whole byte dst src n =
    let at_dst : dst + 0 ≡ dst = omega arith in
    let at_src : src + 0 ≡ src = omega arith in
    rw (at_dst, at_src) at (slice_bytes-copy_bytes byte dst src n 0 n (omega arith))

cast_len_fits : (n : ℕ) → n < 2 ^ 32 → cast_len n ≡ ok n
unfolding cast_len
cast_len_fits n lt = let e : leb (2 ^ 32) n ≡ false = ground arith in rw e refl

-- A whole copy of a string.
copied :
    (st : Scratch) (s : Slice) (dst : ℕ)
    → s.len < 2 ^ 32
    → Answered (string s) st (stable_wire (copied_to st dst s.ptr s.len))
unfolding stable_wire copied_to wire_to_value wire_to_value_depth if_granted tag_of content
copied st s dst short = record {
  wire = make_wire wire_string dst s.len;
  left = record st { byte = copy_bytes st.byte dst s.ptr s.len };
  answers = rw (cast_len_fits s.len short) refl;
  reads = ap (λ l. ok (Plain.string l)) (slice_bytes-copy_whole st.byte dst s.ptr s.len);
  frame = λ a away outside. refl;
}

by_value :
    (v : Value) (st : Scratch)
    → Fits 0 v
    → st.heap.overflow_bump + cost v ≤ st.heap.permanent_bump
    → Answered v st (by_value_to_wire v st)
unfolding by_value_to_wire value_to_wire wire_to_value
by_value v st fits room =
    let c = convert 0 v st.heap fits room in
    let m : View = record { byte = st.byte; wires = c.heap.wires } in
    record {
      wire = c.wire;
      left = record st { heap = c.heap };
      answers = rw c.answers refl;
      reads = c.reads m max_wire_depth (omega arith) (λ a le lt. refl);
      frame = λ a away outside. c.grows.frame a away (inr (omega arith));
    }

-- Where the outermost container fits in the buffer of the engine, the buffer does not meet the free part of
-- the heap, the heap has room for the blocks, and the page allocator gives what is asked, a value that fits (it
-- nests below 64 levels, holds no actor and nothing without a wire, and its lengths fit) is converted, its wire
-- reads, with every allocation of the reading granted, as the content of the value, and no wire changes outside
-- the buffer and the free part of the heap.
pub value_to_wire_with_scratch-Answered :
    (pages : Pages) (v : Value) (st : Scratch)
    → Fits 0 v
    → FitsBuffer v
    → st.heap.overflow_bump + cost v ≤ st.heap.permanent_bump
    → IsBufferApart st
    → ((n : ℕ) → (page : ℕ) × (pages n ≡ some page))
    → Answered v st (value_to_wire_with_scratch pages v st)
unfolding Fits cost value_to_wire_with_scratch set_string_scratch to_page in_elem_buf wire_to_value
    wire_to_value_depth if_granted tag_of content
value_to_wire_with_scratch-Answered pages (string s) st (shallow, short) buffer room apart gives =
    elim (Bool-cases (leb s.len max_string_scratch)) [
      | inl small ↦ rw small (copied st s st.string_scratch short)
      | inr large ↦ let (page, given) = gives s.len in rw (large, given) (copied st s page short)
    ]
value_to_wire_with_scratch-Answered pages (array vs) st (shallow, short, inner) buffer room apart
      gives =
    let n = count_items vs in
    let c = convert_items 1 vs st.wire_elem_buf st.heap inner (ground arith) (omega arith) in
    let m : View = record { byte = st.byte; wires = c.heap.wires } in
    let within : ltb elem_buf_len n ≡ false = ground arith in
    record {
      wire = make_wire wire_array st.wire_elem_buf n;
      left = record st { heap = c.heap; wire_elem_count = n };
      answers = rw (within, c.answers) refl;
      reads = rw (c.reads m 63 (omega arith) (λ a le lt. refl) (λ a le lt. refl)) refl;
      frame = λ a away outside. c.grows.frame a away (ground arith);
    }
value_to_wire_with_scratch-Answered pages (map ps) st (shallow, short, inner) buffer room apart
      gives =
    let n = count_pairs ps in
    let c = convert_pairs 1 ps st.wire_elem_buf st.heap inner (ground arith) (omega arith) in
    let m : View = record { byte = st.byte; wires = c.heap.wires } in
    let within : ltb (elem_buf_len / 2) n ≡ false = ground arith in
    record {
      wire = make_wire wire_map st.wire_elem_buf n;
      left = record st { heap = c.heap; wire_elem_count = n * 2 };
      answers = rw (within, c.answers) refl;
      reads =
          wire_to_value_depth-map 63 m st.wire_elem_buf n (content_pairs st.byte ps) (omega arith)
            (c.reads m 63 (omega arith) (λ a le lt. refl) (λ a le lt. refl));
      frame = λ a away outside. c.grows.frame a away (ground arith);
    }
value_to_wire_with_scratch-Answered pages v st fits buffer room apart gives =
    by_value v st fits room

-- A string that is longer than the buffer, and for which there is no page, is answered as its first 4096
-- bytes, without an error.
pub value_to_wire_with_scratch_cuts :
    (pages : Pages) (s : Slice) (st : Scratch)
    → max_string_scratch < s.len
    → pages s.len ≡ none
    → Answered
        (string (record { ptr = s.ptr; len = max_string_scratch }))
        st
        (value_to_wire_with_scratch pages (string s) st)
unfolding value_to_wire_with_scratch set_string_scratch to_page
value_to_wire_with_scratch_cuts pages s st long refused =
    let large : leb s.len max_string_scratch ≡ false = ground arith in
    rw (large, refused)
      (copied st (record { ptr = s.ptr; len = max_string_scratch }) st.string_scratch (omega arith))
