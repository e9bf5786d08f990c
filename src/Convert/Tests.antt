-- ===== src/Convert/Tests.antt =====
-- A conversion that is run, and the theorems at concrete values.
use gengo.Prelude.{ℕ, ◌+◌, ◌%◌, ◌-◌, ◌^◌, ◌≤◌, ◌≡◌, refl, arith, [], ◌∷◌}
use gengo.Wire.{Wire, wire_null, wire_array}
use gengo.Convert
use gengo.Convert.{
  Conversion, ok, fails, host_value_too_deep, host_value_too_large, Slice, Heap, bump, wire_len,
  slice_wire, in_block, check_depth, make_wire, value_to_wire_depth, value_to_wire, Value,
  max_wire_depth,
}
use gengo.Convert.Plain
use gengo.Convert.Plain.{
  if_granted, if_pairs_fit, always, View, Plain, slice_bytes, number_value, read_items, read_pairs,
  tag_of, wire_to_value_depth, wire_to_value, content,
}
use gengo.Convert.Fits.{Fits, cost}
use gengo.Convert.RoundTrip.{wire_to_value-value_to_wire}
use gengo.Prelude.{inl, Option, some, true}
use gengo.Convert.Scratch.{Scratch, value_to_wire_with_scratch}
use gengo.Convert.Scratch.RoundTrip.{Answered, value_to_wire_with_scratch-Answered}
use gengo.Convert.Plain.{content_items, content_pairs}
use gengo.Wire.{gengo_wire_array_at, gengo_wire_map_key_at, gengo_wire_map_value_at}
use gengo.Convert.Scratch.Readers.{
  item_at, pair_key_at, pair_value_at, read_at, gengo_wire_array_at-value_to_wire_with_scratch,
  gengo_wire_map_at-value_to_wire_with_scratch,
}
use gengo.Convert.Depth.{nest, value_to_wire_too_deep}

program : Unit {0}
unfolding bump wire_len slice_wire in_block check_depth value_to_wire_depth value_to_wire
    slice_bytes number_value read_items read_pairs tag_of wire_to_value_depth if_granted
    if_pairs_fit wire_to_value content nest Fits cost
program = tt

abbrev heap : Heap
heap = record { permanent_bump = 8192; overflow_bump = 1000; wires = λ a. make_wire wire_null 0 0 }

-- `["hi", {'z': -1}]` behind a named type
abbrev sample : Value
sample = Convert.named_value (
    Convert.array (
      Convert.item (Convert.string (record { ptr = 5000; len = 2 })) (
        Convert.item
          (Convert.map (Convert.pair (Convert.rune 0x7a) (Convert.int (2 ^ 64 - 1)) Convert.end))
          Convert.nil)))

abbrev bytes : ℕ → ℕ
bytes a = a % 256

sample-Fits : Fits 0 sample
unfolding program
sample-Fits = (
  omega arith,
  (
    omega arith,
    omega arith,
    (
      (omega arith, omega arith),
      ((omega arith, omega arith, ((omega arith, omega arith), omega arith, tt)), tt),
    ),
  ),
)

sample_room : heap.overflow_bump + cost sample ≤ heap.permanent_bump
unfolding program
sample_room = omega arith

-- What the C side sees: the array wire and, through it, the bytes of "hi".
seen : Conversion (Wire × Heap) → Conversion Plain
unfolding program
seen (fails e) = fails e
seen (ok (w, h)) = wire_to_value always (record { byte = bytes; wires = h.wires }) w

sample_read :
    seen (value_to_wire sample heap)
    ≡ ok (
        Plain.array (
          Plain.item (Plain.string (136 ∷ 137 ∷ [])) (
            Plain.item
              (Plain.map (Plain.pair (Plain.rune 0x7a) (Plain.int (2 ^ 64 - 1)) Plain.end))
              Plain.nil)))
unfolding program seen
sample_read = refl

-- a heap without room answers a null wire
full_heap :
    value_to_wire sample (record heap { overflow_bump = 8192 })
    ≡ ok (make_wire wire_null 0 0, record heap { overflow_bump = 8192 })
unfolding program
full_heap = refl

wire_to_value-value_to_wire_example :
    (r : Wire × Heap) × (value_to_wire sample heap ≡ ok r)
    × (wire_to_value always (record { byte = bytes; wires = r.1.wires }) r.0
        ≡ ok (content bytes sample))
wire_to_value-value_to_wire_example =
    wire_to_value-value_to_wire bytes sample heap sample-Fits sample_room

value_to_wire_too_deep_example : value_to_wire (nest 64 sample) heap ≡ fails host_value_too_deep
value_to_wire_too_deep_example = value_to_wire_too_deep 64 sample heap (omega arith) (omega arith)

-- an array whose only item is the array itself
abbrev looped : View
looped = record { byte = bytes; wires = λ a. make_wire wire_array 4096 1 }

-- The buffers stand above the heap.
abbrev scratch : Scratch
scratch = record {
  heap = heap;
  byte = bytes;
  string_scratch = 20000;
  wire_elem_buf = 30000;
  wire_elem_count = 0;
}

abbrev page_at : ℕ → Option ℕ
page_at n = some 90000

abbrev two_items : Convert.Items
two_items = Convert.item sample (Convert.item (Convert.boolean true) Convert.nil)

abbrev pair_of_samples : Value
pair_of_samples = Convert.array two_items

pair_of_samples-Fits : Fits 0 pair_of_samples
unfolding program
pair_of_samples-Fits = (
  omega arith,
  omega arith,
  (
    (
      omega arith,
      (
        omega arith,
        omega arith,
        (
          (omega arith, omega arith),
          ((omega arith, omega arith, ((omega arith, omega arith), omega arith, tt)), tt),
        ),
      ),
    ),
    (omega arith, tt),
  ),
)

pair_of_samples_room : heap.overflow_bump + cost pair_of_samples ≤ heap.permanent_bump
unfolding program
pair_of_samples_room = omega arith

value_to_wire_with_scratch-Answered_example :
    Answered pair_of_samples scratch (value_to_wire_with_scratch page_at pair_of_samples scratch)
value_to_wire_with_scratch-Answered_example =
    value_to_wire_with_scratch-Answered page_at pair_of_samples scratch pair_of_samples-Fits
      (omega arith) pair_of_samples_room (inl (omega arith)) (λ n. (90000, refl))

abbrev long_string : Slice
long_string = record { ptr = 5000; len = 5000 }

gengo_wire_array_at-value_to_wire_with_scratch_example :
    (w : Wire) × (left : Scratch) × (addr : ℕ) × (p : Plain) × (value_to_wire_with_scratch page_at
        pair_of_samples scratch
      ≡ ok (w, left))
    × (gengo_wire_array_at w 1 ≡ some addr)
    × (item_at (content_items bytes two_items) 1 ≡ some p)
    × (read_at left addr ≡ ok p)
gengo_wire_array_at-value_to_wire_with_scratch_example =
    gengo_wire_array_at-value_to_wire_with_scratch page_at two_items scratch 1 pair_of_samples-Fits
      (omega arith) pair_of_samples_room (inl (omega arith)) (omega arith)

abbrev one_pair : Convert.Pairs
one_pair = Convert.pair (Convert.rune 0x7a) (Convert.decimal 5) Convert.end

one_pair-Fits : Fits 0 (Convert.map one_pair)
unfolding program
one_pair-Fits = (omega arith, omega arith, ((omega arith, omega arith), omega arith, tt))

one_pair_room : heap.overflow_bump + cost (Convert.map one_pair) ≤ heap.permanent_bump
unfolding program
one_pair_room = omega arith

gengo_wire_map_at-value_to_wire_with_scratch_example :
    (w : Wire) × (left : Scratch) × (key_addr : ℕ) × (value_addr : ℕ) × (k : Plain) × (v : Plain)
    × (value_to_wire_with_scratch page_at (Convert.map one_pair) scratch ≡ ok (w, left))
    × (gengo_wire_map_key_at w 0 ≡ some key_addr)
    × (gengo_wire_map_value_at w 0 ≡ some value_addr)
    × (pair_key_at (content_pairs bytes one_pair) 0 ≡ some k)
    × (pair_value_at (content_pairs bytes one_pair) 0 ≡ some v)
    × (read_at left key_addr ≡ ok k)
    × (read_at left value_addr ≡ ok v)
gengo_wire_map_at-value_to_wire_with_scratch_example =
    gengo_wire_map_at-value_to_wire_with_scratch page_at one_pair scratch 0 one_pair-Fits
      (omega arith) one_pair_room (inl (omega arith)) (omega arith)
