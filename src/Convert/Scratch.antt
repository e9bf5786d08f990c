-- ===== src/Convert/Scratch.antt =====
-- `valueToWireWithScratch` and `setStringScratch` of src/engine.zig: what `engine_call` and
-- `engine_get_global` answer. The wires of the outermost container stand in the engine's own buffer,
-- and an outermost string is copied to one.
pub mod RoundTrip
pub mod Readers
use gengo.Prelude.{
  ℕ, zero, suc, ◌+◌, ◌-◌, ◌*◌, ◌/◌, ◌^◌, Bool, true, false, ◌&&◌, Option, none, some, ltb, leb,
  if◌then◌else◌,
}
use gengo.Wire.{Wire, wire_string, wire_array, wire_map}
use gengo.Convert.{
  Conversion, ok, fails, ◌>>=◌, wire_buffer_overflow, cast_panic, Slice, Heap, Value, null,
  actor_ref, other_object, boolean, int, float, decimal, rune, string, error_value, enum_value,
  array, map, named_value, count_items, count_pairs, make_wire, fill_array_wires, fill_map_wires,
  value_to_wire,
}

-- MaxStringScratch
abbrev pub max_string_scratch : ℕ
max_string_scratch = 4096

-- wires that wire_elem_buf holds
abbrev pub elem_buf_len : ℕ
elem_buf_len = 256

-- What the conversion uses of an engine: the heap, the bytes of memory, and where the two buffers are.
pub record Scratch : Type 0 where
  pub heap : Heap
  pub byte : ℕ → ℕ
  pub string_scratch : ℕ
  pub wire_elem_buf : ℕ
  pub wire_elem_count : ℕ

-- The address that the page allocator gives for a size, if any.
abbrev pub Pages : Type 0
Pages = ℕ → Option ℕ

abbrev pub copy_bytes : (ℕ → ℕ) → ℕ → ℕ → ℕ → ℕ → ℕ
copy_bytes byte dst src n a =
    if leb dst a && ltb a (dst + n) then byte (src + (a - dst)) else byte a

copied_to : Scratch → ℕ → ℕ → ℕ → Slice × Scratch
copied_to st dst src n =
    (record { ptr = dst; len = n }, record st { byte = copy_bytes st.byte dst src n })

-- Without a page the string is cut to the buffer.
to_page : Option ℕ → Scratch → Slice → Slice × Scratch
unfolding copied_to
to_page (some page) st s = copied_to st page s.ptr s.len
to_page none st s = copied_to st st.string_scratch s.ptr max_string_scratch

unfoldable pub set_string_scratch : Pages → Scratch → Slice → Slice × Scratch
unfolding copied_to to_page
set_string_scratch pages st s =
    if leb s.len max_string_scratch
    then copied_to st st.string_scratch s.ptr s.len
    else to_page (pages s.len) st s

-- @intCast to 32 bits
unfoldable pub cast_len : ℕ → Conversion ℕ
cast_len n = if leb (2 ^ 32) n then fails cast_panic else ok n

unfoldable pub stable_wire : Slice × Scratch → Conversion (Wire × Scratch)
stable_wire r = do len ← cast_len r.0.len; ok (make_wire wire_string r.0.ptr len, r.1)

-- A container of `n` entries and `k` wires, in the buffer of the engine.
unfoldable pub in_elem_buf :
    Scratch → ℕ → ℕ → ℕ → (ℕ → Heap → Conversion Heap) → Conversion (Wire × Scratch)
in_elem_buf st tag n k fill = fill st.wire_elem_buf st.heap >>= λ h.
    ok (make_wire tag st.wire_elem_buf n, record st { heap = h; wire_elem_count = k })

unfoldable pub by_value_to_wire : Value → Scratch → Conversion (Wire × Scratch)
by_value_to_wire v st = value_to_wire v st.heap >>= λ r. ok (r.0, record st { heap = r.1 })

unfoldable pub value_to_wire_with_scratch : Pages → Value → Scratch → Conversion (Wire × Scratch)
value_to_wire_with_scratch pages (string s) st = stable_wire (set_string_scratch pages st s)
value_to_wire_with_scratch pages (array vs) st =
    let n = count_items vs in
    if ltb elem_buf_len n
    then fails wire_buffer_overflow
    else in_elem_buf st wire_array n n (fill_array_wires 1 vs)
value_to_wire_with_scratch pages (map ps) st =
    let n = count_pairs ps in
    if ltb (elem_buf_len / 2) n
    then fails wire_buffer_overflow
    else in_elem_buf st wire_map n (n * 2) (fill_map_wires 1 ps)
value_to_wire_with_scratch pages v st = by_value_to_wire v st
