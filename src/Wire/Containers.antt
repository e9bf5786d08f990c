-- ===== src/Wire/Containers.antt =====
-- The entries of a map, by address.
use gengo.Prelude.{ℕ, ◌+◌, ◌-◌, ◌*◌, ◌^◌, ◌≤◌, ◌<◌, ◌≡◌, none, some, arith}
use gengo.Prelude.{true, false, ◌==◌, leb, ◌%◌, refl}
use gengo.Wire.{
  Wire, wire_array, wire_map, gengo_wire_array_at, wire_size, gengo_wire_map, gengo_wire_map_key_at,
  gengo_wire_map_value_at,
}

-- The address of slot `i` of a block of wires.
abbrev pub slot : ℕ → ℕ → ℕ
slot base i = base + wire_size * i

-- On a map of up to 2 ^ 31 entries, key and value of entry `i` are the slots 2i and 2i + 1 of the
-- pairs, and from the number of entries on both readers answer NULL.
pub gengo_wire_map_at-gengo_wire_map :
    (pairs count i : ℕ)
    → count ≤ 2 ^ 31
    → (i < count
        → (gengo_wire_map_key_at (gengo_wire_map pairs count) i ≡ some (slot pairs (2 * i)))
          × (gengo_wire_map_value_at (gengo_wire_map pairs count) i
              ≡ some (slot pairs (2 * i + 1))))
      × (count ≤ i
          → (gengo_wire_map_key_at (gengo_wire_map pairs count) i ≡ none)
            × (gengo_wire_map_value_at (gengo_wire_map pairs count) i ≡ none))
unfolding gengo_wire_map_key_at gengo_wire_map_value_at gengo_wire_map
gengo_wire_map_at-gengo_wire_map pairs count i h = (λ k. ground arith, λ k. ground arith)

-- A map can say that it has more than 2 ^ 31 entries. From index 2 ^ 31 on the 32-bit products of
-- the readers wrap, and the readers answer the entry at `i - 2 ^ 31` instead.
pub gengo_wire_map_at_wraps :
    (pairs count i : ℕ)
    → 2 ^ 31 ≤ i
    → i < count
    → count < 2 ^ 32
    → (gengo_wire_map_key_at (gengo_wire_map pairs count) i
        ≡ gengo_wire_map_key_at (gengo_wire_map pairs count) (i - 2 ^ 31))
      × (gengo_wire_map_value_at (gengo_wire_map pairs count) i
          ≡ gengo_wire_map_value_at (gengo_wire_map pairs count) (i - 2 ^ 31))
unfolding gengo_wire_map_key_at gengo_wire_map_value_at gengo_wire_map
gengo_wire_map_at_wraps pairs count i lo hi fits = ground arith

-- The readers on any wire of an array, and of a map of up to 2 ^ 31 entries, within its length.
pub gengo_wire_array_at_within :
    (v : Wire) (i : ℕ)
    → v.tag ≡ wire_array
    → i < v.len
    → gengo_wire_array_at v i ≡ some (v.payload + wire_size * i)
unfolding gengo_wire_array_at
gengo_wire_array_at_within v i tag lt = ground arith

pub gengo_wire_map_at_within :
    (v : Wire) (i : ℕ)
    → v.tag ≡ wire_map
    → i < v.len
    → v.len ≤ 2 ^ 31
    → (gengo_wire_map_key_at v i ≡ some (v.payload + wire_size * (i * 2)))
      × (gengo_wire_map_value_at v i ≡ some (v.payload + wire_size * (i * 2 + 1)))
unfolding gengo_wire_map_key_at gengo_wire_map_value_at
gengo_wire_map_at_within v i tag lt short =
    let key : i * 2 % 2 ^ 32 ≡ i * 2 = omega arith in
    let value : (i * 2 % 2 ^ 32 + 1) % 2 ^ 32 ≡ i * 2 + 1 = omega arith in
    let is_map : (v.tag == wire_map) ≡ true = ground arith in
    let within : leb v.len i ≡ false = ground arith in
    (rw (is_map, within, key) refl, rw (is_map, within, value) refl)
