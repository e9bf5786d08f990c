-- ===== src/Wire.antt =====
-- sdk/c/include/gengo-wire.h, with the wire struct and its tags and flags of gengo-engine.h.
-- A pointer is its address, and NULL is 0. An `int64_t` and a `double` are their 64 bits.
mod Tests
pub mod Strings
pub mod Numbers
pub mod Containers
use gengo.Prelude.{
  ℕ, zero, suc, ◌+◌, ◌-◌, ◌*◌, ◌%◌, ◌^◌, ◌<◌, ◌≡◌, List, [], ◌∷◌, ◌++◌, Bool, true, false, not,
  ◌&&◌, ◌||◌, Option, none, some, bit_and, ◌==◌, ltb, leb, if◌then◌else◌, length, drop,
}

abbrev pub wire_null : ℕ
wire_null = 0

abbrev pub wire_boolean : ℕ
wire_boolean = 1

abbrev pub wire_number : ℕ
wire_number = 2

abbrev pub wire_string : ℕ
wire_string = 3

abbrev pub wire_array : ℕ
wire_array = 4

abbrev pub wire_map : ℕ
wire_map = 5

abbrev pub wire_error : ℕ
wire_error = 6

abbrev pub flag_integer : ℕ
flag_integer = 1

abbrev pub flag_decimal : ℕ
flag_decimal = 2

abbrev pub flag_rune : ℕ
flag_rune = 4

pub record Wire : Type 0 where
  pub tag : ℕ
  pub flags : ℕ
  pub reserved : ℕ
  pub payload : ℕ
  pub len : ℕ
  pub reserved2 : ℕ

-- sizeof (gengo_value_wire_t)
abbrev pub wire_size : ℕ
wire_size = 24

-- The memory that a host and the engine share: the byte at an address, and the wire struct that
-- starts at one.
pub record Memory : Type 0 where
  pub byte : ℕ → ℕ
  pub wire : ℕ → Wire

-- What the C language does between `double` and `int64_t`.
pub record Floats : Type 0 where
  pub to_int : ℕ → ℕ
  pub of_int : ℕ → ℕ

-- The search of `strlen` for the NUL; the first argument is fuel.
strlen_loop : ℕ → Memory → ℕ → ℕ
strlen_loop zero m s = 0
strlen_loop (suc fuel) m s =
    let rest = strlen_loop fuel m (s + 1) in if m.byte s == 0 then 0 else suc rest

-- No string reaches past the end of the address space.
pub strlen : Memory → ℕ → ℕ
unfolding strlen_loop
strlen m s = strlen_loop (2 ^ 64 - s) m s

pub gengo_wire_null : Wire
gengo_wire_null = record {
  tag = wire_null;
  flags = 0;
  reserved = 0;
  payload = 0;
  len = 0;
  reserved2 = 0;
}

pub gengo_wire_bool : ℕ → Wire
unfolding gengo_wire_null
gengo_wire_bool value = record gengo_wire_null {
  tag = wire_boolean;
  payload = if value == 0 then 0 else 1;
}

pub gengo_wire_int : ℕ → Wire
unfolding gengo_wire_null
gengo_wire_int value = record gengo_wire_null {
  tag = wire_number;
  flags = flag_integer;
  payload = value;
}

pub gengo_wire_float : ℕ → Wire
unfolding gengo_wire_null
gengo_wire_float value = record gengo_wire_null { tag = wire_number; payload = value }

pub gengo_wire_str_n : ℕ → ℕ → Wire
unfolding gengo_wire_null
gengo_wire_str_n s len =
    if s == 0
    then gengo_wire_null
    else record gengo_wire_null { tag = wire_string; payload = s; len = len }

pub gengo_wire_str : Memory → ℕ → Wire
unfolding gengo_wire_str_n
gengo_wire_str m s = gengo_wire_str_n s (if s == 0 then 0 else strlen m s % 2 ^ 32)

pub gengo_wire_array : ℕ → ℕ → Wire
unfolding gengo_wire_null
gengo_wire_array elems count = record gengo_wire_null {
  tag = wire_array;
  payload = elems;
  len = count;
}

unfoldable pub gengo_wire_map : ℕ → ℕ → Wire
unfolding gengo_wire_null
gengo_wire_map kv_pairs entry_count = record gengo_wire_null {
  tag = wire_map;
  payload = kv_pairs;
  len = entry_count;
}

unfoldable pub gengo_wire_as_bool : Wire → Bool
gengo_wire_as_bool v = v.tag == wire_boolean && v.payload == 1

pub gengo_wire_as_int : Floats → Wire → ℕ
gengo_wire_as_int fl v =
    if not (v.tag == wire_number)
    then 0
    else if not (bit_and v.flags flag_integer == 0)
    then v.payload
    else fl.to_int v.payload

-- 0.0 has no bit set.
pub gengo_wire_as_float : Floats → Wire → ℕ
gengo_wire_as_float fl v =
    if not (v.tag == wire_number)
    then 0
    else if not (bit_and v.flags flag_integer == 0)
    then fl.of_int v.payload
    else v.payload

-- The `n` bytes from `p` on.
abbrev pub read_bytes : Memory → ℕ → ℕ → List ℕ
read_bytes m p zero = []
read_bytes m p (suc n) = m.byte p ∷ read_bytes m (p + 1) n

-- The answer, and the buffer afterwards; `buf_size` is the length of the buffer.
unfoldable pub gengo_wire_read_str : Memory → Wire → List ℕ → ℕ × List ℕ
gengo_wire_read_str m v buf =
    let buf_size = length buf in
    let n = if ltb v.len buf_size then v.len else buf_size - 1 in
    if buf_size == 0
    then (0, buf)
    else if not (v.tag == wire_string) || v.payload == 0 || v.len == 0
    then (0, 0 ∷ drop 1 buf)
    else (n, read_bytes m v.payload n ++ 0 ∷ drop (n + 1) buf)

unfoldable pub gengo_wire_array_len : Wire → ℕ
gengo_wire_array_len v = if v.tag == wire_array then v.len else 0

-- The address of an element; `none` is NULL.
pub gengo_wire_array_at : Wire → ℕ → Option ℕ
gengo_wire_array_at v index =
    if not (v.tag == wire_array) || leb v.len index
    then none
    else some (v.payload + wire_size * index)

unfoldable pub gengo_wire_map_len : Wire → ℕ
gengo_wire_map_len v = if v.tag == wire_map then v.len else 0

-- `index * 2u` and `index * 2u + 1u` are computed in 32 bits.
pub gengo_wire_map_key_at : Wire → ℕ → Option ℕ
gengo_wire_map_key_at v index =
    if not (v.tag == wire_map) || leb v.len index
    then none
    else some (v.payload + wire_size * (index * 2 % 2 ^ 32))

pub gengo_wire_map_value_at : Wire → ℕ → Option ℕ
gengo_wire_map_value_at v index =
    if not (v.tag == wire_map) || leb v.len index
    then none
    else some (v.payload + wire_size * ((index * 2 % 2 ^ 32 + 1) % 2 ^ 32))
