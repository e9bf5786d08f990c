-- ===== src/Wire/Strings.antt =====
-- Strings through the wire: what `gengo_wire_str` points at, and what `gengo_wire_read_str` copies.
use gengo.Prelude.{
  ltb, get_elem?, some, take-append, ℕ, zero, suc, ◌+◌, ◌-◌, ◌^◌, ◌<◌, ◌≤◌, ◌≡◌, ◌≢◌, refl, ap,
  List, [], ◌∷◌, ◌++◌, arith, if◌then◌else◌, length, drop, take, min, length-append, length-drop,
}
use gengo.Wire.{
  Memory, Wire, strlen_loop, strlen, gengo_wire_str, gengo_wire_read_str, read_bytes, wire_string,
}

-- The bytes stand at `p`.
abbrev pub Holds : Memory → ℕ → List ℕ → Type 0
Holds m p [] = Unit {0}
Holds m p (b ∷ bytes) = (m.byte p ≡ b) × Holds m (p + 1) bytes

-- A C string: bytes that are not NUL, and the NUL.
abbrev pub HoldsStr : Memory → ℕ → List ℕ → Type 0
HoldsStr m p [] = m.byte p ≡ 0
HoldsStr m p (b ∷ bytes) = (m.byte p ≡ b) × (b ≢ 0) × HoldsStr m (p + 1) bytes

strlen_loop_lem :
    (fuel : ℕ) (m : Memory) (p : ℕ) (bytes : List ℕ)
    → HoldsStr m p bytes
    → length bytes < fuel
    → strlen_loop fuel m p ≡ length bytes
unfolding strlen_loop
strlen_loop_lem zero m p bytes h k = elim k [ ]
strlen_loop_lem (suc fuel) m p [] h k = ground arith
strlen_loop_lem (suc fuel) m p (b ∷ bytes) h k =
    ground (arith, strlen_loop_lem fuel m (p + 1) bytes h.2 (omega arith))

pub strlen_lem :
    (m : Memory) (p : ℕ) (bytes : List ℕ)
    → HoldsStr m p bytes
    → p + length bytes < 2 ^ 64
    → strlen m p ≡ length bytes
unfolding strlen
strlen_lem m p bytes h k = strlen_loop_lem _ m p bytes h (omega arith)

HoldsStr-Holds : (m : Memory) (p : ℕ) (bytes : List ℕ) → HoldsStr m p bytes → Holds m p bytes
HoldsStr-Holds m p [] h = tt
HoldsStr-Holds m p (b ∷ bytes) h = (h.0, HoldsStr-Holds m (p + 1) bytes h.2)

pub read_bytes-Holds :
    (m : Memory) (p : ℕ) (bytes : List ℕ) → Holds m p bytes → read_bytes m p (length bytes) ≡ bytes
read_bytes-Holds m p [] h = refl
read_bytes-Holds m p (b ∷ bytes) h = rw h.0 (ap (λ l. b ∷ l) (read_bytes-Holds m (p + 1) bytes h.1))

-- A prefix of what stands there.
read_bytes-take :
    (m : Memory) (p n : ℕ) (bytes : List ℕ)
    → Holds m p bytes
    → n ≤ length bytes
    → read_bytes m p n ≡ take n bytes
read_bytes-take m p zero bytes h k = refl
read_bytes-take m p (suc n) [] h k = absurd (omega arith)
read_bytes-take m p (suc n) (b ∷ bytes) h k =
    rw h.0 (ap (λ l. b ∷ l) (read_bytes-take m (p + 1) n bytes h.1 (omega arith)))

pub length-read_bytes : (m : Memory) (p n : ℕ) → length (read_bytes m p n) ≡ n
length-read_bytes m p zero = refl
length-read_bytes m p (suc n) = ap suc (length-read_bytes m (p + 1) n)

get_elem?-append : (xs ys : List ℕ) (b n : ℕ) → n ≡ length xs → get_elem? (xs ++ b ∷ ys) n ≡ some b
get_elem?-append [] ys b zero h = refl
get_elem?-append [] ys b (suc n) h = absurd (omega arith)
get_elem?-append (x ∷ xs) ys b zero h = absurd (omega arith)
get_elem?-append (x ∷ xs) ys b (suc n) h = get_elem?-append xs ys b n (omega arith)

-- `gengo_wire_read_str` never writes outside its buffer: the buffer keeps its length. Where it has
-- room for a byte, the answer `n` is below its size and at most the wire's length, the NUL stands
-- at `n`, and the bytes before it are those that the wire points at.
pub gengo_wire_read_str-bounds :
    (m : Memory) (v : Wire) (buf : List ℕ)
    → 0 < length buf
    → (length (gengo_wire_read_str m v buf).1 ≡ length buf)
      × ((gengo_wire_read_str m v buf).0 < length buf)
      × ((gengo_wire_read_str m v buf).0 ≤ v.len)
      × (get_elem? (gengo_wire_read_str m v buf).1 (gengo_wire_read_str m v buf).0 ≡ some 0)
      × (take (gengo_wire_read_str m v buf).0 (gengo_wire_read_str m v buf).1
          ≡ read_bytes m v.payload (gengo_wire_read_str m v buf).0)
unfolding gengo_wire_read_str
gengo_wire_read_str-bounds m v buf h =
    let n : ℕ = if ltb v.len (length buf) then v.len else length buf - 1 in
    ground (
      arith,
      length-append (read_bytes m v.payload n) (0 ∷ drop (n + 1) buf),
      length-read_bytes m v.payload n,
      length-drop (n + 1) buf,
      length-drop 1 buf,
      get_elem?-append (read_bytes m v.payload n) (drop (n + 1) buf) 0 n,
      take-append n (read_bytes m v.payload n) (0 ∷ drop (n + 1) buf),
    )

no_bytes : (bytes : List ℕ) → length bytes ≡ 0 → bytes ≡ []
no_bytes [] h = refl
no_bytes (b ∷ bytes) h = absurd (omega arith)

-- The wire of a C string points at it and has its length.
pub gengo_wire_str_lem :
    (m : Memory) (s : ℕ) (bytes : List ℕ)
    → HoldsStr m s bytes
    → s ≢ 0
    → s + length bytes < 2 ^ 64
    → length bytes < 2 ^ 32
    → gengo_wire_str m s ≡ record {
      tag = wire_string;
      flags = 0;
      reserved = 0;
      payload = s;
      len = length bytes;
      reserved2 = 0;
    }
unfolding gengo_wire_str
gengo_wire_str_lem m s bytes h nz lo fits = ground (arith, strlen_lem m s bytes h lo)

-- A C string below 2 ^ 32 bytes, not NULL and inside the address space, that `gengo_wire_str` wraps
-- is copied out again by `gengo_wire_read_str` to a buffer of one byte at least: cut to the room of
-- the buffer, with a NUL behind it; the rest of the buffer stays as it was.
pub gengo_wire_read_str-gengo_wire_str :
    (m : Memory) (s : ℕ) (bytes buf : List ℕ)
    → HoldsStr m s bytes
    → s ≢ 0
    → s + length bytes < 2 ^ 64
    → length bytes < 2 ^ 32
    → 0 < length buf
    → gengo_wire_read_str m (gengo_wire_str m s) buf ≡ (
      min (length bytes) (length buf - 1),
      take (min (length bytes) (length buf - 1)) bytes
          ++ 0 ∷ drop (min (length bytes) (length buf - 1) + 1) buf,
    )
unfolding gengo_wire_read_str
gengo_wire_read_str-gengo_wire_str m s bytes buf h nz lo fits room =
    let n = min (length bytes) (length buf - 1) in
    rw (gengo_wire_str_lem m s bytes h nz lo fits)
      (ground (arith, read_bytes-take m s n bytes (HoldsStr-Holds m s bytes h), no_bytes bytes))
