-- ===== src/Convert/Plain.antt =====
-- `wireToValueDepth`: what a wire stands for, as a value with the bytes of its strings in it; and the
-- content of a value of the engine in the same form.
use gengo.Prelude.{◌∙◌, ◌<◌, ◌≡◌, refl, arith, ℕ, zero, suc, ◌+◌, ◌*◌, ◌^◌, bit_and}
use gengo.Prelude.{Bool, true, false, not, List, [], ◌∷◌, ltb, ◌==◌, if◌then◌else◌}
use gengo.Wire.{
  Wire, wire_boolean, wire_number, wire_string, wire_array, wire_map, wire_error, flag_integer,
  flag_decimal, flag_rune, wire_size,
}
use gengo.Convert
use gengo.Convert.{
  Conversion, ok, fails, ◌>>=◌, ConvertError, host_value_too_deep, out_of_memory, cast_panic,
  overflow_panic, Slice, max_wire_depth, make_wire,
}

-- The values that the reading makes: every string and container is a new one.
mutual
  pub data Plain : Type 0 where
    null : Plain
    boolean : Bool → Plain
    int float decimal rune : ℕ → Plain
    string error_value : List ℕ → Plain
    array : PlainItems → Plain
    map : PlainPairs → Plain

  pub data PlainItems : Type 0 where
    nil : PlainItems
    item : Plain → PlainItems → PlainItems

  pub data PlainPairs : Type 0 where
    end : PlainPairs
    pair : Plain → Plain → PlainPairs → PlainPairs

-- The memory that the reading sees.
pub record View : Type 0 where
  pub byte : ℕ → ℕ
  pub wires : ℕ → Wire

unfoldable pub slice_bytes : (ℕ → ℕ) → ℕ → ℕ → List ℕ
slice_bytes byte ptr zero = []
slice_bytes byte ptr (suc n) = byte ptr ∷ slice_bytes byte (ptr + 1) n

unfoldable pub number_value : ℕ → ℕ → Conversion Plain
number_value flags payload =
    if not (bit_and flags flag_decimal == 0)
    then ok (decimal payload)
    else if not (bit_and flags flag_rune == 0)
    then (if ltb payload (2 ^ 21) then ok (rune payload) else fails cast_panic)
    else if not (bit_and flags flag_integer == 0)
    then ok (int payload)
    else ok (float payload)

unfoldable pub read_items : (Wire → Conversion Plain) → (ℕ → Wire) → ℕ → ℕ → Conversion PlainItems
read_items read wires base zero = ok nil
read_items read wires base (suc n) =
    read (wires base) >>= λ v. read_items read wires (base + wire_size) n >>= λ vs. ok (item v vs)

unfoldable pub read_pairs : (Wire → Conversion Plain) → (ℕ → Wire) → ℕ → ℕ → Conversion PlainPairs
read_pairs read wires base zero = ok end
read_pairs read wires base (suc n) = read (wires base) >>= λ k.
    read (wires (base + wire_size)) >>= λ v.
    read_pairs read wires (base + wire_size * 2) n >>= λ ps. ok (pair k v ps)

-- WireTag; any other tag is read as null
pub data WireTag : Type 0 where
  tag_null tag_boolean tag_number tag_string tag_array tag_map tag_error : WireTag

unfoldable pub tag_of : ℕ → WireTag
tag_of tag =
    if tag == wire_boolean
    then tag_boolean
    else if tag == wire_number
    then tag_number
    else if tag == wire_string
    then tag_string
    else if tag == wire_array
    then tag_array
    else if tag == wire_map
    then tag_map
    else if tag == wire_error
    then tag_error
    else tag_null

-- What is checked of an allocation: `granted` says whether the one that the reading of this wire asks for is.
unfoldable pub if_granted {ℓ} : {A : Type ℓ} → Bool → Conversion A → Conversion A
if_granted true r = r
if_granted false r = fails out_of_memory

-- Every allocation is granted.
abbrev pub always : Wire → Bool
always w = true

-- count * 2 in 32 bits
unfoldable pub if_pairs_fit {ℓ} : {A : Type ℓ} → ℕ → Conversion A → Conversion A
if_pairs_fit count r = if ltb count (2 ^ 31) then r else fails overflow_panic

pub if_pairs_fit_lem {ℓ} :
    {A : Type ℓ} (count : ℕ) (r : Conversion A) → count < 2 ^ 31 → if_pairs_fit count r ≡ r
unfolding if_pairs_fit
if_pairs_fit_lem count r lt = let few : ltb count (2 ^ 31) ≡ true = ground arith in rw few refl

-- `left` is how many levels there are to MaxWireDepth, and `granted` whether the allocation for a wire is.
unfoldable pub wire_to_value_depth : (Wire → Bool) → ℕ → View → Wire → Conversion Plain
unfolding tag_of
wire_to_value_depth granted zero m w = fails host_value_too_deep
wire_to_value_depth granted (suc left) m w = elim (tag_of w.tag) [
  | tag_null ↦ ok null
  | tag_boolean ↦ ok (boolean (not (w.payload == 0)))
  | tag_number ↦ number_value w.flags w.payload
  | tag_error ↦ if_granted (granted w) (ok (error_value (slice_bytes m.byte w.payload w.len)))
  | tag_string ↦ if_granted (granted w) (ok (string (slice_bytes m.byte w.payload w.len)))
  | tag_array ↦ if_granted (granted w) (
      read_items (wire_to_value_depth granted left m) m.wires w.payload w.len >>= λ vs.
      ok (array vs))
  | tag_map ↦ if_pairs_fit w.len (
      if_granted (granted w) (
        read_pairs (wire_to_value_depth granted left m) m.wires w.payload w.len >>= λ ps.
        ok (map ps)))
]

-- wireToValue
unfoldable pub wire_to_value : (Wire → Bool) → View → Wire → Conversion Plain
wire_to_value granted m w = wire_to_value_depth granted max_wire_depth m w

-- How a wire of a map is read, on its pairs.
pub wire_to_value_depth-map :
    (left : ℕ) (m : View) (base n : ℕ) (ps : PlainPairs)
    → n < 2 ^ 31
    → read_pairs (wire_to_value_depth always left m) m.wires base n ≡ ok ps
    → wire_to_value_depth always (suc left) m (make_wire wire_map base n) ≡ ok (map ps)
unfolding wire_to_value_depth tag_of if_granted
wire_to_value_depth-map left m base n ps lt read = if_pairs_fit_lem n _ lt ∙ rw read refl

-- The content of a value: a named value is its inner one, an enumeration value its name.
unfoldable mutual
  pub content : (ℕ → ℕ) → Convert.Value → Plain
  content byte Convert.null = null
  content byte Convert.actor_ref = null
  content byte Convert.other_object = null
  content byte (Convert.boolean b) = boolean b
  content byte (Convert.int n) = int n
  content byte (Convert.float n) = float n
  content byte (Convert.decimal d) = decimal d
  content byte (Convert.rune r) = rune r
  content byte (Convert.string s) = string (slice_bytes byte s.ptr s.len)
  content byte (Convert.error_value s) = error_value (slice_bytes byte s.ptr s.len)
  content byte (Convert.enum_value s) = string (slice_bytes byte s.ptr s.len)
  content byte (Convert.array vs) = array (content_items byte vs)
  content byte (Convert.map ps) = map (content_pairs byte ps)
  content byte (Convert.named_value v) = content byte v

  pub content_items : (ℕ → ℕ) → Convert.Items → PlainItems
  content_items byte Convert.nil = nil
  content_items byte (Convert.item v vs) = item (content byte v) (content_items byte vs)

  pub content_pairs : (ℕ → ℕ) → Convert.Pairs → PlainPairs
  content_pairs byte Convert.end = end
  content_pairs byte (Convert.pair k v ps) =
      pair (content byte k) (content byte v) (content_pairs byte ps)
