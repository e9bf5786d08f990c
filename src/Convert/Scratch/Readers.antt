-- ===== src/Convert/Scratch/Readers.antt =====
-- The readers of sdk/c/include/gengo-wire.h on what `engine_call` answers for an array or a map.
use gengo.Prelude.{
  ℕ, zero, suc, ◌+◌, ◌*◌, ◌/◌, ◌≤◌, ◌<◌, ◌≡◌, refl, sym, ◌∙◌, ap, arith, Option, none, some,
}
use gengo.Prelude.{false, ltb}
use gengo.Wire.{
  Wire, wire_size, wire_array, wire_map, gengo_wire_array_at, gengo_wire_map_key_at,
  gengo_wire_map_value_at,
}
use gengo.Wire.Containers.{gengo_wire_array_at_within, gengo_wire_map_at_within}
use gengo.Convert.{
  Conversion, ok, fails, ◌>>=◌, Items, Pairs, array, map, count_items, count_pairs, make_wire,
  max_wire_depth,
}
use gengo.Convert.Plain.{
  always, Plain, PlainItems, PlainPairs, nil, item, end, pair, View, read_items, read_pairs,
  wire_to_value_depth, wire_to_value, content_items, content_pairs,
}
use gengo.Convert.Fits.{Fits, cost}
use gengo.Convert.RoundTrip.{convert_items, convert_pairs}
use gengo.Convert.Scratch.{Scratch, Pages, elem_buf_len, in_elem_buf, value_to_wire_with_scratch}
use gengo.Convert.Scratch.RoundTrip.{IsBufferApart}

unfoldable pub item_at : PlainItems → ℕ → Option Plain
item_at nil i = none
item_at (item v vs) zero = some v
item_at (item v vs) (suc i) = item_at vs i

unfoldable pub pair_key_at : PlainPairs → ℕ → Option Plain
pair_key_at end i = none
pair_key_at (pair k v ps) zero = some k
pair_key_at (pair k v ps) (suc i) = pair_key_at ps i

unfoldable pub pair_value_at : PlainPairs → ℕ → Option Plain
pair_value_at end i = none
pair_value_at (pair k v ps) zero = some v
pair_value_at (pair k v ps) (suc i) = pair_value_at ps i

bind_ok {ℓ κ} :
    {A : Type ℓ} {B : Type κ} (r : Conversion A) (f : A → Conversion B) (b : B)
    → (r >>= f) ≡ ok b
    → (a : A) × (r ≡ ok a) × (f a ≡ ok b)
bind_ok (ok a) f b h = (a, refl, h)
bind_ok (fails e) f b h = absurd (ground arith)

read_items_at :
    (read : Wire → Conversion Plain) (wires : ℕ → Wire) (base n : ℕ) (vs : PlainItems) (i : ℕ)
    → read_items read wires base n ≡ ok vs
    → i < n
    → (p : Plain) × (item_at vs i ≡ some p) × (read (wires (base + wire_size * i)) ≡ ok p)
unfolding read_items item_at
read_items_at read wires base zero vs i h lt = absurd (omega arith)
read_items_at read wires base (suc n) vs zero h lt =
    let (v, first, others) = bind_ok (read (wires base)) _ vs h in
    let (rest, later, whole) = bind_ok (read_items read wires (base + wire_size) n) _ vs others in
    let is_item : item v rest ≡ vs = ground arith in
    let here : base + wire_size * 0 ≡ base = omega arith in
    (v, ap (λ l. item_at l 0) (sym is_item), ap (λ a. read (wires a)) here ∙ first)
read_items_at read wires base (suc n) vs (suc i) h lt =
    let (v, first, others) = bind_ok (read (wires base)) _ vs h in
    let (rest, later, whole) = bind_ok (read_items read wires (base + wire_size) n) _ vs others in
    let is_item : item v rest ≡ vs = ground arith in
    let there : base + wire_size * suc i ≡ base + wire_size + wire_size * i = omega arith in
    let (p, found, reads) =
      read_items_at read wires (base + wire_size) n rest i later (omega arith) in
    (p, ap (λ l. item_at l (suc i)) (sym is_item) ∙ found, ap (λ a. read (wires a)) there ∙ reads)

read_pairs_at :
    (read : Wire → Conversion Plain) (wires : ℕ → Wire) (base n : ℕ) (ps : PlainPairs) (i : ℕ)
    → read_pairs read wires base n ≡ ok ps
    → i < n
    → (k : Plain) × (v : Plain) × (pair_key_at ps i ≡ some k)
      × (pair_value_at ps i ≡ some v)
      × (read (wires (base + wire_size * (i * 2))) ≡ ok k)
      × (read (wires (base + wire_size * (i * 2 + 1))) ≡ ok v)
unfolding read_pairs pair_key_at pair_value_at
read_pairs_at read wires base zero ps i h lt = absurd (omega arith)
read_pairs_at read wires base (suc n) ps i h lt =
    let (k, first, more) = bind_ok (read (wires base)) _ ps h in
    let (v, second, others) = bind_ok (read (wires (base + wire_size))) _ ps more in
    let (rest, later, whole) =
      bind_ok (read_pairs read wires (base + wire_size * 2) n) _ ps others in
    let is_pair : pair k v rest ≡ ps = ground arith in
    at_index i lt k v rest is_pair first second later
      (λ j below. read_pairs_at read wires (base + wire_size * 2) n rest j later below)
  where
    at_index :
        (j : ℕ)
        → j < suc n
        → (k v : Plain) (rest : PlainPairs) → pair k v rest ≡ ps
        → read (wires base) ≡ ok k
        → read (wires (base + wire_size)) ≡ ok v
        → read_pairs read wires (base + wire_size * 2) n ≡ ok rest
        → ((m : ℕ)
            → m < n
            → (k' : Plain) × (v' : Plain) × (pair_key_at rest m ≡ some k')
              × (pair_value_at rest m ≡ some v')
              × (read (wires (base + wire_size * 2 + wire_size * (m * 2))) ≡ ok k')
              × (read (wires (base + wire_size * 2 + wire_size * (m * 2 + 1))) ≡ ok v'))
        → (k' : Plain) × (v' : Plain) × (pair_key_at ps j ≡ some k')
          × (pair_value_at ps j ≡ some v')
          × (read (wires (base + wire_size * (j * 2))) ≡ ok k')
          × (read (wires (base + wire_size * (j * 2 + 1))) ≡ ok v')
    at_index zero lt k v rest is_pair first second later inner =
        let at_key : base + wire_size * (0 * 2) ≡ base = omega arith in
        let at_value : base + wire_size * (0 * 2 + 1) ≡ base + wire_size = omega arith in
        (
          k,
          v,
          ap (λ l. pair_key_at l 0) (sym is_pair),
          ap (λ l. pair_value_at l 0) (sym is_pair),
          ap (λ a. read (wires a)) at_key ∙ first,
          ap (λ a. read (wires a)) at_value ∙ second,
        )
    at_index (suc j) lt k v rest is_pair first second later inner =
        let (k', v', found, held, reads_key, reads_value) = inner j (omega arith) in
        (
          k',
          v',
          ap (λ l. pair_key_at l (suc j)) (sym is_pair) ∙ found,
          ap (λ l. pair_value_at l (suc j)) (sym is_pair) ∙ held,
          ap (λ a. read (wires a)) (omega arith) ∙ reads_key,
          ap (λ a. read (wires a)) (omega arith) ∙ reads_value,
        )

-- What the memory of `st` holds at an address, read as a value.
unfoldable pub read_at : Scratch → ℕ → Conversion Plain
read_at st addr =
    wire_to_value always (record { byte = st.byte; wires = st.heap.wires }) (st.heap.wires addr)

-- For an array that fits and that the buffer and the heap have room for, where the buffer does not meet the free part
-- of the heap and every allocation of the reading is granted, the answer of a call is a wire on
-- which `gengo_wire_array_at` gives, for every index below the length, the address of a wire that reads as
-- the content of that item.
pub gengo_wire_array_at-value_to_wire_with_scratch :
    (pages : Pages) (vs : Items) (st : Scratch) (i : ℕ)
    → Fits 0 (array vs)
    → count_items vs ≤ elem_buf_len
    → st.heap.overflow_bump + cost (array vs) ≤ st.heap.permanent_bump
    → IsBufferApart st
    → i < count_items vs
    → (w : Wire) × (left : Scratch) × (addr : ℕ) × (p : Plain) × (value_to_wire_with_scratch pages
          (array vs)
          st
        ≡ ok (w, left))
      × (gengo_wire_array_at w i ≡ some addr)
      × (item_at (content_items st.byte vs) i ≡ some p)
      × (read_at left addr ≡ ok p)
unfolding Fits cost value_to_wire_with_scratch in_elem_buf read_at wire_to_value
gengo_wire_array_at-value_to_wire_with_scratch pages vs st i (shallow, short, inner) buffer room
      apart lt =
    let n = count_items vs in
    let base = st.wire_elem_buf in
    let c = convert_items 1 vs base st.heap inner (ground arith) (omega arith) in
    let m : View = record { byte = st.byte; wires = c.heap.wires } in
    let within : ltb elem_buf_len n ≡ false = ground arith in
    let w = make_wire wire_array base n in
    let (p, found, reads) =
      read_items_at (wire_to_value_depth always max_wire_depth m) c.heap.wires base n
        (content_items st.byte vs) i
        (c.reads m max_wire_depth (omega arith) (λ a le below. refl) (λ a le below. refl)) lt in
    (
      w,
      record st { heap = c.heap; wire_elem_count = n },
      base + wire_size * i,
      p,
      rw (within, c.answers) refl,
      gengo_wire_array_at_within w i refl lt,
      found,
      reads,
    )

-- For a map that fits and that the buffer and the heap have room for, where the buffer does not meet the free part of
-- the heap and every allocation of the reading is granted, the answer of a call is a
-- wire on which `gengo_wire_map_key_at` and `gengo_wire_map_value_at` give, for every index below
-- the length, the addresses of wires that read as the contents of the key and the value of that
-- entry.
pub gengo_wire_map_at-value_to_wire_with_scratch :
    (pages : Pages) (ps : Pairs) (st : Scratch) (i : ℕ)
    → Fits 0 (map ps)
    → count_pairs ps ≤ elem_buf_len / 2
    → st.heap.overflow_bump + cost (map ps) ≤ st.heap.permanent_bump
    → IsBufferApart st
    → i < count_pairs ps
    → (w : Wire) × (left : Scratch) × (key_addr : ℕ) × (value_addr : ℕ) × (k : Plain) × (v : Plain)
      × (value_to_wire_with_scratch pages (map ps) st ≡ ok (w, left))
      × (gengo_wire_map_key_at w i ≡ some key_addr)
      × (gengo_wire_map_value_at w i ≡ some value_addr)
      × (pair_key_at (content_pairs st.byte ps) i ≡ some k)
      × (pair_value_at (content_pairs st.byte ps) i ≡ some v)
      × (read_at left key_addr ≡ ok k)
      × (read_at left value_addr ≡ ok v)
unfolding Fits cost value_to_wire_with_scratch in_elem_buf read_at wire_to_value
gengo_wire_map_at-value_to_wire_with_scratch pages ps st i (shallow, short, inner) buffer room apart
      lt =
    let n = count_pairs ps in
    let base = st.wire_elem_buf in
    let c = convert_pairs 1 ps base st.heap inner (ground arith) (omega arith) in
    let m : View = record { byte = st.byte; wires = c.heap.wires } in
    let within : ltb (elem_buf_len / 2) n ≡ false = ground arith in
    let w = make_wire wire_map base n in
    let (k, v, has_key, has_value, reads_key, reads_value) =
      read_pairs_at (wire_to_value_depth always max_wire_depth m) c.heap.wires base n
        (content_pairs st.byte ps) i
        (c.reads m max_wire_depth (omega arith) (λ a le below. refl) (λ a le below. refl)) lt in
    let (at_key, at_value) = gengo_wire_map_at_within w i refl lt (omega arith) in
    (
      w,
      record st { heap = c.heap; wire_elem_count = n * 2 },
      base + wire_size * (i * 2),
      base + wire_size * (i * 2 + 1),
      k,
      v,
      rw (within, c.answers) refl,
      at_key,
      at_value,
      has_key,
      has_value,
      reads_key,
      reads_value,
    )
