-- ===== src/Fastcgi/Reader/Exact.antt =====
-- `read_exact` and `discard_exact` as cuts of the input.
use gengo.Prelude.{
  [], refl, ◌∷◌, leb, if◌then◌else◌, ℕ, ◌+◌, ◌-◌, ◌≤◌, ◌<◌, zero, suc, ◌≡◌, List, ◌++◌, none, some,
  arith, length, take, drop, length-append, length-drop, drop-drop, take-append, drop-append,
}
use gengo.Fastcgi.{be16}
use gengo.Fastcgi.Reader.{
  next_record, finished, read_body, header, read_record_header, read_exact, discard_chunk,
  discard_loop, discard_exact,
}

pub read_exact_lem :
    (len : ℕ) (input : List ℕ)
    → read_exact len input
      ≡ (if leb len (length input) then some (take len input, drop len input) else none)
unfolding read_exact
read_exact_lem len input = ground arith

pub read_exact-append : (xs rest : List ℕ) → read_exact (length xs) (xs ++ rest) ≡ some (xs, rest)
unfolding read_exact
read_exact-append xs rest =
    ground (
      arith,
      length-append xs rest,
      take-append (length xs) xs rest,
      drop-append (length xs) xs rest,
    )

discard_chunk_bounds : (len : ℕ) → 0 < len → (0 < discard_chunk len) × (discard_chunk len ≤ len)
unfolding discard_chunk
discard_chunk_bounds len h = ground arith

-- What is cut off at once, in two cuts.
cut_twice :
    (m n : ℕ) (input : List ℕ)
    → m ≤ length input
    → (if leb n (length (drop m input)) then some (drop n (drop m input)) else none)
      ≡ (if leb (m + n) (length input) then some (drop (m + n) input) else none)
cut_twice m n input h = ground (arith, length-drop m input, drop-drop m n input)

discard_loop_lem :
    (fuel len : ℕ) (input : List ℕ)
    → len ≤ fuel
    → discard_loop fuel len input ≡ (if leb len (length input) then some (drop len input) else none)
unfolding discard_loop
discard_loop_lem zero zero input h = ground arith
discard_loop_lem zero (suc len) input h = absurd (omega arith)
discard_loop_lem (suc fuel) zero input h = ground arith
discard_loop_lem (suc fuel) (suc len) input h =
    let chunk = discard_chunk (suc len) in
    let (pos, fits) = discard_chunk_bounds (suc len) (omega arith) in
    let e : chunk + (suc len - chunk) ≡ suc len = omega arith in
    ground (
      arith,
      e,
      read_exact_lem chunk input,
      cut_twice chunk (suc len - chunk) input,
      discard_loop_lem fuel (suc len - chunk) (drop chunk input) (omega arith),
    )

-- `discard_exact` drops exactly `len` bytes, and fails exactly when there are fewer.
pub discard_exact_lem :
    (len : ℕ) (input : List ℕ)
    → discard_exact len input ≡ (if leb len (length input) then some (drop len input) else none)
unfolding discard_exact
discard_exact_lem len input = discard_loop_lem len len input (omega arith)

pub discard_exact-append : (xs rest : List ℕ) → discard_exact (length xs) (xs ++ rest) ≡ some rest
discard_exact-append xs rest = ground (
  arith,
  discard_exact_lem (length xs) (xs ++ rest),
  length-append xs rest,
  drop-append (length xs) xs rest,
)

-- Eight bytes of a header with the right version and reserved byte.
pub read_record_header_lem :
    (type id_hi id_lo len_hi len_lo padding : ℕ) (rest : List ℕ)
    → read_record_header (1 ∷ type ∷ id_hi ∷ id_lo ∷ len_hi ∷ len_lo ∷ padding ∷ 0 ∷ rest)
      ≡ header
          (record {
            type = type;
            request_id = be16 id_hi id_lo;
            content_len = be16 len_hi len_lo;
            padding_len = padding;
          })
          rest
unfolding read_record_header
read_record_header_lem type id_hi id_lo len_hi len_lo padding rest = ground arith

pub next_record-nil : next_record [] ≡ finished
unfolding next_record read_record_header read_body
next_record-nil = refl
