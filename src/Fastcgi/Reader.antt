-- ===== src/Fastcgi/Reader.antt =====
-- The reading half of examples/fastcgi-host/main.c: `read_exact`, `read_record_header` and
-- `discard_exact`, and the read of a whole record at the head of the loop of `main`.
pub mod Exact
pub mod Progress
use gengo.Prelude.{
  ℕ, ◌-◌, zero, suc, List, [], ◌∷◌, true, false, ◌||◌, not, Option, none, some, ◌==◌, ltb, leb,
  if◌then◌else◌, length, take, drop,
}
use gengo.Fastcgi.{RecordHeader, be16, fcgi_version_1}

-- `bind` of `Option`: a call that answers 0 ends the function.
infixl 5 ◌>>=◌
abbrev pub ◌>>=◌ : {A B : Type 0} → Option A → (A → Option B) → Option B
none >>= f = none
some a >>= f = f a

-- The bytes read, and the rest of the input.
pub read_exact : ℕ → List ℕ → Option (List ℕ × List ℕ)
read_exact len input =
    if len == 0 || leb len (length input) then some (take len input, drop len input) else none

-- The answers 0, -1 and 1 of `read_record_header`.
pub data HeaderRead : Type 0 where
  end_of_input : HeaderRead
  malformed : HeaderRead
  header : RecordHeader → List ℕ → HeaderRead

-- The fields of the eight bytes `raw`, behind the checks of the version and of the reserved byte.
decode_header : List ℕ → List ℕ → HeaderRead
decode_header (version ∷ type ∷ id_hi ∷ id_lo ∷ len_hi ∷ len_lo ∷ padding ∷ reserved ∷ _) rest =
    if not (version == fcgi_version_1) || not (reserved == 0)
    then malformed
    else header
        (record {
          type = type;
          request_id = be16 id_hi id_lo;
          content_len = be16 len_hi len_lo;
          padding_len = padding;
        })
        rest
decode_header _ rest = malformed

decode_rest : ℕ → Option (List ℕ × List ℕ) → HeaderRead
decode_rest version none = malformed
decode_rest version (some (raw, rest)) = decode_header (version ∷ raw) rest

pub read_record_header : List ℕ → HeaderRead
unfolding decode_header decode_rest read_exact
read_record_header [] = end_of_input
read_record_header (version ∷ input) = decode_rest version (read_exact 7 input)

-- size_t chunk = len < sizeof buf ? len : sizeof buf
discard_chunk : ℕ → ℕ
discard_chunk len = if ltb len 256 then len else 256

-- The `while` of `discard_exact`; the first argument is fuel.
discard_loop : ℕ → ℕ → List ℕ → Option (List ℕ)
discard_loop zero len input = some input
discard_loop (suc fuel) len input =
    let chunk = discard_chunk len in
    let next = λ (r : List ℕ × List ℕ). discard_loop fuel (len - chunk) r.1 in
    if ltb 0 len then read_exact chunk input >>= next else some input

-- Every round of the loop takes at least one byte off `len`.
pub discard_exact : ℕ → List ℕ → Option (List ℕ)
unfolding discard_loop discard_chunk read_exact
discard_exact len input = discard_loop len len input

-- What `main` reads at the head of its loop: the end, a bad record, or a header with its content.
pub data Incoming : Type 0 where
  finished : Incoming
  broken : Incoming
  incoming : RecordHeader → List ℕ → List ℕ → Incoming

-- !read_exact(content, content_len) || !discard_exact(padding_len)
unfoldable pub read_content : RecordHeader → List ℕ → Option (List ℕ × List ℕ)
read_content h input = do
  (content, rest) ← read_exact h.content_len input
  rest' ← discard_exact h.padding_len rest
  some (content, rest')

unfoldable pub read_body : HeaderRead → Incoming
read_body end_of_input = finished
read_body malformed = broken
read_body (header h input) = elim (read_content h input) [
  | none ↦ broken
  | some (content, rest) ↦ incoming h content rest
]

unfoldable pub next_record : List ℕ → Incoming
unfolding read_body
next_record input = read_body (read_record_header input)
