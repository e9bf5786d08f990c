-- ===== src/Fastcgi/RoundTrip.antt =====
-- The reader of this program on what its writer puts out.
use gengo.Prelude.{
  ◌∙◌, ℕ, ◌+◌, ◌/◌, ◌%◌, ◌^◌, ◌≤◌, ◌<◌, ◌≡◌, ap, List, ◌++◌, append_assoc, some, arith, length,
  replicate, length-replicate,
}
use gengo.Prelude.Bits.{bit_or_low}
use gengo.Fastcgi.{RecordHeader, be16, pad_len, uint16_max, IsU16}
use gengo.Fastcgi.Reader.{
  discard_exact, incoming, next_record, read_content, read_record_header, read_body, header,
}
use gengo.Fastcgi.Reader.Exact.{read_exact-append, discard_exact-append, read_record_header_lem}
use gengo.Fastcgi.Writer.{header_bytes}
use gengo.Fastcgi.Writer.Bytes.{frame}

-- A 16-bit number comes back from its two bytes.
be16_bytes : (n : ℕ) → IsU16 n → be16 (n / 2 ^ 8 % 2 ^ 8) (n % 2 ^ 8) ≡ n
unfolding be16
be16_bytes n h = rw (bit_or_low 8 (n / 2 ^ 8 % 2 ^ 8) (n % 2 ^ 8) (omega arith)) (omega arith)

pub pad_len_bounds : (n : ℕ) → (pad_len n < 8) × ((n + pad_len n) % 8 ≡ 0)
unfolding pad_len
pad_len_bounds n = omega arith

-- The header of the record that `frame` writes.
abbrev pub frame_header : ℕ → ℕ → List ℕ → RecordHeader
frame_header type request_id content = record {
  type = type;
  request_id = request_id;
  content_len = length content;
  padding_len = pad_len (length content);
}

read_record_header-header_bytes :
    (type request_id : ℕ) (content rest : List ℕ)
    → IsU16 request_id
    → length content ≤ uint16_max
    → read_record_header
        (header_bytes type request_id (length content) (pad_len (length content)) ++ rest)
      ≡ header (frame_header type request_id content) rest
unfolding header_bytes
read_record_header-header_bytes type request_id content rest hi hl = ground (
  arith,
  read_record_header_lem type (request_id / 2 ^ 8 % 2 ^ 8) (request_id % 2 ^ 8)
      (length content / 2 ^ 8 % 2 ^ 8) (length content % 2 ^ 8) (pad_len (length content) % 2 ^ 8)
      rest,
  be16_bytes request_id hi,
  be16_bytes (length content) (omega arith),
  pad_len_bounds (length content),
)

read_content-padded :
    (type request_id : ℕ) (content rest : List ℕ)
    → read_content
        (frame_header type request_id content)
        (content ++ (replicate (pad_len (length content)) 0 ++ rest))
      ≡ some (content, rest)
unfolding read_content
read_content-padded type request_id content rest =
    let padding = replicate (pad_len (length content)) 0 in
    let dropped : discard_exact (pad_len (length content)) (padding ++ rest) ≡ some rest =
      rw (length-replicate {A = ℕ} (pad_len (length content)) 0) at
        (discard_exact-append padding rest) in
    rw (read_exact-append content (padding ++ rest), dropped)

-- The reader takes a record that the writer framed, of a 16-bit request and with at most 65535
-- bytes of content, off the input, padding included, and leaves what follows it.
pub next_record-frame :
    (type request_id : ℕ) (content rest : List ℕ)
    → IsU16 request_id
    → length content ≤ uint16_max
    → next_record (frame type request_id content ++ rest)
      ≡ incoming (frame_header type request_id content) content rest
unfolding next_record frame read_body
next_record-frame type request_id content rest hi hl =
    let pad = pad_len (length content) in
    let head = header_bytes type request_id (length content) pad in
    let body = content ++ replicate pad 0 in
    let parts : (head ++ body) ++ rest ≡ head ++ (content ++ (replicate pad 0 ++ rest)) =
      append_assoc head body rest
      ∙ ap (λ l. head ++ l) (append_assoc content (replicate pad 0) rest) in
    let taken : next_record ((head ++ body) ++ rest)
        ≡ read_body
            (header (frame_header type request_id content) (content ++ (replicate pad 0 ++ rest))) =
      ap (λ l. read_body (read_record_header l)) parts
      ∙ ap read_body (read_record_header-header_bytes type request_id content _ hi hl) in
    taken ∙ rw (read_body, read_content-padded)
