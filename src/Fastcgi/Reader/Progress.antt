-- ===== src/Fastcgi/Reader/Progress.antt =====
-- A record that is read carries as many bytes as its header says, and the input gets shorter.
use gengo.Prelude.{
  ℕ, ◌+◌, ◌≡◌, List, [], ◌∷◌, some, arith, length, length-take, length-drop, inl, inr, Option-cases,
}
use gengo.Fastcgi.{RecordHeader}
use gengo.Fastcgi.Reader.{
  read_exact, discard_exact, HeaderRead, end_of_input, malformed, header, read_record_header,
  read_content, read_body, incoming, next_record, decode_header,
}
use gengo.Fastcgi.Reader.Exact.{read_exact_lem, discard_exact_lem}

-- A successful read is a cut.
read_exact-some :
    (len : ℕ) (input : List ℕ) {bytes rest : List ℕ}
    → read_exact len input ≡ some (bytes, rest)
    → (length bytes ≡ len) × (length rest + len ≡ length input)
read_exact-some len input e =
    ground (arith, read_exact_lem len input, length-take len input, length-drop len input)

discard_exact-some :
    (len : ℕ) (input : List ℕ) {rest : List ℕ}
    → discard_exact len input ≡ some rest
    → length rest + len ≡ length input
discard_exact-some len input e = ground (arith, discard_exact_lem len input, length-drop len input)

read_content-some :
    (h : RecordHeader) (input : List ℕ) {content rest : List ℕ}
    → read_content h input ≡ some (content, rest)
    → (h.content_len ≡ length content)
      × (length rest + h.padding_len + h.content_len ≡ length input)
unfolding read_content
read_content-some h input e = elim (Option-cases (read_exact h.content_len input)) [
  | inl short ↦ ground arith
  | inr ((bytes, mid), got) ↦ elim (Option-cases (discard_exact h.padding_len mid)) [
    | inl short ↦ ground arith
    | inr (after, dropped) ↦ ground (
      arith,
      read_exact-some h.content_len input got,
      discard_exact-some h.padding_len mid dropped,
    )
  ]
]

decode_header_rest :
    (raw input : List ℕ) {h : RecordHeader} {rest : List ℕ}
    → decode_header raw input ≡ header h rest
    → rest ≡ input
unfolding decode_header
decode_header_rest [] input e = ground arith
decode_header_rest (a ∷ []) input e = ground arith
decode_header_rest (a ∷ b ∷ []) input e = ground arith
decode_header_rest (a ∷ b ∷ c ∷ []) input e = ground arith
decode_header_rest (a ∷ b ∷ c ∷ d ∷ []) input e = ground arith
decode_header_rest (a ∷ b ∷ c ∷ d ∷ f ∷ []) input e = ground arith
decode_header_rest (a ∷ b ∷ c ∷ d ∷ f ∷ k ∷ []) input e = ground arith
decode_header_rest (a ∷ b ∷ c ∷ d ∷ f ∷ k ∷ l ∷ []) input e = ground arith
decode_header_rest (a ∷ b ∷ c ∷ d ∷ f ∷ k ∷ l ∷ m ∷ more) input e = ground arith

read_record_header_shorter :
    (input : List ℕ) {h : RecordHeader} {rest : List ℕ}
    → read_record_header input ≡ header h rest
    → length rest + 8 ≡ length input
unfolding read_record_header
read_record_header_shorter [] e = ground arith
read_record_header_shorter (version ∷ input) e = elim (Option-cases (read_exact 7 input)) [
  | inl short ↦ ground arith
  | inr ((raw, mid), got) ↦
      let whole = read_exact-some 7 input got in
      ground (arith, decode_header_rest (version ∷ raw) mid)
]

read_body_incoming :
    (r : HeaderRead) {h : RecordHeader} {content rest : List ℕ}
    → read_body r ≡ incoming h content rest
    → (input : List ℕ) × (r ≡ header h input) × (read_content h input ≡ some (content, rest))
unfolding read_body
read_body_incoming end_of_input e = cc
read_body_incoming malformed e = cc
read_body_incoming (header k input) e = elim (Option-cases (read_content k input)) [
  | inl short ↦ ground arith
  | inr ((bytes, mid), got) ↦ (input, ground arith, ground arith)
]

-- A record that is read has the content that its header announces, and takes its eight bytes of
-- header, its content and its padding off the input.
pub next_record_takes :
    (input : List ℕ) {h : RecordHeader} {content rest : List ℕ}
    → next_record input ≡ incoming h content rest
    → (h.content_len ≡ length content)
      × (length rest + h.padding_len + length content + 8 ≡ length input)
unfolding next_record
next_record_takes input {h} e =
    let (mid, head, got) = read_body_incoming (read_record_header input) e in
    omega (arith, read_record_header_shorter input head, read_content-some h mid got)
