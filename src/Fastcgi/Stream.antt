-- ===== src/Fastcgi/Stream.antt =====
-- `write_record` on a buffer of any length, read back record by record.
use mathlib.Core.Option
use gengo.Prelude.{
  ◌∙◌, ℕ, ◌+◌, ◌%◌, ◌≤◌, ◌<◌, zero, suc, ◌≡◌, refl, sym, ap, List, [], ◌∷◌, ◌++◌, true, Option,
  none, some, arith, length, take-append-drop, length-take, All,
}
use gengo.Stdio.{Sink, fwrite, fflush, ◌>>◌}
use gengo.Stdio.Laws.{fwrite_flushed}
use gengo.Fastcgi.{RecordHeader, uint16_max, IsU16}
use gengo.Fastcgi.Reader.{Incoming, finished, broken, incoming, next_record}
use gengo.Fastcgi.Reader.Exact.{next_record-nil}
use gengo.Fastcgi.Writer.{write_record, chunk_len}
use gengo.Fastcgi.Writer.Bytes.{
  frame, frames, record_bytes, first_chunk, after_chunk, after_chunk_shorter, chunk_len_bounds,
  write_record_lem,
}
use gengo.Fastcgi.RoundTrip.{next_record-frame, frame_header, pad_len_bounds}

abbrev pub collect :
    (List ℕ → Option (List (RecordHeader × List ℕ)))
    → Incoming
    → Option (List (RecordHeader × List ℕ))
collect more finished = some []
collect more broken = none
collect more (incoming h content rest) = Option.map (λ rs. (h, content) ∷ rs) (more rest)

-- Every record of an input, by the reader at the head of the loop of `main`; none if a record is
-- broken or the fuel runs out.
pub read_all : ℕ → List ℕ → Option (List (RecordHeader × List ℕ))
read_all zero input = none
read_all (suc n) input = collect (read_all n) (next_record input)

-- The contents of the records, joined.
abbrev pub contents : List (RecordHeader × List ℕ) → List ℕ
contents [] = []
contents ((h, content) ∷ rs) = content ++ contents rs

-- A record of a stream: its type and request, a content that is there and fits, a padded length.
abbrev pub Carries : ℕ → ℕ → RecordHeader × List ℕ → Type 0
Carries type request_id (h, content) =
    (h.type ≡ type)
    × (h.request_id ≡ request_id)
    × (h.content_len ≡ length content)
    × (0 < length content)
    × (length content ≤ uint16_max)
    × ((h.content_len + h.padding_len) % 8 ≡ 0)

-- The records that `frames` puts out.
abbrev stream_records : ℕ → ℕ → ℕ → List ℕ → List (RecordHeader × List ℕ)
stream_records zero type request_id bytes = []
stream_records (suc n) type request_id [] = []
stream_records (suc n) type request_id (b ∷ bytes) =
    (frame_header type request_id (first_chunk (b ∷ bytes)), first_chunk (b ∷ bytes))
    ∷ stream_records n type request_id (after_chunk (b ∷ bytes))

first_chunk_bounds :
    (b : ℕ) (bytes : List ℕ)
    → (0 < length (first_chunk (b ∷ bytes))) × (length (first_chunk (b ∷ bytes)) ≤ uint16_max)
first_chunk_bounds b bytes =
    let len = length (b ∷ bytes) in
    let (within, fits, pos) = chunk_len_bounds len in
    let some_left : 0 < len = omega arith in
    let cut = length-take (chunk_len len) (b ∷ bytes) in
    (omega (arith, pos some_left, cut), omega (arith, cut))

-- One record off the input.
read_all_step :
    (n : ℕ) (input : List ℕ) {rest content : List ℕ} {h : RecordHeader}
    {rs : List (RecordHeader × List ℕ)}
    → next_record input ≡ incoming h content rest
    → read_all n rest ≡ some rs
    → read_all (suc n) input ≡ some ((h, content) ∷ rs)
unfolding read_all
read_all_step n input e r = rw (e, r)

frames-cons :
    (n type request_id b : ℕ) (bytes : List ℕ)
    → frames (suc n) type request_id (b ∷ bytes)
      ≡ frame type request_id (first_chunk (b ∷ bytes))
        ++ frames n type request_id (after_chunk (b ∷ bytes))
unfolding frames
frames-cons n type request_id b bytes = refl

read_all-frames :
    (n type request_id : ℕ) (bytes : List ℕ)
    → IsU16 request_id
    → length bytes ≤ n
    → read_all (suc n) (frames n type request_id bytes)
      ≡ some (stream_records n type request_id bytes)
read_all-frames zero type request_id [] hi h = unfold read_all frames in rw next_record-nil
read_all-frames zero type request_id (b ∷ bytes) hi h = absurd (omega arith)
read_all-frames (suc n) type request_id [] hi h = unfold read_all frames in rw next_record-nil
read_all-frames (suc n) type request_id (b ∷ bytes) hi h =
    let first = first_chunk (b ∷ bytes) in
    let fits : length first ≤ uint16_max = (first_chunk_bounds b bytes).1 in
    let rest =
      read_all-frames n type request_id (after_chunk (b ∷ bytes)) hi
        (after_chunk_shorter n b bytes h) in
    rw (frames-cons n type request_id b bytes) (
      read_all_step (suc n) _
        (next_record-frame type request_id first
          (frames n type request_id (after_chunk (b ∷ bytes))) hi fits)
        rest)

contents-stream_records :
    (n type request_id : ℕ) (bytes : List ℕ)
    → length bytes ≤ n
    → contents (stream_records n type request_id bytes) ≡ bytes
contents-stream_records zero type request_id [] h = refl
contents-stream_records zero type request_id (b ∷ bytes) h = absurd (omega arith)
contents-stream_records (suc n) type request_id [] h = refl
contents-stream_records (suc n) type request_id (b ∷ bytes) h =
    ap (λ l. first_chunk (b ∷ bytes) ++ l)
      (contents-stream_records n type request_id (after_chunk (b ∷ bytes))
        (after_chunk_shorter n b bytes h))
    ∙ take-append-drop (chunk_len (length (b ∷ bytes))) (b ∷ bytes)

stream_records-Carries :
    (n type request_id : ℕ) (bytes : List ℕ)
    → All (Carries type request_id) (stream_records n type request_id bytes)
stream_records-Carries zero type request_id bytes = tt
stream_records-Carries (suc n) type request_id [] = tt
stream_records-Carries (suc n) type request_id (b ∷ bytes) =
    let (pos, fits) = first_chunk_bounds b bytes in
    (
      (refl, refl, refl, pos, fits, (pad_len_bounds (length (first_chunk (b ∷ bytes)))).1),
      stream_records-Carries n type request_id (after_chunk (b ∷ bytes)),
    )

-- When `write_record` answers 1 on a buffer, for a 16-bit request, the bytes that it put out read back as records of
-- that type and request whose contents are the buffer, each with 1 to 65535 bytes of content and
-- padded to a multiple of 8.
pub write_record-read_all :
    (type request_id : ℕ) (buffer : List ℕ) (s : Sink)
    → IsU16 request_id
    → (write_record type request_id (some buffer) s).0 ≡ true
    → (out : List ℕ) × (rs : List (RecordHeader × List ℕ)) × ((write_record type request_id
          (some buffer)
          s).1.written
        ≡ s.written ++ out)
      × (read_all (suc (length buffer)) out ≡ some rs)
      × (contents rs ≡ buffer)
      × All (Carries type request_id) rs
write_record-read_all type request_id buffer s hi h =
    let n = length buffer in
    let out = record_bytes type request_id (some buffer) in
    let e : write_record type request_id (some buffer) s ≡ (fwrite out >> fflush) s =
      ap (λ m. m s) (write_record_lem type request_id (some buffer)) in
    (
      out,
      stream_records n type request_id buffer,
      ap (λ r. r.1.written) e ∙ fwrite_flushed out s (ap (λ r. r.0) (sym e) ∙ h),
      unfold record_bytes in read_all-frames n type request_id buffer hi (omega arith),
      contents-stream_records n type request_id buffer (omega arith),
      stream_records-Carries n type request_id buffer,
    )
