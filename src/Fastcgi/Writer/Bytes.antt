-- ===== src/Fastcgi/Writer/Bytes.antt =====
-- `write_record` as one write of the bytes of its frames.
use mathlib.Core.Path.{fun_ext}
use gengo.Prelude.{
  false, ℕ, ◌≤◌, ◌<◌, zero, suc, ◌≡◌, ap, sym, ◌∙◌, List, [], ◌∷◌, ◌++◌, Option, none, some, arith,
  ◌==◌, length, take, drop, length-drop, replicate, if◌then◌else◌,
}
use gengo.Stdio.{Writer, fwrite, fflush, skip, ◌>>◌}
use gengo.Stdio.Laws.{fwrite-nil, fwrite-append, skip->>}
use gengo.Fastcgi.{uint16_max, pad_len}
use gengo.Fastcgi.Writer.{chunk_len, header_bytes, write_frame, write_loop, write_record}

-- A record on the wire: header, content and padding.
unfoldable pub frame : ℕ → ℕ → List ℕ → List ℕ
frame type request_id content =
    let pad = pad_len (length content) in
    header_bytes type request_id (length content) pad ++ (content ++ replicate pad 0)

-- The next chunk of a buffer, and what is left.
abbrev pub first_chunk : List ℕ → List ℕ
first_chunk bytes = take (chunk_len (length bytes)) bytes

abbrev pub after_chunk : List ℕ → List ℕ
after_chunk bytes = drop (chunk_len (length bytes)) bytes

-- The frames of `bytes`, 65535 bytes in each but the last; `n` bounds their number.
unfoldable pub frames : ℕ → ℕ → ℕ → List ℕ → List ℕ
frames zero type request_id bytes = []
frames (suc n) type request_id [] = []
frames (suc n) type request_id (b ∷ bytes) =
    frame type request_id (first_chunk (b ∷ bytes))
    ++ frames n type request_id (after_chunk (b ∷ bytes))

unfoldable pub record_bytes : ℕ → ℕ → Option (List ℕ) → List ℕ
record_bytes type request_id none = frame type request_id []
record_bytes type request_id (some bytes) = frames (length bytes) type request_id bytes

unless_empty :
    (content : List ℕ) → (if length content == 0 then skip else fwrite content) ≡ fwrite content
unless_empty [] = sym fwrite-nil
unless_empty (b ∷ bytes) = ground arith

unless_no_padding :
    (pad : ℕ) → (if pad == 0 then skip else fwrite (replicate pad 0)) ≡ fwrite (replicate pad 0)
unless_no_padding zero = sym fwrite-nil
unless_no_padding (suc n) = ground arith

pub write_frame_lem :
    (type request_id : ℕ) (content : List ℕ)
    → write_frame type request_id content ≡ fwrite (frame type request_id content)
unfolding write_frame frame
write_frame_lem type request_id content = rw (
  unless_empty content,
  unless_no_padding (pad_len (length content)),
  fwrite-append,
  fwrite-append,
)

>>_assoc : (a b c : Writer) → (a >> b >> c) ≡ (a >> (b >> c))
unfolding ◌>>◌
>>_assoc a b c = fun_ext λ s. ground arith

pub chunk_len_bounds :
    (n : ℕ) → (chunk_len n ≤ n) × (chunk_len n ≤ uint16_max) × (0 < n → 0 < chunk_len n)
unfolding chunk_len
chunk_len_bounds n = ground arith

-- One round on a buffer that is not empty.
write_loop_round :
    (n type request_id b : ℕ) (bytes : List ℕ)
    → write_loop (suc n) false type request_id (b ∷ bytes) ≡ (
        fwrite (frame type request_id (first_chunk (b ∷ bytes)))
        >> write_loop n false type request_id (after_chunk (b ∷ bytes)))
unfolding write_loop
write_loop_round n type request_id b bytes =
    ground (arith, write_frame_lem type request_id (first_chunk (b ∷ bytes)))

pub after_chunk_shorter :
    (n b : ℕ) (bytes : List ℕ) → length (b ∷ bytes) ≤ suc n → length (after_chunk (b ∷ bytes)) ≤ n
after_chunk_shorter n b bytes h =
    let len = length (b ∷ bytes) in
    omega (arith, length-drop (chunk_len len) (b ∷ bytes), (chunk_len_bounds len).2 (omega arith))

write_loop_lem :
    (n type request_id : ℕ) (bytes : List ℕ)
    → length bytes ≤ n
    → write_loop n false type request_id bytes ≡ (fwrite (frames n type request_id bytes) >> fflush)
write_loop_lem zero type request_id [] h = unfold write_loop frames in rw (fwrite-nil, skip->>)
write_loop_lem zero type request_id (b ∷ bytes) h = absurd (omega arith)
write_loop_lem (suc n) type request_id [] h =
    unfold write_loop frames in rw (fwrite-nil, skip->>) (ground arith)
write_loop_lem (suc n) type request_id (b ∷ bytes) h =
    write_loop_round n type request_id b bytes
    ∙ ap (λ m. fwrite (frame type request_id (first_chunk (b ∷ bytes))) >> m)
        (write_loop_lem n type request_id (after_chunk (b ∷ bytes))
          (after_chunk_shorter n b bytes h))
    ∙ sym (>>_assoc _ _ _)
    ∙ unfold frames in rw fwrite-append

-- `write_record` is one write of its record's frames, and a flush if that did not fail.
pub write_record_lem :
    (type request_id : ℕ) (content : Option (List ℕ))
    → write_record type request_id content
      ≡ (fwrite (record_bytes type request_id content) >> fflush)
unfolding write_record record_bytes
write_record_lem type request_id none = unfold write_loop chunk_len in rw write_frame_lem
write_record_lem type request_id (some bytes) =
    write_loop_lem (length bytes) type request_id bytes (omega arith)
