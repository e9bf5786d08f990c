-- ===== src/Fastcgi/Writer.antt =====
-- The writing half of examples/fastcgi-host/main.c: `write_record`, `send_end` and `send_error`.
pub mod Bytes
use gengo.Prelude.{
  ℕ, ◌/◌, ◌%◌, ◌^◌, zero, suc, List, [], ◌∷◌, Bool, true, false, ◌&&◌, ◌||◌, Option, none, some,
  ◌==◌, ltb, if◌then◌else◌, length, take, drop, replicate,
}
use gengo.Stdio.{Sink, Writer, fwrite, fflush, skip, ◌>>◌}
use gengo.Prelude.Text.{codes}
use gengo.Fastcgi.{fcgi_version_1, fcgi_stdout, fcgi_stderr, fcgi_end_request, uint16_max, pad_len}

unfoldable pub header_bytes : ℕ → ℕ → ℕ → ℕ → List ℕ
header_bytes type request_id chunk pad =
    fcgi_version_1
    ∷ type
    ∷ request_id / 2 ^ 8 % 2 ^ 8
    ∷ request_id % 2 ^ 8
    ∷ chunk / 2 ^ 8 % 2 ^ 8
    ∷ chunk % 2 ^ 8
    ∷ pad % 2 ^ 8
    ∷ 0
    ∷ []

-- The three writes of one round: the header, the content and the padding.
pub write_frame : ℕ → ℕ → List ℕ → Writer
unfolding header_bytes
write_frame type request_id content = do
  let chunk = length content
  let pad = pad_len chunk
  fwrite (header_bytes type request_id chunk pad)
  if chunk == 0 then skip else fwrite content
  if pad == 0 then skip else fwrite (replicate pad 0)

-- size_t chunk = len > UINT16_MAX ? UINT16_MAX : len
unfoldable pub chunk_len : ℕ → ℕ
chunk_len len = if ltb uint16_max len then uint16_max else len

-- The `while` of `write_record` on the bytes that are left; `null` says that `data` is NULL.
-- The first argument is fuel.
pub write_loop : ℕ → Bool → ℕ → ℕ → List ℕ → Writer
write_loop zero null type request_id rest = fflush
write_loop (suc fuel) null type request_id rest =
    let len = length rest in
    let chunk = chunk_len len in
    let next = write_loop fuel null type request_id (drop chunk rest) in
    if ltb 0 len || (null && len == 0)
    then write_frame type request_id (take chunk rest) >> (if len == 0 then fflush else next)
    else fflush

-- `none` is the call with NULL and length 0. As many rounds as there are bytes are enough.
pub write_record : ℕ → ℕ → Option (List ℕ) → Writer
write_record type request_id none = write_loop 1 true type request_id []
write_record type request_id (some bytes) = write_loop (length bytes) false type request_id bytes

-- The `(void)` calls drop the answer: what follows is run either way.
pub send_end : ℕ → ℕ → Sink → Sink
send_end request_id app_status s =
    let body =
      app_status / 2 ^ 24 % 2 ^ 8
      ∷ app_status / 2 ^ 16 % 2 ^ 8
      ∷ app_status / 2 ^ 8 % 2 ^ 8
      ∷ app_status % 2 ^ 8
      ∷ 0
      ∷ 0
      ∷ 0
      ∷ 0
      ∷ [] in
    let s' = (write_record fcgi_stdout request_id none s).1 in
    (write_record fcgi_end_request request_id (some body) s').1

abbrev pub error_prefix : List ℕ
error_prefix =
    codes "Status: 500 Internal Server Error\r\nContent-Type: text/plain; charset=utf-8\r\n\r\n"

pub send_error : ℕ → List ℕ → Sink → Sink
send_error request_id message s =
    let s1 = (write_record fcgi_stderr request_id (some message) s).1 in
    let s2 = (write_record fcgi_stdout request_id (some error_prefix) s1).1 in
    let s3 = (write_record fcgi_stdout request_id (some message) s2).1 in
    let s4 = (write_record fcgi_stdout request_id (some (codes "\n")) s3).1 in
    send_end request_id 1 s4
