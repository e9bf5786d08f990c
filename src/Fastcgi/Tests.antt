-- ===== src/Fastcgi/Tests.antt =====
-- The theorems on the FastCGI host at small inputs.
use gengo.Prelude.{
  ap, ◌∙◌, append-nil, ℕ, ◌≡◌, ◌≢◌, ◌≤◌, inr, refl, List, [], ◌∷◌, ◌++◌, true, false, not, some,
  All, length, arith,
}
use gengo.Prelude.Text.{codes, bytes_eq}
use gengo.Stdio.{Sink}
use gengo.Stdio.Laws.{fwrite_flush_answer}
use gengo.Engine.Sample.{sample}
use gengo.Fastcgi.{
  pad_len, max_params, RecordHeader, fcgi_begin_request, fcgi_params, fcgi_stdin, fcgi_stdout,
}
use gengo.Fastcgi.Reader.{incoming, next_record}
use gengo.Fastcgi.Writer.{write_record, chunk_len, header_bytes}
use gengo.Fastcgi.Writer.Bytes.{frame, frames, record_bytes, write_record_lem}
use gengo.Fastcgi.RoundTrip.{frame_header, next_record-frame}
use gengo.Fastcgi.Stream.{read_all, contents, Carries, write_record-read_all}
use gengo.Fastcgi.Params.{parse_params, is_empty, no_fields, assign, copy_param}
use gengo.Fastcgi.Params.Bounds.{Fits, parse_params-Fits}
use gengo.Fastcgi.Params.RoundTrip.{
  encode_length, encode_params, IsParam, assign_all, parse_params-encode_params,
}
use gengo.Fastcgi.Server.{no_request, Server, on_record, retire, run_request, serve}
use gengo.Fastcgi.Server.Limits.{IsWithin, serve-IsWithin}
use gengo.Fastcgi.Server.Reassembly.{request_stream, arrived, joined, IsChunk, serve-request_stream}
use gengo.Fastcgi.{max_method}
use gengo.Fastcgi.Server.Calls.{on_record_isolated, last_cut, answered, serve_calls_handle}

abbrev sink : Sink
sink = record { written = []; room = 1000; failed = false }

abbrev idle : Server sample
idle = record { request = no_request; engine = some (codes "x"); out = sink }

-- REQUEST_METHOD=GET
abbrev params : List (List ℕ × List ℕ)
params = (codes "REQUEST_METHOD", codes "GET") ∷ []

abbrev hi_chunks : List (List ℕ)
hi_chunks = codes "hi" ∷ []

abbrev params_chunks : List (List ℕ)
params_chunks = encode_params params ∷ []

hi_chunks-All : All IsChunk hi_chunks
hi_chunks-All = ((omega arith, omega arith), tt)

params_chunks-All : All IsChunk params_chunks
unfolding encode_length
params_chunks-All = ((omega arith, omega arith), tt)

params_short : length (joined params_chunks) ≤ max_params
unfolding encode_length
params_short = omega arith

hi_sent : (write_record fcgi_stdout 1 (some (codes "hi")) sink).0 ≡ true
unfolding record_bytes frames chunk_len frame pad_len header_bytes
hi_sent =
    ap (λ w. (w sink).0) (write_record_lem fcgi_stdout 1 (some (codes "hi")))
    ∙ fwrite_flush_answer (record_bytes fcgi_stdout 1 (some (codes "hi"))) sink

names_method : is_empty (assign_all no_fields params).method ≡ false
unfolding assign is_empty copy_param bytes_eq
names_method = refl

names_last : is_empty (last_cut max_method (codes "REQUEST_METHOD") params) ≡ false
unfolding is_empty bytes_eq
names_last = refl

joined_params : joined params_chunks ≡ encode_params params
joined_params = append-nil (encode_params params)

abbrev busy : Server sample
busy = record idle { request = record no_request { request_id = 1; active = true } }

abbrev stray : RecordHeader
stray = record { type = fcgi_params; request_id = 2; content_len = 2; padding_len = 0 }

next_record-frame_example :
    next_record (frame fcgi_stdin 1 (codes "hi") ++ (7 ∷ []))
    ≡ incoming (frame_header fcgi_stdin 1 (codes "hi")) (codes "hi") (7 ∷ [])
next_record-frame_example =
    next_record-frame fcgi_stdin 1 (codes "hi") (7 ∷ []) (omega arith) (omega arith)

write_record-read_all_example :
    (out : List ℕ) × (rs : List (RecordHeader × List ℕ)) × ((write_record fcgi_stdout 1
        (some (codes "hi"))
        sink).1.written
      ≡ [] ++ out)
    × (read_all 3 out ≡ some rs)
    × (contents rs ≡ codes "hi")
    × All (Carries fcgi_stdout 1) rs
write_record-read_all_example =
    write_record-read_all fcgi_stdout 1 (codes "hi") sink (omega arith) hi_sent

parse_params-Fits_example : Fits (parse_params (encode_params params)).1
parse_params-Fits_example = parse_params-Fits (encode_params params)

params_fit : All IsParam params
params_fit = ((omega arith, omega arith), tt)

parse_params-encode_params_example :
    parse_params (encode_params params)
    ≡ (not (is_empty (assign_all no_fields params).method), assign_all no_fields params)
parse_params-encode_params_example = parse_params-encode_params params params_fit

idle-IsWithin : IsWithin no_request
idle-IsWithin = record { params = omega arith; body = omega arith }

serve-IsWithin_example : IsWithin (serve sample (1 ∷ 1 ∷ 0 ∷ []) idle).request
serve-IsWithin_example = serve-IsWithin sample (1 ∷ 1 ∷ 0 ∷ []) idle idle-IsWithin

serve-request_stream_example :
    serve sample (request_stream 1 0 params_chunks hi_chunks []) idle
    ≡ serve sample [] (
        retire sample
          (run_request sample (record idle { request = arrived 1 params_chunks hi_chunks })))
serve-request_stream_example =
    serve-request_stream sample 1 0 params_chunks hi_chunks [] idle (omega arith) params_chunks-All
      hi_chunks-All params_short (omega arith) refl

on_record_isolated_example :
    ((on_record sample stray [] busy).request ≡ busy.request)
    × ((on_record sample stray [] busy).engine ≡ busy.engine)
    × (stray.type ≢ fcgi_begin_request → on_record sample stray [] busy ≡ busy)
on_record_isolated_example = on_record_isolated sample stray [] busy refl (inr λ e. ground arith)

serve_calls_handle_example :
    serve sample (request_stream 1 0 params_chunks hi_chunks []) idle
    ≡ serve sample [] (retire sample (answered sample 1 params params_chunks hi_chunks idle))
serve_calls_handle_example =
    serve_calls_handle sample 1 0 params params_chunks hi_chunks [] idle (omega arith) params_fit
      joined_params names_last params_chunks-All hi_chunks-All params_short (omega arith) refl
