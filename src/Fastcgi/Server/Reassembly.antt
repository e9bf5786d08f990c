-- ===== src/Fastcgi/Server/Reassembly.antt =====
-- A request that arrives in order, cut into records in any way.
use gengo.Prelude.{
  ℕ, ◌+◌, ◌≤◌, ◌<◌, ◌≡◌, refl, ap, ◌∙◌, List, [], ◌∷◌, ◌++◌, append_assoc, append-nil, true, false,
  All, arith, length, length-append,
}
use gengo.Engine.{Engine}
use gengo.Fastcgi.{
  IsU16, fcgi_begin_request, fcgi_params, fcgi_stdin, fcgi_responder, max_params, max_body,
  uint16_max,
}
use gengo.Fastcgi.Writer.Bytes.{frame}
use gengo.Fastcgi.RoundTrip.{frame_header, next_record-frame}
use gengo.Fastcgi.Server.{
  Request, no_request, Server, on_record, on_begin, on_params, on_stdin, run_request, retire, serve,
}
use gengo.Fastcgi.Server.Loop.{serve_record}

-- The body of a BEGIN_REQUEST record for a responder.
abbrev pub begin_body : ℕ → List ℕ
begin_body flags = 0 ∷ fcgi_responder ∷ flags ∷ 0 ∷ 0 ∷ 0 ∷ 0 ∷ 0 ∷ []

-- One record for each chunk.
abbrev pub chunk_records : ℕ → ℕ → List (List ℕ) → List ℕ
chunk_records type request_id [] = []
chunk_records type request_id (c ∷ cs) = frame type request_id c ++ chunk_records type request_id cs

abbrev pub joined : List (List ℕ) → List ℕ
joined [] = []
joined (c ∷ cs) = c ++ joined cs

abbrev pub IsChunk : List ℕ → Type 0
IsChunk c = (0 < length c) × (length c ≤ uint16_max)

-- BEGIN, the parameters, their end, the body, its end.
abbrev pub request_stream : ℕ → ℕ → List (List ℕ) → List (List ℕ) → List ℕ → List ℕ
request_stream request_id flags params body rest =
    frame fcgi_begin_request request_id (begin_body flags)
    ++ (chunk_records fcgi_params request_id params
        ++ (frame fcgi_params request_id []
            ++ (chunk_records fcgi_stdin request_id body
                ++ (frame fcgi_stdin request_id [] ++ rest))))

-- The request that a stream describes, ready to be run.
abbrev pub arrived : ℕ → List (List ℕ) → List (List ℕ) → Request
arrived request_id params body = record {
  request_id = request_id;
  active = true;
  params_complete = true;
  params = joined params;
  body = joined body;
}

module _ (g : Engine) where
  -- A record that is framed is handled.
  serve-frame :
      (type request_id : ℕ) (content rest : List ℕ) (sv : Server g)
      → IsU16 request_id
      → length content ≤ uint16_max
      → serve g (frame type request_id content ++ rest) sv
        ≡ serve g rest (on_record g (frame_header type request_id content) content sv)
  serve-frame type request_id content rest sv hi hl =
      serve_record g _ sv (next_record-frame type request_id content rest hi hl)

  abbrev with_params : Server g → List ℕ → Server g
  with_params sv bytes = record sv {
    request = record sv.request { params = sv.request.params ++ bytes };
  }

  abbrev with_body : Server g → List ℕ → Server g
  with_body sv bytes = record sv { request = record sv.request { body = sv.request.body ++ bytes } }

  params_record :
      (request_id : ℕ) (c : List ℕ) (sv : Server g)
      → IsChunk c
      → sv.request.active ≡ true
      → sv.request.request_id ≡ request_id
      → length sv.request.params + length c ≤ max_params
      → on_record g (frame_header fcgi_params request_id c) c sv ≡ with_params sv c
  unfolding on_record on_params
  params_record request_id c sv hc ha he hl = ground arith

  serve-params :
      (request_id : ℕ) (cs : List (List ℕ)) (rest : List ℕ) (sv : Server g)
      → IsU16 request_id
      → All IsChunk cs
      → sv.request.active ≡ true
      → sv.request.request_id ≡ request_id
      → length sv.request.params + length (joined cs) ≤ max_params
      → serve g (chunk_records fcgi_params request_id cs ++ rest) sv
        ≡ serve g rest (with_params sv (joined cs))
  serve-params request_id [] rest sv hi hc ha he hl = rw append-nil
  serve-params request_id (c ∷ cs) rest sv hi hc ha he hl =
      let after = chunk_records fcgi_params request_id cs ++ rest in
      let sum = length-append c (joined cs) in
      let sum' = length-append sv.request.params c in
      ap (λ l. serve g l sv)
        (append_assoc (frame fcgi_params request_id c) (chunk_records fcgi_params request_id cs)
          rest)
      ∙ serve-frame fcgi_params request_id c after sv hi hc.0.1
      ∙ ap (serve g after) (params_record request_id c sv hc.0 ha he (omega arith))
      ∙ serve-params request_id cs rest (with_params sv c) hi hc.1 ha he (omega arith)
      ∙ ap (λ bytes. serve g rest (record sv { request = record sv.request { params = bytes } }))
          (append_assoc sv.request.params c (joined cs))

  stdin_record :
      (request_id : ℕ) (c : List ℕ) (sv : Server g)
      → IsChunk c
      → sv.request.active ≡ true
      → sv.request.request_id ≡ request_id
      → length sv.request.body + length c ≤ max_body
      → on_record g (frame_header fcgi_stdin request_id c) c sv ≡ with_body sv c
  unfolding on_record on_stdin
  stdin_record request_id c sv hc ha he hl = ground arith

  serve-stdin :
      (request_id : ℕ) (cs : List (List ℕ)) (rest : List ℕ) (sv : Server g)
      → IsU16 request_id
      → All IsChunk cs
      → sv.request.active ≡ true
      → sv.request.request_id ≡ request_id
      → length sv.request.body + length (joined cs) ≤ max_body
      → serve g (chunk_records fcgi_stdin request_id cs ++ rest) sv
        ≡ serve g rest (with_body sv (joined cs))
  serve-stdin request_id [] rest sv hi hc ha he hl = rw append-nil
  serve-stdin request_id (c ∷ cs) rest sv hi hc ha he hl =
      let after = chunk_records fcgi_stdin request_id cs ++ rest in
      let sum = length-append c (joined cs) in
      let sum' = length-append sv.request.body c in
      ap (λ l. serve g l sv)
        (append_assoc (frame fcgi_stdin request_id c) (chunk_records fcgi_stdin request_id cs) rest)
      ∙ serve-frame fcgi_stdin request_id c after sv hi hc.0.1
      ∙ ap (serve g after) (stdin_record request_id c sv hc.0 ha he (omega arith))
      ∙ serve-stdin request_id cs rest (with_body sv c) hi hc.1 ha he (omega arith)
      ∙ ap (λ bytes. serve g rest (record sv { request = record sv.request { body = bytes } }))
          (append_assoc sv.request.body c (joined cs))

  abbrev started : Server g → ℕ → Server g
  started sv request_id = record sv {
    request = record no_request { request_id = request_id; active = true };
  }

  begin_record :
      (request_id flags : ℕ) (sv : Server g)
      → sv.request.active ≡ false
      → on_record g
          (frame_header fcgi_begin_request request_id (begin_body flags))
          (begin_body flags)
          sv
        ≡ started sv request_id
  unfolding on_record on_begin
  begin_record request_id flags sv ha = ground arith

  end_params_record :
      (request_id : ℕ) (sv : Server g)
      → sv.request.active ≡ true
      → sv.request.request_id ≡ request_id
      → on_record g (frame_header fcgi_params request_id []) [] sv
        ≡ record sv { request = record sv.request { params_complete = true } }
  unfolding on_record on_params
  end_params_record request_id sv ha he = ground arith

  end_stdin_record :
      (request_id : ℕ) (sv : Server g)
      → sv.request.active ≡ true
      → sv.request.request_id ≡ request_id
      → sv.request.params_complete ≡ true
      → on_record g (frame_header fcgi_stdin request_id []) [] sv ≡ retire g (run_request g sv)
  unfolding on_record on_stdin
  end_stdin_record request_id sv ha he hp = ground arith

  -- Between requests, a request that arrives in order is run once, on the joined contents of its
  -- PARAMS and STDIN records, however they are cut, and the loop goes on with what follows: for
  -- every responder request whose parameters and body stay within the limits.
  pub serve-request_stream :
      (request_id flags : ℕ) (params body : List (List ℕ)) (rest : List ℕ) (sv : Server g)
      → IsU16 request_id
      → All IsChunk params
      → All IsChunk body
      → length (joined params) ≤ max_params
      → length (joined body) ≤ max_body
      → sv.request.active ≡ false
      → serve g (request_stream request_id flags params body rest) sv
        ≡ serve g rest
            (retire g (run_request g (record sv { request = arrived request_id params body })))
  serve-request_stream request_id flags params body rest sv hi hp hb lp lb ha =
      let last = frame fcgi_stdin request_id [] ++ rest in
      let bodies = chunk_records fcgi_stdin request_id body ++ last in
      let middle = frame fcgi_params request_id [] ++ bodies in
      let s1 = started sv request_id in
      let s2 = with_params s1 (joined params) in
      let s3 = record s2 { request = record s2.request { params_complete = true } } in
      serve-frame fcgi_begin_request request_id (begin_body flags)
        (chunk_records fcgi_params request_id params ++ middle) sv hi (omega arith)
      ∙ ap (serve g (chunk_records fcgi_params request_id params ++ middle))
          (begin_record request_id flags sv ha)
      ∙ serve-params request_id params middle s1 hi hp refl refl (omega arith)
      ∙ serve-frame fcgi_params request_id [] bodies s2 hi (omega arith)
      ∙ ap (serve g bodies) (end_params_record request_id s2 refl refl)
      ∙ serve-stdin request_id body last s3 hi hb refl refl (omega arith)
      ∙ serve-frame fcgi_stdin request_id [] rest (with_body s3 (joined body)) hi (omega arith)
      ∙ ap (serve g rest) (end_stdin_record request_id (with_body s3 (joined body)) refl refl refl)
