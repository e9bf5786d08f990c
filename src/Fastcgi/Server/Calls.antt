-- ===== src/Fastcgi/Server/Calls.antt =====
-- When the script's `handle` is called, and with what.
use gengo.Prelude.{
  take_all, ◌∷◌, [], take, ltb, ◌-◌, if◌then◌else◌, refl, sym, Bool-cases, ℕ, ◌≤◌, ◌≡◌, ◌≢◌, ◌⊎◌,
  inl, inr, ap, ◌∙◌, List, true, false, ◌==◌, All, arith, length,
}
use gengo.Prelude.Text.{codes, bytes_eq, bytes_eq→eq, c_str}
use gengo.Engine.{Engine, str}
use gengo.Fastcgi.{
  RecordHeader, IsU16, fcgi_begin_request, fcgi_stdin, max_params, max_body, max_method, max_query,
}
use gengo.Fastcgi.Params.{Fields, parse_params, no_fields, is_empty, assign, copy_param}
use gengo.Fastcgi.Params.RoundTrip.{encode_params, assign_all, IsParam, parse_params-encode_params}
use gengo.Fastcgi.Server.{
  Server, on_record, on_begin, on_params, on_stdin, run_request, call_args, send_outcome,
  call_handle, retire, serve,
}
use gengo.Fastcgi.Server.Reassembly.{request_stream, joined, IsChunk, serve-request_stream, arrived}

-- The last value of a name, cut as `copy_param` cuts it to a buffer of `size` bytes, or what was there.
abbrev pub last_or : List ℕ → ℕ → List ℕ → List (List ℕ × List ℕ) → List ℕ
last_or before size name [] = before
last_or before size name ((n, v) ∷ ps) =
    last_or (if bytes_eq n name then take (size - 1) v else before) size name ps

abbrev pub last_cut : ℕ → List ℕ → List (List ℕ × List ℕ) → List ℕ
last_cut size name ps = last_or [] size name ps

copy_param-take : (size : ℕ) (v : List ℕ) → copy_param size v ≡ take (size - 1) v
unfolding copy_param
copy_param-take size v = elim (Bool-cases (ltb (length v) (size - 1))) [
  | inl small ↦
      rw small (take_all (length v) v (omega arith) ∙ sym (take_all (size - 1) v (ground arith)))
  | inr large ↦ rw large refl
]

assign-method :
    (f : Fields) (n v : List ℕ)
    → (assign f n v).method
      ≡ (if bytes_eq n (codes "REQUEST_METHOD") then take (max_method - 1) v else f.method)
unfolding assign bytes_eq
assign-method f n v = elim (Bool-cases (bytes_eq n (codes "REQUEST_METHOD"))) [
  | inl same ↦ rw (bytes_eq→eq n (codes "REQUEST_METHOD") same) (copy_param-take max_method v)
  | inr other ↦ ground arith
]

assign-query :
    (f : Fields) (n v : List ℕ)
    → (assign f n v).query
      ≡ (if bytes_eq n (codes "QUERY_STRING") then take (max_query - 1) v else f.query)
unfolding assign bytes_eq
assign-query f n v = elim (Bool-cases (bytes_eq n (codes "QUERY_STRING"))) [
  | inl same ↦ rw (bytes_eq→eq n (codes "QUERY_STRING") same) (copy_param-take max_query v)
  | inr other ↦ ground arith
]

assign_all-method :
    (f : Fields) (ps : List (List ℕ × List ℕ))
    → (assign_all f ps).method ≡ last_or f.method max_method (codes "REQUEST_METHOD") ps
assign_all-method f [] = refl
assign_all-method f ((n, v) ∷ ps) =
    assign_all-method (assign f n v) ps
    ∙ ap (λ m. last_or m max_method (codes "REQUEST_METHOD") ps) (assign-method f n v)

assign_all-query :
    (f : Fields) (ps : List (List ℕ × List ℕ))
    → (assign_all f ps).query ≡ last_or f.query max_query (codes "QUERY_STRING") ps
assign_all-query f [] = refl
assign_all-query f ((n, v) ∷ ps) =
    assign_all-query (assign f n v) ps
    ∙ ap (λ m. last_or m max_query (codes "QUERY_STRING") ps) (assign-query f n v)

-- The fields of a request, with what the last method and query say.
assigned :
    (ps : List (List ℕ × List ℕ))
    → assign_all no_fields ps ≡ record (assign_all no_fields ps) {
      method = last_cut max_method (codes "REQUEST_METHOD") ps;
      query = last_cut max_query (codes "QUERY_STRING") ps;
    }
assigned ps =
    let f = assign_all no_fields ps in
    ap (λ m. record f { method = m }) (assign_all-method no_fields ps)
    ∙ ap (λ q. record f { method = last_cut max_method (codes "REQUEST_METHOD") ps; query = q })
        (assign_all-query no_fields ps)

module _ (g : Engine) where
  on_begin-engine :
      (h : RecordHeader) (content : List ℕ) (sv : Server g)
      → (on_begin g h content sv).engine ≡ sv.engine
  unfolding on_begin
  on_begin-engine h content sv = ground arith

  on_params-engine :
      (h : RecordHeader) (content : List ℕ) (sv : Server g)
      → (on_params g h content sv).engine ≡ sv.engine
  unfolding on_params
  on_params-engine h content sv = ground arith

  on_stdin-engine :
      (h : RecordHeader) (content : List ℕ) (sv : Server g)
      → ((on_stdin g h content sv).engine ≡ sv.engine)
        ⊎ ((h.content_len ≡ 0)
            × (sv.request.params_complete ≡ true)
            × ((on_stdin g h content sv).request.active ≡ false))
  unfolding on_stdin
  on_stdin-engine h content sv = elim (Bool-cases (h.content_len == 0)) [
    | inl last ↦ elim (Bool-cases sv.request.params_complete) [
      | inl ready ↦ inr (ground arith, ready, ground arith)
      | inr early ↦ inl (ground arith)
    ]
    | inr more ↦ inl (ground arith)
  ]

  -- A record leaves the engine alone, or it is the empty STDIN record of the active request whose
  -- PARAMS are complete, and ends that request.
  pub on_record-engine :
      (h : RecordHeader) (content : List ℕ) (sv : Server g)
      → ((on_record g h content sv).engine ≡ sv.engine)
        ⊎ ((h.type ≡ fcgi_stdin)
            × (h.content_len ≡ 0)
            × (h.request_id ≡ sv.request.request_id)
            × (sv.request.active ≡ true)
            × (sv.request.params_complete ≡ true)
            × ((on_record g h content sv).request.active ≡ false))
  unfolding on_record
  on_record-engine h content sv = ground (
    arith,
    on_begin-engine h content sv,
    on_params-engine h content sv,
    on_stdin-engine h content sv,
  )

  -- While a request is active, a record of another request and a second BEGIN change neither the
  -- request nor the engine; a record that is no BEGIN writes nothing either.
  pub on_record_isolated :
      (h : RecordHeader) (content : List ℕ) (sv : Server g)
      → sv.request.active ≡ true
      → (h.type ≡ fcgi_begin_request) ⊎ (h.request_id ≢ sv.request.request_id)
      → ((on_record g h content sv).request ≡ sv.request)
        × ((on_record g h content sv).engine ≡ sv.engine)
        × (h.type ≢ fcgi_begin_request → on_record g h content sv ≡ sv)
  unfolding on_record on_begin
  on_record_isolated h content sv ha (inl b) = (ground arith, ground arith, λ nb. ground arith)
  on_record_isolated h content sv ha (inr o) = (ground arith, ground arith, λ nb. ground arith)

  run_request-encode_params :
      (ps : List (List ℕ × List ℕ)) (sv : Server g)
      → All IsParam ps
      → sv.request.params ≡ encode_params ps
      → is_empty (assign_all no_fields ps).method ≡ false
      → run_request g sv ≡ call_handle g (assign_all no_fields ps) sv
  unfolding run_request
  run_request-encode_params ps sv h e m =
      ground (arith, ap parse_params e, parse_params-encode_params ps h)

  -- The server after the call of `handle` on the parameters and the body, before the request is given up.
  abbrev pub answered :
      ℕ → List (List ℕ × List ℕ) → List (List ℕ) → List (List ℕ) → Server g → Server g
  answered request_id ps params body sv =
      let (engine, outcome) = g.call sv.engine (codes "handle") (
        str (c_str (last_cut max_method (codes "REQUEST_METHOD") ps))
        ∷ str (c_str (assign_all no_fields ps).path)
        ∷ str (c_str (last_cut max_query (codes "QUERY_STRING") ps))
        ∷ str (joined body)
        ∷ []) in
      record sv {
        request = arrived request_id params body;
        engine = engine;
        out = send_outcome request_id outcome sv.out;
      }

  -- Between requests, a responder request that arrives in order, with parameters in the FastCGI format that name
  -- a method, and with parameters and body within the limits, ends in one call of `handle` of the script, and its
  -- result is sent. The arguments are texts up to a NUL: the last REQUEST_METHOD, cut to 31 bytes, the path that
  -- was assigned, the last QUERY_STRING, cut to 4095 bytes, and the whole body, whatever records they were cut
  -- into.
  pub serve_calls_handle :
      (request_id flags : ℕ) (ps : List (List ℕ × List ℕ)) (params body : List (List ℕ))
      (rest : List ℕ) (sv : Server g)
      → IsU16 request_id
      → All IsParam ps
      → joined params ≡ encode_params ps
      → is_empty (last_cut max_method (codes "REQUEST_METHOD") ps) ≡ false
      → All IsChunk params
      → All IsChunk body
      → length (joined params) ≤ max_params
      → length (joined body) ≤ max_body
      → sv.request.active ≡ false
      → serve g (request_stream request_id flags params body rest) sv
        ≡ serve g rest (retire g (answered request_id ps params body sv))
  unfolding call_handle call_args
  serve_calls_handle request_id flags ps params body rest sv hi hps he hm hp hb lp lb ha =
      let named : is_empty (assign_all no_fields ps).method ≡ false =
        rw (← assign_all-method no_fields ps) at hm in
      serve-request_stream g request_id flags params body rest sv hi hp hb lp lb ha
      ∙ ap (λ s. serve g rest (retire g s)) (run_request-encode_params ps _ hps he named)
      ∙ ap
          (λ f.
            serve g rest
              (retire g (call_handle g f (record sv { request = arrived request_id params body }))))
          (assigned ps)
