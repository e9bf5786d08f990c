-- ===== src/Fastcgi/Server.antt =====
-- `request_t`, `run_request` and the loop of `main` of examples/fastcgi-host/main.c. What the host
-- logs to its own standard error is left out.
pub mod Limits
pub mod Calls
pub mod Loop
pub mod Reassembly
use gengo.Prelude.{
  ℕ, zero, suc, ◌+◌, ◌-◌, ◌*◌, ◌^◌, List, [], ◌∷◌, ◌++◌, Bool, true, false, not, ◌||◌, bit_or, ◌==◌,
  ltb, if◌then◌else◌, length,
}
use gengo.Prelude.Text.{codes, c_str}
use gengo.Stdio.{Sink}
use gengo.Wire.{Wire, Memory, wire_string, read_bytes}
use gengo.Engine.{Engine, Arg, str, CallCode, success, runtime_error, other_error, Outcome}
use gengo.Fastcgi.{
  RecordHeader, fcgi_begin_request, fcgi_params, fcgi_stdin, fcgi_stdout, fcgi_responder,
  max_params, max_body,
}
use gengo.Fastcgi.Reader.{Incoming, finished, broken, incoming, next_record}
use gengo.Fastcgi.Writer.{write_record, send_end, send_error}
use gengo.Fastcgi.Params.{Fields, parse_params}
use gengo.Prelude.{Option, some}

-- `request_t` but for the three buffers that `parse_params` fills for the call that follows it.
-- `params` and `body` are the bytes up to `params_len` and `body_len`.
pub record Request : Type 0 where
  pub request_id : ℕ
  pub active : Bool
  pub params_complete : Bool
  pub params : List ℕ
  pub body : List ℕ

abbrev pub no_request : Request
no_request = record {
  request_id = 0;
  active = false;
  params_complete = false;
  params = [];
  body = [];
}

-- ((uint16_t)content[0] << 8 | content[1]) != fcgi_responder, behind content_len < 3
pub bad_begin : List ℕ → Bool
bad_begin (hi ∷ lo ∷ flags ∷ _) = not (bit_or (hi * 2 ^ 8) lo == fcgi_responder)
bad_begin _ = true

-- The four wires of the call of `handle`.
pub call_args : Fields → List ℕ → List Arg
call_args f body = str (c_str f.method) ∷ str (c_str f.path) ∷ str (c_str f.query) ∷ str body ∷ []

-- What `run_request` does with the result of the call.
pub send_outcome : ℕ → Outcome → Sink → Sink
send_outcome request_id o s = elim o.code [
  | success ↦
      if not (o.out.tag == wire_string) || o.out.payload == 0
      then send_error request_id (codes "Gengoscript handle() must return a string") s
      else (let response = read_bytes o.memory o.out.payload o.out.len in
          send_end request_id 0 (write_record fcgi_stdout request_id (some response) s).1)
  | _ ↦ send_error request_id (codes "Gengoscript handler failed") s
]

module _ (g : Engine) where
  -- What the loop of `main` carries: the request being read, the engine and standard output.
  pub record Server : Type 0 where
    pub request : Request
    pub engine : g.State
    pub out : Sink

  -- A message for the request of this id, and nothing else.
  pub complain : ℕ → List ℕ → Server → Server
  complain request_id message sv = record sv { out = send_error request_id message sv.out }

  -- request.active = 0
  pub retire : Server → Server
  retire sv = record sv { request = record sv.request { active = false } }

  -- Behind `parse_params`: the call of the script's `handle`, and its result.
  pub call_handle : Fields → Server → Server
  unfolding send_outcome call_args
  call_handle f sv =
      let (engine, outcome) = g.call sv.engine (codes "handle") (call_args f sv.request.body) in
      record sv { engine = engine; out = send_outcome sv.request.request_id outcome sv.out }

  pub run_request : Server → Server
  unfolding complain call_handle
  run_request sv =
      let (accepted, f) = parse_params sv.request.params in
      if accepted
      then call_handle f sv
      else complain sv.request.request_id (codes "invalid or incomplete FastCGI PARAMS") sv

  pub on_begin : RecordHeader → List ℕ → Server → Server
  unfolding complain bad_begin
  on_begin h content sv =
      if bad_begin content || sv.request.active
      then complain h.request_id
          (codes "only one sequential FastCGI responder request is supported") sv
      else record sv { request = record no_request { request_id = h.request_id; active = true } }

  pub on_params : RecordHeader → List ℕ → Server → Server
  unfolding complain retire
  on_params h content sv =
      let r = sv.request in
      if h.content_len == 0
      then record sv { request = record r { params_complete = true } }
      else if ltb max_params (length r.params + h.content_len)
      then retire (complain r.request_id (codes "FastCGI PARAMS exceed host limit") sv)
      else record sv { request = record r { params = r.params ++ content } }

  pub on_stdin : RecordHeader → List ℕ → Server → Server
  unfolding complain retire
  on_stdin h content sv =
      let r = sv.request in
      if h.content_len == 0
      then retire (
          if not r.params_complete
          then complain r.request_id (codes "FastCGI STDIN arrived before PARAMS completed") sv
          else run_request sv)
      else if ltb max_body (length r.body + h.content_len)
      then retire (complain r.request_id (codes "FastCGI request body exceeds host limit") sv)
      else record sv { request = record r { body = r.body ++ content } }

  -- The body of the loop behind the reading of the record.
  pub on_record : RecordHeader → List ℕ → Server → Server
  on_record h content sv =
      if h.type == fcgi_begin_request
      then on_begin h content sv
      else if not sv.request.active || not (h.request_id == sv.request.request_id)
      then sv
      else if h.type == fcgi_params
      then on_params h content sv
      else if h.type == fcgi_stdin
      then on_stdin h content sv
      else sv

  -- One round of the loop, given what follows it.
  abbrev pub round : (List ℕ → Server → Server) → Incoming → Server → Server
  round next finished sv = sv
  round next broken sv = sv
  round next (incoming h content rest) sv = next rest (on_record h content sv)

  -- `for (;;)`; the first argument is fuel.
  pub serve_loop : ℕ → List ℕ → Server → Server
  serve_loop zero input sv = sv
  serve_loop (suc fuel) input sv = round (serve_loop fuel) (next_record input) sv

  -- Every record takes eight bytes of the input at least.
  pub serve : List ℕ → Server → Server
  unfolding serve_loop
  serve input sv = serve_loop (length input) input sv
