-- ===== src/Fastcgi/Server/Limits.antt =====
-- The buffers of a request hold what the loop puts into them, and when the script is called.
use gengo.Prelude.{ℕ, ◌≤◌, ◌≡◌, List, length, length-append, arith}
use gengo.Engine.{Engine}
use gengo.Fastcgi.{RecordHeader, max_params, max_body}
use gengo.Fastcgi.Server.Loop.{serve_inv}
use gengo.Fastcgi.Server.{
  Request, Server, on_record, on_begin, on_params, on_stdin, run_request, serve,
}

-- `params` and `body` fit `char params[max_params]` and `char body[max_body + 1]`, the NUL of
-- `run_request` included.
pub record IsWithin (r : Request) : Type 0 where
  pub params : length r.params ≤ max_params
  pub body : length r.body ≤ max_body

module _ (g : Engine) where
  on_begin-IsWithin :
      (h : RecordHeader) (content : List ℕ) (sv : Server g)
      → IsWithin sv.request
      → IsWithin (on_begin g h content sv).request
  unfolding on_begin
  on_begin-IsWithin h content sv w = ground arith

  on_params-IsWithin :
      (h : RecordHeader) (content : List ℕ) (sv : Server g)
      → h.content_len ≡ length content
      → IsWithin sv.request
      → IsWithin (on_params g h content sv).request
  unfolding on_params
  on_params-IsWithin h content sv e w = ground (arith, length-append sv.request.params content)

  on_stdin-IsWithin :
      (h : RecordHeader) (content : List ℕ) (sv : Server g)
      → h.content_len ≡ length content
      → IsWithin sv.request
      → IsWithin (on_stdin g h content sv).request
  unfolding on_stdin run_request
  on_stdin-IsWithin h content sv e w = ground (arith, length-append sv.request.body content)

  -- No record that the loop handles overruns the buffers of the request.
  pub on_record-IsWithin :
      (h : RecordHeader) (content : List ℕ) (sv : Server g)
      → h.content_len ≡ length content
      → IsWithin sv.request
      → IsWithin (on_record g h content sv).request
  unfolding on_record
  on_record-IsWithin h content sv e w = ground (
    arith,
    on_begin-IsWithin h content sv w,
    on_params-IsWithin h content sv e w,
    on_stdin-IsWithin h content sv e w,
  )

  -- From a request within the limits, such as none, the loop never overruns the buffers of
  -- parameters and body, whatever bytes arrive, complete records or not.
  pub serve-IsWithin :
      (input : List ℕ) (sv : Server g) → IsWithin sv.request → IsWithin (serve g input sv).request
  serve-IsWithin input sv w =
      serve_inv g {P = λ sv. IsWithin sv.request} on_record-IsWithin input sv w
