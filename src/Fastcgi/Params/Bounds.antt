-- ===== src/Fastcgi/Params/Bounds.antt =====
-- What `parse_params` copies fits the buffers of a request, whatever the input holds.
use gengo.Prelude.{
  ℕ, ◌-◌, ◌<◌, zero, suc, List, [], ◌∷◌, arith, length, length-take, Option-cases, inl, inr,
}
use gengo.Fastcgi.{max_method, max_path, max_query}
use gengo.Fastcgi.Params.{
  Fields, no_fields, assign, copy_param, next_param, params_loop, parse_params,
}

-- The bytes that `copy_param` writes, and the NUL behind them, fit each buffer.
pub record Fits (f : Fields) : Type 0 where
  pub method : length f.method < max_method
  pub path : length f.path < max_path
  pub query : length f.query < max_query

copy_param-lt :
    (dest_len : ℕ) (value : List ℕ) → 0 < dest_len → length (copy_param dest_len value) < dest_len
unfolding copy_param
copy_param-lt dest_len value h =
    ground (arith, length-take (length value) value, length-take (dest_len - 1) value)

assign-Fits : (f : Fields) (name value : List ℕ) → Fits f → Fits (assign f name value)
unfolding assign
assign-Fits f name value h = ground (
  arith,
  copy_param-lt max_method value (omega arith),
  copy_param-lt max_path value (omega arith),
  copy_param-lt max_query value (omega arith),
)

params_loop-Fits :
    (fuel : ℕ) (cursor : List ℕ) (f : Fields) → Fits f → Fits (params_loop fuel cursor f).1
unfolding params_loop
params_loop-Fits zero cursor f h = h
params_loop-Fits (suc fuel) [] f h = h
params_loop-Fits (suc fuel) (b ∷ cursor) f h = elim (Option-cases (next_param (b ∷ cursor))) [
  | inl e ↦ rw e h
  | inr ((name, value, rest), e) ↦
      rw e (params_loop-Fits fuel rest (assign f name value) (assign-Fits f name value h))
]

-- Whatever bytes the parameters hold, `parse_params` overruns none of the three buffers.
pub parse_params-Fits : (params : List ℕ) → Fits (parse_params params).1
unfolding parse_params
parse_params-Fits params = params_loop-Fits (length params) params no_fields (omega arith)
