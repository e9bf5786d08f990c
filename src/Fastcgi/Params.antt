-- ===== src/Fastcgi/Params.antt =====
-- `decode_length`, `copy_param` and `parse_params` of examples/fastcgi-host/main.c. The cursor
-- `data + *offset` is the list of bytes from there to `params_len`, so `params_len - *offset` is
-- its length.
pub mod Bounds
pub mod Fuel
pub mod RoundTrip
use gengo.Prelude.{
  ℕ, ◌+◌, ◌-◌, ◌*◌, ◌^◌, zero, suc, List, [], ◌∷◌, Bool, true, false, not, ◌&&◌, ◌||◌, Option, none,
  some, bit_and, bit_or, ◌==◌, ltb, if◌then◌else◌, length, take, drop,
}
use gengo.Prelude.Text.{codes, bytes_eq}
use gengo.Fastcgi.{max_method, max_path, max_query}

-- What `parse_params` writes of a request: the bytes before the NUL that `copy_param` puts.
pub record Fields : Type 0 where
  pub method : List ℕ
  pub path : List ℕ
  pub query : List ℕ

-- The four-byte form of a length behind its first byte.
pub decode_long : ℕ → List ℕ → Option (ℕ × List ℕ)
decode_long first (b1 ∷ b2 ∷ b3 ∷ rest) =
    some
      (bit_or (bit_or (bit_or (bit_and first 0x7f * 2 ^ 24) (b1 * 2 ^ 16)) (b2 * 2 ^ 8)) b3, rest)
decode_long first _ = none

-- The length read, and the cursor behind it; `none` is the answer 0.
pub decode_length : List ℕ → Option (ℕ × List ℕ)
unfolding decode_long
decode_length [] = none
decode_length (first ∷ rest) =
    if bit_and first 0x80 == 0 then some (first, rest) else decode_long first rest

-- dest[0] == '\0'
unfoldable pub is_empty : List ℕ → Bool
is_empty [] = true
is_empty (b ∷ bytes) = b == 0

-- The first `dest_len - 1` bytes of the value, if it has more.
unfoldable pub copy_param : ℕ → List ℕ → List ℕ
copy_param dest_len value =
    let n = if ltb (length value) (dest_len - 1) then length value else dest_len - 1 in take n value

-- The `if` chain on the name of a parameter.
unfoldable pub assign : Fields → List ℕ → List ℕ → Fields
unfolding copy_param is_empty
assign f name value =
    if length name == 14 && bytes_eq name (codes "REQUEST_METHOD")
    then record f { method = copy_param max_method value }
    else if length name == 11 && bytes_eq name (codes "SCRIPT_NAME")
    then record f { path = copy_param max_path value }
    else if length name == 9 && bytes_eq name (codes "PATH_INFO") && is_empty f.path
    then record f { path = copy_param max_path value }
    else if length name == 12 && bytes_eq name (codes "QUERY_STRING")
    then record f { query = copy_param max_query value }
    else f

infixl 5 ◌>>=◌
abbrev pub ◌>>=◌ : {A B : Type 0} → Option A → (A → Option B) → Option B
none >>= f = none
some a >>= f = f a

-- A parameter: its name, its value, and the cursor behind it.
abbrev pub Param : Type 0
Param = List ℕ × List ℕ × List ℕ

-- The two length checks of `parse_params`, and the name and value behind them.
pub cut_param : ℕ → ℕ → List ℕ → Option Param
cut_param name_len value_len at_name =
    let at_value = drop name_len at_name in
    if ltb (length at_name) name_len || ltb (length at_name - name_len) value_len
    then none
    else some (take name_len at_name, take value_len at_value, drop value_len at_value)

pub next_param : List ℕ → Option Param
unfolding cut_param
next_param cursor = do
  (name_len, at_value_len) ← decode_length cursor
  (value_len, at_name) ← decode_length at_value_len
  cut_param name_len value_len at_name

-- The body of the `while` behind the checks.
abbrev pub with_param : (List ℕ → Fields → Bool × Fields) → Fields → Option Param → Bool × Fields
with_param next f none = (false, f)
with_param next f (some (name, value, rest)) = next rest (assign f name value)

-- The `while` of `parse_params`, and its answer: false is `return 0` on a malformed parameter, with
-- what was written before it. The first argument is fuel.
pub params_loop : ℕ → List ℕ → Fields → Bool × Fields
params_loop zero cursor f = (true, f)
params_loop (suc fuel) [] f = (true, f)
params_loop (suc fuel) (b ∷ cursor) f = with_param (params_loop fuel) f (next_param (b ∷ cursor))

abbrev pub no_fields : Fields
no_fields = record { method = []; path = []; query = [] }

-- Every parameter takes two bytes at least.
pub parse_params : List ℕ → Bool × Fields
unfolding params_loop is_empty
parse_params params =
    let (well_formed, f) = params_loop (length params) params no_fields in
    (well_formed && not (is_empty f.method), f)
