-- ===== src/Fastcgi/Params/RoundTrip.antt =====
-- `parse_params` on parameters in the FastCGI name-value format.
use gengo.Prelude.{
  ◌∙◌, ap, ℕ, ◌+◌, ◌*◌, ◌/◌, ◌%◌, ◌^◌, ◌≤◌, ◌<◌, zero, suc, ◌≡◌, refl, List, [], ◌∷◌, ◌++◌,
  append_assoc, true, not, some, arith, bit_or, ltb, if◌then◌else◌, length, length-append,
  take-append, drop-append, All,
}
use gengo.Prelude.Bits.{bit_and_top, bit_and_low, bit_or_low}
use gengo.Fastcgi.Params.{
  Fields, no_fields, assign, is_empty, decode_length, next_param, cut_param, params_loop,
  parse_params,
}

-- The length of a name or a value: one byte below 128, and four bytes with the top bit set.
unfoldable pub encode_length : ℕ → List ℕ
encode_length n =
    if ltb n 128
    then n ∷ []
    else (n / 2 ^ 24 + 128) ∷ n / 2 ^ 16 % 2 ^ 8 ∷ n / 2 ^ 8 % 2 ^ 8 ∷ n % 2 ^ 8 ∷ []

abbrev pub encode_param : List ℕ × List ℕ → List ℕ
encode_param (name, value) =
    encode_length (length name) ++ (encode_length (length value) ++ (name ++ value))

abbrev pub encode_params : List (List ℕ × List ℕ) → List ℕ
encode_params [] = []
encode_params (p ∷ ps) = encode_param p ++ encode_params ps

-- The lengths that the format can carry.
abbrev pub IsParam : List ℕ × List ℕ → Type 0
IsParam (name, value) = (length name < 2 ^ 31) × (length value < 2 ^ 31)

-- The four bytes joined by `|`.
joined :
    (a b c d : ℕ)
    → b < 2 ^ 8
    → c < 2 ^ 8
    → d < 2 ^ 8
    → bit_or (bit_or (bit_or (a * 2 ^ 24) (b * 2 ^ 16)) (c * 2 ^ 8)) d
      ≡ a * 2 ^ 24 + b * 2 ^ 16 + c * 2 ^ 8 + d
joined a b c d hb hc hd =
    let e1 : bit_or (a * 2 ^ 24) (b * 2 ^ 16) ≡ (a * 2 ^ 8 + b) * 2 ^ 16 =
      bit_or_low 24 a (b * 2 ^ 16) (omega arith) ∙ omega arith in
    let e2 : bit_or ((a * 2 ^ 8 + b) * 2 ^ 16) (c * 2 ^ 8) ≡ (a * 2 ^ 16 + b * 2 ^ 8 + c) * 2 ^ 8 =
      bit_or_low 16 (a * 2 ^ 8 + b) (c * 2 ^ 8) (omega arith) ∙ omega arith in
    rw (e1, e2, bit_or_low 8 (a * 2 ^ 16 + b * 2 ^ 8 + c) d hd) (omega arith)

decode_length-encode_length :
    (n : ℕ) (rest : List ℕ) → n < 2 ^ 31 → decode_length (encode_length n ++ rest) ≡ some (n, rest)
unfolding decode_length encode_length
decode_length-encode_length n rest h = ground (
  arith,
  bit_and_top n,
  bit_and_top (n / 2 ^ 24 + 128),
  bit_and_low (n / 2 ^ 24 + 128),
  joined (n / 2 ^ 24) (n / 2 ^ 16 % 2 ^ 8) (n / 2 ^ 8 % 2 ^ 8) (n % 2 ^ 8),
)

cut_param-append :
    (name value rest : List ℕ)
    → cut_param (length name) (length value) (name ++ (value ++ rest)) ≡ some (name, value, rest)
unfolding cut_param
cut_param-append name value rest = ground (
  arith,
  length-append name (value ++ rest),
  length-append value rest,
  take-append (length name) name (value ++ rest),
  drop-append (length name) name (value ++ rest),
  take-append (length value) value rest,
  drop-append (length value) value rest,
)

next_param-encode_param :
    (name value rest : List ℕ)
    → IsParam (name, value)
    → next_param (encode_param (name, value) ++ rest) ≡ some (name, value, rest)
unfolding next_param
next_param-encode_param name value rest h =
    let n = encode_length (length name) in
    let v = encode_length (length value) in
    let parts : encode_param (name, value) ++ rest ≡ n ++ (v ++ (name ++ (value ++ rest))) =
      append_assoc n (v ++ (name ++ value)) rest
      ∙ ap (λ l. n ++ l) (append_assoc v (name ++ value) rest)
      ∙ ap (λ l. n ++ (v ++ l)) (append_assoc name value rest) in
    rw
      (
        parts,
        decode_length-encode_length (length name) (v ++ (name ++ (value ++ rest))) h.0,
        decode_length-encode_length (length value) (name ++ (value ++ rest)) h.1,
      )
      (cut_param-append name value rest)

-- A round of the loop where there is a parameter.
params_loop_round :
    (fuel : ℕ) (cursor : List ℕ) (f : Fields) {name value rest : List ℕ}
    → next_param cursor ≡ some (name, value, rest)
    → params_loop (suc fuel) cursor f ≡ params_loop fuel rest (assign f name value)
unfolding params_loop
params_loop_round fuel [] f e = unfold next_param decode_length in cc
params_loop_round fuel (b ∷ cursor) f e = rw e

-- Parameter by parameter, in order.
abbrev pub assign_all : Fields → List (List ℕ × List ℕ) → Fields
assign_all f [] = f
assign_all f ((name, value) ∷ ps) = assign_all (assign f name value) ps

encode_params_shorter :
    (p : List ℕ × List ℕ) (ps : List (List ℕ × List ℕ))
    → length (encode_params ps) < length (encode_params (p ∷ ps))
unfolding encode_length
encode_params_shorter (name, value) ps = ground (
  arith,
  length-append (encode_length (length name)) (encode_length (length value) ++ (name ++ value)),
  length-append (encode_param (name, value)) (encode_params ps),
)

params_loop-encode_params :
    (fuel : ℕ) (ps : List (List ℕ × List ℕ)) (f : Fields)
    → All IsParam ps
    → length (encode_params ps) ≤ fuel
    → params_loop fuel (encode_params ps) f ≡ (true, assign_all f ps)
params_loop-encode_params zero [] f h k = unfold params_loop in refl
params_loop-encode_params (suc fuel) [] f h k = unfold params_loop in refl
params_loop-encode_params zero (p ∷ ps) f h k = absurd (omega (arith, encode_params_shorter p ps))
params_loop-encode_params (suc fuel) ((name, value) ∷ ps) f h k =
    params_loop_round fuel _ f (next_param-encode_param name value (encode_params ps) h.0)
    ∙ params_loop-encode_params fuel ps (assign f name value) h.1
        (omega (arith, encode_params_shorter (name, value) ps))

-- On parameters in the FastCGI format, of any names and values below 2 ^ 31 bytes, `parse_params`
-- assigns each of them in order, and accepts them exactly when a request method came of it.
pub parse_params-encode_params :
    (ps : List (List ℕ × List ℕ))
    → All IsParam ps
    → parse_params (encode_params ps)
      ≡ (not (is_empty (assign_all no_fields ps).method), assign_all no_fields ps)
unfolding parse_params
parse_params-encode_params ps h =
    rw (params_loop-encode_params (length (encode_params ps)) ps no_fields h (omega arith))
