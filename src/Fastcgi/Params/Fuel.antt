-- ===== src/Fastcgi/Params/Fuel.antt =====
-- The loop of `parse_params` ends by itself: fuel for the bytes that are left is enough.
use gengo.Prelude.{
  ℕ, zero, suc, ◌≤◌, ◌<◌, ◌≡◌, refl, List, [], ◌∷◌, some, arith, length, drop, length-drop,
  Option-cases, inl, inr,
}
use gengo.Fastcgi.Params.{Fields, assign, decode_length, cut_param, next_param, params_loop}

decode_length_shorter :
    (cursor : List ℕ) (n : ℕ) (rest : List ℕ)
    → decode_length cursor ≡ some (n, rest)
    → length rest < length cursor
unfolding decode_length
decode_length_shorter [] n rest e = ground arith
decode_length_shorter (b ∷ []) n rest e = ground arith
decode_length_shorter (b ∷ b1 ∷ []) n rest e = ground arith
decode_length_shorter (b ∷ b1 ∷ b2 ∷ []) n rest e = ground arith
decode_length_shorter (b ∷ b1 ∷ b2 ∷ b3 ∷ more) n rest e = ground arith

cut_param_shorter :
    (name_len value_len : ℕ) (at_name : List ℕ) {name value rest : List ℕ}
    → cut_param name_len value_len at_name ≡ some (name, value, rest)
    → length rest ≤ length at_name
unfolding cut_param
cut_param_shorter name_len value_len at_name e =
    ground (arith, length-drop name_len at_name, length-drop value_len (drop name_len at_name))

next_param_shorter :
    (cursor : List ℕ) {name value rest : List ℕ}
    → next_param cursor ≡ some (name, value, rest)
    → length rest < length cursor
unfolding next_param
next_param_shorter cursor {name} {value} {rest} e = elim (Option-cases (decode_length cursor)) [
  | inl none_left ↦ ground arith
  | inr ((n, at_value_len), first) ↦
      let shorter = decode_length_shorter cursor n at_value_len first in
      elim (Option-cases (decode_length at_value_len)) [
        | inl none_left ↦ ground arith
        | inr ((v, at_name), second) ↦
            let cut : length rest ≤ length at_name =
              cut_param_shorter n v at_name {name = name} {value = value} {rest = rest}
                (ground arith) in
            omega (arith, decode_length_shorter at_value_len v at_name second)
      ]
]

-- Any two amounts of fuel that are at least the bytes that are left give the same result, so the
-- loop of `parse_params` is never cut short by its fuel.
pub params_loop_fuel :
    (fuel fuel' : ℕ) (cursor : List ℕ) (f : Fields)
    → length cursor ≤ fuel
    → length cursor ≤ fuel'
    → params_loop fuel cursor f ≡ params_loop fuel' cursor f
unfolding params_loop
params_loop_fuel zero zero cursor f h h' = refl
params_loop_fuel zero (suc fuel') [] f h h' = refl
params_loop_fuel zero (suc fuel') (b ∷ cursor) f h h' = absurd (omega arith)
params_loop_fuel (suc fuel) zero [] f h h' = refl
params_loop_fuel (suc fuel) zero (b ∷ cursor) f h h' = absurd (omega arith)
params_loop_fuel (suc fuel) (suc fuel') [] f h h' = refl
params_loop_fuel (suc fuel) (suc fuel') (b ∷ cursor) f h h' =
    elim (Option-cases (next_param (b ∷ cursor))) [
      | inl e ↦ rw e refl
      | inr ((name, value, rest), e) ↦
          let shorter = next_param_shorter (b ∷ cursor) e in
          rw e (params_loop_fuel fuel fuel' rest (assign f name value) (omega arith) (omega arith))
    ]
