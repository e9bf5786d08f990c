-- ===== src/Wire/Tests.antt =====
-- The theorems on wires at small inputs.
use gengo.Prelude.{ℕ, ◌≡◌, refl, [], ◌∷◌, ◌==◌, arith, if◌then◌else◌}
use gengo.Prelude.Text.{codes}
use gengo.Wire.{Wire, Memory, Floats, wire_string, gengo_wire_str, gengo_wire_read_str}
use gengo.Wire.Strings.{gengo_wire_read_str-gengo_wire_str}

-- "hi" and its NUL at address 100, and NULs elsewhere.
abbrev byte_at : ℕ → ℕ
byte_at p = if p == 100 then 104 else if p == 101 then 105 else 0

abbrev memory : Memory
memory = record {
  byte = byte_at;
  wire = λ p. record { tag = 0; flags = 0; reserved = 0; payload = 0; len = 0; reserved2 = 0 };
}

abbrev hi_wire : Wire
hi_wire = record {
  tag = wire_string;
  flags = 0;
  reserved = 0;
  payload = 100;
  len = 2;
  reserved2 = 0;
}

abbrev floats : Floats
floats = record { to_int = λ x. x; of_int = λ n. n }

gengo_wire_read_str-gengo_wire_str_example :
    gengo_wire_read_str memory (gengo_wire_str memory 100) (9 ∷ 9 ∷ 9 ∷ 9 ∷ [])
    ≡ (2, 104 ∷ 105 ∷ 0 ∷ 9 ∷ [])
gengo_wire_read_str-gengo_wire_str_example =
    gengo_wire_read_str-gengo_wire_str memory 100 (codes "hi") (9 ∷ 9 ∷ 9 ∷ 9 ∷ [])
      (refl, ground arith, (refl, ground arith, refl)) (omega arith) (omega arith) (omega arith)
      (omega arith)
