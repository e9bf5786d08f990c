-- ===== src/Wire/Numbers.antt =====
-- Scalars through the wire.
use gengo.Prelude.{ℕ, ◌≡◌, not, ◌==◌, arith}
use gengo.Wire.{
  Floats, gengo_wire_bool, gengo_wire_int, gengo_wire_float, gengo_wire_as_bool, gengo_wire_as_int,
  gengo_wire_as_float,
}

-- What the readers answer on the scalars that the constructors build: a truth value comes back,
-- an integer and a float come back bit for bit, and each number is converted where the other kind
-- is read.
pub scalar_round_trip :
    (fl : Floats) (n x : ℕ)
    → (gengo_wire_as_bool (gengo_wire_bool n) ≡ not (n == 0))
      × (gengo_wire_as_int fl (gengo_wire_int n) ≡ n)
      × (gengo_wire_as_float fl (gengo_wire_float x) ≡ x)
      × (gengo_wire_as_int fl (gengo_wire_float x) ≡ fl.to_int x)
      × (gengo_wire_as_float fl (gengo_wire_int n) ≡ fl.of_int n)
unfolding gengo_wire_bool gengo_wire_int gengo_wire_float gengo_wire_as_bool gengo_wire_as_int
    gengo_wire_as_float
scalar_round_trip fl n x = ground arith
