-- ===== src/CEngine/Tests.antt =====
-- The theorems on the programs of the manual at a concrete engine.
use gengo.Prelude.{ℕ, ◌==◌, if◌then◌else◌, []}
use gengo.Prelude.Text.{codes, bytes_eq}
use gengo.Wire.{Wire, Memory, Floats, gengo_wire_int, gengo_wire_map}
use gengo.Engine.{Engine, success, run_ok}

-- The pairs "a", 1 and "b", 2 at address 1000; the keys are left out.
abbrev wire_at : ℕ → Wire
wire_at p = if p == 1024 then gengo_wire_int 1 else gengo_wire_int 2

abbrev pairs_memory : Memory
pairs_memory = record { byte = λ p. 0; wire = wire_at }

abbrev floats : Floats
floats = record { to_int = λ x. x; of_int = λ n. n }

-- It answers 10, and a map where `make_map` is called.
abbrev summing : Engine
summing = record {
  State = ℕ;
  call = λ st fn args. (
    st,
    record {
      code = success;
      out = if bytes_eq fn (codes "sum") then gengo_wire_int 10 else gengo_wire_map 1000 2;
      memory = pairs_memory;
    },
  );
  run = λ st src. (st, run_ok);
  run_path = λ st src path. (st, run_ok);
  reset = λ st. st;
  last_error = λ st. [];
}
