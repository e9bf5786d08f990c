-- ===== src/Engine.antt =====
-- What the C hosts see of the engine: the calls of gengo-engine.h that they make. The hosts link
-- the engine as a library, so it is a parameter of their models.
pub mod Sample
use gengo.Prelude.{ℕ, List, Bool, ◌≡◌}
use gengo.Wire.{Wire, Memory, wire_boolean}

-- The value that an argument wire stands for. `gengo_wire_str`, `gengo_wire_int` and
-- `gengo_wire_bool` build the wires, and `gengo_wire_array` that of an array of integers. An
-- integer is its 64 bits.
pub data Arg : Type 0 where
  str : List ℕ → Arg
  int : ℕ → Arg
  bool : Bool → Arg
  ints : List ℕ → Arg

-- The return codes of `engine_call`: 0, -2 and any other.
pub data CallCode : Type 0 where
  success runtime_error other_error : CallCode

-- The return code, the wire in `*out`, and the memory that it points into.
pub record Outcome : Type 0 where
  pub code : CallCode
  pub out : Wire
  pub memory : Memory

-- The call answered code 0 and the Boolean true.
abbrev pub SaysTrue : Outcome → Type 0
SaysTrue o = (o.code ≡ success) × (o.out.tag ≡ wire_boolean) × (o.out.payload ≡ 1)

-- The return codes of `engine_run` and `engine_run_path`: 0, -1 and -2.
pub data RunCode : Type 0 where
  run_ok compile_failed run_failed : RunCode

-- gengo_instance_config_t
pub record Config : Type 0 where
  pub heap_size_bytes : ℕ
  pub max_objects : ℕ
  pub max_stack : ℕ
  pub max_frames : ℕ
  pub max_defers : ℕ
  pub max_ops : ℕ
  pub allow_io : ℕ

-- One engine behind its handle. `last_error` is the whole message of the last error.
pub record Engine : Type 1 where
  pub State : Type 0
  pub call : State → List ℕ → List Arg → State × Outcome
  pub run : State → List ℕ → State × RunCode
  pub run_path : State → List ℕ → List ℕ → State × RunCode
  pub reset : State → State
  pub last_error : State → List ℕ
