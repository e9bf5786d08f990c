-- ===== src/Engine/Sample.antt =====
-- A concrete engine for the tests: its state is the script that it runs, any script that is not
-- empty compiles, and every call of a function of a script answers true.
use gengo.Prelude.{ℕ, List, [], ◌∷◌, Option, none, some, ◌≡◌, ◌≢◌, refl}
use gengo.Prelude.Text.{codes}
use gengo.Wire.{Wire, Memory, wire_boolean}
use gengo.Engine.{
  Engine, CallCode, success, runtime_error, other_error, Outcome, RunCode, run_ok, compile_failed,
}

abbrev pub no_memory : Memory
no_memory = record {
  byte = λ p. 0;
  wire = λ p. record { tag = 0; flags = 0; reserved = 0; payload = 0; len = 0; reserved2 = 0 };
}

abbrev pub true_wire : Wire
true_wire = record {
  tag = wire_boolean;
  flags = 0;
  reserved = 0;
  payload = 1;
  len = 0;
  reserved2 = 0;
}

abbrev pub answer : CallCode → Outcome
answer code = record { code = code; out = true_wire; memory = no_memory }

abbrev pub call_state : Option (List ℕ) → Outcome
call_state none = answer other_error
call_state (some script) = answer success

abbrev pub run_script : List ℕ → Option (List ℕ) × RunCode
run_script [] = (none, compile_failed)
run_script (b ∷ script) = (some (b ∷ script), run_ok)

abbrev pub sample : Engine
sample = record {
  State = Option (List ℕ);
  call = λ st fn args. (st, call_state st);
  run = λ st src. run_script src;
  run_path = λ st src path. run_script src;
  reset = λ st. none;
  last_error = λ st. [];
}

-- An engine whose every call ends with an uncaught error.
abbrev pub throwing : Engine
throwing = record {
  State = Option (List ℕ);
  call = λ st fn args. (st, answer runtime_error);
  run = λ st src. run_script src;
  run_path = λ st src path. run_script src;
  reset = λ st. none;
  last_error = λ st. codes "panic: TypeError: not a number: qty";
}

pub run_script-uncompiled :
    (src : List ℕ) → (run_script src).1 ≡ compile_failed → (run_script src).0 ≡ none
run_script-uncompiled [] e = refl
run_script-uncompiled (b ∷ src) e = absurd (cc)

-- Without a script, nothing can be called.
pub not_callable_none : (st : Option (List ℕ)) → st ≡ none → (call_state st).code ≢ success
not_callable_none none e k = absurd (cc)
not_callable_none (some script) e k = absurd (cc)
