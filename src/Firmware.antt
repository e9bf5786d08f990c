-- ===== src/Firmware.antt =====
-- examples/firmware-gate-c/main.c: a host that asks a script whether a device may be updated. What
-- the script prints and the heading of the output are left out, and of a logged error the line and
-- the column.
mod Tests
pub mod Decisions
use gengo.Prelude.{
  ℕ, zero, suc, ◌+◌, ◌*◌, List, [], ◌∷◌, ◌++◌, Bool, true, false, ◌||◌, Option, none, some, ◌==◌,
  if◌then◌else◌, length, take,
}
use gengo.Prelude.Text.{codes, bytes_eq, c_str}
use gengo.Stdio.{ScriptFile, read_file}
use gengo.Wire.{gengo_wire_as_bool, gengo_wire_read_str}
use gengo.Engine.{
  Engine, Arg, str, int, bool, CallCode, success, runtime_error, other_error, RunCode, run_ok,
  compile_failed, run_failed, Config,
}

-- device_case_t; an `int` is the 64 bits of its value.
pub record DeviceCase : Type 0 where
  pub model : List ℕ
  pub serial : List ℕ
  pub region : List ℕ
  pub current_build : ℕ
  pub target_build : ℕ
  pub battery_percent : ℕ

abbrev pub enabled_models : List (List ℕ)
enabled_models = codes "meter-v1" ∷ codes "gateway-x" ∷ codes "sensor-pro" ∷ []

abbrev pub blocked_serials : List (List ℕ)
blocked_serials = codes "SN-BLOCK-77" ∷ codes "SN-REVOKED-13" ∷ []

pub str_in_list : List ℕ → List (List ℕ) → Bool
str_in_list s [] = false
str_in_list s (x ∷ list) = bytes_eq s x || str_in_list s list

unfoldable pub model_enabled : List ℕ → Bool
model_enabled model = str_in_list model enabled_models

unfoldable pub serial_blocked : List ℕ → Bool
serial_blocked serial = str_in_list serial blocked_serials

-- The seven arguments of `allow_update`.
unfoldable pub update_args : DeviceCase → List Arg
update_args d =
    str d.model
    ∷ str d.region
    ∷ int d.current_build
    ∷ int d.target_build
    ∷ bool (model_enabled d.model)
    ∷ bool (serial_blocked d.serial)
    ∷ int d.battery_percent
    ∷ []

-- What the host prints: a device, a logged error, and the four verdicts.
pub data Line : Type 0 where
  device : DeviceCase → Line
  logged : List ℕ → List ℕ → Line
  allow fail_closed deny : Line
  deny_reason : List ℕ → Line
  cannot_start : Line
  cannot_read : Line

-- The part of a message that `log_engine_error` prints: `buf` has 512 bytes, and `%.*s` stops at a NUL.
pub log_engine_error : List ℕ → List ℕ → Line
log_engine_error what message = logged what (c_str (take 512 message))

abbrev pub when_success : {A : Type 0} → CallCode → A → Option A
when_success success a = some a
when_success runtime_error a = none
when_success other_error a = none

-- `reason[0] ? reason : "no reason"`
unfoldable pub shown_reason : List ℕ → List ℕ
shown_reason reason =
    let text = c_str reason in if length text == 0 then codes "no reason" else text

unfoldable pub firmware_config : Config
firmware_config = record {
  heap_size_bytes = 512 * 1024;
  max_objects = 2048;
  max_stack = 512;
  max_frames = 64;
  max_defers = 128;
  max_ops = 200000;
  allow_io = 0;
}

module _ (g : Engine) where
  -- `out_value` behind a return code of 0.
  pub call_bool_fn : g.State → List ℕ → List Arg → g.State × Option Bool
  call_bool_fn st fn_name args =
      let (st', o) = g.call st fn_name args in (st', when_success o.code (gengo_wire_as_bool o.out))

  -- The buffer behind a return code of 0.
  unfoldable pub call_string_fn : g.State → List ℕ → List ℕ → g.State × Option (List ℕ)
  call_string_fn st fn_name buf =
      let (st', o) = g.call st fn_name [] in
      (st', when_success o.code (gengo_wire_read_str o.memory o.out buf).1)

  pub deny_lines : g.State × Option (List ℕ) → g.State × List Line
  deny_lines (st, none) =
      (st, log_engine_error (codes "could not fetch reject reason") (g.last_error st) ∷ deny ∷ [])
  deny_lines (st, some reason) = (st, deny_reason (shown_reason reason) ∷ [])

  -- The body of the loop behind the call of `allow_update`; `buf` is `reason`, not initialised.
  pub verdict_lines : List ℕ → g.State × Option Bool → g.State × List Line
  verdict_lines buf (st, none) =
      (st, log_engine_error (codes "policy call failed") (g.last_error st) ∷ fail_closed ∷ [])
  verdict_lines buf (st, some true) = (st, allow ∷ [])
  verdict_lines buf (st, some false) = deny_lines (call_string_fn st (codes "last_reason") buf)

  pub decide : List ℕ → DeviceCase → g.State → g.State × List Line
  decide buf d st =
      let (st', lines) =
        verdict_lines buf (call_bool_fn st (codes "allow_update") (update_args d)) in
      (st', device d ∷ lines)

  -- The loop over the cases.
  pub gate : List ℕ → List DeviceCase → g.State → g.State × List Line
  gate buf [] st = (st, [])
  gate buf (d ∷ cases) st =
      let (st', lines) = decide buf d st in
      let (st'', more) = gate buf cases st' in (st'', lines ++ more)

  -- How `main` ends: its exit code, the engine if it was not given back, and what was printed.
  pub record Ended : Type 0 where
    pub exit_code : ℕ
    pub left : Option g.State
    pub printed : List Line

  -- Behind `engine_run_path`; `engine_destroy` gives the engine back.
  pub run_policy : List ℕ → List DeviceCase → g.State × RunCode → Ended
  run_policy buf cases (st, run_ok) = record {
    exit_code = 0;
    left = none;
    printed = (gate buf cases st).1;
  }
  run_policy buf cases (st, compile_failed) = record {
    exit_code = 1;
    left = none;
    printed = log_engine_error (codes "policy load failed") (g.last_error st) ∷ [];
  }
  run_policy buf cases (st, run_failed) = record {
    exit_code = 1;
    left = none;
    printed = log_engine_error (codes "policy load failed") (g.last_error st) ∷ [];
  }

  pub load_policy : List ℕ → List ℕ → List DeviceCase → g.State → Option (List ℕ) → Ended
  load_policy path buf cases st none = record {
    exit_code = 1;
    left = none;
    printed = cannot_read ∷ [];
  }
  load_policy path buf cases st (some script) = run_policy buf cases (g.run_path st script path)

  pub start_policy : ScriptFile → List ℕ → List ℕ → List DeviceCase → Option g.State → Ended
  start_policy file path buf cases none = record {
    exit_code = 1;
    left = none;
    printed = cannot_start ∷ [];
  }
  start_policy file path buf cases (some st) = load_policy path buf cases st (read_file file)

  -- `main`: `start` is `engine_init_with_config`, and none an answer that is not positive.
  pub firmware_main :
      (Config → Option g.State) → ScriptFile → List ℕ → List ℕ → List DeviceCase → Ended
  firmware_main start file path buf cases = start_policy file path buf cases (start firmware_config)
