-- ===== src/Bundle.antt =====
-- examples/bundle-c/main.c: a host that loads a package of scripts, runs a script that uses it, and
-- asks that script for one line for each student. The headings, and of a logged error the line and
-- the column, are left out.
mod Tests
pub mod Exit
pub mod Lines
use gengo.Prelude.{
  ℕ, zero, suc, ◌*◌, ◌+◌, List, [], ◌∷◌, ◌++◌, Bool, true, false, Option, none, some, ◌==◌, leb,
  if◌then◌else◌, length, replicate,
}
use gengo.Prelude.Text.{codes, c_str}
use gengo.Stdio.{ScriptFile, read_file}
use gengo.Wire.{gengo_wire_read_str}
use gengo.Engine.{
  Engine, Arg, str, int, CallCode, success, runtime_error, other_error, Outcome, RunCode, run_ok,
  compile_failed, run_failed, Config,
}

-- student_t; an `int` is the 64 bits of its value.
pub record Student : Type 0 where
  pub name : List ℕ
  pub correct : ℕ
  pub total : ℕ

-- What the host prints. The message of `log_error` is the whole one of the engine.
pub data Line : Type 0 where
  result : List ℕ → Line
  log_error : List ℕ → List ℕ → Line
  cannot_start cannot_read_bundle load_bundle_failed cannot_read_script : Line

unfoldable pub evaluate_args : Student → List Arg
evaluate_args s = str s.name ∷ int s.correct ∷ int s.total ∷ []

unfoldable pub bundle_config : Config
bundle_config = record {
  heap_size_bytes = 512 * 1024;
  max_objects = 2048;
  max_stack = 512;
  max_frames = 64;
  max_defers = 128;
  max_ops = 200000;
  allow_io = 0;
}

-- The exit code, and what was printed.
pub record Run : Type 0 where
  pub exit_code : ℕ
  pub lines : List Line

module _ (g : Engine) where
  -- `engine_load_bundle` on the bytes of a zip, `engine_load_bundle_dir` on lib/scoring: whether
  -- they answer 0.
  pub record Loader : Type 0 where
    pub load_bundle : g.State → List ℕ → g.State × Bool
    pub load_bundle_dir : g.State → g.State × Bool

  -- Behind the call of `evaluate`; `buf` is `result`, not initialised.
  pub student_line : List ℕ → g.State → CallCode → Outcome → Line
  student_line buf st success o = result (c_str (gengo_wire_read_str o.memory o.out buf).1)
  student_line buf st runtime_error o = log_error (codes "evaluate call failed") (g.last_error st)
  student_line buf st other_error o = log_error (codes "evaluate call failed") (g.last_error st)

  -- The loop over the students.
  pub evaluate_all : List ℕ → List Student → g.State → List Line
  evaluate_all buf [] st = []
  evaluate_all buf (s ∷ students) st =
      let (st', o) = g.call st (codes "evaluate") (evaluate_args s) in
      student_line buf st' o.code o ∷ evaluate_all buf students st'

  pub run_script : List ℕ → List Student → g.State × RunCode → Run
  run_script buf students (st, run_ok) = record {
    exit_code = 0;
    lines = evaluate_all buf students st;
  }
  run_script buf students (st, compile_failed) = record {
    exit_code = 1;
    lines = log_error (codes "script load failed") (g.last_error st) ∷ [];
  }
  run_script buf students (st, run_failed) = record {
    exit_code = 1;
    lines = log_error (codes "script load failed") (g.last_error st) ∷ [];
  }

  pub read_script : List ℕ → List Student → g.State → Option (List ℕ) → Run
  read_script buf students st none = record { exit_code = 1; lines = cannot_read_script ∷ [] }
  read_script buf students st (some script) =
      run_script buf students (g.run_path st script (codes "quiz.gengo"))

  -- Behind the load of the bundle, on its answer.
  pub after_bundle : List ℕ → List Student → ScriptFile → g.State × Bool → Run
  after_bundle buf students script (st, false) = record {
    exit_code = 1;
    lines = load_bundle_failed ∷ [];
  }
  after_bundle buf students script (st, true) = read_script buf students st (read_file script)

  -- The zip of the command line, if there is one, or the directory.
  pub load_scoring :
      Loader → List ℕ → List Student → ScriptFile → g.State → Option (Option (List ℕ)) → Run
  load_scoring loader buf students script st none =
      after_bundle buf students script (loader.load_bundle_dir st)
  load_scoring loader buf students script st (some none) = record {
    exit_code = 1;
    lines = cannot_read_bundle ∷ [];
  }
  load_scoring loader buf students script st (some (some zip)) =
      after_bundle buf students script (loader.load_bundle st zip)

  abbrev pub zip_content : Option ScriptFile → Option (Option (List ℕ))
  zip_content none = none
  zip_content (some file) = some (read_file file)

  -- Behind `engine_init_with_config`.
  pub start_bundle :
      Loader → Option ScriptFile → ScriptFile → List ℕ → List Student → Option g.State → Run
  start_bundle loader zip script buf students none = record {
    exit_code = 1;
    lines = cannot_start ∷ [];
  }
  start_bundle loader zip script buf students (some st) =
      load_scoring loader buf students script st (zip_content zip)

  -- `main`: `start` is `engine_init_with_config`, and none an answer that is not positive.
  pub bundle_main :
      (Config → Option g.State)
      → Loader
      → Option ScriptFile
      → ScriptFile
      → List ℕ
      → List Student
      → Run
  bundle_main start loader zip script buf students =
      start_bundle loader zip script buf students (start bundle_config)
