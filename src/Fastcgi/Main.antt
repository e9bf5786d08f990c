-- ===== src/Fastcgi/Main.antt =====
-- `main` of examples/fastcgi-host/main.c around its loop: the script, the engine, and the exit code.
mod Tests
pub mod Exit
use gengo.Prelude.{ℕ, ◌*◌, List, [], Bool, true, false, ◌||◌, Option, none, some, if◌then◌else◌}
use gengo.Stdio.{ScriptFile, read_file, Sink}
use gengo.Engine.{Engine, Config, RunCode, run_ok, compile_failed, run_failed}
use gengo.Fastcgi.Server.{Server, no_request, serve}

unfoldable pub host_config : Config
host_config = record {
  heap_size_bytes = 512 * 1024;
  max_objects = 2048;
  max_stack = 512;
  max_frames = 64;
  max_defers = 128;
  max_ops = 200000;
  allow_io = 0;
}

-- Standard input: its bytes, and whether it ends with a read error. Standard output as it starts.
pub record Streams : Type 0 where
  pub input : List ℕ
  pub read_error : Bool
  pub out : Sink

module _ (g : Engine) where
  -- The exit code, and what was written.
  pub record Ended : Type 0 where
    pub exit_code : ℕ
    pub out : Sink

  -- The loop on an engine that runs the script, and the `return` behind it.
  pub run_loop : Streams → g.State → Ended
  run_loop io st =
      let sv = serve g io.input (record { request = no_request; engine = st; out = io.out }) in
      record { exit_code = if io.read_error || sv.out.failed then 1 else 0; out = sv.out }

  pub after_run : Streams → g.State × RunCode → Ended
  after_run io (st, run_ok) = run_loop io st
  after_run io (st, compile_failed) = record { exit_code = 1; out = io.out }
  after_run io (st, run_failed) = record { exit_code = 1; out = io.out }

  pub after_start : Streams → List ℕ → List ℕ → Option g.State → Ended
  after_start io path script none = record { exit_code = 1; out = io.out }
  after_start io path script (some st) = after_run io (g.run_path st script path)

  pub after_read : (Config → Option g.State) → Streams → List ℕ → Option (List ℕ) → Ended
  after_read start io path none = record { exit_code = 1; out = io.out }
  after_read start io path (some script) = after_start io path script (start host_config)

  -- `start` is `engine_init_with_config`, and none an answer that is not positive.
  pub fastcgi_main : (Config → Option g.State) → ScriptFile → List ℕ → Streams → Ended
  fastcgi_main start file path io = after_read start io path (read_file file)
