-- ===== src/Fastcgi/Main/Exit.antt =====
-- When the FastCGI host exits with 0.
use gengo.Prelude.{ℕ, ◌≡◌, ◌↔◌, refl, List, false, Option, none, some, arith}
use gengo.Stdio.{ScriptFile, read_file}
use gengo.Engine.{Engine, Config, RunCode, run_ok, compile_failed, run_failed}
use gengo.Fastcgi.Server.{no_request, serve}
use gengo.Fastcgi.Main.{
  host_config, Streams, run_loop, after_run, after_start, after_read, fastcgi_main,
}

module _ (g : Engine) where
  -- The loop saw no error of either stream.
  abbrev pub IsClean : Streams → g.State → Type 0
  IsClean io st =
      (io.read_error ≡ false)
      × ((serve g io.input (record { request = no_request; engine = st; out = io.out })).out.failed
          ≡ false)

  run_loop-exit : (io : Streams) (st : g.State) → ((run_loop g io st).exit_code ≡ 0) ↔ IsClean io st
  unfolding run_loop
  run_loop-exit io st = (λ e. ground arith, λ e. ground arith)

  after_run-exit :
      (io : Streams) (r : g.State × RunCode)
      → ((after_run g io r).exit_code ≡ 0) ↔ ((r.1 ≡ run_ok) × IsClean io r.0)
  unfolding after_run
  after_run-exit io (st, run_ok) =
      let loop = run_loop-exit io st in (λ e. (refl, loop.0 e), λ p. loop.1 p.1)
  after_run-exit io (st, compile_failed) =
      (λ e. absurd (ground arith), λ p. absurd (ground (arith, p.0)))
  after_run-exit io (st, run_failed) =
      (λ e. absurd (ground arith), λ p. absurd (ground (arith, p.0)))

  after_start-exit :
      (io : Streams) (path script : List ℕ) (started : Option g.State)
      → ((after_start g io path script started).exit_code ≡ 0) ↔ (
          (st : g.State) × (started ≡ some st)
          × ((g.run_path st script path).1 ≡ run_ok)
          × IsClean io (g.run_path st script path).0)
  unfolding after_start
  after_start-exit io path script none =
      (λ e. absurd (ground arith), λ (st, e, ok, clean). ground arith)
  after_start-exit io path script (some st) =
      let run = after_run-exit io (g.run_path st script path) in
      (
        λ e. let (ok, clean) = run.0 e in (st, refl, ok, clean),
        λ (st', e, ok, clean). run.1 (let same : st ≡ st' = ground arith in rw same (ok, clean)),
      )

  after_read-exit :
      (start : Config → Option g.State) (io : Streams) (path : List ℕ) (content : Option (List ℕ))
      → ((after_read g start io path content).exit_code ≡ 0) ↔ (
          (script : List ℕ) × (st : g.State) × (content ≡ some script)
          × (start host_config ≡ some st)
          × ((g.run_path st script path).1 ≡ run_ok)
          × IsClean io (g.run_path st script path).0)
  unfolding after_read
  after_read-exit start io path none =
      (λ e. absurd (ground arith), λ (script, st, e, begun, ok, clean). ground arith)
  after_read-exit start io path (some script) =
      let run = after_start-exit io path script (start host_config) in
      (
        λ e. let (st, begun, ok, clean) = run.0 e in (script, st, refl, begun, ok, clean),
        λ (script', st, e, begun, ok, clean).
            let same : script ≡ script' = ground arith in run.1 (rw same (st, begun, ok, clean)),
      )

  -- The host exits with 0 exactly when the script can be read, the engine starts and runs it
  -- without an error, and neither stream had an error when the loop ended. The loop ends at the
  -- end of the input and at a record that is malformed.
  pub fastcgi_main-exit :
      (start : Config → Option g.State) (file : ScriptFile) (path : List ℕ) (io : Streams)
      → ((fastcgi_main g start file path io).exit_code ≡ 0) ↔ (
          (script : List ℕ) × (st : g.State) × (read_file file ≡ some script)
          × (start host_config ≡ some st)
          × ((g.run_path st script path).1 ≡ run_ok)
          × IsClean io (g.run_path st script path).0)
  unfolding fastcgi_main
  fastcgi_main-exit start file path io = after_read-exit start io path (read_file file)
