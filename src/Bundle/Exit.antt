-- ===== src/Bundle/Exit.antt =====
-- When the bundle host exits with 0.
use gengo.Prelude.{ℕ, ◌≡◌, ◌↔◌, refl, List, Bool, true, false, Option, none, some, arith}
use gengo.Prelude.Text.{codes}
use gengo.Stdio.{ScriptFile, read_file}
use gengo.Engine.{Engine, Config, RunCode, run_ok, compile_failed, run_failed}
use gengo.Bundle.{
  Student, Loader, bundle_config, run_script, read_script, after_bundle, load_scoring, zip_content,
  start_bundle, bundle_main,
}

module _ (g : Engine) where
  -- The load of the package, where there is something to load: the zip if one is named, and the
  -- directory if none is.
  abbrev pub loading : Loader g → g.State → Option (Option (List ℕ)) → Option (g.State × Bool)
  loading loader st none = some (loader.load_bundle_dir st)
  loading loader st (some none) = none
  loading loader st (some (some zip)) = some (loader.load_bundle st zip)

  -- The script can be read and runs without an error on this engine.
  abbrev pub RunsOn : ScriptFile → g.State → Type 0
  RunsOn file st =
      (script : List ℕ) × (read_file file ≡ some script)
      × ((g.run_path st script (codes "quiz.gengo")).1 ≡ run_ok)

  run_script-exit :
      (buf : List ℕ) (students : List Student) (r : g.State × RunCode)
      → ((run_script g buf students r).exit_code ≡ 0) ↔ (r.1 ≡ run_ok)
  unfolding run_script
  run_script-exit buf students (st, run_ok) = (λ e. refl, λ e. refl)
  run_script-exit buf students (st, compile_failed) = (λ e. ground arith, λ e. ground arith)
  run_script-exit buf students (st, run_failed) = (λ e. ground arith, λ e. ground arith)

  read_script-exit :
      (buf : List ℕ) (students : List Student) (st : g.State) (content : Option (List ℕ))
      → ((read_script g buf students st content).exit_code ≡ 0) ↔ (
          (script : List ℕ) × (content ≡ some script)
          × ((g.run_path st script (codes "quiz.gengo")).1 ≡ run_ok))
  unfolding read_script
  read_script-exit buf students st none =
      (λ e. absurd (ground arith), λ (script, e, ok). ground arith)
  read_script-exit buf students st (some script) =
      let run = run_script-exit buf students (g.run_path st script (codes "quiz.gengo")) in
      (
        λ e. (script, refl, run.0 e),
        λ (script', e, ok). run.1 (let same : script ≡ script' = ground arith in rw same ok),
      )

  after_bundle-exit :
      (buf : List ℕ) (students : List Student) (file : ScriptFile) (r : g.State × Bool)
      → ((after_bundle g buf students file r).exit_code ≡ 0) ↔ ((r.1 ≡ true) × RunsOn file r.0)
  unfolding after_bundle
  after_bundle-exit buf students file (st, false) =
      (λ e. absurd (ground arith), λ p. absurd (ground (arith, p.0)))
  after_bundle-exit buf students file (st, true) =
      let read = read_script-exit buf students st (read_file file) in
      (λ e. (refl, read.0 e), λ p. read.1 p.1)

  load_scoring-exit :
      (loader : Loader g) (buf : List ℕ) (students : List Student) (file : ScriptFile)
      (st : g.State) (zip : Option (Option (List ℕ)))
      → ((load_scoring g loader buf students file st zip).exit_code ≡ 0)
        ↔ ((r : g.State × Bool) × (loading loader st zip ≡ some r) × (r.1 ≡ true) × RunsOn file r.0)
  unfolding load_scoring
  load_scoring-exit loader buf students file st none =
      let after = after_bundle-exit buf students file (loader.load_bundle_dir st) in
      (
        λ e. let (good, runs) = after.0 e in (loader.load_bundle_dir st, refl, good, runs),
        λ (r, e, good, runs).
            after.1
              (let same : loader.load_bundle_dir st ≡ r = ground arith in rw same (good, runs)),
      )
  load_scoring-exit loader buf students file st (some none) =
      (λ e. absurd (ground arith), λ (r, e, good, runs). ground arith)
  load_scoring-exit loader buf students file st (some (some zip)) =
      let after = after_bundle-exit buf students file (loader.load_bundle st zip) in
      (
        λ e. let (good, runs) = after.0 e in (loader.load_bundle st zip, refl, good, runs),
        λ (r, e, good, runs).
            after.1
              (let same : loader.load_bundle st zip ≡ r = ground arith in rw same (good, runs)),
      )

  start_bundle-exit :
      (loader : Loader g) (zip : Option ScriptFile) (file : ScriptFile) (buf : List ℕ)
      (students : List Student) (started : Option g.State)
      → ((start_bundle g loader zip file buf students started).exit_code ≡ 0) ↔ (
          (st : g.State) × (r : g.State × Bool) × (started ≡ some st)
          × (loading loader st (zip_content g zip) ≡ some r)
          × (r.1 ≡ true)
          × RunsOn file r.0)
  unfolding start_bundle
  start_bundle-exit loader zip file buf students none =
      (λ e. absurd (ground arith), λ (st, r, e, found, good, runs). ground arith)
  start_bundle-exit loader zip file buf students (some st) =
      let load = load_scoring-exit loader buf students file st (zip_content g zip) in
      (
        λ e. let (r, found, good, runs) = load.0 e in (st, r, refl, found, good, runs),
        λ (st', r, e, found, good, runs).
            load.1 (r, (let same : st ≡ st' = ground arith in rw same found), good, runs),
      )

  -- The host exits with 0 exactly when the engine starts, the package loads (from the zip, where
  -- one is named and can be read, and else from the directory), and the script can be read and
  -- runs without an error on the engine that holds the package.
  pub bundle_main-exit :
      (start : Config → Option g.State) (loader : Loader g) (zip : Option ScriptFile)
      (file : ScriptFile) (buf : List ℕ) (students : List Student)
      → ((bundle_main g start loader zip file buf students).exit_code ≡ 0) ↔ (
          (st : g.State) × (r : g.State × Bool) × (start bundle_config ≡ some st)
          × (loading loader st (zip_content g zip) ≡ some r)
          × (r.1 ≡ true)
          × RunsOn file r.0)
  unfolding bundle_main
  bundle_main-exit start loader zip file buf students =
      start_bundle-exit loader zip file buf students (start bundle_config)
