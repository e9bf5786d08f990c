-- ===== src/Acl/Reload.antt =====
-- `load_script` and `on_reload`: what becomes of the policy that is in force.
use gengo.Prelude.Text.{codes}
use gengo.Prelude.{
  Option-cases, [], ◌∷◌, ◌∙◌, ℕ, ◌≡◌, ◌≢◌, inl, inr, refl, ap, List, true, false, none, some, arith,
}
use gengo.Stdio.{fread}
use gengo.Stdio.{ScriptFile}
use gengo.Engine.{Engine, Arg, success, RunCode, run_ok, compile_failed}
use gengo.Acl.{
  AclCheck, Mosq, with_handle, acl_args, call_bool, access_name, engine, Plugin, err_success,
  err_unknown, err_nomem, err_acl_denied, script_max_bytes, load_script, on_reload, on_acl_check,
}
use gengo.Acl.Decisions.{on_acl_check-allows}

module _ (g : Engine) where
  -- The engine that a load leaves when the script file could be read.
  abbrev pub loaded : g.State → List ℕ → g.State × RunCode
  loaded st bytes = g.run (g.reset st) (fread script_max_bytes bytes)

  -- What `load_script` does to an engine, on every branch: a missing file and a failed `malloc`
  -- leave it as it was; else it is reset and runs the first mebibyte of the file, and the answer
  -- is success exactly when that run succeeds.
  pub load_script_branches :
      (st : g.State) (file : ScriptFile)
      → (file.content ≡ none → load_script g file (engine st) ≡ (err_unknown, engine st))
        × ((bytes : List ℕ)
            → file.content ≡ some bytes
            → (file.memory ≡ false → load_script g file (engine st) ≡ (err_nomem, engine st))
              × (file.memory ≡ true
                  → ((load_script g file (engine st)).1 ≡ engine (loaded st bytes).0)
                    × ((loaded st bytes).1 ≡ run_ok
                        → (load_script g file (engine st)).0 ≡ err_success)
                    × ((loaded st bytes).1 ≢ run_ok
                        → (load_script g file (engine st)).0 ≡ err_unknown)))
  unfolding load_script
  load_script_branches st file = (
    λ missing. ground arith,
    λ bytes found. (
      λ no_memory. ground arith,
      λ memory. (ground arith, λ good. ground arith, λ bad. ground arith),
    ),
  )

  -- The answers to accesses in turn.
  abbrev pub acl_answers : List AclCheck → Plugin g → List Mosq
  acl_answers [] p = []
  acl_answers (ed ∷ eds) p = (on_acl_check g ed p).0 ∷ acl_answers eds (on_acl_check g ed p).1

  abbrev pub all_denied : List AclCheck → List Mosq
  all_denied [] = []
  all_denied (ed ∷ eds) = err_acl_denied ∷ all_denied eds

  -- `engine_reset` clears what was compiled, a source that does not compile compiles nothing, and a function that
  -- was not compiled cannot be called. `has_none` is an engine without compiled functions.
  pub record Clears : Type 1 where
    pub has_none : g.State → Type 0
    pub reset_has_none : (st : g.State) → has_none (g.reset st)
    pub uncompiled :
        (st : g.State) (src : List ℕ)
        → has_none st
        → (g.run st src).1 ≡ compile_failed
        → has_none (g.run st src).0
    pub not_callable :
        (st : g.State) (fn : List ℕ) (args : List Arg)
        → has_none st
        → ((g.call st fn args).1.code ≢ success) × has_none (g.call st fn args).0

  call_bool-engine_after :
      (fn : List ℕ) (args : List Arg) (st : g.State)
      → (call_bool g fn args (engine st)).1 ≡ engine (g.call st fn args).0
  unfolding call_bool
  call_bool-engine_after fn args st = ground arith

  on_acl_check-engine :
      (clears : Clears) (ed : AclCheck) (p : Plugin g) (st : g.State)
      → p.handle ≡ engine st
      → clears.has_none st
      → (st' : g.State) × ((on_acl_check g ed p).1.handle ≡ engine st') × clears.has_none st'
  unfolding on_acl_check with_handle
  on_acl_check-engine clears ed p st h none_there = elim (Option-cases (access_name ed.access)) [
    | inl other ↦ (st, rw (other, on_acl_check) h, none_there)
    | inr (access, known) ↦
        let args = acl_args g ed access in
        (
          (g.call st (codes "acl") args).0,
          rw (known, on_acl_check)
              (ap (λ k. (call_bool g (codes "acl") args k).1) h
                ∙ call_bool-engine_after (codes "acl") args st),
          (clears.not_callable st (codes "acl") args none_there).1,
        )
  ]

  module _ (clears : Clears) where
    -- An engine without functions denies an access and stays so.
    on_acl_check-has_none :
        (ed : AclCheck) (p : Plugin g) (st : g.State)
        → p.handle ≡ engine st
        → clears.has_none st
        → ((on_acl_check g ed p).0 ≡ err_acl_denied)
          × ((st' : g.State) × ((on_acl_check g ed p).1.handle ≡ engine st') × clears.has_none st')
    on_acl_check-has_none ed p st h none_there =
        let (allows, answers) = on_acl_check-allows g ed p st h in
        let denied : (on_acl_check g ed p).0 ≡ err_acl_denied = elim answers [
          | inl e ↦
              let (access, known, says) = allows.0 e in
              absurd ((clears.not_callable st _ _ none_there).0 says.0)
          | inr e ↦ e
        ] in
        (denied, on_acl_check-engine clears ed p st h none_there)

    acl_answers-has_none :
        (eds : List AclCheck) (p : Plugin g) (st : g.State)
        → p.handle ≡ engine st
        → clears.has_none st
        → acl_answers eds p ≡ all_denied eds
    acl_answers-has_none [] p st h none_there = refl
    acl_answers-has_none (ed ∷ eds) p st h none_there =
        let (denied, (st', runs, still)) = on_acl_check-has_none ed p st h none_there in
        ap (λ a. a ∷ acl_answers eds (on_acl_check g ed p).1) denied
        ∙ ap (λ l. err_acl_denied ∷ l)
            (acl_answers-has_none eds (on_acl_check g ed p).1 st' runs still)

    -- Where a reload reads a script that does not compile, it answers success to the broker, and however many
    -- accesses follow, each is denied, whatever the policy before it allowed.
    pub on_reload_denies :
        (p : Plugin g) (st : g.State) (file : ScriptFile) (bytes : List ℕ) (eds : List AclCheck)
        → p.handle ≡ engine st
        → file.content ≡ some bytes
        → file.memory ≡ true
        → (loaded st bytes).1 ≡ compile_failed
        → ((on_reload g file p).0 ≡ err_success)
          × (acl_answers eds (on_reload g file p).1 ≡ all_denied eds)
    unfolding on_reload
    on_reload_denies p st file bytes eds h found memory bad =
        let branches = (load_script_branches st file).1 bytes found in
        let reloaded : (on_reload g file p).1.handle ≡ engine (loaded st bytes).0 =
          ap (λ k. (load_script g file k).1) h ∙ (branches.1 memory).0 in
        (
          refl,
          acl_answers-has_none eds (on_reload g file p).1 (loaded st bytes).0 reloaded (
              clears.uncompiled (g.reset st) (fread script_max_bytes bytes)
                (clears.reset_has_none st) bad),
        )
