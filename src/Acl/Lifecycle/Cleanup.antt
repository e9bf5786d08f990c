-- ===== src/Acl/Lifecycle/Cleanup.antt =====
-- The engine and the callbacks that the plugin holds, from init to cleanup.
use gengo.Prelude.{
  ℕ, ◌≡◌, ◌≢◌, true, inl, inr, refl, ap, ◌∙◌, List, [], ◌==◌, length, arith, Bool-cases,
  Option-cases,
}
use gengo.Stdio.{fread}
use gengo.Stdio.{ScriptFile}
use gengo.Engine.{Engine}
use gengo.Acl.{
  script_max_bytes, Handle, no_engine, rejected, engine, Plugin, Mosq, err_success, load_script,
}
use gengo.Engine.{Config}
use gengo.Acl.Lifecycle.{
  plugin_config, Options, read_options, is_null, engines_started, engines_left, take_callbacks,
  destroy_engine, own_callbacks, finish_init, plugin_init, plugin_cleanup,
}

module _ (g : Engine) where
  -- A load succeeds only on an engine.
  load_script_success :
      (file : ScriptFile) (h : Handle g)
      → (load_script g file h).0 ≡ err_success
      → (st : g.State) × ((load_script g file h).1 ≡ engine st)
  unfolding load_script
  load_script_success file no_engine e = ground arith
  load_script_success file rejected e = ground arith
  load_script_success file (engine st) e = elim (Option-cases file.content) [
    | inl missing ↦ ground arith
    | inr (bytes, found) ↦ ((g.run (g.reset st) (fread script_max_bytes bytes)).0, ground arith)
  ]

  -- A load leaves a handle of the kind that it had.
  load_script_live :
      (file : ScriptFile) (h : Handle g) (live : ℕ)
      → engines_left g (load_script g file h).1 (engines_started g h live) ≡ live
  unfolding load_script engines_left engines_started
  load_script_live file no_engine live = ground arith
  load_script_live file rejected live = ground arith
  load_script_live file (engine st) live = elim (Option-cases file.content) [
    | inl missing ↦ ground arith
    | inr (bytes, found) ↦ ground arith
  ]

  -- What a call of `mosquitto_plugin_init` leaves of a plugin that held nothing: with a success one engine that
  -- runs and the callbacks, and with a failure neither.
  pub record IsSettled (r : Mosq × Plugin g) : Type 0 where
    pub knows : r.1.has_pid ≡ true
    pub holds :
        r.0 ≡ err_success
        → ((st : g.State) × (r.1.handle ≡ engine st))
          × (r.1.callbacks ≡ own_callbacks r.1.basic_auth)
          × (r.1.live ≡ 1)
    pub holds_nothing :
        r.0 ≢ err_success → (r.1.handle ≡ no_engine) × (r.1.callbacks ≡ []) × (r.1.live ≡ 0)

  finish_init-IsSettled :
      (p : Plugin g) (r : Mosq × Handle g)
      → p.has_pid ≡ true
      → p.callbacks ≡ []
      → engines_left g r.1 p.live ≡ 0
      → (r.0 ≡ err_success → ((st : g.State) × (r.1 ≡ engine st)) × (p.live ≡ 1))
      → IsSettled (finish_init g p r)
  unfolding finish_init
  finish_init-IsSettled p (err_success, h) pid e spent opened = record {
    knows = pid;
    holds = λ s. ((opened refl).0, ground arith, (opened refl).1);
    holds_nothing = λ n. absurd (n refl);
  }
  finish_init-IsSettled p (rc, h) pid e spent opened = record {
    knows = pid;
    holds = λ s. cc;
    holds_nothing = λ n. (refl, e, spent);
  }

  is_null_lem : (h : Handle g) → is_null g h ≡ true → h ≡ no_engine
  unfolding is_null
  is_null_lem no_engine e = refl
  is_null_lem rejected e = cc
  is_null_lem (engine st) e = cc

  no_engine_started : (h : Handle g) (live : ℕ) → h ≡ no_engine → engines_started g h live ≡ live
  unfolding engines_started
  no_engine_started h live e = rw e refl

  -- A load that succeeds had an engine.
  engine_started :
      (file : ScriptFile) (h : Handle g) (live : ℕ)
      → live ≡ 0
      → (load_script g file h).0 ≡ err_success
      → engines_started g h live ≡ 1
  unfolding load_script engines_started
  engine_started file no_engine live z e = absurd (ground arith)
  engine_started file rejected live z e = absurd (ground arith)
  engine_started file (engine st) live z e = omega arith

  take_own :
      (p : Plugin g)
      → p.has_pid ≡ true
      → p.callbacks ≡ own_callbacks p.basic_auth
      → (take_callbacks g p).callbacks ≡ []
  unfolding take_callbacks
  take_own p pid e = elim (Bool-cases p.basic_auth) [
    | inl on ↦ rw (pid, on, e ∙ ap own_callbacks on) refl
    | inr off ↦ rw (pid, off, e ∙ ap own_callbacks off) refl
  ]

  take_nothing : (p : Plugin g) → p.callbacks ≡ [] → (take_callbacks g p).callbacks ≡ []
  unfolding take_callbacks
  take_nothing p e = rw e (ground arith)

  take_same :
      (p : Plugin g)
      → ((take_callbacks g p).handle ≡ p.handle) × ((take_callbacks g p).live ≡ p.live)
  unfolding take_callbacks
  take_same p = (ground arith, ground arith)

  destroy_callbacks : (p : Plugin g) → (destroy_engine g p).callbacks ≡ p.callbacks
  unfolding destroy_engine
  destroy_callbacks p = ground arith

  destroy_one :
      (p : Plugin g) (st : g.State)
      → p.handle ≡ engine st
      → p.live ≡ 1
      → ((destroy_engine g p).handle ≡ no_engine) × ((destroy_engine g p).live ≡ 0)
  unfolding destroy_engine is_null engines_left
  destroy_one p st e one = rw e (refl, omega arith)

  destroy_none : (p : Plugin g) → p.handle ≡ no_engine → destroy_engine g p ≡ p
  unfolding destroy_engine is_null
  destroy_none p e = rw e refl

  -- Nothing of the plugin is left: no callback, no engine in `g_engine`, and none that it engines_started and did not
  -- destroy.
  abbrev pub HoldsNothing : Plugin g → Type 0
  HoldsNothing p = (p.callbacks ≡ []) × (p.handle ≡ no_engine) × (p.live ≡ 0)

  settled_cleanup : (r : Mosq × Plugin g) → IsSettled r → HoldsNothing (plugin_cleanup g r.1)
  unfolding plugin_cleanup
  settled_cleanup (err_success, p) s =
      let ((st, runs), own, one) = s.holds refl in
      let (same_handle, same_live) = take_same p in
      let (gone, none_live) =
        destroy_one (take_callbacks g p) st (same_handle ∙ runs) (same_live ∙ one) in
      (destroy_callbacks (take_callbacks g p) ∙ take_own p s.knows own, gone, none_live)
  settled_cleanup (rc, p) s =
      let (nothing, no_callbacks, zero_live) = s.holds_nothing (λ e. cc) in
      let (same_handle, same_live) = take_same p in
      let same = destroy_none (take_callbacks g p) (same_handle ∙ nothing) in
      (
        ap (λ k. k.callbacks) same ∙ take_nothing p no_callbacks,
        ap (λ k. k.handle) same ∙ same_handle ∙ nothing,
        ap (λ k. k.live) same ∙ same_live ∙ zero_live,
      )

  -- Whatever the options, the script file and the answer of `engine_init_with_config` are,
  -- `mosquitto_plugin_init` on a plugin that holds nothing ends with one running engine and its callbacks
  -- registered, or with an error and neither of them left behind.
  pub plugin_init-IsSettled :
      (start : Config → Handle g) (file_at : List ℕ → ScriptFile) (options : List (List ℕ × List ℕ))
      (p : Plugin g)
      → HoldsNothing p
      → IsSettled (plugin_init g start file_at options p)
  unfolding plugin_init
  plugin_init-IsSettled start file_at options p (ec, eh, el) =
      let defaults : Options = record {
        script_path = [];
        max_ops = 100000;
        basic_auth = p.basic_auth;
      } in
      let o = read_options defaults options in
      let h = start (plugin_config o.max_ops) in
      let file = file_at o.script_path in
      let given = record p {
        script_path = o.script_path;
        basic_auth = o.basic_auth;
        has_pid = true;
        handle = h;
        live = engines_started g h p.live;
      } in
      elim (Bool-cases (length o.script_path == 0)) [
        | inl no_path ↦
            rw no_path (record { knows = refl; holds = λ s. cc; holds_nothing = λ n. (eh, ec, el) })
        | inr path ↦ elim (Bool-cases (is_null g h)) [
          | inl null ↦
              rw (path, null)
                (record {
                  knows = refl;
                  holds = λ s. cc;
                  holds_nothing = λ n. (
                    is_null_lem h null,
                    ec,
                    no_engine_started h p.live (is_null_lem h null) ∙ el,
                  );
                })
          | inr real ↦
              rw (path, real)
                (finish_init-IsSettled given (load_script g file h) refl ec
                  (load_script_live file h p.live ∙ el)
                  λ good. (load_script_success file h good, engine_started file h p.live el good))
        ]
      ]

  -- After `mosquitto_plugin_init`, whether it succeeds or fails, on a plugin without callbacks, without an engine
  -- and without one that it engines_started and did not destroy, `mosquitto_plugin_cleanup` leaves none of these again.
  pub plugin_cleanup-plugin_init :
      (start : Config → Handle g) (file_at : List ℕ → ScriptFile) (options : List (List ℕ × List ℕ))
      (p : Plugin g)
      → HoldsNothing p
      → HoldsNothing (plugin_cleanup g (plugin_init g start file_at options p).1)
  plugin_cleanup-plugin_init start file_at options p h =
      settled_cleanup (plugin_init g start file_at options p)
        (plugin_init-IsSettled start file_at options p h)
