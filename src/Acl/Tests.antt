-- ===== src/Acl/Tests.antt =====
-- The theorems on the Mosquitto plugin at a concrete engine.
use gengo.Prelude.{ℕ, ◌≡◌, ◌↔◌, ◌⊎◌, ap, refl, List, [], ◌∷◌, true, none, some, arith}
use gengo.Prelude.Text.{codes}
use gengo.Stdio.{ScriptFile}
use gengo.Engine.{SaysTrue}
use gengo.Engine.Sample.{sample, run_script, run_script-uncompiled, not_callable_none}
use gengo.Stdio.Laws.{fread_all}
use gengo.Acl.{
  script_max_bytes, AclCheck, BasicAuth, acl_write, access_name, Handle, no_engine, engine, Plugin,
  Mosq, err_success, err_acl_denied, acl_args, on_acl_check, on_reload,
}
use gengo.Acl.Decisions.{on_acl_check-allows}
use gengo.Acl.Reload.{Clears, acl_answers, all_denied, on_reload_denies}
use gengo.Engine.{Config}
use gengo.Acl.Lifecycle.{plugin_init, plugin_cleanup}
use gengo.Acl.Lifecycle.Cleanup.{HoldsNothing, plugin_cleanup-plugin_init}

abbrev asked : AclCheck
asked = record {
  client = some (codes "c1");
  username = none;
  topic = some (codes "a/b");
  access = acl_write;
}

abbrev login : BasicAuth
login = record { client = some (codes "c1"); username = some (codes "u"); password = none }

abbrev running : Plugin sample
running = record {
  handle = engine (some (codes "x"));
  script_path = codes "acl.gengo";
  basic_auth = true;
  callbacks = [];
  has_pid = true;
  live = 1;
}

abbrev closed : Plugin sample
closed = record running { handle = no_engine; live = 0 }

-- A file whose script is empty, which does not compile on the sample engine.
abbrev empty_file : ScriptFile
empty_file = record { content = some []; memory = true }

abbrev start : Config → Handle sample
start config = engine none

abbrev options : List (List ℕ × List ℕ)
options = (codes "script", codes "p") ∷ []

abbrev initialised : Mosq × Plugin sample
initialised = plugin_init sample start (λ path. empty_file) options closed

on_acl_check-allows_example :
    (((on_acl_check sample asked running).0 ≡ err_success) ↔ (
      (access : List ℕ) × (access_name acl_write ≡ some access)
      × SaysTrue (sample.call (some (codes "x")) (codes "acl") (acl_args sample asked access)).1))
    × (((on_acl_check sample asked running).0 ≡ err_success)
        ⊎ ((on_acl_check sample asked running).0 ≡ err_acl_denied))
on_acl_check-allows_example = on_acl_check-allows sample asked running (some (codes "x")) refl

sample_clears : Clears sample
sample_clears = record {
  has_none = λ st. st ≡ none;
  reset_has_none = λ st. refl;
  uncompiled = λ st src e fails. run_script-uncompiled src fails;
  not_callable = λ st fn args e. (not_callable_none st e, e);
}

on_reload_denies_example :
    ((on_reload sample empty_file running).0 ≡ err_success)
    × (acl_answers sample (asked ∷ asked ∷ []) (on_reload sample empty_file running).1
        ≡ all_denied sample (asked ∷ asked ∷ []))
on_reload_denies_example =
    on_reload_denies sample sample_clears running (some (codes "x")) empty_file []
      (asked ∷ asked ∷ []) refl refl refl
      (ap (λ l. (run_script l).1) (fread_all script_max_bytes [] (omega arith)))

plugin_cleanup-plugin_init_example : HoldsNothing sample (plugin_cleanup sample initialised.1)
plugin_cleanup-plugin_init_example =
    plugin_cleanup-plugin_init sample start (λ path. empty_file) options closed (refl, refl, refl)
