-- ===== src/Acl.antt =====
-- examples/mosquitto-acl/plugin.c: a Mosquitto plugin that asks a script whether to allow an
-- access. The broker and its log are outside; what the plugin logs is left out, but for the lines
-- of the script.
mod Tests
pub mod Decisions
pub mod Reload
pub mod Lifecycle
use gengo.Prelude.{
  ℕ, zero, suc, ◌+◌, ◌-◌, ◌*◌, ◌^◌, List, [], ◌∷◌, ◌++◌, Bool, true, false, not, ◌&&◌, ◌||◌, Option,
  none, some, ◌==◌, ltb, leb, if◌then◌else◌, length,
}
use gengo.Prelude.Text.{codes, bytes_eq, c_str}
use gengo.Stdio.{ScriptFile, fread}
use gengo.Wire.{Wire, wire_boolean}
use gengo.Engine.{
  Engine, Arg, str, CallCode, success, runtime_error, other_error, Outcome, RunCode, run_ok,
  compile_failed, run_failed,
}

abbrev pub script_max_bytes : ℕ
script_max_bytes = 1024 * 1024

-- The return codes of the callbacks, under the broker's names.
pub data Mosq : Type 0 where
  err_success err_unknown err_nomem err_acl_denied err_auth : Mosq

-- `ed->access`
pub data Access : Type 0 where
  acl_read acl_write acl_subscribe acl_unsubscribe acl_other : Access

-- The events that callbacks are registered for.
pub data Event : Type 0 where
  evt_acl_check evt_reload evt_basic_auth : Event

-- A C string that may be NULL, and the `s ? s : ""` of the callbacks.
abbrev pub or_empty : Option (List ℕ) → List ℕ
or_empty none = []
or_empty (some s) = s

pub record AclCheck : Type 0 where
  pub client : Option (List ℕ)
  pub username : Option (List ℕ)
  pub topic : Option (List ℕ)
  pub access : Access

pub record BasicAuth : Type 0 where
  pub client : Option (List ℕ)
  pub username : Option (List ℕ)
  pub password : Option (List ℕ)

-- out.tag == GENGO_WIRE_BOOLEAN && out.payload == 1
pub is_true : Wire → Bool
is_true out = out.tag == wire_boolean && out.payload == 1

unfoldable pub access_name : Access → Option (List ℕ)
access_name acl_read = some (codes "read")
access_name acl_write = some (codes "write")
access_name acl_subscribe = some (codes "subscribe")
access_name acl_unsubscribe = some (codes "unsubscribe")
access_name acl_other = none

-- The loop of `script_write` at the end of the output: trailing line ends are cut off.
pub trim_line_ends : List ℕ → List ℕ
trim_line_ends [] = []
trim_line_ends (b ∷ bytes) =
    let rest = trim_line_ends bytes in
    if (length rest == 0) && (b == b'\n' || b == b'\r') then [] else b ∷ rest

-- The line that `script_write` logs, if any.
unfoldable pub script_write : List ℕ → Option (List ℕ)
unfolding trim_line_ends
script_write output =
    let line = trim_line_ends output in if length line == 0 then none else some line

module _ (g : Engine) where
  -- `g_engine`: 0, a negative code of `engine_init_with_config`, or a handle.
  pub data Handle : Type 0 where
    no_engine : Handle
    rejected : Handle
    engine : g.State → Handle

  -- The globals of the plugin, the callbacks that the broker has of it, and how many engines it has started
  -- and not destroyed. `has_pid` is whether `g_pid` is set.
  pub record Plugin : Type 0 where
    pub handle : Handle
    pub script_path : List ℕ
    pub basic_auth : Bool
    pub callbacks : List Event
    pub has_pid : Bool
    pub live : ℕ

  -- `engine_reset`, `engine_run` and `engine_call` of engine.zig answer a handle that is none by
  -- doing nothing, -1 and -1.
  pub engine_reset : Handle → Handle
  engine_reset (engine st) = engine (g.reset st)
  engine_reset h = h

  pub engine_run : Handle → List ℕ → Handle × RunCode
  engine_run (engine st) src = let (st', code) = g.run st src in (engine st', code)
  engine_run no_engine src = (no_engine, compile_failed)
  engine_run rejected src = (rejected, compile_failed)

  -- `load_script` on the handle: its return code, and the handle afterwards.
  pub load_script : ScriptFile → Handle → Mosq × Handle
  unfolding engine_reset engine_run
  load_script file h = elim file.content [
    | none ↦ (err_unknown, h)
    | some bytes ↦
        if not file.memory
        then (err_nomem, h)
        else (let (h', code) = engine_run (engine_reset h) (fread script_max_bytes bytes) in
            elim code [ run_ok ↦ (err_success, h') | _ ↦ (err_unknown, h') ])
  ]

  -- A call of the script that must answer true; anything else is a deny.
  pub call_bool : List ℕ → List Arg → Handle → Bool × Handle
  unfolding is_true
  call_bool fn args (engine st) =
      let (st', o) = g.call st fn args in
      elim o.code [ success ↦ (is_true o.out, engine st') | _ ↦ (false, engine st') ]
  call_bool fn args h = (false, h)

  -- The arguments of `acl`: client, user, topic and the kind of access.
  unfoldable pub acl_args : AclCheck → List ℕ → List Arg
  acl_args ed access =
      str (or_empty ed.client)
      ∷ str (or_empty ed.username)
      ∷ str (or_empty ed.topic)
      ∷ str access
      ∷ []

  unfoldable pub auth_args : BasicAuth → List Arg
  auth_args ed =
      str (or_empty ed.client) ∷ str (or_empty ed.username) ∷ str (or_empty ed.password) ∷ []

  with_handle : Plugin → Handle → Plugin
  with_handle p h = record p { handle = h }

  pub on_acl_check : AclCheck → Plugin → Mosq × Plugin
  unfolding with_handle
  on_acl_check ed p = elim (access_name ed.access) [
    | none ↦ (err_acl_denied, p)
    | some access ↦
        let (allowed, h) = call_bool (codes "acl") (acl_args ed access) p.handle in
        (if allowed then err_success else err_acl_denied, with_handle p h)
  ]

  pub on_basic_auth : BasicAuth → Plugin → Mosq × Plugin
  unfolding with_handle
  on_basic_auth ed p =
      let (allowed, h) = call_bool (codes "auth") (auth_args ed) p.handle in
      (if allowed then err_success else err_auth, with_handle p h)

  -- The answer of `load_script` is only logged.
  pub on_reload : ScriptFile → Plugin → Mosq × Plugin
  unfolding with_handle
  on_reload file p = (err_success, with_handle p (load_script file p.handle).1)
