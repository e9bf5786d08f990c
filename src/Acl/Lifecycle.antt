-- ===== src/Acl/Lifecycle.antt =====
-- `mosquitto_plugin_version`, `mosquitto_plugin_init` and `mosquitto_plugin_cleanup`.
pub mod Cleanup
use gengo.Prelude.{
  ◌%◌, ℕ, zero, suc, ◌+◌, ◌-◌, ◌*◌, ◌^◌, ◌≤◌, ◌<◌, ◌≡◌, ◌≢◌, ◌⊎◌, inl, inr, refl, ap, List, [], ◌∷◌,
  ◌++◌, Bool, true, false, not, ◌&&◌, ◌||◌, Option, none, some, ◌==◌, ltb, leb, if◌then◌else◌, take,
  min, length, length-take, arith, Bool-cases,
}
use gengo.Prelude.Text.{codes, bytes_eq}
use gengo.Acl.{
  Handle, no_engine, rejected, engine, Plugin, Mosq, err_success, err_unknown, err_nomem, Event,
  evt_acl_check, evt_reload, evt_basic_auth, load_script,
}
use gengo.Stdio.{ScriptFile}
use gengo.Engine.{Engine, Config}

-- The first version 5 that the broker supports, or -1, which is `none`.
unfoldable pub plugin_version : List ℕ → Option ℕ
plugin_version [] = none
plugin_version (v ∷ versions) = if v == 5 then some 5 else plugin_version versions

-- isspace
pub is_space : ℕ → Bool
is_space b = b == 32 || (leb 9 b && leb b 13)

-- The digits at the head of a text, saturating at `limit` as `strtoll` does.
pub digits : ℕ → ℕ → List ℕ → ℕ
digits limit acc [] = acc
digits limit acc (b ∷ text) =
    let rest = digits limit (min limit (acc * 10 + (b - b'0'))) text in
    if leb b'0' b && leb b b'9' then rest else acc

-- The number behind the blanks: a minus sign gives the two's complement of 64 bits.
signed_digits : List ℕ → ℕ
unfolding digits
signed_digits [] = 0
signed_digits (b ∷ text) =
    if b == b'-'
    then (2 ^ 64 - digits (2 ^ 63) 0 text) % 2 ^ 64
    else if b == b'+'
    then digits (2 ^ 63 - 1) 0 text
    else digits (2 ^ 63 - 1) 0 (b ∷ text)

skip_spaces : List ℕ → List ℕ
skip_spaces [] = []
skip_spaces (b ∷ text) = let rest = skip_spaces text in if is_space b then rest else b ∷ text

-- strtoll(text, NULL, 10), as the 64 bits of the result
unfoldable pub strtoll : List ℕ → ℕ
unfolding signed_digits skip_spaces is_space
strtoll text = signed_digits (skip_spaces text)

-- snprintf(dest, size, "%s", text)
pub copy_string : ℕ → List ℕ → List ℕ
copy_string size text = take (size - 1) text

-- The locals and globals that the loop over the options sets.
pub record Options : Type 0 where
  pub script_path : List ℕ
  pub max_ops : ℕ
  pub basic_auth : Bool

-- One round of the loop, on an option's key and value.
unfoldable pub read_option : Options → List ℕ → List ℕ → Options
unfolding copy_string
read_option o key value =
    if bytes_eq key (codes "script")
    then record o { script_path = copy_string 4096 value }
    else if bytes_eq key (codes "max_ops")
    then record o { max_ops = strtoll value }
    else if bytes_eq key (codes "basic_auth")
    then record o { basic_auth = bytes_eq value (codes "true") }
    else o

unfoldable pub read_options : Options → List (List ℕ × List ℕ) → Options
read_options o [] = o
read_options o ((key, value) ∷ options) = read_options (read_option o key value) options

unfoldable pub plugin_config : ℕ → Config
plugin_config max_ops = record {
  heap_size_bytes = 512 * 1024;
  max_objects = 2048;
  max_stack = 512;
  max_frames = 64;
  max_defers = 128;
  max_ops = max_ops;
  allow_io = 1;
}

-- The callbacks that `mosquitto_plugin_init` registers.
abbrev pub own_callbacks : Bool → List Event
own_callbacks basic_auth =
    if basic_auth
    then evt_acl_check ∷ evt_reload ∷ evt_basic_auth ∷ []
    else evt_acl_check ∷ evt_reload ∷ []

-- `mosquitto_callback_unregister` on the callbacks that the broker has.
pub unregister : Event → List Event → List Event
unregister e [] = []
unregister evt_acl_check (evt_acl_check ∷ es) = es
unregister evt_reload (evt_reload ∷ es) = es
unregister evt_basic_auth (evt_basic_auth ∷ es) = es
unregister e (e' ∷ es) = e' ∷ unregister e es

module _ (g : Engine) where
  -- `engine_init_with_config` answered 0.
  pub is_null : Handle g → Bool
  is_null no_engine = true
  is_null _ = false

  -- An engine more, where `engine_init_with_config` gives one.
  pub engines_started : Handle g → ℕ → ℕ
  engines_started (engine st) live = live + 1
  engines_started h live = live

  -- `engine_destroy`: of a handle that is none, nothing.
  pub engines_left : Handle g → ℕ → ℕ
  engines_left (engine st) live = live - 1
  engines_left h live = live

  -- The end of `mosquitto_plugin_init`, on what `load_script` answers.
  pub finish_init : Plugin g → Mosq × Handle g → Mosq × Plugin g
  unfolding engines_left
  finish_init p (err_success, h) =
      (err_success, record p { handle = h; callbacks = p.callbacks ++ own_callbacks p.basic_auth })
  finish_init p (rc, h) = (rc, record p { handle = no_engine; live = engines_left h p.live })

  -- `start` is `engine_init_with_config`, and `file_at` the script file of a path.
  pub plugin_init :
      (Config → Handle g)
      → (List ℕ → ScriptFile)
      → List (List ℕ × List ℕ)
      → Plugin g
      → Mosq × Plugin g
  unfolding finish_init is_null engines_started
  plugin_init start file_at options p =
      let o =
        read_options (record { script_path = []; max_ops = 100000; basic_auth = p.basic_auth })
          options in
      let h = start (plugin_config o.max_ops) in
      let named = record p {
        script_path = o.script_path;
        basic_auth = o.basic_auth;
        has_pid = true;
      } in
      let given = record named { handle = h; live = engines_started h p.live } in
      if length o.script_path == 0
      then (err_unknown, named)
      else if is_null h
      then (err_unknown, given)
      else finish_init given (load_script g (file_at o.script_path) h)

  -- if (g_pid)
  pub take_callbacks : Plugin g → Plugin g
  unfolding unregister
  take_callbacks p =
      let both = unregister evt_reload (unregister evt_acl_check p.callbacks) in
      let left = if p.basic_auth then unregister evt_basic_auth both else both in
      if p.has_pid then record p { callbacks = left } else p

  -- if (g_engine != 0)
  pub destroy_engine : Plugin g → Plugin g
  unfolding is_null engines_left
  destroy_engine p =
      if is_null p.handle
      then p
      else record p { handle = no_engine; live = engines_left p.handle p.live }

  pub plugin_cleanup : Plugin g → Plugin g
  unfolding take_callbacks destroy_engine
  plugin_cleanup p = destroy_engine (take_callbacks p)
