-- ===== src/Firmware/Decisions.antt =====
-- What the firmware gate allows, and on what its script is asked.
use gengo.Prelude.{
  ℕ, ◌≡◌, ◌↔◌, ◌⊎◌, inl, inr, refl, ap, sym, ◌∙◌, List, [], ◌∷◌, ◌++◌, true, Option, none, some,
  if◌then◌else◌, arith, Bool-cases,
}
use gengo.Prelude.Text.{codes, bytes_eq, bytes_eq_refl, bytes_eq→eq}
use gengo.Stdio.{ScriptFile, read_file}
use gengo.Wire.{Wire, gengo_wire_as_bool}
use gengo.Engine.{
  Engine, CallCode, success, runtime_error, other_error, RunCode, run_ok, compile_failed,
  run_failed, Config,
}
use gengo.Firmware.{
  DeviceCase, str_in_list, update_args, Line, device, allow, log_engine_error, when_success,
  firmware_config, call_bool_fn, call_string_fn, deny_lines, verdict_lines, decide, gate, Ended,
  run_policy, load_policy, start_policy, firmware_main,
}

abbrev pub InList : List ℕ → List (List ℕ) → Type 0
InList s [] = ⊥
InList s (x ∷ list) = (s ≡ x) ⊎ InList s list

-- `str_in_list` answers 1 exactly for the strings of the list.
pub str_in_list-InList :
    (s : List ℕ) (list : List (List ℕ)) → (str_in_list s list ≡ true) ↔ InList s list
unfolding str_in_list
str_in_list-InList s [] = (λ e. ground arith, λ e. elim e [ ])
str_in_list-InList s (x ∷ list) =
    let rest = str_in_list-InList s list in
    (
      λ e. elim (Bool-cases (bytes_eq s x)) [
        | inl same ↦ inl (bytes_eq→eq s x same)
        | inr other ↦ inr (rest.0 (ground arith))
      ],
      λ p. elim p [
        | inl same ↦
            let e : bytes_eq s x ≡ true = ap (bytes_eq s) (sym same) ∙ bytes_eq_refl s in
            ground arith
        | inr later ↦ let e = rest.1 later in ground arith
      ],
    )

-- The devices that an output allows: each that is the last one named before a line `allow`. The
-- first argument is the device named before.
pub allowed_from : Option DeviceCase → List Line → List DeviceCase
allowed_from d [] = []
allowed_from d (device d' ∷ lines) = allowed_from (some d') lines
allowed_from none (allow ∷ lines) = allowed_from none lines
allowed_from (some d) (allow ∷ lines) = d ∷ allowed_from (some d) lines
allowed_from d (line ∷ lines) = allowed_from d lines

pub allowed_devices : List Line → List DeviceCase
allowed_devices lines = allowed_from none lines

module _ (g : Engine) where
  -- The device alone, where the call of the script's `allow_update` on it answered true.
  pub if_true : DeviceCase → CallCode → Wire → List DeviceCase
  if_true d success out = if gengo_wire_as_bool out then d ∷ [] else []
  if_true d runtime_error out = []
  if_true d other_error out = []

  -- The devices that the script permits, each asked on the engine that the one before it left.
  pub permitted : List ℕ → List DeviceCase → g.State → List DeviceCase
  permitted buf [] st = []
  permitted buf (d ∷ cases) st =
      let o = (g.call st (codes "allow_update") (update_args d)).1 in
      if_true d o.code o.out ++ permitted buf cases (decide g buf d st).0

  denied_lines :
      (d : DeviceCase) (more : List Line) (r : g.State × Option (List ℕ))
      → allowed_from (some d) ((deny_lines g r).1 ++ more) ≡ allowed_from (some d) more
  unfolding deny_lines log_engine_error allowed_from
  denied_lines d more (st, none) = refl
  denied_lines d more (st, some reason) = refl

  lines_by_code :
      (buf : List ℕ) (d : DeviceCase) (st : g.State) (more : List Line) (c : CallCode) (out : Wire)
      → allowed_from
          (some d)
          ((verdict_lines g buf (st, when_success c (gengo_wire_as_bool out))).1 ++ more)
        ≡ if_true d c out ++ allowed_from (some d) more
  unfolding verdict_lines if_true log_engine_error allowed_from
  lines_by_code buf d st more success out = elim (Bool-cases (gengo_wire_as_bool out)) [
    | inl said ↦ rw said refl
    | inr refused ↦ rw refused (denied_lines d more (call_string_fn g st (codes "last_reason") buf))
  ]
  lines_by_code buf d st more runtime_error out = refl
  lines_by_code buf d st more other_error out = refl

  decide_lines :
      (buf : List ℕ) (d : DeviceCase) (st : g.State) (more : List Line)
      → let o = (g.call st (codes "allow_update") (update_args d)).1 in
        allowed_from none ((decide g buf d st).1 ++ more)
        ≡ if_true d o.code o.out ++ allowed_from (some d) more
  unfolding decide call_bool_fn allowed_from
  decide_lines buf d st more =
      let (st', o) = g.call st (codes "allow_update") (update_args d) in
      lines_by_code buf d st' more o.code o.out

  -- The output of the gate starts with a device, if with anything.
  gate_starts :
      (buf : List ℕ) (d : DeviceCase) (cases : List DeviceCase) (st : g.State)
      → allowed_from (some d) (gate g buf cases st).1 ≡ allowed_from none (gate g buf cases st).1
  unfolding gate decide allowed_from
  gate_starts buf d [] st = refl
  gate_starts buf d (d' ∷ cases) st = refl

  -- The devices that the gate prints as allowed are exactly those on which the script's
  -- `allow_update` succeeds and answers true: a failed call, any other answer and a reason that
  -- cannot be read are no permission.
  pub gate-permitted :
      (buf : List ℕ) (cases : List DeviceCase) (st : g.State)
      → allowed_devices (gate g buf cases st).1 ≡ permitted buf cases st
  unfolding gate permitted allowed_devices allowed_from
  gate-permitted buf [] st = refl
  gate-permitted buf (d ∷ cases) st =
      let o = (g.call st (codes "allow_update") (update_args d)).1 in
      decide_lines buf d st (gate g buf cases (decide g buf d st).0).1
      ∙ ap (λ l. if_true d o.code o.out ++ l) (gate_starts buf d cases (decide g buf d st).0)
      ∙ ap (λ l. if_true d o.code o.out ++ l) (gate-permitted buf cases (decide g buf d st).0)

  -- It ends with 0, or nothing is allowed.
  abbrev pub OkOrNone : Ended g → Type 0
  OkOrNone e = (e.exit_code ≡ 0) ⊎ (allowed_devices e.printed ≡ [])

  run_policy-exit :
      (buf : List ℕ) (cases : List DeviceCase) (r : g.State × RunCode)
      → (((run_policy g buf cases r).exit_code ≡ 0) ↔ (r.1 ≡ run_ok))
        × OkOrNone (run_policy g buf cases r)
  unfolding run_policy log_engine_error allowed_devices allowed_from
  run_policy-exit buf cases (st, run_ok) = ((λ e. refl, λ e. refl), inl refl)
  run_policy-exit buf cases (st, compile_failed) =
      ((λ e. ground arith, λ e. ground arith), inr refl)
  run_policy-exit buf cases (st, run_failed) = ((λ e. ground arith, λ e. ground arith), inr refl)

  load_policy-exit :
      (path buf : List ℕ) (cases : List DeviceCase) (st : g.State) (content : Option (List ℕ))
      → (((load_policy g path buf cases st content).exit_code ≡ 0) ↔ (
          (script : List ℕ) × (content ≡ some script) × ((g.run_path st script path).1 ≡ run_ok)))
        × OkOrNone (load_policy g path buf cases st content)
  unfolding load_policy allowed_devices allowed_from
  load_policy-exit path buf cases st none =
      ((λ e. absurd (ground arith), λ (script, e, ok). ground arith), inr refl)
  load_policy-exit path buf cases st (some script) =
      let run = run_policy-exit buf cases (g.run_path st script path) in
      (
        (
          λ e. (script, refl, run.0.0 e),
          λ (script', e, ok). run.0.1 (let same : script ≡ script' = ground arith in rw same ok),
        ),
        run.1,
      )

  start_policy-exit :
      (file : ScriptFile) (path buf : List ℕ) (cases : List DeviceCase) (started : Option g.State)
      → (((start_policy g file path buf cases started).exit_code ≡ 0) ↔ (
          (st : g.State) × (script : List ℕ) × (started ≡ some st)
          × (read_file file ≡ some script)
          × ((g.run_path st script path).1 ≡ run_ok)))
        × OkOrNone (start_policy g file path buf cases started)
  unfolding start_policy allowed_devices allowed_from
  start_policy-exit file path buf cases none =
      ((λ e. absurd (ground arith), λ (st, script, e, read, ok). ground arith), inr refl)
  start_policy-exit file path buf cases (some st) =
      let load = load_policy-exit path buf cases st (read_file file) in
      (
        (
          λ e. let (script, read, ok) = load.0.0 e in (st, script, refl, read, ok),
          λ (st', script, e, read, ok).
              load.0.1 (script, read, let same : st ≡ st' = ground arith in rw same ok),
        ),
        load.1,
      )

  -- The host exits with 0 exactly when the engine starts, the policy can be read and it runs
  -- without an error, and otherwise no device is allowed.
  pub firmware_main-exit :
      (start : Config → Option g.State) (file : ScriptFile) (path buf : List ℕ)
      (cases : List DeviceCase)
      → (((firmware_main g start file path buf cases).exit_code ≡ 0) ↔ (
          (st : g.State) × (script : List ℕ) × (start firmware_config ≡ some st)
          × (read_file file ≡ some script)
          × ((g.run_path st script path).1 ≡ run_ok)))
        × (((firmware_main g start file path buf cases).exit_code ≡ 0)
            ⊎ (allowed_devices (firmware_main g start file path buf cases).printed ≡ []))
  unfolding firmware_main
  firmware_main-exit start file path buf cases =
      start_policy-exit file path buf cases (start firmware_config)
