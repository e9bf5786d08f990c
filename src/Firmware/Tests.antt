-- ===== src/Firmware/Tests.antt =====
-- The theorems on the firmware gate at a concrete engine.
use gengo.Prelude.{ℕ, ◌≡◌, List, [], ◌∷◌, true, Option, none, some}
use gengo.Prelude.Text.{codes}
use gengo.Stdio.{ScriptFile}
use gengo.Engine.{Config}
use gengo.Engine.Sample.{sample}
use gengo.Firmware.{DeviceCase, gate}
use gengo.Firmware.Decisions.{allowed_devices, permitted, gate-permitted}

abbrev meter : DeviceCase
meter = record {
  model = codes "meter-v1";
  serial = codes "SN-1001";
  region = codes "eu";
  current_build = 4100;
  target_build = 4200;
  battery_percent = 82;
}

abbrev policy_file : ScriptFile
policy_file = record { content = some (codes "x"); memory = true }

abbrev start : Config → Option (Option (List ℕ))
start config = some none

gate-permitted_example :
    allowed_devices (gate sample [] (meter ∷ []) (some (codes "x"))).1
    ≡ permitted sample [] (meter ∷ []) (some (codes "x"))
gate-permitted_example = gate-permitted sample [] (meter ∷ []) (some (codes "x"))
