-- ===== src/Fastcgi/Main/Tests.antt =====
-- The theorem on the exit code of the FastCGI host at a concrete engine.
use gengo.Prelude.{ℕ, List, [], ◌∷◌, true, false, Option, none, some}
use gengo.Prelude.Text.{codes}
use gengo.Stdio.{ScriptFile}
use gengo.Engine.{Config}
use gengo.Fastcgi.Main.{Streams}

abbrev app_file : ScriptFile
app_file = record { content = some (codes "x"); memory = true }

abbrev start : Config → Option (Option (List ℕ))
start config = some none

-- A BEGIN record that is cut off.
abbrev streams : Streams
streams = record {
  input = 1 ∷ 1 ∷ 0 ∷ [];
  read_error = false;
  out = record { written = []; room = 100; failed = false };
}
