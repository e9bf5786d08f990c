-- ===== src/Bundle/Tests.antt =====
-- The theorems on the bundle host at a concrete engine.
use gengo.Prelude.{ℕ, List, true, Option, none, some}
use gengo.Prelude.Text.{codes}
use gengo.Stdio.{ScriptFile}
use gengo.Engine.{Config}
use gengo.Engine.Sample.{sample}
use gengo.Bundle.{Student, Loader}

abbrev alice : Student
alice = record { name = codes "Alice"; correct = 92; total = 100 }

abbrev start : Config → Option (Option (List ℕ))
start config = some none

abbrev file : ScriptFile
file = record { content = some (codes "x"); memory = true }

abbrev loader : Loader sample
loader = record { load_bundle = λ st zip. (st, true); load_bundle_dir = λ st. (st, true) }
