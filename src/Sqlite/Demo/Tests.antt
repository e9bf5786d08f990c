-- ===== src/Sqlite/Demo/Tests.antt =====
-- The demo of the SQLite host over a table that is a list, and a concrete engine.
use gengo.Prelude.{ℕ, ◌∷◌, List, [], ◌++◌, Bool, true, Option, some, length, replicate}
use gengo.Prelude.Text.{codes}
use gengo.Stdio.{ScriptFile}
use gengo.Engine.{Config}
use gengo.Engine.Sample.{sample}
use gengo.Sqlite.{reason_size, SqlResult, Policy}
use gengo.Sqlite.Demo.{
  Trigger, Statement, create_table, create_trigger, Order, Database, new_policy,
}
use gengo.Sqlite.Demo.Triggers.{added, fire}

-- The triggers that were created, and the rows.
abbrev Schema : Type 0
Schema = List Trigger × List Order

abbrev insert_row :
    {P : Type 0} → (Order → P → SqlResult × P) → Order → Schema → P → (Schema × P) × Bool
insert_row f o (ts, rows) p = let r = fire f o ts p in (((ts, added r.0 o rows), r.1), r.0)

abbrev run_statement : Statement → Schema → Schema
run_statement (create_table name columns) (ts, rows) = (ts, [])
run_statement (create_trigger t) (ts, rows) = (ts ++ t ∷ [], rows)

abbrev table : Database
table = record {
  Db = Schema;
  opened = some ([], []);
  create_functions = λ db. some db;
  exec = λ statement db. some (run_statement statement db);
  insert = λ f o db p. insert_row f o db p;
  last_insert_rowid = λ db. length db.1;
  errmsg = λ db. codes "order validation failed";
  select = λ db. db.1;
}

abbrev started : Config → Option (Option (List ℕ))
started c = some (some (codes "x"))

abbrev script : ScriptFile
script = record { content = some (codes "y"); memory = true }

abbrev unset : List ℕ
unset = replicate reason_size 0

abbrev first_policy : Policy sample
first_policy = new_policy sample (some (codes "y"))
