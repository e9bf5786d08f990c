-- ===== src/Sqlite/Demo.antt =====
-- `main` of examples/sqlite-policy/main.c, with SQLite as a parameter. The headings, the label of an order
-- and the layout of the listing are left out; a message of a failed start is its kind, that of a failed load
-- its text without the line number.
mod Tests
pub mod Triggers
pub mod Verdicts
use gengo.Prelude.{
  ℕ, ◌*◌, List, [], ◌∷◌, ◌++◌, Bool, true, false, Option, none, some, ◌==◌, if◌then◌else◌, length,
  replicate, take,
}
use gengo.Prelude.Text.{codes, c_str}
use gengo.Stdio.{ScriptFile, read_file}
use gengo.Engine.{Engine, Config, RunCode, run_ok, compile_failed, run_failed}
use gengo.Sqlite.{reason_size, SqlResult, Policy, validate, fetch_reject_reason}

-- order_t; an integer is its 64 bits
pub record Order : Type 0 where
  pub amount_cents : ℕ
  pub currency : List ℕ
  pub qty : ℕ

abbrev order : ℕ → List ℕ → ℕ → Order
order amount currency qty = record { amount_cents = amount; currency = currency; qty = qty }

unfoldable pub orders : List Order
orders =
    order 14999 (codes "USD") 3
    ∷ order 199 (codes "EUR") 1
    ∷ order 49900 (codes "SEK") 12
    ∷ order 0 (codes "USD") 5
    ∷ order 500 (codes "BTC") 1
    ∷ order 500 (codes "GBP") 99999
    ∷ []

-- The statements that `exec_or_die` runs, as their syntax trees. A trigger stands BEFORE its event; its WHEN is the
-- comparison of `gengo_validate` on columns of NEW with a number, and its body `SELECT raise(abort, message)`.
pub data IntColumn : Type 0 where
  new_amount_cents new_qty : IntColumn

pub data TextColumn : Type 0 where
  new_currency : TextColumn

pub data TriggerEvent : Type 0 where
  before_insert before_update : TriggerEvent

pub record When : Type 0 where
  pub first : IntColumn
  pub second : TextColumn
  pub third : IntColumn
  pub equals : ℕ

pub record Trigger : Type 0 where
  pub name : List ℕ
  pub event : TriggerEvent
  pub table : List ℕ
  pub condition : When
  pub message : List ℕ

pub data ColumnType : Type 0 where
  integer_key integer_not_null text_not_null : ColumnType

pub data Statement : Type 0 where
  create_table : List ℕ → List (List ℕ × ColumnType) → Statement
  create_trigger : Trigger → Statement

unfoldable pub create_orders : Statement
create_orders = create_table (codes "orders") (
    (codes "id", integer_key)
    ∷ (codes "amount_cents", integer_not_null)
    ∷ (codes "currency", text_not_null)
    ∷ (codes "qty", integer_not_null)
    ∷ [])

-- gengo_validate(NEW.amount_cents, NEW.currency, NEW.qty) = 0
unfoldable pub is_invalid : When
is_invalid = record { first = new_amount_cents; second = new_currency; third = new_qty; equals = 0 }

unfoldable pub orders_bi : Trigger
orders_bi = record {
  name = codes "orders_bi";
  event = before_insert;
  table = codes "orders";
  condition = is_invalid;
  message = codes "order validation failed";
}

unfoldable pub orders_bu : Trigger
orders_bu = record {
  name = codes "orders_bu";
  event = before_update;
  table = codes "orders";
  condition = is_invalid;
  message = codes "order validation failed";
}

-- The calls of SQLite. `insert` is the prepared INSERT, bound and stepped once: its first argument is what
-- `gengo_validate` does with a row and the policy, and the answer says whether the step was SQLITE_DONE.
pub record Database : Type 1 where
  pub Db : Type 0
  pub opened : Option Db
  pub create_functions : Db → Option Db
  pub exec : Statement → Db → Option Db
  pub insert : {P : Type 0} → (Order → P → SqlResult × P) → Order → Db → P → (Db × P) × Bool
  pub last_insert_rowid : Db → ℕ
  pub errmsg : Db → List ℕ
  pub select : Db → List Order

pub data Line : Type 0 where
  inserted : ℕ → Line
  refused : List ℕ → Line
  accepted_row : Order → Line
  policy_load_failed : List ℕ → Line
  cannot_start cannot_read_script cannot_open cannot_create_function sql_failed : Line

pub data Step {ℓ} (A : Type ℓ) : Type ℓ where
  go : A → Step A
  exits : Line → Step A

infixl 5 ◌>>=◌
abbrev pub ◌>>=◌ {ℓ κ} : {A : Type ℓ} {B : Type κ} → Step A → (A → Step B) → Step B
go a >>= f = f a
exits l >>= f = exits l

abbrev pub or_exit {ℓ} : {A : Type ℓ} → Option A → Line → Step A
or_exit none l = exits l
or_exit (some a) l = go a

-- The exit code, and what was printed.
pub record Report : Type 0 where
  pub exit_code : ℕ
  pub lines : List Line

unfoldable pub sqlite_config : Config
sqlite_config = record {
  heap_size_bytes = 256 * 1024;
  max_objects = 1024;
  max_stack = 256;
  max_frames = 32;
  max_defers = 64;
  max_ops = 100000;
  allow_io = 0;
}

unfoldable pub list_rows : List Order → List Line
list_rows [] = []
list_rows (o ∷ os) = accepted_row o ∷ list_rows os

module _ (g : Engine) where
  unfoldable pub validate_order : Order → Policy g → SqlResult × Policy g
  validate_order o pol = validate g o.amount_cents (some o.currency) o.qty pol

  on_run : g.State × RunCode → Step g.State
  on_run (st, run_ok) = go st
  on_run (st, compile_failed) = exits (policy_load_failed (c_str (take 512 (g.last_error st))))
  on_run (st, run_failed) = exits (policy_load_failed (c_str (take 512 (g.last_error st))))

  -- The engine with the policy loaded.
  unfoldable pub policy_engine : (Config → Option g.State) → ScriptFile → List ℕ → Step g.State
  unfolding on_run
  policy_engine start file path = do
    st ← or_exit (start sqlite_config) cannot_start
    script ← or_exit (read_file file) cannot_read_script
    on_run (g.run_path st script path)

  -- memset(&pol, 0, sizeof pol)
  abbrev pub new_policy : g.State → Policy g
  new_policy st = record { engine = st; last_reason = replicate reason_size 0 }

module _ (sql : Database) where
  abbrev pub exec_or_die : Statement → sql.Db → Step sql.Db
  exec_or_die statement db = or_exit (sql.exec statement db) sql_failed

  unfoldable pub open_database : Step sql.Db
  open_database = do
    db ← or_exit sql.opened cannot_open
    db ← or_exit (sql.create_functions db) cannot_create_function
    db ← exec_or_die create_orders db
    db ← exec_or_die (create_trigger orders_bi) db
    exec_or_die (create_trigger orders_bu) db

module _ (g : Engine) (sql : Database) where
  -- reason[0] ? reason : sqlite3_errmsg(db); `buf` is `reason`, not initialised
  unfoldable pub refusal : List ℕ → Policy g → sql.Db → List ℕ
  refusal buf pol db =
      let reason = c_str (fetch_reject_reason g pol buf) in
      if length reason == 0 then sql.errmsg db else reason

  unfoldable pub insert_line : List ℕ → (sql.Db × Policy g) × Bool → Line
  insert_line buf ((db, pol), true) = inserted (sql.last_insert_rowid db)
  insert_line buf ((db, pol), false) = refused (refusal buf pol db)

  -- The loop over the orders, and the listing behind it.
  unfoldable pub insert_orders : List ℕ → List Order → sql.Db → Policy g → List Line × sql.Db
  insert_orders buf [] db pol = ([], db)
  insert_orders buf (o ∷ os) db pol =
      let r = sql.insert (validate_order g) o db pol in
      let (lines, db') = insert_orders buf os r.0.0 r.0.1 in (insert_line buf r ∷ lines, db')

  on_exit : Step (List Line × sql.Db) → Report
  on_exit (exits l) = record { exit_code = 1; lines = l ∷ [] }
  on_exit (go (lines, db)) = record { exit_code = 0; lines = lines ++ list_rows (sql.select db) }

  unfoldable pub sqlite_main : (Config → Option g.State) → ScriptFile → List ℕ → List ℕ → Report
  unfolding on_exit list_rows
  sqlite_main start file path buf = on_exit do
    st ← policy_engine g start file path
    db ← open_database sql
    go (insert_orders buf orders db (new_policy g st))
