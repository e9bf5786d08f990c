-- ===== src/Sqlite/Demo/Triggers.antt =====
-- What SQLite does with the triggers of the demo: a parameter, with what the program relies on as hypotheses.
use gengo.Prelude.{
  ap, ◌∙◌, ℕ, ◌≡◌, refl, List, [], ◌∷◌, ◌++◌, Bool, true, false, ◌&&◌, ◌==◌, if◌then◌else◌, Option,
  none, some,
}
use gengo.Prelude.Text.{codes, bytes_eq}
use gengo.Sqlite.{SqlResult, rejected, accepted, sql_error}
use gengo.Sqlite.Demo.{
  Order, Database, Line, cannot_open, cannot_create_function, sql_failed, Step, go, ◌>>=◌, or_exit,
  IntColumn, new_amount_cents, new_qty, TriggerEvent, before_insert, before_update, When, Trigger,
  ColumnType, create_table, create_trigger, create_orders, is_invalid, orders_bi, orders_bu,
  open_database,
}

abbrev pub accepts : SqlResult → Bool
accepts rejected = false
accepts accepted = true
accepts (sql_error text) = false

abbrev pub added : Bool → Order → List Order → List Order
added true o rows = rows ++ o ∷ []
added false o rows = rows

abbrev int_column : IntColumn → Order → ℕ
int_column new_amount_cents o = o.amount_cents
int_column new_qty o = o.qty

-- What the condition of a trigger asks the function about.
abbrev pub asked_of : When → Order → Order
asked_of w o = record {
  amount_cents = int_column w.first o;
  currency = o.currency;
  qty = int_column w.third o;
}

-- Whether the answer of the function equals the number, or is an error: then the statement fails.
abbrev pub stops : ℕ → SqlResult → Bool
stops n rejected = n == 0
stops n accepted = n == 1
stops n (sql_error text) = true

abbrev is_on_insert : TriggerEvent → Bool
is_on_insert before_insert = true
is_on_insert before_update = false

-- The BEFORE INSERT triggers of a table for a row, in turn: whether none stops it, and the policy behind them.
abbrev pub fire : {P : Type 0} → (Order → P → SqlResult × P) → Order → List Trigger → P → Bool × P
fire f o [] p = (true, p)
fire f o (t ∷ ts) p =
    let r = f (asked_of t.condition o) p in
    let further = fire f o ts r.1 in
    let skipped = fire f o ts p in
    if is_on_insert t.event && bytes_eq t.table (codes "orders")
    then (if stops t.condition.equals r.0 then (false, r.1) else further)
    else skipped

-- What SQLite documents of the calls: a database that was opened has no triggers, a table that was created is
-- empty, CREATE TRIGGER adds its trigger and nothing else, and an insertion fires the BEFORE INSERT triggers that
-- were created, each asking once, is done exactly when none stops it, and then the row stands last.
pub record Documented (sql : Database) : Type 1 where
  pub triggers : sql.Db → List Trigger
  pub opens_bare : (db : sql.Db) → sql.opened ≡ some db → triggers db ≡ []
  pub functions_keep :
      (db out : sql.Db) → sql.create_functions db ≡ some out → triggers out ≡ triggers db
  pub creates_table :
      (name : List ℕ) (columns : List (List ℕ × ColumnType)) (db out : sql.Db)
      → sql.exec (create_table name columns) db ≡ some out
      → (triggers out ≡ triggers db) × (sql.select out ≡ [])
  pub creates_trigger :
      (t : Trigger) (db out : sql.Db)
      → sql.exec (create_trigger t) db ≡ some out
      → (triggers out ≡ triggers db ++ t ∷ []) × (sql.select out ≡ sql.select db)
  pub done :
      (P : Type 0) (f : Order → P → SqlResult × P) (o : Order) (db : sql.Db) (p : P)
      → (sql.insert f o db p).1 ≡ (fire f o (triggers db) p).0
  pub asked :
      (P : Type 0) (f : Order → P → SqlResult × P) (o : Order) (db : sql.Db) (p : P)
      → (sql.insert f o db p).0.1 ≡ (fire f o (triggers db) p).1
  pub rows :
      (P : Type 0) (f : Order → P → SqlResult × P) (o : Order) (db : sql.Db) (p : P)
      → sql.select (sql.insert f o db p).0.0 ≡ added (fire f o (triggers db) p).0 o (sql.select db)
  pub keeps :
      (P : Type 0) (f : Order → P → SqlResult × P) (o : Order) (db : sql.Db) (p : P)
      → triggers (sql.insert f o db p).0.0 ≡ triggers db

-- The triggers of the program ask the function once about the row, and stop it exactly when it does not accept.
abbrev pub own_triggers : List Trigger
unfolding orders_bi orders_bu
own_triggers = orders_bi ∷ orders_bu ∷ []

fire-own_triggers :
    {P : Type 0} (f : Order → P → SqlResult × P) (o : Order) (p : P)
    → fire f o own_triggers p ≡ (accepts (f o p).0, (f o p).1)
unfolding own_triggers orders_bi orders_bu is_invalid bytes_eq
fire-own_triggers {P} f o p = by_answer (f o p) refl
  where
    by_answer : (r : SqlResult × P) → f o p ≡ r → fire f o own_triggers p ≡ (accepts r.0, r.1)
    by_answer (rejected, q) e = rw e refl
    by_answer (accepted, q) e = rw e refl
    by_answer (sql_error text, q) e = rw e refl

or_exit_go :
    {A B : Type 0} (a : Option A) (l : Line) (f : A → Step B) (b : B)
    → (or_exit a l >>= f) ≡ go b
    → (x : A) × (a ≡ some x) × (f x ≡ go b)
or_exit_go none l f b h = absurd (cc)
or_exit_go (some x) l f b h = (x, refl, h)

ends_go : {A : Type 0} (a : Option A) (l : Line) (b : A) → or_exit a l ≡ go b → a ≡ some b
ends_go none l b h = absurd (cc)
ends_go (some x) l b h = cc

module _ (sql : Database) (sqlite : Documented sql) where
  -- A database that could be opened has the triggers of the program and an empty table.
  pub open_database-own_triggers :
      (db : sql.Db)
      → open_database sql ≡ go db
      → (sqlite.triggers db ≡ own_triggers) × (sql.select db ≡ [])
  unfolding open_database create_orders own_triggers
  open_database-own_triggers db h =
      let (db1, bare, h1) = or_exit_go sql.opened cannot_open _ db h in
      let (db2, functions, h2) =
        or_exit_go (sql.create_functions db1) cannot_create_function _ db h1 in
      let (db3, table, h3) = or_exit_go (sql.exec create_orders db2) sql_failed _ db h2 in
      let (db4, first, h4) =
        or_exit_go (sql.exec (create_trigger orders_bi) db3) sql_failed _ db h3 in
      let second = ends_go (sql.exec (create_trigger orders_bu) db4) sql_failed db h4 in
      let (kept, empty) = sqlite.creates_table _ _ db2 db3 table in
      let (one, still) = sqlite.creates_trigger orders_bi db3 db4 first in
      let (two, left) = sqlite.creates_trigger orders_bu db4 db second in
      let none_yet = kept ∙ sqlite.functions_keep db1 db2 functions ∙ sqlite.opens_bare db1 bare in
      (
        two ∙ ap (λ ts. ts ++ orders_bu ∷ []) (one ∙ ap (λ ts. ts ++ orders_bi ∷ []) none_yet),
        left ∙ still ∙ empty,
      )

  -- An insertion with these triggers.
  pub insert-own_triggers :
      {P : Type 0} (f : Order → P → SqlResult × P) (o : Order) (db : sql.Db) (p : P)
      → sqlite.triggers db ≡ own_triggers
      → ((sql.insert f o db p).1 ≡ accepts (f o p).0)
        × ((sql.insert f o db p).0.1 ≡ (f o p).1)
        × (sql.select (sql.insert f o db p).0.0 ≡ added (accepts (f o p).0) o (sql.select db))
        × (sqlite.triggers (sql.insert f o db p).0.0 ≡ own_triggers)
  insert-own_triggers {P} f o db p own =
      let fired = ap (λ ts. fire f o ts p) own ∙ fire-own_triggers f o p in
      (
        sqlite.done P f o db p ∙ ap (λ r. r.0) fired,
        sqlite.asked P f o db p ∙ ap (λ r. r.1) fired,
        sqlite.rows P f o db p ∙ ap (λ r. added r.0 o (sql.select db)) fired,
        sqlite.keeps P f o db p ∙ own,
      )
