-- ===== src/Sqlite/Demo/Verdicts.antt =====
-- What the demo of the SQLite host reports for its orders.
use gengo.Prelude.{List, [], ◌∷◌, ◌++◌, Bool, true, false}
use gengo.Engine.{Engine}
use gengo.Sqlite.{Policy}
use gengo.Sqlite.Demo.{Order, Line, inserted, validate_order}
use gengo.Sqlite.Demo.Triggers.{accepts, added}

abbrev pub is_inserted : Line → Bool
is_inserted (inserted row) = true
is_inserted _ = false

abbrev pub reported : List Line → List Bool
reported [] = []
reported (l ∷ ls) = is_inserted l ∷ reported ls

module _ (g : Engine) where
  -- The answers of the policy to the orders in turn.
  abbrev pub verdicts : List Order → Policy g → List Bool
  verdicts [] pol = []
  verdicts (o ∷ os) pol =
      accepts (validate_order g o pol).0 ∷ verdicts os (validate_order g o pol).1

  -- The orders that the policy accepts when it is asked about them in turn.
  abbrev pub accepted_orders : List Order → Policy g → List Order
  accepted_orders [] pol = []
  accepted_orders (o ∷ os) pol =
      added (accepts (validate_order g o pol).0) o []
      ++ accepted_orders os (validate_order g o pol).1
