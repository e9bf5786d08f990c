-- ===== src/Sqlite/Reasons.antt =====
-- The texts that `sql_gengo_reject_reason` gives after a row was not accepted.
use gengo.Prelude.{
  ℕ, ◌-◌, ◌≤◌, ◌≡◌, ◌≢◌, refl, ◌∙◌, List, [], ◌∷◌, ◌++◌, some, length, take_all, length-append,
  arith,
}
use gengo.Prelude.Text.{codes, c_str}
use gengo.Engine.{Engine, Outcome, runtime_error}
use gengo.Sqlite.{
  reason_size, Policy, rejected, validate, validate_args, on_validated, reject_reason,
  readable_part, after_prefix, after_mark,
}
use gengo.Sqlite.Buffer.{IsReason, store_engine_error_text}

-- No byte is a colon.
abbrev pub HasNoColon : List ℕ → Type 0
HasNoColon [] = Unit
HasNoColon (b ∷ name) = (b ≢ 58) × HasNoColon name

after_mark-append :
    (name text : List ℕ)
    → HasNoColon name
    → after_mark (codes ": ") (name ++ (codes ": " ++ text)) ≡ some text
unfolding after_mark
after_mark-append [] text h = refl
after_mark-append (b ∷ name) text h = ground (arith, after_mark-append name text h.1)

-- The engine's message of an uncaught error.
abbrev pub panic : List ℕ → List ℕ → List ℕ
panic name text = codes "panic: " ++ (name ++ (codes ": " ++ text))

-- Of an uncaught error, `panic: Name: text` with no colon in the name, the readable part is the
-- text, even where the text has colons.
pub readable_part-panic :
    (name text : List ℕ) → HasNoColon name → readable_part (panic name text) ≡ text
unfolding readable_part after_prefix
readable_part-panic name text h = let e = after_mark-append name text h in rw e refl

-- The part behind a piece of a text without NULs has none.
c_str_behind : (front text : List ℕ) → c_str (front ++ text) ≡ front ++ text → c_str text ≡ text
unfolding c_str
c_str_behind [] text h = h
c_str_behind (b ∷ front) text h = ground (arith, c_str_behind front text)

module _ (g : Engine) where
  -- The call of `validate` and the engine behind it.
  abbrev validated : ℕ → List ℕ → ℕ → Policy g → g.State × Outcome
  validated amount currency qty pol =
      g.call pol.engine (codes "validate") (validate_args g amount currency qty)

  -- A script that ends a row's check with an uncaught error: of the engine's message, `panic:`, the
  -- error's name, a colon and a text, which has no NUL and fits into 511 bytes, the row's reason is
  -- exactly the text, and the row is rejected, not an SQL error. The name has no colon, the text may.
  pub validate-reason :
      (amount : ℕ) (currency : List ℕ) (qty : ℕ) (pol : Policy g) (name text : List ℕ)
      → IsReason reason_size pol.last_reason
      → (validated amount currency qty pol).1.code ≡ runtime_error
      → g.last_error (validated amount currency qty pol).0 ≡ panic name text
      → HasNoColon name
      → c_str (panic name text) ≡ panic name text
      → length (panic name text) ≤ reason_size - 1
      → ((validate g amount (some currency) qty pol).0 ≡ rejected)
        × (reject_reason g (validate g amount (some currency) qty pol).1 ≡ text)
  unfolding validate on_validated reject_reason
  validate-reason amount currency qty pol name text r e message colon whole fits =
      let own : c_str text ≡ text = c_str_behind (codes ": ") text (
        c_str_behind name (codes ": " ++ text)
          (c_str_behind (codes "panic: ") (name ++ (codes ": " ++ text)) whole)) in
      let short : length text ≤ reason_size - 1 =
        omega (arith, length-append name (codes ": " ++ text), length-append (codes ": ") text) in
      let shown = store_engine_error_text (panic name text) pol.last_reason (omega arith) r in
      rw (e, message)
        (
          refl,
          shown
              ∙ rw
                  (
                    take_all (reason_size - 1) (panic name text) fits,
                    whole,
                    readable_part-panic name text colon,
                    own,
                  )
                  (take_all (reason_size - 1) text short),
        )
