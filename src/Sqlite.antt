-- ===== src/Sqlite.antt =====
-- examples/sqlite-policy/main.c: an SQL function that asks a script whether a row is valid.
-- SQLite is outside: an argument of the function is its value, and the result is what the function
-- sets. `last_reason` is the whole buffer of 512 bytes.
mod Tests
pub mod Buffer
pub mod Demo
pub mod Fetch
pub mod Reasons
pub mod Validate
use gengo.Prelude.{
  ℕ, zero, suc, ◌+◌, ◌-◌, ◌*◌, ◌^◌, List, [], ◌∷◌, ◌++◌, Bool, true, false, not, ◌&&◌, ◌||◌, Option,
  none, some, ◌==◌, ltb, leb, if◌then◌else◌, length, take, drop, replicate,
}
use gengo.Prelude.Text.{codes, bytes_eq, c_str}
use gengo.Wire.{Wire, gengo_wire_as_bool, gengo_wire_read_str}
use gengo.Engine.{Engine, Arg, str, int, CallCode, success, runtime_error, other_error, Outcome}

abbrev pub reason_size : ℕ
reason_size = 512

-- strncpy(dest, src, n): the string, filled up with NULs to `n` bytes; what stands behind stays.
pub strncpy : ℕ → List ℕ → List ℕ → List ℕ
strncpy n src dest = take n (c_str src ++ replicate n 0) ++ drop n dest

-- dest[i] = '\0'
pub put_nul : ℕ → List ℕ → List ℕ
put_nul i dest = take i dest ++ 0 ∷ drop (i + 1) dest

-- strncmp(text, prefix, strlen(prefix)) == 0, and what follows the prefix
pub after_prefix : List ℕ → List ℕ → Option (List ℕ)
after_prefix [] text = some text
after_prefix (p ∷ prefix) [] = none
after_prefix (p ∷ prefix) (b ∷ text) = if b == p then after_prefix prefix text else none

-- What follows the first place where `mark` stands, as `strstr` finds it.
pub after_mark : List ℕ → List ℕ → Option (List ℕ)
unfolding after_prefix
after_mark mark [] = after_prefix mark []
after_mark mark (b ∷ text) =
    let further = after_mark mark text in
    elim (after_prefix mark (b ∷ text)) [ some rest ↦ some rest | none ↦ further ]

abbrev pub or_else : Option (List ℕ) → List ℕ → List ℕ
or_else none text = text
or_else (some rest) text = rest

-- The part of an engine error behind "panic: XxxError: ".
pub readable_part : List ℕ → List ℕ
readable_part raw = elim (after_prefix (codes "panic: ") raw) [
  | none ↦ raw
  | some msg ↦ or_else (after_mark (codes ": ") msg) msg
]

-- `store_engine_error` on the buffer, for the whole message of the last error: the engine copies
-- its first 511 bytes to `raw`, and `raw[n]` is the NUL behind them.
pub store_engine_error : List ℕ → List ℕ → List ℕ
store_engine_error message last_reason =
    if length message == 0
    then strncpy (reason_size - 1) (codes "policy engine error") last_reason
    else put_nul (reason_size - 1) (
        strncpy (reason_size - 1) (readable_part (c_str (take (reason_size - 1) message)))
          last_reason)

-- What the function sets: sqlite3_result_int of 0 or 1, or sqlite3_result_error.
pub data SqlResult : Type 0 where
  rejected accepted : SqlResult
  sql_error : List ℕ → SqlResult

module _ (g : Engine) where
  -- policy_ctx_t
  pub record Policy : Type 0 where
    pub engine : g.State
    pub last_reason : List ℕ

  pub with_reason : Policy → List ℕ → Policy
  with_reason pol text = record pol { last_reason = strncpy (reason_size - 1) text pol.last_reason }

  -- What becomes of the call of `last_reject_reason`: its code, and what it answers.
  pub keep_reason : CallCode → Outcome → Policy → Policy
  keep_reason success o pol = record pol {
    last_reason = (gengo_wire_read_str o.memory o.out pol.last_reason).1;
  }
  keep_reason runtime_error o pol = with_reason pol (codes "validation failed")
  keep_reason other_error o pol = with_reason pol (codes "validation failed")

  -- The reason of an explicit `return false`, fetched from the script.
  pub fetch_script_reason : Policy → Policy
  fetch_script_reason pol =
      let (st, o) = g.call pol.engine (codes "last_reject_reason") [] in
      keep_reason o.code o (record pol { engine = st })

  -- What `sql_gengo_validate` does with the code and the wire that the call of `validate` gives.
  pub on_validated : CallCode → Wire → Policy → SqlResult × Policy
  on_validated runtime_error out pol = (
    rejected,
    record pol { last_reason = store_engine_error (g.last_error pol.engine) pol.last_reason },
  )
  on_validated other_error out pol =
      let pol' = with_reason pol (codes "policy engine error") in
      (sql_error (c_str pol'.last_reason), pol')
  on_validated success out pol =
      if gengo_wire_as_bool out
      then (accepted, record pol { last_reason = put_nul 0 pol.last_reason })
      else (rejected, fetch_script_reason pol)

  abbrev pub validate_args : ℕ → List ℕ → ℕ → List Arg
  validate_args amount currency qty = int amount ∷ str currency ∷ int qty ∷ []

  -- `sql_gengo_validate`; a NULL currency is none.
  pub validate : ℕ → Option (List ℕ) → ℕ → Policy → SqlResult × Policy
  validate amount none qty pol = (rejected, with_reason pol (codes "currency is null"))
  validate amount (some currency) qty pol =
      let (st, o) = g.call pol.engine (codes "validate") (validate_args amount currency qty) in
      on_validated o.code o.out (record pol { engine = st })

  -- `sql_gengo_reject_reason`: the text of the buffer.
  pub reject_reason : Policy → List ℕ
  reject_reason pol = c_str pol.last_reason

  -- `fetch_reject_reason` on a buffer of `length buf` bytes.
  pub fetch_reject_reason : Policy → List ℕ → List ℕ
  fetch_reject_reason pol buf =
      let text = reject_reason pol in
      let n = if leb (length buf) (length text) then length buf - 1 else length text in
      take n text ++ 0 ∷ drop (n + 1) buf
