-- ===== src/Bytecode/Verifier.antt =====
-- `verify` of lang/chunk_verifier.zig. Of a constant its function object is kept, as `funcObjOfConst` finds it;
-- constants that share one show the same address, so that they are stamped alike. After an error the bytecode
-- is not run, and what was stamped before it is left out.
pub mod Accepted
pub mod Ends
pub mod Functions
pub mod Sound
use gengo.Prelude.{
  ℕ, zero, suc, ◌+◌, List, [], ◌∷◌, Bool, true, false, ◌&&◌, Option, none, some, ◌==◌, ltb, leb,
  if◌then◌else◌, length, replicate,
}
use gengo.Bytecode.Checked.{
  Checked, ok, error, ◌>>=◌, ◌>>◌, refuse_if, invalid_bytecode, stack_overflow,
}
use gengo.Bytecode.Decoder.{Code}
use gengo.Bytecode.Scan.{has, scan, check_targets}
use gengo.Bytecode.Walk.{Entry, run}

pub record FuncObj : Type 0 where
  pub ip : ℕ
  pub arity : ℕ
  pub capture_count : ℕ
  pub max_stack : ℕ

pub record State : Type 0 where
  pub code : Code
  pub consts : List (Option FuncObj)
  pub main_max_stack : ℕ

abbrev pub main_entry : Entry
main_entry = record { entry_ip = 0; check_ret = true; local_base = 0; upvalue_count = 0 }

abbrev pub entry_of : FuncObj → Entry
entry_of f = record {
  entry_ip = f.ip;
  check_ret = false;
  local_base = f.arity;
  upvalue_count = f.capture_count;
}

-- The functions whose bodies start at an instruction, of which 4096 have room.
unfoldable pub func_bodies : Code → List Bool → ℕ → List (Option FuncObj) → Checked (List Entry)
func_bodies s starts found [] = ok []
func_bodies s starts found (none ∷ consts) = func_bodies s starts found consts
func_bodies s starts found (some f ∷ consts) =
    let skipped = func_bodies s starts found consts in
    let taken = (do
      refuse_if (leb 4096 found) invalid_bytecode
      bodies ← func_bodies s starts (found + 1) consts
      ok (entry_of f ∷ bodies)) in
    if ltb f.ip s.code_len && has starts f.ip then taken else skipped

abbrev stamped : ℕ → ℕ → Option FuncObj → Option FuncObj
stamped ip max none = none
stamped ip max (some f) = if f.ip == ip then some (record f { max_stack = max }) else some f

unfoldable pub stamp : ℕ → ℕ → List (Option FuncObj) → List (Option FuncObj)
stamp ip max [] = []
stamp ip max (c ∷ consts) = stamped ip max c ∷ stamp ip max consts

unfoldable pub run_bodies :
    Code → List Bool → List Entry → List (Option FuncObj) → Checked (List (Option FuncObj))
run_bodies s starts [] consts = ok consts
run_bodies s starts (e ∷ bodies) consts = do
  fmax ← run s starts e
  refuse_if (ltb 65535 fmax) stack_overflow
  run_bodies s starts bodies (stamp e.entry_ip fmax consts)

-- The marks of the scan, when the loops over the instructions find nothing wrong.
unfoldable pub checked_starts : State → Checked (List Bool)
checked_starts st = do
  let s = st.code
  starts ← scan s.code_len s (length st.consts) 0 (replicate s.code_len false)
  check_targets s.code_len s starts 0
  ok starts

-- The walks from the start and from each function.
unfoldable pub verify_walks : State → List Bool → Checked State
verify_walks st starts = do
  bodies ← func_bodies st.code starts 0 st.consts
  main_max ← run st.code starts main_entry
  consts ← run_bodies st.code starts bodies st.consts
  ok (record st { consts = consts; main_max_stack = main_max })

unfoldable pub verify : State → Checked State
unfolding checked_starts verify_walks
verify st = if st.code.code_len == 0 then ok st else (checked_starts st >>= verify_walks st)
