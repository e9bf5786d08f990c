-- ===== src/Bytecode/Verifier/Ends.antt =====
-- The verification ends, whatever the bytes are.
use gengo.Prelude.{
  ◌≢◌, ℕ, ◌+◌, inl, inr, List, [], ◌∷◌, Bool, false, ◌&&◌, Option, none, some, ltb, leb, ◌==◌,
  arith, Bool-cases, length, replicate,
}
use gengo.Bytecode.Checked.{
  error, refuse_if, invalid_bytecode, stack_overflow, no_fuel, Answers, Answers-bind,
}
use gengo.Bytecode.Decoder.{Code}
use gengo.Bytecode.Scan.{has, scan, check_targets}
use gengo.Bytecode.Scan.Ends.{scan-Answers, check_targets-Answers}
use gengo.Bytecode.Walk.{Entry, run}
use gengo.Bytecode.Walk.Ends.{run-Answers}
use gengo.Bytecode.Verifier.{
  FuncObj, State, main_entry, func_bodies, stamp, run_bodies, checked_starts, verify_walks, verify,
}

func_bodies-Answers :
    (s : Code) (starts : List Bool) (found : ℕ) (consts : List (Option FuncObj))
    → Answers (func_bodies s starts found consts)
unfolding func_bodies
func_bodies-Answers s starts found [] = λ h. cc
func_bodies-Answers s starts found (none ∷ consts) = func_bodies-Answers s starts found consts
func_bodies-Answers s starts found (some f ∷ consts) =
    elim (Bool-cases (ltb f.ip s.code_len && has starts f.ip)) [
      | inl taken ↦ rw taken (
          Answers-bind (refuse_if (leb 4096 found) invalid_bytecode) _ (λ h. ground arith)
            λ _ room.
              Answers-bind (func_bodies s starts (found + 1) consts) _
                (func_bodies-Answers s starts (found + 1) consts) λ bodies e h. cc)
      | inr skipped ↦ rw skipped (func_bodies-Answers s starts found consts)
    ]

run_bodies-Answers :
    (s : Code) (starts : List Bool) (bodies : List Entry) (consts : List (Option FuncObj))
    → Answers (run_bodies s starts bodies consts)
unfolding run_bodies
run_bodies-Answers s starts [] consts = λ h. cc
run_bodies-Answers s starts (e ∷ bodies) consts =
    Answers-bind (run s starts e) _ (run-Answers s starts e) λ max ran.
      Answers-bind (refuse_if (ltb 65535 max) stack_overflow) _ (λ h. ground arith)
        λ _ low. run_bodies-Answers s starts bodies (stamp e.entry_ip max consts)

checked_starts-Answers : (st : State) → Answers (checked_starts st)
unfolding checked_starts
checked_starts-Answers st =
    let s = st.code in
    let empty = replicate s.code_len false in
    Answers-bind (scan s.code_len s (length st.consts) 0 empty) _
      (scan-Answers s.code_len s (length st.consts) 0 empty (omega arith))
      λ starts h.
        Answers-bind (check_targets s.code_len s starts 0) _
          (check_targets-Answers s.code_len s starts 0 (omega arith)) λ _ g k. cc

verify_walks-Answers : (st : State) (starts : List Bool) → Answers (verify_walks st starts)
unfolding verify_walks
verify_walks-Answers st starts =
    Answers-bind (func_bodies st.code starts 0 st.consts) _
      (func_bodies-Answers st.code starts 0 st.consts)
      λ bodies found.
        Answers-bind (run st.code starts main_entry) _ (run-Answers st.code starts main_entry)
          λ main_max main.
            Answers-bind (run_bodies st.code starts bodies st.consts) _
              (run_bodies-Answers st.code starts bodies st.consts) λ consts stamped h. cc

-- The fuel of the loops is enough for any bytes and any constants: the verification accepts or names an error of
-- the source.
pub verify-Answers : (st : State) → verify st ≢ error no_fuel
unfolding verify
verify-Answers st = elim (Bool-cases (st.code.code_len == 0)) [
  | inl empty ↦ rw empty (λ h. cc)
  | inr more ↦ rw more (
      Answers-bind (checked_starts st) _ (checked_starts-Answers st)
        λ starts h. verify_walks-Answers st starts)
]
