-- ===== src/Bytecode/Verifier/Accepted.antt =====
-- What `verify` promises of the code that it accepts, for the start and for each function of the constants.
use mathlib.Core.Path.{subst}
use gengo.Prelude.{
  ℕ, ◌≤◌, ◌<◌, ◌≡◌, sym, ap, ◌∙◌, List, Bool, true, false, Option, some, ◌==◌, arith, length,
  replicate,
}
use gengo.Bytecode.Checked.{ok, ◌>>=◌, ◌>>◌, on_ok}
use gengo.Bytecode.Scan.{has, scan, check_targets}
use gengo.Bytecode.Scan.Starts.{Chain, here, IsMarked, scan-IsMarked}
use gengo.Bytecode.Walk.{WorkItem, work_item, Entry, run}
use gengo.Bytecode.Walk.Paths.{In, Reach}
use gengo.Bytecode.Verifier.{
  FuncObj, State, main_entry, entry_of, func_bodies, run_bodies, checked_starts, verify_walks,
  verify,
}
use gengo.Bytecode.Verifier.Sound.{Accepts, Agrees, RunsSafely, run-RunsSafely}
use gengo.Bytecode.Verifier.Functions.{
  func_bodies-In, SameBut, Stamps, run_bodies-Stamps, Stamps-In, Stamps-Stamped,
}

-- The parts of a verification that finds nothing wrong.
record Parts (st out : State) : Type 0 where
  pub starts : List Bool
  pub bodies : List Entry
  pub marked : IsMarked st.code (length st.consts) starts
  pub found : func_bodies st.code starts 0 st.consts ≡ ok bodies
  pub main : run st.code starts main_entry ≡ ok out.main_max_stack
  pub stamps : Stamps st.code starts bodies st.consts out.consts

checked_starts-IsMarked :
    (st : State) (starts : List Bool)
    → checked_starts st ≡ ok starts
    → IsMarked st.code (length st.consts) starts
unfolding checked_starts
checked_starts-IsMarked st starts h =
    let s = st.code in
    on_ok (scan s.code_len s (length st.consts) 0 (replicate s.code_len false))
      (λ (marks : List Bool). check_targets s.code_len s marks 0 >> ok marks) h
      λ marks scanned h1.
        on_ok (check_targets s.code_len s marks 0) (λ _. ok marks) h1
          λ _ targets e.
            let same : marks ≡ starts = cc in
            subst (λ (l : List Bool). IsMarked s (length st.consts) l) same
              (scan-IsMarked s (length st.consts) marks scanned targets)

verify-Parts : (st out : State) → verify st ≡ ok out → 0 < st.code.code_len → Parts st out
unfolding verify verify_walks
verify-Parts st out h pos =
    let some_code : (st.code.code_len == 0) ≡ false = ground arith in
    on_ok (checked_starts st) (verify_walks st) (rw some_code at h) λ starts checked h1.
      on_ok (func_bodies st.code starts 0 st.consts)
        (λ (bodies : List Entry). run st.code starts main_entry >>= λ main_max.
          run_bodies st.code starts bodies st.consts >>= λ consts.
          ok (record st { consts = consts; main_max_stack = main_max }))
        h1
        λ bodies found h2.
          on_ok (run st.code starts main_entry)
            (λ (main_max : ℕ). run_bodies st.code starts bodies st.consts >>= λ consts.
              ok (record st { consts = consts; main_max_stack = main_max }))
            h2
            λ main_max main h3.
              on_ok (run_bodies st.code starts bodies st.consts)
                (λ (consts : List (Option FuncObj)).
                  ok (record st { consts = consts; main_max_stack = main_max }))
                h3
                λ consts stamped e.
                  let same : record st { consts = consts; main_max_stack = main_max } ≡ out = cc in
                  record {
                    starts = starts;
                    bodies = bodies;
                    marked = checked_starts-IsMarked st starts checked;
                    found = found;
                    main = main ∙ ap (λ (k : State). ok k.main_max_stack) same;
                    stamps =
                        subst (λ (k : State). Stamps st.code starts bodies st.consts k.consts) same
                          (run_bodies-Stamps st.code starts bodies st.consts consts stamped);
                  }

main_safely :
    (st out : State)
    → verify st ≡ ok out
    → 0 < st.code.code_len
    → RunsSafely st.code (length st.consts) main_entry out.main_max_stack
main_safely st out h pos =
    let parts = verify-Parts st out h pos in
    run-RunsSafely st.code (length st.consts) parts.starts main_entry out.main_max_stack
      parts.marked (parts.marked.row 0 here pos) parts.main

-- On every path of the instructions as the decoder reads them (each is followed by the next, or by the one target that
-- is decoded of it; the second offset of get_local_const_lt_jif_pop_jump is not decoded) from the start of code that
-- is accepted, each address inside the code was accepted, with a depth with which such a path comes to it: the
-- instruction decodes, its decoded constant index is in range, and so is the slot of get_local, set_local,
-- close_upvalue, get_upvalue and set_upvalue, the bytes of its fused parts are there, the stack holds what it pops,
-- and what it leaves is at most main_max_stack.
pub verify-main_addresses :
    (st out : State) (at : WorkItem)
    → verify st ≡ ok out
    → Reach st.code (work_item 0 0) at
    → at.ip < st.code.code_len
    → (d : ℕ) × Reach st.code (work_item 0 0) (work_item at.ip d)
      × Accepts st.code (length st.consts) main_entry out.main_max_stack (work_item at.ip d)
verify-main_addresses st out at h r lt = (main_safely st out h (omega arith) at r lt).0

-- Where paths that meet have the same depth, this holds with the depth of each path: from the start of code that is
-- accepted, no path of the instructions as the decoder reads them pops from an empty stack, uses a decoded constant
-- index or a slot of get_local, set_local, close_upvalue, get_upvalue or set_upvalue that is not there, or needs more
-- than main_max_stack.
pub verify-main_depths :
    (st out : State) (at : WorkItem)
    → verify st ≡ ok out
    → Agrees st.code (work_item 0 0)
    → Reach st.code (work_item 0 0) at
    → at.ip < st.code.code_len
    → Accepts st.code (length st.consts) main_entry out.main_max_stack at
verify-main_depths st out at h agrees r lt = (main_safely st out h (omega arith) at r lt).1 agrees

entries_same : (g f : FuncObj) → SameBut g f → entry_of g ≡ entry_of f
entries_same g f same i = record {
  entry_ip = same.0 i;
  check_ret = false;
  local_base = same.1 i;
  upvalue_count = same.2 i;
}

-- A function of the constants of accepted code, whose body starts at an instruction and in whose body paths that meet
-- have the same depth, is stamped with the depth that its body needs: on every path of the instructions as the decoder
-- reads them from its entry, each instruction is accepted with the arity and captures of the function and leaves at
-- most max_stack, which fits in 16 bits.
pub verify-functions :
    (st out : State) (g : FuncObj) (at : WorkItem)
    → verify st ≡ ok out
    → In (some g) out.consts
    → Chain st.code 0 g.ip
    → g.ip < st.code.code_len
    → Agrees st.code (work_item g.ip 0)
    → Reach st.code (work_item g.ip 0) at
    → at.ip < st.code.code_len
    → (g.max_stack ≤ 65535) × Accepts st.code (length st.consts) (entry_of g) g.max_stack at
verify-functions st out g at h m row inside agrees r lt =
    let parts = verify-Parts st out h (omega arith) in
    let (f, was, same) = Stamps-In parts.stamps g m in
    let at_mark = parts.marked.row g.ip row inside in
    let f_mark = subst (λ (k : ℕ). has parts.starts k ≡ true) same.0 at_mark in
    let body =
      func_bodies-In st.code parts.starts 0 st.consts parts.bodies f parts.found was
        (omega (arith, same.0)) f_mark in
    let (max, ran, low, all) = Stamps-Stamped parts.stamps (entry_of f) body in
    let depth : max ≡ g.max_stack = sym (all g m same.0) in
    let ran' : run st.code parts.starts (entry_of g) ≡ ok g.max_stack =
      ap (run st.code parts.starts) (entries_same g f same) ∙ ran ∙ ap ok depth in
    (
      omega (arith, depth, low),
      (run-RunsSafely st.code (length st.consts) parts.starts (entry_of g) g.max_stack parts.marked
            at_mark ran' at r lt).1
          agrees,
    )
