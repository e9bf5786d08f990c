-- ===== src/Bytecode/Tests/Accepted.antt =====
-- The theorems on accepted code at small pieces of bytecode.
use mathlib.Core.Path.{subst}
use gengo.Prelude.{
  ℕ, ap, ◌∙◌, ◌/◌, ◌≡◌, ◌≢◌, ◌<◌, ◌≤◌, ◌⊎◌, refl, sym, inl, inr, [], ◌∷◌, some, arith,
}
use gengo.Bytecode.Checked.{ok, error, no_fuel}
use gengo.Bytecode.Op.{op_of}
use gengo.Bytecode.Decoder.{decode_at}
use gengo.Bytecode.Effect.{stack_effect}
use gengo.Bytecode.Scan.Starts.{Chain, here, next}
use gengo.Bytecode.Walk.{
  Visit, Entry, is_return_op, is_unconditional_branch, is_conditional_branch, slot_is_bad,
  fall_through, branch, visit, WorkItem, work_item,
}
use gengo.Bytecode.Walk.Paths.{
  In, In-one, visit-Visited, Step-Visited, Reach, start, then_step, Step, falls, jumps,
}
use gengo.Bytecode.Verifier.{State, main_entry, entry_of, verify}
use gengo.Bytecode.Verifier.Sound.{Accepts, Agrees, Step-lt}
use gengo.Bytecode.Verifier.Accepted.{verify-main_addresses, verify-main_depths, verify-functions}
use gengo.Bytecode.Tests.{
  chunk, with_function, identity, stamped_identity, verified, function_accepted,
}
use gengo.Bytecode.Verifier.Ends.{verify-Answers}

abbrev program : State
program = chunk with_function (some identity ∷ [])

program_verified : verify program ≡ ok stamped_identity
unfolding verified
program_verified = function_accepted

-- From the start to the last instruction.
to_halt : Reach program.code (work_item 0 0) (work_item 9 1)
unfolding stack_effect decode_at op_of is_return_op is_unconditional_branch is_conditional_branch
to_halt =
    then_step (then_step start (jumps _ _ 8 (record { decoded = refl; moves = refl }) refl refl))
      (falls _ _ (record { decoded = refl; moves = refl }) refl refl)

-- The places that a path from the start comes to.
abbrev IsOnMain : WorkItem → Type 0
IsOnMain at = (at ≡ work_item 0 0) ⊎ (at ≡ work_item 8 0) ⊎ (at ≡ work_item 9 1) ⊎ (10 ≤ at.ip)

abbrev IsOnBody : WorkItem → Type 0
IsOnBody at = (at ≡ work_item 5 0) ⊎ (at ≡ work_item 7 1) ⊎ (10 ≤ at.ip)

-- A step from a place that was visited goes to what the visit appends.
next_place :
    (e : Entry) (at from to : WorkItem) (v : Visit)
    → at ≡ from
    → visit program.code e from ≡ ok v
    → Step program.code at to
    → In to v.work ⊎ (10 ≤ to.ip)
next_place e at from to v same visited step =
    Step-Visited program.code e from to v (visit-Visited program.code e from v visited)
      (subst (λ (k : WorkItem). Step program.code k to) same step)

IsOnMain-step : (at to : WorkItem) → Step program.code at to → IsOnMain at → IsOnMain to
unfolding visit fall_through branch stack_effect decode_at op_of is_return_op
    is_unconditional_branch is_conditional_branch slot_is_bad
IsOnMain-step at to step (inl e) =
    elim (next_place main_entry at (work_item 0 0) to
      (record { new_depth = 0; work = work_item 8 0 ∷ [] }) e refl step) [
        | inl m ↦ inr (inl (In-one to _ m))
        | inr past ↦ inr (inr (inr past))
      ]
IsOnMain-step at to step (inr (inl e)) =
    elim (next_place main_entry at (work_item 8 0) to
      (record { new_depth = 1; work = work_item 9 1 ∷ [] }) e refl step) [
        | inl m ↦ inr (inr (inl (In-one to _ m)))
        | inr past ↦ inr (inr (inr past))
      ]
IsOnMain-step at to step (inr (inr (inl e))) =
    elim (next_place main_entry at (work_item 9 1) to (record { new_depth = 1; work = [] }) e refl
      step) [ inl m ↦ elim m [ ] | inr past ↦ inr (inr (inr past)) ]
IsOnMain-step at to step (inr (inr (inr past))) =
    absurd (omega (arith, Step-lt program.code at to step))

Reach-IsOnMain : (at : WorkItem) → Reach program.code (work_item 0 0) at → IsOnMain at
Reach-IsOnMain at start = inl refl
Reach-IsOnMain to (then_step {at} r step) = IsOnMain-step at to step (Reach-IsOnMain at r)

IsOnMain-depth : (ip d : ℕ) → ip < 10 → IsOnMain (work_item ip d) → d ≡ ip / 9
IsOnMain-depth ip d lt (inl e) =
    omega (arith, ap (λ (k : WorkItem). k.ip) e, ap (λ (k : WorkItem). k.depth) e)
IsOnMain-depth ip d lt (inr (inl e)) =
    omega (arith, ap (λ (k : WorkItem). k.ip) e, ap (λ (k : WorkItem). k.depth) e)
IsOnMain-depth ip d lt (inr (inr (inl e))) =
    omega (arith, ap (λ (k : WorkItem). k.ip) e, ap (λ (k : WorkItem). k.depth) e)
IsOnMain-depth ip d lt (inr (inr (inr past))) = absurd (omega arith)

main-Agrees : Agrees program.code (work_item 0 0)
main-Agrees ip d d' lt r r' =
    IsOnMain-depth ip d lt (Reach-IsOnMain _ r)
    ∙ sym (IsOnMain-depth ip d' lt (Reach-IsOnMain _ r'))

IsOnBody-step : (at to : WorkItem) → Step program.code at to → IsOnBody at → IsOnBody to
unfolding visit fall_through branch stack_effect decode_at op_of is_return_op
    is_unconditional_branch is_conditional_branch slot_is_bad
IsOnBody-step at to step (inl e) =
    elim (next_place (entry_of identity) at (work_item 5 0) to
      (record { new_depth = 1; work = work_item 7 1 ∷ [] }) e refl step) [
        | inl m ↦ inr (inl (In-one to _ m))
        | inr past ↦ inr (inr past)
      ]
IsOnBody-step at to step (inr (inl e)) =
    elim (next_place (entry_of identity) at (work_item 7 1) to (record { new_depth = 0; work = [] })
      e refl step) [ inl m ↦ elim m [ ] | inr past ↦ inr (inr past) ]
IsOnBody-step at to step (inr (inr past)) = absurd (omega (arith, Step-lt program.code at to step))

Reach-IsOnBody : (at : WorkItem) → Reach program.code (work_item 5 0) at → IsOnBody at
Reach-IsOnBody at start = inl refl
Reach-IsOnBody to (then_step {at} r step) = IsOnBody-step at to step (Reach-IsOnBody at r)

IsOnBody-depth : (ip d : ℕ) → ip < 10 → IsOnBody (work_item ip d) → d ≡ ip / 7
IsOnBody-depth ip d lt (inl e) =
    omega (arith, ap (λ (k : WorkItem). k.ip) e, ap (λ (k : WorkItem). k.depth) e)
IsOnBody-depth ip d lt (inr (inl e)) =
    omega (arith, ap (λ (k : WorkItem). k.ip) e, ap (λ (k : WorkItem). k.depth) e)
IsOnBody-depth ip d lt (inr (inr past)) = absurd (omega arith)

body-Agrees : Agrees program.code (work_item 5 0)
body-Agrees ip d d' lt r r' =
    IsOnBody-depth ip d lt (Reach-IsOnBody _ r)
    ∙ sym (IsOnBody-depth ip d' lt (Reach-IsOnBody _ r'))

in_body : Reach program.code (work_item 5 0) (work_item 7 1)
unfolding stack_effect decode_at op_of is_return_op is_unconditional_branch
in_body = then_step start (falls _ _ (record { decoded = refl; moves = refl }) refl refl)

body_row : Chain program.code 0 5
unfolding decode_at op_of
body_row = next _ refl here

verify-main_addresses_example :
    (d : ℕ) × Reach program.code (work_item 0 0) (work_item 9 d)
    × Accepts program.code 1 main_entry 1 (work_item 9 d)
verify-main_addresses_example =
    verify-main_addresses program stamped_identity (work_item 9 1) program_verified to_halt
      (omega arith)

verify-main_depths_example : Accepts program.code 1 main_entry 1 (work_item 9 1)
verify-main_depths_example =
    verify-main_depths program stamped_identity (work_item 9 1) program_verified main-Agrees to_halt
      (omega arith)

verify-functions_example :
    (1 ≤ 65535)
    × Accepts program.code 1 (entry_of (record identity { max_stack = 1 })) 1 (work_item 7 1)
verify-functions_example =
    verify-functions program stamped_identity (record identity { max_stack = 1 }) (work_item 7 1)
      program_verified (inl refl) body_row (omega arith) body-Agrees in_body (omega arith)

verify-Answers_example : verify program ≢ error no_fuel
verify-Answers_example = verify-Answers program
