-- ===== src/Bytecode/Scan/Ends.antt =====
-- The loops over the instructions end: each round moves on by a byte at least.
use gengo.Prelude.{ℕ, zero, suc, ◌+◌, ◌≤◌, inl, inr, List, Bool, true, leb, arith, Bool-cases}
use gengo.Prelude.Updates.{set_elem}
use gengo.Bytecode.Checked.{refuse_if, bad_constant_index, bad_jump_target, Answers, Answers-bind}
use gengo.Bytecode.Decoder.{Code, DecodedInstruction, decode_at}
use gengo.Bytecode.Decoder.Answers.{decode_at-Answers, decode_at-wide}
use gengo.Bytecode.Scan.{check_instruction, is_past, scan, target_is_bad, check_targets}

check_instruction-Answers :
    (s : Code) (count ip : ℕ) (inst : DecodedInstruction)
    → Answers (check_instruction s count ip inst)
unfolding check_instruction
check_instruction-Answers s count ip inst =
    Answers-bind (refuse_if (is_past count inst.const_index) bad_constant_index) _
      (λ h. ground arith) (λ _ e h. ground arith)

pub scan-Answers :
    (fuel : ℕ) (s : Code) (count ip : ℕ) (starts : List Bool)
    → s.code_len ≤ ip + fuel
    → Answers (scan fuel s count ip starts)
unfolding scan
scan-Answers zero s count ip starts enough = λ h. ground arith
scan-Answers (suc less) s count ip starts enough = elim (Bool-cases (leb s.code_len ip)) [
  | inl past ↦ rw past (λ h. cc)
  | inr more ↦ rw more (
      Answers-bind (decode_at s ip) _ (decode_at-Answers s ip) λ inst d.
        Answers-bind (check_instruction s count ip inst) _
          (check_instruction-Answers s count ip inst)
          λ _ c.
            scan-Answers less s count (ip + inst.width) (set_elem starts ip true)
              (omega (arith, decode_at-wide s ip inst d)))
]

pub check_targets-Answers :
    (fuel : ℕ) (s : Code) (starts : List Bool) (ip : ℕ)
    → s.code_len ≤ ip + fuel
    → Answers (check_targets fuel s starts ip)
unfolding check_targets
check_targets-Answers zero s starts ip enough = λ h. ground arith
check_targets-Answers (suc less) s starts ip enough = elim (Bool-cases (leb s.code_len ip)) [
  | inl past ↦ rw past (λ h. cc)
  | inr more ↦ rw more (
      Answers-bind (decode_at s ip) _ (decode_at-Answers s ip) λ inst d.
        Answers-bind (refuse_if (target_is_bad s starts inst.jump_target) bad_jump_target) _
          (λ h. ground arith)
          λ _ c.
            check_targets-Answers less s starts (ip + inst.width)
              (omega (arith, decode_at-wide s ip inst d)))
]
