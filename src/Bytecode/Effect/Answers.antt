-- ===== src/Bytecode/Effect/Answers.antt =====
-- The table of effects answers for every operation.
use gengo.Prelude.{ℕ, arith}
use gengo.Bytecode.Checked.{Answers}
use gengo.Bytecode.Op.{Op, halt}
use gengo.Bytecode.Effect.{stack_effect}

pub stack_effect-Answers : (op : Op) (code : ℕ → ℕ) (ip : ℕ) → Answers (stack_effect op code ip)
unfolding stack_effect
stack_effect-Answers halt code ip h = ground arith
stack_effect-Answers _ code ip h = ground arith
