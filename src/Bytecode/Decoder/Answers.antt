-- ===== src/Bytecode/Decoder/Answers.antt =====
-- The decoder answers for every byte, and every instruction has a byte at least.
use gengo.Prelude.{ℕ, suc, ◌+◌, ◌<◌, ◌≡◌, Option, none, some, leb, arith}
use gengo.Bytecode.Checked.{
  Checked, ok, refuse_if, bytecode_out_of_bounds, Answers, Answers-bind, on_ok,
}
use gengo.Bytecode.Op.{Op, op_of, halt}
use gengo.Bytecode.Decoder.{
  Code, DecodedInstruction, read_u16_at, read_u32_at, plain, with_const, with_target, with_both,
  ahead, back, exit_of_two, decode_op, decoded_if, decode_at,
}

module _ (s : Code) (pos : ℕ) where
  read_u16_at-Answers : Answers (read_u16_at s pos)
  unfolding read_u16_at
  read_u16_at-Answers h = ground arith

  read_u32_at-Answers : Answers (read_u32_at s pos)
  unfolding read_u32_at
  read_u32_at-Answers h = ground arith

module _ (s : Code) (pos : ℕ) (op : Op) where
  plain-Answers : (width : ℕ) → Answers (plain s pos op width)
  unfolding plain
  plain-Answers width h = cc

  with_const-Answers : (width k : ℕ) → Answers (with_const s pos op width k)
  unfolding with_const
  with_const-Answers width k =
      Answers-bind (read_u16_at s (pos + k)) _ (read_u16_at-Answers s (pos + k)) (λ i e h. cc)

  with_target-Answers :
      (width : ℕ) (target : Checked ℕ)
      → Answers target
      → Answers (with_target s pos op width target)
  unfolding with_target
  with_target-Answers width target t = Answers-bind target _ t (λ i e h. cc)

  with_both-Answers :
      (width k : ℕ) (target : Checked ℕ)
      → Answers target
      → Answers (with_both s pos op width k target)
  unfolding with_both
  with_both-Answers width k target t = Answers-bind target _ t (λ j f.
      Answers-bind (read_u16_at s (pos + k)) _ (read_u16_at-Answers s (pos + k)) (λ i e h. cc))

module _ (s : Code) (pos : ℕ) where
  ahead-Answers : (width k : ℕ) → Answers (ahead s pos width k)
  unfolding ahead
  ahead-Answers width k =
      Answers-bind (read_u32_at s (pos + k)) _ (read_u32_at-Answers s (pos + k)) (λ off e h. cc)

  back-Answers : (width k : ℕ) → Answers (back s pos width k)
  unfolding back
  back-Answers width k =
      Answers-bind (read_u32_at s (pos + k)) _ (read_u32_at-Answers s (pos + k))
        (λ off e h. ground arith)

  exit_of_two-Answers : Answers (exit_of_two s pos)
  unfolding exit_of_two
  exit_of_two-Answers =
      Answers-bind (read_u32_at s (pos + 5)) _ (read_u32_at-Answers s (pos + 5)) (λ exit e.
        Answers-bind (read_u32_at s (pos + 9)) _ (read_u32_at-Answers s (pos + 9)) (λ body f h. cc))

ruleset answers = (
  plain-Answers, with_const-Answers, with_target-Answers, with_both-Answers, ahead-Answers,
  back-Answers, exit_of_two-Answers,
)

decode_op-Answers : (s : Code) (pos : ℕ) (op : Op) → Answers (decode_op s pos op)
unfolding decode_op
decode_op-Answers s pos halt = plain-Answers s pos halt 1
decode_op-Answers s pos _ = search answers

decoded_if-Answers : (s : Code) (pos : ℕ) (op : Option Op) → Answers (decoded_if s pos op)
unfolding decoded_if
decoded_if-Answers s pos none h = cc
decoded_if-Answers s pos (some op) h = decode_op-Answers s pos op h

pub decode_at-Answers : (s : Code) (pos : ℕ) → Answers (decode_at s pos)
unfolding decode_at
decode_at-Answers s pos =
    Answers-bind (refuse_if (leb s.code_len pos) bytecode_out_of_bounds) _ (λ h. ground arith)
      (λ _ e. decoded_if-Answers s pos (op_of (s.byte pos)))

-- The instruction that is read, if one is, is not empty.
abbrev IsWide : Checked DecodedInstruction → Type 0
IsWide m = (inst : DecodedInstruction) → m ≡ ok inst → 0 < inst.width

module _ (s : Code) (pos : ℕ) (op : Op) where
  plain-IsWide : (width : ℕ) → IsWide (plain s pos op (suc width))
  unfolding plain
  plain-IsWide width inst h = ground arith

  with_const-IsWide : (width k : ℕ) → IsWide (with_const s pos op (suc width) k)
  unfolding with_const
  with_const-IsWide width k inst h = on_ok (read_u16_at s (pos + k)) _ h λ index e g. ground arith

  with_target-IsWide :
      (width : ℕ) (target : Checked ℕ) → IsWide (with_target s pos op (suc width) target)
  unfolding with_target
  with_target-IsWide width target inst h = on_ok target _ h λ t e g. ground arith

  with_both-IsWide :
      (width k : ℕ) (target : Checked ℕ) → IsWide (with_both s pos op (suc width) k target)
  unfolding with_both
  with_both-IsWide width k target inst h =
      on_ok target _ h λ t e g. on_ok (read_u16_at s (pos + k)) _ g λ index e' g'. ground arith

ruleset wide = (plain-IsWide, with_const-IsWide, with_target-IsWide, with_both-IsWide)

decode_op-IsWide : (s : Code) (pos : ℕ) (op : Op) → IsWide (decode_op s pos op)
unfolding decode_op
decode_op-IsWide s pos halt = plain-IsWide s pos halt 0
decode_op-IsWide s pos _ = search wide

decoded_if-IsWide : (s : Code) (pos : ℕ) (op : Option Op) → IsWide (decoded_if s pos op)
unfolding decoded_if
decoded_if-IsWide s pos none inst h = absurd (cc)
decoded_if-IsWide s pos (some op) inst h = decode_op-IsWide s pos op inst h

pub decode_at-wide :
    (s : Code) (pos : ℕ) (inst : DecodedInstruction) → decode_at s pos ≡ ok inst → 0 < inst.width
unfolding decode_at
decode_at-wide s pos inst h =
    on_ok (refuse_if (leb s.code_len pos) bytecode_out_of_bounds)
      (λ _. decoded_if s pos (op_of (s.byte pos))) h
      λ _ e g. decoded_if-IsWide s pos (op_of (s.byte pos)) inst g
