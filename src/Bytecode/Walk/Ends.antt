-- ===== src/Bytecode/Walk/Ends.antt =====
-- The walk ends: an address is entered once, and appends two items at most.
use gengo.Prelude.{
  ℕ, zero, suc, ◌+◌, ◌*◌, ◌≤◌, ◌<◌, ◌≡◌, inl, inr, refl, ap, ◌∙◌, List, [], ◌∷◌, ◌++◌, Bool, true,
  ◌&&◌, Option, none, some, arith, Bool-cases, length, length-append, length-replicate, replicate,
}
use gengo.Prelude.Updates.{set_elem, length-set_elem}
use gengo.Bytecode.Checked.{
  ok, refuse_if, invalid_bytecode, return_at_top_level, Answers, Answers-bind,
}
use gengo.Bytecode.Decoder.{Code, DecodedInstruction, decode_at}
use gengo.Bytecode.Decoder.Answers.{decode_at-Answers}
use gengo.Bytecode.Effect.{stack_effect}
use gengo.Bytecode.Effect.Answers.{stack_effect-Answers}
use gengo.Bytecode.Walk.{
  is_return_op, slot_is_bad, WorkItem, work_item, Visit, Entry, fall_through, to_target, branch,
  visit, depth_at, is_none, is_new, larger, walk, walk_fuel, run,
}
use gengo.Bytecode.Walk.Paths.{after, visit-Visited}

visit-Answers : (s : Code) (e : Entry) (at : WorkItem) → Answers (visit s e at)
unfolding visit
visit-Answers s e at = Answers-bind (decode_at s at.ip) _ (decode_at-Answers s at.ip) λ inst d.
    Answers-bind
      (refuse_if
        (slot_is_bad inst.op (s.byte (at.ip + 1)) (e.local_base + at.depth) e.upvalue_count)
        invalid_bytecode)
      _ (λ h. ground arith)
      λ _ slot.
        Answers-bind (stack_effect inst.op s.byte at.ip) _
          (stack_effect-Answers inst.op s.byte at.ip)
          λ effect m.
            Answers-bind (refuse_if (is_return_op inst.op && e.check_ret) return_at_top_level) _
              (λ h. ground arith) λ _ returns h. ground arith

-- A visit appends two items at most.
length-fall_through :
    (s : Code) (inst : DecodedInstruction) (ip d : ℕ) → length (fall_through s inst ip d) ≤ 1
unfolding fall_through
length-fall_through s inst ip d = ground arith

length-to_target : (t : Option ℕ) (d : ℕ) → length (to_target t d) ≤ 1
length-to_target none d = omega arith
length-to_target (some t) d = omega arith

length-branch : (inst : DecodedInstruction) (d : ℕ) → length (branch inst d) ≤ 1
unfolding branch
length-branch inst d = ground (arith, length-to_target inst.jump_target d)

visit-length :
    (s : Code) (e : Entry) (at : WorkItem) (v : Visit) → visit s e at ≡ ok v → length v.work ≤ 2
visit-length s e at v h =
    let d = visit-Visited s e at v h in
    let depth = after at d.effect in
    omega (
      arith,
      ap (λ (w : Visit). length w.work) d.same,
      length-append {0} (fall_through s d.inst at.ip depth) (branch d.inst depth),
      length-fall_through s d.inst at.ip depth,
      length-branch d.inst depth,
    )

-- The addresses that were not met.
abbrev unmet : List (Option ℕ) → ℕ
unmet [] = 0
unmet (none ∷ depths) = suc (unmet depths)
unmet (some d ∷ depths) = unmet depths

unmet-set_elem :
    (depths : List (Option ℕ)) (i d : ℕ)
    → i < length depths
    → is_none (depth_at depths i) ≡ true
    → unmet depths ≡ suc (unmet (set_elem depths i (some d)))
unmet-set_elem [] i d lt h = absurd (omega arith)
unmet-set_elem (none ∷ depths) zero d lt h = refl
unmet-set_elem (some x ∷ depths) zero d lt h = absurd (cc)
unmet-set_elem (none ∷ depths) (suc i) d lt h = ground (arith, unmet-set_elem depths i d)
unmet-set_elem (some x ∷ depths) (suc i) d lt h = unmet-set_elem depths i d (omega arith) h

unmet-replicate : (n : ℕ) → unmet (replicate n none) ≡ n
unmet-replicate zero = refl
unmet-replicate (suc n) = omega (arith, unmet-replicate n)

is_new-unmet :
    (s : Code) (starts : List Bool) (depths : List (Option ℕ)) (i d : ℕ)
    → length depths ≡ s.code_len
    → is_new s starts depths i ≡ true
    → unmet depths ≡ suc (unmet (set_elem depths i (some d)))
unfolding is_new
is_new-unmet s starts depths i d len new = unmet-set_elem depths i d (ground arith) (ground arith)

-- With a round for each item and two for each address that was not met, the walk is not cut off.
walk-Answers :
    (fuel : ℕ) (s : Code) (starts : List Bool) (e : Entry) (work : List WorkItem)
    (depths : List (Option ℕ)) (max : ℕ)
    → length depths ≡ s.code_len
    → length work + 2 * unmet depths ≤ fuel
    → Answers (walk fuel s starts e work depths max)
unfolding walk
walk-Answers zero s starts e [] depths max len enough = λ h. cc
walk-Answers (suc less) s starts e [] depths max len enough = λ h. cc
walk-Answers zero s starts e (at ∷ rest) depths max len enough = absurd (omega arith)
walk-Answers (suc less) s starts e (at ∷ rest) depths max len enough =
    elim (Bool-cases (is_new s starts depths at.ip)) [
      | inl new ↦ rw new (
          Answers-bind (visit s e at) _ (visit-Answers s e at) λ v visited.
            walk-Answers less s starts e (rest ++ v.work) (set_elem depths at.ip (some at.depth))
              (larger max v.new_depth) (length-set_elem depths at.ip (some at.depth) ∙ len)
              (omega (
                arith,
                length-append {0} rest v.work,
                visit-length s e at v visited,
                is_new-unmet s starts depths at.ip at.depth len new,
              )))
      | inr old ↦ rw old (walk-Answers less s starts e rest depths max len (omega arith))
    ]

pub run-Answers : (s : Code) (starts : List Bool) (e : Entry) → Answers (run s starts e)
unfolding run
run-Answers s starts e =
    walk-Answers (walk_fuel s) s starts e (work_item e.entry_ip 0 ∷ []) (replicate s.code_len none)
      0 (length-replicate s.code_len none) (omega (arith, unmet-replicate s.code_len))
