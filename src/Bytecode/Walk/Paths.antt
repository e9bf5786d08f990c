-- ===== src/Bytecode/Walk/Paths.antt =====
-- The steps that the code allows as the decoder reads it, with the depth of the stack, and what a visit appends of
-- them. The machine has one step more: the second offset of get_local_const_lt_jif_pop_jump, which is not decoded.
use gengo.Prelude.{
  ℕ, ◌+◌, ◌-◌, ◌≤◌, ◌≡◌, ◌⊎◌, inl, inr, refl, sym, List, [], ◌∷◌, ◌++◌, Bool, true, false, not,
  ◌&&◌, ◌||◌, some, ltb, arith, Bool-cases, Option-cases, if◌then◌else◌,
}
use mathlib.Core.Path.{subst}
use gengo.Bytecode.Checked.{ok, on_ok, on_pass, stack_underflow}
use gengo.Bytecode.Decoder.{Code, DecodedInstruction, decode_at}
use gengo.Bytecode.Effect.{Effect, stack_effect}
use gengo.Bytecode.Walk.{
  is_return_op, is_unconditional_branch, is_conditional_branch, slot_is_bad, WorkItem, work_item,
  Visit, Entry, fall_through, to_target, branch, visited, visit,
}

abbrev pub In : {A : Type 0} → A → List A → Type 0
In a [] = ⊥
In a (b ∷ bs) = (a ≡ b) ⊎ In a bs

pub In-append_left : {A : Type 0} (a : A) (xs ys : List A) → In a xs → In a (xs ++ ys)
In-append_left a [] ys m = elim m [ ]
In-append_left a (x ∷ xs) ys (inl e) = inl e
In-append_left a (x ∷ xs) ys (inr m) = inr (In-append_left a xs ys m)

pub In-append_right : {A : Type 0} (a : A) (xs ys : List A) → In a ys → In a (xs ++ ys)
In-append_right a [] ys m = m
In-append_right a (x ∷ xs) ys m = inr (In-append_right a xs ys m)

pub In-append : {A : Type 0} (a : A) (xs ys : List A) → In a (xs ++ ys) → In a xs ⊎ In a ys
In-append a [] ys m = inr m
In-append a (x ∷ xs) ys (inl e) = inl (inl e)
In-append a (x ∷ xs) ys (inr m) = elim (In-append a xs ys m) [ inl l ↦ inl (inr l) | inr r ↦ inr r ]

In-if :
    {A : Type 0} (b : Bool) (a : A) (xs : List A)
    → In a (if b then xs else [])
    → (b ≡ true) × In a xs
In-if true a xs m = (refl, m)
In-if false a xs m = elim m [ ]

pub In-one : {A : Type 0} (a b : A) → In a (b ∷ []) → a ≡ b
In-one a b (inl e) = e
In-one a b (inr m) = elim m [ ]

neither : (b c : Bool) → (not b && not c) ≡ true → (b ≡ false) × (c ≡ false)
neither true c h = absurd (cc)
neither false true h = absurd (cc)
neither false false h = (refl, refl)

-- An instruction at an address with a depth, and what it does to the depth.
pub record Executes (s : Code) (at : WorkItem) (inst : DecodedInstruction) (effect : Effect)
    : Type 0 where
  pub decoded : decode_at s at.ip ≡ ok inst
  pub moves : stack_effect inst.op s.byte at.ip ≡ ok effect

-- Behind an instruction that neither returns nor always jumps comes the next; a branch may go to its target.
pub data Step (s : Code) (at : WorkItem) : WorkItem → Type 0 where
  falls :
      (inst : DecodedInstruction) (effect : Effect)
      → Executes s at inst effect
      → is_return_op inst.op ≡ false
      → is_unconditional_branch inst.op ≡ false
      → Step s at (work_item (at.ip + inst.width) (at.depth - effect.pop + effect.push))
  jumps :
      (inst : DecodedInstruction) (effect : Effect) (target : ℕ)
      → Executes s at inst effect
      → (is_conditional_branch inst.op || is_unconditional_branch inst.op) ≡ true
      → inst.jump_target ≡ some target
      → Step s at (work_item target (at.depth - effect.pop + effect.push))

-- What a path of steps leads to.
pub data Reach (s : Code) (from : WorkItem) : WorkItem → Type 0 where
  start : Reach s from from
  then_step : {at to : WorkItem} → Reach s from at → Step s at to → Reach s from to

-- What is checked of an instruction, entered with a depth.
pub record Checks (s : Code) (e : Entry) (at : WorkItem) (inst : DecodedInstruction)
    (effect : Effect) : Type 0 where
  pub executes : Executes s at inst effect
  pub slot_fits :
      slot_is_bad inst.op (s.byte (at.ip + 1)) (e.local_base + at.depth) e.upvalue_count ≡ false
  pub may_return : (is_return_op inst.op && e.check_ret) ≡ false
  pub enough : effect.pop ≤ at.depth

abbrev pub after : WorkItem → Effect → ℕ
after at effect = at.depth - effect.pop + effect.push

-- A visit that finds nothing wrong.
pub record Visited (s : Code) (e : Entry) (at : WorkItem) (v : Visit) : Type 0 where
  pub inst : DecodedInstruction
  pub effect : Effect
  pub checks : Checks s e at inst effect
  pub same : v ≡ visited s inst at.ip (after at effect)

pub visit-Visited :
    (s : Code) (e : Entry) (at : WorkItem) (v : Visit) → visit s e at ≡ ok v → Visited s e at v
unfolding visit
visit-Visited s e at v h = on_ok _ _ h λ inst d h1. on_pass _ _ _ h1 λ slot h2.
    on_ok _ _ h2 λ effect m h3. on_pass _ _ _ h3 λ returns h4.
      on_pass (ltb at.depth effect.pop) stack_underflow
        (ok (visited s inst at.ip (after at effect))) h4
        λ deep h5. record {
          inst = inst;
          effect = effect;
          checks = record {
            executes = record { decoded = d; moves = m };
            slot_fits = slot;
            may_return = returns;
            enough = ground arith;
          };
          same = cc;
        }

-- What a visit appends are steps, and no step is left out but past the end of the code.
module _ (s : Code) (at : WorkItem) (inst : DecodedInstruction) (effect : Effect)
    (ex : Executes s at inst effect) where
  falls-Step : (to : WorkItem) → In to (fall_through s inst at.ip (after at effect)) → Step s at to
  unfolding fall_through
  falls-Step to m =
      let next = work_item (at.ip + inst.width) (after at effect) in
      let (goes_on, m1) =
        In-if (not (is_return_op inst.op) && not (is_unconditional_branch inst.op)) to
          (if ltb (at.ip + inst.width) s.code_len then next ∷ [] else []) m in
      let (inside, m2) = In-if (ltb (at.ip + inst.width) s.code_len) to (next ∷ []) m1 in
      let (r, u) = neither _ _ goes_on in
      subst (λ (w : WorkItem). Step s at w) (sym (In-one to next m2)) (falls inst effect ex r u)

  jumps-Step : (to : WorkItem) → In to (branch inst (after at effect)) → Step s at to
  unfolding branch
  jumps-Step to m =
      let (b, m1) =
        In-if (is_conditional_branch inst.op || is_unconditional_branch inst.op) to
          (to_target inst.jump_target (after at effect)) m in
      elim (Option-cases inst.jump_target) [
        | inl no_target ↦ absurd (rw no_target at m1)
        | inr (t, e) ↦
            let m2 : In to (work_item t (after at effect) ∷ []) = rw e at m1 in
            subst (λ (w : WorkItem). Step s at w)
              (sym (In-one to (work_item t (after at effect)) m2)) (jumps inst effect t ex b e)
      ]

pub Visited-Step :
    (s : Code) (e : Entry) (at to : WorkItem) (v : Visit)
    → Visited s e at v
    → In to v.work
    → Step s at to
Visited-Step s e at to v d m =
    let m' : In to
        (fall_through s d.inst at.ip (after at d.effect) ++ branch d.inst (after at d.effect)) =
      subst (λ (w : Visit). In to w.work) d.same m in
    elim (In-append to (fall_through s d.inst at.ip (after at d.effect))
      (branch d.inst (after at d.effect)) m') [
        | inl l ↦ falls-Step s at d.inst d.effect d.checks.executes to l
        | inr r ↦ jumps-Step s at d.inst d.effect d.checks.executes to r
      ]

-- The other way: a step leads to what a visit appends, or past the end of the code.
module _ (s : Code) (at : WorkItem) (inst : DecodedInstruction) (effect : Effect) where
  fall_through-In :
      is_return_op inst.op ≡ false
      → is_unconditional_branch inst.op ≡ false
      → In
          (work_item (at.ip + inst.width) (after at effect))
          (fall_through s inst at.ip (after at effect))
        ⊎ (s.code_len ≤ at.ip + inst.width)
  unfolding fall_through
  fall_through-In r u = elim (Bool-cases (ltb (at.ip + inst.width) s.code_len)) [
    | inl inside ↦ inl (rw (r, u, inside) (inl refl))
    | inr past ↦ inr (ground arith)
  ]

  branch-In :
      (t : ℕ)
      → (is_conditional_branch inst.op || is_unconditional_branch inst.op) ≡ true
      → inst.jump_target ≡ some t
      → In (work_item t (after at effect)) (branch inst (after at effect))
  unfolding branch
  branch-In t b e = rw (b, e) (inl refl)

pub Executes-same :
    {s : Code} {at : WorkItem} {inst other : DecodedInstruction} {effect further : Effect}
    → Executes s at inst effect
    → Executes s at other further
    → (inst ≡ other) × (effect ≡ further)
Executes-same {s} {at} {inst} {other} {effect} {further} x y =
    let same : inst ≡ other = cc in
    let moved : stack_effect inst.op s.byte at.ip ≡ ok further =
      subst (λ (i : DecodedInstruction). stack_effect i.op s.byte at.ip ≡ ok further) (sym same)
        y.moves in
    (same, cc)

Step-visited :
    (s : Code) (at to : WorkItem) (inst : DecodedInstruction) (effect : Effect)
    → Executes s at inst effect
    → Step s at to
    → In to (visited s inst at.ip (after at effect)).work ⊎ (s.code_len ≤ to.ip)
Step-visited s at to inst effect ex (falls other further x r u) =
    let (e, f) = Executes-same x ex in
    let next = work_item (at.ip + other.width) (after at further) in
    rw (← e, ← f)
      (elim (fall_through-In s at other further r u) [
        | inl m ↦ inl (
            In-append_left next (fall_through s other at.ip (after at further))
              (branch other (after at further)) m)
        | inr past ↦ inr past
      ])
Step-visited s at to inst effect ex (jumps other further t x b j) =
    let (e, f) = Executes-same x ex in
    rw (← e, ← f)
      (inl (
        In-append_right (work_item t (after at further))
          (fall_through s other at.ip (after at further)) (branch other (after at further))
          (branch-In s at other further t b j)))

pub Step-Visited :
    (s : Code) (e : Entry) (at to : WorkItem) (v : Visit)
    → Visited s e at v
    → Step s at to
    → In to v.work ⊎ (s.code_len ≤ to.ip)
Step-Visited s e at to v d step =
    elim (Step-visited s at to d.inst d.effect d.checks.executes step) [
      | inl m ↦ inl (subst (λ (w : Visit). In to w.work) (sym d.same) m)
      | inr past ↦ inr past
    ]
