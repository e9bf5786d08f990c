-- ===== src/Bytecode/Verifier/Sound.antt =====
-- What bytecode that is accepted does on every path.
use mathlib.Core.Path.{subst}
use gengo.Prelude.{
  ℕ, ◌+◌, ◌≤◌, ◌<◌, ◌≡◌, inl, inr, refl, ap, List, Bool, true, false, Option, some, leb, arith,
  Bool-cases, Option-cases,
}
use gengo.Bytecode.Checked.{ok}
use gengo.Bytecode.Decoder.{Code, DecodedInstruction, decode_at}
use gengo.Bytecode.Effect.{Effect}
use gengo.Bytecode.Scan.{has, check_instruction}
use gengo.Bytecode.Scan.Starts.{IsMarked}
use gengo.Bytecode.Walk.{WorkItem, work_item, Visit, Entry, depth_at, is_new, run}
use gengo.Bytecode.Walk.Paths.{
  Step, falls, jumps, Reach, start, then_step, Checks, after, visit-Visited, Step-Visited,
}
use gengo.Bytecode.Walk.Closed.{Closed, run-Closed}

-- An instruction that was checked, entered with a depth of the stack: the constant index and the slot are in range
-- where they are checked, the stack holds what it pops, and what it leaves is within the bound.
pub record Accepts (s : Code) (count : ℕ) (e : Entry) (bound : ℕ) (at : WorkItem) : Type 0 where
  pub inst : DecodedInstruction
  pub effect : Effect
  pub checks : Checks s e at inst effect
  pub operands : check_instruction s count at.ip inst ≡ ok tt
  pub within : after at effect ≤ bound

-- Paths that meet inside the code have the same depth.
abbrev pub Agrees : Code → WorkItem → Type 0
Agrees s from =
    (ip d d' : ℕ)
    → ip < s.code_len
    → Reach s from (work_item ip d)
    → Reach s from (work_item ip d')
    → d ≡ d'

decode_at-lt :
    (s : Code) (ip : ℕ) (inst : DecodedInstruction) → decode_at s ip ≡ ok inst → ip < s.code_len
unfolding decode_at
decode_at-lt s ip inst d = elim (Bool-cases (leb s.code_len ip)) [
  | inl past ↦ absurd (cc (rw past at d))
  | inr inside ↦ ground arith
]

-- What a step does to the address does not hang on the depth.
Step-at :
    (s : Code) (at to : WorkItem) (d : ℕ)
    → Step s at to
    → (next : WorkItem) × Step s (work_item at.ip d) next × (next.ip ≡ to.ip)
Step-at s at to d (falls inst effect x r u) = (
  work_item (at.ip + inst.width) (after (work_item at.ip d) effect),
  falls inst effect (record { decoded = x.decoded; moves = x.moves }) r u,
  refl,
)
Step-at s at to d (jumps inst effect t x b j) = (
  work_item t (after (work_item at.ip d) effect),
  jumps inst effect t (record { decoded = x.decoded; moves = x.moves }) b j,
  refl,
)

pub Step-lt : (s : Code) (at to : WorkItem) → Step s at to → at.ip < s.code_len
Step-lt s at to (falls inst effect x r u) = decode_at-lt s at.ip inst x.decoded
Step-lt s at to (jumps inst effect t x b j) = decode_at-lt s at.ip inst x.decoded

module _ (s : Code) (count : ℕ) (starts : List Bool) (marked : IsMarked s count starts) where
  Step-marked :
      (at to : WorkItem)
      → Step s at to
      → has starts at.ip ≡ true
      → to.ip < s.code_len
      → has starts to.ip ≡ true
  Step-marked at to (falls inst effect x r u) m lt = marked.following at.ip m inst x.decoded lt
  Step-marked at to (jumps inst effect t x b j) m lt =
      (marked.target at.ip t m (decode_at-lt s at.ip inst x.decoded) inst x.decoded j).1

  Reach-marked :
      (from at : WorkItem)
      → has starts from.ip ≡ true
      → Reach s from at
      → at.ip < s.code_len
      → has starts at.ip ≡ true
  Reach-marked from at m start lt = m
  Reach-marked from to m (then_step {at} r step) lt =
      Step-marked at to step (Reach-marked from at m r (Step-lt s at to step)) lt

  is_new_past :
      (final : List (Option ℕ)) (ip : ℕ) → s.code_len ≤ ip → is_new s starts final ip ≡ false
  unfolding is_new
  is_new_past final ip h = ground arith

  entered_depth :
      (final : List (Option ℕ)) (ip : ℕ)
      → is_new s starts final ip ≡ false
      → ip < s.code_len
      → has starts ip ≡ true
      → (d : ℕ) × (depth_at final ip ≡ some d)
  unfolding is_new
  entered_depth final ip old lt m = elim (Option-cases (depth_at final ip)) [
    | inl missing ↦ absurd (ground arith)
    | inr found ↦ found
  ]

  module _ (e : Entry) (final : List (Option ℕ)) (bound : ℕ)
      (closed : Closed s starts e (work_item e.entry_ip 0) final bound)
      (at_mark : has starts e.entry_ip ≡ true)
      (seen : is_new s starts final e.entry_ip ≡ false) where
    Reach-seen :
        (at : WorkItem) → Reach s (work_item e.entry_ip 0) at → is_new s starts final at.ip ≡ false
    Reach-seen at start = seen
    Reach-seen to (then_step {at} r step) =
        let lt = Step-lt s at to step in
        let m = Reach-marked (work_item e.entry_ip 0) at at_mark r lt in
        let (d, found) = entered_depth final at.ip (Reach-seen at r) lt m in
        let (v, visited, low, todo) = closed.entered at.ip d found in
        let (next, step', same) = Step-at s at to d step in
        elim (Step-Visited s e (work_item at.ip d) next v
          (visit-Visited s e (work_item at.ip d) v visited) step') [
            | inl appended ↦
                subst (λ (ip : ℕ). is_new s starts final ip ≡ false) same (todo next appended)
            | inr past ↦ is_new_past final to.ip (omega (arith, same))
          ]

    -- Each address on a path was accepted, with a depth with which a path comes to it.
    Reach-Accepts :
        (at : WorkItem)
        → Reach s (work_item e.entry_ip 0) at
        → at.ip < s.code_len
        → (d : ℕ) × Reach s (work_item e.entry_ip 0) (work_item at.ip d)
          × Accepts s count e bound (work_item at.ip d)
    Reach-Accepts at r lt =
        let m = Reach-marked (work_item e.entry_ip 0) at at_mark r lt in
        let (d, found) = entered_depth final at.ip (Reach-seen at r) lt m in
        let (v, visited, low, todo) = closed.entered at.ip d found in
        let done = visit-Visited s e (work_item at.ip d) v visited in
        let (inst, decoded, operands) = marked.checked at.ip m lt in
        let same : inst ≡ done.inst = cc done.checks.executes.decoded in
        (
          d,
          closed.reached at.ip d found,
          record {
            inst = done.inst;
            effect = done.effect;
            checks = done.checks;
            operands =
                subst (λ (i : DecodedInstruction). check_instruction s count at.ip i ≡ ok tt) same
                  operands;
            within = omega (arith, ap (λ (w : Visit). w.new_depth) done.same);
          },
        )

-- What a run says of every path from its entry.
abbrev pub RunsSafely : Code → ℕ → Entry → ℕ → Type 0
RunsSafely s count e bound =
    (at : WorkItem)
    → Reach s (work_item e.entry_ip 0) at
    → at.ip < s.code_len
    → ((d : ℕ) × Reach s (work_item e.entry_ip 0) (work_item at.ip d)
        × Accepts s count e bound (work_item at.ip d))
      × (Agrees s (work_item e.entry_ip 0) → Accepts s count e bound at)

pub run-RunsSafely :
    (s : Code) (count : ℕ) (starts : List Bool) (e : Entry) (bound : ℕ)
    → IsMarked s count starts
    → has starts e.entry_ip ≡ true
    → run s starts e ≡ ok bound
    → RunsSafely s count e bound
run-RunsSafely s count starts e bound marked at_mark h at r lt =
    let (final, closed, seen) = run-Closed s starts e bound h in
    let (d, r', accepts) =
      Reach-Accepts s count starts marked e final bound closed at_mark seen at r lt in
    (
      (d, r', accepts),
      λ agrees.
          let same = agrees at.ip d at.depth lt r' r in
          subst (λ (k : ℕ). Accepts s count e bound (work_item at.ip k)) same accepts,
    )
