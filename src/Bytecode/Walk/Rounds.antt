-- ===== src/Bytecode/Walk/Rounds.antt =====
-- The rounds of the walk as a relation, which a walk that finds nothing wrong goes through.
use gengo.Prelude.{
  ℕ, zero, suc, ◌≡◌, inl, inr, List, [], ◌∷◌, ◌++◌, Bool, true, false, Option, some, Bool-cases,
}
use gengo.Prelude.Updates.{set_elem}
use gengo.Bytecode.Checked.{ok, on_ok}
use gengo.Bytecode.Decoder.{Code}
use gengo.Bytecode.Walk.{WorkItem, Visit, Entry, visit, is_new, larger, walk}

-- The rounds of the loop.
pub data Walks (s : Code) (starts : List Bool) (e : Entry)
    : List WorkItem → List (Option ℕ) → ℕ → ℕ → Type 0 where
  ends :
      {depths : List (Option ℕ)} {max result : ℕ}
      → max ≡ result
      → Walks s starts e [] depths max result
  skips :
      {at : WorkItem} {rest : List WorkItem} {depths : List (Option ℕ)} {max result : ℕ}
      → is_new s starts depths at.ip ≡ false
      → Walks s starts e rest depths max result
      → Walks s starts e (at ∷ rest) depths max result
  enters :
      {at : WorkItem} {rest : List WorkItem} {depths : List (Option ℕ)} {max result : ℕ} (v : Visit)
      → is_new s starts depths at.ip ≡ true
      → visit s e at ≡ ok v
      → Walks s starts e
          (rest ++ v.work)
          (set_elem depths at.ip (some at.depth))
          (larger max v.new_depth)
          result
      → Walks s starts e (at ∷ rest) depths max result

pub walk-Walks :
    (fuel : ℕ) (s : Code) (starts : List Bool) (e : Entry) (work : List WorkItem)
    (depths : List (Option ℕ)) (max result : ℕ)
    → walk fuel s starts e work depths max ≡ ok result
    → Walks s starts e work depths max result
unfolding walk
walk-Walks zero s starts e [] depths max result h = ends (cc)
walk-Walks (suc fuel) s starts e [] depths max result h = ends (cc)
walk-Walks zero s starts e (at ∷ rest) depths max result h = absurd (cc)
walk-Walks (suc fuel) s starts e (at ∷ rest) depths max result h =
    elim (Bool-cases (is_new s starts depths at.ip)) [
      | inl new ↦
          on_ok (visit s e at)
            (λ (v : Visit).
              walk fuel s starts e (rest ++ v.work) (set_elem depths at.ip (some at.depth))
                (larger max v.new_depth))
            (rw new at h)
            λ v visited h1. enters v new visited (
              walk-Walks fuel s starts e (rest ++ v.work) (set_elem depths at.ip (some at.depth))
                (larger max v.new_depth) result h1)
      | inr old ↦ skips old (walk-Walks fuel s starts e rest depths max result (rw old at h))
    ]
