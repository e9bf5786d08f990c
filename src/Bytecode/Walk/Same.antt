-- ===== src/Bytecode/Walk/Same.antt =====
-- The depth that a walk finds hangs on its entry address alone: the other parameters decide only what is refused.
use mathlib.Core.Path.{subst}
use gengo.Prelude.{ℕ, ◌≡◌, sym, ◌∙◌, List, [], ◌∷◌, ◌++◌, Bool, Option, none, some, replicate}
use gengo.Prelude.Updates.{set_elem}
use gengo.Bytecode.Checked.{ok}
use gengo.Bytecode.Decoder.{Code}
use gengo.Bytecode.Walk.{
  WorkItem, work_item, Visit, visited, Entry, visit, larger, walk_fuel, walk, run,
}
use gengo.Bytecode.Walk.Paths.{Executes-same, after, visit-Visited}
use gengo.Bytecode.Walk.Rounds.{Walks, ends, skips, enters, walk-Walks}

module _ (s : Code) (starts : List Bool) (e other : Entry) where
  visit-same : (at : WorkItem) (v w : Visit) → visit s e at ≡ ok v → visit s other at ≡ ok w → w ≡ v
  visit-same at v w hv hw =
      let x = visit-Visited s e at v hv in
      let y = visit-Visited s other at w hw in
      let (i, f) = Executes-same y.checks.executes x.checks.executes in
      y.same ∙ (λ k. visited s (i k) at.ip (after at (f k))) ∙ sym x.same

  Walks-same :
      {work : List WorkItem} {depths : List (Option ℕ)} {max m n : ℕ}
      → Walks s starts e work depths max m
      → Walks s starts other work depths max n
      → m ≡ n
  Walks-same (ends p) (ends q) = sym p ∙ q
  Walks-same (skips old x) (skips _ y) = Walks-same x y
  Walks-same (skips old x) (enters v new h y) = absurd (cc)
  Walks-same (enters v new h x) (skips old y) = absurd (cc)
  Walks-same (enters {at} {rest} {depths} {max} v new h x) (enters {result = n} w _ g y) =
      let same = visit-same at v w h g in
      Walks-same x (
        subst
          (λ (u : Visit).
            Walks s starts other (rest ++ u.work) (set_elem depths at.ip (some at.depth))
              (larger max u.new_depth) n)
          same y)

  pub run-same :
      (m n : ℕ)
      → e.entry_ip ≡ other.entry_ip
      → run s starts e ≡ ok m
      → run s starts other ≡ ok n
      → m ≡ n
  unfolding run
  run-same m n same h g =
      let empty = replicate s.code_len none in
      let g' : walk (walk_fuel s) s starts other (work_item e.entry_ip 0 ∷ []) empty 0 ≡ ok n =
        rw same g in
      Walks-same (walk-Walks (walk_fuel s) s starts e (work_item e.entry_ip 0 ∷ []) empty 0 m h)
        (walk-Walks (walk_fuel s) s starts other (work_item e.entry_ip 0 ∷ []) empty 0 n g')
