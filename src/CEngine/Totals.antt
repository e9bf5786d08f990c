-- ===== src/CEngine/Totals.antt =====
-- The sum over the entries of a map.
use gengo.Prelude.{
  if◌then◌else◌, ℕ, ◌+◌, ◌*◌, ◌%◌, ◌^◌, ◌≡◌, ◌≤◌, refl, List, [], ◌∷◌, some, arith, length,
}
use gengo.Wire.{Memory, Floats, gengo_wire_int, gengo_wire_map, gengo_wire_map_len}
use gengo.Wire.Numbers.{scalar_round_trip}
use gengo.Wire.Containers.{slot, gengo_wire_map_at-gengo_wire_map}
use gengo.Prelude.Text.{codes}
use gengo.Engine.{Engine, ints, success, Outcome, run_ok}
use gengo.CEngine.{
  total_loop, map_total, is_expected, composite_source, composite_main, run_then, call_then,
  exit_code, printed, unexpected,
}

-- The values of the entries from the one at index `i` of the map at `pairs` on.
abbrev pub HoldsValues : Memory → ℕ → ℕ → List ℕ → Type 0
HoldsValues m pairs i [] = Unit {0}
HoldsValues m pairs i (x ∷ xs) =
    (m.wire (slot pairs (2 * i + 1)) ≡ gengo_wire_int x) × HoldsValues m pairs (i + 1) xs

abbrev pub sum_64 : ℕ → List ℕ → ℕ
sum_64 total [] = total
sum_64 total (x ∷ xs) = sum_64 ((total + x) % 2 ^ 64) xs

total_loop_lem :
    (fl : Floats) (m : Memory) (pairs count i total : ℕ) (xs : List ℕ)
    → HoldsValues m pairs i xs
    → i + length xs ≡ count
    → count ≤ 2 ^ 31
    → total_loop fl m (gengo_wire_map pairs count) (length xs) i total ≡ some (sum_64 total xs)
unfolding total_loop
total_loop_lem fl m pairs count i total [] h e fits = refl
total_loop_lem fl m pairs count i total (x ∷ xs) h e fits =
    let found = (gengo_wire_map_at-gengo_wire_map pairs count i fits).0 (omega arith) in
    let value = (scalar_round_trip fl x x).1 in
    rw (found.1, h.0, value)
      (total_loop_lem fl m pairs count (i + 1) ((total + x) % 2 ^ 64) xs h.1 (omega arith) fits)

-- On a map that `gengo_wire_map` builds over entries whose values are the integers `xs`, at most
-- 2 ^ 31 of them, the loop of composite.c reads every entry, no NULL among them, and its total is
-- the sum of `xs` in 64 bits.
pub map_total-gengo_wire_map :
    (fl : Floats) (m : Memory) (pairs : ℕ) (xs : List ℕ)
    → HoldsValues m pairs 0 xs
    → length xs ≤ 2 ^ 31
    → map_total fl m (gengo_wire_map pairs (length xs)) ≡ some (sum_64 0 xs)
unfolding map_total gengo_wire_map_len gengo_wire_map
map_total-gengo_wire_map fl m pairs xs h fits =
    total_loop_lem fl m pairs (length xs) 0 0 xs h (omega arith) fits

two_entries :
    (pairs : ℕ)
    → exit_code
        (if is_expected (gengo_wire_map pairs 2) (some 3) then printed (codes "ok") else unexpected)
      ≡ 0
unfolding is_expected exit_code gengo_wire_map gengo_wire_map_len
two_entries pairs = refl

module _ (g : Engine) where
  abbrev pub ran : g.State → g.State
  ran st = (g.run st composite_source).0

  abbrev pub summed : g.State → g.State × Outcome
  summed st = g.call (ran st) (codes "sum") (ints (1 ∷ 2 ∷ 3 ∷ 4 ∷ []) ∷ [])

  abbrev pub mapped : g.State → g.State × Outcome
  mapped st = g.call (summed st).0 (codes "make_map") []

  -- composite.c ends well on an engine that runs its script, answers 10 as the sum of 1 to 4, and
  -- answers a map of two entries with the values 1 and 2, wherever the map stands in memory.
  pub composite_main-ok :
      (fl : Floats) (st : g.State) (pairs : ℕ)
      → (g.run st composite_source).1 ≡ run_ok
      → (summed st).1.code ≡ success
      → (summed st).1.out ≡ gengo_wire_int 10
      → (mapped st).1.code ≡ success
      → (mapped st).1.out ≡ gengo_wire_map pairs 2
      → HoldsValues (mapped st).1.memory pairs 0 (1 ∷ 2 ∷ [])
      → exit_code (composite_main g fl (some st)) ≡ 0
  unfolding composite_main run_then call_then exit_code
  composite_main-ok fl st pairs run sum_code sum_out map_code map_out h =
      let total =
        map_total-gengo_wire_map fl (mapped st).1.memory pairs (1 ∷ 2 ∷ []) h (omega arith) in
      let ten = (scalar_round_trip fl 10 0).1 in
      rw (run, sum_code, sum_out, ten, map_code, map_out, total) (two_entries pairs)
