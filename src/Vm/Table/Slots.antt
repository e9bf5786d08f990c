-- ===== src/Vm/Table/Slots.antt =====
-- The buckets by themselves: the walk over the slots of a table whose size is a power of two, the
-- count of occupied buckets, and the size `map_buckets_for_count` chooses.
use gengo.Prelude.{
  ℕ, zero, suc, ◌+◌, ◌-◌, ◌*◌, ◌%◌, ◌^◌, ◌≤◌, ◌<◌, bit_and, arith, ◌≡◌, refl, sym, ◌∙◌, ap,
}
use gengo.Prelude.{inl, inr, [], ◌∷◌, none, some}
use gengo.Prelude.{length, get_elem?, replicate, ltb, leb, if◌then◌else◌, Bool-cases, leb→le}
use native.Mathlib.Nat.{mod-add-mod, mod-eq_of_lt, add-mod_right}
use gengo.Prelude.Masks.{bit_and_mask, two_pow, two_pow_pos}
use gengo.Prelude.Updates.{set_elem}
use gengo.Vm.Table.{Buckets, double_until, map_buckets_for_count}

-- (idx + 1) & mask, of a table of `nb` buckets
abbrev pub slot_after : ℕ → ℕ → ℕ
slot_after nb idx = bit_and (idx + 1) (nb - 1)

-- The slot that `d` steps reach.
abbrev pub walk : ℕ → ℕ → ℕ → ℕ
walk nb zero idx = idx
walk nb (suc d) idx = walk nb d (slot_after nb idx)

masked-lt : (k x : ℕ) → bit_and x (2 ^ k - 1) < 2 ^ k
masked-lt k x = omega (arith, bit_and_mask k x, two_pow_pos k)

walk-mod : (k d idx : ℕ) → idx < 2 ^ k → walk (2 ^ k) d idx ≡ (idx + d) % 2 ^ k
walk-mod k zero idx h = let e : idx + 0 ≡ idx = omega arith in rw e (sym (mod-eq_of_lt h))
walk-mod k (suc d) idx h =
    walk-mod k d (slot_after (2 ^ k) idx) (masked-lt k (idx + 1))
    ∙ ap (λ y. (y + d) % 2 ^ k) (bit_and_mask k (idx + 1))
    ∙ mod-add-mod (idx + 1) (2 ^ k) d
    ∙ ap (λ y. y % 2 ^ k) (omega arith)

-- Every slot is reached in fewer steps than there are slots.
walk_reaches :
    (k idx t : ℕ) → idx < 2 ^ k → t < 2 ^ k → (d : ℕ) × (d < 2 ^ k) × (walk (2 ^ k) d idx ≡ t)
walk_reaches k idx t h lt = elim (Bool-cases (leb idx t)) [
  | inl e ↦ (t - idx, omega arith, walk-mod k (t - idx) idx h ∙ wrapped (leb→le idx t e))
  | inr e ↦ (
    t + 2 ^ k - idx,
    ground arith,
    walk-mod k (t + 2 ^ k - idx) idx h ∙ wrapped_once (ground arith),
  )
]
  where
    wrapped : idx ≤ t → (idx + (t - idx)) % 2 ^ k ≡ t
    wrapped le = ap (λ y. y % 2 ^ k) (omega arith) ∙ mod-eq_of_lt lt

    wrapped_once : t < idx → (idx + (t + 2 ^ k - idx)) % 2 ^ k ≡ t
    wrapped_once gt = ap (λ y. y % 2 ^ k) around ∙ add-mod_right t (2 ^ k) ∙ mod-eq_of_lt lt
      where
        around : idx + (t + 2 ^ k - idx) ≡ t + 2 ^ k
        around = omega arith

-- Buckets that hold an index.
unfoldable pub occupied : Buckets → ℕ
occupied [] = 0
occupied (none ∷ bs) = occupied bs
occupied (some j ∷ bs) = suc (occupied bs)

pub occupied-set_elem :
    (bs : Buckets) (t j : ℕ)
    → get_elem? bs t ≡ some none
    → occupied (set_elem bs t (some j)) ≡ suc (occupied bs)
unfolding occupied
occupied-set_elem [] t j h = absurd (ground arith)
occupied-set_elem (none ∷ bs) zero j h = refl
occupied-set_elem (some x ∷ bs) zero j h = absurd (ground arith)
occupied-set_elem (none ∷ bs) (suc t) j h = occupied-set_elem bs t j h
occupied-set_elem (some x ∷ bs) (suc t) j h = ap suc (occupied-set_elem bs t j h)

pub occupied-replicate : (n : ℕ) → occupied (replicate n none) ≡ 0
unfolding occupied
occupied-replicate zero = refl
occupied-replicate (suc n) = occupied-replicate n

-- A table that is not full has a free bucket.
pub free_slot :
    (bs : Buckets)
    → occupied bs < length bs
    → (t : ℕ) × (t < length bs) × (get_elem? bs t ≡ some none)
unfolding occupied
free_slot [] h = absurd (omega arith)
free_slot (none ∷ bs) h = (0, omega arith, refl)
free_slot (some j ∷ bs) h =
    let (t, lt, free) = free_slot bs (omega arith) in (suc t, omega arith, free)

double_until_lem :
    (fuel n k : ℕ)
    → n ≤ 2 ^ k + fuel
    → (j : ℕ) × (double_until fuel n (2 ^ k) ≡ 2 ^ j) × (n ≤ 2 ^ j) × (k ≤ j)
unfolding double_until
double_until_lem zero n k h = (k, refl, omega arith, omega arith)
double_until_lem (suc fuel) n k h = elim (Bool-cases (ltb (2 ^ k) n)) [
  | inl e ↦
      let doubled : 2 ^ k * 2 ≡ 2 ^ suc k = omega (arith, two_pow k) in
      let (j, same, enough, up) =
        double_until_lem fuel n (suc k) (omega (arith, two_pow k, two_pow_pos k)) in
      (j, rw (e, doubled) same, enough, omega arith)
  | inr e ↦ (k, rw e refl, ground arith, omega arith)
]

-- The loop ends with a power of two of buckets, at least twice as many as entries and at least 8.
pub map_buckets_for_count_lem :
    (n : ℕ)
    → (k : ℕ) × (map_buckets_for_count n ≡ 2 ^ k)
      × (2 * n ≤ map_buckets_for_count n)
      × (8 ≤ map_buckets_for_count n)
unfolding map_buckets_for_count
map_buckets_for_count_lem n =
    let m = if ltb n 4 then 8 else n * 2 in
    let (k, same, enough, up) = double_until_lem m m 0 (omega arith) in
    (k, same, rw same (ground arith), rw same (ground arith))

-- The same for a number of buckets that is known to be a power of two.
pub masked_in : (nb k x : ℕ) → nb ≡ 2 ^ k → bit_and x (nb - 1) < nb
masked_in nb k x e = rw e (masked-lt k x)

pub walk_reaches_in :
    (nb k idx t : ℕ) → nb ≡ 2 ^ k → idx < nb → t < nb → (d : ℕ) × (d < nb) × (walk nb d idx ≡ t)
walk_reaches_in nb k idx t e h lt = rw e (walk_reaches k idx t (rw e at h) (rw e at lt))
