-- ===== src/Vm/Map/Delete.antt =====
-- The deletion by `swap_remove`: the last entry takes the place of the deleted one.
use gengo.Prelude.{ℕ, suc, ◌-◌, ◌<◌, arith, ◌≡◌, ◌≢◌, sym, ◌∙◌, ap}
use gengo.Prelude.{true, false, ◌⊎◌, inl, inr, List, none, some}
use gengo.Prelude.{length, get_elem?, take, ◌==◌, if◌then◌else◌, Bool-cases, length-take}
use gengo.Prelude.Updates.{
  set_elem, length-set_elem, get_elem?_in, get_elem?-lt, get_elem?-take, get_elem?-set_elem_here,
  get_elem?-set_elem_there,
}
use gengo.Vm.Key.{Keys}
use gengo.Vm.Table.Linear.{IsFresh, IsDistinct, HasKey}
use gengo.Vm.Map.{swap_remove, with_last}
use gengo.Vm.Map.Lookup.{lookup, lookup_entry, lookup_fresh, lookup_cases}

-- Where the entry numbered `j` after the deletion of `i` stood among `n + 1` entries.
moved_from : ℕ → ℕ → ℕ → ℕ
moved_from n i j = if i == j then n else j

moved_from_injective : (n i j k : ℕ) → j < n → k < n → moved_from n i j ≡ moved_from n i k → j ≡ k
unfolding moved_from
moved_from_injective n i j k j_lt k_lt same = ground arith

module _ {ℓ} {K V : Type ℓ} ⦃keys : Keys K⦄ (es : List (K × V)) (i n : ℕ) (e : K × V)
    (distinct : IsDistinct es) (size : length es ≡ suc n) (at_i : get_elem? es i ≡ some e) where
  abbrev rest : List (K × V)
  rest = swap_remove es i

  -- The last entry of the slice.
  last : (l : K × V) × (get_elem? es n ≡ some l)
  last = get_elem?_in es n (omega arith)

  rest_eq : rest ≡ take n (set_elem es i last.0)
  unfolding swap_remove with_last
  rest_eq =
      let n_last : length es - 1 ≡ n = omega arith in
      rw (n_last, last.1) (ap (λ m. take m (set_elem es i last.0)) n_last)

  pub length-swap_remove : length (swap_remove es i) ≡ n
  length-swap_remove =
      rw rest_eq (omega (arith, length-take n (set_elem es i last.0), length-set_elem es i last.0))

  rest_here : i < n → get_elem? rest i ≡ some last.0
  rest_here lt = rw rest_eq (
      get_elem?-take n i (set_elem es i last.0) lt
      ∙ get_elem?-set_elem_here es i last.0 (omega arith))

  rest_there : (j : ℕ) → j < n → i ≢ j → get_elem? rest j ≡ get_elem? es j
  rest_there j lt apart =
      rw rest_eq (
        get_elem?-take n j (set_elem es i last.0) lt ∙ get_elem?-set_elem_there es i j last.0 apart)

  rest-lt : (j : ℕ) (a : K × V) → get_elem? rest j ≡ some a → j < n
  rest-lt j a at_j = omega (arith, get_elem?-lt rest j a at_j, length-swap_remove)

  -- What stands in the rest stood in the entries, and not at `i`.
  back :
      (j : ℕ) (a : K × V)
      → get_elem? rest j ≡ some a
      → (get_elem? es (moved_from n i j) ≡ some a) × (i ≢ moved_from n i j)
  unfolding moved_from
  back j a at_j = elim (Bool-cases (i == j)) [
    | inl here ↦
        let same : i ≡ j = ground arith in
        let lt = rest-lt j a at_j in
        let moved = sym (rest_here (omega arith)) ∙ ap (get_elem? rest) same ∙ at_j in
        rw here (last.1 ∙ moved, λ at_end. absurd (omega arith))
    | inr there ↦
        let apart : i ≢ j = ground arith in
        rw there (sym (rest_there j (rest-lt j a at_j) apart) ∙ at_j, apart)
  ]

  -- What stood in the entries, and not at `i`, stands in the rest.
  forth :
      (j : ℕ) (a : K × V) → get_elem? es j ≡ some a → i ≢ j → (k : ℕ) × (get_elem? rest k ≡ some a)
  forth j a at_j apart = elim (Bool-cases (n == j)) [
    | inl at_end ↦
        let same : n ≡ j = ground arith in
        let in_list = get_elem?-lt es i e at_i in
        (i, rest_here (omega arith) ∙ sym last.1 ∙ ap (get_elem? es) same ∙ at_j)
    | inr inside ↦
        let in_list = get_elem?-lt es j a at_j in (j, rest_there j (ground arith) apart ∙ at_j)
  ]

  pub IsDistinct-swap_remove : IsDistinct (swap_remove es i)
  IsDistinct-swap_remove j k a b at_j at_k same =
      moved_from_injective n i j k (rest-lt j a at_j) (rest-lt k b at_k) (
        distinct (moved_from n i j) (moved_from n i k) a b (back j a at_j).0 (back k b at_k).0 same)

  -- The rest answers nothing for the deleted key, and for every other key what was answered before.
  pub lookup-swap_remove :
      (q : K) → lookup (swap_remove es i) q ≡ (if keys.equals e.0 q then none else lookup es q)
  lookup-swap_remove q = elim (Bool-cases (keys.equals e.0 q)) [
    | inl same ↦ rw same (lookup_fresh rest q (gone same))
    | inr other ↦ rw other (elsewhere other (lookup_cases es q))
  ]
    where
      gone : keys.equals e.0 q ≡ true → IsFresh rest q
      gone same j a at_j =
          let (old, apart) = back j a at_j in
          elim (Bool-cases (keys.equals a.0 q)) [
            | inl also ↦
                let joined = keys.equals_trans e.0 q a.0 same (keys.equals_symm q a.0 ∙ also) in
                absurd (apart (distinct i (moved_from n i j) e a at_i old joined))
            | inr other ↦ other
          ]

      elsewhere :
          keys.equals e.0 q ≡ false
          → ((IsFresh es q × (lookup es q ≡ none)) ⊎ ((j : ℕ) × HasKey es j q))
          → lookup rest q ≡ lookup es q
      elsewhere other (inl (fresh, missing)) =
          lookup_fresh rest q (λ j a at_j. fresh (moved_from n i j) a (back j a at_j).0)
          ∙ sym missing
      elsewhere other (inr (j, (a, at_j, same))) =
          let apart : i ≢ j = λ i_j. clash (ground (arith, ap (get_elem? es) i_j)) same in
          let (k, at_k) = forth j a at_j apart in
          lookup_entry rest q k a IsDistinct-swap_remove at_k same
          ∙ sym (lookup_entry es q j a distinct at_j same)
        where
          clash : e ≡ a → keys.equals a.0 q ≡ true → ⊥
          clash e_a same_a = ground (arith, rw e_a at other)
