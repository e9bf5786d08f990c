-- ===== src/Vm/Table/Index.antt =====
-- What it is for the buckets to index the entries, and that the hashed search then finds what the
-- search in order finds.
use gengo.Prelude.{ℕ, zero, suc, ◌^◌, ◌≤◌, ◌<◌, arith, ◌≡◌, refl, sym, ◌∙◌}
use gengo.Prelude.{true, false, inl, inr, List, [], ◌∷◌, Option, none, some}
use mathlib.Core.Logic.{Lift}
use gengo.Prelude.{length, get_elem?, Option-cases}
use gengo.Prelude.Masks.{two_pow_pos}
use gengo.Prelude.Updates.{get_elem?-lt}
use gengo.Vm.Key.{Keys, equals_congr_right}
use gengo.Vm.Table.{
  Buckets, entry_matches, map_find_linear, map_find_hashed_index, find_probe, found_in, home_slot,
  key_matches,
}
use gengo.Vm.Table.Slots.{slot_after, occupied}
use gengo.Vm.Table.Linear.{
  HasKey, IsFresh, map_find_linear-some, map_find_linear-none, key_matches_entry,
}

module _ {ℓ} {K : Type ℓ} ⦃keys : Keys K⦄ where
  pub home_slot_congr :
      (bs : Buckets) (p q : K) → keys.equals p q ≡ true → home_slot bs p ≡ home_slot bs q
  home_slot_congr bs p q same = rw (keys.hash-equals p q same) refl

module _ {ℓ} {K V : Type ℓ} ⦃keys : Keys K⦄ where
  -- The bucket holds an entry of another key than `q`, so a probe goes on.
  abbrev pub IsPassed : List (K × V) → Buckets → K → ℕ → Type ℓ
  IsPassed es bs q idx =
      (j : ℕ) × (e : K × V) × (get_elem? bs idx ≡ some (some j))
      × (get_elem? es j ≡ some e)
      × (keys.equals e.0 q ≡ false)

  -- `d` steps of passed buckets lead from `idx` to a bucket that holds `b`.
  abbrev pub Leads : ℕ → List (K × V) → Buckets → K → Option ℕ → ℕ → ℕ → Type ℓ
  Leads nb es bs q b zero idx = Lift {0, ℓ} (get_elem? bs idx ≡ some b)
  Leads nb es bs q b (suc d) idx = IsPassed es bs q idx × Leads nb es bs q b d (slot_after nb idx)

  -- The first `n` entries are in the buckets, each on the way of its key's probes; nothing else is.
  pub record Indexes (n : ℕ) (es : List (K × V)) (bs : Buckets) : Type ℓ where
    pub power : ℕ
    pub length_power : length bs ≡ 2 ^ power
    pub in_range : (idx j : ℕ) → get_elem? bs idx ≡ some (some j) → j < n
    pub leads :
        (i : ℕ) (e : K × V)
        → i < n
        → get_elem? es i ≡ some e
        → (d : ℕ) × (d < length bs) × Leads (length bs) es bs e.0 (some i) d (home_slot bs e.0)
    pub filled : occupied bs ≤ n

  -- A probe for an equal key takes the same way.
  pub Leads-congr :
      (nb : ℕ) (es : List (K × V)) (bs : Buckets) (b : Option ℕ) (p q : K) (d idx : ℕ)
      → keys.equals p q ≡ true
      → Leads nb es bs p b d idx
      → Leads nb es bs q b d idx
  Leads-congr nb es bs b p q zero idx same h = h
  Leads-congr nb es bs b p q (suc d) idx same ((j, e, at_idx, at_j, other), rest) = (
    (j, e, at_idx, at_j, sym (equals_congr_right e.0 p q same) ∙ other),
    Leads-congr nb es bs b p q d (slot_after nb idx) same rest,
  )

  find_probe_arrives :
      (es : List (K × V)) (bs : Buckets) (q : K) (i : ℕ) (n d idx : ℕ)
      → d < n
      → HasKey es i q
      → Leads (length bs) es bs q (some i) d idx
      → find_probe n es bs q idx ≡ some i
  unfolding find_probe found_in
  find_probe_arrives es bs q i zero d idx lt has way = absurd (omega arith)
  find_probe_arrives es bs q i (suc n) zero idx lt (e, at_i, same) way =
      rw (way.lower, key_matches_entry es i e q at_i, same) refl
  find_probe_arrives es bs q i (suc n) (suc d) idx lt has ((j, e, at_idx, at_j, other), rest) =
      rw (at_idx, key_matches_entry es j e q at_j, other)
        (find_probe_arrives es bs q i n d (slot_after (length bs) idx) (omega arith) has rest)

  pub key_matches_fresh :
      (es : List (K × V)) (q : K) (j : ℕ) → IsFresh es q → key_matches es j q ≡ false
  unfolding key_matches entry_matches
  key_matches_fresh es q j fresh = elim (Option-cases (get_elem? es j)) [
    | inl missing ↦ rw missing refl
    | inr (e, at_j) ↦ rw at_j (fresh j e at_j)
  ]

  found_in_fresh :
      (b : Option (Option ℕ)) (es : List (K × V)) (q : K) (rest : Option ℕ)
      → IsFresh es q
      → rest ≡ none
      → found_in b es q rest ≡ none
  unfolding found_in
  found_in_fresh none es q rest fresh e = refl
  found_in_fresh (some none) es q rest fresh e = refl
  found_in_fresh (some (some j)) es q rest fresh e = rw (key_matches_fresh es q j fresh) e

  find_probe_fresh :
      (n : ℕ) (es : List (K × V)) (bs : Buckets) (q : K) (idx : ℕ)
      → IsFresh es q
      → find_probe n es bs q idx ≡ none
  unfolding find_probe
  find_probe_fresh zero es bs q idx fresh = refl
  find_probe_fresh (suc n) es bs q idx fresh =
      found_in_fresh (get_elem? bs idx) es q (find_probe n es bs q (slot_after (length bs) idx))
        fresh (find_probe_fresh n es bs q (slot_after (length bs) idx) fresh)

  -- Where the buckets index the entries, the hashed search answers for every key what the search
  -- in order answers.
  pub map_find_hashed_index-linear :
      (es : List (K × V)) (bs : Buckets) (q : K)
      → Indexes (length es) es bs
      → map_find_hashed_index es bs q ≡ map_find_linear es q
  unfolding map_find_hashed_index
  map_find_hashed_index-linear es [] q idx =
      absurd (omega (arith, idx.length_power, two_pow_pos idx.power))
  map_find_hashed_index-linear es (b ∷ bs) q idx = elim (Option-cases (map_find_linear es q)) [
    | inl missing ↦ rw missing (
        find_probe_fresh (length (b ∷ bs)) es (b ∷ bs) q (home_slot (b ∷ bs) q)
          (map_find_linear-none es q missing))
    | inr (i, found) ↦
        let (e, at_i, same) = map_find_linear-some es q i found in
        let (d, lt, way) = idx.leads i e (get_elem?-lt es i e at_i) at_i in
        let home : home_slot (b ∷ bs) e.0 ≡ home_slot (b ∷ bs) q =
          home_slot_congr (b ∷ bs) e.0 q same in
        let way_q = rw home at (
          Leads-congr (length (b ∷ bs)) es (b ∷ bs) (some i) e.0 q d (home_slot (b ∷ bs) e.0) same
            way) in
        rw found (
          find_probe_arrives es (b ∷ bs) q i (length (b ∷ bs)) d (home_slot (b ∷ bs) q) lt
            (e, at_i, same) way_q)
  ]
