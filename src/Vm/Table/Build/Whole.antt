-- ===== src/Vm/Table/Build/Whole.antt =====
-- The rebuilding of the whole index by `map_build_hashed_buckets`.
use gengo.Prelude.{ℕ, zero, suc, ◌+◌, ◌^◌, ◌<◌, arith, ◌≡◌, refl, sym, ◌∙◌, ap}
use gengo.Prelude.{inl, inr, List, [], ◌∷◌, Option, none, some}
use gengo.Prelude.{length, get_elem?, replicate, Bool-cases, length-replicate}
use gengo.Prelude.Updates.{set_elem, length-set_elem, get_elem?-lt, get_elem?-replicate}
use gengo.Vm.Key.{Keys}
use gengo.Vm.Table.{Buckets, map_build_hashed_buckets, build_from, build_probe, built_in, home_slot}
use gengo.Vm.Table.Slots.{slot_after, walk, occupied-replicate}
use gengo.Vm.Table.Linear.{IsDistinct, key_matches_entry}
use gengo.Vm.Table.Index.{Leads, Indexes}
use gengo.Vm.Table.Build.{IsFreshTo, Leads-free, Indexes-step}

nothing_held : (nb idx j : ℕ) → get_elem? (replicate {A = Option ℕ} nb none) idx ≡ some (some j) → ⊥
nothing_held nb idx j h =
    let lt = get_elem?-lt (replicate nb none) idx (some j) h in
    let in_table : idx < nb = omega (arith, length-replicate {A = Option ℕ} nb none) in
    ground (arith, get_elem?-replicate {A = Option ℕ} nb idx none in_table)

module _ {ℓ} {K V : Type ℓ} ⦃keys : Keys K⦄ where
  -- The probe writes at the first free bucket.
  build_probe-Leads :
      (es : List (K × V)) (bs : Buckets) (i : ℕ) (q : K) (n d idx : ℕ)
      → d < n
      → Leads (length bs) es bs q none d idx
      → build_probe n es bs i q idx ≡ set_elem bs (walk (length bs) d idx) (some i)
  unfolding build_probe built_in
  build_probe-Leads es bs i q zero d idx lt way = absurd (omega arith)
  build_probe-Leads es bs i q (suc n) zero idx lt way = rw way.lower refl
  build_probe-Leads es bs i q (suc n) (suc d) idx lt ((j, e, at_idx, at_j, other), rest) =
      rw (at_idx, key_matches_entry es j e q at_j, other)
        (build_probe-Leads es bs i q n d (slot_after (length bs) idx) (omega arith) rest)

  IsDistinct-IsFreshTo :
      (es : List (K × V)) (i : ℕ) (e : K × V)
      → IsDistinct es
      → get_elem? es i ≡ some e
      → IsFreshTo i es e.0
  IsDistinct-IsFreshTo es i e distinct at_i j a lt at_j = elim (Bool-cases (keys.equals a.0 e.0)) [
    | inl same ↦ absurd (omega (arith, distinct j i a e at_j at_i same))
    | inr other ↦ other
  ]

  build_from-Indexes :
      (es : List (K × V)) (bs : Buckets) (rest : List (K × V)) (i : ℕ)
      → IsDistinct es
      → length es < length bs
      → Indexes i es bs
      → i + length rest ≡ length es
      → ((j : ℕ) → get_elem? rest j ≡ get_elem? es (i + j))
      → Indexes (length es) es (build_from es bs rest i)
        × (length (build_from es bs rest i) ≡ length bs)
  unfolding build_from
  build_from-Indexes es bs [] i distinct room ix whole tail =
      let all : i ≡ length es = omega arith in (rw all at ix, refl)
  build_from-Indexes es bs (e ∷ rest) i distinct room ix whole tail =
      let at_i : get_elem? es i ≡ some e = ap (get_elem? es) (omega arith) ∙ sym (tail 0) in
      let fresh = IsDistinct-IsFreshTo es i e distinct at_i in
      let (d, lt, way) = Leads-free i es bs e.0 ix (omega arith) (omega arith) fresh in
      let next = set_elem bs (walk (length bs) d (home_slot bs e.0)) (some i) in
      let same_length = length-set_elem bs (walk (length bs) d (home_slot bs e.0)) (some i) in
      let (built, kept_length) =
        build_from-Indexes es next rest (suc i) distinct (omega arith)
          (Indexes-step i es bs e d ix at_i lt way) (omega arith)
          (λ j. tail (suc j) ∙ ap (get_elem? es) (omega arith)) in
      rw (build_probe-Leads es bs i e.0 (length bs) d (home_slot bs e.0) lt way)
        (built, kept_length ∙ same_length)

  Indexes-empty : (nb k : ℕ) (es : List (K × V)) → nb ≡ 2 ^ k → Indexes 0 es (replicate nb none)
  Indexes-empty nb k es e = record {
    power = k;
    length_power = length-replicate nb none ∙ e;
    in_range = λ idx j h. absurd (nothing_held nb idx j h);
    leads = λ i e lt at_i. absurd (omega arith);
    filled = omega (arith, occupied-replicate nb);
  }

  -- Over distinct keys, and with more buckets than entries and a power of two of them, the buckets
  -- that are built index the entries, and there are as many as before.
  pub map_build_hashed_buckets-Indexes :
      (es : List (K × V)) (bs : Buckets) (k : ℕ)
      → IsDistinct es
      → length bs ≡ 2 ^ k
      → length es < length bs
      → Indexes (length es) es (map_build_hashed_buckets es bs)
        × (length (map_build_hashed_buckets es bs) ≡ length bs)
  unfolding map_build_hashed_buckets
  map_build_hashed_buckets-Indexes es [] k distinct len room = absurd (omega arith)
  map_build_hashed_buckets-Indexes es (b ∷ bs) k distinct len room =
      let cleared = replicate (length (b ∷ bs)) none in
      let same_length = length-replicate {A = Option ℕ} (length (b ∷ bs)) none in
      let (built, kept_length) =
        build_from-Indexes es cleared es 0 distinct (omega arith)
          (Indexes-empty (length (b ∷ bs)) k es len) (omega arith)
          (λ j. ap (get_elem? es) (omega arith)) in
      (built, kept_length ∙ same_length)
