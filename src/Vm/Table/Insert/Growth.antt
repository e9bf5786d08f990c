-- ===== src/Vm/Table/Insert/Growth.antt =====
-- The growth of the table ahead of an insertion, and the insertion as a whole.
use gengo.Prelude.{ℕ, suc, ◌*◌, ◌≤◌, ◌<◌, arith, ◌≡◌, refl, ◌∙◌}
use gengo.Prelude.{true, false, ◌⊎◌, inl, inr, List, [], none}
use gengo.Prelude.{length, replicate, Bool-cases, length-replicate}
use gengo.Vm.Key.{Keys}
use gengo.Vm.Table.{
  Done, ok, fails, out_of_memory, Buckets, Hashed, Allocator, map_buckets_for_count,
  map_build_hashed_buckets, needs_growth, grown_capacity, grow, insert_after, insert_hashed,
}
use gengo.Vm.Table.Slots.{map_buckets_for_count_lem}
use gengo.Vm.Table.Linear.{IsDistinct}
use gengo.Vm.Table.Index.{Indexes}
use gengo.Vm.Table.Build.Whole.{map_build_hashed_buckets-Indexes}
use gengo.Vm.Table.Insert.{IsValid, IsStored, Writes, insert_ready}

module _ {ℓ} {K V : Type ℓ} ⦃keys : Keys K⦄ where
  -- There is an unused entry, and one more entry leaves the load below 70%.
  abbrev pub IsReady : Hashed K V → Type ℓ
  IsReady hm =
      IsValid hm
      × (length hm.entries < hm.capacity)
      × (suc (length hm.entries) * 10 < length hm.buckets * 7)

  not_growing-IsReady : (hm : Hashed K V) → IsStored hm → needs_growth hm ≡ false → IsReady hm
  unfolding needs_growth
  not_growing-IsReady hm stored steady = (
    record {
      distinct = stored.distinct;
      fits = stored.fits;
      indexed = index stored.indexed;
      load = ground arith;
    },
    ground arith,
    ground arith,
  )
    where
      index :
          ((hm.buckets ≡ []) ⊎ Indexes (length hm.entries) hm.entries hm.buckets)
          → Indexes (length hm.entries) hm.entries hm.buckets
      index (inl gone) = absurd (ground (arith, rw gone at steady))
      index (inr ix) = ix

  grown_capacity-lt : (hm : Hashed K V) → length hm.entries < grown_capacity hm
  unfolding grown_capacity
  grown_capacity-lt hm = ground arith

  -- An index over `es`, freshly allocated for `cap` entries.
  pub fresh_index :
      (es : List (K × V)) (cap : ℕ)
      → IsDistinct es
      → length es ≤ cap
      → 0 < cap
      → Indexes
          (length es)
          es
          (map_build_hashed_buckets es (replicate (map_buckets_for_count cap) none))
        × (2 * cap
            ≤ length (map_build_hashed_buckets es (replicate (map_buckets_for_count cap) none)))
  fresh_index es cap distinct fits some_room =
      let (k, power, twice, eight) = map_buckets_for_count_lem cap in
      let cleared : Buckets = replicate (map_buckets_for_count cap) none in
      let size : length cleared ≡ map_buckets_for_count cap =
        length-replicate (map_buckets_for_count cap) none in
      let (ix, same_length) =
        map_build_hashed_buckets-Indexes es cleared k distinct (size ∙ power) (omega arith) in
      (ix, omega (arith, same_length, size, twice))

  -- The allocator refuses one of the two slices of the growth.
  abbrev pub Refuses : Allocator → Hashed K V → Type 0
  Refuses alloc hm =
      (alloc.has_entries (grown_capacity hm) ≡ false)
      ⊎ (alloc.has_buckets (map_buckets_for_count (grown_capacity hm)) ≡ false)

  abbrev pub Fails : Allocator → Hashed K V → Hashed K V → Type ℓ
  Fails alloc hm hm' = IsStored hm' × (hm'.entries ≡ hm.entries) × Refuses alloc hm

  grow_lem :
      (alloc : Allocator) (hm : Hashed K V)
      → IsStored hm
      → (hm' : Hashed K V) × (((grow alloc hm ≡ (ok tt, hm'))
            × IsReady hm'
            × (hm'.entries ≡ hm.entries))
          ⊎ ((grow alloc hm ≡ (fails out_of_memory, hm')) × Fails alloc hm hm'))
  unfolding grow
  grow_lem alloc hm stored =
      let cap = grown_capacity hm in
      let room = grown_capacity-lt hm in
      let (ix, spare) = fresh_index hm.entries cap stored.distinct (omega arith) (omega arith) in
      elim (Bool-cases (alloc.has_entries cap)) [
        | inl entries ↦ elim (Bool-cases (alloc.has_buckets (map_buckets_for_count cap))) [
          | inl buckets ↦ (
            record hm {
              capacity = cap;
              buckets =
                  map_build_hashed_buckets hm.entries (replicate (map_buckets_for_count cap) none);
            },
            inl (
              rw (entries, buckets) refl,
              (
                record {
                  distinct = stored.distinct;
                  fits = omega arith;
                  indexed = ix;
                  load = omega arith;
                },
                room,
                omega arith,
              ),
              refl,
            ),
          )
          | inr refused ↦ (
            record hm { capacity = cap; buckets = [] },
            inr (
              rw (entries, refused) refl,
              (
                record { distinct = stored.distinct; fits = omega arith; indexed = inl refl },
                refl,
                inr refused,
              ),
            ),
          )
        ]
        | inr refused ↦ (hm, inr (rw refused refl, (stored, refl, inl refused)))
      ]

  -- The entry is written, or an allocation was refused and the entries are what they were.
  abbrev pub Inserts : Allocator → Hashed K V → K → V → Done × Hashed K V → Type ℓ
  Inserts alloc hm key val result =
      ((result.0 ≡ ok tt) × Writes hm key val result.1)
      ⊎ ((result.0 ≡ fails out_of_memory) × Fails alloc hm result.1)

  -- On a table that is valid, or that a refused allocation left behind, an insertion writes what a
  -- write in order would and leaves a valid table; or one of the two allocations of a growth was
  -- refused, it fails, and the entries are what they were. It never runs out of buckets to probe,
  -- and never writes past the entries.
  pub insert_hashed-Inserts :
      (alloc : Allocator) (hm : Hashed K V) (key : K) (val : V)
      → IsStored hm
      → Inserts alloc hm key val (insert_hashed alloc hm key val)
  unfolding insert_hashed insert_after
  insert_hashed-Inserts alloc hm key val stored = elim (Bool-cases (needs_growth hm)) [
    | inl growing ↦
        let (grown, outcome) = grow_lem alloc hm stored in
        elim outcome [
          | inl (grows, (valid, room, spare), same) ↦
              let (hm', inserts, written) = insert_ready grown key val valid room spare in
              rw (growing, grows, inserts) (inl (refl, rw same at written))
          | inr (refused, why) ↦ rw (growing, refused) (inr (refl, why))
        ]
    | inr steady ↦
        let (valid, room, spare) = not_growing-IsReady hm stored steady in
        let (hm', inserts, written) = insert_ready hm key val valid room spare in
        rw (steady, inserts) (inl (refl, written))
  ]

  -- A growth whose entries are granted and whose buckets are refused leaves a table without buckets.
  pub insert_refused :
      (alloc : Allocator) (hm : Hashed K V) (key : K) (val : V)
      → needs_growth hm ≡ true
      → alloc.has_entries (grown_capacity hm) ≡ true
      → alloc.has_buckets (map_buckets_for_count (grown_capacity hm)) ≡ false
      → insert_hashed alloc hm key val
        ≡ (fails out_of_memory, record hm { capacity = grown_capacity hm; buckets = [] })
  unfolding insert_hashed insert_after grow
  insert_refused alloc hm key val growing entries refused = rw (growing, entries, refused) refl
