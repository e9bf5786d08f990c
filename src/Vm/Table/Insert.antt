-- ===== src/Vm/Table/Insert.antt =====
-- `mapInsertHashed`: in every state that an operation leaves behind it either writes the entry or
-- reports that an allocation was refused.
pub mod Growth
use gengo.Prelude.{ℕ, zero, suc, ◌+◌, ◌-◌, ◌*◌, ◌^◌, ◌≤◌, ◌<◌, arith, ◌≡◌, refl, sym, ◌∙◌, ap}
use gengo.Prelude.{Bool, true, false, ◌||◌, ◌⊎◌, inl, inr, List, [], ◌∷◌, ◌++◌, Option, none, some}
use gengo.Prelude.{length, get_elem?, replicate, ltb, leb, ◌==◌, if◌then◌else◌}
use gengo.Prelude.{Bool-cases, Option-cases, length-append, length-replicate}
use gengo.Prelude.Updates.{set_elem, length-set_elem, get_elem?-lt}
use gengo.Vm.Key.{Keys}
use gengo.Vm.Table.{
  Answer, Done, ok, fails, out_of_memory, Buckets, Hashed, Allocator, map_buckets_for_count,
  map_find_linear, map_build_hashed_buckets, key_matches, home_slot, set_value, needs_growth,
  grown_capacity, grow, inserted_in, insert_probe, insert_after, insert_hashed,
}
use gengo.Vm.Table.Slots.{slot_after, walk, map_buckets_for_count_lem}
use gengo.Vm.Table.Linear.{
  HasKey, IsFresh, IsDistinct, map_find_linear-some, map_find_linear-none, key_matches_entry,
}
use gengo.Vm.Table.Index.{Leads, Leads-congr, Indexes, home_slot_congr}
use gengo.Vm.Table.Build.{Leads-free, Indexes-step}
use gengo.Vm.Table.Build.Whole.{map_build_hashed_buckets-Indexes}
use gengo.Vm.Table.Entries.{
  set_value-keeps, length-set_value, Indexes-append, get_elem?-append_last, IsDistinct-append,
  Leads-append, upsert,
}

module _ {ℓ} {K V : Type ℓ} ⦃keys : Keys K⦄ where
  -- The keys are distinct, the entries fit in their slice, the buckets index them, and less than 70%
  -- of the buckets are needed.
  pub record IsValid (hm : Hashed K V) : Type ℓ where
    pub distinct : IsDistinct hm.entries
    pub fits : length hm.entries ≤ hm.capacity
    pub indexed : Indexes (length hm.entries) hm.entries hm.buckets
    pub load : length hm.entries * 10 < length hm.buckets * 7

  -- What a refused allocation may leave: the buckets are gone, or still right.
  pub record IsStored (hm : Hashed K V) : Type ℓ where
    pub distinct : IsDistinct hm.entries
    pub fits : length hm.entries ≤ hm.capacity
    pub indexed : (hm.buckets ≡ []) ⊎ Indexes (length hm.entries) hm.entries hm.buckets

  pub IsValid-IsStored : (hm : Hashed K V) → IsValid hm → IsStored hm
  IsValid-IsStored hm valid = record {
    distinct = valid.distinct;
    fits = valid.fits;
    indexed = inr valid.indexed;
  }

  -- `hm` holds what the write in order makes of the entries of `before`.
  abbrev pub Writes : Hashed K V → K → V → Hashed K V → Type ℓ
  Writes before key val hm =
      IsValid hm × (hm.entries ≡ upsert before.entries key val (map_find_linear before.entries key))

  insert_probe-free :
      (hm : Hashed K V) (key : K) (val : V) (n d slot : ℕ)
      → d < n
      → length hm.entries < hm.capacity
      → Leads (length hm.buckets) hm.entries hm.buckets key none d slot
      → insert_probe n hm key val slot ≡ (
        ok tt,
        record hm {
          entries = hm.entries ++ (key, val) ∷ [];
          buckets =
              set_elem hm.buckets (walk (length hm.buckets) d slot) (some (length hm.entries));
        },
      )
  unfolding insert_probe inserted_in
  insert_probe-free hm key val zero d slot lt room way = absurd (omega arith)
  insert_probe-free hm key val (suc n) zero slot lt room way =
      let has_room : ltb (length hm.entries) hm.capacity ≡ true = ground arith in
      rw (way.lower, has_room) refl
  insert_probe-free hm key val (suc n) (suc d) slot lt room ((j, e, at_slot, at_j, other), rest) =
      rw (at_slot, key_matches_entry hm.entries j e key at_j, other)
        (insert_probe-free hm key val n d (slot_after (length hm.buckets) slot) (omega arith) room
          rest)

  insert_probe-HasKey :
      (hm : Hashed K V) (key : K) (val : V) (i n d slot : ℕ)
      → d < n
      → HasKey hm.entries i key
      → Leads (length hm.buckets) hm.entries hm.buckets key (some i) d slot
      → insert_probe n hm key val slot ≡ (ok tt, record hm { entries = set_value hm.entries i val })
  unfolding insert_probe inserted_in
  insert_probe-HasKey hm key val i zero d slot lt has way = absurd (omega arith)
  insert_probe-HasKey hm key val i (suc n) zero slot lt (e, at_i, same) way =
      rw (way.lower, key_matches_entry hm.entries i e key at_i, same) refl
  insert_probe-HasKey hm key val i (suc n) (suc d) slot lt has
        ((j, e, at_slot, at_j, other), rest) =
      rw (at_slot, key_matches_entry hm.entries j e key at_j, other)
        (insert_probe-HasKey hm key val i n d (slot_after (length hm.buckets) slot) (omega arith)
          has rest)

  appended-IsValid :
      (hm : Hashed K V) (key : K) (val : V) (d : ℕ)
      → IsValid hm
      → length hm.entries < hm.capacity
      → suc (length hm.entries) * 10 < length hm.buckets * 7
      → IsFresh hm.entries key
      → d < length hm.buckets
      → Leads (length hm.buckets) hm.entries hm.buckets key none d (home_slot hm.buckets key)
      → IsValid (record hm {
        entries = hm.entries ++ (key, val) ∷ [];
        buckets =
            set_elem hm.buckets
              (walk (length hm.buckets) d (home_slot hm.buckets key))
              (some (length hm.entries));
      })
  appended-IsValid hm key val d valid room spare fresh lt way =
      let e : K × V = (key, val) in
      let one_more : suc (length hm.entries) ≡ length (hm.entries ++ e ∷ []) =
        omega (arith, length-append hm.entries (e ∷ [])) in
      let way' =
        Leads-append hm.entries (e ∷ []) hm.buckets key none d (home_slot hm.buckets key)
          valid.indexed way in
      let ix = Indexes-append hm.entries (e ∷ []) hm.buckets valid.indexed in
      record {
        distinct = IsDistinct-append hm.entries e valid.distinct fresh;
        fits = omega arith;
        indexed = rw one_more at (
            Indexes-step (length hm.entries) (hm.entries ++ e ∷ []) hm.buckets e d ix
              (get_elem?-append_last hm.entries e) lt way');
        load = omega (
          arith,
          length-set_elem hm.buckets (walk (length hm.buckets) d (home_slot hm.buckets key))
              (some (length hm.entries)),
        );
      }

  updated-IsValid :
      (hm : Hashed K V) (i : ℕ) (e : K × V) (val : V)
      → IsValid hm
      → get_elem? hm.entries i ≡ some e
      → IsValid (record hm { entries = set_value hm.entries i val })
  updated-IsValid hm i e val valid at_i =
      let (distinct, index) = set_value-keeps hm.entries hm.buckets i e val at_i valid.distinct in
      let same_length = length-set_value hm.entries i e val at_i in
      record {
        distinct = distinct;
        fits = omega (arith, same_length, valid.fits);
        indexed = rw same_length (index valid.indexed);
        load = omega (arith, same_length, valid.load);
      }

  -- The insertion proper writes whenever there is an unused entry and an unused bucket.
  pub insert_ready :
      (hm : Hashed K V) (key : K) (val : V)
      → IsValid hm
      → length hm.entries < hm.capacity
      → suc (length hm.entries) * 10 < length hm.buckets * 7
      → (hm' : Hashed K V) × (insert_probe (length hm.buckets) hm key val (home_slot hm.buckets key)
          ≡ (ok tt, hm'))
        × Writes hm key val hm'
  unfolding upsert
  insert_ready hm key val valid room spare = elim (Option-cases (map_find_linear hm.entries key)) [
    | inl missing ↦
        let fresh = map_find_linear-none hm.entries key missing in
        let (d, lt, way) =
          Leads-free (length hm.entries) hm.entries hm.buckets key valid.indexed (omega arith)
            (omega arith) (λ j e below. fresh j e) in
        (
          record hm {
            entries = hm.entries ++ (key, val) ∷ [];
            buckets =
                set_elem hm.buckets (walk (length hm.buckets) d (home_slot hm.buckets key))
                  (some (length hm.entries));
          },
          insert_probe-free hm key val (length hm.buckets) d (home_slot hm.buckets key) lt room way,
          (appended-IsValid hm key val d valid room spare fresh lt way, rw missing refl),
        )
    | inr (i, found) ↦
        let (e, at_i, same) = map_find_linear-some hm.entries key i found in
        let (d, lt, way) = valid.indexed.leads i e (get_elem?-lt hm.entries i e at_i) at_i in
        let home = home_slot_congr hm.buckets e.0 key same in
        let way_key = rw home at (
          Leads-congr (length hm.buckets) hm.entries hm.buckets (some i) e.0 key d
            (home_slot hm.buckets e.0) same way) in
        (
          record hm { entries = set_value hm.entries i val },
          insert_probe-HasKey hm key val i (length hm.buckets) d (home_slot hm.buckets key) lt
              (e, at_i, same) way_key,
          (updated-IsValid hm i e val valid at_i, rw found refl),
        )
  ]
