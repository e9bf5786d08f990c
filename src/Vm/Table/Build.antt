-- ===== src/Vm/Table/Build.antt =====
-- One more entry put into the buckets, and the rebuilding of the whole index.
pub mod Whole
use gengo.Prelude.{
  ℕ, zero, suc, ◌+◌, ◌-◌, ◌^◌, ◌≤◌, ◌<◌, bit_and, arith, ◌≡◌, ◌≢◌, refl, sym, ◌∙◌, ap,
}
use mathlib.Core.Logic.{Lift}
use gengo.Prelude.{Bool, true, false, ◌⊎◌, inl, inr, List, [], ◌∷◌, ◌++◌, Option, none, some}
use gengo.Prelude.{
  length, get_elem?, replicate, if◌then◌else◌, Bool-cases, Option-cases, length-replicate,
}
use native.Mathlib.Decide.{ℕ_discrete}
use mathlib.Core.Logic.Dec
use gengo.Prelude.Masks.{two_pow_pos}
use gengo.Prelude.Updates.{
  set_elem, length-set_elem, get_elem?-set_elem_here, get_elem?-set_elem_there, get_elem?_in,
  get_elem?-lt, get_elem?-replicate,
}
use gengo.Vm.Key.{Keys}
use gengo.Vm.Table.{
  Buckets, map_build_hashed_buckets, build_from, build_probe, built_in, home_slot, key_matches,
}
use gengo.Vm.Table.Slots.{
  slot_after, walk, walk_reaches_in, masked_in, occupied, occupied-set_elem, occupied-replicate,
  free_slot,
}
use gengo.Vm.Table.Linear.{IsDistinct, key_matches_entry}
use gengo.Vm.Table.Index.{Leads, Indexes}

-- The bucket that a write changes was free, so what other buckets hold stays.
kept :
    (bs : Buckets) (t idx j : ℕ) (b : Option ℕ)
    → get_elem? bs t ≡ some none
    → get_elem? bs idx ≡ some (some j)
    → get_elem? (set_elem bs t b) idx ≡ some (some j)
kept bs t idx j b free at_idx =
    get_elem?-set_elem_there bs t idx b (λ same. clash (rw same at free)) ∙ at_idx
  where
    clash : get_elem? bs idx ≡ some none → ⊥
    clash at_free = ground arith

module _ {ℓ} {K V : Type ℓ} ⦃keys : Keys K⦄ where
  Leads-kept :
      (nb : ℕ) (es : List (K × V)) (bs : Buckets) (t i : ℕ) (b : Option ℕ) (q : K) (d idx : ℕ)
      → get_elem? bs t ≡ some none
      → Leads nb es bs q (some i) d idx
      → Leads nb es (set_elem bs t b) q (some i) d idx
  Leads-kept nb es bs t i b q zero idx free h = record { lower = kept bs t idx i b free h.lower }
  Leads-kept nb es bs t i b q (suc d) idx free ((j, e, at_idx, at_j, other), rest) = (
    (j, e, kept bs t idx j b free at_idx, at_j, other),
    Leads-kept nb es bs t i b q d (slot_after nb idx) free rest,
  )

  pub walk-Leads :
      (nb : ℕ) (es : List (K × V)) (bs : Buckets) (q : K) (b : Option ℕ) (d idx : ℕ)
      → Leads nb es bs q b d idx
      → get_elem? bs (walk nb d idx) ≡ some b
  walk-Leads nb es bs q b zero idx h = h.lower
  walk-Leads nb es bs q b (suc d) idx h = walk-Leads nb es bs q b d (slot_after nb idx) h.1

  -- A write at the end of the way is found by the same way.
  Leads-filled :
      (nb : ℕ) (es : List (K × V)) (bs : Buckets) (q : K) (i t d idx : ℕ)
      → get_elem? bs t ≡ some none
      → walk nb d idx ≡ t
      → Leads nb es bs q none d idx
      → Leads nb es (set_elem bs t (some i)) q (some i) d idx
  Leads-filled nb es bs q i t zero idx free there h = record {
    lower =
        ap (get_elem? (set_elem bs t (some i))) there
        ∙ get_elem?-set_elem_here bs t (some i) (get_elem?-lt bs t none free);
  }
  Leads-filled nb es bs q i t (suc d) idx free there ((j, e, at_idx, at_j, other), rest) = (
    (j, e, kept bs t idx j (some i) free at_idx, at_j, other),
    Leads-filled nb es bs q i t d (slot_after nb idx) free there rest,
  )

  -- The first `n` entries are of other keys than `q`.
  abbrev pub IsFreshTo : ℕ → List (K × V) → K → Type ℓ
  IsFreshTo n es q =
      (j : ℕ) (e : K × V) → j < n → get_elem? es j ≡ some e → keys.equals e.0 q ≡ false

  first_free :
      (n : ℕ) (es : List (K × V)) (bs : Buckets) (q : K) (d idx : ℕ)
      → Indexes n es bs
      → n ≤ length es
      → IsFreshTo n es q
      → idx < length bs
      → get_elem? bs (walk (length bs) d idx) ≡ some none
      → (d' : ℕ) × (d' ≤ d) × Leads (length bs) es bs q none d' idx
  first_free n es bs q zero idx ix le fresh lt free = (0, omega arith, record { lower = free })
  first_free n es bs q (suc d) idx ix le fresh lt free =
      let (b, at_idx) = get_elem?_in bs idx lt in
      elim (Option-cases b) [
        | inl empty ↦ (0, omega arith, record { lower = at_idx ∙ ap some empty })
        | inr (j, full) ↦
            let held = at_idx ∙ ap some full in
            let below : j < n = ix.in_range idx j held in
            let (e, at_j) = get_elem?_in es j (omega arith) in
            let next_lt = masked_in (length bs) ix.power (idx + 1) ix.length_power in
            let (d', less, way) =
              first_free n es bs q d (slot_after (length bs) idx) ix le fresh next_lt free in
            (suc d', omega arith, ((j, e, held, at_j, fresh j e below at_j), way))
      ]

  -- A table with a free bucket leads the probes for a new key to one.
  pub Leads-free :
      (n : ℕ) (es : List (K × V)) (bs : Buckets) (q : K)
      → Indexes n es bs
      → n ≤ length es
      → n < length bs
      → IsFreshTo n es q
      → (d : ℕ) × (d < length bs) × Leads (length bs) es bs q none d (home_slot bs q)
  Leads-free n es bs q ix le lt fresh =
      let home = home_slot bs q in
      let home_lt = masked_in (length bs) ix.power (keys.hash q) ix.length_power in
      let (t, in_table, free) = free_slot bs (omega (arith, ix.filled)) in
      let (d, less, there) =
        walk_reaches_in (length bs) ix.power home t ix.length_power home_lt in_table in
      let (d', earlier, way) =
        first_free n es bs q d home ix le fresh home_lt (ap (get_elem? bs) there ∙ free) in
      (d', omega arith, way)

  -- The entry numbered `n` is put in the first free bucket on its way.
  module _ (n : ℕ) (es : List (K × V)) (bs : Buckets) (e : K × V) (d : ℕ) (ix : Indexes n es bs)
      (at_n : get_elem? es n ≡ some e) (lt : d < length bs)
      (way : Leads (length bs) es bs e.0 none d (home_slot bs e.0)) where
    abbrev filled_slot : ℕ
    filled_slot = walk (length bs) d (home_slot bs e.0)

    filled_slot_free : get_elem? bs filled_slot ≡ some none
    filled_slot_free = walk-Leads (length bs) es bs e.0 none d (home_slot bs e.0) way

    in_range_step :
        (idx j : ℕ) → get_elem? (set_elem bs filled_slot (some n)) idx ≡ some (some j) → j < suc n
    in_range_step idx j h = elim (ℕ_discrete filled_slot idx) [
      | yes same ↦
          let here =
            get_elem?-set_elem_here bs filled_slot (some n)
              (get_elem?-lt bs filled_slot none filled_slot_free) in
          let written : n ≡ j = ground (arith, rw same at here) in omega arith
      | no other ↦
          let before = sym (get_elem?-set_elem_there bs filled_slot idx (some n) other) ∙ h in
          omega (arith, ix.in_range idx j before)
    ]

    Leads-step :
        (i : ℕ) (a : K × V)
        → i < suc n
        → get_elem? es i ≡ some a
        → (x : ℕ) × (x < length bs)
          × Leads
              (length bs)
              es
              (set_elem bs filled_slot (some n))
              a.0
              (some i)
              x
              (home_slot bs a.0)
    Leads-step i a i_lt at_i = elim (ℕ_discrete i n) [
      | yes same ↦
          let a_is_e : a ≡ e = ground (arith, rw same at at_i) in
          rw (a_is_e, same)
            (
              d,
              lt,
              Leads-filled (length bs) es bs e.0 n filled_slot d (home_slot bs e.0) filled_slot_free
                  refl way,
            )
      | no other ↦
          let (x, less, old) = ix.leads i a (omega arith) at_i in
          (
            x,
            less,
            Leads-kept (length bs) es bs filled_slot i (some n) a.0 x (home_slot bs a.0)
                filled_slot_free old,
          )
    ]

    pub Indexes-step : Indexes (suc n) es (set_elem bs filled_slot (some n))
    Indexes-step =
        let same_length = length-set_elem bs filled_slot (some n) in
        record {
          power = ix.power;
          length_power = same_length ∙ ix.length_power;
          in_range = in_range_step;
          leads = λ i a i_lt at_i. rw same_length (Leads-step i a i_lt at_i);
          filled = omega (arith, occupied-set_elem bs filled_slot n filled_slot_free, ix.filled);
        }
