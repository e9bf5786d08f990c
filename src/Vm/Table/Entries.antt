-- ===== src/Vm/Table/Entries.antt =====
-- Changes of the entries, and the index that stays right under them. `upsert` is the write as a
-- search in order does it.
use gengo.Prelude.{ℕ, zero, suc, ◌<◌, arith, ◌≡◌, ◌≢◌, refl, sym, ◌∙◌, ap}
use native.Mathlib.Decide.{ℕ_discrete}
use gengo.Prelude.{◌⊎◌, inl, inr, List, [], ◌∷◌, ◌++◌, Option, none, some}
use gengo.Prelude.{length, get_elem?, ltb, Bool-cases, length-append}
use gengo.Prelude.Updates.{
  set_elem, length-set_elem, get_elem?-set_elem_here, get_elem?-set_elem_there, get_elem?-lt,
  get_elem?-append, get_elem?-append_past,
}
use gengo.Vm.Key.{Keys}
use gengo.Vm.Table.{Buckets, set_value, with_value, home_slot}
use gengo.Vm.Table.Slots.{slot_after}
use gengo.Vm.Table.Linear.{IsFresh, IsDistinct}
use gengo.Vm.Table.Index.{Leads, Indexes}

module _ {ℓ} {K V : Type ℓ} where
  -- Every entry of `es` below `n` has its key at the same place of `es'`.
  abbrev pub KeepsKeys : ℕ → List (K × V) → List (K × V) → Type ℓ
  KeepsKeys n es es' =
      (j : ℕ) (e : K × V)
      → j < n
      → get_elem? es j ≡ some e
      → (f : K × V) × (get_elem? es' j ≡ some f) × (f.0 ≡ e.0)

  pub set_value_at :
      (es : List (K × V)) (i : ℕ) (e : K × V) (v : V)
      → get_elem? es i ≡ some e
      → set_value es i v ≡ set_elem es i (e.0, v)
  unfolding set_value with_value
  set_value_at es i e v at_i = rw at_i refl

  pub get_elem?-set_value :
      (es : List (K × V)) (i : ℕ) (e : K × V) (v : V)
      → get_elem? es i ≡ some e
      → get_elem? (set_value es i v) i ≡ some (e.0, v)
  get_elem?-set_value es i e v at_i =
      rw (set_value_at es i e v at_i)
        (get_elem?-set_elem_here es i (e.0, v) (get_elem?-lt es i e at_i))

  pub get_elem?-set_value_there :
      (es : List (K × V)) (i j : ℕ) (e : K × V) (v : V)
      → get_elem? es i ≡ some e
      → i ≢ j
      → get_elem? (set_value es i v) j ≡ get_elem? es j
  get_elem?-set_value_there es i j e v at_i other =
      rw (set_value_at es i e v at_i) (get_elem?-set_elem_there es i j (e.0, v) other)

  pub length-set_value :
      (es : List (K × V)) (i : ℕ) (e : K × V) (v : V)
      → get_elem? es i ≡ some e
      → length (set_value es i v) ≡ length es
  length-set_value es i e v at_i = rw (set_value_at es i e v at_i) (length-set_elem es i (e.0, v))

  set_value-KeepsKeys :
      (n : ℕ) (es : List (K × V)) (i : ℕ) (e : K × V) (v : V)
      → get_elem? es i ≡ some e
      → KeepsKeys n es (set_value es i v) × KeepsKeys n (set_value es i v) es
  set_value-KeepsKeys n es i e v at_i = (forth, back)
    where
      forth : KeepsKeys n es (set_value es i v)
      forth j a lt at_j = elim (ℕ_discrete i j) [
        | yes same ↦
            let e_is_a : e ≡ a = ground (arith, rw same at at_i) in
            (
              (e.0, v),
              ap (get_elem? (set_value es i v)) (sym same) ∙ get_elem?-set_value es i e v at_i,
              ap (λ x. x.0) e_is_a,
            )
        | no other ↦ (a, get_elem?-set_value_there es i j e v at_i other ∙ at_j, refl)
      ]

      back : KeepsKeys n (set_value es i v) es
      back j a lt at_j = elim (ℕ_discrete i j) [
        | yes same ↦
            let now =
              sym (get_elem?-set_value es i e v at_i)
              ∙ ap (get_elem? (set_value es i v)) same
              ∙ at_j in
            let written : (e.0, v) ≡ a = ground arith in (e, rw same at at_i, ap (λ x. x.0) written)
        | no other ↦ (a, sym (get_elem?-set_value_there es i j e v at_i other) ∙ at_j, refl)
      ]

module _ {ℓ} {K V : Type ℓ} ⦃keys : Keys K⦄ where
  Leads-keep :
      (nb n : ℕ) (es es' : List (K × V)) (bs : Buckets) (q : K) (b : Option ℕ) (d idx : ℕ)
      → KeepsKeys n es es'
      → ((x j : ℕ) → get_elem? bs x ≡ some (some j) → j < n)
      → Leads nb es bs q b d idx
      → Leads nb es' bs q b d idx
  Leads-keep nb n es es' bs q b zero idx keep below h = h
  Leads-keep nb n es es' bs q b (suc d) idx keep below ((j, e, at_idx, at_j, other), rest) =
      let (f, at_f, same) = keep j e (below idx j at_idx) at_j in
      (
        (j, f, at_idx, at_f, rw same other),
        Leads-keep nb n es es' bs q b d (slot_after nb idx) keep below rest,
      )

  pub Indexes-keep :
      (n : ℕ) (es es' : List (K × V)) (bs : Buckets)
      → KeepsKeys n es es'
      → KeepsKeys n es' es
      → Indexes n es bs
      → Indexes n es' bs
  Indexes-keep n es es' bs keep back ix = record {
    power = ix.power;
    length_power = ix.length_power;
    in_range = ix.in_range;
    leads = leads_now;
    filled = ix.filled;
  }
    where
      leads_now :
          (i : ℕ) (e : K × V)
          → i < n
          → get_elem? es' i ≡ some e
          → (d : ℕ) × (d < length bs) × Leads (length bs) es' bs e.0 (some i) d (home_slot bs e.0)
      leads_now i e lt at_i =
          let (f, at_f, same) = back i e lt at_i in
          let (d, less, way) = ix.leads i f lt at_f in
          let moved =
            Leads-keep (length bs) n es es' bs f.0 (some i) d (home_slot bs f.0) keep ix.in_range
              way in
          (d, less, rw same at moved)

  IsDistinct-keep :
      (es es' : List (K × V))
      → length es' ≡ length es
      → KeepsKeys (length es) es' es
      → IsDistinct es
      → IsDistinct es'
  IsDistinct-keep es es' len back distinct i j a b at_i at_j same =
      let below_i : i < length es = omega (arith, get_elem?-lt es' i a at_i) in
      let below_j : j < length es = omega (arith, get_elem?-lt es' j b at_j) in
      let (f, at_f, f_key) = back i a below_i at_i in
      let (g, at_g, g_key) = back j b below_j at_j in
      distinct i j f g at_f at_g (rw (f_key, g_key) same)

  -- A value written in place leaves the keys distinct and the index right.
  pub set_value-keeps :
      (es : List (K × V)) (bs : Buckets) (i : ℕ) (e : K × V) (v : V)
      → get_elem? es i ≡ some e
      → IsDistinct es
      → IsDistinct (set_value es i v)
        × (Indexes (length es) es bs → Indexes (length es) (set_value es i v) bs)
  set_value-keeps es bs i e v at_i distinct =
      let (forth, back) = set_value-KeepsKeys (length es) es i e v at_i in
      (
        IsDistinct-keep es (set_value es i v) (length-set_value es i e v at_i) back distinct,
        Indexes-keep (length es) es (set_value es i v) bs forth back,
      )

  append-KeepsKeys :
      (es ys : List (K × V))
      → KeepsKeys (length es) es (es ++ ys) × KeepsKeys (length es) (es ++ ys) es
  append-KeepsKeys es ys = (
    λ j e lt at_j. (e, get_elem?-append es ys j lt ∙ at_j, refl),
    λ j e lt at_j. (e, sym (get_elem?-append es ys j lt) ∙ at_j, refl),
  )

  -- A new entry at the end is not indexed yet, and leaves the index of the others right.
  pub Indexes-append :
      (es ys : List (K × V)) (bs : Buckets)
      → Indexes (length es) es bs
      → Indexes (length es) (es ++ ys) bs
  Indexes-append es ys bs ix =
      let (forth, back) = append-KeepsKeys es ys in
      Indexes-keep (length es) es (es ++ ys) bs forth back ix

  pub Leads-append :
      (es ys : List (K × V)) (bs : Buckets) (q : K) (b : Option ℕ) (d idx : ℕ)
      → Indexes (length es) es bs
      → Leads (length bs) es bs q b d idx
      → Leads (length bs) (es ++ ys) bs q b d idx
  Leads-append es ys bs q b d idx ix =
      Leads-keep (length bs) (length es) es (es ++ ys) bs q b d idx (append-KeepsKeys es ys).0
        ix.in_range

  pub get_elem?-append_last :
      (es : List (K × V)) (e : K × V) → get_elem? (es ++ e ∷ []) (length es) ≡ some e
  get_elem?-append_last es e =
      ap (get_elem? (es ++ e ∷ [])) (omega arith) ∙ get_elem?-append_past es (e ∷ []) 0

  -- An entry of `es ++ e ∷ []` stands in `es`, or is the last.
  pub append_entry_cases :
      (es : List (K × V)) (e a : K × V) (i : ℕ)
      → get_elem? (es ++ e ∷ []) i ≡ some a
      → ((i < length es) × (get_elem? es i ≡ some a)) ⊎ ((i ≡ length es) × (a ≡ e))
  append_entry_cases es e a i at_i = elim (Bool-cases (ltb i (length es))) [
    | inl below ↦
        let lt : i < length es = ground arith in
        inl (lt, sym (get_elem?-append es (e ∷ []) i lt) ∙ at_i)
    | inr past ↦
        let in_list = get_elem?-lt (es ++ e ∷ []) i a at_i in
        let last : i ≡ length es = ground (arith, length-append es (e ∷ [])) in
        let found = sym at_i ∙ ap (get_elem? (es ++ e ∷ [])) last ∙ get_elem?-append_last es e in
        inr (last, ground arith)
  ]

  pub IsDistinct-append :
      (es : List (K × V)) (e : K × V) → IsDistinct es → IsFresh es e.0 → IsDistinct (es ++ e ∷ [])
  IsDistinct-append es e distinct fresh i j a b at_i at_j same =
      decide_by (append_entry_cases es e a i at_i) (append_entry_cases es e b j at_j)
    where
      decide_by :
          (((i < length es) × (get_elem? es i ≡ some a)) ⊎ ((i ≡ length es) × (a ≡ e)))
          → (((j < length es) × (get_elem? es j ≡ some b)) ⊎ ((j ≡ length es) × (b ≡ e)))
          → i ≡ j
      decide_by (inl (lt, old_i)) (inl (lt', old_j)) = distinct i j a b old_i old_j same
      decide_by (inl (lt, old_i)) (inr (last, new)) =
          absurd (ground (arith, fresh i a old_i, rw new at same))
      decide_by (inr (last, new)) (inl (lt, old_j)) =
          absurd (ground (arith, fresh j b old_j, rw new at same, keys.equals_symm e.0 b.0))
      decide_by (inr (last, new)) (inr (last', new')) = omega arith

  -- What the write of a value under a key does to the entries, in any representation.
  unfoldable pub upsert : List (K × V) → K → V → Option ℕ → List (K × V)
  upsert es key val none = es ++ (key, val) ∷ []
  upsert es key val (some i) = set_value es i val
