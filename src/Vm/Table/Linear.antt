-- ===== src/Vm/Table/Linear.antt =====
-- The search in order, and the entries of a map: where a key is found, and entries that no two keys
-- share.
use gengo.Prelude.{ℕ, zero, suc, arith, ◌≡◌, refl, sym, ◌∙◌, ap}
use gengo.Prelude.{true, false, ◌⊎◌, inl, inr, List, [], ◌∷◌, Option, none, some}
use gengo.Prelude.{get_elem?, Bool-cases, Option-cases}
use gengo.Vm.Key.{Keys}
use gengo.Vm.Table.{map_find_linear, option_suc, key_matches, entry_matches, value_at, value_of}

option_suc-none : (o : Option ℕ) → option_suc o ≡ none → o ≡ none
unfolding option_suc
option_suc-none none h = refl
option_suc-none (some i) h = absurd (ground arith)

option_suc-some :
    (o : Option ℕ) (i : ℕ) → option_suc o ≡ some i → (j : ℕ) × (i ≡ suc j) × (o ≡ some j)
unfolding option_suc
option_suc-some none i h = absurd (ground arith)
option_suc-some (some j) i h = (j, ground arith, refl)

module _ {ℓ} {K V : Type ℓ} ⦃keys : Keys K⦄ where
  -- The entry numbered `i` has the key `q`.
  abbrev pub HasKey : List (K × V) → ℕ → K → Type ℓ
  HasKey es i q = (e : K × V) × (get_elem? es i ≡ some e) × (keys.equals e.0 q ≡ true)

  -- No entry has the key `q`.
  abbrev pub IsFresh : List (K × V) → K → Type ℓ
  IsFresh es q = (i : ℕ) (e : K × V) → get_elem? es i ≡ some e → keys.equals e.0 q ≡ false

  -- No key stands in two entries.
  abbrev pub IsDistinct : List (K × V) → Type ℓ
  IsDistinct es =
      (i j : ℕ) (a b : K × V)
      → get_elem? es i ≡ some a
      → get_elem? es j ≡ some b
      → keys.equals a.0 b.0 ≡ true
      → i ≡ j

  pub map_find_linear-some :
      (es : List (K × V)) (q : K) (i : ℕ) → map_find_linear es q ≡ some i → HasKey es i q
  unfolding map_find_linear
  map_find_linear-some [] q i h = absurd (ground arith)
  map_find_linear-some (e ∷ es) q i h = elim (Bool-cases (keys.equals e.0 q)) [
    | inl same ↦ let zeroth : i ≡ 0 = ground arith in rw zeroth (e, refl, same)
    | inr other ↦
        let (j, i_suc, found) = option_suc-some (map_find_linear es q) i (rw other at h) in
        rw i_suc (map_find_linear-some es q j found)
  ]

  pub map_find_linear-none :
      (es : List (K × V)) (q : K) → map_find_linear es q ≡ none → IsFresh es q
  unfolding map_find_linear
  map_find_linear-none [] q h i e at_i = absurd (ground arith)
  map_find_linear-none (x ∷ es) q h zero e at_i =
      let same : x ≡ e = ground arith in rw same at (head_differs (Bool-cases (keys.equals x.0 q)))
    where
      head_differs :
          ((keys.equals x.0 q ≡ true) ⊎ (keys.equals x.0 q ≡ false)) → keys.equals x.0 q ≡ false
      head_differs (inl same) = absurd (ground arith)
      head_differs (inr other) = other
  map_find_linear-none (x ∷ es) q h (suc i) e at_i =
      map_find_linear-none es q (tail_none (Bool-cases (keys.equals x.0 q))) i e at_i
    where
      tail_none :
          ((keys.equals x.0 q ≡ true) ⊎ (keys.equals x.0 q ≡ false)) → map_find_linear es q ≡ none
      tail_none (inl same) = absurd (ground arith)
      tail_none (inr other) = option_suc-none (map_find_linear es q) (rw other at h)

  pub value_at_entry :
      (es : List (K × V)) (i : ℕ) (e : K × V)
      → get_elem? es i ≡ some e
      → value_at es (some i) ≡ some e.1
  unfolding value_at value_of
  value_at_entry es i e at_i = rw at_i refl

  pub key_matches_entry :
      (es : List (K × V)) (j : ℕ) (e : K × V) (q : K)
      → get_elem? es j ≡ some e
      → key_matches es j q ≡ keys.equals e.0 q
  unfolding key_matches entry_matches
  key_matches_entry es j e q at_j = rw at_j refl

  -- Where keys are distinct, the search finds the only entry that has the key.
  pub map_find_linear-HasKey :
      (es : List (K × V)) (q : K) (i : ℕ)
      → IsDistinct es
      → HasKey es i q
      → map_find_linear es q ≡ some i
  map_find_linear-HasKey es q i distinct (e, at_i, same) =
      elim (Option-cases (map_find_linear es q)) [
        | inl missing ↦ absurd (ground (arith, map_find_linear-none es q missing i e at_i))
        | inr (j, found) ↦
            let (f, at_j, same_j) = map_find_linear-some es q j found in
            let joined = keys.equals_trans e.0 q f.0 same (keys.equals_symm q f.0 ∙ same_j) in
            found ∙ ap some (sym (distinct i j e f at_i at_j joined))
      ]
