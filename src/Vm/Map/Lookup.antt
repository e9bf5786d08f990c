-- ===== src/Vm/Map/Lookup.antt =====
-- What a map holds under a key, as the search in order sees it, and how a write changes that.
use gengo.Prelude.{ℕ, arith, ◌≡◌, ◌≢◌, refl, sym, ◌∙◌, ap}
use gengo.Prelude.{true, false, ◌⊎◌, inl, inr, List, [], ◌∷◌, ◌++◌, Option, none, some}
use gengo.Prelude.{length, get_elem?, if◌then◌else◌, Bool-cases, Option-cases}
use gengo.Prelude.Updates.{get_elem?-lt, get_elem?-append}
use native.Mathlib.Decide.{ℕ_discrete}
use gengo.Vm.Key.{Keys, equals_congr_left}
use gengo.Vm.Table.{value_at, map_find_linear, set_value}
use gengo.Vm.Table.Linear.{
  IsFresh, IsDistinct, HasKey, value_at_entry, map_find_linear-some, map_find_linear-none,
  map_find_linear-HasKey,
}
use gengo.Vm.Table.Entries.{
  upsert, set_value-keeps, get_elem?-set_value, get_elem?-set_value_there, get_elem?-append_last,
  IsDistinct-append, append_entry_cases,
}

module _ {ℓ} {K V : Type ℓ} ⦃keys : Keys K⦄ where
  unfoldable pub lookup : List (K × V) → K → Option V
  lookup es q = value_at es (map_find_linear es q)

  pub lookup_entry :
      (es : List (K × V)) (q : K) (i : ℕ) (e : K × V)
      → IsDistinct es
      → get_elem? es i ≡ some e
      → keys.equals e.0 q ≡ true
      → lookup es q ≡ some e.1
  unfolding lookup
  lookup_entry es q i e distinct at_i same =
      rw (map_find_linear-HasKey es q i distinct (e, at_i, same)) (value_at_entry es i e at_i)

  pub lookup_fresh : (es : List (K × V)) (q : K) → IsFresh es q → lookup es q ≡ none
  unfolding lookup value_at
  lookup_fresh es q fresh = elim (Option-cases (map_find_linear es q)) [
    | inl missing ↦ rw missing refl
    | inr (i, found) ↦
        let (e, at_i, same) = map_find_linear-some es q i found in
        absurd (ground (arith, fresh i e at_i))
  ]

  -- A key is missing, or one entry has it.
  pub lookup_cases :
      (es : List (K × V)) (q : K)
      → (IsFresh es q × (lookup es q ≡ none)) ⊎ ((i : ℕ) × HasKey es i q)
  lookup_cases es q = elim (Option-cases (map_find_linear es q)) [
    | inl missing ↦
        let fresh = map_find_linear-none es q missing in inl (fresh, lookup_fresh es q fresh)
    | inr (i, found) ↦ inr (i, map_find_linear-some es q i found)
  ]

  lookup-set_value :
      (es : List (K × V)) (i : ℕ) (e : K × V) (val : V) (q : K)
      → IsDistinct es
      → get_elem? es i ≡ some e
      → lookup (set_value es i val) q ≡ (if keys.equals e.0 q then some val else lookup es q)
  lookup-set_value es i e val q distinct at_i = elim (Bool-cases (keys.equals e.0 q)) [
    | inl same ↦ rw same (lookup_entry (set_value es i val) q i (e.0, val) still here same)
    | inr other ↦ rw other (elsewhere other (lookup_cases es q))
  ]
    where
      here : get_elem? (set_value es i val) i ≡ some (e.0, val)
      here = get_elem?-set_value es i e val at_i

      still : IsDistinct (set_value es i val)
      still = (set_value-keeps es [] i e val at_i distinct).0

      there : (j : ℕ) → i ≢ j → get_elem? (set_value es i val) j ≡ get_elem? es j
      there j apart = get_elem?-set_value_there es i j e val at_i apart

      fresh_still : keys.equals e.0 q ≡ false → IsFresh es q → IsFresh (set_value es i val) q
      fresh_still other fresh j a at_j = elim (ℕ_discrete i j) [
        | yes same ↦
            let written : (e.0, val) ≡ a =
              ground (arith, here, ap (get_elem? (set_value es i val)) same) in
            ap (λ x. keys.equals x.0 q) (sym written) ∙ other
        | no apart ↦ fresh j a (sym (there j apart) ∙ at_j)
      ]

      elsewhere :
          keys.equals e.0 q ≡ false
          → ((IsFresh es q × (lookup es q ≡ none)) ⊎ ((j : ℕ) × HasKey es j q))
          → lookup (set_value es i val) q ≡ lookup es q
      elsewhere other (inl (fresh, missing)) =
          lookup_fresh (set_value es i val) q (fresh_still other fresh) ∙ sym missing
      elsewhere other (inr (j, (a, at_j, same))) =
          let apart : i ≢ j = λ e_j. clash (ground (arith, ap (get_elem? es) e_j)) same in
          lookup_entry (set_value es i val) q j a still (there j apart ∙ at_j) same
          ∙ sym (lookup_entry es q j a distinct at_j same)
        where
          clash : e ≡ a → keys.equals a.0 q ≡ true → ⊥
          clash e_a same_a = ground (arith, rw e_a at other)

  lookup-append :
      (es : List (K × V)) (key : K) (val : V) (q : K)
      → IsDistinct es
      → IsFresh es key
      → lookup (es ++ (key, val) ∷ []) q ≡ (if keys.equals key q then some val else lookup es q)
  lookup-append es key val q distinct fresh = elim (Bool-cases (keys.equals key q)) [
    | inl same ↦ rw same (
        lookup_entry (es ++ (key, val) ∷ []) q (length es) (key, val) still
          (get_elem?-append_last es (key, val)) same)
    | inr other ↦ rw other (elsewhere other (lookup_cases es q))
  ]
    where
      still : IsDistinct (es ++ (key, val) ∷ [])
      still = IsDistinct-append es (key, val) distinct fresh

      fresh_still : keys.equals key q ≡ false → IsFresh es q → IsFresh (es ++ (key, val) ∷ []) q
      fresh_still other missing j a at_j = elim (append_entry_cases es (key, val) a j at_j) [
        | inl (lt, old) ↦ missing j a old
        | inr (last, new) ↦ ap (λ x. keys.equals x.0 q) new ∙ other
      ]

      elsewhere :
          keys.equals key q ≡ false
          → ((IsFresh es q × (lookup es q ≡ none)) ⊎ ((j : ℕ) × HasKey es j q))
          → lookup (es ++ (key, val) ∷ []) q ≡ lookup es q
      elsewhere other (inl (missing, nothing)) =
          lookup_fresh (es ++ (key, val) ∷ []) q (fresh_still other missing) ∙ sym nothing
      elsewhere other (inr (j, (a, at_j, same))) =
          let lt = get_elem?-lt es j a at_j in
          lookup_entry (es ++ (key, val) ∷ []) q j a still
            (get_elem?-append es ((key, val) ∷ []) j lt ∙ at_j) same
          ∙ sym (lookup_entry es q j a distinct at_j same)

  -- A written key answers its value, and every other key what it answered before.
  pub lookup-upsert :
      (es : List (K × V)) (key : K) (val : V) (q : K)
      → IsDistinct es
      → lookup (upsert es key val (map_find_linear es key)) q
        ≡ (if keys.equals key q then some val else lookup es q)
  unfolding upsert
  lookup-upsert es key val q distinct = elim (Option-cases (map_find_linear es key)) [
    | inl missing ↦
        rw missing (lookup-append es key val q distinct (map_find_linear-none es key missing))
    | inr (i, found) ↦
        let (e, at_i, same) = map_find_linear-some es key i found in
        rw (found, sym (equals_congr_left e.0 key q same))
          (lookup-set_value es i e val q distinct at_i)
  ]

  pub IsDistinct-upsert :
      (es : List (K × V)) (key : K) (val : V)
      → IsDistinct es
      → IsDistinct (upsert es key val (map_find_linear es key))
  unfolding upsert
  IsDistinct-upsert es key val distinct = elim (Option-cases (map_find_linear es key)) [
    | inl missing ↦
        rw missing (IsDistinct-append es (key, val) distinct (map_find_linear-none es key missing))
    | inr (i, found) ↦
        let (e, at_i, same) = map_find_linear-some es key i found in
        rw found (set_value-keeps es [] i e val at_i distinct).0
  ]
