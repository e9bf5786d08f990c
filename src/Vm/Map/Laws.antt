-- ===== src/Vm/Map/Laws.antt =====
-- What the operations of a map promise to each other, in every representation.
use gengo.Prelude.{ℕ, arith, ◌≡◌, refl, sym, ◌∙◌, ap}
use gengo.Prelude.{Bool, true, false, ◌⊎◌, inl, inr, List, Option, none, some}
use gengo.Prelude.{if◌then◌else◌, Bool-cases, Option-cases}
use gengo.Vm.Key.{Keys}
use gengo.Vm.Table.{
  Answer, ok, fails, Hashed, Allocator, value_at, map_find_linear, map_find_hashed_index,
  needs_growth, grown_capacity, map_buckets_for_count, out_of_memory,
}
use gengo.Vm.Table.Linear.{value_at_entry, map_find_linear-some, map_find_linear-none}
use gengo.Vm.Table.Index.{map_find_hashed_index-linear}
use gengo.Vm.Table.Insert.Growth.{insert_refused}
use gengo.Vm.Map.{
  MapObject, map_insert_hashed, map, map_managed, map_hashed, other_object, map_get, map_has,
  is_some, map_set,
}
use gengo.Vm.Map.Lookup.{lookup, lookup_fresh, lookup-upsert}
use gengo.Vm.Map.Valid.{
  entries_of, IsValidMap, IsValidMap-IsStoredMap, IsValidMap-IsDistinct, map_get-lookup,
  map_set-SetsTo,
}

-- The answer of `map_has` that goes with an answer of `map_get`.
abbrev pub presence {ℓ} : {A : Type ℓ} → Answer (Option A) → Answer Bool
presence (fails e) = fails e
presence (ok none) = ok false
presence (ok (some v)) = ok true

-- The allocator grants every request.
abbrev pub Grants : Allocator → Type 0
Grants alloc = (n : ℕ) → (alloc.has_entries n ≡ true) × (alloc.has_buckets n ≡ true)

module _ {ℓ} {K V : Type ℓ} ⦃keys : Keys K⦄ where
  -- Where every allocation is granted, a write to a valid map succeeds and leaves a valid map, in
  -- which the written key answers the value and every other key what it answered before. This
  -- holds for each representation and where the write changes it.
  pub map_get-map_set :
      (alloc : Allocator) (obj : MapObject K V) (key : K) (val : V) (q : K)
      → Grants alloc
      → IsValidMap obj
      → ((map_set alloc obj key val).0 ≡ ok tt)
        × IsValidMap (map_set alloc obj key val).1
        × (map_get (map_set alloc obj key val).1 q
            ≡ (if keys.equals key q then ok (some val) else map_get obj q))
  map_get-map_set alloc obj key val q grants valid =
      elim (map_set-SetsTo alloc obj key val (IsValidMap-IsStoredMap obj valid)) [
        | inl (done, still, entries) ↦ (
          done,
          still,
          map_get-lookup (map_set alloc obj key val).1 q still
              ∙ ap (λ es. ok (lookup es q)) entries
              ∙ ap ok (lookup-upsert (entries_of obj) key val q (IsValidMap-IsDistinct obj valid))
              ∙ answered (Bool-cases (keys.equals key q)),
        )
        | inr (refused, left, entries, (n, inl no_entries)) ↦ absurd (ground (arith, grants n))
        | inr (refused, left, entries, (n, inr no_buckets)) ↦ absurd (ground (arith, grants n))
      ]
    where
      answered :
          ((keys.equals key q ≡ true) ⊎ (keys.equals key q ≡ false))
          → ok (if keys.equals key q then some val else lookup (entries_of obj) q)
            ≡ (if keys.equals key q then ok (some val) else map_get obj q)
      answered (inl same) = rw same refl
      answered (inr other) = rw other (sym (map_get-lookup obj q valid))

  has-lookup :
      (es : List (K × V)) (q : K)
      → ok (is_some (map_find_linear es q)) ≡ presence (ok (lookup es q))
  unfolding is_some lookup
  has-lookup es q = elim (Option-cases (map_find_linear es q)) [
    | inl missing ↦ rw (lookup_fresh es q (map_find_linear-none es q missing), missing) refl
    | inr (i, found) ↦
        let (e, at_i, same) = map_find_linear-some es q i found in
        rw (found, value_at_entry es i e at_i) refl
  ]

  -- On a valid map, `map_has` answers true exactly where `map_get` answers a value.
  pub map_has-map_get :
      (obj : MapObject K V) (q : K) → IsValidMap obj → map_has obj q ≡ presence (map_get obj q)
  unfolding map_has
  map_has-map_get (map es) q valid =
      has-lookup es q ∙ ap presence (sym (map_get-lookup (map es) q valid))
  map_has-map_get (map_managed es) q valid =
      has-lookup es q ∙ ap presence (sym (map_get-lookup (map_managed es) q valid))
  map_has-map_get (map_hashed hm) q valid =
      rw (map_find_hashed_index-linear hm.entries hm.buckets q valid.indexed)
        (has-lookup hm.entries q ∙ ap presence (sym (map_get-lookup (map_hashed hm) q valid)))
  map_has-map_get other_object q valid = absurd valid.lower

  -- Where a hashed map has to grow, and the allocator grants the entries and refuses the buckets,
  -- the write fails with the entries unchanged, and no key of the map is found afterwards.
  pub map_set_refused_hides :
      (alloc : Allocator) (hm : Hashed K V) (key : K) (val : V) (q : K)
      → needs_growth hm ≡ true
      → alloc.has_entries (grown_capacity hm) ≡ true
      → alloc.has_buckets (map_buckets_for_count (grown_capacity hm)) ≡ false
      → ((map_set alloc (map_hashed hm) key val).0 ≡ fails out_of_memory)
        × (entries_of (map_set alloc (map_hashed hm) key val).1 ≡ hm.entries)
        × (map_get (map_set alloc (map_hashed hm) key val).1 q ≡ ok none)
  unfolding map_set map_insert_hashed map_get map_find_hashed_index value_at
  map_set_refused_hides alloc hm key val q growing entries refused =
      rw (insert_refused alloc hm key val growing entries refused) (refl, refl, refl)
