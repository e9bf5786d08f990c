-- ===== src/Vm/Map/Valid.antt =====
-- The invariant of a map object in each representation, and that writes and deletions keep it.
use gengo.Prelude.{ℕ, ◌+◌, arith, ◌≡◌, refl}
use gengo.Prelude.{false, ◌⊎◌, inl, inr, List, [], ◌∷◌, ◌++◌, Option, none, some}
use gengo.Prelude.{length, ltb, Bool-cases, length-append}
use mathlib.Core.Logic.{Lift}
use gengo.Vm.Key.{Keys}
use gengo.Vm.Table.{
  Done, ok, fails, out_of_memory, Allocator, map_find_linear, map_buckets_for_count, grown_capacity,
  set_value,
}
use gengo.Vm.Table.Linear.{IsDistinct, map_find_linear-some, map_find_linear-none}
use gengo.Vm.Table.Index.{map_find_hashed_index-linear}
use gengo.Vm.Table.Entries.{upsert, set_value-keeps, IsDistinct-append}
use gengo.Vm.Table.Insert.{IsValid, IsStored, IsValid-IsStored}
use gengo.Vm.Table.Insert.Growth.{fresh_index, insert_hashed-Inserts}
use gengo.Vm.Map.{
  MapObject, map, map_managed, map_hashed, other_object, map_get, map_set, map_insert_hashed,
  append_entry, set_linear,
}
use gengo.Vm.Map.Lookup.{lookup}

-- The allocator refuses some request.
abbrev pub RefusesSome : Allocator → Type 0
RefusesSome alloc = (n : ℕ) × ((alloc.has_entries n ≡ false) ⊎ (alloc.has_buckets n ≡ false))

module _ {ℓ} {K V : Type ℓ} where
  abbrev pub entries_of : MapObject K V → List (K × V)
  entries_of (map es) = es
  entries_of (map_managed es) = es
  entries_of (map_hashed hm) = hm.entries
  entries_of other_object = []

module _ {ℓ} {K V : Type ℓ} ⦃keys : Keys K⦄ where
  abbrev pub IsValidMap : MapObject K V → Type ℓ
  IsValidMap (map es) = IsDistinct es
  IsValidMap (map_managed es) = IsDistinct es
  IsValidMap (map_hashed hm) = IsValid hm
  IsValidMap other_object = Lift {0, ℓ} ⊥

  -- As above, but a refused allocation may have taken the buckets of a hashed map.
  abbrev pub IsStoredMap : MapObject K V → Type ℓ
  IsStoredMap (map es) = IsDistinct es
  IsStoredMap (map_managed es) = IsDistinct es
  IsStoredMap (map_hashed hm) = IsStored hm
  IsStoredMap other_object = Lift {0, ℓ} ⊥

  pub IsValidMap-IsStoredMap : (obj : MapObject K V) → IsValidMap obj → IsStoredMap obj
  IsValidMap-IsStoredMap (map es) valid = valid
  IsValidMap-IsStoredMap (map_managed es) valid = valid
  IsValidMap-IsStoredMap (map_hashed hm) valid = IsValid-IsStored hm valid
  IsValidMap-IsStoredMap other_object valid = valid

  pub IsValidMap-IsDistinct : (obj : MapObject K V) → IsValidMap obj → IsDistinct (entries_of obj)
  IsValidMap-IsDistinct (map es) valid = valid
  IsValidMap-IsDistinct (map_managed es) valid = valid
  IsValidMap-IsDistinct (map_hashed hm) valid = valid.distinct
  IsValidMap-IsDistinct other_object valid = absurd valid.lower

  -- A lookup answers what a search in order of the entries finds, in every representation.
  pub map_get-lookup :
      (obj : MapObject K V) (q : K)
      → IsValidMap obj
      → map_get obj q ≡ ok (lookup (entries_of obj) q)
  unfolding map_get lookup
  map_get-lookup (map es) q valid = refl
  map_get-lookup (map_managed es) q valid = refl
  map_get-lookup (map_hashed hm) q valid =
      rw (map_find_hashed_index-linear hm.entries hm.buckets q valid.indexed) refl
  map_get-lookup other_object q valid = absurd valid.lower

  abbrev pub written : MapObject K V → K → V → List (K × V)
  written obj key val = upsert (entries_of obj) key val (map_find_linear (entries_of obj) key)

  -- The entries are those of `target`; or the write reports that an allocation was refused, and the
  -- entries are those of before or those of `target`.
  abbrev pub SetsTo : Allocator → MapObject K V → List (K × V) → Done × MapObject K V → Type ℓ
  SetsTo alloc obj target result =
      ((result.0 ≡ ok tt) × IsValidMap result.1 × (entries_of result.1 ≡ target))
      ⊎ ((result.0 ≡ fails out_of_memory)
          × IsStoredMap result.1
          × ((entries_of result.1 ≡ entries_of obj) ⊎ (entries_of result.1 ≡ target))
          × RefusesSome alloc)

  append_entry-Sets :
      (alloc : Allocator) (obj : MapObject K V) (es : List (K × V)) (key : K) (val : V)
      → IsStoredMap obj
      → IsDistinct es
      → map_find_linear es key ≡ none
      → SetsTo alloc obj (es ++ (key, val) ∷ []) (append_entry alloc obj es key val)
  unfolding append_entry
  append_entry-Sets alloc obj es key val stored distinct missing =
      let size = length es + 1 in
      let ext = es ++ (key, val) ∷ [] in
      let ext_size : length ext ≡ size = length-append es ((key, val) ∷ []) in
      let ext_distinct =
        IsDistinct-append es (key, val) distinct (map_find_linear-none es key missing) in
      let (ix, spare) = fresh_index ext size ext_distinct (omega arith) (omega arith) in
      elim (Bool-cases (alloc.has_entries size)) [
        | inl entries ↦ elim (Bool-cases (ltb 8 size)) [
          | inl large ↦ elim (Bool-cases (alloc.has_buckets (map_buckets_for_count size))) [
            | inl buckets ↦
                rw (entries, large, buckets)
                  (inl (
                    refl,
                    record {
                      distinct = ext_distinct;
                      fits = omega arith;
                      indexed = ix;
                      load = omega arith;
                    },
                    refl,
                  ))
            | inr refused ↦
                rw (entries, large, refused)
                  (inr (refl, ext_distinct, inr refl, (map_buckets_for_count size, inr refused)))
          ]
          | inr small ↦ rw (entries, small) (inl (refl, ext_distinct, refl))
        ]
        | inr refused ↦ rw refused (inr (refl, stored, inl refl, (size, inl refused)))
      ]

  -- A write to a slice that is searched in order; `rebuild` is the slice's constructor.
  set_linear-Sets :
      (alloc : Allocator) (rebuild : List (K × V) → MapObject K V) (es : List (K × V)) (key : K)
      (val : V) (o : Option ℕ)
      → ((xs : List (K × V)) → IsDistinct xs → IsValidMap (rebuild xs))
      → ((xs : List (K × V)) → entries_of (rebuild xs) ≡ xs)
      → IsDistinct es
      → map_find_linear es key ≡ o
      → SetsTo alloc (rebuild es) (upsert es key val o) (set_linear alloc rebuild es key val o)
  unfolding set_linear upsert
  set_linear-Sets alloc rebuild es key val none valid view distinct missing =
      let stored = IsValidMap-IsStoredMap (rebuild es) (valid es distinct) in
      append_entry-Sets alloc (rebuild es) es key val stored distinct missing
  set_linear-Sets alloc rebuild es key val (some i) valid view distinct found =
      let (e, at_i, same) = map_find_linear-some es key i found in
      let still = (set_value-keeps es [] i e val at_i distinct).0 in
      inl (refl, valid (set_value es i val) still, view (set_value es i val))

  -- A write to a map that is valid, or that a refused allocation left behind, makes of its entries
  -- what a write in order would and leaves a valid map; or it fails because an allocation was
  -- refused, and the entries are those of before or those of the write.
  pub map_set-SetsTo :
      (alloc : Allocator) (obj : MapObject K V) (key : K) (val : V)
      → IsStoredMap obj
      → SetsTo alloc obj (written obj key val) (map_set alloc obj key val)
  unfolding map_set map_insert_hashed
  map_set-SetsTo alloc (map es) key val stored =
      set_linear-Sets alloc map es key val (map_find_linear es key) (λ xs h. h) (λ xs. refl) stored
        refl
  map_set-SetsTo alloc (map_managed es) key val stored =
      set_linear-Sets alloc map_managed es key val (map_find_linear es key) (λ xs h. h) (λ xs. refl)
        stored refl
  map_set-SetsTo alloc (map_hashed hm) key val stored =
      elim (insert_hashed-Inserts alloc hm key val stored) [
        | inl (done, (valid, entries)) ↦ inl (done, valid, entries)
        | inr (refused, (left, entries, inl no_entries)) ↦
            inr (refused, left, inl entries, (grown_capacity hm, inl no_entries))
        | inr (refused, (left, entries, inr no_buckets)) ↦ inr (
          refused,
          left,
          inl entries,
          (map_buckets_for_count (grown_capacity hm), inr no_buckets),
        )
      ]
  map_set-SetsTo alloc other_object key val stored = absurd stored.lower
