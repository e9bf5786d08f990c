-- ===== src/Vm/Map/Deletes.antt =====
-- What a deletion promises, in every representation.
use gengo.Prelude.{ℕ, suc, ◌-◌, ◌<◌, arith, ◌≡◌, refl, sym, ◌∙◌, ap}
use gengo.Prelude.{true, false, ◌⊎◌, inl, inr, List, Option, none, some}
use gengo.Prelude.{length, get_elem?, if◌then◌else◌, Bool-cases}
use gengo.Prelude.Updates.{get_elem?-lt}
use gengo.Vm.Key.{Keys, equals_congr_left, equals_congr_right}
use gengo.Vm.Table.{Answer, ok, Hashed, value_at, map_find_linear, map_find_hashed_index}
use gengo.Vm.Table.Linear.{IsDistinct, value_at_entry, map_find_linear-some, map_find_linear-none}
use gengo.Vm.Table.Index.{map_find_hashed_index-linear}
use gengo.Vm.Table.Build.Whole.{map_build_hashed_buckets-Indexes}
use gengo.Vm.Table.Insert.{IsValid}
use gengo.Vm.Map.{
  MapObject, map, map_managed, map_hashed, other_object, map_get, swap_remove, delete_linear,
  delete_hashed, map_delete,
}
use gengo.Vm.Map.Lookup.{lookup, lookup_entry, lookup_fresh}
use gengo.Vm.Map.Delete.{IsDistinct-swap_remove, length-swap_remove, lookup-swap_remove}
use gengo.Vm.Map.Valid.{entries_of, IsValidMap, map_get-lookup}

module _ {ℓ} {K V : Type ℓ} ⦃keys : Keys K⦄ where
  -- The result's map is valid and its answer is what `obj` held under `key`, which is gone from it;
  -- other keys are held as before.
  abbrev Deletes : MapObject K V → K → Answer (Option V) × MapObject K V → Type ℓ
  Deletes obj key result =
      IsValidMap result.1
      × (result.0 ≡ ok (lookup (entries_of obj) key))
      × ((q : K)
          → lookup (entries_of result.1) q
            ≡ (if keys.equals key q then none else lookup (entries_of obj) q))

  missing_stays :
      (es : List (K × V)) (key q : K)
      → map_find_linear es key ≡ none
      → lookup es q ≡ (if keys.equals key q then none else lookup es q)
  missing_stays es key q missing = elim (Bool-cases (keys.equals key q)) [
    | inl same ↦ rw same (lookup_fresh es q (λ i e at_i. fresh_too i e at_i same))
    | inr other ↦ rw other refl
  ]
    where
      fresh_too :
          (i : ℕ) (e : K × V)
          → get_elem? es i ≡ some e
          → keys.equals key q ≡ true
          → keys.equals e.0 q ≡ false
      fresh_too i e at_i same =
          sym (equals_congr_right e.0 key q same) ∙ map_find_linear-none es key missing i e at_i

  -- The entries after the deletion of the one numbered `i`, which has the key.
  removed :
      (es : List (K × V)) (key : K) (i : ℕ)
      → IsDistinct es
      → map_find_linear es key ≡ some i
      → IsDistinct (swap_remove es i)
        × (suc (length (swap_remove es i)) ≡ length es)
        × (value_at es (some i) ≡ lookup es key)
        × ((q : K)
            → lookup (swap_remove es i) q ≡ (if keys.equals key q then none else lookup es q))
  removed es key i distinct found =
      let (e, at_i, same) = map_find_linear-some es key i found in
      let n = length es - 1 in
      let lt = get_elem?-lt es i e at_i in
      let size : length es ≡ suc n = omega arith in
      (
        IsDistinct-swap_remove es i n e distinct size at_i,
        omega (arith, length-swap_remove es i n e distinct size at_i),
        value_at_entry es i e at_i ∙ sym (lookup_entry es key i e distinct at_i same),
        λ q.
            rw (sym (equals_congr_left e.0 key q same))
              (lookup-swap_remove es i n e distinct size at_i q),
      )

  delete_linear-Deletes :
      (rebuild : List (K × V) → MapObject K V) (es : List (K × V)) (key : K) (o : Option ℕ)
      → ((xs : List (K × V)) → IsDistinct xs → IsValidMap (rebuild xs))
      → ((xs : List (K × V)) → entries_of (rebuild xs) ≡ xs)
      → IsDistinct es
      → map_find_linear es key ≡ o
      → Deletes (rebuild es) key (delete_linear rebuild es o)
  unfolding delete_linear
  delete_linear-Deletes rebuild es key none valid view distinct missing = (
    valid es distinct,
    rw (view es) (ap ok (sym (lookup_fresh es key (map_find_linear-none es key missing)))),
    λ q. rw (view es) (missing_stays es key q missing),
  )
  delete_linear-Deletes rebuild es key (some i) valid view distinct found =
      let (still, size, answer, rest) = removed es key i distinct found in
      (
        valid (swap_remove es i) still,
        rw (view es) (ap ok answer),
        λ q. rw (view es, view (swap_remove es i)) (rest q),
      )

  delete_hashed-Deletes :
      (hm : Hashed K V) (key : K) (o : Option ℕ)
      → IsValid hm
      → map_find_linear hm.entries key ≡ o
      → Deletes (map_hashed hm) key (delete_hashed hm o)
  unfolding delete_hashed
  delete_hashed-Deletes hm key none valid missing = (
    valid,
    ap ok (sym (lookup_fresh hm.entries key (map_find_linear-none hm.entries key missing))),
    λ q. missing_stays hm.entries key q missing,
  )
  delete_hashed-Deletes hm key (some i) valid found =
      let es = swap_remove hm.entries i in
      let (still, size, answer, rest) = removed hm.entries key i valid.distinct found in
      let load = valid.load in
      let fits = valid.fits in
      let spare : length es < length hm.buckets = omega arith in
      let (ix, same_length) =
        map_build_hashed_buckets-Indexes es hm.buckets valid.indexed.power still
          valid.indexed.length_power spare in
      (
        record { distinct = still; fits = omega arith; indexed = ix; load = omega arith },
        ap ok answer,
        rest,
      )

  map_delete-Deletes :
      (obj : MapObject K V) (key : K) → IsValidMap obj → Deletes obj key (map_delete obj key)
  unfolding map_delete
  map_delete-Deletes (map es) key valid =
      delete_linear-Deletes map es key (map_find_linear es key) (λ xs h. h) (λ xs. refl) valid refl
  map_delete-Deletes (map_managed es) key valid =
      delete_linear-Deletes map_managed es key (map_find_linear es key) (λ xs h. h) (λ xs. refl)
        valid refl
  map_delete-Deletes (map_hashed hm) key valid =
      delete_hashed-Deletes hm key (map_find_hashed_index hm.entries hm.buckets key) valid
        (sym (map_find_hashed_index-linear hm.entries hm.buckets key valid.indexed))
  map_delete-Deletes other_object key valid = absurd valid.lower

  -- A deletion from a valid map answers what a lookup of the key answered and leaves a valid map,
  -- in which the key answers nothing and every other key what it answered before.
  pub map_get-map_delete :
      (obj : MapObject K V) (key q : K)
      → IsValidMap obj
      → IsValidMap (map_delete obj key).1
        × ((map_delete obj key).0 ≡ map_get obj key)
        × (map_get (map_delete obj key).1 q
            ≡ (if keys.equals key q then ok none else map_get obj q))
  map_get-map_delete obj key q valid =
      let (still, answer, rest) = map_delete-Deletes obj key valid in
      (
        still,
        answer ∙ sym (map_get-lookup obj key valid),
        map_get-lookup (map_delete obj key).1 q still
            ∙ ap ok (rest q)
            ∙ answered (Bool-cases (keys.equals key q)),
      )
    where
      answered :
          ((keys.equals key q ≡ true) ⊎ (keys.equals key q ≡ false))
          → ok (if keys.equals key q then none else lookup (entries_of obj) q)
            ≡ (if keys.equals key q then ok none else map_get obj q)
      answered (inl same) = rw same refl
      answered (inr other) = rw other (sym (map_get-lookup obj q valid))
