-- ===== src/Vm/Map.antt =====
-- The map operations of src/lang/vm_map.zig on an object, over its three representations: a slice
-- that is searched in order (`map`, `map_managed`) and the hashed table. `none` stands for the
-- `.null` that a lookup or a deletion of a missing key answers.
pub mod Lookup
pub mod Delete
pub mod Valid
pub mod Laws
pub mod Deletes
pub mod Tests
use gengo.Prelude.{
  ℕ, zero, suc, ◌+◌, ◌-◌, Bool, true, false, List, [], ◌∷◌, ◌++◌, Option, none, some,
}
use gengo.Prelude.{length, get_elem?, take, replicate, ltb, if◌then◌else◌}
use gengo.Prelude.Updates.{set_elem}
use gengo.Vm.Key.{Keys}
use gengo.Vm.Table.{
  Answer, Done, ok, fails, MapError, type_error, out_of_memory, Hashed, Allocator, value_at,
  set_value, map_buckets_for_count, map_find_linear, map_find_hashed_index,
  map_build_hashed_buckets, insert_hashed,
}

-- the object's cases that the operations tell apart
pub data MapObject {ℓ} (K V : Type ℓ) : Type ℓ where
  map map_managed : List (K × V) → MapObject K V
  map_hashed : Hashed K V → MapObject K V
  other_object : MapObject K V

is_some : Option ℕ → Bool
is_some none = false
is_some (some fi) = true

module _ {ℓ} {K V : Type ℓ} where
  with_last : List (K × V) → ℕ → Option (K × V) → List (K × V)
  with_last es fi none = es
  with_last es fi (some e) = take (length es - 1) (set_elem es fi e)

  -- items[fi] = items[items.len - 1], and the slice without its last entry
  unfoldable pub swap_remove : List (K × V) → ℕ → List (K × V)
  unfolding with_last
  swap_remove es fi = with_last es fi (get_elem? es (length es - 1))

module _ {ℓ} {K V : Type ℓ} ⦃keys : Keys K⦄ where
  unfoldable pub map_get : MapObject K V → K → Answer (Option V)
  map_get (map es) key = ok (value_at es (map_find_linear es key))
  map_get (map_managed es) key = ok (value_at es (map_find_linear es key))
  map_get (map_hashed hm) key =
      ok (value_at hm.entries (map_find_hashed_index hm.entries hm.buckets key))
  map_get other_object key = fails type_error

  unfoldable pub map_has : MapObject K V → K → Answer Bool
  unfolding is_some
  map_has (map es) key = ok (is_some (map_find_linear es key))
  map_has (map_managed es) key = ok (is_some (map_find_linear es key))
  map_has (map_hashed hm) key = ok (is_some (map_find_hashed_index hm.entries hm.buckets key))
  map_has other_object key = fails type_error

  unfoldable pub map_insert_hashed : Allocator → MapObject K V → K → V → Done × MapObject K V
  map_insert_hashed alloc (map_hashed hm) key val =
      let (answer, hm') = insert_hashed alloc hm key val in (answer, map_hashed hm')
  map_insert_hashed alloc obj key val = (fails type_error, obj)

  -- The slice is extended, and hashed from the ninth entry on. The extended slice is published
  -- before the buckets are allocated.
  unfoldable pub append_entry :
      Allocator → MapObject K V → List (K × V) → K → V → Done × MapObject K V
  append_entry alloc obj es key val =
      let ext = es ++ (key, val) ∷ [] in
      let new_len = length es + 1 in
      let bcount = map_buckets_for_count new_len in
      if alloc.has_entries new_len
      then (if ltb 8 new_len
          then (if alloc.has_buckets bcount
              then (
                ok tt,
                map_hashed record {
                  entries = ext;
                  capacity = new_len;
                  buckets = map_build_hashed_buckets ext (replicate bcount none);
                },
              )
              else (fails out_of_memory, map_managed ext))
          else (ok tt, map_managed ext))
      else (fails out_of_memory, obj)

  -- `rebuild` puts a slice back into the object.
  unfoldable pub set_linear :
      Allocator
      → (List (K × V) → MapObject K V)
      → List (K × V)
      → K
      → V
      → Option ℕ
      → Done × MapObject K V
  set_linear alloc rebuild es key val none = append_entry alloc (rebuild es) es key val
  set_linear alloc rebuild es key val (some fi) = (ok tt, rebuild (set_value es fi val))

  unfoldable pub map_set : Allocator → MapObject K V → K → V → Done × MapObject K V
  map_set alloc (map es) key val = set_linear alloc map es key val (map_find_linear es key)
  map_set alloc (map_managed es) key val =
      set_linear alloc map_managed es key val (map_find_linear es key)
  map_set alloc (map_hashed hm) key val = map_insert_hashed alloc (map_hashed hm) key val
  map_set alloc other_object key val = (fails type_error, other_object)

  unfoldable pub delete_linear :
      (List (K × V) → MapObject K V) → List (K × V) → Option ℕ → Answer (Option V) × MapObject K V
  delete_linear rebuild es none = (ok none, rebuild es)
  delete_linear rebuild es (some fi) = (ok (value_at es (some fi)), rebuild (swap_remove es fi))

  unfoldable pub delete_hashed : Hashed K V → Option ℕ → Answer (Option V) × MapObject K V
  delete_hashed hm none = (ok none, map_hashed hm)
  delete_hashed hm (some fi) =
      let es = swap_remove hm.entries fi in
      (
        ok (value_at hm.entries (some fi)),
        map_hashed (record hm { entries = es; buckets = map_build_hashed_buckets es hm.buckets }),
      )

  unfoldable pub map_delete : MapObject K V → K → Answer (Option V) × MapObject K V
  map_delete (map es) key = delete_linear map es (map_find_linear es key)
  map_delete (map_managed es) key = delete_linear map_managed es (map_find_linear es key)
  map_delete (map_hashed hm) key =
      delete_hashed hm (map_find_hashed_index hm.entries hm.buckets key)
  map_delete other_object key = (fails type_error, other_object)
