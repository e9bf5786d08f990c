-- ===== src/Vm/Table.antt =====
-- The hashed table of src/lang/vm_map.zig, over the keys and values of any type. A bucket is
-- `none` where the code holds a negative index. `entries` of a hashed map are the first `len` of the
-- code's slice, and `capacity` is the length of that slice. Whether an allocation succeeds is asked
-- of an `Allocator`; the roots that protect values from the collector are not modelled.
pub mod Slots
pub mod Linear
pub mod Index
pub mod Build
pub mod Entries
pub mod Insert
use gengo.Prelude.{ℕ, zero, suc, ◌+◌, ◌-◌, ◌*◌, bit_and}
use gengo.Prelude.{Bool, true, false, ◌||◌, List, [], ◌∷◌, ◌++◌, Option, none, some}
use gengo.Prelude.{length, get_elem?, replicate, ltb, leb, ◌==◌, if◌then◌else◌}
use gengo.Prelude.Updates.{set_elem}
use gengo.Vm.Key.{Keys}

-- the errors the operations return, and the index panic that Zig would raise
pub data MapError : Type 0 where
  type_error out_of_memory out_of_bounds : MapError

pub data Answer {ℓ} (A : Type ℓ) : Type ℓ where
  ok : A → Answer A
  fails : MapError → Answer A

-- the answer of an operation that returns nothing
abbrev pub Done : Type 0
Done = Answer (Unit {0})

abbrev pub Buckets : Type 0
Buckets = List (Option ℕ)

-- `map_hashed` of the object
pub record Hashed {ℓ} (K V : Type ℓ) : Type ℓ where
  pub entries : List (K × V)
  pub capacity : ℕ
  pub buckets : Buckets

-- `vmAllocManagedSlice` by the number of entries, and of buckets, asked for
pub record Allocator : Type 0 where
  pub has_entries : ℕ → Bool
  pub has_buckets : ℕ → Bool

-- while (p < n) p <<= 1
unfoldable pub double_until : ℕ → ℕ → ℕ → ℕ
double_until zero n p = p
double_until (suc fuel) n p = if ltb p n then double_until fuel n (p * 2) else p

-- The loop doubles at most as often as it counts up.
unfoldable pub map_buckets_for_count : ℕ → ℕ
map_buckets_for_count entry_count =
    let n = if ltb entry_count 4 then 8 else entry_count * 2 in double_until n n 1

abbrev pub next_slot : Buckets → ℕ → ℕ
next_slot bs idx = bit_and (idx + 1) (length bs - 1)

pub option_suc : Option ℕ → Option ℕ
option_suc none = none
option_suc (some i) = some (suc i)

module _ {ℓ} {K V : Type ℓ} where
  pub value_of : Option (K × V) → Option V
  value_of none = none
  value_of (some e) = some e.1

  -- entries[fi].value
  unfoldable pub value_at : List (K × V) → Option ℕ → Option V
  unfolding value_of
  value_at es none = none
  value_at es (some fi) = value_of (get_elem? es fi)

  with_value : List (K × V) → ℕ → Option (K × V) → V → List (K × V)
  with_value es fi none v = es
  with_value es fi (some e) v = set_elem es fi (e.0, v)

  -- entries[fi].value = v
  unfoldable pub set_value : List (K × V) → ℕ → V → List (K × V)
  unfolding with_value
  set_value es fi v = with_value es fi (get_elem? es fi) v

module _ {ℓ} {K : Type ℓ} ⦃keys : Keys K⦄ where
  abbrev pub home_slot : Buckets → K → ℕ
  home_slot bs key = bit_and (keys.hash key) (length bs - 1)

module _ {ℓ} {K V : Type ℓ} ⦃keys : Keys K⦄ where
  unfoldable pub map_find_linear : List (K × V) → K → Option ℕ
  unfolding option_suc
  map_find_linear [] key = none
  map_find_linear (e ∷ es) key =
      if keys.equals e.0 key then some 0 else option_suc (map_find_linear es key)

  entry_matches : Option (K × V) → K → Bool
  entry_matches none key = false
  entry_matches (some e) key = keys.equals e.0 key

  -- ei < entries.len and mapKeyEquals(entries[ei].key, key)
  unfoldable pub key_matches : List (K × V) → ℕ → K → Bool
  unfolding entry_matches
  key_matches es ei key = entry_matches (get_elem? es ei) key

  -- One look at a bucket; `rest` is the answer of the slots after it. A masked index is never past
  -- the end of the buckets.
  unfoldable pub found_in : Option (Option ℕ) → List (K × V) → K → Option ℕ → Option ℕ
  found_in none es key rest = none
  found_in (some none) es key rest = none
  found_in (some (some ei)) es key rest = if key_matches es ei key then some ei else rest

  unfoldable pub find_probe : ℕ → List (K × V) → Buckets → K → ℕ → Option ℕ
  find_probe zero es bs key idx = none
  find_probe (suc n) es bs key idx =
      found_in (get_elem? bs idx) es key (find_probe n es bs key (next_slot bs idx))

  unfoldable pub map_find_hashed_index : List (K × V) → Buckets → K → Option ℕ
  map_find_hashed_index es [] key = none
  map_find_hashed_index es (b ∷ bs) key =
      find_probe (length (b ∷ bs)) es (b ∷ bs) key (home_slot (b ∷ bs) key)

  unfoldable pub built_in :
      Option (Option ℕ) → List (K × V) → Buckets → ℕ → K → ℕ → Buckets → Buckets
  built_in none es bs i key idx rest = bs
  built_in (some none) es bs i key idx rest = set_elem bs idx (some i)
  built_in (some (some cur)) es bs i key idx rest = if key_matches es cur key then bs else rest

  unfoldable pub build_probe : ℕ → List (K × V) → Buckets → ℕ → K → ℕ → Buckets
  build_probe zero es bs i key idx = bs
  build_probe (suc n) es bs i key idx =
      built_in (get_elem? bs idx) es bs i key idx (build_probe n es bs i key (next_slot bs idx))

  -- for (entries, 0..) |e, i|, from the entry numbered `i`
  unfoldable pub build_from : List (K × V) → Buckets → List (K × V) → ℕ → Buckets
  build_from es bs [] i = bs
  build_from es bs (e ∷ rest) i =
      build_from es (build_probe (length bs) es bs i e.0 (home_slot bs e.0)) rest (suc i)

  unfoldable pub map_build_hashed_buckets : List (K × V) → Buckets → Buckets
  map_build_hashed_buckets es [] = []
  map_build_hashed_buckets es (b ∷ bs) = build_from es (replicate (length (b ∷ bs)) none) es 0

  -- the test at the head of mapInsertHashed
  unfoldable pub needs_growth : Hashed K V → Bool
  needs_growth hm =
      length hm.buckets == 0
      || leb hm.capacity (length hm.entries)
      || leb (length hm.buckets * 7) ((length hm.entries + 1) * 10)

  unfoldable pub grown_capacity : Hashed K V → ℕ
  grown_capacity hm =
      let new_len = length hm.entries + 1 in
      let new_cap = if ltb hm.capacity 8 then 8 else hm.capacity * 2 in
      if ltb new_cap new_len then new_len else new_cap

  -- The entries are published before the buckets are allocated, so the object that is left when the
  -- second allocation fails has no buckets.
  unfoldable pub grow : Allocator → Hashed K V → Done × Hashed K V
  grow alloc hm =
      let out_cap = grown_capacity hm in
      let bcount = map_buckets_for_count out_cap in
      let bare = record hm { capacity = out_cap; buckets = [] } in
      if alloc.has_entries out_cap
      then (if alloc.has_buckets bcount
          then (
            ok tt,
            record bare { buckets = map_build_hashed_buckets hm.entries (replicate bcount none) },
          )
          else (fails out_of_memory, bare))
      else (fails out_of_memory, hm)

  -- One look at a bucket by the insertion. The write of a new entry asks for room in the slice.
  unfoldable pub inserted_in :
      Option (Option ℕ) → Hashed K V → K → V → ℕ → Done × Hashed K V → Done × Hashed K V
  inserted_in none hm key val slot rest = (fails out_of_bounds, hm)
  inserted_in (some none) hm key val slot rest =
      if ltb (length hm.entries) hm.capacity
      then (
        ok tt,
        record hm {
          entries = hm.entries ++ (key, val) ∷ [];
          buckets = set_elem hm.buckets slot (some (length hm.entries));
        },
      )
      else (fails out_of_bounds, hm)
  inserted_in (some (some ei)) hm key val slot rest =
      if key_matches hm.entries ei key
      then (ok tt, record hm { entries = set_value hm.entries ei val })
      else rest

  unfoldable pub insert_probe : ℕ → Hashed K V → K → V → ℕ → Done × Hashed K V
  insert_probe zero hm key val slot = (fails out_of_memory, hm)
  insert_probe (suc n) hm key val slot =
      inserted_in (get_elem? hm.buckets slot) hm key val slot
        (insert_probe n hm key val (next_slot hm.buckets slot))

  insert_after : Done × Hashed K V → K → V → Done × Hashed K V
  insert_after (fails e, hm) key val = (fails e, hm)
  insert_after (ok done, hm) key val =
      insert_probe (length hm.buckets) hm key val (home_slot hm.buckets key)

  unfoldable pub insert_hashed : Allocator → Hashed K V → K → V → Done × Hashed K V
  unfolding insert_after
  insert_hashed alloc hm key val =
      insert_after (if needs_growth hm then grow alloc hm else (ok tt, hm)) key val
