-- ===== src/Vm/Map/Tests.antt =====
-- Runs of the map operations on integers and strings, and the theorems at these inputs.
use gengo.Prelude.{ℕ, ◌<◌, arith, ◌≡◌, refl}
use gengo.Prelude.{true, false, List, [], ◌∷◌, none, some, length, replicate, if◌then◌else◌}
use gengo.Prelude.Text.{bytes_eq, codes}
use gengo.Vm.Key.Value.{Value, int, string, dyn_string, value_keys, plain_equals, plain_hash}
use gengo.Vm.Table.{
  ok, fails, type_error, out_of_memory, Buckets, Hashed, Allocator, double_until,
  map_buckets_for_count, value_at, set_value, map_find_linear, key_matches, found_in, find_probe,
  map_find_hashed_index, built_in, build_probe, build_from, map_build_hashed_buckets, needs_growth,
  grown_capacity, grow, inserted_in, insert_probe, insert_hashed,
}
use gengo.Vm.Table.Index.{map_find_hashed_index-linear}
use gengo.Vm.Table.Insert.{IsValid, IsValid-IsStored}
use gengo.Vm.Table.Insert.Growth.{Inserts, insert_hashed-Inserts}
use gengo.Vm.Map.{
  MapObject, map_managed, map_hashed, other_object, map_get, map_has, map_insert_hashed,
  append_entry, set_linear, map_set, swap_remove, delete_linear, delete_hashed, map_delete,
}
use gengo.Vm.Map.Valid.{
  IsValidMap, IsStoredMap, IsValidMap-IsStoredMap, SetsTo, written, entries_of, map_set-SetsTo,
}
use gengo.Vm.Map.Deletes.{map_get-map_delete}
use gengo.Vm.Map.Laws.{Grants, map_get-map_set, map_set_refused_hides}

program : Unit {0}
unfolding double_until map_buckets_for_count value_at set_value map_find_linear key_matches found_in
    find_probe map_find_hashed_index built_in build_probe build_from map_build_hashed_buckets
    needs_growth grown_capacity grow inserted_in insert_probe insert_hashed map_get map_has
    map_insert_hashed append_entry set_linear map_set swap_remove delete_linear delete_hashed
    map_delete plain_equals plain_hash bytes_eq
program = tt

abbrev plenty : Allocator
plenty = record { has_entries = λ n. true; has_buckets = λ n. true }

plenty-Grants : Grants plenty
plenty-Grants n = (refl, refl)

-- Entries are granted, buckets are not.
abbrev no_buckets : Allocator
no_buckets = record { has_entries = λ n. true; has_buckets = λ n. false }

abbrev Entries : Type 0
Entries = List (Value × ℕ)

-- The map after the writes of the list.
abbrev fill : MapObject Value ℕ → Entries → MapObject Value ℕ
fill obj [] = obj
fill obj (e ∷ es) = fill (map_set plenty obj e.0 e.1).1 es

fill-IsValidMap :
    (obj : MapObject Value ℕ) (es : Entries) → IsValidMap obj → IsValidMap (fill obj es)
fill-IsValidMap obj [] valid = valid
fill-IsValidMap obj (e ∷ es) valid =
    fill-IsValidMap (map_set plenty obj e.0 e.1).1 es
      (map_get-map_set plenty obj e.0 e.1 e.0 plenty-Grants valid).1

abbrev empty : MapObject Value ℕ
empty = map_managed []

empty-IsValidMap : IsValidMap empty
empty-IsValidMap i j a b at_i = absurd (ground arith)

abbrev eight_entries : Entries
eight_entries =
    (int 1, 10)
    ∷ (int 17, 11)
    ∷ (string (codes "x"), 12)
    ∷ (int 33, 13)
    ∷ (int 4, 14)
    ∷ (int 5, 15)
    ∷ (int 6, 16)
    ∷ (int 7, 17)
    ∷ []

abbrev eight : MapObject Value ℕ
eight = fill empty eight_entries

eight-IsValidMap : IsValidMap eight
eight-IsValidMap = fill-IsValidMap empty eight_entries empty-IsValidMap

-- the ninth entry turns the map into a hashed one
abbrev nine : MapObject Value ℕ
nine = fill eight ((int 49, 18) ∷ [])

nine-IsValidMap : IsValidMap nine
nine-IsValidMap = fill-IsValidMap eight ((int 49, 18) ∷ []) eight-IsValidMap

abbrev x_view : Value
x_view = dyn_string (codes "x")

abbrev table_of : MapObject Value ℕ → Hashed Value ℕ
table_of (map_hashed hm) = hm
table_of _ = record { entries = []; capacity = 0; buckets = [] }

-- four keys that share a home slot, and a string found through its other representation
nine_answers :
    map_get nine (int 17) ∷ map_get nine (int 49) ∷ map_get nine (int 65) ∷ map_get nine x_view ∷ []
    ≡ ok (some 11) ∷ ok (some 18) ∷ ok none ∷ ok (some 12) ∷ []
unfolding program
nine_answers = refl

abbrev left : MapObject Value ℕ
left = (map_delete nine (int 17)).1

nine_after_delete :
    (map_delete nine (int 17)).0
      ∷ map_get left (int 17)
      ∷ map_get left (int 33)
      ∷ map_get left (int 49)
      ∷ []
    ≡ ok (some 11) ∷ ok none ∷ ok (some 13) ∷ ok (some 18) ∷ []
unfolding program
nine_after_delete = refl

abbrev no_map : MapObject Value ℕ
no_map = other_object

map_get-other_object : map_get no_map (int 1) ≡ fails type_error
unfolding program
map_get-other_object = refl

nine-IsValid : IsValid (table_of nine)
unfolding program
nine-IsValid = nine-IsValidMap

-- the fuel of the doubling is far from used up
double_until_large : map_buckets_for_count 1000 ≡ 2048
unfolding program
double_until_large = refl

map_get-map_set_example :
    ((map_set plenty eight (int 49) 18).0 ≡ ok tt)
    × IsValidMap (map_set plenty eight (int 49) 18).1
    × (map_get (map_set plenty eight (int 49) 18).1 (int 17)
        ≡ (if plain_equals (int 49) (int 17) then ok (some 18) else map_get eight (int 17)))
map_get-map_set_example =
    map_get-map_set plenty eight (int 49) 18 (int 17) plenty-Grants eight-IsValidMap

map_get-map_delete_example :
    IsValidMap (map_delete nine (int 17)).1
    × ((map_delete nine (int 17)).0 ≡ map_get nine (int 17))
    × (map_get (map_delete nine (int 17)).1 (int 49)
        ≡ (if plain_equals (int 17) (int 49) then ok none else map_get nine (int 49)))
map_get-map_delete_example = map_get-map_delete nine (int 17) (int 49) nine-IsValidMap

eight-IsStoredMap : IsStoredMap eight
eight-IsStoredMap = IsValidMap-IsStoredMap eight eight-IsValidMap

map_set-SetsTo_example :
    SetsTo no_buckets eight (written eight (int 49) 18) (map_set no_buckets eight (int 49) 18)
map_set-SetsTo_example = map_set-SetsTo no_buckets eight (int 49) 18 eight-IsStoredMap

abbrev table : Hashed Value ℕ
table = table_of nine

map_find_hashed_index-linear_example :
    map_find_hashed_index table.entries table.buckets (int 49)
    ≡ map_find_linear table.entries (int 49)
map_find_hashed_index-linear_example =
    map_find_hashed_index-linear table.entries table.buckets (int 49) nine-IsValid.indexed

abbrev cleared : Buckets
cleared = replicate 32 none

nine_in_32 : length table.entries < length cleared
unfolding program
nine_in_32 = omega arith

insert_hashed-Inserts_example :
    Inserts plenty table (int 65) 19 (insert_hashed plenty table (int 65) 19)
insert_hashed-Inserts_example =
    insert_hashed-Inserts plenty table (int 65) 19 (IsValid-IsStored table nine-IsValid)

nine_grows : needs_growth table ≡ true
unfolding program
nine_grows = refl

map_set_refused_hides_example :
    ((map_set no_buckets (map_hashed table) (int 65) 19).0 ≡ fails out_of_memory)
    × (entries_of (map_set no_buckets (map_hashed table) (int 65) 19).1 ≡ table.entries)
    × (map_get (map_set no_buckets (map_hashed table) (int 65) 19).1 (int 17) ≡ ok none)
map_set_refused_hides_example =
    map_set_refused_hides no_buckets table (int 65) 19 (int 17) nine_grows refl refl

same_string : plain_equals (string (codes "x")) x_view ≡ true
unfolding program
same_string = refl
