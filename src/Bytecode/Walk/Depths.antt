-- ===== src/Bytecode/Walk/Depths.antt =====
-- The table of depths of a walk after an entry.
use gengo.Prelude.{
  ℕ, zero, suc, ◌<◌, ◌≡◌, ◌≢◌, refl, List, [], ◌∷◌, Bool, true, false, Option, none, some, arith,
  length, replicate,
}
use gengo.Prelude.Updates.{set_elem, get_elem?-set_elem_here, get_elem?-set_elem_there}
use gengo.Bytecode.Decoder.{Code}
use gengo.Bytecode.Walk.{depth_at, is_none, is_new}

pub depth_at_empty : (n i : ℕ) → depth_at (replicate n none) i ≡ none
depth_at_empty zero i = refl
depth_at_empty (suc n) zero = refl
depth_at_empty (suc n) (suc i) = depth_at_empty n i

pub depth_at_here :
    (depths : List (Option ℕ)) (i d : ℕ)
    → i < length depths
    → depth_at (set_elem depths i (some d)) i ≡ some d
depth_at_here depths i d lt = rw (get_elem?-set_elem_here depths i (some d) lt, depth_at) refl

pub depth_at_there :
    (depths : List (Option ℕ)) (i j d : ℕ)
    → i ≢ j
    → depth_at (set_elem depths i (some d)) j ≡ depth_at depths j
depth_at_there depths i j d ne = rw (get_elem?-set_elem_there depths i j (some d) ne, depth_at) refl

is_none-set_elem :
    (depths : List (Option ℕ)) (i j d : ℕ)
    → is_none (depth_at depths j) ≡ false
    → is_none (depth_at (set_elem depths i (some d)) j) ≡ false
is_none-set_elem [] i j d h = h
is_none-set_elem (x ∷ depths) zero zero d h = refl
is_none-set_elem (x ∷ depths) zero (suc j) d h = h
is_none-set_elem (x ∷ depths) (suc i) zero d h = h
is_none-set_elem (x ∷ depths) (suc i) (suc j) d h = is_none-set_elem depths i j d h

module _ (s : Code) (starts : List Bool) (depths : List (Option ℕ)) (i j d : ℕ) where
  pub is_new_still :
      is_new s starts depths j ≡ false → is_new s starts (set_elem depths i (some d)) j ≡ false
  unfolding is_new
  is_new_still h = ground (arith, is_none-set_elem depths i j d)

  pub is_new_entered : i < length depths → is_new s starts (set_elem depths i (some d)) i ≡ false
  unfolding is_new
  is_new_entered lt = rw (depth_at_here depths i d lt) (ground arith)

  pub is_new-lt : is_new s starts depths i ≡ true → i < s.code_len
  unfolding is_new
  is_new-lt h = ground arith
