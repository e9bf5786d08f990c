-- ===== src/Vm/Key.antt =====
-- What a map asks of its keys: `mapKeyEquals` and `mapHashValue` of src/lang/vm_map.zig. The fields
-- after the two functions are what an open-addressed table relies on. They do not hold for every
-- pair of values: an integer equals a float of the same value and hashes otherwise.
pub mod Value
use gengo.Prelude.{ℕ, Bool, true, ◌≡◌, arith}

pub record Keys {ℓ} (K : Type ℓ) : Type ℓ where
  pub equals : K → K → Bool
  pub hash : K → ℕ
  pub equals_refl : (a : K) → equals a a ≡ true
  pub equals_symm : (a b : K) → equals a b ≡ equals b a
  pub equals_trans : (a b c : K) → equals a b ≡ true → equals b c ≡ true → equals a c ≡ true
  pub hash-equals : (a b : K) → equals a b ≡ true → hash a ≡ hash b

module _ {ℓ} {K : Type ℓ} ⦃keys : Keys K⦄ where
  pub equals_congr_left : (a b c : K) → keys.equals a b ≡ true → keys.equals a c ≡ keys.equals b c
  equals_congr_left a b c e =
      ground (arith, keys.equals_symm a b, keys.equals_trans a b c, keys.equals_trans b a c)

  pub equals_congr_right : (a b c : K) → keys.equals b c ≡ true → keys.equals a b ≡ keys.equals a c
  equals_congr_right a b c e =
      rw (keys.equals_symm a b, keys.equals_symm a c) (equals_congr_left b c a e)
