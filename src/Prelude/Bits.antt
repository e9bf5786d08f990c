-- ===== src/Prelude/Bits.antt =====
-- Masks on one byte, and `|` of two fields that share no bit, as arithmetic.
use Prim.Native.Nat.{ℕ, zero, suc, ◌+◌, ◌*◌, ◌/◌, ◌%◌, ◌^◌, ◌≤◌, ◌<◌, max, bit_and, bit_or}
use Prim.Native.Nat.{digits, bit_or-bitwise}
use mathlib.Core.Path.{◌≡◌, refl}
use mathlib.Core.Bool.{Bool, true, ◌&&◌}
use native.Mathlib.Omega.{arith}
use native.Mathlib.Nat.{pow-suc}
use gengo.Prelude.Tests.{◌==◌, ==_iff}

-- A Boolean property of all numbers below a bound, by evaluation.
holds_below : (ℕ → Bool) → ℕ → Bool
holds_below p zero = true
holds_below p (suc n) = p n && holds_below p n

holds_below_lem : (p : ℕ → Bool) (n x : ℕ) → holds_below p n ≡ true → x < n → p x ≡ true
unfolding holds_below
holds_below_lem p zero x h lt = absurd (omega arith)
holds_below_lem p (suc n) x h lt = ground (arith, holds_below_lem p n x)

top_bit_table : holds_below (λ b. bit_and b 0x80 == b / 128 * 128) 256 ≡ true
unfolding holds_below
top_bit_table = refl

pub bit_and_top : (b : ℕ) → b < 256 → bit_and b 0x80 ≡ b / 128 * 128
bit_and_top b h = (==_iff _ _).0 (holds_below_lem _ 256 b top_bit_table h)

low_bits_table : holds_below (λ b. bit_and b 0x7f == b % 128) 256 ≡ true
unfolding holds_below
low_bits_table = refl

pub bit_and_low : (b : ℕ) → b < 256 → bit_and b 0x7f ≡ b % 128
bit_and_low b h = (==_iff _ _).0 (holds_below_lem _ 256 b low_bits_table h)

-- `bit_or` by binary digits: more fuel than digits changes nothing.
or_fuel : (n m a b : ℕ) → a ≤ n → a ≤ m → digits (λ y. y) max n a b ≡ digits (λ y. y) max m a b
or_fuel zero zero a b p q = refl
or_fuel zero (suc m) zero b p q = refl
or_fuel zero (suc m) (suc a) b p q = absurd (omega arith)
or_fuel (suc n) zero zero b p q = refl
or_fuel (suc n) zero (suc a) b p q = absurd (omega arith)
or_fuel (suc n) (suc m) zero b p q = refl
or_fuel (suc n) (suc m) (suc a) b p q =
    omega (arith, or_fuel n m (suc a / 2) (b / 2) (omega arith) (omega arith))

or_digit : (a b : ℕ) → bit_or a b ≡ bit_or (a / 2) (b / 2) * 2 + max (a % 2) (b % 2)
or_digit zero b = omega (arith, bit_or-bitwise 0 b, bit_or-bitwise 0 (b / 2))
or_digit (suc a) b = omega (
  arith,
  bit_or-bitwise (suc a) b,
  bit_or-bitwise (suc a / 2) (b / 2),
  or_fuel a (suc a / 2) (suc a / 2) (b / 2) (omega arith) (omega arith),
)

or_zero_below : (n a : ℕ) → a ≤ n → bit_or a 0 ≡ a
or_zero_below n zero h = refl
or_zero_below zero (suc a) h = absurd (omega arith)
or_zero_below (suc n) (suc a) h =
    omega (arith, or_digit (suc a) 0, or_zero_below n (suc a / 2) (omega arith))

-- One digit of the low field.
or_field_step :
    (hi lo m : ℕ)
    → bit_or (hi * m) (lo / 2) ≡ hi * m + lo / 2
    → bit_or (hi * (2 * m)) lo ≡ hi * (2 * m) + lo
or_field_step hi lo m h =
    let e : hi * (2 * m) / 2 ≡ hi * m = omega arith in
    let d : bit_or (hi * (2 * m)) lo
        ≡ bit_or (hi * m) (lo / 2) * 2 + max (hi * (2 * m) % 2) (lo % 2) =
      rw e at (or_digit (hi * (2 * m)) lo) in
    omega (arith, d)

two_pow : (k : ℕ) → 2 ^ suc k ≡ 2 * 2 ^ k
two_pow k = omega (arith, pow-suc 2 k)

-- A field shifted left by `k`, and `k` bits below it.
pub bit_or_low : (k hi lo : ℕ) → lo < 2 ^ k → bit_or (hi * 2 ^ k) lo ≡ hi * 2 ^ k + lo
bit_or_low zero hi lo h = ground (arith, or_zero_below (hi * 1) (hi * 1))
bit_or_low (suc k) hi lo h =
    rw (two_pow k) (or_field_step hi lo (2 ^ k) (bit_or_low k hi (lo / 2) (half (two_pow k))))
  where
    half : 2 ^ suc k ≡ 2 * 2 ^ k → lo / 2 < 2 ^ k
    half e = omega arith
