-- ===== src/Prelude/Bits.antt =====
-- The bit operations at variables: a law for the lowest digit, and from it masks, fields and tests.
use Prim.Native.Nat.{
  ℕ, zero, suc, ◌+◌, ◌-◌, ◌*◌, ◌/◌, ◌%◌, ◌^◌, ◌≤◌, ◌<◌, min, max, bit_and, bit_or, bit_xor, differ,
}
use Prim.Native.Nat.{digits, bitwise, bit_and-bitwise, bit_or-bitwise, bit_xor-bitwise}
use mathlib.Core.Path.{◌≡◌, refl, ap, ◌∙◌}
use native.Mathlib.Omega.{arith}
use native.Mathlib.Nat.{pow-suc, one-le-pow, div-add-mod}

-- The digit recursion does not depend on its fuel once there is enough.
module _ (base : ℕ → ℕ) (op : ℕ → ℕ → ℕ) where
  enough_fuel : (a n k b : ℕ) → a ≤ n → a ≤ k → digits base op n a b ≡ digits base op k a b
  enough_fuel zero zero zero b p q = refl
  enough_fuel zero zero (suc k) b p q = refl
  enough_fuel zero (suc n) zero b p q = refl
  enough_fuel zero (suc n) (suc k) b p q = refl
  enough_fuel (suc a) zero k b p q = absurd (omega arith)
  enough_fuel (suc a) (suc n) zero b p q = absurd (omega arith)
  enough_fuel (suc a) (suc n) (suc k) b p q =
      ap (λ (t : ℕ). t * 2 + op (suc a % 2) (b % 2))
        (enough_fuel (suc a / 2) n k (b / 2) (omega arith) (omega arith))

  lowest_digit :
      (a b : ℕ)
      → bitwise base op (suc a) b ≡ bitwise base op (suc a / 2) (b / 2) * 2 + op (suc a % 2) (b % 2)
  lowest_digit a b =
      ap (λ (t : ℕ). t * 2 + op (suc a % 2) (b % 2))
        (enough_fuel (suc a / 2) a (suc a / 2) (b / 2) (omega arith) (omega arith))

and_step : (a b : ℕ) → bit_and a b ≡ bit_and (a / 2) (b / 2) * 2 + min (a % 2) (b % 2)
and_step zero b = omega (arith, bit_and-bitwise 0 b, bit_and-bitwise 0 (b / 2))
and_step (suc a) b = simp bit_and-bitwise (lowest_digit (λ y. 0) min a b)

or_step : (a b : ℕ) → bit_or a b ≡ bit_or (a / 2) (b / 2) * 2 + max (a % 2) (b % 2)
or_step zero b = omega (arith, bit_or-bitwise 0 b, bit_or-bitwise 0 (b / 2))
or_step (suc a) b = simp bit_or-bitwise (lowest_digit (λ y. y) max a b)

-- The sum of two digits without the carry.
digit_xor : (x y : ℕ) → x < 2 → y < 2 → differ x y ≡ (x + y) % 2
digit_xor zero y p q = omega arith
digit_xor (suc zero) zero p q = refl
digit_xor (suc zero) (suc zero) p q = refl
digit_xor (suc zero) (suc (suc y)) p q = absurd (omega arith)
digit_xor (suc (suc x)) y p q = absurd (omega arith)

xor_step : (a b : ℕ) → bit_xor a b ≡ bit_xor (a / 2) (b / 2) * 2 + (a + b) % 2
xor_step zero b = omega (arith, bit_xor-bitwise 0 b, bit_xor-bitwise 0 (b / 2))
xor_step (suc a) b = simp bit_xor-bitwise (
    lowest_digit (λ y. y) differ a b
    ∙ ap (λ (t : ℕ). bitwise (λ y. y) differ (suc a / 2) (b / 2) * 2 + t)
        (digit_xor (suc a % 2) (b % 2) (omega arith) (omega arith) ∙ omega arith))

lt_two_pow : (a : ℕ) → a < 2 ^ a
lt_two_pow zero = omega arith
lt_two_pow (suc a) = omega (arith, lt_two_pow a, pow-suc 2 a)

-- Every law below goes by the width `k` of the numbers.
bit_or-zero_width : (k a : ℕ) → a < 2 ^ k → bit_or a 0 ≡ a
bit_or-zero_width zero zero h = refl
bit_or-zero_width zero (suc a) h = absurd (omega arith)
bit_or-zero_width (suc k) a h =
    omega
      (arith, or_step a 0, pow-suc 2 k, bit_or-zero_width k (a / 2) (omega (arith, pow-suc 2 k)))

pub bit_or-zero : (a : ℕ) → bit_or a 0 ≡ a
bit_or-zero a = bit_or-zero_width a a (lt_two_pow a)

bit_and-zero_width : (k a : ℕ) → a < 2 ^ k → bit_and a 0 ≡ 0
bit_and-zero_width zero zero h = refl
bit_and-zero_width zero (suc a) h = absurd (omega arith)
bit_and-zero_width (suc k) a h =
    omega
      (arith, and_step a 0, pow-suc 2 k, bit_and-zero_width k (a / 2) (omega (arith, pow-suc 2 k)))

bit_and-zero : (a : ℕ) → bit_and a 0 ≡ 0
bit_and-zero a = bit_and-zero_width a a (lt_two_pow a)

double_field : (q k : ℕ) → q * 2 ^ suc k ≡ 2 * (q * 2 ^ k)
double_field q k = omega (arith, ap (λ (t : ℕ). q * t) (pow-suc 2 k))

-- `r | (q << k)` is a sum when `r` has at most `k` bits.
pub bit_or_disjoint : (k r q : ℕ) → r < 2 ^ k → bit_or (q * 2 ^ k) r ≡ q * 2 ^ k + r
bit_or_disjoint zero r q h = ground (arith, bit_or-zero q)
bit_or_disjoint (suc k) r q h =
    ground
      (arith, double_field q k, or_step (q * 2 ^ suc k) r, pow-suc 2 k, bit_or_disjoint k (r / 2) q)

-- The same with the operands the other way round.
pub or_field : (k r q : ℕ) → r < 2 ^ k → bit_or r (q * 2 ^ k) ≡ r + q * 2 ^ k
or_field zero zero q h = omega (arith, bit_or-bitwise 0 (q * 2 ^ 0))
or_field zero (suc r) q h = absurd (omega arith)
or_field (suc k) r q h =
    ground (arith, double_field q k, or_step r (q * 2 ^ suc k), pow-suc 2 k, or_field k (r / 2) q)

bit_and_low : (k r q : ℕ) → r < 2 ^ k → bit_and (q * 2 ^ k + r) (2 ^ k - 1) ≡ r
bit_and_low zero r q h = omega (arith, bit_and-zero (q * 2 ^ 0 + r))
bit_and_low (suc k) r q h = ground (
  arith,
  double_field q k,
  pow-suc 2 k,
  one-le-pow k 2,
  and_step (q * 2 ^ suc k + r) (2 ^ suc k - 1),
  bit_and_low k (r / 2) q,
)

-- `a & (2^k - 1)` is the remainder by `2^k`.
pub bit_and_mask : (k a : ℕ) → bit_and a (2 ^ k - 1) ≡ a % 2 ^ k
bit_and_mask k a = ground (arith, one-le-pow k 2, bit_and_low k (a % 2 ^ k) (a / 2 ^ k))

-- `a & (1 << k)`, for `a` of `k + 1` bits, is the top bit.
pub bit_and_top_bit : (k b r : ℕ) → r < 2 ^ k → b < 2 → bit_and (b * 2 ^ k + r) (2 ^ k) ≡ b * 2 ^ k
bit_and_top_bit zero zero zero h p = refl
bit_and_top_bit zero zero (suc r) h p = absurd (omega arith)
bit_and_top_bit zero (suc zero) zero h p = refl
bit_and_top_bit zero (suc zero) (suc r) h p = absurd (omega arith)
bit_and_top_bit zero (suc (suc b)) r h p = absurd (omega arith)
bit_and_top_bit (suc k) b r h p = ground (
  arith,
  double_field b k,
  pow-suc 2 k,
  and_step (b * 2 ^ suc k + r) (2 ^ suc k),
  bit_and_top_bit k b (r / 2),
)

-- Exclusive or with a key twice gives the number back.
xor_xor_width : (k a b : ℕ) → a < 2 ^ k → b < 2 ^ k → bit_xor (bit_xor a b) b ≡ a
xor_xor_width zero zero zero p q = refl
xor_xor_width zero zero (suc b) p q = absurd (omega arith)
xor_xor_width zero (suc a) b p q = absurd (omega arith)
xor_xor_width (suc k) a b p q =
    ground
      (arith, pow-suc 2 k, xor_step a b, xor_step (bit_xor a b) b, xor_xor_width k (a / 2) (b / 2))

pub xor-lt : (k a b : ℕ) → a < 2 ^ k → b < 2 ^ k → bit_xor a b < 2 ^ k
xor-lt zero zero zero p q = omega arith
xor-lt zero zero (suc b) p q = absurd (omega arith)
xor-lt zero (suc a) b p q = absurd (omega arith)
xor-lt (suc k) a b p q = ground (arith, pow-suc 2 k, xor_step a b, xor-lt k (a / 2) (b / 2))

pub or-lt : (k a b : ℕ) → a < 2 ^ k → b < 2 ^ k → bit_or a b < 2 ^ k
or-lt zero zero zero p q = omega arith
or-lt zero zero (suc b) p q = absurd (omega arith)
or-lt zero (suc a) b p q = absurd (omega arith)
or-lt (suc k) a b p q = ground (arith, pow-suc 2 k, or_step a b, or-lt k (a / 2) (b / 2))

pub and-lt : (k a b : ℕ) → a < 2 ^ k → bit_and a b < 2 ^ k
and-lt zero zero b p = omega (arith, bit_and-bitwise 0 b)
and-lt zero (suc a) b p = absurd (omega arith)
and-lt (suc k) a b p = ground (arith, pow-suc 2 k, and_step a b, and-lt k (a / 2) (b / 2))

pub xor-xor : (a b : ℕ) → a < 256 → b < 256 → bit_xor (bit_xor a b) b ≡ a
xor-xor a b p q = xor_xor_width 8 a b p q

div_below_two : (a d : ℕ) → 0 < d → a < 2 * d → a / d < 2
div_below_two a d p h = grind (arith, div-add-mod a d)

-- `a & (1 << k)` for `a` below `1 << (k + 1)`, with no digit named.
pub top_bit_test : (k a : ℕ) → a < 2 * 2 ^ k → bit_and a (2 ^ k) ≡ a / 2 ^ k * 2 ^ k
top_bit_test k a h = ground (
  arith,
  one-le-pow k 2,
  div_below_two a (2 ^ k),
  div-add-mod a (2 ^ k),
  bit_and_top_bit k (a / 2 ^ k) (a % 2 ^ k),
)
