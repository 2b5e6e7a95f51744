-- ===== src/Prelude/Words.antt =====
-- Machine words as native numbers, and their little-endian bytes.
use Prim.Native.Nat.{ℕ, zero, suc, ◌+◌, ◌*◌, ◌/◌, ◌%◌, ◌^◌, ◌<◌}
use mathlib.Core.Path.{◌≡◌, refl, ap, ◌∙◌}
use mathlib.Core.List.{List, [], ◌∷◌}
use native.Mathlib.Omega.{arith}
use native.Mathlib.Nat.{pow-suc, one-le-pow, div-add-mod}
use project_chronos_engine.Prelude.Lists.{length, All}

abbrev pub Bytes : Type 0
Bytes = List ℕ

abbrev pub IsByte : ℕ → Type 0
IsByte b = b < 256

abbrev pub u32_mod : ℕ
u32_mod = 2 ^ 32

abbrev pub u64_mod : ℕ
u64_mod = 2 ^ 64

-- The first `n` bytes of `v.to_le_bytes()`.
abbrev pub le_bytes : ℕ → ℕ → Bytes
le_bytes zero v = []
le_bytes (suc n) v = (v % 256) ∷ le_bytes n (v / 256)

-- `from_le_bytes`.
abbrev pub of_le : Bytes → ℕ
of_le [] = 0
of_le (b ∷ bs) = b + 256 * of_le bs

pub length-le_bytes : (n v : ℕ) → length (le_bytes n v) ≡ n
length-le_bytes zero v = refl
length-le_bytes (suc n) v = ap suc (length-le_bytes n (v / 256))

pub le_bytes-IsByte : (n v : ℕ) → All IsByte (le_bytes n v)
le_bytes-IsByte zero v = tt
le_bytes-IsByte (suc n) v = (omega arith, le_bytes-IsByte n (v / 256))

-- Decoding `n` bytes gives back every value that fits them.
pub of_le-le_bytes : (n v : ℕ) → v < 256 ^ n → of_le (le_bytes n v) ≡ v
of_le-le_bytes zero v h = omega arith
of_le-le_bytes (suc n) v h =
    omega (arith, of_le-le_bytes n (v / 256) (omega (arith, pow-suc 256 n)))

pub of_le-lt : (bs : Bytes) → All IsByte bs → of_le bs < 256 ^ length bs
of_le-lt [] h = omega arith
of_le-lt (b ∷ bs) h = omega (arith, of_le-lt bs h.1, h.0, pow-suc 256 (length bs))

pow_pos : (n : ℕ) → 0 < 256 ^ n
pow_pos n = omega (arith, one-le-pow n 256)

-- Only the low `n` bytes of a value matter.
le_bytes_low : (n q r : ℕ) → r < 256 ^ n → le_bytes n (q * 256 ^ n + r) ≡ le_bytes n r
le_bytes_low zero q r h = refl
le_bytes_low (suc n) q r h =
    ground (arith, ap (λ (t : ℕ). q * t) (pow-suc 256 n), pow-suc 256 n, le_bytes_low n q (r / 256))

pub le_bytes-mod : (n v : ℕ) → le_bytes n v ≡ le_bytes n (v % 256 ^ n)
le_bytes-mod n v =
    ap (le_bytes n) (omega (arith, div-add-mod v (256 ^ n)))
    ∙ le_bytes_low n (v / 256 ^ n) (v % 256 ^ n) (omega (arith, pow_pos n))

pub of_le-le_bytes_mod : (n v : ℕ) → of_le (le_bytes n v) ≡ v % 256 ^ n
of_le-le_bytes_mod n v =
    ap of_le (le_bytes-mod n v) ∙ of_le-le_bytes n (v % 256 ^ n) (omega (arith, pow_pos n))
