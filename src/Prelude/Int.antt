-- ===== src/Prelude/Int.antt =====
-- Signed integers, and `i64` as the number that a 64-bit pattern stands for.
use Prim.Native.Nat.{ℕ, ◌-◌, ◌^◌, ◌<◌}
use mathlib.Core.Path.{◌≡◌}
use mathlib.Core.Bool.{Bool, true, false, ◌&&◌}
use native.Mathlib.Omega.{arith}
use project_chronos_engine.Prelude.Tests.{ltb, leb, if◌then◌else◌}

-- `negsuc n` is -(n + 1).
pub data ℤ : Type 0 where
  pos : ℕ → ℤ
  negsuc : ℕ → ℤ

abbrev pub leb_ℤ : ℤ → ℤ → Bool
leb_ℤ (pos a) (pos b) = leb a b
leb_ℤ (pos a) (negsuc b) = false
leb_ℤ (negsuc a) (pos b) = true
leb_ℤ (negsuc a) (negsuc b) = leb b a

-- `(lo..=hi).contains(&z)`
abbrev pub contains : ℤ → ℤ → ℤ → Bool
contains lo hi z = leb_ℤ lo z && leb_ℤ z hi

abbrev pub IsI64 : ℤ → Type 0
IsI64 (pos n) = n < 2 ^ 63
IsI64 (negsuc n) = n < 2 ^ 63

-- `z as u64`, the two's complement pattern, and `v as i64`.
abbrev pub to_u64 : ℤ → ℕ
to_u64 (pos n) = n
to_u64 (negsuc n) = 2 ^ 64 - 1 - n

abbrev pub of_u64 : ℕ → ℤ
of_u64 v = if ltb v (2 ^ 63) then pos v else negsuc (2 ^ 64 - 1 - v)

pub of_u64-to_u64 : (z : ℤ) → IsI64 z → of_u64 (to_u64 z) ≡ z
of_u64-to_u64 (pos n) h = ground arith
of_u64-to_u64 (negsuc n) h = ground arith

pub to_u64-lt : (z : ℤ) → IsI64 z → to_u64 z < 2 ^ 64
to_u64-lt (pos n) h = omega arith
to_u64-lt (negsuc n) h = omega arith
