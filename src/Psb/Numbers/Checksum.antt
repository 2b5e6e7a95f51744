-- ===== src/Psb/Numbers/Checksum.antt =====
-- `adler32` of writer.rs against the closed form of the checksum.
use project_chronos_engine.Prelude.{
  ℕ, ◌+◌, ◌*◌, ◌%◌, ◌^◌, ◌<◌, ◌≡◌, ap, ◌∙◌, Bytes, [], ◌∷◌, arith, length,
}
use native.Mathlib.Nat.{div-add-mod}
use project_chronos_engine.Prelude.Bits.{bit_or_disjoint}
use project_chronos_engine.Psb.Emit.{adler_step, adler32}

-- The sum of the bytes, and the sum in which a byte counts once for itself and each byte behind it.
unfoldable pub total : Bytes → ℕ
total [] = 0
total (b ∷ bs) = b + total bs

unfoldable pub weighted : Bytes → ℕ
weighted [] = 0
weighted (b ∷ bs) = b * (length bs + 1) + weighted bs

adler_step_closed :
    (a b : ℕ) (bs : Bytes)
    → a < 65521
    → b < 65521
    → ((adler_step a b bs).0 ≡ (a + total bs) % 65521)
      × ((adler_step a b bs).1 ≡ (b + length bs * a + weighted bs) % 65521)
unfolding adler_step total weighted
adler_step_closed a b [] p q = omega arith
adler_step_closed a b (x ∷ bs) p q =
    let a' = (a + x) % 65521 in
    let (e0, e1) = adler_step_closed a' ((b + a') % 65521) bs (omega arith) (omega arith) in
    (
      e0 ∙ omega arith,
      e1 ∙ omega (arith, ap (λ (t : ℕ). length bs * t) (div-add-mod (a + x) 65521)),
    )

-- The checksum of any bytes: both halves are below 65,521 and have the closed form of Adler-32.
pub adler32_closed :
    (bs : Bytes) → adler32 bs ≡ (length bs + weighted bs) % 65521 * 2 ^ 16 + (1 + total bs) % 65521
unfolding adler32
adler32_closed bs =
    let (e0, e1) = adler_step_closed 1 0 bs (omega arith) (omega arith) in
    ground (arith, bit_or_disjoint 16 (adler_step 1 0 bs).0 (adler_step 1 0 bs).1)
