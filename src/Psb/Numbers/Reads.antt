-- ===== src/Psb/Numbers/Reads.antt =====
-- One read at a place where the bytes are known.
use project_chronos_engine.Prelude.{
  ℕ, zero, suc, ◌+◌, ◌*◌, ◌^◌, ◌%◌, ◌≤◌, ◌<◌, Bytes, IsByte, All, [], ◌∷◌, ◌≡◌, ap, arith, length,
  of_le, le_bytes, length-le_bytes, ◌/◌, le_bytes-IsByte, of_le-le_bytes_mod, ltb, ◌&&◌,
  if◌then◌else◌, Bool,
}
use project_chronos_engine.Prelude.At.{At, At-head, At-slice}
use project_chronos_engine.Prelude.Bits.{or_field}
use project_chronos_engine.Prelude.Int.{of_u64}
use project_chronos_engine.Psb.Value.{ok}
use project_chronos_engine.Psb.Scan.{read_u8, read_bytes, or_bytes, extend, read_n_bytes_int, ◌>>=◌}
use Prim.Native.Nat.{bit_or}
use native.Mathlib.Nat.{one-le-pow}
use native.Mathlib.Numerals.{towards_suc}

module _ (bytes : Bytes) (at : ℕ) where
  pub read_u8-At : (b : ℕ) (bs : Bytes) → At bytes at (b ∷ bs) → read_u8 bytes at ≡ ok (b, at + 1)
  unfolding read_u8
  read_u8-At b bs h = rw (At-head bytes at b bs h, read_u8)

  pub read_bytes-At :
      (b : ℕ) (bs : Bytes)
      → At bytes at (b ∷ bs)
      → read_bytes bytes (suc (length bs)) at ≡ ok (b ∷ bs, at + suc (length bs))
  unfolding read_bytes
  read_bytes-At b bs h = ground (arith, At-slice bytes at b bs h)

  -- The `n + 1` bytes of a value, read at once.
  pub read_bytes-le_bytes :
      (n v : ℕ)
      → At bytes at (le_bytes (suc n) v)
      → read_bytes bytes (suc n) at ≡ ok (le_bytes (suc n) v, at + suc n)
  read_bytes-le_bytes n v h =
      rw length-le_bytes at (read_bytes-At (v % 256) (le_bytes n (v / 256)) h)

shift_eight : (i : ℕ) → 2 ^ ((i + 1) * 8) ≡ 256 * 2 ^ (i * 8)
shift_eight i =
    let e : (i + 1) * 8 ≡ i * 8 + 8 = omega arith in rw e (simp towards_suc (omega arith))

shift_fits : (i : ℕ) → i < 8 → 256 * 2 ^ (i * 8) ≤ 2 ^ 64
shift_fits zero h = omega arith
shift_fits (suc zero) h = omega arith
shift_fits (suc (suc zero)) h = omega arith
shift_fits (suc (suc (suc zero))) h = omega arith
shift_fits (suc (suc (suc (suc zero)))) h = omega arith
shift_fits (suc (suc (suc (suc (suc zero))))) h = omega arith
shift_fits (suc (suc (suc (suc (suc (suc zero)))))) h = omega arith
shift_fits (suc (suc (suc (suc (suc (suc (suc zero))))))) h = omega arith
shift_fits (suc (suc (suc (suc (suc (suc (suc (suc i)))))))) h = absurd (omega arith)

-- A byte shifted by `i` bytes does not leave the word.
shifted_byte : (b t m : ℕ) → b < 256 → 0 < t → 256 * t ≤ m → b * t < m
shifted_byte b t m h p q = grind arith

-- Ors of shifted bytes are the little-endian value.
pub or_bytes-of_le :
    (bs : Bytes) (acc i : ℕ)
    → All IsByte bs
    → acc < 2 ^ (i * 8)
    → i + length bs ≤ 8
    → or_bytes acc i bs ≡ acc + 2 ^ (i * 8) * of_le bs
unfolding or_bytes
or_bytes-of_le [] acc i h k w = omega arith
or_bytes-of_le (b ∷ bs) acc i h k w =
    let t = 2 ^ (i * 8) in
    let small : b * t < 2 ^ 64 =
      shifted_byte b t _ h.0 (one-le-pow (i * 8) 2 (omega arith)) (shift_fits i (omega arith)) in
    let grown : acc + b * t < 256 * t = grow acc b t k h.0 in
    let sum : bit_or acc (b * t % 2 ^ 64) ≡ acc + b * t = ground (arith, or_field (i * 8) acc b) in
    rw sum (
      omega (
        arith,
        or_bytes-of_le bs (acc + b * t) (i + 1) h.1 (omega (arith, shift_eight i)) (omega arith),
        ap (λ (x : ℕ). x * of_le bs) (shift_eight i),
      ))
  where
    grow : (acc b t : ℕ) → acc < t → b < 256 → acc + b * t < 256 * t
    grow acc b t p q = grind arith

-- What `read_n_bytes_int` makes of the low bytes of `v`.
pub read_n_bytes_int-le_bytes :
    (bytes : Bytes) (at n v : ℕ) (signed : Bool)
    → n < 8
    → At bytes at (le_bytes (suc n) v)
    → read_n_bytes_int bytes (suc n) signed at
      ≡ ok (
        of_u64
            (if signed && ltb (suc n) 8 then extend (suc n) (v % 256 ^ suc n) else v % 256 ^ suc n),
        at + suc n,
      )
unfolding read_n_bytes_int
read_n_bytes_int-le_bytes bytes at n v signed small h =
    let whole : or_bytes 0 0 (le_bytes (suc n) v) ≡ v % 256 ^ suc n = omega (
      arith,
      or_bytes-of_le (le_bytes (suc n) v) 0 0 (le_bytes-IsByte (suc n) v) (omega arith)
          (omega (arith, length-le_bytes n (v / 256))),
      of_le-le_bytes_mod (suc n) v,
    ) in
    rw (read_bytes-le_bytes bytes at n v h, ◌>>=◌, whole)
