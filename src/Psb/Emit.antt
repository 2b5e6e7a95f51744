-- ===== src/Psb/Emit.antt =====
-- editor/crates/m2-psb/src/writer.rs: the numbers of the format. A function that appends to `buf`
-- is the list of the bytes that it appends.
use Prim.Native.Nat.{bit_and, bit_or}
use project_chronos_engine.Prelude.{
  ℕ, zero, ◌+◌, ◌-◌, ◌*◌, ◌/◌, ◌^◌, max, Bytes, List, [], ◌∷◌, ◌++◌, ltb, ◌==◌, length,
  if◌then◌else◌, le_bytes, of_le, replicate, not, ◌&&◌, ◌%◌, leb, Bool,
}
use project_chronos_engine.Prelude.Int.{ℤ, pos, negsuc, contains, to_u64}

unfoldable pub bytes_for : ℕ → ℕ
bytes_for v = if ltb v 256 then 1 else if ltb v 65536 then 2 else if ltb v 16777216 then 3 else 4

-- T_UINT_8 is 13.
unfoldable pub write_uint_with_type : ℕ → Bytes
write_uint_with_type value = let n = bytes_for value in (13 + n - 1) ∷ le_bytes n value

unfoldable pub write_indexed : ℕ → ℕ → Bytes
write_indexed base idx = let n = bytes_for idx in (base + n - 1) ∷ le_bytes n idx

unfoldable pub maximum : List ℕ → ℕ
maximum [] = 0
maximum (x ∷ xs) = max x (maximum xs)

unfoldable pub write_elems : ℕ → List ℕ → Bytes
write_elems n [] = []
write_elems n (v ∷ vs) = le_bytes n v ++ write_elems n vs

unfoldable pub write_uint_array : List ℕ → Bytes
write_uint_array [] = 13 ∷ 0 ∷ 0 ∷ []
write_uint_array (x ∷ xs) =
    let elem_bytes = bytes_for (maximum (x ∷ xs)) in
    write_uint_with_type (length (x ∷ xs))
    ++ ((13 + elem_bytes - 1) ∷ write_elems elem_bytes (x ∷ xs))

-- `sign_extend` on the 64-bit patterns; `!mask` is 2^64 - 1 - mask.
unfoldable pub sign_extend : ℕ → ℕ → ℕ
sign_extend v width =
    if leb 8 width
    then v
    else let mask = 2 ^ (width * 8) - 1 in
      let truncated = bit_and v mask in
      let sign_bit = 2 ^ (width * 8 - 1) in
      if bit_and truncated sign_bit == 0 then truncated else bit_or (2 ^ 64 - 1 - mask) truncated

-- One round of `for w in (5..8).rev()`: `w` round-trips if its sign-extended low bytes are `n`.
unfoldable pub round_trips : ℕ → ℕ → Bool
unfolding sign_extend
round_trips n w = sign_extend (of_le (le_bytes w n)) w == n

-- The rounds w = 7, 6, 5 in this order; the last that round-trips sets the width.
unfoldable pub long_width : ℕ → ℕ
long_width n =
    let width : ℕ = 8 in
    let width = if round_trips n 7 then 7 else width in
    let width = if round_trips n 6 then 6 else width in if round_trips n 5 then 5 else width

-- T_INT_0, T_INT_8, T_INT_16, T_INT_24, T_INT_32 are 4 to 8, and T_LONG_40 is 9.
-- `n as u8`, `n as i16` and `n as i32` keep the low bytes of the pattern.
unfoldable pub write_int : ℤ → Bytes
write_int (pos zero) = 4 ∷ []
write_int n =
    let v = to_u64 n in
    if contains (negsuc 127) (pos 127) n
    then 5 ∷ le_bytes 1 v
    else if contains (negsuc 32767) (pos 32767) n
    then 6 ∷ le_bytes 2 v
    else if contains (negsuc 8388607) (pos 8388607) n
    then 7 ∷ le_bytes 3 v
    else if contains (negsuc 2147483647) (pos 2147483647) n
    then 8 ∷ le_bytes 4 v
    else (9 + long_width v - 5) ∷ le_bytes (long_width v) v

-- The conversions between f64 and f32, which the hardware does, on bit patterns.
pub record Floats : Type 0 where
  pub narrow : ℕ → ℕ
  pub widen : ℕ → ℕ

-- T_FLOAT_0, T_FLOAT and T_DOUBLE are 29 to 31. `f == 0.0` holds of the two zeros, which differ
-- in the sign bit.
unfoldable pub write_float : Floats → ℕ → Bytes
write_float c f =
    if f % 2 ^ 63 == 0 && not (leb (2 ^ 63) f)
    then 29 ∷ []
    else let as_f32 = c.narrow f in
      if c.widen as_f32 == f then 30 ∷ le_bytes 4 as_f32 else 31 ∷ le_bytes 8 f

unfoldable pub align_up : ℕ → ℕ → ℕ
align_up v alignment = (v + alignment - 1) / alignment * alignment

unfoldable pub align : Bytes → ℕ → Bytes
unfolding align_up
align buf alignment =
    let pad = align_up (length buf) alignment - length buf in buf ++ replicate pad 0

-- `adler32`, from the pair (a, b). Both stay below 65,521, so `b << 16` loses no bit.
unfoldable pub adler_step : ℕ → ℕ → Bytes → ℕ × ℕ
adler_step a b [] = (a, b)
adler_step a b (byte ∷ rest) = let a' = (a + byte) % 65521 in adler_step a' ((b + a') % 65521) rest

unfoldable pub adler32 : Bytes → ℕ
unfolding adler_step
adler32 bytes = let (a, b) = adler_step 1 0 bytes in bit_or (b * 2 ^ 16) a
