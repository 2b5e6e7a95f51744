-- ===== src/Psb/Scan.antt =====
-- editor/crates/m2-psb/src/reader.rs: the low-level reads. `Reader.data` is an argument, and the
-- state that a read threads is `Reader.pos`.
use Prim.Native.Nat.{bit_and, bit_or}
use project_chronos_engine.Prelude.{
  ℕ, zero, suc, ◌+◌, ◌-◌, ◌*◌, ◌^◌, ◌%◌, Bytes, Bool, ◌&&◌, List, [], ◌∷◌, none, some, ltb, ◌==◌,
  if◌then◌else◌, of_le, get_elem?, replicate,
}
use project_chronos_engine.Prelude.At.{slice}
use project_chronos_engine.Prelude.Int.{ℤ, of_u64, to_u64, pos}
use project_chronos_engine.Psb.Value.{
  Result, ok, err, panicked, stuck, Error, truncated, invalid_uint_type,
}

-- A read from a position, which may move it.
abbrev pub Read : Type 0 → Type 0
Read A = ℕ → Result (A × ℕ)

infixl 5 ◌>>=◌
abbrev pub ◌>>=◌ : {A B : Type 0} → Read A → (A → Read B) → Read B
◌>>=◌ m f at = elim (m at) [
  | ok (a, at') ↦ f a at'
  | err e ↦ err e
  | panicked ↦ panicked
  | stuck ↦ stuck
]

abbrev pub pure : {A : Type 0} → A → Read A
pure a at = ok (a, at)

abbrev pub fail : {A : Type 0} → Error → Read A
fail e at = err e

-- `self.pos = p`, before the read that follows.
abbrev pub seek : {A : Type 0} → ℕ → Read A → Read A
seek p m at = m p

module _ (bytes : Bytes) where
  unfoldable pub read_u8 : Read ℕ
  read_u8 at = elim (get_elem? bytes at) [ none ↦ err (truncated at) | some b ↦ ok (b, at + 1) ]

  unfoldable pub read_bytes : ℕ → Read Bytes
  unfolding slice
  read_bytes n at = elim (slice bytes at n) [ none ↦ err (truncated at) | some s ↦ ok (s, at + n) ]

  unfoldable pub read_u16 : Read ℕ
  read_u16 = do bs ← read_bytes 2; pure (of_le bs)

  unfoldable pub read_u32 : Read ℕ
  read_u32 = do bs ← read_bytes 4; pure (of_le bs)

-- `for (i, b) in bytes.iter().enumerate() { acc |= (*b as u64) << (i * 8); }`
unfoldable pub or_bytes : ℕ → ℕ → Bytes → ℕ
or_bytes acc i [] = acc
or_bytes acc i (b ∷ bs) = or_bytes (bit_or acc (b * 2 ^ (i * 8) % 2 ^ 64)) (i + 1) bs

-- The sign extension of an `n`-byte number, on 64-bit patterns; `!x` is 2^64 - 1 - x.
unfoldable pub extend : ℕ → ℕ → ℕ
extend n acc =
    let sign_bit = 2 ^ (n * 8 - 1) in
    let mask = 2 ^ 64 - 1 - (2 ^ (n * 8) - 1) in
    if bit_and acc sign_bit == 0 then acc else bit_or acc mask

module _ (bytes : Bytes) where
  unfoldable pub read_n_bytes_int : ℕ → Bool → Read ℤ
  read_n_bytes_int zero signed = pure (pos 0)
  read_n_bytes_int n signed = do
    bs ← read_bytes bytes n
    let acc = or_bytes 0 0 bs
    pure (of_u64 (if signed && ltb n 8 then extend n acc else acc))

  -- T_UINT_8, T_UINT_16, T_UINT_24 and T_UINT_32 are 13 to 16.
  unfoldable pub read_uint_by_type : ℕ → Read ℕ
  read_uint_by_type ty =
      if ty == 0
      then pure 0
      else if ty == 13
      then read_u8 bytes
      else if ty == 14
      then read_u16 bytes
      else if ty == 15
      then (do n ← read_n_bytes_int 3 Bool.false; pure (to_u64 n))
      else if ty == 16
      then read_u32 bytes
      else fail (invalid_uint_type ty)

  unfoldable pub read_elems : ℕ → ℕ → Read (List ℕ)
  read_elems zero ty = pure []
  read_elems (suc count) ty = do v ← read_uint_by_type ty; vs ← read_elems count ty; pure (v ∷ vs)

  unfoldable pub read_uint_array : Read (List ℕ)
  read_uint_array = do
    count_type ← read_u8 bytes
    count ← read_uint_by_type count_type
    elem_type ← read_u8 bytes
    if elem_type == 0 then pure (replicate count 0) else read_elems count elem_type
