-- ===== src/Psb/Numbers/Unsigned.antt =====
-- `write_uint_with_type`, `write_indexed` and `write_uint_array` against `read_uint_by_type` and
-- `read_uint_array`.
use project_chronos_engine.Prelude.{
  ℕ, zero, suc, ◌+◌, ◌-◌, ◌*◌, ◌^◌, ◌%◌, ◌≤◌, ◌<◌, Bytes, All, List, [], ◌∷◌, ◌++◌, ◌≡◌, arith,
  length, length-append, length-le_bytes, le_bytes, of_le-le_bytes, Bool,
}
use project_chronos_engine.Prelude.At.{At, At-left, At-right, At-tail}
use project_chronos_engine.Prelude.Int.{of_u64, to_u64}
use project_chronos_engine.Psb.Value.{ok}
use project_chronos_engine.Psb.Emit.{
  bytes_for, write_uint_with_type, write_elems, write_uint_array, maximum,
}
use project_chronos_engine.Psb.Scan.{
  ◌>>=◌, read_u8, read_u16, read_u32, read_uint_by_type, read_elems, read_uint_array,
}
use project_chronos_engine.Psb.Numbers.Reads.{
  read_u8-At, read_bytes-le_bytes, read_n_bytes_int-le_bytes,
}

abbrev pub IsU32 : ℕ → Type 0
IsU32 v = v < 2 ^ 32

pub bytes_for_bounds : (v : ℕ) → (1 ≤ bytes_for v) × (bytes_for v ≤ 4)
unfolding bytes_for
bytes_for_bounds v = ground arith

-- A 32-bit value fits the bytes that it is given.
pub bytes_for_fits : (v : ℕ) → IsU32 v → v < 256 ^ bytes_for v
unfolding bytes_for
bytes_for_fits v h = ground arith

three_bytes : (v : ℕ) → v < 2 ^ 24 → to_u64 (of_u64 v) ≡ v
three_bytes v h = ground arith

-- An integer of `n` bytes is read back by the type that stands for `n` bytes.
module _ (bytes : Bytes) (at : ℕ) where
  pub read_uint_by_type-le_bytes :
      (n v : ℕ)
      → 1 ≤ n
      → n ≤ 4
      → v < 256 ^ n
      → At bytes at (le_bytes n v)
      → read_uint_by_type bytes (13 + n - 1) at ≡ ok (v, at + n)
  unfolding read_uint_by_type read_u16 read_u32
  read_uint_by_type-le_bytes zero v p q f h = absurd (omega arith)
  read_uint_by_type-le_bytes (suc zero) v p q f h =
      ground (arith, read_u8-At bytes at (v % 256) [] h)
  read_uint_by_type-le_bytes (suc (suc zero)) v p q f h =
      ground (arith, read_bytes-le_bytes bytes at 1 v h, of_le-le_bytes 2 v f)
  read_uint_by_type-le_bytes (suc (suc (suc zero))) v p q f h =
      ground
        (arith, read_n_bytes_int-le_bytes bytes at 2 v Bool.false (omega arith) h, three_bytes v)
  read_uint_by_type-le_bytes (suc (suc (suc (suc zero)))) v p q f h =
      ground (arith, read_bytes-le_bytes bytes at 3 v h, of_le-le_bytes 4 v f)
  read_uint_by_type-le_bytes (suc (suc (suc (suc (suc n))))) v p q f h = absurd (omega arith)

-- A count or a width-tagged integer: the tag byte, then the value.
pub read_uint-write_uint :
    (bytes : Bytes) (at v : ℕ)
    → IsU32 v
    → At bytes at (write_uint_with_type v)
    → (read_u8 bytes at ≡ ok (13 + bytes_for v - 1, at + 1))
      × (read_uint_by_type bytes (13 + bytes_for v - 1) (at + 1) ≡ ok (v, at + 1 + bytes_for v))
unfolding write_uint_with_type
read_uint-write_uint bytes at v small h =
    let (lo, hi) = bytes_for_bounds v in
    (
      read_u8-At bytes at _ _ h,
      read_uint_by_type-le_bytes bytes (at + 1) (bytes_for v) v lo hi (bytes_for_fits v small)
          (At-tail bytes at _ _ h),
    )

length-write_uint : (at v : ℕ) → at + length (write_uint_with_type v) ≡ at + 1 + bytes_for v
unfolding write_uint_with_type
length-write_uint at v = omega (arith, length-le_bytes (bytes_for v) v)

length-write_elems : (n : ℕ) (vs : List ℕ) → length (write_elems n vs) ≡ length vs * n
unfolding write_elems
length-write_elems n [] = omega arith
length-write_elems n (v ∷ vs) = omega (
  arith,
  length-append (le_bytes n v) (write_elems n vs),
  length-le_bytes n v,
  length-write_elems n vs,
)

read_elems-write_elems :
    (bytes : Bytes) (at n : ℕ) (vs : List ℕ)
    → 1 ≤ n
    → n ≤ 4
    → All (λ v. v < 256 ^ n) vs
    → At bytes at (write_elems n vs)
    → read_elems bytes (length vs) (13 + n - 1) at ≡ ok (vs, at + length (write_elems n vs))
unfolding read_elems write_elems
read_elems-write_elems bytes at n [] p q fit h = ground arith
read_elems-write_elems bytes at n (v ∷ vs) p q fit h =
    let rest : At bytes (at + n) (write_elems n vs) =
      rw length-le_bytes at (At-right bytes at (le_bytes n v) (write_elems n vs) h) in
    ground (
      arith,
      read_uint_by_type-le_bytes bytes at n v p q fit.0
          (At-left bytes at (le_bytes n v) (write_elems n vs) h),
      read_elems-write_elems bytes (at + n) n vs p q fit.1 rest,
      length-append (le_bytes n v) (write_elems n vs),
      length-le_bytes n v,
    )

maximum_fits :
    (xs : List ℕ) (m : ℕ) → maximum xs ≤ m → IsU32 m → All (λ v. v < 256 ^ bytes_for m) xs
unfolding maximum
maximum_fits [] m h p = tt
maximum_fits (x ∷ xs) m h p = (omega (arith, bytes_for_fits m p), maximum_fits xs m (omega arith) p)

maximum-IsU32 : (xs : List ℕ) → All IsU32 xs → IsU32 (maximum xs)
unfolding maximum
maximum-IsU32 [] h = omega arith
maximum-IsU32 (x ∷ xs) h = omega (arith, h.0, maximum-IsU32 xs h.1)

-- An array takes a byte at least for each element.
pub length-le-write_uint_array : (xs : List ℕ) → length xs ≤ length (write_uint_array xs)
unfolding write_uint_array
length-le-write_uint_array [] = omega arith
length-le-write_uint_array (x ∷ xs) =
    elem_bytes (x ∷ xs) (bytes_for (maximum (x ∷ xs))) (bytes_for_bounds (maximum (x ∷ xs))).0
  where
    elem_bytes :
        (ys : List ℕ) (n : ℕ)
        → 1 ≤ n
        → length ys ≤ length (write_uint_with_type (length ys) ++ ((13 + n - 1) ∷ write_elems n ys))
    elem_bytes ys n h = grind (
      arith,
      length-append (write_uint_with_type (length ys)) ((13 + n - 1) ∷ write_elems n ys),
      length-write_elems n ys,
    )

nonempty_array :
    (bytes : Bytes) (at : ℕ) (xs : List ℕ) (n : ℕ)
    → 1 ≤ n
    → n ≤ 4
    → IsU32 (length xs)
    → All (λ v. v < 256 ^ n) xs
    → At bytes at (write_uint_with_type (length xs) ++ ((13 + n - 1) ∷ write_elems n xs))
    → read_uint_array bytes at
      ≡ ok (xs, at + length (write_uint_with_type (length xs) ++ ((13 + n - 1) ∷ write_elems n xs)))
unfolding read_uint_array
nonempty_array bytes at xs n p q small fit h =
    let head = write_uint_with_type (length xs) in
    let tail = (13 + n - 1) ∷ write_elems n xs in
    let (tag, count) =
      read_uint-write_uint bytes at (length xs) small (At-left bytes at head tail h) in
    let mid : At bytes (at + 1 + bytes_for (length xs)) tail =
      rw length-write_uint at (At-right bytes at head tail h) in
    let here = at + 1 + bytes_for (length xs) in
    rw (tag, count, ◌>>=◌)
      (ground (
        arith,
        read_u8-At bytes here (13 + n - 1) (write_elems n xs) mid,
        read_elems-write_elems bytes (here + 1) n xs p q fit (At-tail bytes here _ _ mid),
        length-append head tail,
        length-write_uint at (length xs),
      ))

-- An array of 32-bit values is read back whole, up to its last byte.
pub read_uint_array-write_uint_array :
    (bytes : Bytes) (at : ℕ) (xs : List ℕ)
    → All IsU32 xs
    → IsU32 (length xs)
    → At bytes at (write_uint_array xs)
    → read_uint_array bytes at ≡ ok (xs, at + length (write_uint_array xs))
unfolding write_uint_array
read_uint_array-write_uint_array bytes at [] fit small h =
    let e0 = read_u8-At bytes at 13 (0 ∷ 0 ∷ []) h in
    let h1 : At bytes (at + 1) (0 ∷ 0 ∷ []) = At-tail bytes at 13 (0 ∷ 0 ∷ []) h in
    let e1 = read_u8-At bytes (at + 1) 0 (0 ∷ []) h1 in
    let e2 = read_u8-At bytes (at + 1 + 1) 0 [] (At-tail bytes (at + 1) 0 (0 ∷ []) h1) in
    unfold read_uint_array read_uint_by_type in ground (arith, e0, e1, e2)
read_uint_array-write_uint_array bytes at (x ∷ xs) fit small h =
    let m = maximum (x ∷ xs) in
    let big : IsU32 m = maximum-IsU32 (x ∷ xs) fit in
    let (lo, hi) = bytes_for_bounds m in
    nonempty_array bytes at (x ∷ xs) (bytes_for m) lo hi small
      (maximum_fits (x ∷ xs) m (omega arith) big) h
