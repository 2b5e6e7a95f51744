-- ===== src/Psb/Numbers/Signed.antt =====
-- `write_int` against the integer tokens of the reader: sign extension and the choice of a width.
use project_chronos_engine.Prelude.{
  ℕ, zero, suc, ◌+◌, ◌-◌, ◌*◌, ◌^◌, ◌%◌, ◌≤◌, ◌<◌, Bytes, Bool, true, false, [], ◌∷◌, ◌≡◌, refl, ap,
  ◌∙◌, sym, ◌⊎◌, inl, inr, arith, le_bytes, of_le-le_bytes_mod, Bool-cases, lt→ltb, ltb→lt, ltb,
  ==_iff, if◌then◌else◌,
}
use native.Mathlib.Nat.{one-le-pow}
use project_chronos_engine.Prelude.At.{At, At-tail}
use project_chronos_engine.Prelude.Bits.{or_field, bit_or_disjoint, bit_and_mask, top_bit_test}
use project_chronos_engine.Prelude.Int.{ℤ, pos, negsuc, to_u64, IsI64, of_u64-to_u64, to_u64-lt}
use project_chronos_engine.Psb.Value.{Value, ok, int}
use project_chronos_engine.Psb.Emit.{Floats, sign_extend, round_trips, long_width, write_int}
use project_chronos_engine.Psb.Scan.{Read, ◌>>=◌, extend, read_n_bytes_int}
use project_chronos_engine.Psb.Reader.{Tables, read_typed, read_token}
use project_chronos_engine.Psb.Numbers.Reads.{read_u8-At, read_n_bytes_int-le_bytes}

-- `z` has a sign bit and `k` bits more.
abbrev FitsBits : ℕ → ℤ → Type 0
FitsBits k (pos n) = n < 2 ^ k
FitsBits k (negsuc n) = n < 2 ^ k

extend_sound :
    (n : ℕ) (z : ℤ)
    → n < 4
    → FitsBits (suc n * 8 - 1) z
    → extend (suc n) (to_u64 z % 256 ^ suc n) ≡ to_u64 z
unfolding extend
extend_sound zero (pos m) h f = ground (arith, top_bit_test 7 m)
extend_sound zero (negsuc m) h f =
    ground (arith, top_bit_test 7 (255 - m), or_field 8 (255 - m) (2 ^ 56 - 1))
extend_sound (suc zero) (pos m) h f = ground (arith, top_bit_test 15 m)
extend_sound (suc zero) (negsuc m) h f =
    ground (arith, top_bit_test 15 (65535 - m), or_field 16 (65535 - m) (2 ^ 48 - 1))
extend_sound (suc (suc zero)) (pos m) h f = ground (arith, top_bit_test 23 m)
extend_sound (suc (suc zero)) (negsuc m) h f =
    ground (arith, top_bit_test 23 (2 ^ 24 - 1 - m), or_field 24 (2 ^ 24 - 1 - m) (2 ^ 40 - 1))
extend_sound (suc (suc (suc zero))) (pos m) h f = ground (arith, top_bit_test 31 m)
extend_sound (suc (suc (suc zero))) (negsuc m) h f =
    ground (arith, top_bit_test 31 (2 ^ 32 - 1 - m), or_field 32 (2 ^ 32 - 1 - m) (2 ^ 32 - 1))
extend_sound (suc (suc (suc (suc n)))) z h f = absurd (omega arith)

-- The writer's `sign_extend` and the reader's extension agree on `w` bytes, for w = 5, 6, 7.
sign_extend-extend : (w a : ℕ) → 5 ≤ w → w ≤ 7 → a < 256 ^ w → sign_extend a w ≡ extend w a
unfolding sign_extend extend
sign_extend-extend (suc (suc (suc (suc (suc zero))))) a p q h =
    ground (arith, bit_and_mask 40 a, bit_or_disjoint 40 a (2 ^ 24 - 1), or_field 40 a (2 ^ 24 - 1))
sign_extend-extend (suc (suc (suc (suc (suc (suc zero)))))) a p q h =
    ground (arith, bit_and_mask 48 a, bit_or_disjoint 48 a (2 ^ 16 - 1), or_field 48 a (2 ^ 16 - 1))
sign_extend-extend (suc (suc (suc (suc (suc (suc (suc zero))))))) a p q h =
    ground (arith, bit_and_mask 56 a, bit_or_disjoint 56 a (2 ^ 8 - 1), or_field 56 a (2 ^ 8 - 1))
sign_extend-extend (suc (suc (suc (suc (suc (suc (suc (suc w)))))))) a p q h = absurd (omega arith)
sign_extend-extend zero a p q h = absurd (omega arith)
sign_extend-extend (suc zero) a p q h = absurd (omega arith)
sign_extend-extend (suc (suc zero)) a p q h = absurd (omega arith)
sign_extend-extend (suc (suc (suc zero))) a p q h = absurd (omega arith)
sign_extend-extend (suc (suc (suc (suc zero)))) a p q h = absurd (omega arith)

-- A width that the writer accepts is one from which the reader gets the pattern back.
round_trips→extend : (w v : ℕ) → 5 ≤ w → w ≤ 7 → round_trips v w ≡ true → extend w (v % 256 ^ w) ≡ v
unfolding round_trips
round_trips→extend w v p q h =
    let low = of_le-le_bytes_mod w v in
    sym (sign_extend-extend w (v % 256 ^ w) p q (omega (arith, one-le-pow w 256)))
    ∙ ap (λ t. sign_extend t w) (sym low)
    ∙ (==_iff _ v).0 h

-- Eight bytes always do; fewer only after the test.
abbrev IsWidth : ℕ → ℕ → Type 0
IsWidth v w = (5 ≤ w) × (w ≤ 8) × ((w ≡ 8) ⊎ (round_trips v w ≡ true))

long_width-IsWidth : (v : ℕ) → IsWidth v (long_width v)
unfolding long_width
long_width-IsWidth v = ground arith

-- The bytes of `z` at `w` bytes, read as a signed integer of `w` bytes.
module _ (bytes : Bytes) (at : ℕ) where
  read_small :
      (n : ℕ) (z : ℤ)
      → n < 4
      → IsI64 z
      → FitsBits (suc n * 8 - 1) z
      → At bytes at (le_bytes (suc n) (to_u64 z))
      → read_n_bytes_int bytes (suc n) true at ≡ ok (z, at + suc n)
  read_small n z small big f h =
      let e = read_n_bytes_int-le_bytes bytes at n (to_u64 z) true (omega arith) h in
      let back = extend_sound n z small f in
      e ∙ rw (lt→ltb (suc n) 8 (omega arith), back, of_u64-to_u64 z big)

  read_long :
      (w : ℕ) (z : ℤ)
      → IsI64 z
      → IsWidth (to_u64 z) w
      → At bytes at (le_bytes w (to_u64 z))
      → read_n_bytes_int bytes w true at ≡ ok (z, at + w)
  read_long zero z big (lo, hi, why) h = absurd (omega arith)
  read_long (suc n) z big (lo, hi, why) h =
      let e = read_n_bytes_int-le_bytes bytes at n (to_u64 z) true (omega arith) h in
      let back = of_u64-to_u64 z big in
      let fits = to_u64-lt z big in
      elim why [
        | inl all_eight ↦
            let full : to_u64 z % 256 ^ suc n ≡ to_u64 z = rw all_eight (omega arith) in
            let unsigned : ltb (suc n) 8 ≡ false = rw all_eight in e ∙ rw (unsigned, full, back)
        | inr passed ↦ elim (Bool-cases (ltb (suc n) 8)) [
          | inl less ↦
              let ext =
                round_trips→extend (suc n) (to_u64 z) lo (omega (arith, ltb→lt _ _ less)) passed in
              e ∙ rw (less, ext, back)
          | inr not_less ↦
              let eight : suc n ≡ 8 = ground arith in
              let full : to_u64 z % 256 ^ suc n ≡ to_u64 z = rw eight (omega arith) in
              e ∙ rw (not_less, full, back)
        ]
      ]

-- What `write_int` writes: a type for the width and the low bytes of the pattern.
data IntToken (z : ℤ) : Bytes → Type 0 where
  zero_token : z ≡ pos 0 → IntToken z (4 ∷ [])
  small_token :
      (n : ℕ)
      → n < 4
      → FitsBits (suc n * 8 - 1) z
      → IntToken z ((5 + n) ∷ le_bytes (suc n) (to_u64 z))
  long_token : (w : ℕ) → IsWidth (to_u64 z) w → IntToken z ((9 + w - 5) ∷ le_bytes w (to_u64 z))

IntToken-if :
    (z : ℤ) (b : Bool) (x y : Bytes)
    → (b ≡ true → IntToken z x)
    → IntToken z y
    → IntToken z (if b then x else y)
IntToken-if z true x y p q = p refl
IntToken-if z false x y p q = q

write_int-IntToken : (z : ℤ) → IntToken z (write_int z)
unfolding write_int
write_int-IntToken (pos zero) = zero_token refl
write_int-IntToken (pos (suc n)) =
    let z = pos (suc n) in
    IntToken-if z _ _ _ (λ h. small_token 0 (omega arith) (ground arith))
      (IntToken-if z _ _ _ (λ h. small_token 1 (omega arith) (ground arith))
        (IntToken-if z _ _ _ (λ h. small_token 2 (omega arith) (ground arith))
          (IntToken-if z _ _ _ (λ h. small_token 3 (omega arith) (ground arith))
            (long_token _ (long_width-IsWidth (to_u64 z))))))
write_int-IntToken (negsuc n) =
    let z = negsuc n in
    IntToken-if z _ _ _ (λ h. small_token 0 (omega arith) (ground arith))
      (IntToken-if z _ _ _ (λ h. small_token 1 (omega arith) (ground arith))
        (IntToken-if z _ _ _ (λ h. small_token 2 (omega arith) (ground arith))
          (IntToken-if z _ _ _ (λ h. small_token 3 (omega arith) (ground arith))
            (long_token _ (long_width-IsWidth (to_u64 z))))))

-- The reader's match on an integer type runs the signed read of its width.
module _ (floats : Floats) (bytes : Bytes) (t : Tables) where
  typed_small :
      (token : Read Value) (p at n : ℕ) (z : ℤ)
      → n < 4
      → read_n_bytes_int bytes (suc n) true at ≡ ok (z, at + suc n)
      → read_typed floats bytes t token p (5 + n) at ≡ ok (int z, at + suc n)
  unfolding read_typed
  typed_small token p at zero z h e = rw (e, ◌>>=◌)
  typed_small token p at (suc zero) z h e = rw (e, ◌>>=◌)
  typed_small token p at (suc (suc zero)) z h e = rw (e, ◌>>=◌)
  typed_small token p at (suc (suc (suc zero))) z h e = rw (e, ◌>>=◌)
  typed_small token p at (suc (suc (suc (suc n)))) z h e = absurd (omega arith)

  typed_long :
      (token : Read Value) (p at w : ℕ) (z : ℤ)
      → 5 ≤ w
      → w ≤ 8
      → read_n_bytes_int bytes w true at ≡ ok (z, at + w)
      → read_typed floats bytes t token p (9 + w - 5) at ≡ ok (int z, at + w)
  unfolding read_typed
  typed_long token p at (suc (suc (suc (suc (suc zero))))) z lo hi e = rw (e, ◌>>=◌)
  typed_long token p at (suc (suc (suc (suc (suc (suc zero)))))) z lo hi e = rw (e, ◌>>=◌)
  typed_long token p at (suc (suc (suc (suc (suc (suc (suc zero))))))) z lo hi e = rw (e, ◌>>=◌)
  typed_long token p at (suc (suc (suc (suc (suc (suc (suc (suc zero)))))))) z lo hi e =
      rw (e, ◌>>=◌)
  typed_long token p at (suc (suc (suc (suc (suc (suc (suc (suc (suc w))))))))) z lo hi e =
      absurd (omega arith)
  typed_long token p at zero z lo hi e = absurd (omega arith)
  typed_long token p at (suc zero) z lo hi e = absurd (omega arith)
  typed_long token p at (suc (suc zero)) z lo hi e = absurd (omega arith)
  typed_long token p at (suc (suc (suc zero))) z lo hi e = absurd (omega arith)
  typed_long token p at (suc (suc (suc (suc zero)))) z lo hi e = absurd (omega arith)

  read_IntToken :
      (fuel at : ℕ) (z : ℤ) (bs : Bytes)
      → IsI64 z
      → IntToken z bs
      → At bytes at bs
      → (at' : ℕ) × (read_token floats bytes t (suc fuel) at ≡ ok (int z, at'))
  unfolding read_token
  read_IntToken fuel at z bs big (zero_token e) h = (
    at + 1,
    rw (read_u8-At bytes at 4 [] h, ◌>>=◌)
        (unfold read_typed read_n_bytes_int in ap (λ x. ok (int x, at + 1)) (sym e)),
  )
  read_IntToken fuel at z bs big (small_token n small f) h = (
    at + 1 + suc n,
    rw (read_u8-At bytes at (5 + n) (le_bytes (suc n) (to_u64 z)) h, ◌>>=◌)
        (typed_small _ at (at + 1) n z small (
          read_small bytes (at + 1) n z small big f
            (At-tail bytes at (5 + n) (le_bytes (suc n) (to_u64 z)) h))),
  )
  read_IntToken fuel at z bs big (long_token w width) h = (
    at + 1 + w,
    rw (read_u8-At bytes at (9 + w - 5) (le_bytes w (to_u64 z)) h, ◌>>=◌)
        (typed_long _ at (at + 1) w z width.0 width.1 (
          read_long bytes (at + 1) w z big width
            (At-tail bytes at (9 + w - 5) (le_bytes w (to_u64 z)) h))),
  )

-- Every 64-bit signed integer that the writer puts down is read back as it was.
pub read_token-write_int :
    (floats : Floats) (bytes : Bytes) (t : Tables) (fuel at : ℕ) (z : ℤ)
    → IsI64 z
    → At bytes at (write_int z)
    → (at' : ℕ) × (read_token floats bytes t (suc fuel) at ≡ ok (int z, at'))
read_token-write_int floats bytes t fuel at z big h =
    read_IntToken floats bytes t fuel at z (write_int z) big (write_int-IntToken z) h
