-- ===== src/Psb/Tokens/Leaves.antt =====
-- The tokens without children: indices into the tables, and floats.
use project_chronos_engine.Prelude.{
  ℕ, zero, suc, ◌+◌, ◌-◌, ◌%◌, ◌^◌, ◌≤◌, ◌<◌, ◌≡◌, Bytes, [], ◌∷◌, arith, inl, inr, le_bytes,
  of_le-le_bytes, get_or, Bool-cases, ==_iff, ◌==◌, leb, not, ◌&&◌,
}
use project_chronos_engine.Prelude.At.{At, At-tail}
use project_chronos_engine.Psb.Value.{ok, Value, string, stream, bstream, float}
use project_chronos_engine.Psb.Emit.{Floats, write_indexed, write_float, bytes_for}
use project_chronos_engine.Psb.Scan.{Read, ◌>>=◌, read_uint_by_type}
use project_chronos_engine.Psb.Reader.{
  Tables, read_packed_int, read_typed, read_token, packed_width, read_width,
}
use project_chronos_engine.Psb.Numbers.Reads.{read_u8-At, read_bytes-le_bytes}
use project_chronos_engine.Psb.Numbers.Unsigned.{
  IsU32, bytes_for_bounds, bytes_for_fits, read_uint_by_type-le_bytes,
}

-- One of the three token types that hold an index: its first type, and the value that it makes.
abbrev Made : Tables → ℕ → (ℕ → Value) → Type 0
Made t base make =
    (floats : Floats) (bytes : Bytes) (token : Read Value) (p at n idx : ℕ)
    → 1 ≤ n
    → n ≤ 4
    → read_uint_by_type bytes (13 + n - 1) at ≡ ok (idx, at + n)
    → read_typed floats bytes t token p (base + n - 1) at ≡ ok (make idx, at + n)

module _ (t : Tables) where
  make_string : Made t 21 (λ idx. string (get_or t.strings idx []))
  unfolding read_typed read_packed_int packed_width read_width read_uint_by_type
  make_string floats bytes token p at zero idx lo hi e = absurd (omega arith)
  make_string floats bytes token p at (suc zero) idx lo hi e = rw (e, ◌>>=◌)
  make_string floats bytes token p at (suc (suc zero)) idx lo hi e = rw (e, ◌>>=◌)
  make_string floats bytes token p at (suc (suc (suc zero))) idx lo hi e = rw (e, ◌>>=◌)
  make_string floats bytes token p at (suc (suc (suc (suc zero)))) idx lo hi e = rw (e, ◌>>=◌)
  make_string floats bytes token p at (suc (suc (suc (suc (suc n))))) idx lo hi e =
      absurd (omega arith)

  make_stream :
      Made t 25 (λ idx. stream (record { index = idx % 2 ^ 32; content = get_or t.streams idx [] }))
  unfolding read_typed read_packed_int packed_width read_width read_uint_by_type
  make_stream floats bytes token p at zero idx lo hi e = absurd (omega arith)
  make_stream floats bytes token p at (suc zero) idx lo hi e = rw (e, ◌>>=◌)
  make_stream floats bytes token p at (suc (suc zero)) idx lo hi e = rw (e, ◌>>=◌)
  make_stream floats bytes token p at (suc (suc (suc zero))) idx lo hi e = rw (e, ◌>>=◌)
  make_stream floats bytes token p at (suc (suc (suc (suc zero)))) idx lo hi e = rw (e, ◌>>=◌)
  make_stream floats bytes token p at (suc (suc (suc (suc (suc n))))) idx lo hi e =
      absurd (omega arith)

  make_bstream :
      Made t 34
        (λ idx. bstream (record { index = idx % 2 ^ 32; content = get_or t.bstreams idx [] }))
  unfolding read_typed read_packed_int packed_width read_width read_uint_by_type
  make_bstream floats bytes token p at zero idx lo hi e = absurd (omega arith)
  make_bstream floats bytes token p at (suc zero) idx lo hi e = rw (e, ◌>>=◌)
  make_bstream floats bytes token p at (suc (suc zero)) idx lo hi e = rw (e, ◌>>=◌)
  make_bstream floats bytes token p at (suc (suc (suc zero))) idx lo hi e = rw (e, ◌>>=◌)
  make_bstream floats bytes token p at (suc (suc (suc (suc zero)))) idx lo hi e = rw (e, ◌>>=◌)
  make_bstream floats bytes token p at (suc (suc (suc (suc (suc n))))) idx lo hi e =
      absurd (omega arith)

module _ (floats : Floats) (bytes : Bytes) (t : Tables) (fuel at : ℕ) where
  read_indexed :
      (base : ℕ) (make : ℕ → Value) (idx : ℕ)
      → Made t base make
      → IsU32 idx
      → At bytes at (write_indexed base idx)
      → (at' : ℕ) × (read_token floats bytes t (suc fuel) at ≡ ok (make idx, at'))
  unfolding read_token write_indexed
  read_indexed base make idx made small h =
      let n = bytes_for idx in
      let (lo, hi) = bytes_for_bounds idx in
      let tail = At-tail bytes at (base + n - 1) (le_bytes n idx) h in
      let e =
        read_uint_by_type-le_bytes bytes (at + 1) n idx lo hi (bytes_for_fits idx small) tail in
      (
        at + 1 + n,
        rw (read_u8-At bytes at (base + n - 1) (le_bytes n idx) h, ◌>>=◌)
            (made floats bytes (λ p. read_token floats bytes t fuel p) at (at + 1) n idx lo hi e),
      )

  pub read_string_token :
      (idx : ℕ)
      → IsU32 idx
      → At bytes at (write_indexed 21 idx)
      → (at' : ℕ) × (read_token floats bytes t (suc fuel) at
          ≡ ok (string (get_or t.strings idx []), at'))
  read_string_token idx small h = read_indexed 21 _ idx (make_string t) small h

  pub read_stream_token :
      (idx : ℕ)
      → IsU32 idx
      → At bytes at (write_indexed 25 idx)
      → (at' : ℕ) × (read_token floats bytes t (suc fuel) at
          ≡ ok (stream (record { index = idx % 2 ^ 32; content = get_or t.streams idx [] }), at'))
  read_stream_token idx small h = read_indexed 25 _ idx (make_stream t) small h

  pub read_bstream_token :
      (idx : ℕ)
      → IsU32 idx
      → At bytes at (write_indexed 34 idx)
      → (at' : ℕ) × (read_token floats bytes t (suc fuel) at
          ≡ ok (bstream (record { index = idx % 2 ^ 32; content = get_or t.bstreams idx [] }), at'))
  read_bstream_token idx small h = read_indexed 34 _ idx (make_bstream t) small h

  -- Zero, a double that is an f32, and any other double keep their 64 bits.
  pub read_token-write_float :
      (f : ℕ)
      → f < 2 ^ 64
      → floats.narrow f < 2 ^ 32
      → At bytes at (write_float floats f)
      → (at' : ℕ) × (read_token floats bytes t (suc fuel) at ≡ ok (float f, at'))
  unfolding read_token write_float
  read_token-write_float f big small h =
      elim (Bool-cases (f % 2 ^ 63 == 0 && not (leb (2 ^ 63) f))) [
        | inl is_zero ↦
            let h0 : At bytes at (29 ∷ []) = rw is_zero at h in
            let zero_bits : f ≡ 0 = ground arith in
            (at + 1, rw (read_u8-At bytes at 29 [] h0, ◌>>=◌) (unfold read_typed in rw zero_bits))
        | inr not_zero ↦ elim (Bool-cases (floats.widen (floats.narrow f) == f)) [
          | inl exact ↦
              let h0 : At bytes at (30 ∷ le_bytes 4 (floats.narrow f)) =
                rw (not_zero, exact) at h in
              let tail = At-tail bytes at 30 (le_bytes 4 (floats.narrow f)) h0 in
              (
                at + 1 + 4,
                rw (read_u8-At bytes at 30 (le_bytes 4 (floats.narrow f)) h0, ◌>>=◌)
                    (unfold read_typed in
                      rw (
                        read_bytes-le_bytes bytes (at + 1) 3 (floats.narrow f) tail,
                        ◌>>=◌,
                        of_le-le_bytes 4 (floats.narrow f) small,
                        (==_iff _ f).0 exact,
                      )),
              )
          | inr inexact ↦
              let h0 : At bytes at (31 ∷ le_bytes 8 f) = rw (not_zero, inexact) at h in
              let tail = At-tail bytes at 31 (le_bytes 8 f) h0 in
              (
                at + 1 + 8,
                rw (read_u8-At bytes at 31 (le_bytes 8 f) h0, ◌>>=◌)
                    (unfold read_typed in
                      rw (
                        read_bytes-le_bytes bytes (at + 1) 7 f tail,
                        ◌>>=◌,
                        of_le-le_bytes 8 f big,
                      )),
              )
        ]
      ]
