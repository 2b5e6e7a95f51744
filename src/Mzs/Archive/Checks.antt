-- ===== src/Mzs/Archive/Checks.antt =====
-- The checks of `unpack`, whatever the bytes of the file are.
use project_chronos_engine.Prelude.{
  ℕ, ◌<◌, ◌≤◌, ◌≡◌, ◌≢◌, refl, sym, ◌∙◌, Bytes, [], ◌∷◌, length, take, drop, of_le, ltb, leb,
  leb→le, true, ◌+◌, ◌==◌, arith, Bool-cases, inl, inr, false, bytes_eq, bytes_eq→eq, Option-cases,
}
use project_chronos_engine.Mzs.Archive.{
  Result, ok, err, panicked, ◌>>=◌, derive_keystream, xor_into, Zstd, magic, check_magic, range,
  range_from, decode_checked, unpack, truncated, bad_magic,
}
use project_chronos_engine.Mzs.Archive.Keystream.{length-derive_keystream}

>>=-eq-ok :
    {A B : Type 0} (r : Result A) (f : A → Result B) (b : B)
    → (r >>= f) ≡ ok b
    → (a : A) × (r ≡ ok a) × (f a ≡ ok b)
>>=-eq-ok (ok a) f b h = (a, refl, h)
>>=-eq-ok (err e) f b h = cc
>>=-eq-ok panicked f b h = cc

>>=-ne-panicked :
    {A B : Type 0} (r : Result A) (f : A → Result B)
    → r ≢ panicked
    → ((a : A) → f a ≢ panicked)
    → (r >>= f) ≢ panicked
>>=-ne-panicked (ok a) f h k = k a
>>=-ne-panicked (err e) f h k = λ e'. cc
>>=-ne-panicked panicked f h k = absurd (h refl)

xor_into-ne-panicked : (bs key : Bytes) → 0 < length key → xor_into bs key ≢ panicked
unfolding xor_into
xor_into-ne-panicked [] key h = λ e. cc
xor_into-ne-panicked (b ∷ bs) key h =
    let e : (length key == 0) ≡ false = ground arith in rw (e, xor_into) (λ e'. cc)

pub range-ok :
    (bytes : Bytes) (at n : ℕ)
    → at + n ≤ length bytes
    → range bytes at n ≡ ok (take n (drop at bytes))
unfolding range
range-ok bytes at n h = let e : leb (at + n) (length bytes) ≡ true = ground arith in rw e refl

pub range_from-ok :
    (bytes : Bytes) (at : ℕ) → at ≤ length bytes → range_from bytes at ≡ ok (drop at bytes)
unfolding range_from
range_from-ok bytes at h = let e : leb at (length bytes) ≡ true = ground arith in rw e refl

ltb-false : (bytes : Bytes) → ltb (length bytes) 8 ≡ false → 8 ≤ length bytes
ltb-false bytes e = ground (arith, e)

module _ (md5 : Bytes → Bytes) (z : Zstd) where
  decode_checked-ok :
      (n : ℕ) (payload d : Bytes) → decode_checked md5 z n payload ≡ ok d → length d ≡ n
  unfolding decode_checked
  decode_checked-ok n payload d h = elim (Option-cases (z.decode_all payload)) [
    | inl e ↦ ground (arith, rw (e, decode_checked) at h)
    | inr (decoded, e) ↦ ground (arith, rw (e, decode_checked) at h)
  ]

  decode_checked-ne-panicked : (n : ℕ) (payload : Bytes) → decode_checked md5 z n payload ≢ panicked
  unfolding decode_checked
  decode_checked-ne-panicked n payload h = elim (Option-cases (z.decode_all payload)) [
    | inl e ↦ ground (arith, rw (e, decode_checked) at h)
    | inr (decoded, e) ↦ ground (arith, rw (e, decode_checked) at h)
  ]

  check_magic-ne-panicked : (payload : Bytes) → check_magic md5 z payload ≢ panicked
  unfolding check_magic
  check_magic-ne-panicked payload h = elim (Bool-cases (leb 4 (length payload))) [
    | inl e ↦ ground (
      arith,
      rw (e, check_magic, range-ok payload 0 4 (omega (arith, leb→le 4 (length payload) e)), ◌>>=◌)
          at h,
    )
    | inr e ↦ ground (arith, rw (e, check_magic) at h)
  ]

  -- The steps of `unpack` behind its two guards.
  abbrev opened : Bytes → Bytes → Bytes → ℕ → Result Bytes
  opened bytes filename game_key key_length =
      xor_into (drop 8 bytes) (derive_keystream md5 game_key filename key_length) >>= λ payload.
      check_magic md5 z payload >>= λ checked.
      decode_checked md5 z (of_le (take 4 (drop 4 bytes))) payload

  opened-ne-panicked :
      (bytes filename game_key : Bytes) (key_length : ℕ)
      → 0 < key_length
      → opened bytes filename game_key key_length ≢ panicked
  opened-ne-panicked bytes filename game_key key_length h =
      let ks = derive_keystream md5 game_key filename key_length in
      let n = of_le (take 4 (drop 4 bytes)) in
      >>=-ne-panicked (xor_into (drop 8 bytes) ks)
        (λ payload. check_magic md5 z payload >>= λ checked. decode_checked md5 z n payload)
        (xor_into-ne-panicked (drop 8 bytes) ks
          (omega (arith, (length-derive_keystream md5 game_key filename key_length).0)))
        (λ payload.
          >>=-ne-panicked (check_magic md5 z payload) (λ checked. decode_checked md5 z n payload)
            (check_magic-ne-panicked payload) (λ checked. decode_checked-ne-panicked n payload))

  opened-ok :
      (bytes filename game_key : Bytes) (key_length : ℕ) (d : Bytes)
      → opened bytes filename game_key key_length ≡ ok d
      → length d ≡ of_le (take 4 (drop 4 bytes))
  opened-ok bytes filename game_key key_length d h =
      let n = of_le (take 4 (drop 4 bytes)) in
      let (payload, e1, h1) =
        >>=-eq-ok (xor_into (drop 8 bytes) (derive_keystream md5 game_key filename key_length))
          (λ payload. check_magic md5 z payload >>= λ checked. decode_checked md5 z n payload) d
          h in
      let (u, e2, h2) =
        >>=-eq-ok (check_magic md5 z payload) (λ checked. decode_checked md5 z n payload) d h1 in
      decode_checked-ok n payload d h2

  -- With a key that is not empty, `unpack` never panics, whatever the file; fewer than 8 bytes are reported as
  -- truncated and another magic as bad; and data that comes out belongs to a file with the header's magic and has the
  -- length that the header gives.
  pub unpack-checked :
      (bytes filename game_key : Bytes) (key_length : ℕ)
      → 0 < key_length
      → (unpack md5 z bytes filename game_key key_length ≢ panicked)
        × (length bytes < 8 → unpack md5 z bytes filename game_key key_length ≡ err truncated)
        × (8 ≤ length bytes
            → take 4 bytes ≢ magic
            → unpack md5 z bytes filename game_key key_length ≡ err bad_magic)
        × ((d : Bytes)
            → unpack md5 z bytes filename game_key key_length ≡ ok d
            → (8 ≤ length bytes)
              × (take 4 bytes ≡ magic)
              × (length d ≡ of_le (take 4 (drop 4 bytes))))
  unfolding unpack
  unpack-checked bytes filename game_key key_length h =
      let np = opened-ne-panicked bytes filename game_key key_length h in
      elim (Bool-cases (ltb (length bytes) 8)) [
        | inl e ↦
            let u : unpack md5 z bytes filename game_key key_length ≡ err truncated =
              rw (e, unpack) refl in
            (λ x. cc, λ l. u, λ l m. absurd (ground arith), λ d x. cc)
        | inr e ↦
            let start = range-ok bytes 0 4 (omega (arith, ltb-false bytes e)) in
            let size = range-ok bytes 4 4 (omega (arith, ltb-false bytes e)) in
            let behind = range_from-ok bytes 8 (ltb-false bytes e) in
            elim (Bool-cases (bytes_eq (take 4 bytes) magic)) [
              | inl e' ↦
                  let u : unpack md5 z bytes filename game_key key_length
                      ≡ opened bytes filename game_key key_length =
                    rw (e, unpack, start, ◌>>=◌, e', size, behind) refl in
                  let m' = bytes_eq→eq (take 4 bytes) magic e' in
                  (
                    λ x. np (sym u ∙ x),
                    λ l. absurd (ground arith),
                    λ l m. absurd (m m'),
                    λ d x. (
                      ground arith,
                      m',
                      opened-ok bytes filename game_key key_length d (sym u ∙ x),
                    ),
                  )
              | inr e' ↦
                  let u : unpack md5 z bytes filename game_key key_length ≡ err bad_magic =
                    rw (e, unpack, start, ◌>>=◌, e') refl in
                  (λ x. cc, λ l. absurd (ground arith), λ l m. u, λ d x. cc)
            ]
      ]
