-- ===== src/Mzs/Archive/RoundTrip.antt =====
-- Packing and unpacking: the round trip and the ways it fails.
use project_chronos_engine.Prelude.{
  ℕ, ◌+◌, ◌%◌, ◌^◌, ◌<◌, ◌≡◌, refl, sym, Bytes, IsByte, [], ◌++◌, length, take, All, le_bytes,
  of_le, of_le-le_bytes, subst, leb, leb→le, ltb, ◌==◌, if◌then◌else◌, arith, Bool-cases, inl, inr,
  true, false, some,
}
use project_chronos_engine.Prelude.Int.{ℤ}
use project_chronos_engine.Mzs.Archive.{
  ok, err, ◌>>=◌, to_ascii_lowercase, derive_keystream, xor_into, Zstd, magic, zstd_magic,
  check_magic, decode_checked, unpack, pack, size_mismatch, stream_loop, seed_words,
}
use project_chronos_engine.Mzs.Twister.{init_by_array, new}
use project_chronos_engine.Mzs.Archive.Checks.{range-ok, range_from-ok}
use project_chronos_engine.Mzs.Archive.Keystream.{xor_into-xor_into, length-derive_keystream}

-- What zstd documents of a frame: it is made of bytes, it begins with the magic number, and it decodes to what was
-- encoded.
pub record IsFrame (z : Zstd) (plain frame : Bytes) : Type 0 where
  pub bytes : All IsByte frame
  pub begins : of_le (take 4 frame) ≡ zstd_magic
  pub decodes : z.decode_all frame ≡ some plain

check_magic-frame :
    (md5 : Bytes → Bytes) (z : Zstd) (plain frame : Bytes)
    → IsFrame z plain frame
    → check_magic md5 z frame ≡ ok tt
unfolding check_magic
check_magic-frame md5 z plain frame h = elim (Bool-cases (leb 4 (length frame))) [
  | inl e ↦
      let e' : (of_le (take 4 frame) == zstd_magic) ≡ true = ground (arith, h.begins) in
      rw (e, range-ok frame 0 4 (omega (arith, leb→le 4 (length frame) e)), ◌>>=◌, e') refl
  | inr e ↦ rw e refl
]

module _ (md5 : Bytes → Bytes) (z : Zstd) where
  pack-frame :
      (plain frame c filename game_key : Bytes) (key_length : ℕ) (level : ℤ)
      → z.encode_all plain level ≡ some frame
      → xor_into frame (derive_keystream md5 game_key filename key_length) ≡ ok c
      → pack md5 z plain filename game_key key_length level
        ≡ ok (magic ++ (le_bytes 4 (length plain % 2 ^ 32) ++ c))
  unfolding pack
  pack-frame plain frame c filename game_key key_length level he e = rw (he, pack, e, ◌>>=◌) refl

  decode_checked-frame :
      (plain frame : Bytes) (n : ℕ)
      → z.decode_all frame ≡ some plain
      → decode_checked md5 z n frame
        ≡ (if length plain == n then ok plain else err (size_mismatch n (length plain)))
  unfolding decode_checked
  decode_checked-frame plain frame n h = rw (h, decode_checked) refl

  unpack-frame :
      (plain frame c name game_key : Bytes) (n key_length : ℕ)
      → IsFrame z plain frame
      → n < 2 ^ 32
      → xor_into c (derive_keystream md5 game_key name key_length) ≡ ok frame
      → unpack md5 z (magic ++ (le_bytes 4 n ++ c)) name game_key key_length
        ≡ (if length plain == n then ok plain else err (size_mismatch n (length plain)))
  unfolding unpack
  unpack-frame plain frame c name game_key n key_length hf hn e =
      let hl : ltb (length (magic ++ (le_bytes 4 n ++ c))) 8 ≡ false = ground arith in
      let file = magic ++ (le_bytes 4 n ++ c) in
      let start = range-ok file 0 4 (omega arith) in
      let size = range-ok file 4 4 (omega arith) in
      let behind = range_from-ok file 8 (omega arith) in
      let hs : of_le (le_bytes 4 n) ≡ n = of_le-le_bytes 4 n hn in
      rw (hl, unpack, start, size, behind, ◌>>=◌, e, check_magic-frame md5 z plain frame hf, hs)
        (decode_checked-frame plain frame n hf.decodes)

module _ (md5 : Bytes → Bytes) (z : Zstd) (plain frame filename game_key : Bytes) (key_length : ℕ)
    (level : ℤ) where
  -- With a zstd whose output for the data is a frame of it, and a key that is not empty: packing
  -- the data returns a file of 8 bytes more than the frame; unpacking that file, under a name that
  -- differs at most in the case of ASCII letters, gives the data back when its length is below
  -- 2^32, and otherwise the error of a size mismatch.
  pub unpack-pack :
      (name : Bytes)
      → z.encode_all plain level ≡ some frame
      → IsFrame z plain frame
      → 0 < key_length
      → to_ascii_lowercase name ≡ to_ascii_lowercase filename
      → (file : Bytes) × (pack md5 z plain filename game_key key_length level ≡ ok file)
        × (length file ≡ 8 + length frame)
        × (unpack md5 z file name game_key key_length ≡ (
            if length plain == length plain % 2 ^ 32
            then ok plain
            else err (size_mismatch (length plain % 2 ^ 32) (length plain))))
  unfolding derive_keystream
  unpack-pack name he hf hk hn =
      let ks = derive_keystream md5 game_key filename key_length in
      let lk = length-derive_keystream md5 game_key filename key_length in
      let (c, e, lc, e') = xor_into-xor_into frame ks hf.bytes lk.1 (omega (arith, lk.0)) in
      (
        magic ++ (le_bytes 4 (length plain % 2 ^ 32) ++ c),
        pack-frame md5 z plain frame c filename game_key key_length level he e,
        omega (arith, lc),
        unpack-frame md5 z plain frame c name game_key (length plain % 2 ^ 32) key_length hf
            (omega arith)
            (subst
              (λ (low : Bytes).
                xor_into c (
                  take key_length (
                    stream_loop key_length key_length
                      (init_by_array (seed_words (md5 (game_key ++ low))) new) []))
                ≡ ok frame)
              (sym hn) e'),
      )
