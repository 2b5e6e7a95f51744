-- ===== src/Mzs/Runs.antt =====
-- Concrete runs of the archive, with a toy digest and a toy compressor.
use project_chronos_engine.Prelude.{
  ℕ, ◌+◌, ◌%◌, ◌^◌, ◌≡◌, ◌≢◌, ◌<◌, ◌≤◌, refl, Bytes, IsByte, All, List, [], ◌∷◌, some, arith,
  length, take, drop, of_le, replicate, length-replicate, if◌then◌else◌, ◌==◌,
}
use project_chronos_engine.Prelude.Int.{pos}
use project_chronos_engine.Mzs.Twister.{new, key_rounds, last_rounds, genrand_int32}
use project_chronos_engine.Mzs.Twister.Counters.{InArray, InBounds, counters_bound}
use project_chronos_engine.Mzs.Twister.Bounds.{genrand_checked, genrand_checked-genrand_int32}
use project_chronos_engine.Mzs.Archive.{
  Zstd, ok, err, panicked, xor_into, derive_keystream, pack, unpack, magic, truncated, bad_magic,
  size_mismatch,
}
use project_chronos_engine.Mzs.Archive.Keystream.{length-derive_keystream, xor_into-xor_into}
use project_chronos_engine.Mzs.Archive.RoundTrip.{IsFrame, unpack-pack}
use project_chronos_engine.Mzs.Archive.Checks.{unpack-checked}

abbrev toy_md5 : Bytes → Bytes
toy_md5 s = replicate 16 (length s % 256)

-- The magic number and then the data as it is.
abbrev toy_zstd : Zstd
toy_zstd = record {
  encode_all = λ plain level. some (40 ∷ 181 ∷ 47 ∷ 253 ∷ plain);
  decode_all = λ frame. some (drop 4 frame);
}

abbrev plain : Bytes
plain = 1 ∷ 2 ∷ []

abbrev frame : Bytes
frame = 40 ∷ 181 ∷ 47 ∷ 253 ∷ plain

-- "a.m" and "A.m", and a key.
abbrev lower_name : Bytes
lower_name = 97 ∷ 46 ∷ 109 ∷ []

abbrev upper_name : Bytes
upper_name = 65 ∷ 46 ∷ 109 ∷ []

abbrev key : Bytes
key = 56 ∷ 33 ∷ []

frame-IsFrame : IsFrame toy_zstd plain frame
frame-IsFrame = record {
  bytes =
      (omega arith, (omega arith, (omega arith, (omega arith, (omega arith, (omega arith, tt))))));
  begins = refl;
  decodes = refl;
}

unpack-pack_example :
    (file : Bytes) × (pack toy_md5 toy_zstd plain lower_name key 64 (pos 3) ≡ ok file)
    × (length file ≡ 8 + length frame)
    × (unpack toy_md5 toy_zstd file upper_name key 64 ≡ (
        if length plain == length plain % 2 ^ 32
        then ok plain
        else err (size_mismatch (length plain % 2 ^ 32) (length plain))))
unpack-pack_example =
    unpack-pack toy_md5 toy_zstd plain frame lower_name key 64 (pos 3) upper_name refl frame-IsFrame
      (omega arith) refl

unpack-checked_example :
    (unpack toy_md5 toy_zstd plain lower_name key 64 ≢ panicked)
    × (length plain < 8 → unpack toy_md5 toy_zstd plain lower_name key 64 ≡ err truncated)
    × (8 ≤ length plain
        → take 4 plain ≢ magic
        → unpack toy_md5 toy_zstd plain lower_name key 64 ≡ err bad_magic)
    × ((d : Bytes)
        → unpack toy_md5 toy_zstd plain lower_name key 64 ≡ ok d
        → (8 ≤ length plain) × (take 4 plain ≡ magic) × (length d ≡ of_le (take 4 (drop 4 plain))))
unpack-checked_example = unpack-checked toy_md5 toy_zstd plain lower_name key 64 (omega arith)

length-derive_keystream_example :
    (length (derive_keystream toy_md5 key lower_name 7) ≡ 7)
    × All IsByte (derive_keystream toy_md5 key lower_name 7)
length-derive_keystream_example = length-derive_keystream toy_md5 key lower_name 7

xor_into-xor_into_example :
    (c : Bytes) × (xor_into plain key ≡ ok c)
    × (length c ≡ length plain)
    × (xor_into c key ≡ ok plain)
xor_into-xor_into_example =
    xor_into-xor_into plain key ((omega arith, (omega arith, tt)))
      ((omega arith, (omega arith, tt))) (omega arith)

genrand_checked-genrand_int32_example :
    (genrand_checked new ≡ some (genrand_int32 new))
    × (length (genrand_int32 new).0.mt ≡ 624)
    × ((genrand_int32 new).0.mti ≤ 624)
genrand_checked-genrand_int32_example =
    genrand_checked-genrand_int32 new (length-replicate {A = ℕ} 624 0)

abbrev two_words : List ℕ
two_words = 0x123 ∷ 0x234 ∷ []

counters_bound_example :
    InBounds two_words (key_rounds 700 two_words (record { mt = new.mt; i = 1; j = 0 }))
    × InArray (last_rounds 623 (key_rounds 700 two_words (record { mt = new.mt; i = 1; j = 0 }))).i
counters_bound_example = counters_bound two_words new.mt 700 623 (omega arith)
