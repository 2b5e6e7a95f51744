-- ===== src/Mzs/Archive.antt =====
-- editor/crates/m2-mzs/src/lib.rs: the keystream and the container. MD5 and zstd are parameters.
pub mod Keystream
pub mod RoundTrip
pub mod Checks
use Prim.Native.Nat.{bit_xor}
use project_chronos_engine.Prelude.{
  ℕ, zero, suc, ◌+◌, ◌-◌, ◌*◌, ◌/◌, ◌%◌, ◌^◌, Bytes, Bool, true, false, ◌&&◌, List, [], ◌∷◌, ◌++◌,
  map, Option, none, some, length, get_or, take, drop, ltb, leb, ◌==◌, if◌then◌else◌, bytes_eq,
  le_bytes, of_le,
}
use project_chronos_engine.Prelude.Int.{ℤ}
use project_chronos_engine.Mzs.Twister.{Mt19937, new, init_by_array, genrand_int32}

pub data Error : Type 0 where
  bad_magic truncated not_zstd zstd : Error
  size_mismatch : ℕ → ℕ → Error

-- `panicked` is a panic of the program.
pub data Result {ℓ} (A : Type ℓ) : Type ℓ where
  ok : A → Result A
  err : Error → Result A
  panicked : Result A

infixl 5 ◌>>=◌
abbrev pub ◌>>=◌ {ℓ κ} : {A : Type ℓ} {B : Type κ} → Result A → (A → Result B) → Result B
ok a >>= f = f a
err e >>= f = err e
panicked >>= f = panicked

abbrev pub magic : Bytes
magic = 109 ∷ 122 ∷ 115 ∷ 0 ∷ []

abbrev pub zstd_magic : ℕ
zstd_magic = 0xFD2F_B528

abbrev pub lower : ℕ → ℕ
lower c = if leb 65 c && leb c 90 then c + 32 else c

-- `to_ascii_lowercase`
abbrev pub to_ascii_lowercase : Bytes → Bytes
to_ascii_lowercase = map lower

-- The seed: four little-endian words of the 16 bytes of the digest.
unfoldable pub seed_words : Bytes → List ℕ
seed_words digest =
    of_le (take 4 digest)
    ∷ of_le (take 4 (drop 4 digest))
    ∷ of_le (take 4 (drop 8 digest))
    ∷ of_le (take 4 (drop 12 digest))
    ∷ []

-- `while out.len() < length`; each round adds four bytes, so `length` rounds are enough.
unfoldable pub stream_loop : ℕ → ℕ → Mt19937 → Bytes → Bytes
stream_loop zero length_ mt out = out
stream_loop (suc fuel) length_ mt out = elim (ltb (length out) length_) [
  | true ↦
      let (mt', word) = genrand_int32 mt in stream_loop fuel length_ mt' (out ++ le_bytes 4 word)
  | false ↦ out
]

module _ (md5 : Bytes → Bytes) where
  unfoldable pub derive_keystream : Bytes → Bytes → ℕ → Bytes
  derive_keystream game_key filename length_ =
      let digest = md5 (game_key ++ to_ascii_lowercase filename) in
      let mt = init_by_array (seed_words digest) new in
      take length_ (stream_loop length_ length_ mt [])

-- `*b ^= key[i % kl]` from the index `i` on.
unfoldable pub xor_from : ℕ → Bytes → Bytes → Bytes
xor_from i key [] = []
xor_from i key (b ∷ bs) = bit_xor b (get_or key (i % length key) 0) ∷ xor_from (i + 1) key bs

-- An empty key makes `i % kl` panic at the first byte.
unfoldable pub xor_into : Bytes → Bytes → Result Bytes
xor_into [] key = ok []
xor_into (b ∷ bs) key = if length key == 0 then panicked else ok (xor_from 0 key (b ∷ bs))

-- `bytes[at..at + n]`, which panics where these are not all there.
unfoldable pub range : Bytes → ℕ → ℕ → Result Bytes
range bytes at n = if leb (at + n) (length bytes) then ok (take n (drop at bytes)) else panicked

-- `bytes[at..]`
unfoldable pub range_from : Bytes → ℕ → Result Bytes
range_from bytes at = if leb at (length bytes) then ok (drop at bytes) else panicked

-- `zstd::encode_all` and `zstd::decode_all`; `none` is an I/O error.
pub record Zstd : Type 0 where
  pub encode_all : Bytes → ℤ → Option Bytes
  pub decode_all : Bytes → Option Bytes

module _ (md5 : Bytes → Bytes) (z : Zstd) where
  -- The check of the zstd magic, for payloads of four bytes or more.
  unfoldable pub check_magic : Bytes → Result (Unit {0})
  check_magic payload =
      if leb 4 (length payload)
      then (do word ← range payload 0 4; if of_le word == zstd_magic then ok tt else err not_zstd)
      else ok tt

  unfoldable pub decode_checked : ℕ → Bytes → Result Bytes
  decode_checked uncomp_size payload = elim (z.decode_all payload) [
    | none ↦ err zstd
    | some decoded ↦
        if length decoded == uncomp_size
        then ok decoded
        else err (size_mismatch uncomp_size (length decoded))
  ]

  unfoldable pub unpack : Bytes → Bytes → Bytes → ℕ → Result Bytes
  unpack bytes filename game_key key_length = if ltb (length bytes) 8 then err truncated else (do
    found ← range bytes 0 4
    if bytes_eq found magic
        then (do
          size ← range bytes 4 4
          behind ← range_from bytes 8
          payload ← xor_into behind (derive_keystream md5 game_key filename key_length)
          checked ← check_magic payload
          decode_checked (of_le size) payload)
        else err bad_magic)

  unfoldable pub pack : Bytes → Bytes → Bytes → ℕ → ℤ → Result Bytes
  pack bytes filename game_key key_length level = elim (z.encode_all bytes level) [
    | none ↦ err zstd
    | some compressed ↦ (do
      payload ← xor_into compressed (derive_keystream md5 game_key filename key_length)
      ok (magic ++ (le_bytes 4 (length bytes % 2 ^ 32) ++ payload)))
  ]

-- DEFAULT_KEY is "8!7ZZnJAr/wfc".
abbrev pub default_key : Bytes
default_key = 56 ∷ 33 ∷ 55 ∷ 90 ∷ 90 ∷ 110 ∷ 74 ∷ 65 ∷ 114 ∷ 47 ∷ 119 ∷ 102 ∷ 99 ∷ []

abbrev pub default_key_length : ℕ
default_key_length = 64

abbrev pub unpack_default : (Bytes → Bytes) → Zstd → Bytes → Bytes → Result Bytes
unpack_default md5 z bytes filename = unpack md5 z bytes filename default_key default_key_length

abbrev pub pack_default : (Bytes → Bytes) → Zstd → Bytes → Bytes → Result Bytes
pack_default md5 z bytes filename =
    pack md5 z bytes filename default_key default_key_length (ℤ.pos 3)
