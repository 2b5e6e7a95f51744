-- ===== src/Mzs/Archive/Keystream.antt =====
-- The keystream: its length and its bytes, and the xor that undoes itself.
use project_chronos_engine.Prelude.{
  ℕ, zero, suc, ◌+◌, ◌%◌, ◌<◌, ◌≤◌, ◌≡◌, refl, Bytes, IsByte, [], ◌∷◌, ◌++◌, length, get_or, take,
  All, All-append, length-append, length-take, length-le_bytes, le_bytes-IsByte, le_bytes, ltb,
  ◌==◌, arith, Bool-cases, inl, inr, false, ap,
}
use project_chronos_engine.Prelude.Bits.{xor-xor}
use project_chronos_engine.Mzs.Twister.{Mt19937, new, init_by_array, genrand_int32}
use project_chronos_engine.Mzs.Archive.{
  ok, panicked, to_ascii_lowercase, seed_words, stream_loop, derive_keystream, xor_from, xor_into,
}

stream_loop-enough :
    (fuel n : ℕ) (mt : Mt19937) (out : Bytes)
    → n ≤ fuel + length out
    → n ≤ length (stream_loop fuel n mt out)
unfolding stream_loop
stream_loop-enough zero n mt out h = omega arith
stream_loop-enough (suc fuel) n mt out h = elim (Bool-cases (ltb (length out) n)) [
  | inl e ↦
      rw (e, length)
        (stream_loop-enough fuel n _ _ (
          omega (
            arith,
            length-append out (le_bytes 4 ((genrand_int32 mt).1)),
            length-le_bytes 4 ((genrand_int32 mt).1),
          )))
  | inr e ↦ rw (e, length) (ground arith)
]

stream_loop-IsByte :
    (fuel n : ℕ) (mt : Mt19937) (out : Bytes)
    → All IsByte out
    → All IsByte (stream_loop fuel n mt out)
unfolding stream_loop
stream_loop-IsByte zero n mt out h = h
stream_loop-IsByte (suc fuel) n mt out h = elim (Bool-cases (ltb (length out) n)) [
  | inl e ↦
      rw (e, All)
        (stream_loop-IsByte fuel n _ _ (
          All-append IsByte out (le_bytes 4 ((genrand_int32 mt).1)) h
            (le_bytes-IsByte 4 ((genrand_int32 mt).1))))
  | inr e ↦ rw (e, All) h
]

take-IsByte : (n : ℕ) (xs : Bytes) → All IsByte xs → All IsByte (take n xs)
take-IsByte zero xs h = tt
take-IsByte (suc n) [] h = tt
take-IsByte (suc n) (x ∷ xs) h = (h.0, take-IsByte n xs h.1)

-- The keystream is exactly as long as asked for, whatever the digest, and made of bytes.
pub length-derive_keystream :
    (md5 : Bytes → Bytes) (game_key filename : Bytes) (n : ℕ)
    → (length (derive_keystream md5 game_key filename n) ≡ n)
      × All IsByte (derive_keystream md5 game_key filename n)
unfolding derive_keystream
length-derive_keystream md5 game_key filename n =
    let mt = init_by_array (seed_words (md5 (game_key ++ to_ascii_lowercase filename))) new in
    (
      omega (
        arith,
        length-take n (stream_loop n n mt []),
        stream_loop-enough n n mt [] (omega arith),
      ),
      take-IsByte n (stream_loop n n mt []) (stream_loop-IsByte n n mt [] tt),
    )

get_or-IsByte : (bs : Bytes) (i : ℕ) → All IsByte bs → IsByte (get_or bs i 0)
get_or-IsByte [] i h = omega arith
get_or-IsByte (b ∷ bs) zero h = h.0
get_or-IsByte (b ∷ bs) (suc i) h = get_or-IsByte bs i h.1

xor_from-xor_from :
    (i : ℕ) (key bs : Bytes)
    → All IsByte key
    → All IsByte bs
    → xor_from i key (xor_from i key bs) ≡ bs
unfolding xor_from
xor_from-xor_from i key [] hk h = refl
xor_from-xor_from i key (b ∷ bs) hk h =
    rw
      (
        xor-xor b (get_or key (i % length key) 0) h.0 (get_or-IsByte key (i % length key) hk),
        xor_from-xor_from (i + 1) key bs hk h.1,
      )
      refl

pub length-xor_from : (i : ℕ) (key bs : Bytes) → length (xor_from i key bs) ≡ length bs
unfolding xor_from
length-xor_from i key [] = refl
length-xor_from i key (b ∷ bs) = ap suc (length-xor_from (i + 1) key bs)

-- With a key that is not empty the xor of bytes returns, keeps their number, and applied twice it gives them back.
pub xor_into-xor_into :
    (bs key : Bytes)
    → All IsByte bs
    → All IsByte key
    → 0 < length key
    → (c : Bytes) × (xor_into bs key ≡ ok c) × (length c ≡ length bs) × (xor_into c key ≡ ok bs)
unfolding xor_into xor_from
xor_into-xor_into [] key hb hk h = ([], refl, refl, refl)
xor_into-xor_into (b ∷ bs) key hb hk h =
    let e : (length key == 0) ≡ false = ground arith in
    (
      xor_from 0 key (b ∷ bs),
      rw e refl,
      length-xor_from 0 key (b ∷ bs),
      rw e (ap ok (xor_from-xor_from 0 key (b ∷ bs) hk hb)),
    )

-- With an empty key the xor panics at the first byte, and only without a byte does it return.
pub xor_into-empty_key : (b : ℕ) (bs : Bytes) → xor_into (b ∷ bs) [] ≡ panicked
unfolding xor_into
xor_into-empty_key b bs = refl
