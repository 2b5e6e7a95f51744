-- ===== src/Recovery/Image/Chunks.antt =====
-- The rounds of the two copying loops of image.rs.
use project_chronos_engine.Prelude.{
  ℕ, not, ◌&&◌, ◌+◌, ◌≤◌, ◌<◌, ◌≡◌, refl, sym, subst, Bool, true, false, [], ◌∷◌, length, ltb, ◌==◌,
  if◌then◌else◌, arith,
}
use project_chronos_engine.Recovery.Image.{size_mismatch, empty, ok, err, stuck, ◌>>=◌, check_size}
use project_chronos_engine.Recovery.Image.Copies.{
  Got, interrupted, failed, got, Round, again, ended, chunk, limit_of, round_of, round,
  read_round_of, read_round,
}

-- What a round says: the end is a failure or the whole size, and a chunk is not empty and stays within the size.
abbrev pub IsRound : {S : Type 0} → ℕ → ℕ → Round S → Type 0
IsRound size t (again s) = Unit {0}
IsRound size t (ended (ok n)) = (n ≡ t) × (t ≡ size) × (0 < size)
IsRound size t (ended (err e)) = Unit {0}
IsRound size t (ended stuck) = ⊥
IsRound size t (chunk s bytes actual) =
    (actual ≡ t + length bytes) × (actual ≤ size) × (0 < length bytes)

check_size-ends :
    (S : Type 0) (size t : ℕ) (b c : Bool)
    → (t == 0) ≡ b
    → (t == size) ≡ c
    → IsRound {S = S} size t (
        ended (
          (if b
            then err empty
            else if not c && not false
            then err (size_mismatch t size)
            else ok tt)
          >>= λ (checked : Unit {0}). ok t))
check_size-ends S size t true c e f = tt
check_size-ends S size t false false e f = tt
check_size-ends S size t false true e f = (refl, ground (arith, f), ground (arith, e, f))

module _ {S : Type 0} (read : S → ℕ → S × Got) where
  round_of-IsRound : (size t : ℕ) (r : S × Got) → IsRound size t (round_of read size t r)
  unfolding check_size
  round_of-IsRound size t (s, interrupted) = tt
  round_of-IsRound size t (s, failed) = tt
  round_of-IsRound size t (s, got []) = check_size-ends S size t (t == 0) (t == size) refl refl
  round_of-IsRound size t (s, got (b ∷ bs)) = within (ltb size (t + length (b ∷ bs))) refl
    where
      within :
          (c : Bool)
          → ltb size (t + length (b ∷ bs)) ≡ c
          → IsRound size t (
              if c
              then ended (err (size_mismatch (t + length (b ∷ bs)) size))
              else chunk s (b ∷ bs) (t + length (b ∷ bs)))
      within true e = tt
      within false e = (refl, ground (arith, e), omega arith)

  pub round-IsRound : (size t : ℕ) (s : S) → IsRound size t (round read size t s)
  unfolding round
  round-IsRound size t s = round_of-IsRound size t (read s (limit_of size t))

  same_rounds : (size t : ℕ) (r : S × Got) → read_round_of read size t r ≡ round_of read size t r
  same_rounds size t (s, interrupted) = refl
  same_rounds size t (s, failed) = refl
  same_rounds size t (s, got []) = refl
  same_rounds size t (s, got (b ∷ bs)) = refl

  -- The rounds of the two loops ask the reader for as much and make the same of the answer.
  pub read_round-round : (size t : ℕ) (s : S) → read_round read size t s ≡ round read size t s
  unfolding read_round round
  read_round-round size t s = same_rounds size t (read s (limit_of size t))

  pub read_round-IsRound : (size t : ℕ) (s : S) → IsRound size t (read_round read size t s)
  read_round-IsRound size t s =
      subst (IsRound size t) (sym (read_round-round size t s)) (round-IsRound size t s)
