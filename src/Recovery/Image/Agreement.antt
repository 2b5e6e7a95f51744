-- ===== src/Recovery/Image/Agreement.antt =====
-- `copy_verified` and `read_verified` of image.rs on the same reader.
use project_chronos_engine.Prelude.{
  ℕ, zero, suc, ◌≡◌, refl, sym, ap, subst, ◌∙◌, Bytes, Bool, true, List, [], ◌∷◌, ◌++◌, length,
  length-append, append_assoc, append-nil, if◌then◌else◌,
}
use project_chronos_engine.Recovery.Image.{too_large, Outcome, ok, err, stuck}
use project_chronos_engine.Recovery.Image.Copies.{
  Got, Round, again, ended, chunk, round, copied, copy_loop, copy_verified, loaded, read_loop,
  read_verified,
}
use project_chronos_engine.Recovery.Image.Chunks.{IsRound, round-IsRound, read_round-round}

-- A writer that keeps all bytes.
abbrev pub keep : Bytes → Bytes → Bytes × Bool
keep w bytes = (w ++ bytes, true)

-- A copy into `keep` that began with `out`, and a load: the same reports and the same end, and where they succeed the
-- bytes of the load follow `out`, as many as the copy returns.
abbrev pub Agree : Bytes → Outcome ℕ × Bytes × List ℕ → Outcome Bytes × List ℕ → Type 0
Agree out (o, w, ps) (ok d, qs) = (o ≡ ok (length d)) × (w ≡ out ++ d) × (ps ≡ qs)
Agree out (o, w, ps) (err e, qs) = (o ≡ err e) × (ps ≡ qs)
Agree out (o, w, ps) (stuck, qs) = (o ≡ stuck) × (ps ≡ qs)

module _ {S : Type 0} (read : S → ℕ → S × Got) (size : ℕ) (out : Bytes) where
  loaded-Agree :
      (copy : S → Bytes → ℕ → List ℕ → Outcome ℕ × Bytes × List ℕ)
      (load : S → Bytes → List ℕ → Outcome Bytes × List ℕ)
      → ((s : S) (d : Bytes) (ps : List ℕ)
          → Agree out (copy s (out ++ d) (length d) ps) (load s d ps))
      → (r : Round S) (d : Bytes) (ps : List ℕ) → IsRound size (length d) r
      → Agree out (copied read keep copy r (out ++ d) (length d) ps) (loaded read load r d ps)
  loaded-Agree copy load h (again s) d ps i = h s d ps
  loaded-Agree copy load h (ended (ok n)) d ps i = (ap ok i.0, refl, refl)
  loaded-Agree copy load h (ended (err e)) d ps i = (refl, refl)
  loaded-Agree copy load h (ended stuck) d ps i = (refl, refl)
  loaded-Agree copy load h (chunk s bytes actual) d ps i =
      subst (λ w. Agree out (copy s w actual (actual ∷ ps)) (load s (d ++ bytes) (actual ∷ ps)))
        (sym (append_assoc out d bytes))
        (subst
          (λ n.
            Agree out (copy s (out ++ (d ++ bytes)) n (actual ∷ ps))
              (load s (d ++ bytes) (actual ∷ ps)))
          (length-append d bytes ∙ sym i.0) (h s (d ++ bytes) (actual ∷ ps)))

  read_loop-Agree :
      (fuel : ℕ) (s : S) (d : Bytes) (ps : List ℕ)
      → Agree out
          (copy_loop read keep fuel size s (out ++ d) (length d) ps)
          (read_loop read fuel size s d ps)
  unfolding copy_loop read_loop
  read_loop-Agree zero s d ps = (refl, refl)
  read_loop-Agree (suc fuel) s d ps = rw (read_round-round read size (length d) s) (
      loaded-Agree (copy_loop read keep fuel size) (read_loop read fuel size) (read_loop-Agree fuel)
        (round read size (length d) s) d ps (round-IsRound read size (length d) s))

  -- Where memory for the size is found, `read_verified` agrees with `copy_verified` into a writer that keeps all bytes:
  -- the same calls of `on_progress`, the same error, and the bytes that `copy_verified` writes, as many as it returns.
  pub read_verified-copy_verified :
      (reserves : ℕ → Bool) (fuel : ℕ) (s : S)
      → reserves size ≡ true
      → Agree out
          (copy_verified read keep fuel size s out)
          (read_verified read reserves fuel size s)
  unfolding copy_verified read_verified
  read_verified-copy_verified reserves fuel s h =
      subst
        (λ b.
          Agree out (copy_loop read keep fuel size s out 0 (0 ∷ []))
            (if b then read_loop read fuel size s [] (0 ∷ []) else (err too_large, [])))
        (sym h)
        (subst
          (λ w.
            Agree out (copy_loop read keep fuel size s w 0 (0 ∷ []))
              (read_loop read fuel size s [] (0 ∷ [])))
          (append-nil out) (read_loop-Agree fuel s [] (0 ∷ [])))
