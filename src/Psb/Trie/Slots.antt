-- ===== src/Psb/Trie/Slots.antt =====
-- The first-fit search of trie.rs.
use project_chronos_engine.Prelude.{
  ℕ, zero, suc, ◌+◌, ◌-◌, ◌≤◌, ◌<◌, ◌≡◌, refl, Bool, true, false, List, [], ◌∷◌, arith, length,
  get_or, get_elem?, some, All, ◌≢◌, Bool-cases, inl, inr,
}
use native.Mathlib.Decide.{dec_lt}
use project_chronos_engine.Psb.Trie.{fits, find_slot}

get_or-end {ℓ} : {A : Type ℓ} (xs : List A) (i : ℕ) (d : A) → length xs ≤ i → get_or xs i d ≡ d
get_or-end [] i d h = refl
get_or-end (x ∷ xs) zero d h = absurd (omega arith)
get_or-end (x ∷ xs) (suc i) d h = get_or-end xs i d (omega arith)

-- Past the end of the array everything fits.
fits_past_end :
    (used : List Bool) (slot min_char : ℕ) (chars : List ℕ)
    → length used ≤ slot
    → fits used slot min_char chars ≡ true
unfolding fits
fits_past_end used slot min_char [] h = refl
fits_past_end used slot min_char (ch ∷ chars) h =
    rw (get_or-end used (slot + (ch - min_char)) false (omega arith))
      (fits_past_end used slot min_char chars h)

find_slot-fits :
    (fuel : ℕ) (used : List Bool) (min_char : ℕ) (chars : List ℕ) (slot : ℕ)
    → length used ≤ slot + fuel
    → fits used (find_slot fuel used min_char chars slot) min_char chars ≡ true
unfolding find_slot
find_slot-fits zero used min_char chars slot h =
    fits_past_end used slot min_char chars (omega arith)
find_slot-fits (suc fuel) used min_char chars slot h =
    elim (Bool-cases (fits used slot min_char chars)) [
      | inl here ↦ rw here here
      | inr not_here ↦
          rw not_here (find_slot-fits fuel used min_char chars (slot + 1) (omega arith))
    ]

find_slot_lowest :
    (fuel : ℕ) (used : List Bool) (min_char : ℕ) (chars : List ℕ) (slot other : ℕ)
    → slot ≤ other
    → other < find_slot fuel used min_char chars slot
    → fits used other min_char chars ≡ false
unfolding find_slot
find_slot_lowest zero used min_char chars slot other p q = absurd (omega arith)
find_slot_lowest (suc fuel) used min_char chars slot other p q =
    elim (Bool-cases (fits used slot min_char chars)) [
      | inl here ↦
          let stays : find_slot (suc fuel) used min_char chars slot ≡ slot = rw (here, find_slot) in
          absurd (omega arith)
      | inr not_here ↦
          let moves : find_slot (suc fuel) used min_char chars slot
              ≡ find_slot fuel used min_char chars (slot + 1) =
            rw (not_here, find_slot) in
          elim (dec_lt slot other) [
            | yes later ↦
                find_slot_lowest fuel used min_char chars (slot + 1) other (omega arith)
                  (omega arith)
            | no same ↦ let eq : other ≡ slot = omega arith in rw eq not_here
          ]
    ]

-- The slots of all children are free: not in use, or past the end of the array.
abbrev pub IsFree : List Bool → ℕ → List ℕ → ℕ → Type 0
IsFree used min_char chars base =
    All (λ (ch : ℕ). get_elem? used (base + (ch - min_char)) ≢ some true) chars

get_or-used :
    (used : List Bool) (i : ℕ)
    → (get_or used i false ≡ false → get_elem? used i ≢ some true)
      × (get_or used i false ≡ true → get_elem? used i ≡ some true)
get_or-used [] i = (λ h e. cc, λ h. cc)
get_or-used (true ∷ xs) zero = (λ h e. cc, λ h. refl)
get_or-used (false ∷ xs) zero = (λ h e. cc, λ h. cc)
get_or-used (x ∷ xs) (suc i) = get_or-used xs i

fits-IsFree :
    (used : List Bool) (base min_char : ℕ) (chars : List ℕ)
    → fits used base min_char chars ≡ true
    → IsFree used min_char chars base
unfolding fits
fits-IsFree used base min_char [] h = tt
fits-IsFree used base min_char (ch ∷ chars) h =
    elim (Bool-cases (get_or used (base + (ch - min_char)) false)) [
      | inl taken ↦ (let h' = rw (taken, fits) at h in cc)
      | inr free ↦ (
        (get_or-used used (base + (ch - min_char))).0 free,
        fits-IsFree used base min_char chars (rw (free, fits) at h),
      )
    ]

fits-not-IsFree :
    (used : List Bool) (base min_char : ℕ) (chars : List ℕ)
    → fits used base min_char chars ≡ false
    → ¬ IsFree used min_char chars base
unfolding fits
fits-not-IsFree used base min_char [] h = cc
fits-not-IsFree used base min_char (ch ∷ chars) h =
    elim (Bool-cases (get_or used (base + (ch - min_char)) false)) [
      | inl taken ↦ λ free. free.0 ((get_or-used used (base + (ch - min_char))).1 taken)
      | inr free ↦ λ all. fits-not-IsFree used base min_char chars (rw (free, fits) at h) all.1
    ]

-- With one round for each slot in use the search ends on a base where no child's slot, as far from the base as its
-- character is from the lowest one, is in use; and no base from the start of the search up to it is such a base.
pub find_slot_first_fit :
    (used : List Bool) (min_char : ℕ) (chars : List ℕ) (slot : ℕ)
    → IsFree used min_char chars (find_slot (length used) used min_char chars slot)
      × ((other : ℕ)
          → slot ≤ other
          → other < find_slot (length used) used min_char chars slot
          → ¬ IsFree used min_char chars other)
find_slot_first_fit used min_char chars slot = (
  fits-IsFree used (find_slot (length used) used min_char chars slot) min_char chars
      (find_slot-fits (length used) used min_char chars slot (omega arith)),
  λ other p q.
      fits-not-IsFree used other min_char chars
        (find_slot_lowest (length used) used min_char chars slot other p q),
)
