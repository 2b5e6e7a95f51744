-- ===== src/Mzs/Twister/Bounds.antt =====
-- The indices of `genrand_int32` of mt19937.rs: the draw with every index checked.
use project_chronos_engine.Prelude.{
  ℕ, zero, suc, ◌+◌, ◌-◌, ◌<◌, ◌≤◌, ◌≡◌, refl, true, ◌∙◌, List, [], ◌∷◌, Option, none, some, length,
  get_or, get_elem?, length-set, leb, ltb, if◌then◌else◌, and_then, set_at, arith, Bool-cases, inl,
  inr,
}
use project_chronos_engine.Mzs.Twister.{
  Mt19937, join, twist, twist_at, twist_up, twist_down, refill, temper, genrand_int32, n_words,
  m_shift,
}

-- Here and below `none` is a panic.
unfoldable pub twist_at_checked : ℕ → ℕ → ℕ → List ℕ → Option (List ℕ)
twist_at_checked kk next source mt = and_then (get_elem? mt kk) (λ hi.
    and_then (get_elem? mt next)
      (λ lo. and_then (get_elem? mt source) (λ from. set_at mt kk (twist from (join hi lo)))))

unfoldable pub twist_up_checked : ℕ → ℕ → List ℕ → Option (List ℕ)
twist_up_checked zero kk mt = some mt
twist_up_checked (suc rounds) kk mt =
    and_then (twist_at_checked kk (kk + 1) (kk + m_shift) mt) (twist_up_checked rounds (kk + 1))

-- `kk + M - N` must not underflow.
unfoldable pub twist_down_checked : ℕ → ℕ → List ℕ → Option (List ℕ)
twist_down_checked zero kk mt = some mt
twist_down_checked (suc rounds) kk mt =
    if leb n_words (kk + m_shift)
    then and_then (twist_at_checked kk (kk + 1) (kk + m_shift - n_words) mt)
        (twist_down_checked rounds (kk + 1))
    else none

unfoldable pub refill_checked : List ℕ → Option (List ℕ)
refill_checked mt = and_then (twist_up_checked (n_words - m_shift) 0 mt) (λ up.
    and_then (twist_down_checked (m_shift - 1) (n_words - m_shift) up)
      (λ down. twist_at_checked (n_words - 1) 0 (m_shift - 1) down))

unfoldable pub draw_checked : Mt19937 → Option (Mt19937 × ℕ)
draw_checked s =
    and_then (get_elem? s.mt s.mti) (λ word. some (record s { mti = s.mti + 1 }, temper word))

unfoldable pub genrand_checked : Mt19937 → Option (Mt19937 × ℕ)
genrand_checked self =
    if leb n_words self.mti
    then and_then (refill_checked self.mt) (λ mt. draw_checked (record { mt = mt; mti = 0 }))
    else draw_checked self

get_elem?-get_or : (xs : List ℕ) (i : ℕ) → i < length xs → get_elem? xs i ≡ some (get_or xs i 0)
get_elem?-get_or [] i h = elim h [ ]
get_elem?-get_or (x ∷ xs) zero h = refl
get_elem?-get_or (x ∷ xs) (suc i) h = get_elem?-get_or xs i (omega arith)

-- A step gives what the unchecked one gives, and the array keeps its length.
abbrev Stays : Option (List ℕ) → List ℕ → Type 0
Stays checked mt = (checked ≡ some mt) × (length mt ≡ 624)

twist_at-checked :
    (kk next source : ℕ) (mt : List ℕ)
    → length mt ≡ 624
    → kk < 624
    → next < 624
    → source < 624
    → Stays (twist_at_checked kk next source mt) (twist_at kk next source mt)
unfolding twist_at_checked twist_at
twist_at-checked kk next source mt l a b c =
    let word = twist (get_or mt source 0) (join (get_or mt kk 0) (get_or mt next 0)) in
    let inside : ltb kk (length mt) ≡ true = ground arith in
    (
      rw
          (
            get_elem?-get_or mt kk (omega (arith, l)),
            get_elem?-get_or mt next (omega (arith, l)),
            get_elem?-get_or mt source (omega (arith, l)),
            inside,
          )
          refl,
      length-set mt kk word ∙ l,
    )

twist_up-checked :
    (rounds kk : ℕ) (mt : List ℕ)
    → length mt ≡ 624
    → kk + rounds ≤ 227
    → Stays (twist_up_checked rounds kk mt) (twist_up rounds kk mt)
unfolding twist_up_checked twist_up
twist_up-checked zero kk mt l h = (refl, l)
twist_up-checked (suc rounds) kk mt l h =
    let (e, l') =
      twist_at-checked kk (kk + 1) (kk + 397) mt l (omega (arith, h)) (omega (arith, h))
        (omega (arith, h)) in
    let next =
      twist_up-checked rounds (kk + 1) (twist_at kk (kk + 1) (kk + 397) mt) l' (omega (arith, h)) in
    (rw e next.0, next.1)

twist_down-checked :
    (rounds kk : ℕ) (mt : List ℕ)
    → length mt ≡ 624
    → 227 ≤ kk
    → kk + rounds ≤ 623
    → Stays (twist_down_checked rounds kk mt) (twist_down rounds kk mt)
unfolding twist_down_checked twist_down
twist_down-checked zero kk mt l g h = (refl, l)
twist_down-checked (suc rounds) kk mt l g h =
    let (e, l') =
      twist_at-checked kk (kk + 1) (kk + 397 - 624) mt l (omega (arith, h)) (omega (arith, h))
        (omega (arith, h)) in
    let next =
      twist_down-checked rounds (kk + 1) (twist_at kk (kk + 1) (kk + 397 - 624) mt) l'
        (omega (arith, g)) (omega (arith, h)) in
    let above : leb 624 (kk + 397) ≡ true = ground arith in (rw (above, e) next.0, next.1)

refill-checked : (mt : List ℕ) → length mt ≡ 624 → Stays (refill_checked mt) (refill mt)
unfolding refill_checked refill
refill-checked mt l =
    let up = twist_up-checked 227 0 mt l (omega arith) in
    let down = twist_down-checked 396 227 (twist_up 227 0 mt) up.1 (omega arith) (omega arith) in
    let last =
      twist_at-checked 623 0 396 (twist_down 396 227 (twist_up 227 0 mt)) down.1 (omega arith)
        (omega arith) (omega arith) in
    (rw (up.0, down.0) last.0, last.1)

-- A draw from a generator with 624 words, wherever its index stands, gives the same with every index checked, so that no
-- index of the refill or of the draw is out of range; and it leaves 624 words and an index of at most 624.
pub genrand_checked-genrand_int32 :
    (self : Mt19937)
    → length self.mt ≡ 624
    → (genrand_checked self ≡ some (genrand_int32 self))
      × (length (genrand_int32 self).0.mt ≡ 624)
      × ((genrand_int32 self).0.mti ≤ 624)
unfolding genrand_checked genrand_int32 draw_checked
genrand_checked-genrand_int32 self l = elim (Bool-cases (leb n_words self.mti)) [
  | inl e ↦
      let filled = refill-checked self.mt l in
      let first = get_elem?-get_or (refill self.mt) 0 (omega (arith, filled.1)) in
      (rw (e, filled.0, first) refl, rw e filled.1, rw e (omega arith))
  | inr e ↦
      let here = get_elem?-get_or self.mt self.mti (ground arith) in
      (rw (e, here) refl, rw e l, rw e (ground arith))
]
