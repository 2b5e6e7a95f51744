-- ===== src/Psb/Trie/Gives.antt =====
-- Steps that may panic and do not: their value and what holds of it.
use project_chronos_engine.Prelude.{
  ℕ, zero, suc, ◌<◌, ◌≡◌, refl, true, List, [], ◌∷◌, Option, some, All, length, length-set,
  get_elem?, set, set_at, ltb, and_then, arith,
}

abbrev pub Gives : {A : Type 0} → Option A → (A → Type 0) → Type 0
Gives {A = A} o Q = (a : A) × (o ≡ some a) × Q a

pub Gives-then :
    {A B : Type 0} (Q : A → Type 0) (R : B → Type 0) (o : Option A) (f : A → Option B)
    → Gives o Q
    → ((a : A) → Q a → Gives (f a) R)
    → Gives (and_then o f) R
Gives-then Q R o f (a, e, q) k = let (b, e', r) = k a q in (b, rw e e', r)

module _ {A : Type 0} (P : A → Type 0) where
  pub All-set : (xs : List A) (i : ℕ) (v : A) → All P xs → P v → All P (set xs i v)
  All-set [] i v h p = tt
  All-set (x ∷ xs) zero v h p = (p, h.1)
  All-set (x ∷ xs) (suc i) v h p = (h.0, All-set xs i v h.1 p)

  pub All-mono : (Q : A → Type 0) (xs : List A) → ((a : A) → P a → Q a) → All P xs → All Q xs
  All-mono Q [] f h = tt
  All-mono Q (x ∷ xs) f h = (f x h.0, All-mono Q xs f h.1)

  -- `xs[i]` within the list.
  pub get-Gives : (xs : List A) (i : ℕ) → All P xs → i < length xs → Gives (get_elem? xs i) P
  get-Gives [] i h l = elim l [ ]
  get-Gives (x ∷ xs) zero h l = (x, refl, h.0)
  get-Gives (x ∷ xs) (suc i) h l = get-Gives xs i h.1 (omega arith)

  -- `xs[i] = v` within the list.
  pub set-Gives :
      (xs : List A) (i : ℕ) (v : A)
      → All P xs
      → P v
      → i < length xs
      → Gives (set_at xs i v) (λ ys. (length ys ≡ length xs) × All P ys)
  set-Gives xs i v h p l =
      let inside : ltb i (length xs) ≡ true = ground arith in
      (set xs i v, rw inside refl, (length-set xs i v, All-set xs i v h p))
