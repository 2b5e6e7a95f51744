-- ===== src/Prelude/At.antt =====
-- Where a byte string stands inside a file: `data.get(pos..pos + n)` and its laws.
use project_chronos_engine.Prelude.Lists.{
  length, get_elem?, take, drop, length-append, drop-append, take-append, drop-drop, length-drop,
}
use project_chronos_engine.Prelude.Words.{Bytes}
use project_chronos_engine.Prelude.Tests.{leb, if◌then◌else◌}
use Prim.Native.Nat.{ℕ, zero, suc, ◌+◌, ◌≤◌}
use mathlib.Core.Path.{◌≡◌, sym, ap, ◌∙◌}
use mathlib.Core.List.{[], ◌∷◌, ◌++◌, append_assoc}
use mathlib.Core.Option.{Option, none, some}
use mathlib.Core.Logic.{◌⊎◌}
use native.Mathlib.Omega.{arith}

unfoldable pub slice : Bytes → ℕ → ℕ → Option Bytes
slice bytes pos n = if leb (pos + n) (length bytes) then some (take n (drop pos bytes)) else none

-- `bs` stands in `bytes` at offset `pos`.
abbrev pub At : Bytes → ℕ → Bytes → Type 0
At bytes pos bs = (rest : Bytes) × (drop pos bytes ≡ bs ++ rest)

pub At-intro : (front bs rest : Bytes) → At (front ++ (bs ++ rest)) (length front) bs
At-intro front bs rest = (rest, drop-append front (bs ++ rest))

pub At-left : (bytes : Bytes) (pos : ℕ) (xs ys : Bytes) → At bytes pos (xs ++ ys) → At bytes pos xs
At-left bytes pos xs ys (rest, e) = (ys ++ rest, e ∙ append_assoc xs ys rest)

pub At-right :
    (bytes : Bytes) (pos : ℕ) (xs ys : Bytes)
    → At bytes pos (xs ++ ys)
    → At bytes (pos + length xs) ys
At-right bytes pos xs ys (rest, e) = (
  rest,
  sym (drop-drop pos (length xs) bytes)
      ∙ ap (drop (length xs)) (e ∙ append_assoc xs ys rest)
      ∙ drop-append xs (ys ++ rest),
)

pub At-head :
    (bytes : Bytes) (pos b : ℕ) (bs : Bytes) → At bytes pos (b ∷ bs) → get_elem? bytes pos ≡ some b
At-head [] zero b bs (rest, e) = cc
At-head [] (suc pos) b bs (rest, e) = cc
At-head (x ∷ xs) zero b bs (rest, e) = cc
At-head (x ∷ xs) (suc pos) b bs (rest, e) = At-head xs pos b bs (rest, e)

pub At-tail :
    (bytes : Bytes) (pos b : ℕ) (bs : Bytes) → At bytes pos (b ∷ bs) → At bytes (pos + 1) bs
At-tail bytes pos b bs h = At-right bytes pos (b ∷ []) bs h

-- A non-empty string at `pos` lies within the file.
pub At-le :
    (bytes : Bytes) (pos : ℕ) (bs : Bytes)
    → At bytes pos bs
    → (length bs ≡ 0) ⊎ (pos + length bs ≤ length bytes)
At-le bytes pos bs (rest, e) =
    omega (arith, ap length e, length-append bs rest, length-drop pos bytes)

pub At-slice :
    (bytes : Bytes) (pos b : ℕ) (bs : Bytes)
    → At bytes pos (b ∷ bs)
    → slice bytes pos (suc (length bs)) ≡ some (b ∷ bs)
unfolding slice
At-slice bytes pos b bs (rest, e) = ground (
  arith,
  ap (take (suc (length bs))) e,
  take-append (b ∷ bs) rest,
  ap length e,
  length-append (b ∷ bs) rest,
  length-drop pos bytes,
)
