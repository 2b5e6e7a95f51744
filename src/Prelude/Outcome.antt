-- ===== src/Prelude/Outcome.antt =====
-- The chains of fallible steps: `Option` for what panics or is absent.
use mathlib.Core.Option.{Option, none, some}
use mathlib.Core.Path.{◌≡◌, refl}
use mathlib.Core.List.{List}
use Prim.Native.Nat.{ℕ}
use project_chronos_engine.Prelude.Lists.{length, set}
use project_chronos_engine.Prelude.Tests.{ltb, if◌then◌else◌}

-- `o` and then `f` on its value.
abbrev pub and_then {ℓ κ} : {A : Type ℓ} {B : Type κ} → Option A → (A → Option B) → Option B
and_then none f = none
and_then (some a) f = f a

-- Inversion of a chain that succeeds.
pub and_then-eq-some {ℓ κ} :
    {A : Type ℓ} {B : Type κ} (o : Option A) (f : A → Option B) {b : B}
    → and_then o f ≡ some b
    → (a : A) × (o ≡ some a) × (f a ≡ some b)
and_then-eq-some none f h = cc
and_then-eq-some (some a) f h = (a, refl, h)

-- `xs[i] = v`, where `none` is a panic.
abbrev pub set_at {ℓ} : {A : Type ℓ} → List A → ℕ → A → Option (List A)
set_at xs i v = if ltb i (length xs) then some (set xs i v) else none
