-- ===== src/Psb/Tokens/Forward.antt =====
-- editor/crates/m2-psb/src/reader.rs: where the reads of numbers leave the position.
use project_chronos_engine.Prelude.{
  ℕ, zero, suc, ◌≤◌, Bytes, Bool, true, false, Option, none, some, arith, get_elem?, ◌==◌,
  if◌then◌else◌, inl, inr, Option-cases,
}
use project_chronos_engine.Prelude.At.{slice}
use project_chronos_engine.Psb.Value.{Result, ok, err, panicked, stuck, invalid_uint_type}
use project_chronos_engine.Prelude.Int.{to_u64}
use project_chronos_engine.Psb.Scan.{
  Read, ◌>>=◌, pure, fail, read_u8, read_bytes, read_u16, read_u32, read_n_bytes_int,
  read_uint_by_type, read_elems, read_uint_array,
}
use project_chronos_engine.Psb.Reader.{read_width, read_packed_int, packed_width}

-- From `at`, a read ends, and it does not move back.
abbrev pub Forward : {A : Type 0} → ℕ → Result (A × ℕ) → Type 0
Forward at (ok (a, at')) = at ≤ at'
Forward at (err e) = Unit {0}
Forward at panicked = Unit {0}
Forward at stuck = ⊥

abbrev pub IsForward : {A : Type 0} → Read A → Type 0
IsForward m = (at : ℕ) → Forward at (m at)

abbrev pub Ends : {A : Type 0} → Result A → Type 0
Ends stuck = ⊥
Ends (ok a) = Unit {0}
Ends (err e) = Unit {0}
Ends panicked = Unit {0}

pub Forward-mono :
    {A : Type 0} (at at' : ℕ) (r : Result (A × ℕ)) → at ≤ at' → Forward at' r → Forward at r
Forward-mono at at' (ok (a, p)) h f = omega arith
Forward-mono at at' (err e) h f = tt
Forward-mono at at' panicked h f = tt
Forward-mono at at' stuck h f = f

-- A read that never moves back, and then another from where it ends.
module _ {A B : Type 0} (f : A → Read B) (at : ℕ) where
  pub continue : Result (A × ℕ) → Result (B × ℕ)
  continue r = elim r [
    | ok (a, at') ↦ f a at'
    | err e ↦ err e
    | panicked ↦ panicked
    | stuck ↦ stuck
  ]

  pub Forward-continue :
      (r : Result (A × ℕ)) → Forward at r → ((a : A) → IsForward (f a)) → Forward at (continue r)
  unfolding continue
  Forward-continue (ok (a, at')) h k = Forward-mono at at' (f a at') h (k a at')
  Forward-continue (err e) h k = tt
  Forward-continue panicked h k = tt
  Forward-continue stuck h k = h

  pub Ends-continue :
      (r : Result (A × ℕ))
      → Forward at r
      → ((a : A) (at' : ℕ) → at ≤ at' → Ends (f a at'))
      → Ends (continue r)
  unfolding continue
  Ends-continue (ok (a, at')) h k = k a at' h
  Ends-continue (err e) h k = tt
  Ends-continue panicked h k = tt
  Ends-continue stuck h k = h

pub IsForward-bind :
    {A B : Type 0} (m : Read A) (f : A → Read B)
    → IsForward m
    → ((a : A) → IsForward (f a))
    → IsForward (m >>= f)
unfolding continue
IsForward-bind m f hm hf at = Forward-continue f at (m at) (hm at) hf

pub Ends-bind :
    {A B : Type 0} (m : Read A) (f : A → Read B) (at : ℕ)
    → IsForward m
    → ((a : A) (at' : ℕ) → at ≤ at' → Ends (f a at'))
    → Ends ((m >>= f) at)
unfolding continue
Ends-bind m f at hm hf = Ends-continue f at (m at) (hm at) hf

pub Ends-then :
    {A B : Type 0} (m : Read A) (f : A → Read B) (at : ℕ)
    → Ends (m at)
    → ((a : A) (at' : ℕ) → Ends (f a at'))
    → Ends ((m >>= f) at)
unfolding continue
Ends-then {A} {B} m f at hm hf = go (m at) hm
  where
    go : (r : Result (A × ℕ)) → Ends r → Ends (continue f at r)
    go (ok (a, p)) h = hf a p
    go (err e) h = tt
    go panicked h = tt
    go stuck h = h

pub Ends-if :
    {A : Type 0} (b : Bool) (m n : Read A) (at : ℕ)
    → Ends (m at)
    → Ends (n at)
    → Ends ((if b then m else n) at)
Ends-if true m n at hm hn = hm
Ends-if false m n at hm hn = hn

pub IsForward-if :
    {A : Type 0} (b : Bool) (m n : Read A)
    → IsForward m
    → IsForward n
    → IsForward (if b then m else n)
IsForward-if true m n hm hn = hm
IsForward-if false m n hm hn = hn

module _ (bytes : Bytes) where
  pub read_u8-IsForward : IsForward (read_u8 bytes)
  unfolding read_u8
  read_u8-IsForward at = elim (Option-cases (get_elem? bytes at)) [
    | inl e ↦ rw (e, Forward) tt
    | inr (b, e) ↦ rw (e, Forward) (omega arith)
  ]

  pub read_bytes-IsForward : (n : ℕ) → IsForward (read_bytes bytes n)
  unfolding read_bytes
  read_bytes-IsForward n at = elim (Option-cases (slice bytes at n)) [
    | inl e ↦ rw (e, Forward) tt
    | inr (b, e) ↦ rw (e, Forward) (omega arith)
  ]

  pub read_u16-IsForward : IsForward (read_u16 bytes)
  unfolding read_u16
  read_u16-IsForward =
      IsForward-bind (read_bytes bytes 2) _ (read_bytes-IsForward 2) (λ bs p. omega arith)

  pub read_u32-IsForward : IsForward (read_u32 bytes)
  unfolding read_u32
  read_u32-IsForward =
      IsForward-bind (read_bytes bytes 4) _ (read_bytes-IsForward 4) (λ bs p. omega arith)

  pub read_n_bytes_int-IsForward :
      (n : ℕ) (signed : Bool) → IsForward (read_n_bytes_int bytes n signed)
  unfolding read_n_bytes_int
  read_n_bytes_int-IsForward zero signed = λ p. omega arith
  read_n_bytes_int-IsForward (suc n) signed =
      IsForward-bind (read_bytes bytes (suc n)) _ (read_bytes-IsForward (suc n))
        (λ bs p. omega arith)

  pub read_three-IsForward : IsForward (read_n_bytes_int bytes 3 false >>= λ n. pure (to_u64 n))
  read_three-IsForward =
      IsForward-bind (read_n_bytes_int bytes 3 false) _ (read_n_bytes_int-IsForward 3 false)
        (λ n p. omega arith)

  pub read_uint_by_type-IsForward : (ty : ℕ) → IsForward (read_uint_by_type bytes ty)
  unfolding read_uint_by_type
  read_uint_by_type-IsForward ty =
      IsForward-if (ty == 0) _ _ (λ p. omega arith)
        (IsForward-if (ty == 13) _ _ read_u8-IsForward (
          IsForward-if (ty == 14) _ _ read_u16-IsForward (
            IsForward-if (ty == 15) _ _ read_three-IsForward
              (IsForward-if (ty == 16) _ _ read_u32-IsForward (λ p. tt)))))

  pub read_elems-IsForward : (count ty : ℕ) → IsForward (read_elems bytes count ty)
  unfolding read_elems
  read_elems-IsForward zero ty = λ p. omega arith
  read_elems-IsForward (suc count) ty =
      IsForward-bind (read_uint_by_type bytes ty) _ (read_uint_by_type-IsForward ty) (λ v.
        IsForward-bind (read_elems bytes count ty) _ (read_elems-IsForward count ty)
          (λ vs p. omega arith))

  pub read_uint_array-IsForward : IsForward (read_uint_array bytes)
  unfolding read_uint_array
  read_uint_array-IsForward = IsForward-bind (read_u8 bytes) _ read_u8-IsForward (λ ct.
      IsForward-bind (read_uint_by_type bytes ct) _ (read_uint_by_type-IsForward ct) (λ count.
        IsForward-bind (read_u8 bytes) _ read_u8-IsForward
          (λ et. IsForward-if (et == 0) _ _ (λ p. omega arith) (read_elems-IsForward count et))))

  pub read_width-IsForward : (width : ℕ) → IsForward (read_width bytes width)
  unfolding read_width
  read_width-IsForward width = IsForward-if (width == 1) _ _ read_u8-IsForward (
      IsForward-if (width == 2) _ _ read_u16-IsForward (
        IsForward-if (width == 3) _ _ read_three-IsForward
          (IsForward-if (width == 4) _ _ read_u32-IsForward (λ p. tt))))

  pub packed-IsForward :
      (ty : ℕ) (o : Option ℕ)
      → IsForward {A = ℕ}
          (elim o [ none ↦ fail (invalid_uint_type ty) | some width ↦ read_width bytes width ])
  packed-IsForward ty none p = tt
  packed-IsForward ty (some width) p = read_width-IsForward width p

  pub read_packed_int-IsForward : (ty : ℕ) → IsForward (read_packed_int bytes ty)
  unfolding read_packed_int
  read_packed_int-IsForward ty = packed-IsForward ty (packed_width ty)
