-- ===== src/Saves/Metadata/Bounds.antt =====
-- `metadata_digest_offset` of save_format.rs on any bytes: the place of the digest, and no panic.
use project_chronos_engine.Prelude.{
  ℕ, zero, suc, ◌+◌, ◌-◌, ◌*◌, ◌≤◌, ◌<◌, ◌^◌, ◌≡◌, refl, sym, subst, ◌∙◌, Bytes, Bool, true, false,
  Bool-cases, inl, inr, ◌||◌, bytes_eq, ◌&&◌, [], ◌∷◌, Option, none, some, length, get_elem?, of_le,
  ltb, leb, ◌==◌, ltb→lt, leb→le, if◌then◌else◌, arith,
}
use project_chronos_engine.Prelude.At.{slice}
use project_chronos_engine.Saves.Metadata.{
  Error, Outcome, ok, err, panicked, died, ◌>>=◌, ok_or, at_index, guard, invalid_header_offset,
  truncated_metadata, truncated_array, invalid_array, not_one_digest, invalid_value,
  truncated_value, unknown_metadata, root_not_object, checksum_mismatch, invalid_digest_offset,
  invalid_digest_stream, between, range, recognized, read_u32, sized_number, single_uint,
  check_offsets, check_header_sum, metadata_digest_offset,
}
use project_chronos_engine.Psb.Emit.{adler32}

-- An error, or a result with `Q`: neither a panic nor the end of the process.
abbrev pub Safe : {A : Type 0} → (A → Type 0) → Outcome A → Type 0
Safe Q (ok a) = Q a
Safe Q (err e) = Unit {0}
Safe Q panicked = ⊥
Safe Q died = ⊥

Safe-then :
    {A B : Type 0} (Q : A → Type 0) (R : B → Type 0) (o : Outcome A) (f : A → Outcome B)
    → Safe Q o
    → ((a : A) → o ≡ ok a → Q a → Safe R (f a))
    → Safe R (o >>= f)
Safe-then Q R (ok a) f h k = k a refl h
Safe-then Q R (err e) f h k = tt
Safe-then Q R panicked f h k = h
Safe-then Q R died f h k = h

abbrev Any : {A : Type 0} → A → Type 0
Any a = Unit {0}

Safe-guard : (b : Bool) (e : Error) → Safe (λ u. b ≡ true) (guard b e)
Safe-guard true e = refl
Safe-guard false e = tt

Safe-ok_or : {A : Type 0} (o : Option A) (e : Error) → Safe Any (ok_or o e)
Safe-ok_or none e = tt
Safe-ok_or (some a) e = tt

-- A step that may fail but not panic, whatever it returns.
skip :
    {A B : Type 0} (R : B → Type 0) (o : Outcome A) (f : A → Outcome B)
    → Safe Any o
    → ((a : A) → Safe R (f a))
    → Safe R (o >>= f)
skip R o f h k = Safe-then Any R o f h (λ a e q. k a)

check :
    {B : Type 0} (R : B → Type 0) (b : Bool) (e : Error) (f : Unit {0} → Outcome B)
    → ((u : Unit {0}) → b ≡ true → Safe R (f u))
    → Safe R (guard b e >>= f)
check R b e f k = Safe-then (λ u. b ≡ true) R (guard b e) f (Safe-guard b e) (λ u q h. k u h)

read_u32-Safe : (bytes : Bytes) (at : ℕ) → Safe Any (read_u32 bytes at)
unfolding read_u32
read_u32-Safe bytes at =
    skip Any (ok_or (slice bytes at 4) truncated_metadata) (λ raw. ok (of_le raw))
      (Safe-ok_or _ truncated_metadata) (λ raw. tt)

sized_number-Safe :
    (bytes : Bytes) (at width : ℕ) (e : Error) → Safe Any (sized_number bytes at width e)
unfolding sized_number
sized_number-Safe bytes at width e =
    skip Any (ok_or (slice bytes at width) e) _ (Safe-ok_or _ e) (λ raw. tt)

single_uint-Safe : (bytes : Bytes) (at : ℕ) → Safe Any (single_uint bytes at)
unfolding single_uint
single_uint-Safe bytes at =
    skip Any (ok_or (get_elem? bytes at) truncated_array) _ (Safe-ok_or _ truncated_array) (λ width.
      check Any (between 13 16 width) invalid_array _ (λ u h.
        skip Any (sized_number bytes (at + 1) (width - 12) truncated_array) _
          (sized_number-Safe bytes (at + 1) (width - 12) truncated_array)
          (λ count. check Any (count == 1) not_one_digest _ (λ v k.
            skip Any (ok_or (get_elem? bytes (at + 1 + (width - 12))) truncated_array) _
              (Safe-ok_or _ truncated_array)
              (λ value_width. value (value_width == 0) value_width (at + 1 + (width - 12)))))))
  where
    value :
        (b : Bool) (value_width next : ℕ)
        → Safe Any (
            if b
            then ok 0
            else guard (between 13 16 value_width) invalid_value >>= λ known.
                sized_number bytes (next + 1) (value_width - 12) truncated_value)
    value true value_width next = tt
    value false value_width next =
        check Any (between 13 16 value_width) invalid_value _
          (λ u h. sized_number-Safe bytes (next + 1) (value_width - 12) truncated_value)

and_left : (a b : Bool) → (a && b) ≡ true → a ≡ true
and_left true b h = refl
and_left false b h = cc

and_right : (a b : Bool) → (a && b) ≡ true → b ≡ true
and_right true b h = h
and_right false b h = cc

-- Every field that is checked holds an offset within the bytes.
abbrev Inside : ℕ → ℕ → Bytes → Type 0
Inside rounds field bytes =
    (k : ℕ)
    → k < rounds
    → (offset : ℕ) → read_u32 bytes (field + k * 4) ≡ ok offset
    → offset < length bytes

check_offsets-Safe :
    (rounds field header_size : ℕ) (bytes : Bytes)
    → Safe (λ u. Inside rounds field bytes) (check_offsets rounds field header_size bytes)
unfolding check_offsets
check_offsets-Safe zero field header_size bytes = λ k h. elim h [ ]
check_offsets-Safe (suc rounds) field header_size bytes =
    Safe-then Any (λ u. Inside (suc rounds) field bytes) (read_u32 bytes field) _
      (read_u32-Safe bytes field)
      (λ offset e q.
        check (λ u. Inside (suc rounds) field bytes)
          (leb header_size offset && ltb offset (length bytes)) invalid_header_offset _
          (λ u h.
            Safe-later (check_offsets rounds (field + 4) header_size bytes)
              (check_offsets-Safe rounds (field + 4) header_size bytes)
              (both offset e (
                ltb→lt offset (length bytes)
                  (and_right (leb header_size offset) (ltb offset (length bytes)) h)))))
  where
    ok_inj : (a b : ℕ) → ◌≡◌ {A = Outcome ℕ} (ok a) (ok b) → a ≡ b
    ok_inj a b e = cc

    both :
        (offset : ℕ)
        → read_u32 bytes field ≡ ok offset
        → offset < length bytes
        → Inside rounds (field + 4) bytes
        → Inside (suc rounds) field bytes
    both offset e h rest zero k found f =
        subst (λ x. x < length bytes)
          (ok_inj offset found (sym e ∙ subst (λ at. read_u32 bytes at ≡ ok found) (omega arith) f))
          h
    both offset e h rest (suc n) k found f =
        rest n (omega arith) found (subst (λ at. read_u32 bytes at ≡ ok found) (omega arith) f)

    Safe-later :
        (o : Outcome (Unit {0}))
        → Safe (λ u. Inside rounds (field + 4) bytes) o
        → (Inside rounds (field + 4) bytes → Inside (suc rounds) field bytes)
        → Safe (λ u. Inside (suc rounds) field bytes) o
    Safe-later (ok u) x g = g x
    Safe-later (err e) x g = tt
    Safe-later panicked x g = x
    Safe-later died x g = x

at_index-Safe : (bytes : Bytes) (i : ℕ) → i < length bytes → Safe Any (at_index bytes i)
at_index-Safe [] i h = elim h [ ]
at_index-Safe (b ∷ bs) zero h = tt
at_index-Safe (b ∷ bs) (suc i) h = at_index-Safe bs i (omega arith)

range-Safe : (bytes : Bytes) (at n : ℕ) → at + n ≤ length bytes → Safe Any (range bytes at n)
unfolding range
range-Safe bytes at n h = let e : leb (at + n) (length bytes) ≡ true = ground arith in rw e tt

-- A test after a step: where it fails, another step.
branch :
    {A : Type 0} (R : A → Type 0) (b : Bool) (m n : Outcome A)
    → Safe R m
    → Safe R n
    → Safe R (if b then m else n)
branch R true m n h k = h
branch R false m n h k = k

check_header_sum-Safe : (bytes : Bytes) → 44 ≤ length bytes → Safe Any (check_header_sum bytes)
unfolding check_header_sum
check_header_sum-Safe bytes h =
    skip Any (at_index bytes 4) _ (at_index-Safe bytes 4 (omega (arith, h))) (λ version.
      branch Any (version == 3) _ _
        (skip Any (range bytes 8 32) _ (range-Safe bytes 8 32 (omega (arith, h))) (λ summed.
          skip Any (read_u32 bytes 40) _ (read_u32-Safe bytes 40)
            (λ sum. weaken (adler32 summed == sum))))
        tt)
  where
    weaken : (c : Bool) → Safe Any (guard c checksum_mismatch)
    weaken true = tt
    weaken false = tt

-- The size of what is recognized.
abbrev Sized : Bytes → Bool → Type 0
Sized bytes known = known ≡ true → (44 ≤ length bytes) × (length bytes ≤ 4096)

recognized-Safe : (bytes : Bytes) → Safe (Sized bytes) (recognized bytes)
unfolding recognized
recognized-Safe bytes = elim (Bool-cases (ltb (length bytes) 44 || ltb 4096 (length bytes))) [
  | inl outside ↦ rw outside (λ e. cc)
  | inr inside ↦
      let size : (44 ≤ length bytes) × (length bytes ≤ 4096) = ground (arith, inside) in
      rw inside (
        skip (Sized bytes) (range bytes 0 4) _ (range-Safe bytes 0 4 (omega (arith, size.0)))
          (λ start.
            branch (Sized bytes) (bytes_eq start (80 ∷ 83 ∷ 66 ∷ 0 ∷ [])) _ _
              (skip (Sized bytes) (range bytes 4 2) _ (range-Safe bytes 4 2 (omega (arith, size.0)))
                (λ version.
                  branch (Sized bytes) (of_le version == 2 || of_le version == 3) _ _
                    (skip (Sized bytes) (range bytes 6 2) _
                      (range-Safe bytes 6 2 (omega (arith, size.0))) (λ zeros e. size))
                    (λ e. cc)))
              (λ e. cc)))
]

-- Where a digest offset stands: behind the header, with its 16 bytes inside a small file.
abbrev pub DigestAt : Bytes → ℕ → Type 0
DigestAt bytes at = (44 ≤ at) × (at + 16 ≤ length bytes) × (length bytes ≤ 4096)

-- The last steps, from the offset of the stream on.
placed :
    (bytes : Bytes) (relative length_ base : ℕ)
    → length bytes ≤ 4096
    → Safe (DigestAt bytes) (
        guard (ltb (base + relative) (2 ^ 64)) invalid_digest_offset >>= λ fits.
        guard
          (leb 44 base
            && (length_ == 16)
            && ltb (base + relative + 16) (2 ^ 64)
            && leb (base + relative + 16) (length bytes))
          invalid_digest_stream
        >>= λ stream. ok (base + relative))
placed bytes relative length_ base small =
    check (DigestAt bytes) (ltb (base + relative) (2 ^ 64)) invalid_digest_offset _ (λ u h.
      check (DigestAt bytes) _ invalid_digest_stream (λ stream. ok (base + relative))
        (λ v k. (
          omega (arith, leb→le 44 base (and_left (leb 44 base) _ (and_left _ _ (and_left _ _ k)))),
          leb→le (base + relative + 16) (length bytes)
              (and_right _ (leb (base + relative + 16) (length bytes)) k),
          small,
        )))

-- On any bytes `metadata_digest_offset` returns an error, or an offset behind the 44 bytes of the header with 16 bytes
-- from there on inside the file, which has at most 4096 bytes; no index and no slice is out of range.
pub metadata_digest_offset-Safe :
    (bytes : Bytes) → Safe (DigestAt bytes) (metadata_digest_offset bytes)
unfolding metadata_digest_offset
metadata_digest_offset-Safe bytes =
    Safe-then (Sized bytes) D (recognized bytes) _ (recognized-Safe bytes) (λ is_known seen sized.
      check D is_known unknown_metadata _ (λ u known.
        skip D (at_index bytes 4) _ (at_index-Safe bytes 4 (omega (arith, (sized known).0)))
          (λ version.
            Safe-then (λ v. Inside 8 8 bytes) D
              (check_offsets 8 8 (if version == 3 then 44 else 40) bytes) _
              (check_offsets-Safe 8 8 (if version == 3 then 44 else 40) bytes)
              (λ v e inside. rooted (sized known) inside))))
  where
    D : ℕ → Type 0
    D = DigestAt bytes

    streams :
        length bytes ≤ 4096
        → Safe D (
            read_u32 bytes 24 >>= λ relative_at. single_uint bytes relative_at >>= λ relative.
            read_u32 bytes 28 >>= λ length_at. single_uint bytes length_at >>= λ length_.
            read_u32 bytes 32 >>= λ base.
            guard (ltb (base + relative) (2 ^ 64)) invalid_digest_offset >>= λ fits.
            guard
              (leb 44 base
                && (length_ == 16)
                && ltb (base + relative + 16) (2 ^ 64)
                && leb (base + relative + 16) (length bytes))
              invalid_digest_stream
            >>= λ stream. ok (base + relative))
    streams small = skip D (read_u32 bytes 24) _ (read_u32-Safe bytes 24) (λ relative_at.
        skip D (single_uint bytes relative_at) _ (single_uint-Safe bytes relative_at) (λ relative.
          skip D (read_u32 bytes 28) _ (read_u32-Safe bytes 28) (λ length_at.
            skip D (single_uint bytes length_at) _ (single_uint-Safe bytes length_at) (λ length_.
              skip D (read_u32 bytes 32) _ (read_u32-Safe bytes 32)
                (λ base. placed bytes relative length_ base small)))))

    rooted :
        (44 ≤ length bytes) × (length bytes ≤ 4096)
        → Inside 8 8 bytes
        → Safe D (
            read_u32 bytes 36 >>= λ root_at. at_index bytes root_at >>= λ root.
            guard (root == 33) root_not_object >>= λ object. check_header_sum bytes >>= λ sum.
            read_u32 bytes 24 >>= λ relative_at. single_uint bytes relative_at >>= λ relative.
            read_u32 bytes 28 >>= λ length_at. single_uint bytes length_at >>= λ length_.
            read_u32 bytes 32 >>= λ base.
            guard (ltb (base + relative) (2 ^ 64)) invalid_digest_offset >>= λ fits.
            guard
              (leb 44 base
                && (length_ == 16)
                && ltb (base + relative + 16) (2 ^ 64)
                && leb (base + relative + 16) (length bytes))
              invalid_digest_stream
            >>= λ stream. ok (base + relative))
    rooted size inside =
        Safe-then Any D (read_u32 bytes 36) _ (read_u32-Safe bytes 36) (λ root_at found q.
          skip D (at_index bytes root_at) _
            (at_index-Safe bytes root_at (inside 7 (omega arith) root_at found))
            (λ root. check D (root == 33) root_not_object _ (λ w h.
              skip D (check_header_sum bytes) _ (check_header_sum-Safe bytes size.0)
                (λ x. streams size.1))))
