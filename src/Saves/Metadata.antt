-- ===== src/Saves/Metadata.antt =====
-- editor/crates/m2-publish/src/save_format.rs: the checks of the bytes of a save and of its metadata.
pub mod Bounds
use Prim.Native.Nat.{bit_or}
use project_chronos_engine.Prelude.{
  ℕ, zero, suc, ◌+◌, ◌-◌, ◌*◌, ◌/◌, ◌%◌, ◌^◌, Bytes, Bool, true, false, not, ◌&&◌, ◌||◌, List, [],
  ◌∷◌, ◌++◌, Option, none, some, length, take, drop, get_elem?, get_or, ltb, leb, ◌==◌,
  if◌then◌else◌, bytes_eq, of_le,
}
use project_chronos_engine.Prelude.At.{slice}
use project_chronos_engine.Psb.Emit.{adler32}
use project_chronos_engine.Psb.Scan.{or_bytes}

-- One constructor for each message.
pub data Error : Type 0 where
  io : Error
  not_regular unknown_size unknown_header unterminated_tag invalid_tag : Error
  truncated_metadata truncated_array invalid_array not_one_digest invalid_value truncated_value :
      Error
  unknown_metadata invalid_header_offset root_not_object checksum_mismatch : Error
  invalid_digest_offset invalid_digest_stream : Error
  metadata_too_large digest_mismatch : Error
  not_together symlinked_directory not_a_file : Error
  journal_too_large invalid_journal foreign_journal invalid_member unowned_stages : Error
  changed_during_migration missing_stage unsafe_tag source_changed : Error
  wrong_owner invalid_identity not_a_directory incomplete_slot other_layout undeclared_tag : Error

-- `died` is the end of the process before its next step, `panicked` a panic.
pub data Outcome {ℓ} (A : Type ℓ) : Type ℓ where
  ok : A → Outcome A
  err : Error → Outcome A
  panicked : Outcome A
  died : Outcome A

infixl 5 ◌>>=◌
abbrev pub ◌>>=◌ {ℓ κ} : {A : Type ℓ} {B : Type κ} → Outcome A → (A → Outcome B) → Outcome B
ok a >>= f = f a
err e >>= f = err e
panicked >>= f = panicked
died >>= f = died

abbrev pub ok_or {ℓ} : {A : Type ℓ} → Option A → Error → Outcome A
ok_or none e = err e
ok_or (some a) e = ok a

-- `bytes[i]`
abbrev pub at_index : Bytes → ℕ → Outcome ℕ
at_index bytes i = elim (get_elem? bytes i) [ none ↦ panicked | some b ↦ ok b ]

-- `bytes[at..at + n]`
unfoldable pub range : Bytes → ℕ → ℕ → Outcome Bytes
range bytes at n = if leb (at + n) (length bytes) then ok (take n (drop at bytes)) else panicked

abbrev pub guard : Bool → Error → Outcome (Unit {0})
guard true e = ok tt
guard false e = err e

abbrev pub state_tag_offset : ℕ
state_tag_offset = 0x50

abbrev pub state_tag_bytes : ℕ
state_tag_bytes = 15

abbrev pub hucard_state_size : ℕ
hucard_state_size = 895_848

abbrev pub cd_state_size : ℕ
cd_state_size = 2_206_568

abbrev hex_digit : ℕ → ℕ
hex_digit d = if ltb d 10 then 48 + d else 87 + d

-- `format!("{byte:02x}")` for each byte.
unfoldable pub digest_hex : Bytes → Bytes
digest_hex [] = []
digest_hex (b ∷ bs) = hex_digit (b / 16) ∷ hex_digit (b % 16) ∷ digest_hex bs

abbrev between : ℕ → ℕ → ℕ → Bool
between lo hi b = leb lo b && leb b hi

-- `is_ascii_alphanumeric`, `_` or `-`.
abbrev pub safe_byte : ℕ → Bool
safe_byte b = between 48 57 b || between 65 90 b || between 97 122 b || b == 95 || b == 45

abbrev pub all_bytes : (ℕ → Bool) → Bytes → Bool
all_bytes p [] = true
all_bytes p (b ∷ bs) = p b && all_bytes p bs

unfoldable pub valid_tag : Bytes → Bool
valid_tag tag = not (length tag == 0) && ltb (length tag) state_tag_bytes && all_bytes safe_byte tag

-- `str::from_utf8` is `ok`, and `char::is_control` of some character of a valid text.
pub record Utf8 : Type 0 where
  pub is_valid : Bytes → Bool
  pub has_control : Bytes → Bool

-- `position(|byte| *byte == 0)`
abbrev pub position_of_nul : Bytes → Option ℕ
position_of_nul [] = none
position_of_nul (b ∷ bs) =
    if b == 0 then some 0 else elim (position_of_nul bs) [ none ↦ none | some i ↦ some (i + 1) ]

-- `inspect_state` from the size of the file on.
unfoldable pub segment_of_size : ℕ → Outcome ℕ
segment_of_size size =
    if size == hucard_state_size
    then ok 12
    else if size == cd_state_size
    then ok 11
    else err unknown_size

-- `inspect_state` on the 95 bytes of the header.
unfoldable pub tag_of_header : Utf8 → Bytes → Outcome Bytes
tag_of_header utf8 header = do
  known ←
      guard (of_le (take 4 header) == 0x0001_0010 && not (of_le (take 4 (drop 4 header)) == 0))
        unknown_header
  let bytes = drop state_tag_offset header
  end ← ok_or (position_of_nul bytes) unterminated_tag
  let tag = take end bytes
  text ← guard (utf8.is_valid tag) invalid_tag
  clean ←
      guard
        (not (length tag == 0)
          && not (utf8.has_control tag)
          && all_bytes (λ b. b == 0) (drop end bytes))
        invalid_tag
  ok tag

unfoldable pub read_u32 : Bytes → ℕ → Outcome ℕ
unfolding slice
read_u32 bytes at = do raw ← ok_or (slice bytes at 4) truncated_metadata; ok (of_le raw)

-- A width byte at `at`, and the number of that width behind it.
unfoldable pub sized_number : Bytes → ℕ → ℕ → Error → Outcome ℕ
unfolding slice
sized_number bytes at width e = do raw ← ok_or (slice bytes at width) e; ok (or_bytes 0 0 raw)

unfoldable pub single_uint : Bytes → ℕ → Outcome ℕ
single_uint bytes at = do
  width ← ok_or (get_elem? bytes at) truncated_array
  valid ← guard (between 13 16 width) invalid_array
  count ← sized_number bytes (at + 1) (width - 12) truncated_array
  one ← guard (count == 1) not_one_digest
  let next = at + 1 + (width - 12)
  value_width ← ok_or (get_elem? bytes next) truncated_array
  if value_width == 0 then ok 0 else (do
    known ← guard (between 13 16 value_width) invalid_value
    sized_number bytes (next + 1) (value_width - 12) truncated_value)

-- `for field in (8..40).step_by(4)`; `rounds` are left.
unfoldable pub check_offsets : ℕ → ℕ → ℕ → Bytes → Outcome (Unit {0})
check_offsets zero field header_size bytes = ok tt
check_offsets (suc rounds) field header_size bytes = do
  offset ← read_u32 bytes field
  inside ← guard (leb header_size offset && ltb offset (length bytes)) invalid_header_offset
  check_offsets rounds (field + 4) header_size bytes

-- The loop over `bytes[8..40]` is that of the writer's `adler32`.
unfoldable pub check_header_sum : Bytes → Outcome (Unit {0})
check_header_sum bytes = do
  version ← at_index bytes 4
  if version == 3
      then (do
        summed ← range bytes 8 32
        sum ← read_u32 bytes 40
        guard (adler32 summed == sum) checksum_mismatch)
      else ok tt

-- The condition of the first error, negated: its parts from left to right, each read only where those before it let it
-- be.
unfoldable pub recognized : Bytes → Outcome Bool
recognized bytes = if ltb (length bytes) 44 || ltb 4096 (length bytes) then ok false else (do
  start ← range bytes 0 4
  if bytes_eq start (80 ∷ 83 ∷ 66 ∷ 0 ∷ [])
      then (do
        version ← range bytes 4 2
        if of_le version == 2 || of_le version == 3
            then (do zeros ← range bytes 6 2; ok (bytes_eq zeros (0 ∷ 0 ∷ [])))
            else ok false)
      else ok false)

unfoldable pub metadata_digest_offset : Bytes → Outcome ℕ
metadata_digest_offset bytes = do
  is_known ← recognized bytes
  known ← guard is_known unknown_metadata
  version ← at_index bytes 4
  offsets ← check_offsets 8 8 (if version == 3 then 44 else 40) bytes
  root_at ← read_u32 bytes 36
  root ← at_index bytes root_at
  object ← guard (root == 33) root_not_object
  sum ← check_header_sum bytes
  relative_at ← read_u32 bytes 24
  relative ← single_uint bytes relative_at
  length_at ← read_u32 bytes 28
  length_ ← single_uint bytes length_at
  base ← read_u32 bytes 32
  let at = base + relative
  fits ← guard (ltb at (2 ^ 64)) invalid_digest_offset
  stream ←
      guard
        (leb 44 base && (length_ == 16) && ltb (at + 16) (2 ^ 64) && leb (at + 16) (length bytes))
        invalid_digest_stream
  ok at
