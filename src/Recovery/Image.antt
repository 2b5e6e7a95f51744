-- ===== src/Recovery/Image.antt =====
-- recovery/crates/pce-recovery/src/image.rs: the choice of an image in a file. What the ZIP library says is an argument.
pub mod Copies
pub mod Chunks
pub mod Sizes
pub mod Reports
pub mod Agreement
use project_chronos_engine.Prelude.{
  ℕ, zero, suc, ◌+◌, ◌-◌, ◌*◌, ◌^◌, min, Bytes, Bool, true, false, not, ◌&&◌, ◌||◌, List, [], ◌∷◌,
  ◌++◌, Option, none, some, length, take, ltb, ◌==◌, if◌then◌else◌, bytes_eq,
}
use project_chronos_engine.Psb.Reader.{codes}
use project_chronos_engine.Mzs.Archive.{to_ascii_lowercase}

pub record ImageEntry : Type 0 where
  pub zip_index : Option ℕ
  pub name : Bytes
  pub size : ℕ
  pub crc32 : Option ℕ

-- `Ambiguous` keeps the entries that its message lists.
pub data ImageError : Type 0 where
  io zip : ImageError
  size_mismatch : ℕ → ℕ → ImageError
  no_matching_image : ℕ → ImageError
  ambiguous : List ImageEntry → ImageError
  selection_changed too_large empty : ImageError

-- `stuck` is a loop that goes on beyond its fuel.
pub data Outcome {ℓ} (A : Type ℓ) : Type ℓ where
  ok : A → Outcome A
  err : ImageError → Outcome A
  stuck : Outcome A

infixl 5 ◌>>=◌
abbrev pub ◌>>=◌ {ℓ κ} : {A : Type ℓ} {B : Type κ} → Outcome A → (A → Outcome B) → Outcome B
ok a >>= f = f a
err e >>= f = err e
stuck >>= f = stuck

abbrev pub ok_or {ℓ} : {A : Type ℓ} → Option A → ImageError → Outcome A
ok_or none e = err e
ok_or (some a) e = ok a

-- What `by_index_raw` tells of a member.
pub record ZipMember : Type 0 where
  pub is_file : Bool
  pub has_enclosed_name : Bool
  pub name : Bytes
  pub size : ℕ
  pub crc32 : ℕ

-- A local file: the bytes that the first read gives, what `ZipArchive::new` makes of it, and its metadata; `none` is
-- a failure.
pub record LocalFile : Type 0 where
  pub extension : Option Bytes
  pub file_name : Bytes
  pub signature : Option Bytes
  pub archive : Option (List (Option ZipMember))
  pub length_ : Option ℕ

pub data Source : Type 0 where
  raw : ImageEntry → Source
  zipped : List (Option ZipMember) → Source

abbrev zip_extension : Option Bytes → Bool
zip_extension none = false
zip_extension (some e) = bytes_eq (to_ascii_lowercase e) (codes "zip")

unfoldable pub zip_signature : Bytes → Bool
zip_signature s =
    bytes_eq s (80 ∷ 75 ∷ 3 ∷ 4 ∷ [])
    || bytes_eq s (80 ∷ 75 ∷ 5 ∷ 6 ∷ [])
    || bytes_eq s (80 ∷ 75 ∷ 7 ∷ 8 ∷ [])

unfoldable pub open_source : LocalFile → Outcome Source
open_source file = do
  signature ← ok_or file.signature io
  if zip_extension file.extension || zip_signature signature
      then (do members ← ok_or file.archive zip; ok (zipped members))
      else (do
        size ← ok_or file.length_ io
        ok (raw (record { zip_index = none; name = file.file_name; size = size; crc32 = none })))

unfoldable pub check_size : ℕ → ℕ → Bool → Outcome (Unit {0})
check_size actual expected allow_mismatch =
    if actual == 0
    then err empty
    else if not (actual == expected) && not allow_mismatch
    then err (size_mismatch actual expected)
    else ok tt

abbrev starts_with : Bytes → Bytes → Bool
starts_with prefix s = bytes_eq (take (length prefix) s) prefix

-- A part of a name that hides its member.
abbrev hidden_part : Bytes → Bool
hidden_part part = bytes_eq part (codes "__MACOSX") || starts_with (codes "._") part

-- `name.split('/').any(…)`; `part` is the part so far.
unfoldable pub any_hidden_part : Bytes → Bytes → Bool
any_hidden_part part [] = hidden_part part
any_hidden_part part (b ∷ bs) =
    if b == 47
    then hidden_part part || any_hidden_part [] bs
    else any_hidden_part (part ++ (b ∷ [])) bs

unfoldable pub skipped : ZipMember → Bool
skipped m = not m.is_file || not m.has_enclosed_name || any_hidden_part [] m.name || m.size == 0

abbrev pub entry_of : ℕ → ZipMember → ImageEntry
entry_of index m = record {
  zip_index = some index;
  name = m.name;
  size = m.size;
  crc32 = some m.crc32;
}

-- The loop over the members of an archive, from `index` on.
unfoldable pub zip_entries : ℕ → List (Option ZipMember) → ℕ → Bool → Outcome (List ImageEntry)
zip_entries index [] expected allow_mismatch = ok []
zip_entries index (member ∷ members) expected allow_mismatch = do
  m ← ok_or member zip
  entries ← zip_entries (index + 1) members expected allow_mismatch
  ok (
      if skipped m
      then entries
      else if allow_mismatch || m.size == expected
      then entry_of index m ∷ entries
      else entries)

unfoldable pub candidates : Source → ℕ → Bool → Outcome (List ImageEntry)
candidates (raw entry) expected allow_mismatch = do
  checked ← check_size entry.size expected allow_mismatch
  ok (entry ∷ [])
candidates (zipped members) expected allow_mismatch = do
  entries ← zip_entries 0 members expected allow_mismatch
  elim entries [ [] ↦ err (no_matching_image expected) | e ∷ es ↦ ok (e ∷ es) ]

unfoldable pub inspect_image : LocalFile → ℕ → Bool → Outcome (List ImageEntry)
inspect_image file expected allow_mismatch = do
  source ← open_source file
  candidates source expected allow_mismatch

abbrev option_eq : Option ℕ → Option ℕ → Bool
option_eq none none = true
option_eq none (some b) = false
option_eq (some a) none = false
option_eq (some a) (some b) = a == b

-- The derived `PartialEq`.
unfoldable pub entry_eq : ImageEntry → ImageEntry → Bool
entry_eq a b =
    option_eq a.zip_index b.zip_index
    && bytes_eq a.name b.name
    && a.size == b.size
    && option_eq a.crc32 b.crc32

unfoldable pub find_entry : List ImageEntry → ImageEntry → Option ImageEntry
find_entry [] entry = none
find_entry (e ∷ es) entry = if entry_eq e entry then some e else find_entry es entry

unfoldable pub select_entry : List ImageEntry → Option ImageEntry → Outcome ImageEntry
select_entry es (some entry) = ok_or (find_entry es entry) selection_changed
select_entry [] none = err (ambiguous [])
select_entry (e ∷ []) none = ok e
select_entry (e ∷ f ∷ es) none = err (ambiguous (e ∷ f ∷ es))
