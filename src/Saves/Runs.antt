-- ===== src/Saves/Runs.antt =====
-- Runs of the operations of save_format.rs on a concrete pair of save files.
use project_chronos_engine.Prelude.{
  ◌&&◌, Bool, false, ℕ, ◌+◌, ◌≡◌, refl, sym, ap, subst, ◌∙◌, Bytes, true, false, List, [], ◌∷◌,
  ◌++◌, Option, none, some, ◌⊎◌, inl, inr, length, take, leb, replicate, length-append,
  length-replicate, take-append, bytes_eq, if◌then◌else◌,
}
use project_chronos_engine.Psb.Reader.{codes}
use project_chronos_engine.Psb.Scan.{or_bytes}
use project_chronos_engine.Saves.Metadata.{
  segment_of_size, tag_of_header, metadata_digest_offset, recognized, range, check_offsets,
  read_u32, check_header_sum, single_uint, sized_number, digest_hex,
}
use project_chronos_engine.Saves.Disk.{
  FilePath, regular, Files, World, present, same, Fate, works, fails, dies, put,
}
use project_chronos_engine.Saves.Journal.{
  Library, journal_path, member_at, single_component, recover_state_pair,
}
use project_chronos_engine.Saves.Journal.Crashes.{
  Migration, IsSpread, IsTold, journal_of, Recoverable, Finished,
}
use project_chronos_engine.Saves.Journal.Sure.{Returned, calm}
use project_chronos_engine.Saves.Journal.Valid.{ValidPair}
use project_chronos_engine.Saves.Journal.Finishing.{IsPrepared}
use project_chronos_engine.Saves.Migration.{TempName, atomic_write}
use project_chronos_engine.Saves.Migration.Atomic.{atomic_write-Post}
use project_chronos_engine.Saves.Journal.Steps.{Post}
use project_chronos_engine.Saves.Journal.Foreign.{IsForeign, recover_state_pair-foreign}
use project_chronos_engine.Saves.Metadata.Bounds.{Safe, DigestAt, metadata_digest_offset-Safe}
use project_chronos_engine.Saves.Journal.Completion.{
  attempts, attempts-Recoverable, attempts-Finished,
}

-- The header of a state with the tag "US".
abbrev header : Bytes
header = 16 ∷ 0 ∷ 1 ∷ 0 ∷ 1 ∷ 0 ∷ 0 ∷ 0 ∷ replicate 72 7 ++ (85 ∷ 83 ∷ replicate 13 0)

unfoldable padded : ℕ → Bytes
padded n = header ++ replicate n 0

abbrev state : Bytes
state = padded 895_753

-- Metadata with one digest, the first 16 bytes of the state.
abbrev metadata : Bytes
metadata =
    codes "PSB"
    ++ (0
        ∷ 2
        ∷ 0
        ∷ 0
        ∷ 0
        ∷ 40
        ∷ 0
        ∷ 0
        ∷ 0
        ∷ 40
        ∷ 0
        ∷ 0
        ∷ 0
        ∷ 40
        ∷ 0
        ∷ 0
        ∷ 0
        ∷ 40
        ∷ 0
        ∷ 0
        ∷ 0
        ∷ 41
        ∷ 0
        ∷ 0
        ∷ 0
        ∷ 44
        ∷ 0
        ∷ 0
        ∷ 0
        ∷ 48
        ∷ 0
        ∷ 0
        ∷ 0
        ∷ 40
        ∷ 0
        ∷ 0
        ∷ 0
        ∷ 33
        ∷ 13
        ∷ 1
        ∷ 0
        ∷ 13
        ∷ 1
        ∷ 13
        ∷ 16
        ∷ take 16 header)

-- A migration into a slot that has metadata only.
abbrev slot : Migration
slot = record {
  data_ = member_at (codes "saves") (codes "state_0.bin");
  meta = member_at (codes "saves") (codes "state_0_meta.bin");
  staged_data = codes ".chronos-state-a1";
  staged_meta = codes ".chronos-meta-b2";
  old_data = none;
  old_meta = some (1 ∷ 2 ∷ 3 ∷ []);
  new_data = state;
  new_meta = metadata;
}

-- The first 16 bytes stand for the digest; the journal is one byte.
abbrev toy : Library
toy = record {
  md5 = take 16;
  utf8 = record { is_valid = λ b. true; has_control = λ b. false };
  to_vec = λ j. 9 ∷ [];
  from_slice = λ b. if bytes_eq b (9 ∷ []) then some (journal_of (take 16) slot) else none;
}

abbrev files : Files
files = put (journal_path slot.data_) (some (regular (9 ∷ []))) (
    put slot.meta (some (regular (1 ∷ 2 ∷ 3 ∷ []))) (
      put (member_at (codes "saves") slot.staged_data) (some (regular state)) (
        put (member_at (codes "saves") slot.staged_meta) (some (regular metadata))
          (record { nodes = λ p. none; directories = λ d. present }))))

-- Two attempts that stop early: one before the second file is moved, one at its first call.
abbrev stops : List (List Fate)
stops =
    (works ∷ works ∷ works ∷ works ∷ works ∷ works ∷ works ∷ works ∷ works ∷ works ∷ fails ∷ [])
    ∷ (dies ∷ [])
    ∷ []

slot-IsSpread : IsSpread slot
slot-IsSpread = (
  (refl, refl),
  (refl, refl),
  (refl, refl),
  (refl, refl),
  (refl, refl),
  (refl, refl),
  (refl, refl),
  (refl, refl),
  (refl, refl),
  (refl, refl),
)

slot-IsTold : IsTold (take 16) slot
unfolding digest_hex
slot-IsTold = ((λ c e h. cc), (λ c e h. different c e h))
  where
    different :
        (c : Bytes)
        → ◌≡◌ {A = Option Bytes} (some (1 ∷ 2 ∷ 3 ∷ [])) (some c)
        → bytes_eq (digest_hex (take 16 c)) (digest_hex (take 16 metadata)) ≡ true
        → c ≡ metadata
    different c e h = false≢true (
        subst
          (λ (x : Bytes). bytes_eq (digest_hex (take 16 x)) (digest_hex (take 16 metadata)) ≡ true)
          (sym unwrap) h)
      where
        unwrap : (1 ∷ 2 ∷ 3 ∷ []) ≡ c
        unwrap = cc

        false≢true : false ≡ true → c ≡ metadata
        false≢true f = cc

files-Recoverable : Recoverable toy slot files
files-Recoverable = ((9 ∷ [], refl, refl, refl, refl), inl (refl, refl), inl (refl, refl))

length-padded : (n : ℕ) → length (padded n) ≡ 95 + n
unfolding padded
length-padded n = length-append header (replicate n 0) ∙ ap (λ m. 95 + m) (length-replicate n 0)

take-padded : (n : ℕ) → take 95 (padded n) ≡ header
unfolding padded
take-padded n = take-append header (replicate n 0)

start-padded : (n : ℕ) → bytes_eq (take 16 header) (take 16 (padded n)) ≡ true
unfolding padded
start-padded n = refl

slot_pair : ValidPair toy state metadata
unfolding segment_of_size tag_of_header metadata_digest_offset recognized check_offsets read_u32
    check_header_sum range single_uint sized_number or_bytes
slot_pair = record {
  segment = 12;
  tag = codes "US";
  at = 48;
  has_segment = ap segment_of_size (length-padded 895_753);
  has_header = ap (λ n. leb 95 n) (length-padded 895_753);
  has_tag = ap (tag_of_header toy.utf8) (take-padded 895_753);
  is_small = refl;
  has_digest = refl;
  agrees = start-padded 895_753;
}

slot-IsPrepared : IsPrepared toy slot
unfolding single_component
slot-IsPrepared = record {
  together = refl;
  single_data = refl;
  single_meta = refl;
  owned_data = refl;
  owned_meta = refl;
  pair = slot_pair;
}

attempts-Recoverable_example :
    Recoverable toy slot (attempts toy slot.data_ slot.meta stops files)
    ⊎ Finished slot (attempts toy slot.data_ slot.meta stops files)
attempts-Recoverable_example =
    attempts-Recoverable toy slot slot-IsSpread slot-IsTold stops files files-Recoverable

attempts-Finished_example :
    Returned
      (λ u fs. Finished slot fs)
      (recover_state_pair toy slot.data_ slot.meta
        (calm (attempts toy slot.data_ slot.meta stops files)))
attempts-Finished_example =
    attempts-Finished toy slot slot-IsSpread slot-IsTold slot-IsPrepared stops files
      files-Recoverable

-- The metadata of the destination was replaced by another program.
abbrev foreign : World
foreign = record {
  files = put slot.meta (some (regular (5 ∷ []))) files;
  fates = works ∷ works ∷ fails ∷ [];
}

IsForeign-meta :
    IsForeign
      (take 16)
      slot.data_
      (journal_of (take 16) slot).old_data
      (journal_of (take 16) slot).new_data
      foreign.files
    ⊎ IsForeign
        (take 16)
        slot.meta
        (journal_of (take 16) slot).old_meta
        (journal_of (take 16) slot).new_meta
        foreign.files
unfolding digest_hex
IsForeign-meta = inr (some (5 ∷ []), refl, refl)

recover_state_pair-foreign_example :
    (recover_state_pair toy slot.data_ slot.meta foreign).0.files ≡ foreign.files
recover_state_pair-foreign_example =
    recover_state_pair-foreign toy slot.data_ slot.meta (journal_of (take 16) slot) (9 ∷ []) foreign
      refl refl IsForeign-meta

metadata_digest_offset-Safe_example : Safe (DigestAt metadata) (metadata_digest_offset metadata)
metadata_digest_offset-Safe_example = metadata_digest_offset-Safe metadata

-- Every temporary file is called by one zero byte.
abbrev zero_name : TempName
zero_name fs parent prefix = 0 ∷ []

named_apart :
    (p : FilePath) (parent : Bytes)
    → bytes_eq (0 ∷ []) p.name ≡ false
    → same (member_at parent (0 ∷ [])) p ≡ false
named_apart p parent h = both (bytes_eq parent p.parent) h
  where
    both : (b : Bool) → bytes_eq (0 ∷ []) p.name ≡ false → (b && bytes_eq (0 ∷ []) p.name) ≡ false
    both true k = k
    both false k = refl

atomic_write-Post_example :
    Post
      (λ u fs.
        (fs.nodes slot.meta ≡ some (regular (7 ∷ [])))
        × (fs.nodes slot.data_ ≡ foreign.files.nodes slot.data_))
      (λ fs.
        ((fs.nodes slot.meta ≡ foreign.files.nodes slot.meta)
          × (fs.nodes slot.data_ ≡ foreign.files.nodes slot.data_))
        ⊎ ((fs.nodes slot.meta ≡ some (regular (7 ∷ [])))
            × (fs.nodes slot.data_ ≡ foreign.files.nodes slot.data_)))
      (atomic_write zero_name slot.meta (7 ∷ []) foreign)
atomic_write-Post_example =
    atomic_write-Post zero_name slot.meta slot.data_ (7 ∷ []) foreign
      (λ fs parent prefix. named_apart slot.meta parent refl)
      (λ fs parent prefix. named_apart slot.data_ parent refl) refl
