-- ===== src/Saves/Journal.antt =====
-- editor/crates/m2-publish/src/save_format.rs: the validation of a pair, and `recover_state_pair`.
pub mod Steps
pub mod Digests
pub mod Members
pub mod Quiet
pub mod Install
pub mod Crashes
pub mod Recover
pub mod Attempts
pub mod Sure
pub mod Valid
pub mod Prospects
pub mod Finishing
pub mod Loading
pub mod Completion
pub mod Foreign
use project_chronos_engine.Prelude.{
  ℕ, zero, suc, ◌+◌, Bytes, Bool, true, false, not, ◌&&◌, ◌||◌, List, [], ◌∷◌, ◌++◌, Option, none,
  some, length, take, drop, ltb, leb, ◌==◌, if◌then◌else◌, bytes_eq,
}
use project_chronos_engine.Psb.Reader.{codes}
use project_chronos_engine.Saves.Metadata.{
  Utf8, Error, Outcome, ok, err, panicked, died, io, metadata_too_large, digest_mismatch,
  not_together, symlinked_directory, journal_too_large, invalid_journal, foreign_journal,
  invalid_member, unowned_stages, changed_during_migration, missing_stage, segment_of_size,
  tag_of_header, metadata_digest_offset, digest_hex,
}
use project_chronos_engine.Saves.Disk.{
  FilePath, Node, regular, special, Io, ◌>>=◌, pure, lift, fail, require, exists, is_symlink,
  read_file, regular_file, sync_directory, remove_file, rename, file_digest, optional_digest,
}

pub record StateInfo : Type 0 where
  pub region_tag : Bytes
  pub segment_type : ℕ
  pub digest : Bytes

pub record PairJournal : Type 0 where
  pub version : ℕ
  pub data_ : Bytes
  pub meta : Bytes
  pub staged_data : Bytes
  pub staged_meta : Bytes
  pub old_data : Option Bytes
  pub old_meta : Option Bytes
  pub new_data : Bytes
  pub new_meta : Bytes

-- What the code calls: the digest, the text, and the JSON of a journal.
pub record Library : Type 0 where
  pub md5 : Bytes → Bytes
  pub utf8 : Utf8
  pub to_vec : PairJournal → Bytes
  pub from_slice : Bytes → Option PairJournal

-- `journal_path`
abbrev pub journal_path : FilePath → FilePath
journal_path d = record {
  parent = d.parent;
  name = codes "." ++ (d.name ++ codes ".chronos-migration.json");
}

abbrev pub staged_prefix : Bytes
staged_prefix = codes ".chronos-state-"

abbrev pub staged_meta_prefix : Bytes
staged_meta_prefix = codes ".chronos-meta-"

abbrev pub starts_with : Bytes → Bytes → Bool
starts_with prefix s = bytes_eq (take (length prefix) s) prefix

abbrev has_slash : Bytes → Bool
has_slash [] = false
has_slash (b ∷ bs) = b == 47 || has_slash bs

-- One normal component and no separator behind it: not empty, no separator, neither `.` nor `..`.
unfoldable pub single_component : Bytes → Bool
single_component name =
    not (length name == 0)
    && not (has_slash name)
    && not (bytes_eq name (codes "."))
    && not (bytes_eq name (codes ".."))

abbrev pub hex_eq : Option Bytes → Option Bytes → Bool
hex_eq none none = true
hex_eq none (some b) = false
hex_eq (some a) none = false
hex_eq (some a) (some b) = bytes_eq a b

-- `pair_parent`
unfoldable pub pair_parent : FilePath → FilePath → Io Bytes
pair_parent d m = do
  together ← require (bytes_eq m.parent d.parent) not_together
  linked ← is_symlink d.parent
  direct ← require (not linked) symlinked_directory
  pure d.parent

abbrev pub member_at : Bytes → Bytes → FilePath
member_at parent name = record { parent = parent; name = name }

-- `journal_member`
unfoldable pub journal_member : Bytes → Bytes → Io FilePath
journal_member parent name = do
  valid ← require (single_component name) invalid_member
  pure (member_at parent name)

module _ (lib : Library) where
  unfoldable pub inspect_state : FilePath → Io (Bytes × ℕ)
  inspect_state d = do
    meta ← regular_file d
    segment ← lift (segment_of_size (length meta))
    bytes ← read_file d
    enough ← require (leb 95 (length bytes)) io
    tag ← lift (tag_of_header lib.utf8 (take 95 bytes))
    pure (tag, segment)

  unfoldable pub validate_data_digest : FilePath → FilePath → Io Bytes
  validate_data_digest d m = do
    meta ← regular_file m
    small ← require (leb (length meta) 4096) metadata_too_large
    bytes ← read_file m
    at ← lift (metadata_digest_offset bytes)
    digest ← file_digest lib.md5 d
    equal ← require (bytes_eq (take 16 (drop at bytes)) digest) digest_mismatch
    pure digest

  unfoldable pub validate_state_pair : FilePath → FilePath → Io StateInfo
  validate_state_pair d m = do
    info ← inspect_state d
    digest ← validate_data_digest d m
    pure (record { region_tag = info.0; segment_type = info.1; digest = digest })

  unfoldable pub remove_stage : FilePath → Option Bytes → Io (Unit {0})
  remove_stage staged none = pure tt
  remove_stage staged (some digest) = remove_file staged

  unfoldable pub replace : FilePath → FilePath → Option Bytes → Bytes → Io (Unit {0})
  replace target staged stage new = do
    proven ← require (hex_eq stage (some new)) missing_stage
    rename staged target

  unfoldable pub install_member : FilePath → FilePath → Option Bytes → Bytes → Io (Unit {0})
  install_member target staged old new = do
    current ← optional_digest lib.md5 target
    if hex_eq current (some new)
        then (do stage ← optional_digest lib.md5 staged; remove_stage staged stage)
        else (do
          unchanged ← require (hex_eq current old) changed_during_migration
          stage ← optional_digest lib.md5 staged
          replace target staged stage new)

  -- The journal, up to the names of its staged files.
  unfoldable pub load_journal : FilePath → FilePath → Io PairJournal
  load_journal d m = do
    meta ← regular_file (journal_path d)
    small ← require (leb (length meta) 4096) journal_too_large
    bytes ← read_file (journal_path d)
    j ← lift (elim (lib.from_slice bytes) [ none ↦ err invalid_journal | some j ↦ ok j ])
    own ←
        require ((j.version == 1) && bytes_eq j.data_ d.name && bytes_eq j.meta m.name)
          foreign_journal
    parent ← pair_parent d m
    staged_data ← journal_member parent j.staged_data
    staged_meta ← journal_member parent j.staged_meta
    owned ←
        require
          (starts_with staged_prefix j.staged_data && starts_with staged_meta_prefix j.staged_meta)
          unowned_stages
    pure j

  -- One destination of the loop that checks both.
  unfoldable pub check_target : FilePath → Option Bytes → Bytes → Io (Unit {0})
  check_target target old new = do
    current ← optional_digest lib.md5 target
    require (hex_eq current old || hex_eq current (some new)) changed_during_migration

  unfoldable pub prospective : FilePath → FilePath → Bytes → Io FilePath
  prospective target staged new = do
    current ← optional_digest lib.md5 target
    pure (if hex_eq current (some new) then target else staged)

  -- The checks of `recover_state_pair` before it moves anything.
  unfoldable pub prove_pair : FilePath → FilePath → PairJournal → Io StateInfo
  prove_pair d m j = do
    data_ok ← check_target d j.old_data j.new_data
    meta_ok ← check_target m j.old_meta j.new_meta
    d' ← prospective d (member_at d.parent j.staged_data) j.new_data
    m' ← prospective m (member_at d.parent j.staged_meta) j.new_meta
    validate_state_pair d' m'

  unfoldable pub finish_pair : FilePath → FilePath → PairJournal → Io (Unit {0})
  finish_pair d m j = do
    data_in ← install_member d (member_at d.parent j.staged_data) j.old_data j.new_data
    meta_in ← install_member m (member_at d.parent j.staged_meta) j.old_meta j.new_meta
    proven ← validate_state_pair d m
    synced ← sync_directory d.parent
    removed ← remove_file (journal_path d)
    sync_directory d.parent

  unfoldable pub recover_state_pair : FilePath → FilePath → Io (Unit {0})
  recover_state_pair d m = do
    journaled ← exists (journal_path d)
    if journaled
        then (do j ← load_journal d m; info ← prove_pair d m j; finish_pair d m j)
        else pure tt
