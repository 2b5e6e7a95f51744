-- ===== src/Saves/Migration.antt =====
-- editor/crates/m2-publish/src/save_format.rs: the staging of a new pair, and its journal.
pub mod Slots
pub mod Atomic
use project_chronos_engine.Prelude.{
  ℕ, zero, suc, ◌+◌, Bytes, Bool, true, false, not, ◌&&◌, ◌||◌, List, [], ◌∷◌, ◌++◌, Option, none,
  some, length, take, drop, replicate, ◌-◌, ◌==◌, if◌then◌else◌, bytes_eq,
}
use project_chronos_engine.Psb.Reader.{codes}
use project_chronos_engine.Saves.Metadata.{
  Outcome, ok, err, panicked, died, io, not_regular, not_a_file, symlinked_directory, unsafe_tag,
  source_changed, wrong_owner, invalid_identity, not_a_directory, incomplete_slot, other_layout,
  undeclared_tag, state_tag_offset, state_tag_bytes, valid_tag, metadata_digest_offset, digest_hex,
}
use project_chronos_engine.Saves.Disk.{
  FilePath, Node, regular, special, Files, Directory, absent, present, linked, blocked, put, World,
  Io, ◌>>=◌, pure, lift, fail, require, call, look, metadata_of, is_symlink, read_file,
  regular_file, sync_directory, remove_file, rename, write_from, write_file, create_dir_all,
  file_digest, optional_digest,
}
use project_chronos_engine.Saves.Journal.{
  StateInfo, PairJournal, Library, journal_path, staged_prefix, staged_meta_prefix, pair_parent,
  validate_state_pair, recover_state_pair,
}

-- The names that the tempfile crate gives, from the files, the directory and the prefix.
abbrev pub TempName : Type 0
TempName = Files → Bytes → Bytes → Bytes

-- A step whose error is dropped.
abbrev pub attempt : {A : Type 0} → World × Outcome A → World × Outcome (Unit {0})
attempt (w, ok a) = (w, ok tt)
attempt (w, err e) = (w, ok tt)
attempt (w, panicked) = (w, panicked)
attempt (w, died) = (w, died)

-- Dropping the temporary file where the steps that own it end early.
abbrev pub dropped : {A : Type 0} → FilePath → World × Outcome A → World × Outcome A
dropped p (w, ok a) = (w, ok a)
dropped p (w, err e) = ((remove_file p w).0, err e)
dropped p (w, panicked) = ((remove_file p w).0, panicked)
dropped p (w, died) = (w, died)

abbrev pub owning : {A : Type 0} → FilePath → Io A → Io A
owning p m w = dropped p (m w)

-- `sync_all` and `keep`.
abbrev pub flush : Io (Unit {0})
flush = look (err io) (λ fs. ok tt)

module _ (temp_name : TempName) where
  unfoldable pub create_temp : Bytes → Bytes → Io FilePath
  create_temp parent prefix = call (err io) (λ fs.
      let p : FilePath = record { parent = parent; name = temp_name fs parent prefix } in
      (put p (some (regular [])) fs, ok p))

  abbrev refuse_special : Option Node → Bool
  refuse_special none = false
  refuse_special (some (regular c)) = false
  refuse_special (some (special r)) = true

  unfoldable pub atomic_write : FilePath → Bytes → Io (Unit {0})
  atomic_write path bytes = do
    linked_parent ← is_symlink path.parent
    direct ← require (not linked_parent) symlinked_directory
    made ← create_dir_all path.parent
    refused ← look (ok false) (λ fs. ok (refuse_special (fs.nodes path)))
    replaceable ← require (not refused) not_a_file
    output ← create_temp path.parent (codes ".tmp")
    persisted ←
        owning output (do written ← write_file output bytes; flushed ← flush; rename output path)
    sync_directory path.parent

abbrev backup_path : FilePath → FilePath
backup_path p = record { parent = p.parent; name = p.name ++ codes ".pre-chronos-v2" }

-- `create_new(true)`: whether the file is new.
abbrev open_new : FilePath → Io Bool
open_new p = call (err io) (λ fs. elim (fs.nodes p) [
  | none ↦ (put p (some (regular [])) fs, ok true)
  | some n ↦ (fs, ok false)
])

unfoldable pub backup_bytes : FilePath → Bytes → Io (Unit {0})
backup_bytes path c = if length c == 0 then pure tt else (do
  new ← open_new (backup_path path)
  if new
      then owning (backup_path path)
          (do bytes ← read_file path; copied ← write_file (backup_path path) bytes; flush)
      else (do kept ← regular_file (backup_path path); pure tt))

unfoldable pub backup_original : FilePath → Io (Unit {0})
backup_original path = do
  linked_parent ← is_symlink path.parent
  direct ← require (not linked_parent) symlinked_directory
  n ← metadata_of path
  elim n [
    | none ↦ pure tt
    | some node ↦ elim node [ regular c ↦ backup_bytes path c | special r ↦ fail not_a_file ]
  ]

abbrev present_directory : Directory → Bool
present_directory absent = false
present_directory present = true
present_directory linked = true
present_directory blocked = true

unfoldable pub retain_original : FilePath → Io (Unit {0})
retain_original path = do
  kept ← backup_original path
  there ← look (ok false) (λ fs. ok (present_directory (fs.directories path.parent)))
  if there then sync_directory path.parent else pure tt

-- `copy_from_slice` over the bytes from `at` on.
abbrev pub splice : ℕ → Bytes → Bytes → Bytes
splice at new bytes = take at bytes ++ (new ++ drop (at + length new) bytes)

-- The new tag, padded with zeros to its 15 bytes.
abbrev pub padded_tag : Bytes → Bytes
padded_tag tag = tag ++ replicate (state_tag_bytes - length tag) 0

module _ (lib : Library) (temp_name : TempName) where
  unfoldable pub retag_stage : FilePath → Bytes → Bytes → Io (Unit {0})
  retag_stage stage old_tag new_tag =
      if bytes_eq old_tag new_tag
      then pure tt
      else write_from stage state_tag_offset (padded_tag new_tag)

  unfoldable pub is_installed : FilePath → Bytes → Io Bool
  is_installed journal expected w = elim ((metadata_of journal w).1) [
    | ok n ↦ elim n [
      | none ↦ ((metadata_of journal w).0, ok false)
      | some node ↦ elim node [
        | special r ↦ ((metadata_of journal w).0, ok false)
        | regular c ↦
            if length c == length expected
            then look (ok true)
                (λ fs. elim (fs.nodes journal) [
                  | none ↦ ok true
                  | some found ↦ elim found [
                    | regular b ↦ ok (bytes_eq b expected)
                    | special r ↦ ok true
                  ]
                ])
                (metadata_of journal w).0
            else ((metadata_of journal w).0, ok false)
      ]
    ]
    | err e ↦ ((metadata_of journal w).0, ok true)
    | panicked ↦ ((metadata_of journal w).0, panicked)
    | died ↦ ((metadata_of journal w).0, died)
  ]

  unfoldable pub cleanup_unpublished_stages : FilePath → Bytes → FilePath → FilePath → Io (Unit {0})
  cleanup_unpublished_stages journal expected d m = do
    installed ← is_installed journal expected
    if installed
        then pure tt
        else (do data_gone ← (λ w. attempt (remove_file d w)); (λ w. attempt (remove_file m w)))

  -- The steps that own both temporary files; they return the journal that owns them next.
  unfoldable pub stage_metadata :
      FilePath
      → FilePath
      → FilePath
      → FilePath
      → Bytes
      → Bytes
      → Option Bytes
      → Option Bytes
      → Io PairJournal
  stage_metadata dst_data dst_meta stage meta_stage metadata new_data old_data old_meta = do
    written ← write_file meta_stage metadata
    flushed ← flush
    proven ← validate_state_pair lib stage meta_stage
    data_kept ← backup_original dst_data
    meta_kept ← backup_original dst_meta
    synced ← sync_directory dst_data.parent
    new_meta ← file_digest lib.md5 meta_stage
    keep_data ← flush
    keep_meta ← flush
    pure (record {
      version = 1;
      data_ = dst_data.name;
      meta = dst_meta.name;
      staged_data = stage.name;
      staged_meta = meta_stage.name;
      old_data = old_data;
      old_meta = old_meta;
      new_data = digest_hex new_data;
      new_meta = digest_hex new_meta;
    })

  -- The steps that own the temporary file of the data.
  unfoldable pub stage_data :
      FilePath
      → FilePath
      → FilePath
      → FilePath
      → Bytes
      → StateInfo
      → FilePath
      → Option Bytes
      → Option Bytes
      → Io PairJournal
  stage_data src_data src_meta dst_data dst_meta new_tag info stage old_data old_meta = do
    input ← read_file src_data
    copied ← write_file stage input
    copy_digest ← file_digest lib.md5 stage
    unchanged ← require (bytes_eq copy_digest info.digest) source_changed
    tagged ← retag_stage stage info.region_tag new_tag
    flushed ← flush
    new_data ← file_digest lib.md5 stage
    metadata ← read_file src_meta
    at ← lift (metadata_digest_offset metadata)
    same_digest ← require (bytes_eq (take 16 (drop at metadata)) info.digest) source_changed
    meta_stage ← create_temp temp_name dst_data.parent staged_meta_prefix
    owning meta_stage (
        stage_metadata dst_data dst_meta stage meta_stage (splice at new_data metadata) new_data
          old_data old_meta)

  -- The journal is written; where that fails, stages that no journal owns are removed.
  unfoldable pub publish_journal : FilePath → PairJournal → Io (Unit {0})
  publish_journal dst_data j w =
      elim ((atomic_write temp_name (journal_path dst_data) (lib.to_vec j) w).1) [
        | ok u ↦ atomic_write temp_name (journal_path dst_data) (lib.to_vec j) w
        | err e ↦ (
          (cleanup_unpublished_stages (journal_path dst_data) (lib.to_vec j)
              (record { parent = dst_data.parent; name = j.staged_data })
              (record { parent = dst_data.parent; name = j.staged_meta })
              (atomic_write temp_name (journal_path dst_data) (lib.to_vec j) w).0).0,
          err e,
        )
        | panicked ↦ atomic_write temp_name (journal_path dst_data) (lib.to_vec j) w
        | died ↦ atomic_write temp_name (journal_path dst_data) (lib.to_vec j) w
      ]

  unfoldable pub prepare_pair : FilePath → FilePath → FilePath → FilePath → Bytes → Io (Unit {0})
  prepare_pair src_data src_meta dst_data dst_meta new_tag = do
    info ← validate_state_pair lib src_data src_meta
    safe ← require (bytes_eq info.region_tag new_tag || valid_tag new_tag) unsafe_tag
    parent ← pair_parent dst_data dst_meta
    made ← create_dir_all parent
    old_data ← optional_digest lib.md5 dst_data
    old_meta ← optional_digest lib.md5 dst_meta
    stage ← create_temp temp_name parent staged_prefix
    j ←
        owning stage
          (stage_data src_data src_meta dst_data dst_meta new_tag info stage old_data old_meta)
    publish_journal dst_data j
