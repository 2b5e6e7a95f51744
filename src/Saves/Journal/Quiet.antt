-- ===== src/Saves/Journal/Quiet.antt =====
-- The steps of save_format.rs that only look at the files.
use project_chronos_engine.Prelude.{refl, Bytes, Bool, false, ◌&&◌, Option, ◌==◌, bytes_eq}
use project_chronos_engine.Saves.Metadata.{
  Error, Outcome, ok, err, io, foreign_journal, unowned_stages,
}
use project_chronos_engine.Saves.Disk.{
  FilePath, Files, Io, ◌>>=◌, pure, lift, require, is_some, exists, look, sync_directory,
  regular_file, file_digest, optional_digest,
}
use project_chronos_engine.Saves.Journal.{
  PairJournal, Library, starts_with, staged_prefix, staged_meta_prefix, pair_parent, journal_member,
  inspect_state, validate_data_digest, validate_state_pair, load_journal, check_target, prospective,
  prove_pair,
}
use project_chronos_engine.Saves.Journal.Steps.{IsQuiet, >>=-IsQuiet, look-IsQuiet, require-IsQuiet}
use project_chronos_engine.Saves.Journal.Digests.{file_digest-IsQuiet, optional_digest-IsQuiet}

-- Steps that leave the files alone, as a type of its own for the search by rules.
pub record Still {A : Type 0} (m : Io A) : Type 0 where
  pub quiet : IsQuiet m

Still-then :
    {A B : Type 0} (m : Io A) (f : A → Io B) → Still m → ((a : A) → Still (f a)) → Still (m >>= f)
Still-then m f h k = record { quiet = >>=-IsQuiet m f h.quiet (λ a. (k a).quiet) }

pure-Still : {A : Type 0} (a : A) → Still (pure a)
pure-Still a = record { quiet = λ w. refl }

lift-Still : {A : Type 0} (o : Outcome A) → Still (lift o)
lift-Still o = record { quiet = λ w. refl }

pub require-Still : (b : Bool) (e : Error) → Still (require b e)
require-Still b e = record { quiet = require-IsQuiet b e }

pub look-Still : {A : Type 0} (failed : Outcome A) (f : Files → Outcome A) → Still (look failed f)
look-Still failed f = record { quiet = look-IsQuiet failed f }

pub regular_file-Still : (p : FilePath) → Still (regular_file p)
unfolding regular_file
regular_file-Still p = search (Still-then, look-Still, lift-Still)

file_digest-Still : (md5 : Bytes → Bytes) (p : FilePath) → Still (file_digest md5 p)
file_digest-Still md5 p = record { quiet = file_digest-IsQuiet md5 p }

optional_digest-Still : (md5 : Bytes → Bytes) (p : FilePath) → Still (optional_digest md5 p)
optional_digest-Still md5 p = record { quiet = optional_digest-IsQuiet md5 p }

ruleset quiet_laws = (
  Still-then, pure-Still, lift-Still, require-Still, look-Still, regular_file-Still,
  file_digest-Still, optional_digest-Still,
)

pub exists-Still : (p : FilePath) → Still (exists p)
exists-Still p = look-Still (ok false) (λ fs. ok (is_some (fs.nodes p)))

pub sync_directory-Still : (parent : Bytes) → Still (sync_directory parent)
sync_directory-Still parent = look-Still (err io) (λ fs. ok tt)

pub pair_parent-Still : (d m : FilePath) → Still (pair_parent d m)
unfolding pair_parent
pair_parent-Still d m = search (quiet_laws) depth 12

pub journal_member-Still : (parent name : Bytes) → Still (journal_member parent name)
unfolding journal_member
journal_member-Still parent name = search (quiet_laws) depth 12

module _ (lib : Library) where
  inspect_state-Still : (d : FilePath) → Still (inspect_state lib d)
  unfolding inspect_state
  inspect_state-Still d = search (quiet_laws) depth 12

  validate_data_digest-Still : (d m : FilePath) → Still (validate_data_digest lib d m)
  unfolding validate_data_digest
  validate_data_digest-Still d m = search (quiet_laws) depth 12

  pub validate_state_pair-Still : (d m : FilePath) → Still (validate_state_pair lib d m)
  unfolding validate_state_pair
  validate_state_pair-Still d m =
      search (quiet_laws, inspect_state-Still, validate_data_digest-Still) depth 12

  pub check_target-Still :
      (target : FilePath) (old : Option Bytes) (new : Bytes)
      → Still (check_target lib target old new)
  unfolding check_target
  check_target-Still target old new = search (quiet_laws) depth 12

  prospective-Still :
      (target staged : FilePath) (new : Bytes) → Still (prospective lib target staged new)
  unfolding prospective
  prospective-Still target staged new = search (quiet_laws) depth 12

  pub prove_pair-Still : (d m : FilePath) (j : PairJournal) → Still (prove_pair lib d m j)
  unfolding prove_pair
  prove_pair-Still d m j =
      search (quiet_laws, check_target-Still, prospective-Still, validate_state_pair-Still) depth 12

  abbrev pub accepted : FilePath → FilePath → PairJournal → Io PairJournal
  accepted d m j = do
    own ←
        require ((j.version == 1) && bytes_eq j.data_ d.name && bytes_eq j.meta m.name)
          foreign_journal
    parent ← pair_parent d m
    staged_data ← journal_member parent j.staged_data
    staged_meta ← journal_member parent j.staged_meta
    owned ←
        require
          (starts_with staged_prefix j.staged_data && starts_with staged_meta_prefix j.staged_meta)
          unowned_stages
    pure j

  accepted-Still : (d m : FilePath) (j : PairJournal) → Still (accepted d m j)
  accepted-Still d m j = search (quiet_laws, pair_parent-Still, journal_member-Still) depth 12

  pub load_journal-Still : (d m : FilePath) → Still (load_journal lib d m)
  unfolding load_journal
  load_journal-Still d m = search (quiet_laws, accepted-Still) depth 12
