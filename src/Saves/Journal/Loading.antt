-- ===== src/Saves/Journal/Loading.antt =====
-- `load_journal` of save_format.rs, when every call works.
use project_chronos_engine.Prelude.{
  ◌≡◌, refl, ap, ◌∙◌, Bytes, Bool, true, false, not, ◌&&◌, some, bytes_eq, bytes_eq_refl, length,
  leb,
}
use project_chronos_engine.Saves.Metadata.{
  ok, not_together, symlinked_directory, journal_too_large, foreign_journal, invalid_member,
  unowned_stages,
}
use project_chronos_engine.Saves.Disk.{
  FilePath, regular, Files, pure, lift, require, is_link, is_symlink, read_file, regular_file,
}
use project_chronos_engine.Saves.Journal.{
  PairJournal, Library, journal_path, starts_with, staged_prefix, staged_meta_prefix,
  single_component, pair_parent, member_at, journal_member, load_journal,
}
use project_chronos_engine.Saves.Journal.Crashes.{
  Migration, data_member, meta_member, journal_of, Journaled,
}
use project_chronos_engine.Saves.Journal.Quiet.{accepted}
use project_chronos_engine.Saves.Journal.Attempts.{parsed}
use project_chronos_engine.Saves.Journal.Sure.{
  Gives, Gives-step, Gives-look, Gives-lift, Gives-pure, Gives-require, Gives-regular_file,
  Gives-read_file,
}
use project_chronos_engine.Saves.Journal.Finishing.{IsPrepared}

and_true : (a b : Bool) → a ≡ true → b ≡ true → (a && b) ≡ true
and_true true b h k = k
and_true false b h k = h

Gives-journal_member :
    (P : Files → Type 0) (parent name : Bytes)
    → single_component name ≡ true
    → Gives P (journal_member parent name) (member_at parent name)
unfolding journal_member
Gives-journal_member P parent name h =
    Gives-step P (member_at parent name) (require (single_component name) invalid_member) _ tt
      (Gives-require P (single_component name) invalid_member h)
      (Gives-pure P (member_at parent name))

Gives-pair_parent :
    (P : Files → Type 0) (d m : FilePath)
    → bytes_eq m.parent d.parent ≡ true
    → ((fs : Files) → P fs → is_link (fs.directories d.parent) ≡ false)
    → Gives P (pair_parent d m) d.parent
unfolding pair_parent
Gives-pair_parent P d m h k =
    Gives-step P d.parent (require (bytes_eq m.parent d.parent) not_together) _ tt
      (Gives-require P (bytes_eq m.parent d.parent) not_together h)
      (Gives-step P d.parent (is_symlink d.parent) _ false
        (Gives-look P (ok false) (λ fs. ok (is_link (fs.directories d.parent))) false
          (λ fs x. ap ok (k fs x)))
        (Gives-step P d.parent (require (not false) symlinked_directory) (λ u. pure d.parent) tt
          (Gives-require P (not false) symlinked_directory refl) (Gives-pure P d.parent)))

module _ (lib : Library) (t : Migration) (valid : IsPrepared lib t) where
  abbrev J : PairJournal
  J = journal_of lib.md5 t

  Gives-accepted :
      (P : Files → Type 0)
      → ((fs : Files) → P fs → is_link (fs.directories t.data_.parent) ≡ false)
      → Gives P (accepted lib t.data_ t.meta J) J
  Gives-accepted P k =
      Gives-step P J
        (require (bytes_eq t.data_.name t.data_.name && bytes_eq t.meta.name t.meta.name)
          foreign_journal)
        _ tt
        (Gives-require P (bytes_eq t.data_.name t.data_.name && bytes_eq t.meta.name t.meta.name)
          foreign_journal
          (and_true (bytes_eq t.data_.name t.data_.name) (bytes_eq t.meta.name t.meta.name)
            (bytes_eq_refl t.data_.name) (bytes_eq_refl t.meta.name)))
        (Gives-step P J (pair_parent t.data_ t.meta) _ t.data_.parent
          (Gives-pair_parent P t.data_ t.meta valid.together k)
          (Gives-step P J (journal_member t.data_.parent t.staged_data) _ (data_member t).staged
            (Gives-journal_member P t.data_.parent t.staged_data valid.single_data)
            (Gives-step P J (journal_member t.data_.parent t.staged_meta) _ (meta_member t).staged
              (Gives-journal_member P t.data_.parent t.staged_meta valid.single_meta)
              (Gives-step P J
                (require
                  (starts_with staged_prefix t.staged_data
                    && starts_with staged_meta_prefix t.staged_meta)
                  unowned_stages)
                _ tt
                (Gives-require P
                  (starts_with staged_prefix t.staged_data
                    && starts_with staged_meta_prefix t.staged_meta)
                  unowned_stages
                  (and_true (starts_with staged_prefix t.staged_data)
                    (starts_with staged_meta_prefix t.staged_meta) valid.owned_data
                    valid.owned_meta))
                (Gives-pure P J)))))

  pub Gives-load_journal :
      (fs : Files) → Journaled lib t fs → Gives (λ x. x ≡ fs) (load_journal lib t.data_ t.meta) J
  unfolding load_journal
  Gives-load_journal fs (c, here, reads, small, direct) =
      Gives-step P J (regular_file (journal_path t.data_)) _ c
        (Gives-regular_file (journal_path t.data_) c P stands)
        (Gives-step P J (require (leb (length c) 4096) journal_too_large) _ tt
          (Gives-require P (leb (length c) 4096) journal_too_large small)
          (Gives-step P J (read_file (journal_path t.data_)) _ c
            (Gives-read_file (journal_path t.data_) c P stands)
            (Gives-step P J (lift (parsed lib t.data_ t.meta (lib.from_slice c))) _ J
              (Gives-lift P (parsed lib t.data_ t.meta (lib.from_slice c)) J
                (ap (parsed lib t.data_ t.meta) reads))
              (Gives-accepted P
                (λ x e. ap (λ (y : Files). is_link (y.directories t.data_.parent)) e ∙ direct)))))
    where
      P : Files → Type 0
      P x = x ≡ fs

      stands : (x : Files) → x ≡ fs → x.nodes (journal_path t.data_) ≡ some (regular c)
      stands x e = ap (λ (y : Files). y.nodes (journal_path t.data_)) e ∙ here
