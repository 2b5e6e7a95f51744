-- ===== src/Saves/Journal/Recover.antt =====
-- `recover_state_pair` of save_format.rs, interrupted anywhere.
use project_chronos_engine.Prelude.{sym, subst, none, ◌⊎◌, inl, inr}
use project_chronos_engine.Saves.Metadata.{Outcome, err, io}
use project_chronos_engine.Saves.Disk.{
  regular, Files, Io, ◌>>=◌, remove_at, remove_file, sync_directory,
}
use project_chronos_engine.Saves.Journal.{
  PairJournal, Library, journal_path, install_member, validate_state_pair, finish_pair,
}
use project_chronos_engine.Saves.Journal.Steps.{
  IsQuiet, Says, Triple, Triple-then, Triple-call, Triple-quiet, Triple-pre, Triple-weaken,
}
use project_chronos_engine.Saves.Journal.Members.{Done, OnTheWay, put-here, remove_at-some}
use project_chronos_engine.Saves.Journal.Install.{Triple-install_member}
use project_chronos_engine.Saves.Journal.Quiet.{sync_directory-Still, validate_state_pair-Still}
use project_chronos_engine.Saves.Journal.Crashes.{
  Migration, data_member, meta_member, IsSpread, IsTold, journal_of, Journaled, Recoverable,
  Finished, Done-put, data_IsSound, meta_IsSound, data_IsFrame, meta_IsFrame,
}

module _ (lib : Library) (t : Migration) (s : IsSpread t) (told : IsTold lib.md5 t) where
  abbrev R : Files → Type 0
  R = Recoverable lib t

  abbrev AfterData : Files → Type 0
  AfterData fs = Journaled lib t fs × Done (data_member t) fs × OnTheWay (meta_member t) fs

  abbrev AfterBoth : Files → Type 0
  AfterBoth fs = Journaled lib t fs × Done (data_member t) fs × Done (meta_member t) fs

  abbrev J : PairJournal
  J = journal_of lib.md5 t

  installed_data :
      Triple R
        (install_member lib t.data_ (data_member t).staged J.old_data J.new_data)
        (λ u fs. AfterData fs)
        R
  installed_data =
      Triple-pre R
        (λ fs. OnTheWay (data_member t) fs × (Journaled lib t fs × OnTheWay (meta_member t) fs))
        (λ u fs. AfterData fs) R
        (install_member lib t.data_ (data_member t).staged J.old_data J.new_data)
        (λ fs r. (r.1, (r.0, r.2)))
        (Triple-weaken
          (λ fs. OnTheWay (data_member t) fs × (Journaled lib t fs × OnTheWay (meta_member t) fs))
          (λ u fs. Done (data_member t) fs × (Journaled lib t fs × OnTheWay (meta_member t) fs))
          (λ u fs. AfterData fs)
          (λ fs. OnTheWay (data_member t) fs × (Journaled lib t fs × OnTheWay (meta_member t) fs)) R
          (install_member lib t.data_ (data_member t).staged J.old_data J.new_data)
          (Triple-install_member lib (data_member t)
            (λ fs. Journaled lib t fs × OnTheWay (meta_member t) fs) (data_IsSound lib t s told)
            (data_IsFrame lib t s told))
          (λ u fs q. (q.1.0, q.0, q.1.1)) (λ fs q. (q.1.0, q.0, q.1.1)))

  installed_meta :
      Triple AfterData
        (install_member lib t.meta (meta_member t).staged J.old_meta J.new_meta)
        (λ u fs. AfterBoth fs)
        R
  installed_meta =
      Triple-pre AfterData
        (λ fs. OnTheWay (meta_member t) fs × (Journaled lib t fs × Done (data_member t) fs))
        (λ u fs. AfterBoth fs) R
        (install_member lib t.meta (meta_member t).staged J.old_meta J.new_meta)
        (λ fs r. (r.2, (r.0, r.1)))
        (Triple-weaken
          (λ fs. OnTheWay (meta_member t) fs × (Journaled lib t fs × Done (data_member t) fs))
          (λ u fs. Done (meta_member t) fs × (Journaled lib t fs × Done (data_member t) fs))
          (λ u fs. AfterBoth fs)
          (λ fs. OnTheWay (meta_member t) fs × (Journaled lib t fs × Done (data_member t) fs)) R
          (install_member lib t.meta (meta_member t).staged J.old_meta J.new_meta)
          (Triple-install_member lib (meta_member t)
            (λ fs. Journaled lib t fs × Done (data_member t) fs) (meta_IsSound lib t s told)
            (meta_IsFrame lib t s told))
          (λ u fs q. (q.1.0, q.1.1, q.0)) (λ fs q. (q.1.0, inr q.1.1, q.0)))

  abbrev pub Settled : Files → Type 0
  Settled fs = R fs ⊎ Finished t fs

  unjournaled :
      Triple AfterBoth (remove_file (journal_path t.data_)) (λ u fs. Finished t fs) Settled
  unjournaled =
      Triple-call AfterBoth (λ u fs. Finished t fs) Settled (err io)
        (remove_at (journal_path t.data_))
        (λ fs q.
          subst (λ (y : Files × Outcome (Unit {0})). Says (λ u fs'. Finished t fs') Settled y.0 y.1)
            (sym (remove_at-some (journal_path t.data_) (regular q.0.0) fs q.0.1))
            (
              put-here (journal_path t.data_) none fs,
              Done-put (journal_path t.data_) none (data_member t) fs s.6.0 s.8.0 q.1,
              Done-put (journal_path t.data_) none (meta_member t) fs s.7.0 s.9.0 q.2,
            ))
        (λ fs q. inl (q.0, inr q.1, inr q.2)) (λ fs q. inl (q.0, inr q.1, inr q.2))

  -- What a quiet step keeps, under a wider early end.
  pub passing :
      {A B : Type 0} (P : Files → Type 0) (Q : B → Files → Type 0) (m : Io A) (f : A → Io B)
      → IsQuiet m
      → ((fs : Files) → P fs → Settled fs)
      → ((a : A) → Triple P (f a) Q Settled)
      → Triple P (m >>= f) Q Settled
  passing P Q m f q e k =
      Triple-then P (λ a fs. P fs) Q Settled m f
        (Triple-weaken P (λ a fs. P fs) (λ a fs. P fs) P Settled m (Triple-quiet P m q)
          (λ a fs x. x) e)
        k

  pub Triple-finish_pair :
      Triple R (finish_pair lib t.data_ t.meta J) (λ u fs. Finished t fs) Settled
  unfolding finish_pair
  Triple-finish_pair =
      Triple-then R (λ u fs. AfterData fs) (λ u fs. Finished t fs) Settled
        (install_member lib t.data_ (data_member t).staged J.old_data J.new_data) _
        (Triple-weaken R (λ u fs. AfterData fs) (λ u fs. AfterData fs) R Settled
          (install_member lib t.data_ (data_member t).staged J.old_data J.new_data) installed_data
          (λ u fs x. x) (λ fs x. inl x))
        (λ u.
          Triple-then AfterData (λ u fs. AfterBoth fs) (λ u fs. Finished t fs) Settled
            (install_member lib t.meta (meta_member t).staged J.old_meta J.new_meta) _
            (Triple-weaken AfterData (λ u fs. AfterBoth fs) (λ u fs. AfterBoth fs) R Settled
              (install_member lib t.meta (meta_member t).staged J.old_meta J.new_meta)
              installed_meta (λ u fs x. x) (λ fs x. inl x))
            (λ u.
              passing AfterBoth (λ u fs. Finished t fs) (validate_state_pair lib t.data_ t.meta) _
                (validate_state_pair-Still lib t.data_ t.meta).quiet both
                (λ i.
                  passing AfterBoth (λ u fs. Finished t fs) (sync_directory t.data_.parent) _
                    (sync_directory-Still t.data_.parent).quiet both
                    (λ v.
                      Triple-then AfterBoth (λ u fs. Finished t fs) (λ u fs. Finished t fs) Settled
                        (remove_file (journal_path t.data_)) (λ u. sync_directory t.data_.parent)
                        unjournaled
                        (λ u.
                          Triple-weaken (Finished t) (λ u fs. Finished t fs) (λ u fs. Finished t fs)
                            (Finished t) Settled (sync_directory t.data_.parent)
                            (Triple-quiet (Finished t) (sync_directory t.data_.parent)
                              (sync_directory-Still t.data_.parent).quiet)
                            (λ u fs x. x) (λ fs x. inr x))))))
    where
      both : (fs : Files) → AfterBoth fs → Settled fs
      both fs q = inl (q.0, inr q.1, inr q.2)
