-- ===== src/Saves/Journal/Completion.antt =====
-- `recover_state_pair` of save_format.rs: any number of interrupted calls, and one that is not.
use project_chronos_engine.Prelude.{
  ◌≡◌, refl, sym, ap, subst, ◌∙◌, true, false, List, [], ◌∷◌, ◌⊎◌, inl, inr,
}
use project_chronos_engine.Saves.Metadata.{ok}
use project_chronos_engine.Saves.Disk.{FilePath, Files, Fate, is_some, exists}
use project_chronos_engine.Saves.Journal.{
  Library, journal_path, load_journal, prove_pair, recover_state_pair,
}
use project_chronos_engine.Saves.Journal.Crashes.{
  Migration, IsSpread, IsTold, journal_of, Recoverable, Finished,
}
use project_chronos_engine.Saves.Journal.Attempts.{settled-files}
use project_chronos_engine.Saves.Journal.Sure.{Returned, calm, Sure, Gives-then, Gives-look}
use project_chronos_engine.Saves.Journal.Finishing.{
  IsPrepared, info, Gives-prove_pair, Sure-finish_pair,
}
use project_chronos_engine.Saves.Journal.Loading.{Gives-load_journal}

-- The files after one call of `recover_state_pair` for every list of fates.
unfoldable pub attempts : Library → FilePath → FilePath → List (List Fate) → Files → Files
attempts lib d m [] fs = fs
attempts lib d m (fates ∷ runs) fs =
    attempts lib d m runs
      (recover_state_pair lib d m (record { files = fs; fates = fates })).0.files

module _ (lib : Library) (t : Migration) (s : IsSpread t) (told : IsTold lib.md5 t)
    (valid : IsPrepared lib t) where
  -- With no failing call the recovery of a pair on the way returns, and the pair is finished.
  Sure-recover_state_pair :
      Sure (Recoverable lib t) (recover_state_pair lib t.data_ t.meta) (λ u fs. Finished t fs)
  unfolding recover_state_pair
  Sure-recover_state_pair fs r =
      Gives-then P (λ u fs. Finished t fs) (exists (journal_path t.data_)) _ true
        (Gives-look P (ok false) (λ x. ok (is_some (x.nodes (journal_path t.data_)))) true
          (λ x e.
            ap ok
              (ap (λ (y : Files). is_some (y.nodes (journal_path t.data_))) e ∙ ap is_some r.0.1)))
        (Gives-then P (λ u fs. Finished t fs) (load_journal lib t.data_ t.meta) _
          (journal_of lib.md5 t) (Gives-load_journal lib t valid fs r.0)
          (Gives-then P (λ u fs. Finished t fs)
            (prove_pair lib t.data_ t.meta (journal_of lib.md5 t)) _ (info lib t s told valid)
            (Gives-prove_pair lib t s told valid fs r)
            (λ x e. Sure-finish_pair lib t s told valid x (subst (Recoverable lib t) (sym e) r))))
        fs refl
    where
      P : Files → Type 0
      P x = x ≡ fs

  Sure-Finished : Sure (Finished t) (recover_state_pair lib t.data_ t.meta) (λ u fs. Finished t fs)
  unfolding recover_state_pair
  Sure-Finished =
      Gives-then (Finished t) (λ u fs. Finished t fs) (exists (journal_path t.data_)) _ false
        (Gives-look (Finished t) (ok false) (λ x. ok (is_some (x.nodes (journal_path t.data_))))
          false (λ x f. ap (λ n. ok (is_some n)) f.0))
        (λ fs f. (refl, f))

module _ (lib : Library) (t : Migration) (s : IsSpread t) (told : IsTold lib.md5 t) where
  settled-attempts :
      (runs : List (List Fate)) (fs : Files)
      → Recoverable lib t fs ⊎ Finished t fs
      → Recoverable lib t (attempts lib t.data_ t.meta runs fs)
        ⊎ Finished t (attempts lib t.data_ t.meta runs fs)
  unfolding attempts
  settled-attempts [] fs h = h
  settled-attempts (fates ∷ runs) fs h =
      settled-attempts runs
        (recover_state_pair lib t.data_ t.meta (record { files = fs; fates = fates })).0.files
        (settled-files lib t s told fs fates h)

  -- Let the journal, the destinations and the staged files of a migration be five paths, and the digest tell the old
  -- content of each destination from the new. Where the journal stands and each destination holds its old content with
  -- the new one staged, or its new content, the same holds after any number of calls of `recover_state_pair`, each
  -- stopped by any sequence of failing calls or by the death of the process; or the journal and the staged files are
  -- gone and both destinations hold the new contents.
  pub attempts-Recoverable :
      (runs : List (List Fate)) (fs : Files)
      → Recoverable lib t fs
      → Recoverable lib t (attempts lib t.data_ t.meta runs fs)
        ⊎ Finished t (attempts lib t.data_ t.meta runs fs)
  attempts-Recoverable runs fs r = settled-attempts runs fs (inl r)

  -- Let the journal, the destinations and the staged files of a migration be five paths, the digest tell the old
  -- content of each destination from the new, the migration be prepared, and its new pair be valid. Where the journal
  -- stands and each destination holds its old content with the new one staged, or its new content: after any number of
  -- interrupted calls of `recover_state_pair`, one call with no failing call returns, the journal and the staged
  -- files are gone, and both destinations hold the new contents.
  pub attempts-Finished :
      (valid : IsPrepared lib t) (runs : List (List Fate)) (fs : Files)
      → Recoverable lib t fs
      → Returned
          (λ u fs'. Finished t fs')
          (recover_state_pair lib t.data_ t.meta (calm (attempts lib t.data_ t.meta runs fs)))
  attempts-Finished valid runs fs r = go (attempts-Recoverable runs fs r)
    where
      go :
          Recoverable lib t (attempts lib t.data_ t.meta runs fs)
            ⊎ Finished t (attempts lib t.data_ t.meta runs fs)
          → Returned
              (λ u fs'. Finished t fs')
              (recover_state_pair lib t.data_ t.meta (calm (attempts lib t.data_ t.meta runs fs)))
      go (inl x) =
          Sure-recover_state_pair lib t s told valid (attempts lib t.data_ t.meta runs fs) x
      go (inr f) = Sure-Finished lib t s told valid (attempts lib t.data_ t.meta runs fs) f
