-- ===== src/Saves/Journal/Finishing.antt =====
-- `finish_pair` and `prove_pair` of save_format.rs, when every call works.
use project_chronos_engine.Prelude.{◌≡◌, refl, sym, ap, subst, ◌∙◌, true, none, inl, inr, bytes_eq}
use project_chronos_engine.Saves.Metadata.{Outcome, ok, err, panicked, died, io}
use project_chronos_engine.Saves.Disk.{
  regular, Files, World, Io, put, sync_directory, remove_at, remove_file,
}
use project_chronos_engine.Saves.Journal.{
  StateInfo, PairJournal, Library, journal_path, single_component, starts_with, staged_prefix,
  staged_meta_prefix, install_member, check_target, prospective, validate_state_pair, prove_pair,
  finish_pair,
}
use project_chronos_engine.Saves.Journal.Members.{
  Member, Pending, Done, OnTheWay, hash, old_hash, remove_at-some,
}
use project_chronos_engine.Saves.Journal.Crashes.{
  Migration, data_member, meta_member, IsSpread, IsTold, journal_of, Journaled, Recoverable,
  Finished, data_IsSound, meta_IsSound, data_IsFrame, meta_IsFrame,
}
use project_chronos_engine.Saves.Journal.Recover.{Settled, Triple-finish_pair}
use project_chronos_engine.Saves.Journal.Sure.{
  Returned, calm, Sure, Sure-then, Sure-call, Sure-Triple, Gives, Gives-then, Gives-step,
  Gives-look,
}
use project_chronos_engine.Saves.Journal.Valid.{
  ValidPair, Gives-validate_state_pair, Gives-check-Pending, Gives-check-Done,
}
use project_chronos_engine.Saves.Journal.Prospects.{Sure-install_member, prospect}

-- A migration that `prepare_pair` may have journaled: both files in one directory, its own names for the staged files,
-- and a valid new pair.
pub record IsPrepared (lib : Library) (t : Migration) : Type 0 where
  pub together : bytes_eq t.meta.parent t.data_.parent ≡ true
  pub single_data : single_component t.staged_data ≡ true
  pub single_meta : single_component t.staged_meta ≡ true
  pub owned_data : starts_with staged_prefix t.staged_data ≡ true
  pub owned_meta : starts_with staged_meta_prefix t.staged_meta ≡ true
  pub pair : ValidPair lib t.new_data t.new_meta

Sure-post :
    {A : Type 0} (P : Files → Type 0) (Q Q' : A → Files → Type 0) (m : Io A)
    → Sure P m Q
    → ((a : A) (fs : Files) → Q a fs → Q' a fs)
    → Sure P m Q'
Sure-post {A = A} P Q Q' m h q fs p = go (m (calm fs)) (h fs p)
  where
    go : (r : World × Outcome A) → Returned Q r → Returned Q' r
    go (w, ok a) (e, x) = (e, q a w.files x)
    go (w, err e) x = x
    go (w, panicked) x = x
    go (w, died) x = x

pub Gives-check_target :
    (lib : Library) (m : Member) (fs : Files)
    → OnTheWay m fs
    → Gives
        (λ x. x ≡ fs)
        (check_target lib m.target (old_hash lib.md5 m.old) (hash lib.md5 m.new))
        tt
Gives-check_target lib m fs (inl p) =
    Gives-check-Pending lib m (λ x. x ≡ fs) (λ x e. subst (Pending m) (sym e) p)
Gives-check_target lib m fs (inr d) =
    Gives-check-Done lib m (λ x. x ≡ fs) (λ x e. subst (Done m) (sym e) d)

module _ (lib : Library) (t : Migration) (s : IsSpread t) (told : IsTold lib.md5 t)
    (valid : IsPrepared lib t) where
  abbrev J : PairJournal
  J = journal_of lib.md5 t

  abbrev pub info : StateInfo
  info = record {
    region_tag = valid.pair.tag;
    segment_type = valid.pair.segment;
    digest = lib.md5 t.new_data;
  }

  pub Gives-prove_pair :
      (fs : Files)
      → Recoverable lib t fs
      → Gives (λ x. x ≡ fs) (prove_pair lib t.data_ t.meta J) info
  unfolding prove_pair
  Gives-prove_pair fs r =
      let d' = prospect lib (data_member t) (data_IsSound lib t s told) fs r.1 in
      let m' = prospect lib (meta_member t) (meta_IsSound lib t s told) fs r.2 in
      Gives-step P info (check_target lib t.data_ J.old_data J.new_data) _ tt
        (Gives-check_target lib (data_member t) fs r.1)
        (Gives-step P info (check_target lib t.meta J.old_meta J.new_meta) _ tt
          (Gives-check_target lib (meta_member t) fs r.2)
          (Gives-step P info (prospective lib t.data_ (data_member t).staged J.new_data) _ d'.0 d'.1
            (Gives-step P info (prospective lib t.meta (meta_member t).staged J.new_meta)
              (λ q. validate_state_pair lib d'.0 q) m'.0 m'.1
              (Gives-validate_state_pair lib t.new_data t.new_meta valid.pair d'.0 m'.0 P
                (λ x e. ap (λ (y : Files). y.nodes d'.0) e ∙ d'.2)
                (λ x e. ap (λ (y : Files). y.nodes m'.0) e ∙ m'.2)))))
    where
      P : Files → Type 0
      P x = x ≡ fs

  abbrev AfterData : Files → Type 0
  AfterData fs = Journaled lib t fs × Done (data_member t) fs × OnTheWay (meta_member t) fs

  abbrev AfterBoth : Files → Type 0
  AfterBoth fs = Journaled lib t fs × Done (data_member t) fs × Done (meta_member t) fs

  sure_data :
      Sure
        (Recoverable lib t)
        (install_member lib t.data_ (data_member t).staged J.old_data J.new_data)
        (λ u fs. AfterData fs)
  sure_data fs r =
      Sure-post
        (λ fs. OnTheWay (data_member t) fs × (Journaled lib t fs × OnTheWay (meta_member t) fs))
        (λ u fs. Done (data_member t) fs × (Journaled lib t fs × OnTheWay (meta_member t) fs))
        (λ u fs. AfterData fs)
        (install_member lib t.data_ (data_member t).staged J.old_data J.new_data)
        (Sure-install_member lib (data_member t)
          (λ fs. Journaled lib t fs × OnTheWay (meta_member t) fs) (data_IsSound lib t s told)
          (data_IsFrame lib t s told))
        (λ u fs q. (q.1.0, q.0, q.1.1)) fs (r.1, (r.0, r.2))

  sure_meta :
      Sure AfterData
        (install_member lib t.meta (meta_member t).staged J.old_meta J.new_meta)
        (λ u fs. AfterBoth fs)
  sure_meta fs r =
      Sure-post (λ fs. OnTheWay (meta_member t) fs × (Journaled lib t fs × Done (data_member t) fs))
        (λ u fs. Done (meta_member t) fs × (Journaled lib t fs × Done (data_member t) fs))
        (λ u fs. AfterBoth fs)
        (install_member lib t.meta (meta_member t).staged J.old_meta J.new_meta)
        (Sure-install_member lib (meta_member t)
          (λ fs. Journaled lib t fs × Done (data_member t) fs) (meta_IsSound lib t s told)
          (meta_IsFrame lib t s told))
        (λ u fs q. (q.1.0, q.1.1, q.0)) fs (r.2, (r.0, r.1))

  abbrev Any : Unit {0} → Files → Type 0
  Any u fs = Unit {0}

  finish_returns : Sure (Recoverable lib t) (finish_pair lib t.data_ t.meta J) Any
  unfolding finish_pair
  finish_returns =
      Sure-then (Recoverable lib t) (λ u fs. AfterData fs) Any
        (install_member lib t.data_ (data_member t).staged J.old_data J.new_data) _ sure_data
        (λ u.
          Sure-then AfterData (λ u fs. AfterBoth fs) Any
            (install_member lib t.meta (meta_member t).staged J.old_meta J.new_meta) _ sure_meta
            (λ v.
              Gives-then AfterBoth Any (validate_state_pair lib t.data_ t.meta) _ info
                (Gives-validate_state_pair lib t.new_data t.new_meta valid.pair t.data_ t.meta
                  AfterBoth (λ fs q. q.1.0) (λ fs q. q.2.0))
                (Gives-then AfterBoth Any (sync_directory t.data_.parent) _ tt
                  (Gives-look AfterBoth (err io) (λ fs. ok tt) tt (λ fs q. refl))
                  (Sure-then AfterBoth Any Any (remove_file (journal_path t.data_))
                    (λ u. sync_directory t.data_.parent)
                    (Sure-call AfterBoth Any (err io) (remove_at (journal_path t.data_)) (λ fs q. (
                      tt,
                      put (journal_path t.data_) none fs,
                      remove_at-some (journal_path t.data_) (regular q.0.0) fs q.0.1,
                      tt,
                    )))
                    (λ u. synced)))))
    where
      synced : Sure (Any tt) (sync_directory t.data_.parent) Any
      synced =
          Sure-post (Any tt) (λ b fs. Any tt fs × (b ≡ tt)) Any (sync_directory t.data_.parent)
            (Gives-look (Any tt) (err io) (λ fs. ok tt) tt (λ fs q. refl)) (λ a fs q. tt)

  -- With no failing call the pair is finished.
  pub Sure-finish_pair :
      Sure (Recoverable lib t) (finish_pair lib t.data_ t.meta J) (λ u fs. Finished t fs)
  Sure-finish_pair =
      Sure-Triple (Recoverable lib t) Any (λ u fs. Finished t fs) (Settled lib t s told)
        (finish_pair lib t.data_ t.meta J) finish_returns (Triple-finish_pair lib t s told)
