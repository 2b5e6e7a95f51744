-- ===== src/Saves/Journal/Attempts.antt =====
-- `recover_state_pair` of save_format.rs, called again after every interruption.
use project_chronos_engine.Prelude.{
  ◌≡◌, refl, sym, ap, subst, ◌∙◌, Bytes, true, false, List, Option, none, some, inl, inr, length,
  leb,
}
use project_chronos_engine.Saves.Metadata.{
  Outcome, ok, err, panicked, died, io, invalid_journal, journal_too_large, foreign_journal,
  unowned_stages,
}
use project_chronos_engine.Saves.Disk.{
  FilePath, Node, regular, Files, Fate, World, Io, ◌>>=◌, pure, lift, look, is_some, bytes_of,
  exists, read_file, regular_file, require,
}
use project_chronos_engine.Saves.Journal.{
  PairJournal, Library, journal_path, load_journal, prove_pair, finish_pair, recover_state_pair,
}
use project_chronos_engine.Saves.Journal.Steps.{
  Post, Triple, Triple-then, Triple-call, Triple-quiet, Triple-if, Triple-weaken, Triple-look,
}
use project_chronos_engine.Saves.Journal.Digests.{bytes_of-ok}
use project_chronos_engine.Saves.Journal.Crashes.{
  Migration, IsSpread, IsTold, journal_of, Recoverable, Finished,
}
use project_chronos_engine.Saves.Journal.Recover.{Settled, Triple-finish_pair}
use project_chronos_engine.Saves.Journal.Quiet.{
  Still, accepted, pair_parent-Still, journal_member-Still, require-Still, regular_file-Still,
  prove_pair-Still, exists-Still,
}

pub through :
    {A B : Type 0} (P : Files → Type 0) (Q : B → Files → Type 0) (m : Io A) (f : A → Io B)
    → Still m
    → ((a : A) → Triple P (f a) Q P)
    → Triple P (m >>= f) Q P
through P Q m f h k = Triple-then P (λ a fs. P fs) Q P m f (Triple-quiet P m h.quiet) k

pub Post-files :
    {A : Type 0} (P : Files → Type 0) (r : World × Outcome A)
    → Post (λ a fs. P fs) P r
    → P r.0.files
Post-files P (w, ok a) h = h
Post-files P (w, err e) h = h
Post-files P (w, panicked) h = h
Post-files P (w, died) h = h

module _ (lib : Library) (d m : FilePath) where
  Triple-accepted :
      (P : Files → Type 0) (j : PairJournal)
      → Triple P (accepted lib d m j) (λ j' fs. P fs × (j' ≡ j)) P
  Triple-accepted P j =
      through P (λ j' fs. P fs × (j' ≡ j)) _ _ (require-Still _ foreign_journal)
        (λ own.
          through P (λ j' fs. P fs × (j' ≡ j)) _ _ (pair_parent-Still d m)
            (λ parent.
              through P (λ j' fs. P fs × (j' ≡ j)) _ _ (journal_member-Still parent j.staged_data)
                (λ sd.
                  through P (λ j' fs. P fs × (j' ≡ j)) _ _
                    (journal_member-Still parent j.staged_meta)
                    (λ sm.
                      through P (λ j' fs. P fs × (j' ≡ j)) _ (λ owned. pure j)
                        (require-Still _ unowned_stages) (λ owned w p. (p, refl))))))

  abbrev pub parsed : Option PairJournal → Outcome PairJournal
  parsed x = elim x [ none ↦ err invalid_journal | some j ↦ ok j ]

  -- A journal that reads as `j` is loaded as `j`, or not at all.
  pub Triple-load_journal :
      (P : Files → Type 0) (j : PairJournal)
      → ((fs : Files)
          → P fs
          → (c : Bytes) × (fs.nodes (journal_path d) ≡ some (regular c))
            × (lib.from_slice c ≡ some j))
      → Triple P (load_journal lib d m) (λ j' fs. P fs × (j' ≡ j)) P
  unfolding load_journal
  Triple-load_journal P j there =
      through P (λ j' fs. P fs × (j' ≡ j)) (regular_file (journal_path d)) _
        (regular_file-Still (journal_path d))
        (λ meta.
          through P (λ j' fs. P fs × (j' ≡ j)) (require (leb (length meta) 4096) journal_too_large)
            _ (require-Still (leb (length meta) 4096) journal_too_large)
            (λ u.
              Triple-then P (λ bytes fs. P fs × (bytes_of (fs.nodes (journal_path d)) ≡ ok bytes))
                (λ j' fs. P fs × (j' ≡ j)) P (read_file (journal_path d)) _
                (Triple-look P io (λ fs. bytes_of (fs.nodes (journal_path d)))) read))
    where
      agree :
          (bytes c : Bytes) (n : Option Node)
          → bytes_of n ≡ ok bytes
          → n ≡ some (regular c)
          → bytes ≡ c
      agree bytes c n e f = regular_inj (sym (bytes_of-ok lib.md5 (journal_path d) n bytes e) ∙ f)
        where
          regular_inj : ◌≡◌ {A = Option Node} (some (regular bytes)) (some (regular c)) → bytes ≡ c
          regular_inj g = cc

      read :
          (bytes : Bytes)
          → Triple
              (λ fs. P fs × (bytes_of (fs.nodes (journal_path d)) ≡ ok bytes))
              (lift (parsed (lib.from_slice bytes)) >>= λ j'. accepted lib d m j')
              (λ j' fs. P fs × (j' ≡ j))
              P
      read bytes w (p, e) =
          subst
            (λ (x : Option PairJournal).
              Post (λ j' fs. P fs × (j' ≡ j)) P ((lift (parsed x) >>= λ j'. accepted lib d m j') w))
            (sym (
              ap lib.from_slice (
                agree bytes (there w.files p).0 (w.files.nodes (journal_path d)) e
                  (there w.files p).1)
              ∙ (there w.files p).2))
            (Triple-accepted P j w p)

  exists-none :
      (P : Files → Type 0)
      → ((fs : Files) → P fs → fs.nodes (journal_path d) ≡ none)
      → Triple P (exists (journal_path d)) (λ b fs. P fs × (b ≡ false)) P
  unfolding look
  exists-none P h =
      Triple-call P (λ b fs. P fs × (b ≡ false)) P (ok false)
        (λ fs. (fs, ok (is_some (fs.nodes (journal_path d))))) (λ fs p. (p, ap is_some (h fs p)))
        (λ fs p. (p, refl)) (λ fs p. p)

module _ (lib : Library) (t : Migration) (s : IsSpread t) (told : IsTold lib.md5 t) where
  abbrev R : Files → Type 0
  R = Recoverable lib t

  abbrev S : Files → Type 0
  S = Settled lib t s told

  recovering :
      Triple R
        (load_journal lib t.data_ t.meta >>= λ j.
          prove_pair lib t.data_ t.meta j >>= λ info. finish_pair lib t.data_ t.meta j)
        (λ u fs. S fs)
        S
  recovering =
      Triple-then R (λ j fs. R fs × (j ≡ journal_of lib.md5 t)) (λ u fs. S fs) S
        (load_journal lib t.data_ t.meta)
        (λ j. prove_pair lib t.data_ t.meta j >>= λ info. finish_pair lib t.data_ t.meta j)
        (Triple-weaken R (λ j fs. R fs × (j ≡ journal_of lib.md5 t))
          (λ j fs. R fs × (j ≡ journal_of lib.md5 t)) R S (load_journal lib t.data_ t.meta)
          (Triple-load_journal lib t.data_ t.meta R (journal_of lib.md5 t)
            (λ fs r. (r.0.0, r.0.1, r.0.2)))
          (λ j fs x. x) (λ fs x. inl x))
        (λ j w p.
          subst
            (λ (i : PairJournal).
              Post (λ u fs. S fs) S
                ((prove_pair lib t.data_ t.meta i >>= λ info. finish_pair lib t.data_ t.meta i) w))
            (sym p.1) (proven w p.0))
    where
      proven :
          Triple R
            (prove_pair lib t.data_ t.meta (journal_of lib.md5 t) >>= λ info.
              finish_pair lib t.data_ t.meta (journal_of lib.md5 t))
            (λ u fs. S fs)
            S
      proven =
          Triple-then R (λ i fs. R fs) (λ u fs. S fs) S
            (prove_pair lib t.data_ t.meta (journal_of lib.md5 t))
            (λ info. finish_pair lib t.data_ t.meta (journal_of lib.md5 t))
            (Triple-weaken R (λ i fs. R fs) (λ i fs. R fs) R S
              (prove_pair lib t.data_ t.meta (journal_of lib.md5 t))
              (Triple-quiet R (prove_pair lib t.data_ t.meta (journal_of lib.md5 t))
                (prove_pair-Still lib t.data_ t.meta (journal_of lib.md5 t)).quiet)
              (λ i fs x. x) (λ fs x. inl x))
            (λ info.
              Triple-weaken R (λ u fs. Finished t fs) (λ u fs. S fs) S S
                (finish_pair lib t.data_ t.meta (journal_of lib.md5 t))
                (Triple-finish_pair lib t s told) (λ u fs x. inr x) (λ fs x. x))

  from_recoverable : Triple R (recover_state_pair lib t.data_ t.meta) (λ u fs. S fs) S
  unfolding recover_state_pair
  from_recoverable =
      Triple-then R (λ b fs. R fs) (λ u fs. S fs) S (exists (journal_path t.data_)) _
        (Triple-weaken R (λ b fs. R fs) (λ b fs. R fs) R S (exists (journal_path t.data_))
          (Triple-quiet R (exists (journal_path t.data_))
            (exists-Still (journal_path t.data_)).quiet)
          (λ b fs x. x) (λ fs x. inl x))
        (λ b.
          Triple-if R (λ u fs. S fs) S b
            (load_journal lib t.data_ t.meta >>= λ j.
              prove_pair lib t.data_ t.meta j >>= λ info. finish_pair lib t.data_ t.meta j)
            (pure tt) (λ e. recovering) (λ e w r. inl r))

  pub from_Finished :
      Triple
        (Finished t)
        (recover_state_pair lib t.data_ t.meta)
        (λ u fs. Finished t fs)
        (Finished t)
  unfolding recover_state_pair
  from_Finished =
      Triple-then (Finished t) (λ b fs. Finished t fs × (b ≡ false)) (λ u fs. Finished t fs)
        (Finished t) (exists (journal_path t.data_)) _
        (exists-none lib t.data_ t.meta (Finished t) (λ fs x. x.0))
        (λ b.
          Triple-if (λ fs. Finished t fs × (b ≡ false)) (λ u fs. Finished t fs) (Finished t) b
            (load_journal lib t.data_ t.meta >>= λ j.
              prove_pair lib t.data_ t.meta j >>= λ info. finish_pair lib t.data_ t.meta j)
            (pure tt) (λ e w x. true≢false (sym e ∙ x.1)) (λ e w x. x.0))
    where
      true≢false : {C : Type 0} → true ≡ false → C
      true≢false f = cc

  pub settled-files :
      (fs : Files) (fates : List Fate)
      → S fs
      → S (recover_state_pair lib t.data_ t.meta (record { files = fs; fates = fates })).0.files
  settled-files fs fates (inl r) =
      Post-files S (recover_state_pair lib t.data_ t.meta (record { files = fs; fates = fates }))
        (from_recoverable (record { files = fs; fates = fates }) r)
  settled-files fs fates (inr f) = inr (
      Post-files (Finished t)
        (recover_state_pair lib t.data_ t.meta (record { files = fs; fates = fates }))
        (from_Finished (record { files = fs; fates = fates }) f))
