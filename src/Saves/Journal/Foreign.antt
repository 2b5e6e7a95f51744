-- ===== src/Saves/Journal/Foreign.antt =====
-- `recover_state_pair` of save_format.rs where a destination holds a content that the journal does not know.
use project_chronos_engine.Prelude.{
  ◌≡◌, refl, sym, ap, subst, ◌∙◌, Bytes, Bool, false, ◌||◌, Option, none, some, ◌⊎◌, inl, inr,
}
use project_chronos_engine.Saves.Metadata.{changed_during_migration}
use project_chronos_engine.Saves.Disk.{
  FilePath, Node, regular, Files, World, Io, ◌>>=◌, pure, require, exists, optional_digest,
}
use project_chronos_engine.Saves.Journal.{
  PairJournal, Library, journal_path, hex_eq, load_journal, check_target, prove_pair, finish_pair,
  recover_state_pair,
}
use project_chronos_engine.Saves.Journal.Steps.{Post, Triple, Triple-then, Triple-if}
use project_chronos_engine.Saves.Journal.Digests.{Triple-optional_digest, View}
use project_chronos_engine.Saves.Journal.Members.{held, held-some, hash, old_hash}
use project_chronos_engine.Saves.Journal.Attempts.{through, Post-files, Triple-load_journal}
use project_chronos_engine.Saves.Journal.Quiet.{exists-Still, check_target-Still}

-- The target holds nothing or a regular file, and its digest is neither the old one nor the new.
abbrev pub IsForeign : (Bytes → Bytes) → FilePath → Option Bytes → Bytes → Files → Type 0
IsForeign md5 target old new fs =
    (o : Option Bytes) × (fs.nodes target ≡ held o)
    × ((hex_eq (old_hash md5 o) old || hex_eq (old_hash md5 o) (some new)) ≡ false)

View-held :
    (md5 : Bytes → Bytes) (n : Option Node) (o h : Option Bytes)
    → n ≡ held o
    → View md5 n h
    → h ≡ old_hash md5 o
View-held md5 n none h e (inl v) = v.1
View-held md5 n (some c) h e (inl v) = none≢some (sym v.0 ∙ e)
  where
    none≢some : ◌≡◌ {A = Option Node} none (some (regular c)) → h ≡ some (hash md5 c)
    none≢some f = cc
View-held md5 n o h e (inr (c, f, q)) = q ∙ ap (old_hash md5) (sym (held-some o c (sym e ∙ f)))

module _ (lib : Library) (d m : FilePath) (j : PairJournal) (fs₀ : Files) where
  abbrev P : Files → Type 0
  P fs = fs ≡ fs₀

  abbrev Never : Unit {0} → Files → Type 0
  Never u fs = ⊥

  refused :
      (target : FilePath) (old : Option Bytes) (new : Bytes)
      → IsForeign lib.md5 target old new fs₀
      → Triple P (check_target lib target old new) Never P
  unfolding check_target
  refused target old new (o, here, other) =
      Triple-then P (λ h fs. P fs × View lib.md5 (fs.nodes target) h) Never P
        (optional_digest lib.md5 target)
        (λ h. require (hex_eq h old || hex_eq h (some new)) changed_during_migration)
        (Triple-optional_digest lib.md5 target P)
        (λ h w p.
          subst (λ (b : Bool). Post Never P (require b changed_during_migration w))
            (sym (
              ap (λ x. hex_eq x old || hex_eq x (some new))
                (View-held lib.md5 (w.files.nodes target) o h
                  (ap (λ (y : Files). y.nodes target) p.0 ∙ here) p.1)
              ∙ other))
            p.0)

  never : {A : Type 0} (m : Io A) → Triple (λ fs. ⊥) m (λ a fs. P fs) P
  never m w v = absurd v

  abbrev rest : PairJournal → Io (Unit {0})
  rest i = do info ← prove_pair lib d m i; finish_pair lib d m i

  Triple-rest :
      IsForeign lib.md5 d j.old_data j.new_data fs₀ ⊎ IsForeign lib.md5 m j.old_meta j.new_meta fs₀
      → Triple P (prove_pair lib d m j) (λ i fs. ⊥) P
  unfolding prove_pair
  Triple-rest (inl f) =
      Triple-then P Never (λ i fs. ⊥) P (check_target lib d j.old_data j.new_data) _
        (refused d j.old_data j.new_data f) (λ u w v. absurd v)
  Triple-rest (inr f) =
      through P (λ i fs. ⊥) (check_target lib d j.old_data j.new_data) _
        (check_target-Still lib d j.old_data j.new_data)
        (λ u.
          Triple-then P Never (λ i fs. ⊥) P (check_target lib m j.old_meta j.new_meta) _
            (refused m j.old_meta j.new_meta f) (λ v w x. absurd x))

  Triple-foreign :
      ((c : Bytes) × (fs₀.nodes (journal_path d) ≡ some (regular c)) × (lib.from_slice c ≡ some j))
      → IsForeign lib.md5 d j.old_data j.new_data fs₀
        ⊎ IsForeign lib.md5 m j.old_meta j.new_meta fs₀
      → Triple P (recover_state_pair lib d m) (λ u fs. P fs) P
  unfolding recover_state_pair
  Triple-foreign there f =
      through P (λ u fs. P fs) (exists (journal_path d)) _ (exists-Still (journal_path d))
        (λ b.
          Triple-if P (λ u fs. P fs) P b (load_journal lib d m >>= rest) (pure tt)
            (λ e.
              Triple-then P (λ i fs. P fs × (i ≡ j)) (λ u fs. P fs) P (load_journal lib d m) rest
                (Triple-load_journal lib d m P j (λ fs p.
                  (there.0, ap (λ (y : Files). y.nodes (journal_path d)) p ∙ there.1, there.2)))
                (λ i w p.
                  subst (λ x. Post (λ u fs. P fs) P (rest x w)) (sym p.1)
                    (Triple-then P (λ i fs. ⊥) (λ u fs. P fs) P (prove_pair lib d m j)
                      (λ i. finish_pair lib d m j) (Triple-rest f)
                      (λ i. never (finish_pair lib d m j)) w p.0)))
            (λ e w p. p))

-- Where the journal reads as `j`, and a destination holds nothing or a file whose digest is neither the old nor the new
-- one of `j`, `recover_state_pair` leaves all files as they are, whichever calls fail.
pub recover_state_pair-foreign :
    (lib : Library) (d m : FilePath) (j : PairJournal) (c : Bytes) (w : World)
    → w.files.nodes (journal_path d) ≡ some (regular c)
    → lib.from_slice c ≡ some j
    → IsForeign lib.md5 d j.old_data j.new_data w.files
      ⊎ IsForeign lib.md5 m j.old_meta j.new_meta w.files
    → (recover_state_pair lib d m w).0.files ≡ w.files
recover_state_pair-foreign lib d m j c w here reads f =
    Post-files (λ fs. fs ≡ w.files) (recover_state_pair lib d m w)
      (Triple-foreign lib d m j w.files (c, here, reads) f w refl)
