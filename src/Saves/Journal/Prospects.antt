-- ===== src/Saves/Journal/Prospects.antt =====
-- `install_member` and `prospective` of save_format.rs, when every call works.
use project_chronos_engine.Prelude.{
  ◌≡◌, refl, sym, ap, subst, ◌∙◌, Bytes, Bool, true, false, Option, none, some, inl, inr,
  if◌then◌else◌,
}
use project_chronos_engine.Saves.Metadata.{changed_during_migration, missing_stage}
use project_chronos_engine.Saves.Disk.{
  FilePath, regular, Files, Io, ◌>>=◌, pure, require, put, remove_at, rename_at, rename,
  optional_digest,
}
use project_chronos_engine.Saves.Journal.{
  Library, hex_eq, remove_stage, replace, install_member, prospective,
}
use project_chronos_engine.Saves.Journal.Members.{
  Member, Pending, Done, OnTheWay, hash, old_hash, held, IsSound, IsFrame, remove_at-some,
  rename_at-some,
}
use project_chronos_engine.Saves.Journal.Install.{Triple-install_member}
use project_chronos_engine.Saves.Journal.Sure.{
  Sure, Sure-if, Sure-call, Sure-Triple, Gives, Gives-then, Gives-step, Gives-pure, Gives-require,
  Gives-optional_digest,
}
use project_chronos_engine.Saves.Journal.Valid.{hex_eq_refl}

module _ (lib : Library) (m : Member) where
  abbrev Any : Unit {0} → Files → Type 0
  Any u fs = Unit {0}

  abbrev new_hash : Option Bytes
  new_hash = some (hash lib.md5 m.new)

  Gives-target :
      (o : Option Bytes) (P : Files → Type 0)
      → ((fs : Files) → P fs → fs.nodes m.target ≡ held o)
      → Gives P (optional_digest lib.md5 m.target) (old_hash lib.md5 o)
  Gives-target o P h = Gives-optional_digest lib.md5 m.target o P h

  Gives-staged :
      (o : Option Bytes) (P : Files → Type 0)
      → ((fs : Files) → P fs → fs.nodes m.staged ≡ held o)
      → Gives P (optional_digest lib.md5 m.staged) (old_hash lib.md5 o)
  Gives-staged o P h = Gives-optional_digest lib.md5 m.staged o P h

  Sure-removal :
      Sure
        (Pending m)
        (optional_digest lib.md5 m.staged >>= λ stage. remove_stage lib m.staged stage)
        Any
  unfolding remove_stage
  Sure-removal =
      Gives-then (Pending m) Any (optional_digest lib.md5 m.staged)
        (λ stage. remove_stage lib m.staged stage) new_hash
        (Gives-staged (some m.new) (Pending m) (λ fs p. p.1))
        (Sure-call (Pending m) Any _ (remove_at m.staged)
          (λ fs p. (tt, put m.staged none fs, remove_at-some m.staged (regular m.new) fs p.1, tt)))

  Sure-replacement :
      Sure
        (Pending m)
        (optional_digest lib.md5 m.staged >>= λ stage.
          replace lib m.target m.staged stage (hash lib.md5 m.new))
        Any
  unfolding replace
  Sure-replacement =
      Gives-then (Pending m) Any (optional_digest lib.md5 m.staged)
        (λ stage. replace lib m.target m.staged stage (hash lib.md5 m.new)) new_hash
        (Gives-staged (some m.new) (Pending m) (λ fs p. p.1))
        (Gives-then (Pending m) Any (require (hex_eq new_hash new_hash) missing_stage)
          (λ u. rename m.staged m.target) tt
          (Gives-require (Pending m) (hex_eq new_hash new_hash) missing_stage
            (hex_eq_refl new_hash))
          (Sure-call (Pending m) Any _ (rename_at m.staged m.target) (λ fs p. (
            tt,
            put m.target (some (regular m.new)) (put m.staged none fs),
            rename_at-some m.staged m.target (regular m.new) fs p.1,
            tt,
          ))))

  abbrev tail : Option Bytes → Io (Unit {0})
  tail h =
      if hex_eq h new_hash
      then (do stage ← optional_digest lib.md5 m.staged; remove_stage lib m.staged stage)
      else (do
        u ← require (hex_eq h (old_hash lib.md5 m.old)) changed_during_migration
        stage ← optional_digest lib.md5 m.staged
        replace lib m.target m.staged stage (hash lib.md5 m.new))

  Sure-Pending :
      Sure
        (Pending m)
        (install_member lib m.target m.staged (old_hash lib.md5 m.old) (hash lib.md5 m.new))
        Any
  unfolding install_member
  Sure-Pending =
      Gives-then (Pending m) Any (optional_digest lib.md5 m.target) tail (old_hash lib.md5 m.old)
        (Gives-target m.old (Pending m) (λ fs p. p.0))
        (Sure-if (Pending m) Any (hex_eq (old_hash lib.md5 m.old) new_hash) _ _ (λ e. Sure-removal)
          (λ e.
            Gives-then (Pending m) Any
              (require (hex_eq (old_hash lib.md5 m.old) (old_hash lib.md5 m.old))
                changed_during_migration)
              _ tt
              (Gives-require (Pending m) (hex_eq (old_hash lib.md5 m.old) (old_hash lib.md5 m.old))
                changed_during_migration (hex_eq_refl (old_hash lib.md5 m.old)))
              Sure-replacement))

  Sure-Done :
      Sure
        (Done m)
        (install_member lib m.target m.staged (old_hash lib.md5 m.old) (hash lib.md5 m.new))
        Any
  unfolding install_member remove_stage
  Sure-Done =
      Gives-then (Done m) Any (optional_digest lib.md5 m.target) tail new_hash
        (Gives-target (some m.new) (Done m) (λ fs d. d.0))
        (Sure-if (Done m) Any (hex_eq new_hash new_hash) _ _
          (λ e.
            Gives-then (Done m) Any (optional_digest lib.md5 m.staged)
              (λ stage. remove_stage lib m.staged stage) none
              (Gives-staged none (Done m) (λ fs d. d.1)) (λ fs d. (refl, tt)))
          (λ e. absurd (true≢false (sym (hex_eq_refl new_hash) ∙ e))))
    where
      true≢false : true ≡ false → ⊥
      true≢false e = cc

  -- With no failing call a member on the way is installed.
  pub Sure-install_member :
      (R : Files → Type 0)
      → IsSound lib.md5 m
      → IsFrame lib.md5 m R
      → Sure
          (λ fs. OnTheWay m fs × R fs)
          (install_member lib m.target m.staged (old_hash lib.md5 m.old) (hash lib.md5 m.new))
          (λ u fs. Done m fs × R fs)
  Sure-install_member R s r =
      Sure-Triple (λ fs. OnTheWay m fs × R fs) Any (λ u fs. Done m fs × R fs)
        (λ fs. OnTheWay m fs × R fs)
        (install_member lib m.target m.staged (old_hash lib.md5 m.old) (hash lib.md5 m.new)) returns
        (Triple-install_member lib m R s r)
    where
      returns :
          Sure
            (λ fs. OnTheWay m fs × R fs)
            (install_member lib m.target m.staged (old_hash lib.md5 m.old) (hash lib.md5 m.new))
            Any
      returns fs (inl p, x) = Sure-Pending fs p
      returns fs (inr d, x) = Sure-Done fs d

  -- Where the new content of a member on the way is found.
  abbrev pub Prospect : (Files → Type 0) → Files → Type 0
  Prospect P fs =
      (p : FilePath) × Gives P (prospective lib m.target m.staged (hash lib.md5 m.new)) p
      × (fs.nodes p ≡ some (regular m.new))

  abbrev found : Bool → FilePath
  found b = if b then m.target else m.staged

  Gives-prospective :
      (o : Option Bytes) (P : Files → Type 0)
      → ((fs : Files) → P fs → fs.nodes m.target ≡ held o)
      → Gives P
          (prospective lib m.target m.staged (hash lib.md5 m.new))
          (found (hex_eq (old_hash lib.md5 o) new_hash))
  unfolding prospective
  Gives-prospective o P h =
      Gives-step P (found (hex_eq (old_hash lib.md5 o) new_hash)) (optional_digest lib.md5 m.target)
        (λ current. pure (found (hex_eq current new_hash))) (old_hash lib.md5 o)
        (Gives-target o P h) (Gives-pure P (found (hex_eq (old_hash lib.md5 o) new_hash)))

  found-new :
      IsSound lib.md5 m
      → (o : Option Bytes) (fs : Files) (b : Bool) → m.old ≡ o
      → Pending m fs
      → hex_eq (old_hash lib.md5 o) new_hash ≡ b
      → fs.nodes (found b) ≡ some (regular m.new)
  found-new s o fs false q p e = p.1
  found-new s none fs true q p e = false≢true e
    where
      false≢true : {C : Type 0} → false ≡ true → C
      false≢true f = cc
  found-new s (some c) fs true q p e = p.0 ∙ ap held q ∙ ap (λ x. some (regular x)) (s.2 c q e)

  pub prospect : IsSound lib.md5 m → (fs : Files) → OnTheWay m fs → Prospect (λ fs'. fs' ≡ fs) fs
  prospect s fs (inl p) = (
    found (hex_eq (old_hash lib.md5 m.old) new_hash),
    Gives-prospective m.old (λ fs'. fs' ≡ fs)
        (λ fs' e. ap (λ (x : Files). x.nodes m.target) e ∙ p.0),
    found-new s m.old fs (hex_eq (old_hash lib.md5 m.old) new_hash) refl p refl,
  )
  prospect s fs (inr d) = (
    found (hex_eq new_hash new_hash),
    Gives-prospective (some m.new) (λ fs'. fs' ≡ fs)
        (λ fs' e. ap (λ (x : Files). x.nodes m.target) e ∙ d.0),
    subst (λ b. fs.nodes (found b) ≡ some (regular m.new)) (sym (hex_eq_refl new_hash)) d.0,
  )
