-- ===== src/Saves/Journal/Install.antt =====
-- `install_member` of save_format.rs under every sequence of failing calls.
use project_chronos_engine.Prelude.{
  ◌≡◌, sym, ◌∙◌, Bytes, Bool, true, false, Option, none, some, inl, inr, if◌then◌else◌,
}
use project_chronos_engine.Saves.Metadata.{err, io, changed_during_migration, missing_stage}
use project_chronos_engine.Saves.Disk.{
  regular, Files, Io, ◌>>=◌, require, remove_at, rename_at, rename, optional_digest,
}
use project_chronos_engine.Saves.Journal.{hex_eq, remove_stage, replace, install_member, Library}
use project_chronos_engine.Saves.Journal.Steps.{
  Triple, Triple-then, Triple-call, Triple-require, Triple-pre, Triple-if, Triple-weaken,
}
use project_chronos_engine.Saves.Journal.Digests.{Triple-optional_digest, View}
use project_chronos_engine.Saves.Journal.Members.{
  Member, Pending, Done, OnTheWay, hash, old_hash, IsSound, IsFrame, View-new, View-old,
  Says-remove, Says-rename,
}

module _ (lib : Library) (m : Member) (R : Files → Type 0) (s : IsSound lib.md5 m)
    (r : IsFrame lib.md5 m R) where
  none≢some : {A C : Type 0} {a : A} → ◌≡◌ {A = Option A} none (some a) → C
  none≢some f = cc

  abbrev Before : Files → Type 0
  Before fs = OnTheWay m fs × R fs

  abbrev After : Unit {0} → Files → Type 0
  After u fs = Done m fs × R fs

  abbrev InPlace : Files → Type 0
  InPlace fs = Before fs × (fs.nodes m.target ≡ some (regular m.new))

  gone : (fs : Files) → InPlace fs → fs.nodes m.staged ≡ none → After tt fs
  gone fs ((inl p, x), t) n = none≢some (sym n ∙ p.1)
  gone fs ((inr d, x), t) n = (d, x)

  Triple-remove_stage :
      (h : Option Bytes)
      → Triple
          (λ fs. InPlace fs × View lib.md5 (fs.nodes m.staged) h)
          (remove_stage lib m.staged h)
          After
          Before
  unfolding remove_stage
  Triple-remove_stage none w (p, inl v) = gone w.files p v.0
  Triple-remove_stage none w (p, inr v) = none≢some v.2
  Triple-remove_stage (some d) w (p, inl v) = none≢some (sym v.1)
  Triple-remove_stage (some d) w (p, inr v) =
      Triple-call (λ fs. InPlace fs × (fs.nodes m.staged ≡ some (regular v.0))) After Before
        (err io) (remove_at m.staged)
        (λ fs q. Says-remove lib.md5 m R fs (regular v.0) Before s r q.0.0.1 q.0.1 q.1)
        (λ fs q. q.0.0) (λ fs q. q.0.0) w (p, v.1)

  Triple-replace :
      (h : Option Bytes)
      → Triple
          (λ fs. Pending m fs × R fs)
          (replace lib m.target m.staged h (hash lib.md5 m.new))
          After
          Before
  unfolding replace
  Triple-replace h =
      Triple-then (λ fs. Pending m fs × R fs)
        (λ u fs. (Pending m fs × R fs) × (hex_eq h (some (hash lib.md5 m.new)) ≡ true)) After Before
        (require (hex_eq h (some (hash lib.md5 m.new))) missing_stage)
        (λ u. rename m.staged m.target)
        (Triple-weaken (λ fs. Pending m fs × R fs)
          (λ u fs. (Pending m fs × R fs) × (hex_eq h (some (hash lib.md5 m.new)) ≡ true))
          (λ u fs. (Pending m fs × R fs) × (hex_eq h (some (hash lib.md5 m.new)) ≡ true))
          (λ fs. Pending m fs × R fs) Before
          (require (hex_eq h (some (hash lib.md5 m.new))) missing_stage)
          (Triple-require (λ fs. Pending m fs × R fs) (hex_eq h (some (hash lib.md5 m.new)))
            missing_stage)
          (λ u fs q. q) (λ fs q. (inl q.0, q.1)))
        (λ u.
          Triple-call (λ fs. (Pending m fs × R fs) × (hex_eq h (some (hash lib.md5 m.new)) ≡ true))
            After Before (err io) (rename_at m.staged m.target)
            (λ fs q. Says-rename lib.md5 m R fs Before s r q.0.1 q.0.0) (λ fs q. (inl q.0.0, q.0.1))
            (λ fs q. (inl q.0.0, q.0.1)))

  abbrev removal : Io (Unit {0})
  removal = do stage ← optional_digest lib.md5 m.staged; remove_stage lib m.staged stage

  abbrev replacement : Io (Unit {0})
  replacement = do
    stage ← optional_digest lib.md5 m.staged
    replace lib m.target m.staged stage (hash lib.md5 m.new)

  abbrev checked : Bool → Io (Unit {0})
  checked b = do u ← require b changed_during_migration; replacement

  abbrev Waiting : Files → Type 0
  Waiting fs = Pending m fs × R fs

  installed : Triple InPlace removal After Before
  installed =
      Triple-then InPlace (λ h fs. InPlace fs × View lib.md5 (fs.nodes m.staged) h) After Before
        (optional_digest lib.md5 m.staged) (λ stage. remove_stage lib m.staged stage)
        (early InPlace (λ fs q. q.0)) Triple-remove_stage
    where
      early :
          (P : Files → Type 0)
          → ((fs : Files) → P fs → Before fs)
          → Triple P
              (optional_digest lib.md5 m.staged)
              (λ h fs. P fs × View lib.md5 (fs.nodes m.staged) h)
              Before
      early P h =
          Triple-weaken P (λ h fs. P fs × View lib.md5 (fs.nodes m.staged) h)
            (λ h fs. P fs × View lib.md5 (fs.nodes m.staged) h) P Before
            (optional_digest lib.md5 m.staged) (Triple-optional_digest lib.md5 m.staged P)
            (λ x fs q. q) h

  staging : Triple Waiting replacement After Before
  staging =
      Triple-then Waiting (λ h fs. Waiting fs) After Before (optional_digest lib.md5 m.staged)
        (λ stage. replace lib m.target m.staged stage (hash lib.md5 m.new))
        (Triple-weaken Waiting (λ h fs. Waiting fs × View lib.md5 (fs.nodes m.staged) h)
          (λ h fs. Waiting fs) Waiting Before (optional_digest lib.md5 m.staged)
          (Triple-optional_digest lib.md5 m.staged Waiting) (λ x fs q. q.0)
          (λ fs q. (inl q.0, q.1)))
        Triple-replace

  waiting : (b : Bool) → Triple Waiting (checked b) After Before
  waiting true w q = staging w q
  waiting false w q = (inl q.0, q.1)

  abbrev Seen : Option Bytes → Files → Type 0
  Seen h fs = Before fs × View lib.md5 (fs.nodes m.target) h

  Triple-current :
      (h : Option Bytes)
      → Triple
          (Seen h)
          (if hex_eq h (some (hash lib.md5 m.new))
            then removal
            else checked (hex_eq h (old_hash lib.md5 m.old)))
          After
          Before
  Triple-current h =
      Triple-if (Seen h) After Before (hex_eq h (some (hash lib.md5 m.new))) removal
        (checked (hex_eq h (old_hash lib.md5 m.old)))
        (λ e.
          Triple-pre (Seen h) InPlace After Before removal
            (λ fs q. (q.0, View-new lib.md5 m s fs h q.0.0 q.1 e)) installed)
        (λ e.
          Triple-pre (Seen h) Waiting After Before (checked (hex_eq h (old_hash lib.md5 m.old)))
            (λ fs q. (View-old lib.md5 m fs h q.0.0 q.1 e, q.0.1))
            (waiting (hex_eq h (old_hash lib.md5 m.old))))

  -- Installing a member ends with the new content in place and the staged file gone, or with the member on the way;
  -- what neither file decides stays.
  pub Triple-install_member :
      Triple Before
        (install_member lib m.target m.staged (old_hash lib.md5 m.old) (hash lib.md5 m.new))
        After
        Before
  unfolding install_member
  Triple-install_member =
      Triple-then Before Seen After Before (optional_digest lib.md5 m.target) current
        (Triple-optional_digest lib.md5 m.target Before) Triple-current
    where
      current : (h : Option Bytes) → Io (Unit {0})
      current h =
          if hex_eq h (some (hash lib.md5 m.new))
          then removal
          else checked (hex_eq h (old_hash lib.md5 m.old))
