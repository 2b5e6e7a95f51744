-- ===== src/Saves/Journal/Members.antt =====
-- `install_member` of save_format.rs: one file of a pair, before and after its replacement.
use project_chronos_engine.Prelude.{
  ◌≡◌, sym, ap, subst, ◌∙◌, Bytes, Bool, true, false, ◌&&◌, Option, none, some, ◌⊎◌, inl, inr,
  bytes_eq, bytes_eq_refl, if◌then◌else◌,
}
use project_chronos_engine.Saves.Metadata.{Outcome, ok, err, io, digest_hex}
use project_chronos_engine.Saves.Disk.{
  FilePath, Node, regular, Files, put, same, remove_at, rename_at,
}
use project_chronos_engine.Saves.Journal.{hex_eq}
use project_chronos_engine.Saves.Journal.Steps.{Says}
use project_chronos_engine.Saves.Journal.Digests.{View}

pub same_refl : (p : FilePath) → same p p ≡ true
same_refl p =
    subst (λ (b : Bool). (b && bytes_eq p.name p.name) ≡ true) (sym (bytes_eq_refl p.parent))
      (bytes_eq_refl p.name)

pub put-here : (p : FilePath) (n : Option Node) (fs : Files) → (put p n fs).nodes p ≡ n
put-here p n fs = ap (λ (b : Bool). if b then n else fs.nodes p) (same_refl p)

pub put-elsewhere :
    (p q : FilePath) (n : Option Node) (fs : Files)
    → same p q ≡ false
    → (put p n fs).nodes q ≡ fs.nodes q
put-elsewhere p q n fs h = ap (λ (b : Bool). if b then n else fs.nodes q) h

pub remove_at-some :
    (p : FilePath) (n : Node) (fs : Files)
    → fs.nodes p ≡ some n
    → remove_at p fs ≡ (put p none fs, ok tt)
remove_at-some p n fs h =
    ap
      (λ (x : Option Node). elim x as (λ y. Files × Outcome (Unit {0})) [
        | none ↦ (fs, err io)
        | some m ↦ (put p none fs, ok tt)
      ])
      h

pub rename_at-some :
    (p q : FilePath) (n : Node) (fs : Files)
    → fs.nodes p ≡ some n
    → rename_at p q fs ≡ (put q (some n) (put p none fs), ok tt)
rename_at-some p q n fs h =
    ap
      (λ (x : Option Node). elim x as (λ y. Files × Outcome (Unit {0})) [
        | none ↦ (fs, err io)
        | some m ↦ (put q (some m) (put p none fs), ok tt)
      ])
      h

abbrev pub held : Option Bytes → Option Node
held none = none
held (some c) = some (regular c)

pub held-some : (old : Option Bytes) (c : Bytes) → held old ≡ some (regular c) → old ≡ some c
held-some none c h = cc
held-some (some b) c h = cc

-- One destination, its staged file, the content it had and the content it gets.
pub record Member : Type 0 where
  pub target : FilePath
  pub staged : FilePath
  pub old : Option Bytes
  pub new : Bytes

abbrev pub Pending : Member → Files → Type 0
Pending m fs = (fs.nodes m.target ≡ held m.old) × (fs.nodes m.staged ≡ some (regular m.new))

abbrev pub Done : Member → Files → Type 0
Done m fs = (fs.nodes m.target ≡ some (regular m.new)) × (fs.nodes m.staged ≡ none)

abbrev pub OnTheWay : Member → Files → Type 0
OnTheWay m fs = Pending m fs ⊎ Done m fs

module _ (md5 : Bytes → Bytes) where
  abbrev pub hash : Bytes → Bytes
  hash c = digest_hex (md5 c)

  abbrev pub old_hash : Option Bytes → Option Bytes
  old_hash none = none
  old_hash (some c) = some (hash c)

  -- Its two paths differ, and the digest tells its two contents apart.
  abbrev pub IsSound : Member → Type 0
  IsSound m =
      (same m.target m.staged ≡ false)
      × (same m.staged m.target ≡ false)
      × ((c : Bytes) → m.old ≡ some c → bytes_eq (hash c) (hash m.new) ≡ true → c ≡ m.new)

  -- What a change of either file leaves alone.
  abbrev pub IsFrame : Member → (Files → Type 0) → Type 0
  IsFrame m R =
      ((n : Option Node) (fs : Files) → R fs → R (put m.target n fs))
      × ((n : Option Node) (fs : Files) → R fs → R (put m.staged n fs))

  pub View-new :
      (m : Member)
      → IsSound m
      → (fs : Files) (h : Option Bytes) → OnTheWay m fs
      → View md5 (fs.nodes m.target) h
      → hex_eq h (some (hash m.new)) ≡ true
      → fs.nodes m.target ≡ some (regular m.new)
  View-new m s fs h (inr done) v e = done.0
  View-new m s fs h (inl p) (inl (n, q)) e =
      absurd (subst (λ (x : Option Bytes). hex_eq x (some (hash m.new)) ≡ true) q e)
    where
      absurd : false ≡ true → fs.nodes m.target ≡ some (regular m.new)
      absurd f = cc
  View-new m s fs h (inl p) (inr (c, n, q)) e =
      n
      ∙ ap (λ x. some (regular x))
          (s.2 c (held-some m.old c (sym p.0 ∙ n))
            (subst (λ (x : Option Bytes). hex_eq x (some (hash m.new)) ≡ true) q e))

  pub View-old :
      (m : Member) (fs : Files) (h : Option Bytes)
      → OnTheWay m fs
      → View md5 (fs.nodes m.target) h
      → hex_eq h (some (hash m.new)) ≡ false
      → Pending m fs
  View-old m fs h (inl p) v e = p
  View-old m fs h (inr d) (inl (n, q)) e = absurd (sym d.0 ∙ n)
    where
      absurd : ◌≡◌ {A = Option Node} (some (regular m.new)) none → Pending m fs
      absurd f = cc
  View-old m fs h (inr d) (inr (c, n, q)) e = absurd (
      sym (bytes_eq_refl (hash m.new))
      ∙ subst (λ (x : Bytes). bytes_eq (hash x) (hash m.new) ≡ false)
          (regular_inj c m.new (sym n ∙ d.0))
          (subst (λ (x : Option Bytes). hex_eq x (some (hash m.new)) ≡ false) q e))
    where
      regular_inj :
          (a b : Bytes) → ◌≡◌ {A = Option Node} (some (regular a)) (some (regular b)) → a ≡ b
      regular_inj a b f = cc

      absurd : true ≡ false → Pending m fs
      absurd f = cc

  pub Says-remove :
      (m : Member) (R : Files → Type 0) (fs : Files) (n : Node) (E : Files → Type 0)
      → IsSound m
      → IsFrame m R
      → R fs
      → fs.nodes m.target ≡ some (regular m.new)
      → fs.nodes m.staged ≡ some n
      → Says (λ u fs'. Done m fs' × R fs') E (remove_at m.staged fs).0 (remove_at m.staged fs).1
  Says-remove m R fs n E s r x t e =
      subst (λ (y : Files × Outcome (Unit {0})). Says (λ u fs'. Done m fs' × R fs') E y.0 y.1)
        (sym (remove_at-some m.staged n fs e))
        (
          (put-elsewhere m.staged m.target none fs s.1 ∙ t, put-here m.staged none fs),
          r.1 none fs x,
        )

  pub Says-rename :
      (m : Member) (R : Files → Type 0) (fs : Files) (E : Files → Type 0)
      → IsSound m
      → IsFrame m R
      → R fs
      → Pending m fs
      → Says
          (λ u fs'. Done m fs' × R fs')
          E
          (rename_at m.staged m.target fs).0
          (rename_at m.staged m.target fs).1
  Says-rename m R fs E s r x p =
      subst (λ (y : Files × Outcome (Unit {0})). Says (λ u fs'. Done m fs' × R fs') E y.0 y.1)
        (sym (rename_at-some m.staged m.target (regular m.new) fs p.1))
        (
          (
            put-here m.target (some (regular m.new)) (put m.staged none fs),
            put-elsewhere m.target m.staged (some (regular m.new)) (put m.staged none fs) s.0
                ∙ put-here m.staged none fs,
          ),
          r.0 (some (regular m.new)) (put m.staged none fs) (r.1 none fs x),
        )
