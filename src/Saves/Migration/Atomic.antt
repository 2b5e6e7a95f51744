-- ===== src/Saves/Migration/Atomic.antt =====
-- `atomic_write` of save_format.rs under every sequence of failing calls.
use project_chronos_engine.Prelude.{
  ◌≡◌, refl, sym, subst, ◌∙◌, ap, length, length-append, append_assoc, append-nil, ◌++◌, ◌∷◌, ℕ,
  Bytes, false, not, [], Option, none, some, ◌⊎◌, inl, inr,
}
use project_chronos_engine.Psb.Reader.{codes}
use project_chronos_engine.Saves.Metadata.{
  Outcome, ok, err, panicked, died, io, symlinked_directory, not_a_file,
}
use project_chronos_engine.Saves.Disk.{
  FilePath, Node, regular, Files, World, Io, ◌>>=◌, require, look, put, same, is_symlink, Directory,
  absent, present, linked, blocked, created, with_directory, create_dir_all, remove_at, remove_file,
  rename_at, rename, write_file, sync_directory, call, write_from, write_byte, overwrite, special,
}
use project_chronos_engine.Saves.Journal.Steps.{
  Post, Says, Triple, Triple-then, Triple-call, Triple-weaken, Triple-quiet,
}
use project_chronos_engine.Saves.Journal.Members.{
  put-here, put-elsewhere, remove_at-some, rename_at-some,
}
use project_chronos_engine.Saves.Journal.Quiet.{
  Still, require-Still, look-Still, sync_directory-Still,
}
use project_chronos_engine.Saves.Journal.Attempts.{Post-files}
use project_chronos_engine.Saves.Migration.{
  TempName, dropped, owning, flush, create_temp, refuse_special, atomic_write,
}

-- No temporary file is at the path.
abbrev pub IsAside : TempName → FilePath → Type 0
IsAside temp_name p =
    (fs : Files) (parent prefix : Bytes)
    → same (record { parent = parent; name = temp_name fs parent prefix }) p ≡ false

overwrite-end : (c : Bytes) (b : ℕ) → overwrite (length c) b c ≡ c ++ (b ∷ [])
overwrite-end [] b = refl
overwrite-end (x ∷ c) b = ap (λ d. x ∷ d) (overwrite-end c b)

write_byte-end :
    (p : FilePath) (b : ℕ) (c : Bytes) (fs : Files)
    → fs.nodes p ≡ some (regular c)
    → write_byte p (length c) b fs ≡ (put p (some (regular (c ++ (b ∷ [])))) fs, ok tt)
write_byte-end p b c fs h =
    ap
      (λ (x : Option Node). elim x as (λ y. Files × Outcome (Unit {0})) [
        | none ↦ (fs, err io)
        | some n ↦ elim n as (λ y. Files × Outcome (Unit {0})) [
          | regular d ↦ (put p (some (regular (overwrite (length c) b d))) fs, ok tt)
          | special r ↦ (fs, err io)
        ]
      ])
      h
    ∙ ap (λ d. (put p (some (regular d)) fs, ok tt)) (overwrite-end c b)

module _ (temp_name : TempName) (path q : FilePath) (bytes : Bytes) (o n : Option Node)
    (aside : IsAside temp_name path) (aside_q : IsAside temp_name q)
    (apart : same path q ≡ false) where
  abbrev Before : Files → Type 0
  Before fs = (fs.nodes path ≡ o) × (fs.nodes q ≡ n)

  abbrev After : Files → Type 0
  After fs = (fs.nodes path ≡ some (regular bytes)) × (fs.nodes q ≡ n)

  abbrev Either : Files → Type 0
  Either fs = Before fs ⊎ After fs

  -- A path that is neither of the two.
  abbrev IsOther : FilePath → Type 0
  IsOther p = (same p path ≡ false) × (same p q ≡ false)

  Before-put :
      (p : FilePath) (m : Option Node) (fs : Files) → IsOther p → Before fs → Before (put p m fs)
  Before-put p m fs a b = (put-elsewhere p path m fs a.0 ∙ b.0, put-elsewhere p q m fs a.1 ∙ b.1)

  After-put :
      (p : FilePath) (m : Option Node) (fs : Files) → IsOther p → After fs → After (put p m fs)
  After-put p m fs a b = (put-elsewhere p path m fs a.0 ∙ b.0, put-elsewhere p q m fs a.1 ∙ b.1)

  -- A step that leaves the files alone, before the replacement.
  still :
      {A B : Type 0} (R : Files → Type 0) (m : Io A) (f : A → Io B)
      → ((fs : Files) → R fs → Before fs)
      → Still m
      → ((a : A) → Triple R (f a) (λ b fs. After fs) Either)
      → Triple R (m >>= f) (λ b fs. After fs) Either
  still R m f h s k =
      Triple-then R (λ a fs. R fs) (λ b fs. After fs) Either m f
        (Triple-weaken R (λ a fs. R fs) (λ a fs. R fs) R Either m (Triple-quiet R m s.quiet)
          (λ a fs x. x) (λ fs x. inl (h fs x)))
        k

  created-Says :
      (d : Directory) (fs : Files) (dirs : Bytes → Directory)
      → Before fs
      → Says
          (λ (u : Unit {0}) fs'. Before fs')
          Either
          (record { nodes = fs.nodes; directories = dirs })
          (created d)
  created-Says absent fs dirs b = b
  created-Says present fs dirs b = b
  created-Says linked fs dirs b = b
  created-Says blocked fs dirs b = inl b

  Triple-create_dir_all :
      (parent : Bytes) → Triple Before (create_dir_all parent) (λ u fs. Before fs) Either
  Triple-create_dir_all parent =
      Triple-call Before (λ u fs. Before fs) Either (err io) _
        (λ fs b. created-Says (fs.directories parent) fs (with_directory parent fs) b)
        (λ fs b. inl b) (λ fs b. inl b)

  abbrev Staged : FilePath → Bytes → Files → Type 0
  Staged p c fs = Before fs × (fs.nodes p ≡ some (regular c)) × IsOther p

  Triple-create_temp :
      (parent prefix : Bytes)
      → Triple Before (create_temp temp_name parent prefix) (λ p fs. Staged p [] fs) Either
  unfolding create_temp
  Triple-create_temp parent prefix =
      Triple-call Before (λ p fs. Staged p [] fs) Either (err io) _
        (λ fs b.
          let other = both (aside fs parent prefix) (aside_q fs parent prefix) in
          let p : FilePath = record { parent = parent; name = temp_name fs parent prefix } in
          (Before-put p (some (regular [])) fs other b, put-here p (some (regular [])) fs, other))
        (λ fs b. inl b) (λ fs b. inl b)
    where
      both : {X Y : Type 0} → X → Y → X × Y
      both x y = (x, y)

  -- The next byte, behind those that are there.
  Triple-write_byte :
      (p : FilePath) (b : ℕ) (c : Bytes)
      → Triple
          (Staged p c)
          (call (err io) (write_byte p (length c) b))
          (λ u fs. Staged p (c ++ (b ∷ [])) fs)
          Either
  Triple-write_byte p b c =
      Triple-call (Staged p c) (λ u fs. Staged p (c ++ (b ∷ [])) fs) Either (err io) _
        (λ fs s.
          subst
            (λ (y : Files × Outcome (Unit {0})).
              Says (λ u fs'. Staged p (c ++ (b ∷ [])) fs') Either y.0 y.1)
            (sym (write_byte-end p b c fs s.1))
            (
              Before-put p (some (regular (c ++ (b ∷ [])))) fs s.2 s.0,
              put-here p (some (regular (c ++ (b ∷ [])))) fs,
              s.2,
            ))
        (λ fs s. inl s.0) (λ fs s. inl s.0)

  Triple-write_from :
      (p : FilePath) (rest c : Bytes)
      → Triple (Staged p c) (write_from p (length c) rest) (λ u fs. Staged p (c ++ rest) fs) Either
  unfolding write_from
  Triple-write_from p [] c = λ w s. subst (λ d. Staged p d w.files) (sym (append-nil c)) s
  Triple-write_from p (b ∷ rest) c =
      Triple-then (Staged p c) (λ u fs. Staged p (c ++ (b ∷ [])) fs)
        (λ u fs. Staged p (c ++ (b ∷ rest)) fs) Either (call (err io) (write_byte p (length c) b)) _
        (Triple-write_byte p b c)
        (λ u.
          subst
            (λ n.
              Triple (Staged p (c ++ (b ∷ []))) (write_from p n rest)
                (λ u fs. Staged p (c ++ (b ∷ rest)) fs) Either)
            (length-append c (b ∷ []))
            (subst
              (λ d.
                Triple (Staged p (c ++ (b ∷ []))) (write_from p (length (c ++ (b ∷ []))) rest)
                  (λ u fs. Staged p d fs) Either)
              (append_assoc c (b ∷ []) rest) (Triple-write_from p rest (c ++ (b ∷ [])))))

  Triple-write_file :
      (p : FilePath) → Triple (Staged p []) (write_file p bytes) (λ u fs. Staged p bytes fs) Either
  Triple-write_file p = Triple-write_from p bytes []

  Triple-persist :
      (p : FilePath) → Triple (Staged p bytes) (rename p path) (λ u fs. After fs) Either
  Triple-persist p =
      Triple-call (Staged p bytes) (λ u fs. After fs) Either (err io) (rename_at p path)
        (λ fs s.
          subst (λ (y : Files × Outcome (Unit {0})). Says (λ u fs'. After fs') Either y.0 y.1)
            (sym (rename_at-some p path (regular bytes) fs s.1))
            (
              put-here path (some (regular bytes)) (put p none fs),
              put-elsewhere path q (some (regular bytes)) (put p none fs) apart
                  ∙ (put-elsewhere p q none fs s.2.1 ∙ s.0.1),
            ))
        (λ fs s. inl s.0) (λ fs s. inl s.0)

  abbrev body : FilePath → Io (Unit {0})
  body p = do written ← write_file p bytes; flushed ← flush; rename p path

  Triple-body : (p : FilePath) → Triple (Staged p []) (body p) (λ u fs. After fs) Either
  Triple-body p =
      Triple-then (Staged p []) (λ u fs. Staged p bytes fs) (λ u fs. After fs) Either
        (write_file p bytes) _ (Triple-write_file p)
        (λ u.
          still (Staged p bytes) flush (λ v. rename p path) (λ fs s. s.0)
            (look-Still (err io) (λ fs. ok tt)) (λ v. Triple-persist p))

  removed : (p : FilePath) → IsOther p → Triple Either (remove_file p) (λ u fs. Either fs) Either
  removed p other =
      Triple-call Either (λ u fs. Either fs) Either (err io) (remove_at p)
        (λ fs e. gone fs (fs.nodes p) refl e) (λ fs e. e) (λ fs e. e)
    where
      gone :
          (fs : Files) (m : Option Node)
          → fs.nodes p ≡ m
          → Either fs
          → Says (λ (u : Unit {0}) fs'. Either fs') Either (remove_at p fs).0 (remove_at p fs).1
      gone fs none h e =
          subst
            (λ (x : Option Node).
              Says (λ (u : Unit {0}) fs'. Either fs') Either
                (elim x as (λ y. Files × Outcome (Unit {0})) [
                  | none ↦ (fs, err io)
                  | some m ↦ (put p none fs, ok tt)
                ]).0
                (elim x as (λ y. Files × Outcome (Unit {0})) [
                  | none ↦ (fs, err io)
                  | some m ↦ (put p none fs, ok tt)
                ]).1)
            (sym h) e
      gone fs (some m) h e =
          subst (λ (y : Files × Outcome (Unit {0})). Says (λ u fs'. Either fs') Either y.0 y.1)
            (sym (remove_at-some p m fs h)) (kept e)
        where
          kept : Either fs → Either (put p none fs)
          kept (inl b) = inl (Before-put p none fs other b)
          kept (inr a) = inr (After-put p none fs other a)

  Post-dropped :
      (p : FilePath)
      → IsOther p
      → (r : World × Outcome (Unit {0})) → Post (λ u fs. After fs) Either r
      → Post (λ u fs. After fs) Either (dropped p r)
  Post-dropped p other (w, ok u) h = h
  Post-dropped p other (w, err e) h = Post-files Either (remove_file p w) (removed p other w h)
  Post-dropped p other (w, panicked) h = Post-files Either (remove_file p w) (removed p other w h)
  Post-dropped p other (w, died) h = h

  Triple-owning :
      (p : FilePath) → Triple (Staged p []) (owning p (body p)) (λ u fs. After fs) Either
  Triple-owning p w s = Post-dropped p s.2 (body p w) (Triple-body p w s)

  Triple-atomic_write : Triple Before (atomic_write temp_name path bytes) (λ u fs. After fs) Either
  unfolding atomic_write
  Triple-atomic_write =
      still Before (is_symlink path.parent) _ (λ fs b. b) (look-Still (ok false) _)
        (λ linked.
          still Before (require (not linked) symlinked_directory) _ (λ fs b. b)
            (require-Still (not linked) symlinked_directory)
            (λ u.
              Triple-then Before (λ v fs. Before fs) (λ v fs. After fs) Either
                (create_dir_all path.parent) _ (Triple-create_dir_all path.parent)
                (λ made.
                  still Before
                    (look (ok false) (λ fs. ok (refuse_special temp_name (fs.nodes path)))) _
                    (λ fs b. b)
                    (look-Still (ok false) (λ fs. ok (refuse_special temp_name (fs.nodes path))))
                    (λ refused.
                      still Before (require (not refused) not_a_file) _ (λ fs b. b)
                        (require-Still (not refused) not_a_file)
                        (λ v.
                          Triple-then Before (λ p fs. Staged p [] fs) (λ x fs. After fs) Either
                            (create_temp temp_name path.parent (codes ".tmp")) _
                            (Triple-create_temp path.parent (codes ".tmp"))
                            (λ p.
                              Triple-then (Staged p []) (λ x fs. After fs) (λ x fs. After fs) Either
                                (owning p (body p)) (λ x. sync_directory path.parent)
                                (Triple-owning p)
                                (λ x.
                                  Triple-weaken After (λ y fs. After fs) (λ y fs. After fs) After
                                    Either (sync_directory path.parent)
                                    (Triple-quiet After (sync_directory path.parent)
                                      (sync_directory-Still path.parent).quiet)
                                    (λ y fs z. z) (λ fs z. inr z))))))))

-- Let a temporary file be neither `path` nor `q`, and these two be apart. Whatever calls fail and wherever the process
-- dies, `atomic_write` leaves at `path` what was there or the new bytes, the new bytes where it returns, and leaves `q`
-- as it is.
pub atomic_write-Post :
    (temp_name : TempName) (path q : FilePath) (bytes : Bytes) (w : World)
    → IsAside temp_name path
    → IsAside temp_name q
    → same path q ≡ false
    → Post
        (λ u fs. (fs.nodes path ≡ some (regular bytes)) × (fs.nodes q ≡ w.files.nodes q))
        (λ fs.
          ((fs.nodes path ≡ w.files.nodes path) × (fs.nodes q ≡ w.files.nodes q))
          ⊎ ((fs.nodes path ≡ some (regular bytes)) × (fs.nodes q ≡ w.files.nodes q)))
        (atomic_write temp_name path bytes w)
atomic_write-Post temp_name path q bytes w aside aside_q apart =
    Triple-atomic_write temp_name path q bytes (w.files.nodes path) (w.files.nodes q) aside aside_q
      apart w (refl, refl)
