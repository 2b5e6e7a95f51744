-- ===== src/Saves/Journal/Sure.antt =====
-- Steps on the files when every call works: they return, and what then holds.
use project_chronos_engine.Prelude.{
  ◌≡◌, refl, sym, ap, subst, Bytes, Bool, true, false, [], Option, none, some, if◌then◌else◌,
}
use project_chronos_engine.Saves.Metadata.{Error, Outcome, ok, err, panicked, died, io, digest_hex}
use project_chronos_engine.Saves.Disk.{
  FilePath, regular, Files, World, Io, after, ◌>>=◌, pure, lift, require, call, look, metadata_of,
  regular_bytes, bytes_of, read_file, regular_file, file_digest, optional_digest,
}
use project_chronos_engine.Saves.Journal.Steps.{Post, Triple}
use project_chronos_engine.Saves.Journal.Members.{held, old_hash}

-- The steps returned, with no failure to come, and `Q` holds.
abbrev pub Returned : {A : Type 0} → (A → Files → Type 0) → World × Outcome A → Type 0
Returned Q (w, ok a) = (w.fates ≡ []) × Q a w.files
Returned Q (w, err e) = ⊥
Returned Q (w, panicked) = ⊥
Returned Q (w, died) = ⊥

abbrev pub calm : Files → World
calm fs = record { files = fs; fates = [] }

abbrev pub Sure : {A : Type 0} → (Files → Type 0) → Io A → (A → Files → Type 0) → Type 0
Sure P m Q = (fs : Files) → P fs → Returned Q (m (calm fs))

pub Sure-then :
    {A B : Type 0} (P : Files → Type 0) (Q : A → Files → Type 0) (R : B → Files → Type 0) (m : Io A)
    (f : A → Io B)
    → Sure P m Q
    → ((a : A) → Sure (Q a) (f a) R)
    → Sure P (m >>= f) R
Sure-then {A = A} {B = B} P Q R m f h k fs p = go (m (calm fs)) (h fs p)
  where
    go : (r : World × Outcome A) → Returned Q r → Returned R (after r f)
    go (w, ok a) (e, q) =
        subst (λ fates. Returned R (f a (record { files = w.files; fates = fates }))) (sym e)
          (k a w.files q)
    go (w, err e) v = absurd v
    go (w, panicked) v = absurd v
    go (w, died) v = absurd v

pub Sure-pre :
    {A : Type 0} (P P' : Files → Type 0) (Q : A → Files → Type 0) (m : Io A)
    → ((fs : Files) → P fs → P' fs)
    → Sure P' m Q
    → Sure P m Q
Sure-pre P P' Q m h s fs p = s fs (h fs p)

pub Sure-if :
    {A : Type 0} (P : Files → Type 0) (Q : A → Files → Type 0) (b : Bool) (m n : Io A)
    → (b ≡ true → Sure P m Q)
    → (b ≡ false → Sure P n Q)
    → Sure P (if b then m else n) Q
Sure-if P Q true m n h k = h refl
Sure-if P Q false m n h k = k refl

pub Sure-lift :
    {A : Type 0} (P : Files → Type 0) (Q : A → Files → Type 0) (o : Outcome A)
    → ((fs : Files) → P fs → (a : A) × (o ≡ ok a) × Q a fs)
    → Sure P (lift o) Q
Sure-lift P Q o h fs p = subst (λ x. Returned Q (calm fs, x)) (sym (h fs p).1) (refl, (h fs p).2)

pub Sure-call :
    {A : Type 0} (P : Files → Type 0) (Q : A → Files → Type 0) (failed : Outcome A)
    (act : Files → Files × Outcome A)
    → ((fs : Files) → P fs → (a : A) × (fs' : Files) × (act fs ≡ (fs', ok a)) × Q a fs')
    → Sure P (call failed act) Q
unfolding call
Sure-call P Q failed act h fs p =
    subst (λ x. Returned Q (calm x.0, x.1)) (sym (h fs p).2) (refl, (h fs p).3)

pub Sure-look :
    {A : Type 0} (P : Files → Type 0) (Q : A → Files → Type 0) (failed : Outcome A)
    (f : Files → Outcome A)
    → ((fs : Files) → P fs → (a : A) × (f fs ≡ ok a) × Q a fs)
    → Sure P (look failed f) Q
unfolding look
Sure-look P Q failed f h =
    Sure-call P Q failed (λ fs. (fs, f fs))
      (λ fs p. ((h fs p).0, fs, ap (λ o. (fs, o)) (h fs p).1, (h fs p).2))

pub Sure-require :
    (P : Files → Type 0) (b : Bool) (e : Error)
    → ((fs : Files) → P fs → b ≡ true)
    → Sure P (require b e) (λ u fs. P fs)
Sure-require P true e h fs p = (refl, p)
Sure-require P false e h fs p = false≢true (h fs p)
  where
    false≢true : false ≡ true → ⊥
    false≢true q = cc

-- What holds after any return holds after this one.
pub Sure-Triple :
    {A : Type 0} (P : Files → Type 0) (T Q : A → Files → Type 0) (E : Files → Type 0) (m : Io A)
    → Sure P m T
    → Triple P m Q E
    → Sure P m Q
Sure-Triple {A = A} P T Q E m h k fs p = go (m (calm fs)) (h fs p) (k (calm fs) p)
  where
    go : (r : World × Outcome A) → Returned T r → Post Q E r → Returned Q r
    go (w, ok a) (e, t) q = (e, q)
    go (w, err e) v q = v
    go (w, panicked) v q = v
    go (w, died) v q = v

-- The steps return `a`, and what held holds.
abbrev pub Gives : {A : Type 0} → (Files → Type 0) → Io A → A → Type 0
Gives P m a = Sure P m (λ b fs. P fs × (b ≡ a))

-- After steps that return `a`, the rest with `a`.
pub Gives-then :
    {A B : Type 0} (P : Files → Type 0) (Q : B → Files → Type 0) (m : Io A) (f : A → Io B) (a : A)
    → Gives P m a
    → Sure P (f a) Q
    → Sure P (m >>= f) Q
Gives-then P Q m f a h k =
    Sure-then P (λ b fs. P fs × (b ≡ a)) Q m f h
      (λ b fs x. subst (λ c. Returned Q (f c (calm fs))) (sym x.1) (k fs x.0))

-- The same, up to a final result `b`.
pub Gives-step :
    {A B : Type 0} (P : Files → Type 0) (b : B) (m : Io A) (f : A → Io B) (a : A)
    → Gives P m a
    → Gives P (f a) b
    → Gives P (m >>= f) b
Gives-step P b m f a h k = Gives-then P (λ c fs. P fs × (c ≡ b)) m f a h k

pub Gives-look :
    {A : Type 0} (P : Files → Type 0) (failed : Outcome A) (f : Files → Outcome A) (a : A)
    → ((fs : Files) → P fs → f fs ≡ ok a)
    → Gives P (look failed f) a
Gives-look P failed f a h =
    Sure-look P (λ b fs. P fs × (b ≡ a)) failed f (λ fs x. (a, h fs x, (x, refl)))

pub Gives-lift :
    {A : Type 0} (P : Files → Type 0) (o : Outcome A) (a : A) → o ≡ ok a → Gives P (lift o) a
Gives-lift P o a h = Sure-lift P (λ b fs. P fs × (b ≡ a)) o (λ fs x. (a, h, (x, refl)))

pub Gives-pure : {A : Type 0} (P : Files → Type 0) (a : A) → Gives P (pure a) a
Gives-pure P a fs x = (refl, (x, refl))

pub Gives-require :
    (P : Files → Type 0) (b : Bool) (e : Error) → b ≡ true → Gives P (require b e) tt
Gives-require P b e h fs x =
    subst (λ c. Returned (λ u fs'. P fs' × (u ≡ tt)) (require c e (calm fs))) (sym h)
      (refl, (x, refl))

abbrev Holds : FilePath → Bytes → (Files → Type 0) → Type 0
Holds p c P = (fs : Files) → P fs → fs.nodes p ≡ some (regular c)

module _ (p : FilePath) (c : Bytes) (P : Files → Type 0) (h : Holds p c P) where
  pub Gives-regular_file : Gives P (regular_file p) c
  unfolding regular_file
  Gives-regular_file =
      Gives-then P (λ b fs. P fs × (b ≡ c)) (metadata_of p) (λ n. lift (regular_bytes n))
        (some (regular c))
        (Gives-look P (err io) (λ fs. ok (fs.nodes p)) (some (regular c)) (λ fs x. ap ok (h fs x)))
        (Gives-lift P (ok c) c refl)

  pub Gives-read_file : Gives P (read_file p) c
  Gives-read_file =
      Gives-look P (err io) (λ fs. bytes_of (fs.nodes p)) c (λ fs x. ap bytes_of (h fs x))

  pub Gives-file_digest : (md5 : Bytes → Bytes) → Gives P (file_digest md5 p) (md5 c)
  unfolding file_digest
  Gives-file_digest md5 =
      Gives-then P (λ b fs. P fs × (b ≡ md5 c)) (regular_file p)
        (λ r. read_file p >>= λ bytes. pure (md5 bytes)) c Gives-regular_file
        (Gives-then P (λ b fs. P fs × (b ≡ md5 c)) (read_file p) (λ bytes. pure (md5 bytes)) c
          Gives-read_file (Gives-pure P (md5 c)))

pub Gives-optional_digest :
    (md5 : Bytes → Bytes) (p : FilePath) (o : Option Bytes) (P : Files → Type 0)
    → ((fs : Files) → P fs → fs.nodes p ≡ held o)
    → Gives P (optional_digest md5 p) (old_hash md5 o)
unfolding optional_digest
Gives-optional_digest md5 p o P h =
    Gives-then P (λ b fs. P fs × (b ≡ old_hash md5 o)) (metadata_of p) _ (held o)
      (Gives-look P (err io) (λ fs. ok (fs.nodes p)) (held o) (λ fs x. ap ok (h fs x))) (tail o h)
  where
    tail :
        (o : Option Bytes)
        → ((fs : Files) → P fs → fs.nodes p ≡ held o)
        → Gives P
            (elim (held o) as (λ x. Io (Option Bytes)) [
              | none ↦ pure none
              | some node ↦ file_digest md5 p >>= λ digest. pure (some (digest_hex digest))
            ])
            (old_hash md5 o)
    tail none k = Gives-pure P none
    tail (some c) k =
        Gives-then P (λ b fs. P fs × (b ≡ some (digest_hex (md5 c)))) (file_digest md5 p)
          (λ digest. pure (some (digest_hex digest))) (md5 c) (Gives-file_digest p c P k md5)
          (Gives-pure P (some (digest_hex (md5 c))))
