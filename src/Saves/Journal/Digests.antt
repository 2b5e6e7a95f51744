-- ===== src/Saves/Journal/Digests.antt =====
-- `regular_file`, `file_digest` and `optional_digest` of save_format.rs: they only look, and what they say.
use project_chronos_engine.Prelude.{◌≡◌, refl, ap, Bytes, Option, none, some, ◌⊎◌, inl, inr}
use project_chronos_engine.Saves.Metadata.{Outcome, ok, err, io, digest_hex}
use project_chronos_engine.Saves.Disk.{
  FilePath, Node, regular, special, Files, Io, ◌>>=◌, pure, lift, metadata_of, regular_bytes,
  bytes_of, read_file, regular_file, file_digest, optional_digest,
}
use project_chronos_engine.Saves.Journal.Steps.{
  Triple, Triple-then, IsQuiet, >>=-IsQuiet, look-IsQuiet, Triple-quiet, Triple-look,
}

-- What `optional_digest` says of a path.
abbrev pub View : (Bytes → Bytes) → Option Node → Option Bytes → Type 0
View md5 n h =
    ((n ≡ none) × (h ≡ none))
    ⊎ ((c : Bytes) × (n ≡ some (regular c)) × (h ≡ some (digest_hex (md5 c))))

module _ (md5 : Bytes → Bytes) (p : FilePath) where
  pub regular_file-IsQuiet : IsQuiet (regular_file p)
  unfolding regular_file
  regular_file-IsQuiet =
      >>=-IsQuiet (metadata_of p) (λ n. lift (regular_bytes n))
        (look-IsQuiet (err io) (λ fs. ok (fs.nodes p))) (λ n w. refl)

  pub file_digest-IsQuiet : IsQuiet (file_digest md5 p)
  unfolding file_digest
  file_digest-IsQuiet =
      >>=-IsQuiet (regular_file p) (λ c. read_file p >>= λ bytes. pure (md5 bytes))
        regular_file-IsQuiet
        (λ c.
          >>=-IsQuiet (read_file p) (λ bytes. pure (md5 bytes))
            (look-IsQuiet (err io) (λ fs. bytes_of (fs.nodes p))) (λ bytes w. refl))

  pub bytes_of-ok : (n : Option Node) (c : Bytes) → bytes_of n ≡ ok c → n ≡ some (regular c)
  bytes_of-ok none c e = cc
  bytes_of-ok (some (regular b)) c e = cc
  bytes_of-ok (some (special r)) c e = cc

  Triple-file_digest :
      (P : Files → Type 0)
      → Triple P
          (file_digest md5 p)
          (λ d fs. P fs × ((c : Bytes) × (fs.nodes p ≡ some (regular c)) × (d ≡ md5 c)))
          P
  unfolding file_digest
  Triple-file_digest P =
      Triple-then P (λ c fs. P fs)
        (λ d fs. P fs × ((c : Bytes) × (fs.nodes p ≡ some (regular c)) × (d ≡ md5 c))) P
        (regular_file p) (λ c. read_file p >>= λ bytes. pure (md5 bytes))
        (Triple-quiet P (regular_file p) regular_file-IsQuiet)
        (λ c.
          Triple-then P (λ bytes fs. P fs × (bytes_of (fs.nodes p) ≡ ok bytes))
            (λ d fs. P fs × ((c : Bytes) × (fs.nodes p ≡ some (regular c)) × (d ≡ md5 c))) P
            (read_file p) (λ bytes. pure (md5 bytes))
            (Triple-look P io (λ fs. bytes_of (fs.nodes p)))
            (λ bytes w h. (h.0, (bytes, bytes_of-ok (w.files.nodes p) bytes h.1, refl))))

  pub Triple-optional_digest :
      (P : Files → Type 0)
      → Triple P (optional_digest md5 p) (λ h fs. P fs × View md5 (fs.nodes p) h) P
  unfolding optional_digest
  Triple-optional_digest P =
      Triple-then P (λ n fs. P fs × (◌≡◌ {A = Outcome (Option Node)} (ok (fs.nodes p)) (ok n)))
        (λ h fs. P fs × View md5 (fs.nodes p) h) P (metadata_of p)
        (λ n. elim n as (λ x. Io (Option Bytes)) [
          | none ↦ pure none
          | some node ↦ file_digest md5 p >>= λ digest. pure (some (digest_hex digest))
        ])
        (Triple-look P io (λ fs. ok (fs.nodes p))) tail
    where
      tail :
          (n : Option Node)
          → Triple
              (λ fs. P fs × (◌≡◌ {A = Outcome (Option Node)} (ok (fs.nodes p)) (ok n)))
              (elim n as (λ x. Io (Option Bytes)) [
                | none ↦ pure none
                | some node ↦ file_digest md5 p >>= λ digest. pure (some (digest_hex digest))
              ])
              (λ h fs. P fs × View md5 (fs.nodes p) h)
              P
      tail none w h = (h.0, inl (cc, refl))
      tail (some node) w h =
          Triple-then P
            (λ d fs. P fs × ((c : Bytes) × (fs.nodes p ≡ some (regular c)) × (d ≡ md5 c)))
            (λ x fs. P fs × View md5 (fs.nodes p) x) P (file_digest md5 p)
            (λ digest. pure (some (digest_hex digest))) (Triple-file_digest P)
            (λ d w' k. (k.0, inr (k.1.0, k.1.1, ap (λ x. some (digest_hex x)) k.1.2))) w h.0

  pub optional_digest-IsQuiet : IsQuiet (optional_digest md5 p)
  unfolding optional_digest
  optional_digest-IsQuiet =
      >>=-IsQuiet (metadata_of p)
        (λ n. elim n as (λ x. Io (Option Bytes)) [
          | none ↦ pure none
          | some node ↦ file_digest md5 p >>= λ digest. pure (some (digest_hex digest))
        ])
        (look-IsQuiet (err io) (λ fs. ok (fs.nodes p))) tail
    where
      tail :
          (n : Option Node)
          → IsQuiet (elim n as (λ x. Io (Option Bytes)) [
            | none ↦ pure none
            | some node ↦ file_digest md5 p >>= λ digest. pure (some (digest_hex digest))
          ])
      tail none w = refl
      tail (some node) w =
          >>=-IsQuiet (file_digest md5 p) (λ digest. pure (some (digest_hex digest)))
            file_digest-IsQuiet (λ d w. refl) w
