-- ===== src/Saves/Journal/Valid.antt =====
-- The checks of save_format.rs on a pair, when every call works.
use project_chronos_engine.Prelude.{
  ℕ, ◌≡◌, refl, ap, Bytes, Bool, true, false, ◌||◌, Option, none, some, length, take, drop, leb,
  bytes_eq, bytes_eq_refl,
}
use project_chronos_engine.Saves.Metadata.{
  ok, io, metadata_too_large, digest_mismatch, changed_during_migration, segment_of_size,
  tag_of_header, metadata_digest_offset,
}
use project_chronos_engine.Saves.Disk.{
  FilePath, regular, Files, lift, require, read_file, regular_file, file_digest, optional_digest,
}
use project_chronos_engine.Saves.Journal.{
  Library, hex_eq, inspect_state, validate_data_digest, validate_state_pair, check_target,
}
use project_chronos_engine.Saves.Journal.Members.{Member, Pending, Done, hash, old_hash, held}
use project_chronos_engine.Saves.Journal.Sure.{
  Gives, Gives-step, Gives-lift, Gives-pure, Gives-require, Gives-regular_file, Gives-read_file,
  Gives-file_digest, Gives-optional_digest,
}

-- A state and the metadata that carries its digest.
pub record ValidPair (lib : Library) (state metadata : Bytes) : Type 0 where
  pub segment : ℕ
  pub tag : Bytes
  pub at : ℕ
  pub has_segment : segment_of_size (length state) ≡ ok segment
  pub has_header : leb 95 (length state) ≡ true
  pub has_tag : tag_of_header lib.utf8 (take 95 state) ≡ ok tag
  pub is_small : leb (length metadata) 4096 ≡ true
  pub has_digest : metadata_digest_offset metadata ≡ ok at
  pub agrees : bytes_eq (take 16 (drop at metadata)) (lib.md5 state) ≡ true

module _ (lib : Library) (c b : Bytes) (v : ValidPair lib c b) (d m : FilePath) (P : Files → Type 0)
    (hd : (fs : Files) → P fs → fs.nodes d ≡ some (regular c))
    (hm : (fs : Files) → P fs → fs.nodes m ≡ some (regular b)) where
  Gives-inspect_state : Gives P (inspect_state lib d) (v.tag, v.segment)
  unfolding inspect_state
  Gives-inspect_state =
      Gives-step P (v.tag, v.segment) (regular_file d) _ c (Gives-regular_file d c P hd)
        (Gives-step P (v.tag, v.segment) (lift (segment_of_size (length c))) _ v.segment
          (Gives-lift P (segment_of_size (length c)) v.segment v.has_segment)
          (Gives-step P (v.tag, v.segment) (read_file d) _ c (Gives-read_file d c P hd)
            (Gives-step P (v.tag, v.segment) (require (leb 95 (length c)) io) _ tt
              (Gives-require P (leb 95 (length c)) io v.has_header)
              (Gives-step P (v.tag, v.segment) (lift (tag_of_header lib.utf8 (take 95 c))) _ v.tag
                (Gives-lift P (tag_of_header lib.utf8 (take 95 c)) v.tag v.has_tag)
                (Gives-pure P (v.tag, v.segment))))))

  Gives-validate_data_digest : Gives P (validate_data_digest lib d m) (lib.md5 c)
  unfolding validate_data_digest
  Gives-validate_data_digest =
      Gives-step P (lib.md5 c) (regular_file m) _ b (Gives-regular_file m b P hm) (
        Gives-step P (lib.md5 c) (require (leb (length b) 4096) metadata_too_large) _ tt
          (Gives-require P (leb (length b) 4096) metadata_too_large v.is_small)
          (Gives-step P (lib.md5 c) (read_file m) _ b (Gives-read_file m b P hm) (
            Gives-step P (lib.md5 c) (lift (metadata_digest_offset b)) _ v.at
              (Gives-lift P (metadata_digest_offset b) v.at v.has_digest)
              (Gives-step P (lib.md5 c) (file_digest lib.md5 d) _ (lib.md5 c)
                (Gives-file_digest d c P hd lib.md5)
                (Gives-step P (lib.md5 c)
                  (require (bytes_eq (take 16 (drop v.at b)) (lib.md5 c)) digest_mismatch) _ tt
                  (Gives-require P (bytes_eq (take 16 (drop v.at b)) (lib.md5 c)) digest_mismatch
                    v.agrees)
                  (Gives-pure P (lib.md5 c)))))))

  -- A valid pair passes, with its tag, its segment type and its digest.
  pub Gives-validate_state_pair :
      Gives P
        (validate_state_pair lib d m)
        (record { region_tag = v.tag; segment_type = v.segment; digest = lib.md5 c })
  unfolding validate_state_pair
  Gives-validate_state_pair =
      Gives-step P (record { region_tag = v.tag; segment_type = v.segment; digest = lib.md5 c })
        (inspect_state lib d) _ (v.tag, v.segment) Gives-inspect_state
        (Gives-step P (record { region_tag = v.tag; segment_type = v.segment; digest = lib.md5 c })
          (validate_data_digest lib d m) _ (lib.md5 c) Gives-validate_data_digest
          (Gives-pure P
            (record { region_tag = v.tag; segment_type = v.segment; digest = lib.md5 c })))

pub hex_eq_refl : (o : Option Bytes) → hex_eq o o ≡ true
hex_eq_refl none = refl
hex_eq_refl (some a) = bytes_eq_refl a

-- What a destination on its way holds: its old content, or its new.
abbrev pub Holding : Member → Option Bytes → Files → Type 0
Holding m o fs = fs.nodes m.target ≡ held o

module _ (lib : Library) (m : Member) (P : Files → Type 0) where
  check :
      (o : Option Bytes)
      → ((fs : Files) → P fs → fs.nodes m.target ≡ held o)
      → (hex_eq (old_hash lib.md5 o) (old_hash lib.md5 m.old)
          || hex_eq (old_hash lib.md5 o) (some (hash lib.md5 m.new)))
        ≡ true
      → Gives P (check_target lib m.target (old_hash lib.md5 m.old) (hash lib.md5 m.new)) tt
  unfolding check_target
  check o h e =
      Gives-step P tt (optional_digest lib.md5 m.target) _ (old_hash lib.md5 o)
        (Gives-optional_digest lib.md5 m.target o P h)
        (Gives-require P
          (hex_eq (old_hash lib.md5 o) (old_hash lib.md5 m.old)
            || hex_eq (old_hash lib.md5 o) (some (hash lib.md5 m.new)))
          changed_during_migration e)

  pub Gives-check-Pending :
      ((fs : Files) → P fs → Pending m fs)
      → Gives P (check_target lib m.target (old_hash lib.md5 m.old) (hash lib.md5 m.new)) tt
  Gives-check-Pending h =
      check m.old (λ fs p. (h fs p).0)
        (ap (λ b. b || hex_eq (old_hash lib.md5 m.old) (some (hash lib.md5 m.new)))
          (hex_eq_refl (old_hash lib.md5 m.old)))

  pub Gives-check-Done :
      ((fs : Files) → P fs → Done m fs)
      → Gives P (check_target lib m.target (old_hash lib.md5 m.old) (hash lib.md5 m.new)) tt
  Gives-check-Done h =
      check (some m.new) (λ fs p. (h fs p).0)
        (or_true (hex_eq (some (hash lib.md5 m.new)) (old_hash lib.md5 m.old))
          (bytes_eq (hash lib.md5 m.new) (hash lib.md5 m.new)) (bytes_eq_refl (hash lib.md5 m.new)))
    where
      or_true : (a b : Bool) → b ≡ true → (a || b) ≡ true
      or_true true b e = refl
      or_true false b e = e
