-- ===== src/Saves/Migration/Slots.antt =====
-- editor/crates/m2-publish/src/save_format.rs: `retag_state_pair`, `import_state_pair` and `validate_canonical_states`.
use project_chronos_engine.Prelude.{
  ℕ, zero, suc, ◌+◌, Bytes, Bool, true, false, not, ◌&&◌, ◌||◌, List, [], ◌∷◌, ◌++◌, Option, none,
  some, length, ◌==◌, if◌then◌else◌, bytes_eq,
}
use project_chronos_engine.Psb.Reader.{codes}
use project_chronos_engine.Saves.Metadata.{
  Outcome, ok, err, not_regular, wrong_owner, invalid_identity, not_a_directory, incomplete_slot,
  other_layout, undeclared_tag, valid_tag,
}
use project_chronos_engine.Saves.Disk.{
  FilePath, Node, regular, special, nothing, to_file, to_other, Directory, absent, present, linked,
  blocked, Io, ◌>>=◌, pure, lift, fail, require, look, metadata_of, regular_file,
}
use project_chronos_engine.Saves.Journal.{
  StateInfo, Library, validate_state_pair, recover_state_pair,
}
use project_chronos_engine.Saves.Migration.{TempName, prepare_pair}

module _ (lib : Library) (temp_name : TempName) where
  unfoldable pub retag_state_pair : FilePath → FilePath → Bytes → Bytes → Io Bool
  retag_state_pair d m old_tag new_tag = do
    recovered ← recover_state_pair lib d m
    info ← validate_state_pair lib d m
    if bytes_eq info.region_tag new_tag then pure false else (do
      owned ← require (bytes_eq info.region_tag old_tag) wrong_owner
      prepared ← prepare_pair lib temp_name d m d m new_tag
      finished ← recover_state_pair lib d m
      pure true)

  -- `is_file()`, which follows links.
  abbrev is_regular : Option Node → Bool
  is_regular none = false
  is_regular (some (regular c)) = true
  is_regular (some (special nothing)) = false
  is_regular (some (special to_file)) = true
  is_regular (some (special to_other)) = false

  -- Whether the destination is there already with the same contents and tag.
  unfoldable pub already_there : FilePath → FilePath → Bytes → StateInfo → Io Bool
  already_there dst_data dst_meta destination_tag info = do
    data_file ← look (ok false) (λ fs. ok (is_regular (fs.nodes dst_data)))
    if data_file
        then (do
          meta_file ← look (ok false) (λ fs. ok (is_regular (fs.nodes dst_meta)))
          if meta_file
              then (do
                c ← regular_file dst_data
                if length c == 0 then pure false else (do
                  previous ← validate_state_pair lib dst_data dst_meta
                  pure (
                      bytes_eq previous.digest info.digest
                      && bytes_eq previous.region_tag destination_tag)))
              else pure false)
        else pure false

  unfoldable pub import_state_pair :
      FilePath → FilePath → FilePath → FilePath → Bytes → Bytes → Io Bool
  import_state_pair src_data src_meta dst_data dst_meta expected_tag destination_tag = do
    recovered ← recover_state_pair lib dst_data dst_meta
    info ← validate_state_pair lib src_data src_meta
    owned ← require (bytes_eq info.region_tag expected_tag) wrong_owner
    same_pair ← already_there dst_data dst_meta destination_tag info
    if same_pair then pure false else (do
      prepared ← prepare_pair lib temp_name src_data src_meta dst_data dst_meta destination_tag
      finished ← recover_state_pair lib dst_data dst_meta
      pure true)

  abbrev slot_data : Bytes → ℕ → FilePath
  slot_data saves slot = record {
    parent = saves;
    name = codes "state_" ++ ((48 + slot) ∷ codes ".bin");
  }

  abbrev slot_meta : Bytes → ℕ → FilePath
  slot_meta saves slot = record {
    parent = saves;
    name = codes "state_" ++ ((48 + slot) ∷ codes "_meta.bin");
  }

  abbrev size_of : Option Node → Outcome (Option ℕ)
  size_of none = ok none
  size_of (some (regular c)) = ok (some (length c))
  size_of (some (special r)) = err not_regular

  abbrev is_void : Option ℕ → Bool
  is_void none = true
  is_void (some n) = n == 0

  abbrev is_tag : Bytes → Option Bytes → Bool
  is_tag tag none = false
  is_tag tag (some t) = bytes_eq t tag

  abbrev tag_among : List Bytes → Bytes → Bool
  tag_among [] tag = false
  tag_among (t ∷ ts) tag = bytes_eq t tag || tag_among ts tag

  -- What a slot asks for: the tag to replace, if any.
  unfoldable pub check_slot : Bytes → Bytes → Option Bytes → List Bytes → ℕ → ℕ → Io (Option Bytes)
  check_slot saves native_tag legacy_tag alternate_tags expected_segment slot = do
    recovered ← recover_state_pair lib (slot_data saves slot) (slot_meta saves slot)
    data_node ← metadata_of (slot_data saves slot)
    data_size ← lift (size_of data_node)
    meta_node ← metadata_of (slot_meta saves slot)
    meta_size ← lift (size_of meta_node)
    if is_void data_size && is_void meta_size then pure none else (do
      complete ← require (not (is_void data_size || is_void meta_size)) incomplete_slot
      state ← validate_state_pair lib (slot_data saves slot) (slot_meta saves slot)
      layout ← require (state.segment_type == expected_segment) other_layout
      if bytes_eq state.region_tag native_tag || tag_among alternate_tags state.region_tag
          then pure none
          else if is_tag state.region_tag legacy_tag
          then pure (some state.region_tag)
          else fail undeclared_tag)

  -- `for slot in 0..4`; `rounds` are left.
  unfoldable pub check_slots :
      Bytes → Bytes → Option Bytes → List Bytes → ℕ → ℕ → ℕ → Io (List (ℕ × Bytes))
  check_slots saves native_tag legacy_tag alternate_tags expected_segment zero slot = pure []
  check_slots saves native_tag legacy_tag alternate_tags expected_segment (suc rounds) slot = do
    retag ← check_slot saves native_tag legacy_tag alternate_tags expected_segment slot
    rest ← check_slots saves native_tag legacy_tag alternate_tags expected_segment rounds (slot + 1)
    pure (elim retag [ none ↦ rest | some tag ↦ (slot, tag) ∷ rest ])

  unfoldable pub retag_all : Bytes → Bytes → List (ℕ × Bytes) → Io ℕ
  retag_all saves native_tag [] = pure 0
  retag_all saves native_tag ((slot, old) ∷ retags) = do
    changed ← retag_state_pair (slot_data saves slot) (slot_meta saves slot) old native_tag
    rest ← retag_all saves native_tag retags
    pure (if changed then rest + 1 else rest)

  abbrev no_directory : Directory → Bool
  no_directory absent = false
  no_directory present = false
  no_directory linked = true
  no_directory blocked = true

  unfoldable pub validate_canonical_states : Bytes → Bytes → Option Bytes → List Bytes → ℕ → Io ℕ
  validate_canonical_states saves native_tag legacy_tag alternate_tags expected_segment = do
    identity ←
        require (valid_tag native_tag && (expected_segment == 11 || expected_segment == 12))
          invalid_identity
    odd ← look (ok false) (λ fs. ok (no_directory (fs.directories saves)))
    directory ← require (not odd) not_a_directory
    retags ← check_slots saves native_tag legacy_tag alternate_tags expected_segment 4 0
    retag_all saves native_tag retags
