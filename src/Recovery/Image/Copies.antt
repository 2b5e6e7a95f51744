-- ===== src/Recovery/Image/Copies.antt =====
-- recovery/crates/pce-recovery/src/image.rs: the two loops that copy an image, `copy_image` and `load_image`.
use project_chronos_engine.Prelude.{
  ℕ, zero, suc, ◌+◌, ◌-◌, ◌*◌, ◌^◌, min, Bytes, Bool, true, false, List, [], ◌∷◌, ◌++◌, Option,
  length, ltb, if◌then◌else◌,
}
use project_chronos_engine.Recovery.Image.{
  ImageEntry, io, zip, size_mismatch, selection_changed, too_large, Outcome, ok, err, stuck, ◌>>=◌,
  ok_or, LocalFile, Source, raw, zipped, open_source, check_size, candidates, select_entry,
}

-- What `Read::read` gives into a buffer: the bytes, none of them at the end.
pub data Got : Type 0 where
  interrupted failed : Got
  got : Bytes → Got

abbrev pub buffer_size : ℕ
buffer_size = 64 * 1024

-- `(size - transferred).saturating_add(1).min(buffer.len())`
abbrev pub limit_of : ℕ → ℕ → ℕ
limit_of size transferred = min (min (size - transferred + 1) (2 ^ 64 - 1)) buffer_size

-- One round of a loop: again, the end with a result, or one chunk further.
pub data Round (S : Type 0) : Type 0 where
  again : S → Round S
  ended : Outcome ℕ → Round S
  chunk : S → Bytes → ℕ → Round S

module _ {S : Type 0} (read : S → ℕ → S × Got) where
  abbrev pub round_of : ℕ → ℕ → S × Got → Round S
  round_of size transferred (s, interrupted) = again s
  round_of size transferred (s, failed) = ended (err io)
  round_of size transferred (s, got []) =
      ended (do checked ← check_size transferred size false; ok transferred)
  round_of size transferred (s, got (b ∷ bs)) =
      if ltb size (transferred + length (b ∷ bs))
      then ended (err (size_mismatch (transferred + length (b ∷ bs)) size))
      else chunk s (b ∷ bs) (transferred + length (b ∷ bs))

  -- A round of `copy_verified` before it writes.
  unfoldable pub round : ℕ → ℕ → S → Round S
  round size transferred s = round_of size transferred (read s (limit_of size transferred))

  -- `write` gives the writer after `write_all`, and whether it succeeded; the list has the calls of `on_progress`,
  -- the last one first. A round is followed by `next`, the rounds to come.
  abbrev pub wrote :
      {W : Type 0}
      → (S → W → ℕ → List ℕ → Outcome ℕ × W × List ℕ)
      → S
      → W × Bool
      → ℕ
      → List ℕ
      → Outcome ℕ × W × List ℕ
  wrote next s (w, true) actual progress = next s w actual (actual ∷ progress)
  wrote next s (w, false) actual progress = (err io, w, progress)

  abbrev pub copied :
      {W : Type 0}
      → (W → Bytes → W × Bool)
      → (S → W → ℕ → List ℕ → Outcome ℕ × W × List ℕ)
      → Round S
      → W
      → ℕ
      → List ℕ
      → Outcome ℕ × W × List ℕ
  copied write next (again s) w transferred progress = next s w transferred progress
  copied write next (ended o) w transferred progress = (o, w, progress)
  copied write next (chunk s bytes actual) w transferred progress =
      wrote next s (write w bytes) actual progress

  unfoldable pub copy_loop :
      {W : Type 0} → (W → Bytes → W × Bool) → ℕ → ℕ → S → W → ℕ → List ℕ → Outcome ℕ × W × List ℕ
  copy_loop write zero size s w transferred progress = (stuck, w, progress)
  copy_loop write (suc fuel) size s w transferred progress =
      copied write (copy_loop write fuel size) (round size transferred s) w transferred progress

  unfoldable pub copy_verified :
      {W : Type 0} → (W → Bytes → W × Bool) → ℕ → ℕ → S → W → Outcome ℕ × W × List ℕ
  copy_verified write fuel size s w = copy_loop write fuel size s w 0 (0 ∷ [])

  abbrev pub read_round_of : ℕ → ℕ → S × Got → Round S
  read_round_of size loaded_so_far (s, interrupted) = again s
  read_round_of size loaded_so_far (s, failed) = ended (err io)
  read_round_of size loaded_so_far (s, got []) =
      ended (do checked ← check_size loaded_so_far size false; ok loaded_so_far)
  read_round_of size loaded_so_far (s, got (b ∷ bs)) =
      let actual = loaded_so_far + length (b ∷ bs) in
      if ltb size actual then ended (err (size_mismatch actual size)) else chunk s (b ∷ bs) actual

  -- A round of the loop of `read_verified`, which has its own limit and its own checks.
  unfoldable pub read_round : ℕ → ℕ → S → Round S
  read_round size loaded_so_far s =
      let remaining = size - loaded_so_far in
      read_round_of size loaded_so_far (read s (min (min (remaining + 1) (2 ^ 64 - 1)) buffer_size))

  abbrev pub loaded :
      (S → Bytes → List ℕ → Outcome Bytes × List ℕ)
      → Round S
      → Bytes
      → List ℕ
      → Outcome Bytes × List ℕ
  loaded next (again s) data_ progress = next s data_ progress
  loaded next (ended o) data_ progress = ((do total ← o; ok data_), progress)
  loaded next (chunk s bytes actual) data_ progress = next s (data_ ++ bytes) (actual ∷ progress)

  unfoldable pub read_loop : ℕ → ℕ → S → Bytes → List ℕ → Outcome Bytes × List ℕ
  read_loop zero size s data_ progress = (stuck, progress)
  read_loop (suc fuel) size s data_ progress =
      loaded (read_loop fuel size) (read_round size (length data_) s) data_ progress

  -- `reserves` says whether the size is a `usize` for which memory is found.
  unfoldable pub read_verified : (ℕ → Bool) → ℕ → ℕ → S → Outcome Bytes × List ℕ
  read_verified reserves fuel size s =
      if reserves size then read_loop fuel size s [] (0 ∷ []) else (err too_large, [])

  -- The reader of the chosen entry: the raw file's, or the one that `by_index` gives.
  unfoldable pub reader_of : S → (ℕ → Option S) → Source → ImageEntry → Outcome S
  reader_of raw_reader by_index (raw e) selected = ok raw_reader
  reader_of raw_reader by_index (zipped members) selected = do
    index ← ok_or selected.zip_index selection_changed
    ok_or (by_index index) zip

  -- The choice that `copy_image` and `load_image` begin with.
  unfoldable pub chosen :
      S → (ℕ → Option S) → LocalFile → ℕ → Bool → Option ImageEntry → Outcome (S × ImageEntry)
  chosen raw_reader by_index file expected allow_mismatch selection = do
    source ← open_source file
    entries ← candidates source expected allow_mismatch
    selected ← select_entry entries selection
    reader ← reader_of raw_reader by_index source selected
    ok (reader, selected)

  unfoldable pub copy_image :
      {W : Type 0}
      → (W → Bytes → W × Bool)
      → ℕ
      → S
      → (ℕ → Option S)
      → LocalFile
      → ℕ
      → Bool
      → Option ImageEntry
      → W
      → Outcome ℕ × W × List ℕ
  copy_image write fuel raw_reader by_index file expected allow_mismatch selection w =
      elim (chosen raw_reader by_index file expected allow_mismatch selection) [
        | ok c ↦ copy_verified write fuel c.1.size c.0 w
        | err e ↦ (err e, w, [])
        | stuck ↦ (stuck, w, [])
      ]

  unfoldable pub load_image :
      (ℕ → Bool)
      → ℕ
      → S
      → (ℕ → Option S)
      → LocalFile
      → ℕ
      → Bool
      → Option ImageEntry
      → Outcome Bytes × List ℕ
  load_image reserves fuel raw_reader by_index file expected allow_mismatch selection =
      elim (chosen raw_reader by_index file expected allow_mismatch selection) [
        | ok c ↦ read_verified reserves fuel c.1.size c.0
        | err e ↦ (err e, [])
        | stuck ↦ (stuck, [])
      ]
