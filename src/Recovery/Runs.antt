-- ===== src/Recovery/Runs.antt =====
-- A concrete lookup, and concrete copies of an image.
use project_chronos_engine.Prelude.{
  ℕ, ◌+◌, ◌≤◌, ◌<◌, ◌≡◌, ◌≢◌, refl, Bool, true, false, List, [], ◌∷◌, none, some, length, take,
  arith,
}
use project_chronos_engine.Recovery.Image.{
  LocalFile, ok, stuck, open_source, zip_signature, candidates, check_size, select_entry,
}
use project_chronos_engine.Recovery.Image.Copies.{
  Got, interrupted, failed, got, reader_of, chosen, read_round, read_loop, read_verified,
  copy_verified, load_image,
}
use project_chronos_engine.Recovery.Image.Reports.{
  IsReported, IsRanked, copy_verified-IsReported, copy_verified-returns,
}
use project_chronos_engine.Recovery.Image.Agreement.{keep, Agree, read_verified-copy_verified}
use project_chronos_engine.Recovery.Image.Sizes.{length-load_image}
use project_chronos_engine.Recovery.Partitions.{
  Partition, lookup, lookup-apart, find, full, size_bytes,
}

abbrev saves : Partition
saves = record { id = 8; device_path = "/dev/mmcblk0p8"; role = "Saves"; sectors = 1_376_256 }

saves_found : lookup 8 ≡ some saves
unfolding lookup find
saves_found = refl

abbrev kernel : Partition
kernel = record { id = 6; device_path = "/dev/mmcblk0p6"; role = "Kernel"; sectors = 16_384 }

kernel_found : lookup 6 ≡ some kernel
unfolding lookup find
kernel_found = refl

lookup-apart_example :
    (saves.id ≡ 8) × (kernel.id ≡ 6) × (size_bytes saves + size_bytes kernel ≤ size_bytes full)
lookup-apart_example =
    lookup-apart 8 6 saves kernel (omega arith) (omega arith) (omega arith) saves_found kernel_found

-- A reader that gives a list of answers.
abbrev answers : List Got → ℕ → List Got × Got
answers [] n = ([], got [])
answers (interrupted ∷ gs) n = (gs, interrupted)
answers (failed ∷ gs) n = (gs, failed)
answers (got bytes ∷ gs) n = (gs, got (take n bytes))

abbrev image : List Got
image = got (1 ∷ 2 ∷ []) ∷ interrupted ∷ got (3 ∷ []) ∷ []

-- A raw file of three bytes.
abbrev raw_file : LocalFile
raw_file = record {
  extension = none;
  file_name = [];
  signature = some (1 ∷ 2 ∷ 3 ∷ []);
  archive = none;
  length_ = some 3;
}

abbrev always : ℕ → Bool
always n = true

image_loaded :
    load_image answers always 9 image (λ i. none) raw_file 3 false none
    ≡ (ok (1 ∷ 2 ∷ 3 ∷ []), 3 ∷ 2 ∷ 0 ∷ [])
unfolding load_image chosen open_source zip_signature candidates check_size select_entry reader_of
    read_verified read_loop read_round
image_loaded = refl

length-load_image_example : (length {A = ℕ} (1 ∷ 2 ∷ 3 ∷ []) ≡ 3) × (0 < 3)
length-load_image_example =
    length-load_image answers always 9 image (λ i. none) raw_file 3 none (1 ∷ 2 ∷ 3 ∷ [])
      (3 ∷ 2 ∷ 0 ∷ []) image_loaded

read_verified-copy_verified_example :
    Agree
      (9 ∷ [])
      (copy_verified answers keep 9 3 image (9 ∷ []))
      (read_verified answers always 9 3 image)
read_verified-copy_verified_example =
    read_verified-copy_verified answers 3 (9 ∷ []) always 9 image refl

copy_verified-IsReported_example : IsReported 3 (copy_verified answers keep 9 3 image [])
copy_verified-IsReported_example = copy_verified-IsReported answers keep 3 9 image []

answers-IsRanked : (gs : List Got) (n : ℕ) → IsRanked length gs (answers gs n)
answers-IsRanked [] n = omega arith
answers-IsRanked (interrupted ∷ gs) n = omega arith
answers-IsRanked (failed ∷ gs) n = omega arith
answers-IsRanked (got bytes ∷ gs) n = omega arith

copy_verified-returns_example : (copy_verified answers keep 9 3 image []).0 ≢ stuck
copy_verified-returns_example =
    copy_verified-returns answers keep 3 length answers-IsRanked 9 image [] (omega arith)
