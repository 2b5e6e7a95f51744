-- ===== src/Recovery/Partitions.antt =====
-- recovery/crates/pce-recovery/src/partitions.rs: the partition table, which the firmware fixes.
use Prim.Native.String.{String}
use project_chronos_engine.Prelude.{
  ℕ, true, false, ◌+◌, ◌*◌, ◌≤◌, ◌≡◌, ◌≢◌, ◌∙◌, refl, subst, sym, Bool-cases, inl, inr, List, [],
  ◌∷◌, Option, none, some, ◌==◌, ==_iff, if◌then◌else◌, arith,
}

pub record Partition : Type 0 where
  pub id : ℕ
  pub device_path : String
  pub role : String
  pub sectors : ℕ

abbrev pub sector_size : ℕ
sector_size = 512

abbrev pub size_bytes : Partition → ℕ
size_bytes p = p.sectors * sector_size

abbrev pub partitions : List Partition
partitions =
    record { id = 1; device_path = "/dev/mmcblk0p1"; role = "System"; sectors = 1_347_584 }
    ∷ record { id = 2; device_path = "/dev/mmcblk0p2"; role = "System"; sectors = 16_384 }
    ∷ record { id = 5; device_path = "/dev/mmcblk0p5"; role = "System"; sectors = 4_096 }
    ∷ record { id = 6; device_path = "/dev/mmcblk0p6"; role = "Kernel"; sectors = 16_384 }
    ∷ record { id = 7; device_path = "/dev/mmcblk0p7"; role = "Linux"; sectors = 204_800 }
    ∷ record { id = 8; device_path = "/dev/mmcblk0p8"; role = "Saves"; sectors = 1_376_256 }
    ∷ record { id = 9; device_path = "/dev/mmcblk0p9"; role = "Games"; sectors = 4_587_520 }
    ∷ record { id = 10; device_path = "/dev/mmcblk0p10"; role = "System"; sectors = 8_192 }
    ∷ []

-- FULL.
abbrev pub full : Partition
full = record { id = 0; device_path = "/dev/mmcblk0"; role = "Full NAND"; sectors = 7_634_944 }

-- `iter().find(|p| p.id == id)`
unfoldable pub find : List Partition → ℕ → Option Partition
find [] id = none
find (p ∷ ps) id = if p.id == id then some p else find ps id

unfoldable pub lookup : ℕ → Option Partition
lookup id = if id == 0 then some full else find partitions id

-- The deprecated name.
abbrev pub by_id : ℕ → Option Partition
by_id = lookup

abbrev total : List Partition → ℕ
total [] = 0
total (p ∷ ps) = p.sectors + total ps

found_here :
    (q p : Partition) (ps : List Partition) (id : ℕ)
    → (q.id == id) ≡ true
    → find (q ∷ ps) id ≡ some p
    → q ≡ p
unfolding find
found_here q p ps id t e = ground (arith, rw (t, find) at e)

find-bound :
    (ps : List Partition) (id : ℕ) (p : Partition)
    → find ps id ≡ some p
    → (p.id ≡ id) × (p.sectors ≤ total ps)
unfolding find
find-bound [] id p e = cc
find-bound (q ∷ ps) id p e = elim (Bool-cases (q.id == id)) [
  | inl t ↦
      let same = found_here q p ps id t e in
      (
        subst (λ (r : Partition). r.id ≡ id) same ((==_iff q.id id).0 t),
        subst (λ (r : Partition). r.sectors ≤ total (q ∷ ps)) same (omega arith),
      )
  | inr t ↦ let (h, k) = find-bound ps id p (rw t at e) in (h, omega (arith, k))
]

-- Two ids that differ find two places of the list.
find-apart :
    (ps : List Partition) (i j : ℕ) (p q : Partition)
    → i ≢ j
    → find ps i ≡ some p
    → find ps j ≡ some q
    → p.sectors + q.sectors ≤ total ps
unfolding find
find-apart [] i j p q ne e f = cc
find-apart (r ∷ ps) i j p q ne e f = elim (Bool-cases (r.id == i)) [
  | inl t ↦ elim (Bool-cases (r.id == j)) [
    | inl u ↦ absurd (ne (sym ((==_iff r.id i).0 t) ∙ (==_iff r.id j).0 u))
    | inr u ↦
        subst (λ (x : Partition). x.sectors + q.sectors ≤ total (r ∷ ps)) (found_here r p ps i t e)
          (omega (arith, (find-bound ps j q (rw u at f)).1))
  ]
  | inr t ↦ elim (Bool-cases (r.id == j)) [
    | inl u ↦
        subst (λ (x : Partition). p.sectors + x.sectors ≤ total (r ∷ ps)) (found_here r q ps j u f)
          (omega (arith, (find-bound ps i p (rw t at e)).1))
    | inr u ↦ omega (arith, find-apart ps i j p q ne (rw t at e) (rw u at f))
  ]
]

lookup_listed : (id : ℕ) → id ≢ 0 → lookup id ≡ find partitions id
unfolding lookup
lookup_listed id h = let e : (id == 0) ≡ false = ground arith in rw e refl

-- Two lookups by different ids, neither of them 0, find partitions with these ids that together are no larger than the
-- whole device.
pub lookup-apart :
    (i j : ℕ) (p q : Partition)
    → i ≢ 0
    → j ≢ 0
    → i ≢ j
    → lookup i ≡ some p
    → lookup j ≡ some q
    → (p.id ≡ i) × (q.id ≡ j) × (size_bytes p + size_bytes q ≤ size_bytes full)
lookup-apart i j p q hi hj ne e f =
    let e' = sym (lookup_listed i hi) ∙ e in
    let f' = sym (lookup_listed j hj) ∙ f in
    (
      (find-bound partitions i p e').0,
      (find-bound partitions j q f').0,
      omega (arith, find-apart partitions i j p q ne e' f'),
    )
