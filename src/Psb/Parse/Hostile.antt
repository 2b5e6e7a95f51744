-- ===== src/Psb/Parse/Hostile.antt =====
-- The reader on malformed files.
use project_chronos_engine.Prelude.{
  ℕ, zero, suc, ◌+◌, ◌≤◌, ◌<◌, ◌≡◌, ◌≢◌, Bytes, false, List, [], ◌∷◌, ◌++◌, none, some, arith,
  length, get_or, Bool-cases, inl, inr, leb, ◌==◌,
}
use project_chronos_engine.Psb.Value.{panicked}
use project_chronos_engine.Psb.Scan.{◌>>=◌}
use project_chronos_engine.Psb.Parse.{walk, step_byte, read_cstring_at, read_cstrings}

-- The walk up from a node that is in a set of nodes without the root, closed under parents: it takes
-- any number of rounds and is not done. A cycle of the stored tree is such a set.
pub walk_cycle :
    (value_offsets tree : List ℕ) (OnCycle : ℕ → Type 0)
    → ((n : ℕ) → OnCycle n → (n ≢ 0) × OnCycle (get_or tree n 0))
    → (fuel node : ℕ) (name : Bytes) → OnCycle node
    → walk value_offsets tree fuel node name ≡ none
unfolding walk
walk_cycle value_offsets tree OnCycle closed zero node name h =
    let here = (closed node h).0 in ground arith
walk_cycle value_offsets tree OnCycle closed (suc fuel) node name h =
    let (here, up) = closed node h in
    let parent = get_or tree node 0 in
    let name' = step_byte node (get_or value_offsets parent 0) ∷ name in
    ground (arith, walk_cycle value_offsets tree OnCycle closed fuel parent name' up)

-- Where each node but the root has a lower rank than its children, the rank of a node is enough fuel.
pub walk_ranked :
    (value_offsets tree : List ℕ) (rank : ℕ → ℕ)
    → ((n : ℕ) → n ≢ 0 → rank (get_or tree n 0) < rank n)
    → (fuel node : ℕ) (name : Bytes) → rank node ≤ fuel
    → (found : Bytes) × (walk value_offsets tree fuel node name ≡ some found)
unfolding walk
walk_ranked value_offsets tree rank down zero node name h = elim (Bool-cases (node == 0)) [
  | inl root ↦ (name, rw root)
  | inr inner ↦ absurd (omega (arith, down node (ground arith)))
]
walk_ranked value_offsets tree rank down (suc fuel) node name h = elim (Bool-cases (node == 0)) [
  | inl root ↦ (name, rw root)
  | inr inner ↦
      let lower = down node (ground arith) in
      let parent = get_or tree node 0 in
      let name' = step_byte node (get_or value_offsets parent 0) ∷ name in
      let (found, e) = walk_ranked value_offsets tree rank down fuel parent name' (omega arith) in
      (found, rw inner e)
]

-- A string table with one offset past the end of the file, at any place among the others, makes the read of the table
-- panic: no string before it ends the read with an error, and none behind it is reached.
pub read_cstrings_panic :
    (lossy : Bytes → Bytes) (bytes : Bytes) (blob_offset off at : ℕ) (before after : List ℕ)
    → length bytes < blob_offset + off
    → read_cstrings lossy bytes blob_offset (before ++ (off ∷ after)) at ≡ panicked
unfolding read_cstrings read_cstring_at
read_cstrings_panic lossy bytes blob_offset off at [] after h =
    let past : leb (blob_offset + off) (length bytes) ≡ false = ground arith in rw (past, ◌>>=◌)
read_cstrings_panic lossy bytes blob_offset off at (first ∷ before) after h =
    elim (Bool-cases (leb (blob_offset + first) (length bytes))) [
      | inl inside ↦
          rw (inside, ◌>>=◌, read_cstrings_panic lossy bytes blob_offset off at before after h)
      | inr past ↦ rw (past, ◌>>=◌)
    ]
