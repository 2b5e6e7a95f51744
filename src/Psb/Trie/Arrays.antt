-- ===== src/Psb/Trie/Arrays.antt =====
-- The output arrays of trie.rs: no index leaves an array, so that `build` returns a trie for all names.
use project_chronos_engine.Prelude.{
  ℕ, ◌+◌, ◌≤◌, ◌<◌, ◌≡◌, ◌∙◌, refl, Bytes, Bool, true, false, List, [], ◌∷◌, Option, none, some,
  All, length, length-replicate, get_elem?, arith, ◌==◌, if◌then◌else◌,
}
use project_chronos_engine.Psb.Trie.{
  KeyNamesTrie, Node, root_node, Packing, place, materialize, build, add_names,
}
use project_chronos_engine.Psb.Trie.Gives.{Gives, Gives-then, get-Gives, set-Gives}
use project_chronos_engine.Psb.Trie.Nodes.{IsNode, IsTree, IsName, add_names-Gives, root-IsTree}
use project_chronos_engine.Psb.Trie.Packs.{
  Under, Any, All-Any, replicate-Under, IsPacked, Packed, pack_all-Gives,
}

-- The output arrays for so many slots and names.
record IsSized (slots names : ℕ) (t : KeyNamesTrie) : Type 0 where
  value_offsets : length t.value_offsets ≡ slots
  tree : length t.tree ≡ slots
  tails : length t.tails ≡ names

abbrev Same : List ℕ → List ℕ → Type 0
Same xs ys = (length ys ≡ length xs) × All Any ys

place-Gives :
    (count slots names idx : ℕ) (p : Packing) (terminal : Option ℕ) (t : KeyNamesTrie)
    → IsPacked count slots p
    → idx < slots
    → IsName names terminal
    → IsSized slots names t
    → Gives (place p terminal idx t) (IsSized slots names)
unfolding place
place-Gives count slots names idx p none t h i named s =
    Gives-then Any (IsSized slots names) _ _
      (get-Gives Any p.value_offs idx (All-Any p.value_offs) (omega (arith, i, h.value_offs)))
      (λ off a.
        Gives-then (Same t.value_offsets) (IsSized slots names) _ _
          (set-Gives Any t.value_offsets idx off (All-Any t.value_offsets) tt
            (omega (arith, i, s.value_offsets)))
          (λ vs v. (
            _,
            refl,
            record { value_offsets = v.0 ∙ s.value_offsets; tree = s.tree; tails = s.tails },
          )))
place-Gives count slots names idx p (some term) t h i named s =
    Gives-then (Same t.tails) (IsSized slots names) _ _
      (set-Gives Any t.tails term idx (All-Any t.tails) tt (omega (arith, named, s.tails)))
      (λ tails l.
        Gives-then (Same t.value_offsets) (IsSized slots names) _ _
          (set-Gives Any t.value_offsets idx term (All-Any t.value_offsets) tt
            (omega (arith, i, s.value_offsets)))
          (λ vs v. (
            _,
            refl,
            record { value_offsets = v.0 ∙ s.value_offsets; tree = s.tree; tails = l.0 ∙ s.tails },
          )))

parent-Gives :
    (count slots parent : ℕ) (p : Packing) (b : Bool)
    → IsPacked count slots p
    → parent < count
    → Gives (if b then some 0 else get_elem? p.node_indices parent) Any
parent-Gives count slots parent p true h i = (0, refl, tt)
parent-Gives count slots parent p false h i =
    get-Gives Any p.node_indices parent (All-Any p.node_indices) (omega (arith, i, h.node_indices))

materialize-Gives :
    (count slots names i : ℕ) (p : Packing) (rest : List Node) (t : KeyNamesTrie)
    → IsPacked count slots p
    → i + length rest ≤ count
    → All (IsNode count names) rest
    → IsSized slots names t
    → Gives (materialize p i rest t) (IsSized slots names)
unfolding materialize
materialize-Gives count slots names i p [] t h l ns s = (t, refl, s)
materialize-Gives count slots names i p (node ∷ rest) t h l ns s =
    let R = IsSized slots names in
    Gives-then (Under slots) R _ _
      (get-Gives (Under slots) p.node_indices i h.placed (omega (arith, l, h.node_indices)))
      (λ idx under.
        Gives-then Any R _ _ (parent-Gives count slots node.parent p (i == 0) h ns.0.0)
          (λ parent_idx a.
            Gives-then (Same t.tree) R _ _
              (set-Gives Any t.tree idx parent_idx (All-Any t.tree) tt
                (omega (arith, under, s.tree)))
              (λ tree l'.
                Gives-then R R _ _
                  (place-Gives count slots names idx p node.terminal (record t { tree = tree }) h
                    under ns.0.3
                    (record {
                      value_offsets = s.value_offsets;
                      tree = l'.0 ∙ s.tree;
                      tails = s.tails;
                    }))
                  (λ t' s'.
                    materialize-Gives count slots names (i + 1) p rest t' h (omega (arith, l)) ns.1
                      s'))))

-- For every list of names `build` returns a trie.
pub build-Gives : (names : List Bytes) → (trie : KeyNamesTrie) × (build names ≡ some trie)
unfolding build
build-Gives [] = (_, refl)
build-Gives (name ∷ names) =
    let count = length (name ∷ names) in
    let (trie, e, t) =
      Gives-then (IsTree count) Any (add_names 0 (name ∷ names) (root_node ∷ [])) _
        (add_names-Gives count 0 (name ∷ names) (root_node ∷ []) (root-IsTree count) (omega arith))
        (λ nodes tree.
          Gives-then (Packed (length nodes)) Any _ _
            (pack_all-Gives count (length nodes) nodes _ tree.1 (
              1,
              record {
                some_slot = omega arith;
                used = refl;
                value_offs = refl;
                node_indices = length-replicate {A = ℕ} (length nodes) 0;
                placed = replicate-Under 1 (length nodes) 0 (omega arith);
                queued = (tree.0, tt);
              },
            ))
            (λ p packed.
              let slots = length p.used in
              let (trie, e, s) =
                materialize-Gives (length nodes) packed.0 count 0 p nodes _ packed.1 (omega arith)
                  tree.1
                  (record {
                    value_offsets = length-replicate {A = ℕ} slots 0 ∙ packed.1.used;
                    tree = length-replicate {A = ℕ} slots 0 ∙ packed.1.used;
                    tails = length-replicate {A = ℕ} count 0;
                  }) in
              (trie, e, tt))) in
    (trie, e)
