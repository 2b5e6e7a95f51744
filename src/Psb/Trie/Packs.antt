-- ===== src/Psb/Trie/Packs.antt =====
-- The packing of trie.rs: no index leaves an array.
use project_chronos_engine.Prelude.{
  ℕ, zero, suc, ◌+◌, ◌-◌, max, ◌≤◌, ◌<◌, ◌≡◌, ◌∙◌, refl, true, false, List, [], ◌∷◌, map, Option,
  some, All, All-append, length, length-append, length-replicate, replicate, get_elem?, and_then,
  arith,
}
use project_chronos_engine.Psb.Trie.{
  Node, Packing, find_slot, last_char, grow, assign, pack_node, pack_all,
}
use project_chronos_engine.Psb.Trie.Gives.{Gives, Gives-then, All-mono, get-Gives, set-Gives}
use project_chronos_engine.Psb.Trie.Nodes.{IsNode, Below, Ascending, last_char-most}

abbrev pub Under : ℕ → ℕ → Type 0
Under n i = i < n

abbrev pub Any : {A : Type 0} → A → Type 0
Any a = Unit {0}

pub All-Any : {A : Type 0} (xs : List A) → All Any xs
All-Any [] = tt
All-Any (x ∷ xs) = (tt, All-Any xs)

pub replicate-Under : (n count k : ℕ) → k < n → All (Under n) (replicate count k)
replicate-Under n zero k h = tt
replicate-Under n (suc count) k h = (h, replicate-Under n count k h)

-- A packing of `count` nodes into `slots` slots.
pub record IsPacked (count slots : ℕ) (p : Packing) : Type 0 where
  pub some_slot : 0 < slots
  pub used : length p.used ≡ slots
  pub value_offs : length p.value_offs ≡ slots
  pub node_indices : length p.node_indices ≡ count
  pub placed : All (Under slots) p.node_indices
  pub queued : All (Under count) p.queue

abbrev pub Packed : ℕ → Packing → Type 0
Packed count p = (slots : ℕ) × IsPacked count slots p

grow-IsPacked :
    (count slots needed : ℕ) (p : Packing)
    → IsPacked count slots p
    → (slots' : ℕ) × IsPacked count slots' (grow needed p) × (needed < slots')
unfolding grow
grow-IsPacked count slots needed p h =
    let more = needed + 1 - length p.used in
    (
      slots + more,
      record {
        some_slot = omega (arith, h.some_slot);
        used = omega (
          arith,
          h.used,
          length-append p.used (replicate more false),
          length-replicate more false,
        );
        value_offs = omega (
          arith,
          h.value_offs,
          length-append p.value_offs (replicate more 0),
          length-replicate {A = ℕ} more 0,
        );
        node_indices = h.node_indices;
        placed =
            All-mono (Under slots) (Under (slots + more)) p.node_indices (λ i b. omega (arith, b))
              h.placed;
        queued = h.queued;
      },
      omega (arith, h.used),
    )

abbrev Fits : ℕ → ℕ → ℕ → ℕ × ℕ → Type 0
Fits slots min_slot min_char e = min_slot + (e.0 - min_char) < slots

assign-Gives :
    (count slots min_slot min_char : ℕ) (children : List (ℕ × ℕ)) (p : Packing)
    → All (Below count) children
    → All (Fits slots min_slot min_char) children
    → IsPacked count slots p
    → Gives (assign min_slot min_char children p) (IsPacked count slots)
unfolding assign
assign-Gives count slots min_slot min_char [] p b f h = (p, refl, h)
assign-Gives count slots min_slot min_char ((ch, child_idx) ∷ rest) p b f h =
    let R = IsPacked count slots in
    Gives-then (λ xs. (length xs ≡ length p.node_indices) × All (Under slots) xs) R _ _
      (set-Gives (Under slots) p.node_indices child_idx (min_slot + (ch - min_char)) h.placed f.0
        (omega (arith, b.0, h.node_indices)))
      (λ node_indices n.
        Gives-then (λ us. (length us ≡ length p.used) × All Any us) R _ _
          (set-Gives Any p.used (min_slot + (ch - min_char)) true (All-Any p.used) tt
            (omega (arith, f.0, h.used)))
          (λ used u. assign-Gives count slots min_slot min_char rest _ b.1 f.1 (record {
            some_slot = h.some_slot;
            used = u.0 ∙ h.used;
            value_offs = h.value_offs;
            node_indices = n.0 ∙ h.node_indices;
            placed = n.1;
            queued = All-append (Under count) p.queue (child_idx ∷ []) h.queued (b.0, tt);
          })))

pack_node-Gives :
    (count slots curr : ℕ) (children : List (ℕ × ℕ)) (p : Packing)
    → curr < count
    → All (Below count) children
    → Ascending 0 children
    → IsPacked count slots p
    → Gives (pack_node curr children p) (Packed count)
unfolding pack_node
pack_node-Gives count slots curr [] p c b a h = (p, refl, (slots, h))
pack_node-Gives count slots curr ((min_char, i) ∷ rest) p c b a h =
    let children = (min_char, i) ∷ rest in
    let chars = map (λ (e : ℕ × ℕ). e.0) children in
    let min_slot = find_slot (length p.used) p.used min_char chars (max 1 (min_char + 1)) in
    let last = last_char min_char chars in
    let (slots', grown, room) = grow-IsPacked count slots (min_slot + (last - min_char)) p h in
    let most = last_char-most min_char children (omega arith, a.1) in
    Gives-then (IsPacked count slots') (Packed count) _ _
      (assign-Gives count slots' min_slot min_char children _ b
        (All-mono (λ (e : ℕ × ℕ). e.0 ≤ last) (Fits slots' min_slot min_char) children
          (λ e le. omega (arith, le, room)) most.1)
        grown)
      (λ q g.
        Gives-then (Under slots') (Packed count) _ _
          (get-Gives (Under slots') q.node_indices curr g.placed (omega (arith, c, g.node_indices)))
          (λ idx under.
            Gives-then (λ vs. (length vs ≡ length q.value_offs) × All Any vs) (Packed count) _ _
              (set-Gives Any q.value_offs idx (min_slot - min_char) (All-Any q.value_offs) tt
                (omega (arith, under, g.value_offs)))
              (λ vs v. (
                _,
                refl,
                (
                  slots',
                  record {
                    some_slot = g.some_slot;
                    used = g.used;
                    value_offs = v.0 ∙ g.value_offs;
                    node_indices = g.node_indices;
                    placed = g.placed;
                    queued = g.queued;
                  },
                ),
              ))))

pub pack_all-Gives :
    (names fuel : ℕ) (nodes : List Node) (p : Packing)
    → All (IsNode (length nodes) names) nodes
    → Packed (length nodes) p
    → Gives (pack_all fuel nodes p) (Packed (length nodes))
unfolding pack_all
pack_all-Gives names zero nodes p t h = (p, refl, h)
pack_all-Gives names (suc fuel) nodes p t h =
    go p.queue h.1.queued (λ r packed. pack_all-Gives names fuel nodes r t packed)
  where
    go :
        (queue : List ℕ)
        → All (Under (length nodes)) queue
        → ((r : Packing)
            → Packed (length nodes) r
            → Gives (pack_all fuel nodes r) (Packed (length nodes)))
        → Gives
            (elim queue as (λ q. Option Packing) [
              | [] ↦ some p
              | curr_idx ∷ rest ↦ and_then (get_elem? nodes curr_idx) (λ n.
                  and_then
                    (pack_node curr_idx n.children (record p { queue = rest }))
                    (pack_all fuel nodes))
            ])
            (Packed (length nodes))
    go [] q next = (p, refl, h)
    go (curr_idx ∷ rest) q next =
        Gives-then (IsNode (length nodes) names) (Packed (length nodes)) _ _
          (get-Gives (IsNode (length nodes) names) nodes curr_idx t q.0)
          (λ n is_node.
            Gives-then (Packed (length nodes)) (Packed (length nodes)) _ _
              (pack_node-Gives (length nodes) h.0 curr_idx n.children (record p { queue = rest })
                q.0 is_node.1 is_node.2
                (record {
                  some_slot = h.1.some_slot;
                  used = h.1.used;
                  value_offs = h.1.value_offs;
                  node_indices = h.1.node_indices;
                  placed = h.1.placed;
                  queued = q.1;
                }))
              next)
