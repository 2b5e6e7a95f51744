-- ===== src/Psb/Trie.antt =====
-- editor/crates/m2-psb/src/trie.rs: the key-name trie and its first-fit packing.
pub mod Slots
pub mod Gives
pub mod Nodes
pub mod Packs
pub mod Arrays
use project_chronos_engine.Prelude.{
  ℕ, zero, suc, ◌+◌, ◌-◌, max, Bytes, Bool, true, false, ◌||◌, not, List, [], ◌∷◌, ◌++◌, map,
  Option, none, some, ltb, ◌==◌, if◌then◌else◌, length, get_or, get_elem?, set_at, and_then,
  replicate,
}

pub record KeyNamesTrie : Type 0 where
  pub value_offsets : List ℕ
  pub tree : List ℕ
  pub tails : List ℕ

-- `children` is the `BTreeMap<u8, usize>`, in the order of its keys.
pub record Node : Type 0 where
  pub parent : ℕ
  pub children : List (ℕ × ℕ)
  pub terminal : Option ℕ

abbrev pub root_node : Node
root_node = record { parent = 0; children = []; terminal = none }

unfoldable pub child : ℕ → List (ℕ × ℕ) → Option ℕ
child ch [] = none
child ch ((c, i) ∷ rest) = if c == ch then some i else child ch rest

unfoldable pub insert_child : ℕ → ℕ → List (ℕ × ℕ) → List (ℕ × ℕ)
insert_child ch i [] = (ch, i) ∷ []
insert_child ch i ((c, j) ∷ rest) =
    if c == ch
    then (ch, i) ∷ rest
    else if ltb ch c
    then (ch, i) ∷ (c, j) ∷ rest
    else (c, j) ∷ insert_child ch i rest

-- A new node below `curr`, entered under `ch`. Here and below `none` is a panic: an index out of range.
unfoldable pub push_node : ℕ → ℕ → Option ℕ → List Node → Option (List Node)
unfolding insert_child
push_node curr ch terminal nodes =
    let new_idx = length nodes in
    let pushed = nodes ++ (record { parent = curr; children = []; terminal = terminal } ∷ []) in
    and_then (get_elem? pushed curr)
      (λ n. set_at pushed curr (record n { children = insert_child ch new_idx n.children }))

-- One character of a name, from the node `curr`: the nodes and the next node.
unfoldable pub add_char : ℕ → ℕ → List Node → Option (List Node × ℕ)
unfolding child push_node
add_char curr ch nodes = and_then (get_elem? nodes curr) (λ n. elim (child ch n.children) [
  | some i ↦ some (nodes, i)
  | none ↦ and_then (push_node curr ch none nodes) (λ pushed. some (pushed, length nodes))
])

unfoldable pub add_chars : ℕ → Bytes → List Node → Option (List Node × ℕ)
unfolding add_char
add_chars curr [] nodes = some (nodes, curr)
add_chars curr (ch ∷ name) nodes =
    and_then (add_char curr ch nodes) (λ step. add_chars step.1 name step.0)

-- The name with the index `str_idx`, and its terminal node under the character 0.
unfoldable pub add_name : ℕ → Bytes → List Node → Option (List Node)
unfolding add_chars
add_name str_idx name nodes =
    and_then (add_chars 0 name nodes) (λ last. push_node last.1 0 (some str_idx) last.0)

unfoldable pub add_names : ℕ → List Bytes → List Node → Option (List Node)
unfolding add_name
add_names str_idx [] nodes = some nodes
add_names str_idx (name ∷ names) nodes =
    and_then (add_name str_idx name nodes) (add_names (str_idx + 1) names)

pub record Packing : Type 0 where
  pub used : List Bool
  pub value_offs : List ℕ
  pub node_indices : List ℕ
  pub queue : List ℕ

-- All children fall on slots that are free or past the end of `used`.
unfoldable pub fits : List Bool → ℕ → ℕ → List ℕ → Bool
fits used min_slot min_char [] = true
fits used min_slot min_char (ch ∷ chars) =
    if get_or used (min_slot + (ch - min_char)) false
    then false
    else fits used min_slot min_char chars

-- The `loop` that looks for the lowest base; `used.len()` rounds are enough.
unfoldable pub find_slot : ℕ → List Bool → ℕ → List ℕ → ℕ → ℕ
find_slot zero used min_char chars min_slot = min_slot
find_slot (suc fuel) used min_char chars min_slot =
    let next = find_slot fuel used min_char chars (min_slot + 1) in
    if fits used min_slot min_char chars then min_slot else next

unfoldable pub last_char : ℕ → List ℕ → ℕ
last_char d [] = d
last_char d (ch ∷ chars) = last_char ch chars

unfoldable pub grow : ℕ → Packing → Packing
grow max_needed p =
    let more = max_needed + 1 - length p.used in
    record p {
      used = p.used ++ replicate more false;
      value_offs = p.value_offs ++ replicate more 0;
    }

-- `for &ch in &chars`: each child gets its slot and joins the queue.
unfoldable pub assign : ℕ → ℕ → List (ℕ × ℕ) → Packing → Option Packing
assign min_slot min_char [] p = some p
assign min_slot min_char ((ch, child_idx) ∷ rest) p =
    let assigned = min_slot + (ch - min_char) in
    and_then (set_at p.node_indices child_idx assigned) (λ node_indices.
      and_then (set_at p.used assigned true) (λ used. assign min_slot min_char rest (record p {
        node_indices = node_indices;
        used = used;
        queue = p.queue ++ (child_idx ∷ []);
      })))

-- One node from the queue. `min_slot` is above `min_char`, so the offset is no negative number.
unfoldable pub pack_node : ℕ → List (ℕ × ℕ) → Packing → Option Packing
unfolding find_slot last_char grow assign
pack_node curr_idx [] p = some p
pack_node curr_idx ((min_char, i) ∷ rest) p =
    let children = (min_char, i) ∷ rest in
    let chars = map (λ e. e.0) children in
    let min_slot = find_slot (length p.used) p.used min_char chars (max 1 (min_char + 1)) in
    let grown = grow (min_slot + (last_char min_char chars - min_char)) p in
    and_then (assign min_slot min_char children grown) (λ q.
      and_then (get_elem? q.node_indices curr_idx) (λ idx.
        and_then (set_at q.value_offs idx (min_slot - min_char))
          (λ value_offs. some (record q { value_offs = value_offs }))))

-- `while let Some(curr_idx) = queue.pop_front()`. Every node joins the queue once.
unfoldable pub pack_all : ℕ → List Node → Packing → Option Packing
unfolding pack_node
pack_all zero nodes p = some p
pack_all (suc fuel) nodes p = elim p.queue [
  | [] ↦ some p
  | curr_idx ∷ rest ↦ and_then (get_elem? nodes curr_idx) (λ n.
      and_then (pack_node curr_idx n.children (record p { queue = rest })) (pack_all fuel nodes))
]

-- The word of the tables for one node at its place `idx`.
unfoldable pub place : Packing → Option ℕ → ℕ → KeyNamesTrie → Option KeyNamesTrie
place p none idx t = and_then (get_elem? p.value_offs idx) (λ off.
    and_then (set_at t.value_offsets idx off)
      (λ value_offsets. some (record t { value_offsets = value_offsets })))
place p (some term) idx t = and_then (set_at t.tails term idx) (λ tails.
    and_then (set_at t.value_offsets idx term)
      (λ value_offsets. some (record t { tails = tails; value_offsets = value_offsets })))

-- `for (i, node) in nodes.iter().enumerate()`
unfoldable pub materialize : Packing → ℕ → List Node → KeyNamesTrie → Option KeyNamesTrie
unfolding place
materialize p i [] t = some t
materialize p i (node ∷ rest) t = and_then (get_elem? p.node_indices i) (λ idx.
    and_then (if i == 0 then some 0 else get_elem? p.node_indices node.parent) (λ parent_idx.
      and_then (set_at t.tree idx parent_idx) (λ tree.
        and_then (place p node.terminal idx (record t { tree = tree }))
          (materialize p (i + 1) rest))))

unfoldable pub build : List Bytes → Option KeyNamesTrie
unfolding add_names pack_all materialize
build [] = some (record { value_offsets = 0 ∷ []; tree = 0 ∷ []; tails = [] })
build (name ∷ names) = and_then (add_names 0 (name ∷ names) (root_node ∷ [])) (λ nodes.
    and_then
      (pack_all (length nodes) nodes (record {
        used = true ∷ [];
        value_offs = 0 ∷ [];
        node_indices = replicate (length nodes) 0;
        queue = 0 ∷ [];
      }))
      (λ p.
        let n = length p.used in
        materialize p 0 nodes (record {
          value_offsets = replicate n 0;
          tree = replicate n 0;
          tails = replicate (length (name ∷ names)) 0;
        })))
