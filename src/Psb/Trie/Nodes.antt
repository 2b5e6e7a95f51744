-- ===== src/Psb/Trie/Nodes.antt =====
-- The nodes of the trie of trie.rs: every name is entered, and every index that a node holds is that of a node.
use project_chronos_engine.Prelude.{
  ℕ, ◌+◌, ◌≤◌, ◌<◌, ◌≡◌, refl, subst, Bytes, List, [], ◌∷◌, ◌++◌, map, Option, none, some, All,
  All-append, length, length-append, get_elem?, ltb, ◌==◌, arith, Bool-cases, inl, inr,
  Option-cases,
}
use project_chronos_engine.Psb.Trie.{
  Node, root_node, child, insert_child, push_node, add_char, add_chars, add_name, add_names,
  last_char,
}
use project_chronos_engine.Psb.Trie.Gives.{Gives, Gives-then, All-mono, get-Gives, set-Gives}

-- The characters do not fall, from `lo` on.
abbrev pub Ascending : ℕ → List (ℕ × ℕ) → Type 0
Ascending lo [] = Unit {0}
Ascending lo ((c, i) ∷ rest) = (lo ≤ c) × Ascending c rest

abbrev pub IsName : ℕ → Option ℕ → Type 0
IsName names none = Unit {0}
IsName names (some t) = t < names

abbrev pub Below : ℕ → ℕ × ℕ → Type 0
Below count e = e.1 < count

-- A node among `count` nodes for so many names.
abbrev pub IsNode : ℕ → ℕ → Node → Type 0
IsNode count names n =
    (n.parent < count)
    × All (Below count) n.children
    × Ascending 0 n.children
    × IsName names n.terminal

abbrev pub IsTree : ℕ → List Node → Type 0
IsTree names nodes = (0 < length nodes) × All (IsNode (length nodes) names) nodes

insert_child-Ascending :
    (ch i lo : ℕ) (cs : List (ℕ × ℕ))
    → lo ≤ ch
    → Ascending lo cs
    → Ascending lo (insert_child ch i cs)
unfolding insert_child
insert_child-Ascending ch i lo [] h a = (h, tt)
insert_child-Ascending ch i lo ((c, j) ∷ rest) h a = elim (Bool-cases (c == ch)) [
  | inl e ↦ let same : c ≡ ch = ground arith in rw e (h, subst (λ x. Ascending x rest) same a.1)
  | inr e ↦ rw e (elim (Bool-cases (ltb ch c)) [
    | inl f ↦ rw f (h, (ground arith, a.1))
    | inr f ↦ rw f (a.0, insert_child-Ascending ch i c rest (ground arith) a.1)
  ])
]

insert_child-Below :
    (count ch i : ℕ) (cs : List (ℕ × ℕ))
    → i < count
    → All (Below count) cs
    → All (Below count) (insert_child ch i cs)
unfolding insert_child
insert_child-Below count ch i [] h a = (h, tt)
insert_child-Below count ch i ((c, j) ∷ rest) h a = elim (Bool-cases (c == ch)) [
  | inl e ↦ rw e (h, a.1)
  | inr e ↦ rw e (elim (Bool-cases (ltb ch c)) [
    | inl f ↦ rw f (h, a)
    | inr f ↦ rw f (a.0, insert_child-Below count ch i rest h a.1)
  ])
]

child-lt :
    (count ch i : ℕ) (cs : List (ℕ × ℕ)) → All (Below count) cs → child ch cs ≡ some i → i < count
unfolding child
child-lt count ch i [] a e = cc
child-lt count ch i ((c, j) ∷ rest) a e = elim (Bool-cases (c == ch)) [
  | inl f ↦ let same : j ≡ i = ground (arith, rw (f, child) at e) in subst (λ k. k < count) same a.0
  | inr f ↦ child-lt count ch i rest a.1 (rw (f, child) at e)
]

IsNode-suc : (count names : ℕ) (n : Node) → IsNode count names n → IsNode (count + 1) names n
IsNode-suc count names n h = (
  omega (arith, h.0),
  All-mono (Below count) (Below (count + 1)) n.children (λ e b. omega (arith, b)) h.1,
  h.2,
  h.3,
)

-- The nodes after one more.
abbrev Grown : ℕ → List Node → List Node → Type 0
Grown names nodes nodes' = (length nodes' ≡ length nodes + 1) × IsTree names nodes'

push_node-Gives :
    (names curr ch : ℕ) (terminal : Option ℕ) (nodes : List Node)
    → IsTree names nodes
    → curr < length nodes
    → IsName names terminal
    → Gives (push_node curr ch terminal nodes) (Grown names nodes)
unfolding push_node
push_node-Gives names curr ch terminal nodes (some_node, all) inside named =
    let new_ : Node = record { parent = curr; children = []; terminal = terminal } in
    let pushed = nodes ++ (new_ ∷ []) in
    let P : Node → Type 0 = IsNode (length nodes + 1) names in
    let count : length pushed ≡ length nodes + 1 = length-append nodes (new_ ∷ []) in
    let all' : All P pushed =
      All-append P nodes (new_ ∷ [])
        (All-mono (IsNode (length nodes) names) P nodes (IsNode-suc (length nodes) names) all)
        ((omega (arith, inside), tt, tt, named), tt) in
    Gives-then P (Grown names nodes) (get_elem? pushed curr) _
      (get-Gives P pushed curr all' (omega (arith, inside, count)))
      (λ n is_node.
        let n' : Node = record n { children = insert_child ch (length nodes) n.children } in
        let (nodes', e, (size, ok)) =
          set-Gives P pushed curr n' all'
            (
              is_node.0,
              insert_child-Below (length nodes + 1) ch (length nodes) n.children (omega arith)
                  is_node.1,
              insert_child-Ascending ch (length nodes) 0 n.children (omega arith) is_node.2,
              is_node.3,
            )
            (omega (arith, inside, count)) in
        (
          nodes',
          e,
          (
            omega (arith, size, count),
            (
              omega (arith, size, count),
              subst (λ c. All (IsNode c names) nodes') (omega (arith, size, count)) ok,
            ),
          ),
        ))

-- A tree, and one of its nodes.
abbrev Stands : ℕ → List Node × ℕ → Type 0
Stands names r = IsTree names r.0 × (r.1 < length r.0)

add_char-Gives :
    (names curr ch : ℕ) (nodes : List Node)
    → IsTree names nodes
    → curr < length nodes
    → Gives (add_char curr ch nodes) (Stands names)
unfolding add_char
add_char-Gives names curr ch nodes tree inside =
    Gives-then (IsNode (length nodes) names) (Stands names) (get_elem? nodes curr) _
      (get-Gives (IsNode (length nodes) names) nodes curr tree.1 inside)
      (λ n is_node. elim (Option-cases (child ch n.children)) [
        | inl e ↦ rw e (
            Gives-then (Grown names nodes) (Stands names) (push_node curr ch none nodes) _
              (push_node-Gives names curr ch none nodes tree inside tt)
              (λ nodes' grown. ((nodes', length nodes), refl, (grown.1, omega (arith, grown.0)))))
        | inr (i, e) ↦
            rw e ((nodes, i), refl, (tree, child-lt (length nodes) ch i n.children is_node.1 e))
      ])

add_chars-Gives :
    (names curr : ℕ) (name : Bytes) (nodes : List Node)
    → IsTree names nodes
    → curr < length nodes
    → Gives (add_chars curr name nodes) (Stands names)
unfolding add_chars
add_chars-Gives names curr [] nodes tree inside = ((nodes, curr), refl, (tree, inside))
add_chars-Gives names curr (ch ∷ name) nodes tree inside =
    Gives-then (Stands names) (Stands names) (add_char curr ch nodes) _
      (add_char-Gives names curr ch nodes tree inside)
      (λ r s. add_chars-Gives names r.1 name r.0 s.0 s.1)

add_name-Gives :
    (names str_idx : ℕ) (name : Bytes) (nodes : List Node)
    → IsTree names nodes
    → str_idx < names
    → Gives (add_name str_idx name nodes) (IsTree names)
unfolding add_name
add_name-Gives names str_idx name nodes tree h =
    Gives-then (Stands names) (IsTree names) (add_chars 0 name nodes) _
      (add_chars-Gives names 0 name nodes tree tree.0)
      (λ r s.
        let (nodes', e, grown) = push_node-Gives names r.1 0 (some str_idx) r.0 s.0 s.1 h in
        (nodes', e, grown.1))

pub add_names-Gives :
    (names str_idx : ℕ) (ss : List Bytes) (nodes : List Node)
    → IsTree names nodes
    → str_idx + length ss ≤ names
    → Gives (add_names str_idx ss nodes) (IsTree names)
unfolding add_names
add_names-Gives names str_idx [] nodes tree h = (nodes, refl, tree)
add_names-Gives names str_idx (s ∷ ss) nodes tree h =
    Gives-then (IsTree names) (IsTree names) (add_name str_idx s nodes) _
      (add_name-Gives names str_idx s nodes tree (omega (arith, h)))
      (λ nodes' tree'. add_names-Gives names (str_idx + 1) ss nodes' tree' (omega (arith, h)))

pub root-IsTree : (names : ℕ) → IsTree names (root_node ∷ [])
root-IsTree names = (omega arith, ((omega arith, tt, tt, tt), tt))

-- No character is above the last one.
pub last_char-most :
    (lo : ℕ) (cs : List (ℕ × ℕ))
    → Ascending lo cs
    → (lo ≤ last_char lo (map (λ e. e.0) cs))
      × All (λ (e : ℕ × ℕ). e.0 ≤ last_char lo (map (λ x. x.0) cs)) cs
unfolding last_char
last_char-most lo [] a = (omega arith, tt)
last_char-most lo ((c, i) ∷ rest) a =
    let (h, all) = last_char-most c rest a.1 in (omega (arith, h, a.0), (h, all))
