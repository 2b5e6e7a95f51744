-- ===== src/Psb/Contents/Canonical.antt =====
-- The canonical form of a value from the value itself: its streams keep their data and get the numbers of the tables.
use project_chronos_engine.Prelude.{
  ℕ, ◌≡◌, refl, ap, sym, ◌∙◌, subst, List, [], ◌∷◌, none, some, arith, ◌==◌, Bool-cases, inl, inr,
  get_elem?, suc, Option-cases, Option, Bytes,
}
use project_chronos_engine.Psb.Value.{
  Stream, Value, null, bool, int, float, string, array, object, stream, bstream, Items, nil, cons,
  Fields, end, field,
}
use project_chronos_engine.Psb.Writer.{Writer, position}
use project_chronos_engine.Psb.Canon.{canon, canon_items, canon_fields, canon_stream, sort_fields}
use project_chronos_engine.Psb.Tokens.Backs.{canon_stream_found}
use project_chronos_engine.Psb.Contents.{
  Kind, in_streams, in_bstreams, table_of, streams_of, first_content, SameContents,
}

-- The value with each stream replaced.
unfoldable mutual
  pub with_streams : (Kind → Stream → Stream) → Value → Value
  with_streams f null = null
  with_streams f (bool b) = bool b
  with_streams f (int n) = int n
  with_streams f (float x) = float x
  with_streams f (string s) = string s
  with_streams f (array items) = array (items_with_streams f items)
  with_streams f (object fields) = object (sort_fields (fields_with_streams f fields))
  with_streams f (stream s) = stream (f in_streams s)
  with_streams f (bstream s) = bstream (f in_bstreams s)

  pub items_with_streams : (Kind → Stream → Stream) → Items → Items
  items_with_streams f nil = nil
  items_with_streams f (cons v rest) = cons (with_streams f v) (items_with_streams f rest)

  pub fields_with_streams : (Kind → Stream → Stream) → Fields → Fields
  fields_with_streams f end = end
  fields_with_streams f (field k v rest) = field k (with_streams f v) (fields_with_streams f rest)

abbrev pub placed_stream : Stream → Option ℕ → Option Bytes → Stream
placed_stream s none c = s
placed_stream s (some i) none = s
placed_stream s (some i) (some c) = record { index = i; content = c }

-- A stream under its place in the writer's table, with the data of the first stream of the value with its index.
abbrev pub renumbered : Writer → Value → Kind → Stream → Stream
renumbered w v kind s =
    placed_stream s (position s.index (table_of kind w)) (first_content s.index (streams_of kind v))

-- The value that is read back: the fields of each object by name, and its streams renumbered.
abbrev pub canonical : Writer → Value → Value
canonical w v = with_streams (renumbered w v) v

module _ (w : Writer) (f : Kind → Stream → Stream)
    (same : (kind : Kind) (s : Stream) → canon_stream (table_of kind w) s ≡ f kind s) where
  mutual
    unfolding canon with_streams

    canon-with_streams : (v : Value) → canon w v ≡ with_streams f v
    canon-with_streams null = refl
    canon-with_streams (bool b) = refl
    canon-with_streams (int n) = refl
    canon-with_streams (float x) = refl
    canon-with_streams (string s) = refl
    canon-with_streams (array items) = ap array (canon_items-with_streams items)
    canon-with_streams (object fields) =
        ap (λ fs. object (sort_fields fs)) (canon_fields-with_streams fields)
    canon-with_streams (stream s) = ap stream (same in_streams s)
    canon-with_streams (bstream s) = ap bstream (same in_bstreams s)

    canon_items-with_streams : (items : Items) → canon_items w items ≡ items_with_streams f items
    canon_items-with_streams nil = refl
    canon_items-with_streams (cons v rest) =
        rw (canon-with_streams v, canon_items-with_streams rest) refl

    canon_fields-with_streams :
        (fields : Fields) → canon_fields w fields ≡ fields_with_streams f fields
    canon_fields-with_streams end = refl
    canon_fields-with_streams (field k v rest) =
        rw (canon-with_streams v, canon_fields-with_streams rest) refl

-- The place of an index holds the first data of this index.
position-first_content :
    (index : ℕ) (ss : List Stream) (i : ℕ)
    → position index ss ≡ some i
    → (kept : Stream) × (get_elem? ss i ≡ some kept) × (first_content index ss ≡ some kept.content)
unfolding position first_content
position-first_content index [] i h = cc
position-first_content index (s ∷ ss) i h = elim (Bool-cases (s.index == index)) [
  | inl here ↦
      let at : 0 ≡ i = ground (arith, rw (here, position) at h) in
      (s, subst (λ n. get_elem? (s ∷ ss) n ≡ some s) at refl, rw here refl)
  | inr later ↦ elim (Option-cases (position index ss)) [
    | inl e ↦ (let h' = rw (later, position, e) at h in cc)
    | inr (j, e) ↦
        let at : suc j ≡ i = ground (arith, rw (later, position, e) at h) in
        let (kept, there, data_) = position-first_content index ss j e in
        (kept, subst (λ n. get_elem? (s ∷ ss) n ≡ some kept) at there, rw later data_)
  ]
]

canon_stream-none :
    (ss : List Stream) (s : Stream) → position s.index ss ≡ none → canon_stream ss s ≡ s
unfolding canon_stream
canon_stream-none ss s e = rw (e, canon_stream) refl

canon_stream-renumbered :
    (w : Writer) (v : Value)
    → ((kind : Kind) → SameContents (table_of kind w) (streams_of kind v))
    → (kind : Kind) (s : Stream) → canon_stream (table_of kind w) s ≡ renumbered w v kind s
canon_stream-renumbered w v same kind s =
    let data_ = first_content s.index (streams_of kind v) in
    elim (Option-cases (position s.index (table_of kind w))) [
      | inl e ↦ canon_stream-none (table_of kind w) s e ∙ sym (ap (λ o. placed_stream s o data_) e)
      | inr (i, e) ↦
          let (kept, there, found) = position-first_content s.index (table_of kind w) i e in
          canon_stream_found (table_of kind w) s kept i e there
          ∙ sym (ap (λ o. placed_stream s (some i) o) (sym (same kind s.index) ∙ found))
          ∙ sym (ap (λ o. placed_stream s o data_) e)
    ]

-- For a writer that holds a value's streams, the canonical form by its tables is that by the value.
pub canon-canonical :
    (w : Writer) (v : Value)
    → ((kind : Kind) → SameContents (table_of kind w) (streams_of kind v))
    → canon w v ≡ canonical w v
canon-canonical w v same =
    canon-with_streams w (renumbered w v) (canon_stream-renumbered w v same) v
