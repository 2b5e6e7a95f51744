-- ===== src/Psb/Contents.antt =====
-- The streams of a value, in the order of the walk of `collect` in writer.rs, and what the tables of a prepared writer
-- hold of them.
pub mod Canonical
use project_chronos_engine.Prelude.{
  ℕ, ◌≡◌, refl, ap, sym, ◌∙◌, Bytes, Bool, true, false, List, [], ◌∷◌, ◌++◌, append_assoc,
  append-nil, Option, none, some, arith, ◌==◌, leb, if◌then◌else◌, Bool-cases, inl, inr, get_elem?,
  zero, suc,
}
use project_chronos_engine.Psb.Value.{
  Stream, Value, null, bool, int, float, string, array, object, stream, bstream, Items, nil, cons,
  Fields, end, field,
}
use project_chronos_engine.Psb.Writer.{
  Writer, contains_key, any_index, insert_sorted, sort, below_stream, prepare, position, collect,
  collect_items, collect_fields, add_string, add_key, add_stream, add_bstream, new,
}
use project_chronos_engine.Psb.Collected.{Covers}
use project_chronos_engine.Psb.Prepared.{prepare-Covers}

-- The two kinds of streams, each with a table of its own.
pub data Kind : Type 0 where
  in_streams in_bstreams : Kind

abbrev pub table_of : Kind → Writer → List Stream
table_of in_streams w = w.streams
table_of in_bstreams w = w.bstreams

abbrev one_of : Kind → Kind → Stream → List Stream
one_of in_streams in_streams s = s ∷ []
one_of in_streams in_bstreams s = []
one_of in_bstreams in_streams s = []
one_of in_bstreams in_bstreams s = s ∷ []

-- All streams of one kind, each as it stands in the value.
abbrev mutual
  pub streams_of : Kind → Value → List Stream
  streams_of kind null = []
  streams_of kind (bool b) = []
  streams_of kind (int n) = []
  streams_of kind (float f) = []
  streams_of kind (string s) = []
  streams_of kind (array items) = streams_of_items kind items
  streams_of kind (object fields) = streams_of_fields kind fields
  streams_of kind (stream s) = one_of kind in_streams s
  streams_of kind (bstream s) = one_of kind in_bstreams s

  pub streams_of_items : Kind → Items → List Stream
  streams_of_items kind nil = []
  streams_of_items kind (cons v rest) = streams_of kind v ++ streams_of_items kind rest

  pub streams_of_fields : Kind → Fields → List Stream
  streams_of_fields kind end = []
  streams_of_fields kind (field k v rest) = streams_of kind v ++ streams_of_fields kind rest

-- The data of the first stream with an index.
unfoldable pub first_content : ℕ → List Stream → Option Bytes
first_content i [] = none
first_content i (s ∷ ss) = if s.index == i then some s.content else first_content i ss

-- Two lists give each index the same data.
abbrev pub SameContents : List Stream → List Stream → Type 0
SameContents xs ys = (i : ℕ) → first_content i xs ≡ first_content i ys

abbrev or_else : Option Bytes → Option Bytes → Option Bytes
or_else none o = o
or_else (some a) o = some a

first_content-joined :
    (i : ℕ) (xs zs : List Stream)
    → first_content i (xs ++ zs) ≡ or_else (first_content i xs) (first_content i zs)
unfolding first_content
first_content-joined i [] zs = refl
first_content-joined i (x ∷ xs) zs = elim (Bool-cases (x.index == i)) [
  | inl e ↦ rw e refl
  | inr e ↦ rw e (first_content-joined i xs zs)
]

first_content-append :
    (i : ℕ) (xs ys zs : List Stream)
    → first_content i xs ≡ first_content i ys
    → first_content i (xs ++ zs) ≡ first_content i (ys ++ zs)
first_content-append i xs ys zs h =
    first_content-joined i xs zs
    ∙ ap (λ o. or_else o (first_content i zs)) h
    ∙ sym (first_content-joined i ys zs)

first_content-snoc_other :
    (i : ℕ) (s : Stream) (xs : List Stream)
    → (s.index == i) ≡ false
    → first_content i xs ≡ first_content i (xs ++ (s ∷ []))
unfolding first_content
first_content-snoc_other i s [] h = rw h refl
first_content-snoc_other i s (x ∷ xs) h = elim (Bool-cases (x.index == i)) [
  | inl e ↦ rw e refl
  | inr e ↦ rw e (first_content-snoc_other i s xs h)
]

-- A stream whose index is there already adds nothing.
first_content-snoc_old :
    (i : ℕ) (s : Stream) (xs : List Stream)
    → any_index s.index xs ≡ true
    → first_content i xs ≡ first_content i (xs ++ (s ∷ []))
unfolding first_content any_index
first_content-snoc_old i s [] h = cc
first_content-snoc_old i s (x ∷ xs) h = elim (Bool-cases (x.index == i)) [
  | inl e ↦ rw e refl
  | inr e ↦ rw e (elim (Bool-cases (x.index == s.index)) [
    | inl same ↦ first_content-snoc_other i s xs (ground arith)
    | inr other ↦ first_content-snoc_old i s xs (rw (other, any_index) at h)
  ])
]

first_content-insert :
    (i : ℕ) (x : Stream) (xs : List Stream)
    → first_content i (insert_sorted below_stream x xs) ≡ first_content i (x ∷ xs)
unfolding first_content insert_sorted
first_content-insert i x [] = refl
first_content-insert i x (y ∷ xs) = ground (arith, first_content-insert i x xs)

first_content-sort : (xs : List Stream) → SameContents (sort below_stream xs) xs
unfolding first_content sort
first_content-sort [] i = refl
first_content-sort (x ∷ xs) i =
    first_content-insert i x (sort below_stream xs) ∙ rw (first_content-sort xs i) refl

string-tables :
    (kind : Kind) (s : Bytes) (w : Writer) → table_of kind (add_string s w) ≡ table_of kind w
unfolding add_string
string-tables in_streams s w = elim (Bool-cases (contains_key s w.string_lookup)) [
  | inl e ↦ rw e refl
  | inr e ↦ rw e refl
]
string-tables in_bstreams s w = elim (Bool-cases (contains_key s w.string_lookup)) [
  | inl e ↦ rw e refl
  | inr e ↦ rw e refl
]

key-tables : (kind : Kind) (k : Bytes) (w : Writer) → table_of kind (add_key k w) ≡ table_of kind w
unfolding add_key
key-tables in_streams k w = elim (Bool-cases (contains_key k w.key_lookup)) [
  | inl e ↦ rw e refl
  | inr e ↦ rw e refl
]
key-tables in_bstreams k w = elim (Bool-cases (contains_key k w.key_lookup)) [
  | inl e ↦ rw e refl
  | inr e ↦ rw e refl
]

stream-tables :
    (kind : Kind) (s : Stream) (w : Writer)
    → SameContents (table_of kind (add_stream s w)) (table_of kind w ++ one_of kind in_streams s)
unfolding add_stream
stream-tables in_streams s w i = elim (Bool-cases (any_index s.index w.streams)) [
  | inl e ↦ rw e (first_content-snoc_old i s w.streams e)
  | inr e ↦ rw e refl
]
stream-tables in_bstreams s w i = elim (Bool-cases (any_index s.index w.streams)) [
  | inl e ↦ rw (e, append-nil w.bstreams) refl
  | inr e ↦ rw (e, append-nil w.bstreams) refl
]

bstream-tables :
    (kind : Kind) (s : Stream) (w : Writer)
    → SameContents (table_of kind (add_bstream s w)) (table_of kind w ++ one_of kind in_bstreams s)
unfolding add_bstream
bstream-tables in_bstreams s w i = elim (Bool-cases (any_index s.index w.bstreams)) [
  | inl e ↦ rw e (first_content-snoc_old i s w.bstreams e)
  | inr e ↦ rw e refl
]
bstream-tables in_streams s w i = elim (Bool-cases (any_index s.index w.bstreams)) [
  | inl e ↦ rw (e, append-nil w.streams) refl
  | inr e ↦ rw (e, append-nil w.streams) refl
]

-- Two parts of a value, one after the other.
both_parts :
    (i : ℕ) (old first all xs ys : List Stream)
    → first_content i first ≡ first_content i (old ++ xs)
    → first_content i all ≡ first_content i (first ++ ys)
    → first_content i all ≡ first_content i (old ++ (xs ++ ys))
both_parts i old first all xs ys h k =
    k
    ∙ first_content-append i first (old ++ xs) ys h
    ∙ ap (first_content i) (append_assoc old xs ys)

-- The walk appends the streams of the value, where their indices are new.
mutual
  unfolding collect

  collect-SameContents :
      (kind : Kind) (v : Value) (w : Writer)
      → SameContents (table_of kind (collect v w)) (table_of kind w ++ streams_of kind v)
  collect-SameContents kind null w i = rw (append-nil (table_of kind w)) refl
  collect-SameContents kind (bool b) w i = rw (append-nil (table_of kind w)) refl
  collect-SameContents kind (int n) w i = rw (append-nil (table_of kind w)) refl
  collect-SameContents kind (float f) w i = rw (append-nil (table_of kind w)) refl
  collect-SameContents kind (string s) w i =
      rw (append-nil (table_of kind w)) (ap (first_content i) (string-tables kind s w))
  collect-SameContents kind (array items) w i = items-SameContents kind items w i
  collect-SameContents kind (object fields) w i = fields-SameContents kind fields w i
  collect-SameContents kind (stream s) w i = stream-tables kind s w i
  collect-SameContents kind (bstream s) w i = bstream-tables kind s w i

  items-SameContents :
      (kind : Kind) (items : Items) (w : Writer)
      → SameContents
          (table_of kind (collect_items items w))
          (table_of kind w ++ streams_of_items kind items)
  items-SameContents kind nil w i = rw (append-nil (table_of kind w)) refl
  items-SameContents kind (cons v rest) w i =
      both_parts i (table_of kind w) (table_of kind (collect v w))
        (table_of kind (collect_items rest (collect v w))) (streams_of kind v)
        (streams_of_items kind rest) (collect-SameContents kind v w i)
        (items-SameContents kind rest (collect v w) i)

  fields-SameContents :
      (kind : Kind) (fields : Fields) (w : Writer)
      → SameContents
          (table_of kind (collect_fields fields w))
          (table_of kind w ++ streams_of_fields kind fields)
  fields-SameContents kind end w i = rw (append-nil (table_of kind w)) refl
  fields-SameContents kind (field k v rest) w i =
      both_parts i (table_of kind w) (table_of kind (collect v (add_key k w)))
        (table_of kind (collect_fields rest (collect v (add_key k w)))) (streams_of kind v)
        (streams_of_fields kind rest)
        (collect-SameContents kind v (add_key k w) i
          ∙ ap (λ t. first_content i (t ++ streams_of kind v)) (key-tables kind k w))
        (fields-SameContents kind rest (collect v (add_key k w)) i)

pub prepare-SameContents :
    (version : ℕ) (kind : Kind) (v : Value)
    → SameContents (table_of kind (prepare version v)) (streams_of kind v)
unfolding prepare
prepare-SameContents version in_streams v i =
    first_content-sort (collect v (new version)).streams i
    ∙ collect-SameContents in_streams v (new version) i
prepare-SameContents version in_bstreams v i =
    first_content-sort (collect v (new version)).bstreams i
    ∙ collect-SameContents in_bstreams v (new version) i

-- The tables hold all names of a value, and of the two kinds of streams just the indices that it has, each with the data
-- of the first stream that has it.
abbrev pub Holds : Writer → Value → Type 0
Holds w v = Covers w v × ((kind : Kind) → SameContents (table_of kind w) (streams_of kind v))

-- Once a writer is prepared on a value, its tables hold every key and every string of the value; and its table of streams,
-- as that of bstreams, has an index exactly where the value has a stream of that kind with it, and there the data of the
-- first of these in the order of the walk.
pub prepare-Holds : (version : ℕ) (v : Value) → Holds (prepare version v) v
prepare-Holds version v = (prepare-Covers version v, λ kind. prepare-SameContents version kind v)
