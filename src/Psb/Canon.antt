-- ===== src/Psb/Canon.antt =====
-- What a value becomes in a file: fields in the order of their keys, and each stream numbered by
-- its place in the stream table. This is the specification that the writer and the reader meet.
pub mod Maps
use project_chronos_engine.Prelude.{
  ℕ, ◌^◌, ◌<◌, ◌≡◌, refl, ap, ◌∙◌, Bytes, Bool, true, false, ◌||◌, List, [], ◌∷◌, Option, none,
  some, get_elem?, bytes_eq, if◌then◌else◌, arith, bytes_eq→eq, bytes_eq_refl,
}
use project_chronos_engine.Prelude.Int.{IsI64}
use project_chronos_engine.Psb.Value.{
  Stream, Value, null, bool, int, float, string, array, object, stream, bstream, Items, nil, cons,
  Fields, end, field, insert_field,
}
use project_chronos_engine.Psb.Writer.{Writer, leb_bytes, position}

unfoldable pub insert_sorted_field : Bytes → Value → Fields → Fields
insert_sorted_field k v end = field k v end
insert_sorted_field k v (field j u fs) =
    if leb_bytes k j then field k v (field j u fs) else field j u (insert_sorted_field k v fs)

unfoldable pub sort_fields : Fields → Fields
sort_fields end = end
sort_fields (field k v fs) = insert_sorted_field k v (sort_fields fs)

-- The stream that stands in the table for one with the index of `s`.
unfoldable pub canon_stream : List Stream → Stream → Stream
canon_stream table s = elim (position s.index table) [
  | none ↦ s
  | some i ↦ elim (get_elem? table i) [
    | none ↦ s
    | some kept ↦ record { index = i; content = kept.content }
  ]
]

unfoldable mutual
  pub canon : Writer → Value → Value
  canon w null = null
  canon w (bool b) = bool b
  canon w (int n) = int n
  canon w (float f) = float f
  canon w (string s) = string s
  canon w (array items) = array (canon_items w items)
  canon w (object fields) = object (sort_fields (canon_fields w fields))
  canon w (stream s) = stream (canon_stream w.streams s)
  canon w (bstream s) = bstream (canon_stream w.bstreams s)

  pub canon_items : Writer → Items → Items
  canon_items w nil = nil
  canon_items w (cons v rest) = cons (canon w v) (canon_items w rest)

  pub canon_fields : Writer → Fields → Fields
  canon_fields w end = end
  canon_fields w (field k v rest) = field k (canon w v) (canon_fields w rest)

unfoldable pub has_key : Bytes → Fields → Bool
has_key k end = false
has_key k (field j v fs) = if bytes_eq j k then true else has_key k fs

-- No key twice, as in every `IndexMap`.
abbrev pub Distinct : Fields → Type 0
Distinct end = Unit {0}
Distinct (field k v fs) = (has_key k fs ≡ false) × Distinct fs

-- The values that the Rust types allow: an i64, the 64 bits of an f64, maps without repeated keys.
abbrev mutual
  pub InRange : Value → Type 0
  InRange null = Unit {0}
  InRange (bool b) = Unit {0}
  InRange (int n) = IsI64 n
  InRange (float f) = f < 2 ^ 64
  InRange (string s) = Unit {0}
  InRange (array items) = InRangeItems items
  InRange (object fields) = Distinct fields × InRangeFields fields
  InRange (stream s) = Unit {0}
  InRange (bstream s) = Unit {0}

  pub InRangeItems : Items → Type 0
  InRangeItems nil = Unit {0}
  InRangeItems (cons v rest) = InRange v × InRangeItems rest

  pub InRangeFields : Fields → Type 0
  InRangeFields end = Unit {0}
  InRangeFields (field k v rest) = InRange v × InRangeFields rest

-- Insertion of every field in turn, as the reader rebuilds a map.
unfoldable pub insert_all : Fields → Fields → Fields
insert_all obj end = obj
insert_all obj (field k v fs) = insert_all (insert_field k v obj) fs

unfoldable pub append_fields : Fields → Fields → Fields
append_fields end gs = gs
append_fields (field k v fs) gs = field k v (append_fields fs gs)
