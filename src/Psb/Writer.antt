-- ===== src/Psb/Writer.antt =====
-- editor/crates/m2-psb/src/writer.rs: the writer's tables, and the token tree that it emits.
use project_chronos_engine.Prelude.{
  ℕ, ◌+◌, Bytes, Bool, true, false, List, [], ◌∷◌, ◌++◌, map, Option, none, some, ltb, leb, ◌==◌,
  if◌then◌else◌, length, bytes_eq, and_then,
}
use project_chronos_engine.Psb.Value.{
  Stream, Value, null, bool, int, float, string, array, object, stream, bstream, Items, nil, cons,
  Fields, end, field,
}
use project_chronos_engine.Psb.Emit.{
  Floats, write_indexed, write_uint_array, write_int, write_float,
}

-- A `HashMap<String, u64>`, last insertion first.
abbrev pub Index : Type 0
Index = List (Bytes × ℕ)

unfoldable pub lookup : Bytes → Index → Option ℕ
lookup k [] = none
lookup k ((j, i) ∷ m) = if bytes_eq j k then some i else lookup k m

unfoldable pub contains_key : Bytes → Index → Bool
contains_key k m = elim (lookup k m) [ none ↦ false | some i ↦ true ]

pub record Writer : Type 0 where
  pub version : ℕ
  pub keys : List Bytes
  pub key_lookup : Index
  pub strings : List Bytes
  pub string_lookup : Index
  pub streams : List Stream
  pub bstreams : List Stream

abbrev pub new : ℕ → Writer
new version = record {
  version = version;
  keys = [];
  key_lookup = [];
  strings = [];
  string_lookup = [];
  streams = [];
  bstreams = [];
}

-- `streams.iter().any(|x| x.index == index)`
unfoldable pub any_index : ℕ → List Stream → Bool
any_index index [] = false
any_index index (s ∷ ss) = if s.index == index then true else any_index index ss

unfoldable pub add_string : Bytes → Writer → Writer
add_string s w = if contains_key s w.string_lookup then w else record w {
  string_lookup = (s, length w.strings) ∷ w.string_lookup;
  strings = w.strings ++ (s ∷ []);
}

unfoldable pub add_key : Bytes → Writer → Writer
add_key k w =
    if contains_key k w.key_lookup
    then w
    else record w { key_lookup = (k, length w.keys) ∷ w.key_lookup; keys = w.keys ++ (k ∷ []) }

unfoldable pub add_stream : Stream → Writer → Writer
add_stream s w =
    if any_index s.index w.streams then w else record w { streams = w.streams ++ (s ∷ []) }

unfoldable pub add_bstream : Stream → Writer → Writer
add_bstream s w =
    if any_index s.index w.bstreams then w else record w { bstreams = w.bstreams ++ (s ∷ []) }

-- Phase 1: the walk over the tree.
unfoldable mutual
  pub collect : Value → Writer → Writer
  collect null w = w
  collect (bool b) w = w
  collect (int n) w = w
  collect (float f) w = w
  collect (string s) w = add_string s w
  collect (array items) w = collect_items items w
  collect (object fields) w = collect_fields fields w
  collect (stream s) w = add_stream s w
  collect (bstream s) w = add_bstream s w

  pub collect_items : Items → Writer → Writer
  collect_items nil w = w
  collect_items (cons v rest) w = collect_items rest (collect v w)

  pub collect_fields : Fields → Writer → Writer
  collect_fields end w = w
  collect_fields (field k v rest) w = collect_fields rest (collect v (add_key k w))

-- The order of `str`: bytes, first difference first.
unfoldable pub leb_bytes : Bytes → Bytes → Bool
leb_bytes [] ys = true
leb_bytes (x ∷ xs) [] = false
leb_bytes (x ∷ xs) (y ∷ ys) = if x == y then leb_bytes xs ys else ltb x y

-- Stable sorting by a key, for `sort`, `sort_by` and `sort_by_key`.
module _ {A : Type 0} (below : A → A → Bool) where
  unfoldable pub insert_sorted : A → List A → List A
  insert_sorted a [] = a ∷ []
  insert_sorted a (b ∷ bs) = if below a b then a ∷ b ∷ bs else b ∷ insert_sorted a bs

  unfoldable pub sort : List A → List A
  unfolding insert_sorted
  sort [] = []
  sort (a ∷ rest) = insert_sorted a (sort rest)

-- `iter().enumerate().map(|(i, k)| (k.clone(), i)).collect()`; a later pair overwrites.
unfoldable pub index_from : ℕ → List Bytes → Index → Index
index_from i [] m = m
index_from i (k ∷ ks) m = index_from (i + 1) ks ((k, i) ∷ m)

abbrev pub below_stream : Stream → Stream → Bool
below_stream a b = leb a.index b.index

-- Phases 1 and 2: collect, then sort the tables and number their entries.
unfoldable pub prepare : ℕ → Value → Writer
unfolding sort
prepare version root =
    let w = collect root (new version) in
    let keys = sort leb_bytes w.keys in
    let strings = sort leb_bytes w.strings in
    record w {
      keys = keys;
      key_lookup = index_from 0 keys [];
      strings = strings;
      string_lookup = index_from 0 strings [];
      streams = sort below_stream w.streams;
      bstreams = sort below_stream w.bstreams;
    }

-- `streams.iter().position(|x| x.index == index)`
unfoldable pub position : ℕ → List Stream → Option ℕ
position index [] = none
position index (s ∷ ss) =
    if s.index == index then some 0 else and_then (position index ss) (λ i. some (i + 1))

-- The loops that write each child into `temp` and note where it starts.
unfoldable pub lay_out : List ℕ → Bytes → List Bytes → List ℕ × Bytes
lay_out offsets temp [] = (offsets, temp)
lay_out offsets temp (c ∷ cs) = lay_out (offsets ++ (length temp ∷ [])) (temp ++ c) cs

unfoldable pub array_token : List Bytes → Bytes
unfolding lay_out
array_token chunks =
    let (offsets, temp) = lay_out [] [] chunks in 32 ∷ (write_uint_array offsets ++ temp)

-- One encoded field of an object: its key, the index of the key, and its value's token.
pub record Entry : Type 0 where
  pub key : Bytes
  pub key_index : ℕ
  pub chunk : Bytes

abbrev pub below_entry : Entry → Entry → Bool
below_entry a b = leb_bytes a.key b.key

unfoldable pub object_token : List Entry → Bytes
unfolding lay_out
object_token sorted =
    let (offsets, temp) = lay_out [] [] (map (λ e. e.chunk) sorted) in
    33 ∷ (write_uint_array (map (λ e. e.key_index) sorted) ++ (write_uint_array offsets ++ temp))

-- Phase 3. `none` is a panic: a name or a stream that the tables do not have. What a value is written
-- as depends on the tables alone, so here the fields of an object are encoded before they are
-- sorted by key; the source sorts them first.
unfoldable mutual
  pub write_token : Floats → Writer → Value → Option Bytes
  write_token c w null = some (1 ∷ [])
  write_token c w (bool false) = some (2 ∷ [])
  write_token c w (bool true) = some (3 ∷ [])
  write_token c w (int n) = some (write_int n)
  write_token c w (float f) = some (write_float c f)
  write_token c w (string s) =
      and_then (lookup s w.string_lookup) (λ idx. some (write_indexed 21 idx))
  write_token c w (stream s) =
      and_then (position s.index w.streams) (λ idx. some (write_indexed 25 idx))
  write_token c w (bstream s) =
      and_then (position s.index w.bstreams) (λ idx. some (write_indexed 34 idx))
  write_token c w (array items) =
      and_then (write_items c w items) (λ chunks. some (array_token chunks))
  write_token c w (object fields) =
      and_then (write_fields c w fields) (λ entries. some (object_token (sort below_entry entries)))

  pub write_items : Floats → Writer → Items → Option (List Bytes)
  write_items c w nil = some []
  write_items c w (cons v rest) =
      and_then (write_token c w v)
        (λ chunk. and_then (write_items c w rest) (λ chunks. some (chunk ∷ chunks)))

  pub write_fields : Floats → Writer → Fields → Option (List Entry)
  write_fields c w end = some []
  write_fields c w (field k v rest) = and_then (lookup k w.key_lookup) (λ i.
      and_then (write_token c w v) (λ chunk.
        and_then (write_fields c w rest)
          (λ entries. some (record { key = k; key_index = i; chunk = chunk } ∷ entries))))
