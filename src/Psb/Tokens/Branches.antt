-- ===== src/Psb/Tokens/Branches.antt =====
-- Arrays and objects, given that their children are read back.
use project_chronos_engine.Prelude.{
  ℕ, ◌+◌, ◌≡◌, refl, Bytes, All, List, [], ◌∷◌, ◌++◌, map, some, arith, length, length-append,
  get_elem?,
}
use project_chronos_engine.Prelude.At.{At, At-left, At-right}
use project_chronos_engine.Psb.Value.{
  ok, Value, array, object, Items, Fields, end, field, insert_field,
}
use project_chronos_engine.Psb.Emit.{Floats, write_uint_array}
use project_chronos_engine.Psb.Scan.{Read, ◌>>=◌}
use project_chronos_engine.Psb.Reader.{
  Tables, key_at, read_fields, read_items, read_array, read_object, read_typed,
}
use project_chronos_engine.Psb.Writer.{Entry}
use project_chronos_engine.Psb.Canon.{insert_all}
use project_chronos_engine.Psb.Numbers.Unsigned.{
  IsU32, read_uint_array-write_uint_array, length-le-write_uint_array,
}
use project_chronos_engine.Psb.Tokens.Layout.{starts, flat, starts-IsU32}
use project_chronos_engine.Psb.Tokens.Sorting.{chunks_of, EntriesFor}

add_zero : (n : ℕ) → n ≡ n + 0
add_zero n = omega arith

-- `e` is an entry of the key table, and its chunk is a token of `v` wherever it stands.
pub record ReadsAs (bytes : Bytes) (keys : List Bytes) (token : Read Value) (e : Entry) (v : Value)
    : Type 0 where
  pub key : get_elem? keys e.key_index ≡ some e.key
  pub small : IsU32 e.key_index
  pub child : (at : ℕ) → At bytes at e.chunk → (at' : ℕ) × (token at ≡ ok (v, at'))

key_at_entry :
    (keys : List Bytes) (e : Entry) (j : Bytes)
    → get_elem? keys e.key_index ≡ some e.key
    → e.key ≡ j
    → key_at keys e.key_index ≡ j
unfolding key_at
key_at_entry keys e j found same = rw (found, key_at) same

module _ (bytes : Bytes) (keys : List Bytes) (token : Read Value) where
  fields_back :
      (base k p : ℕ) (obj : Fields) (es : List Entry) (fs : Fields)
      → EntriesFor (ReadsAs bytes keys token) es fs
      → At bytes (base + k) (flat (chunks_of es))
      → (at' : ℕ) × (read_fields token keys base obj
            (map (λ e. e.key_index) es)
            (starts k (chunks_of es))
            p
          ≡ ok (insert_all obj fs, at'))
  unfolding read_fields starts flat insert_all
  fields_back base k p obj [] end rs h = (p, refl)
  fields_back base k p obj [] (field j v fs) rs h = absurd rs
  fields_back base k p obj (e ∷ es) end rs h = absurd rs
  fields_back base k p obj (e ∷ es) (field j v fs) rs h =
      let (mid, here) = rs.1.child (base + k) (At-left bytes (base + k) e.chunk _ h) in
      let regroup : base + k + length e.chunk ≡ base + (k + length e.chunk) = omega arith in
      let after = rw regroup at (At-right bytes (base + k) e.chunk (flat (chunks_of es)) h) in
      let (last, rest) =
        fields_back base (k + length e.chunk) mid (insert_field j v obj) es fs rs.2 after in
      (last, rw (here, ◌>>=◌, read_fields) (rw (key_at_entry keys e j rs.1.key rs.0) rest))

  key_indices-IsU32 :
      (es : List Entry) (fs : Fields)
      → EntriesFor (ReadsAs bytes keys token) es fs
      → All IsU32 (map (λ e. e.key_index) es)
  key_indices-IsU32 [] end rs = tt
  key_indices-IsU32 [] (field j v fs) rs = absurd rs
  key_indices-IsU32 (e ∷ es) end rs = absurd rs
  key_indices-IsU32 (e ∷ es) (field j v fs) rs = (rs.1.small, key_indices-IsU32 es fs rs.2)

module _ (floats : Floats) (bytes : Bytes) (t : Tables) (token : Read Value) where
  -- Behind the type byte of an array: the offsets, then the chunks.
  pub typed_array :
      (p at : ℕ) (cs : List Bytes) (items : Items)
      → IsU32 (length (write_uint_array (starts 0 cs) ++ flat cs))
      → At bytes at (write_uint_array (starts 0 cs) ++ flat cs)
      → ((base q : ℕ)
          → At bytes (base + 0) (flat cs)
          → (at' : ℕ) × (read_items token base (starts 0 cs) q ≡ ok (items, at')))
      → (at' : ℕ) × (read_typed floats bytes t token p 32 at ≡ ok (array items, at'))
  unfolding read_typed read_array
  typed_array p at cs items small h children =
      let offsets = starts 0 cs in
      let head = write_uint_array offsets in
      let total = length-append head (flat cs) in
      let count = length-le-write_uint_array offsets in
      let base = at + length head in
      let e =
        read_uint_array-write_uint_array bytes at offsets (starts-IsU32 0 cs (omega arith))
          (omega arith) (At-left bytes at head (flat cs) h) in
      let there = rw (add_zero base) at (At-right bytes at head (flat cs) h) in
      let (last, rest) = children base base there in (last, rw (e, ◌>>=◌) (rw (rest, ◌>>=◌)))

  -- Behind the type byte of an object: the key indices, the offsets, then the chunks.
  pub typed_object :
      (p at : ℕ) (es : List Entry) (fs : Fields)
      → IsU32 (
          length (
            write_uint_array (map (λ e. e.key_index) es)
            ++ (write_uint_array (starts 0 (chunks_of es)) ++ flat (chunks_of es))))
      → At bytes at (
          write_uint_array (map (λ e. e.key_index) es)
          ++ (write_uint_array (starts 0 (chunks_of es)) ++ flat (chunks_of es)))
      → EntriesFor (ReadsAs bytes t.keys token) es fs
      → (at' : ℕ) × (read_typed floats bytes t token p 33 at ≡ ok (object (insert_all end fs), at'))
  unfolding read_typed read_object
  typed_object p at es fs small h rs =
      let indices = map (λ e. e.key_index) es in
      let first = write_uint_array indices in
      let offsets = starts 0 (chunks_of es) in
      let second = write_uint_array offsets in
      let body = flat (chunks_of es) in
      let total = length-append first (second ++ body) in
      let total2 = length-append second body in
      let count = length-le-write_uint_array indices in
      let count2 = length-le-write_uint_array offsets in
      let mid = at + length first in
      let base = mid + length second in
      let e =
        read_uint_array-write_uint_array bytes at indices
          (key_indices-IsU32 bytes t.keys token es fs rs) (omega arith)
          (At-left bytes at first (second ++ body) h) in
      let h2 = At-right bytes at first (second ++ body) h in
      let e2 =
        read_uint_array-write_uint_array bytes mid offsets
          (starts-IsU32 0 (chunks_of es) (omega arith)) (omega arith)
          (At-left bytes mid second body h2) in
      let there = rw (add_zero base) at (At-right bytes mid second body h2) in
      let (last, rest) = fields_back bytes t.keys token base 0 base end es fs rs there in
      (last, rw (e, ◌>>=◌) (rw (e2, ◌>>=◌) (rw (rest, ◌>>=◌))))
