-- ===== src/Psb/Tokens/Backs.antt =====
-- What reading gives back for each kind of token, from its parts.
use project_chronos_engine.Prelude.{
  ℕ, zero, suc, ◌+◌, ◌%◌, ◌^◌, ◌<◌, ◌≡◌, refl, ap, ◌∙◌, Bytes, Bool, true, false, List, [], ◌∷◌,
  ◌++◌, map, some, get_elem?-lt, get_or-some, arith, length, length-append, get_elem?, get_or,
  if◌then◌else◌,
}
use project_chronos_engine.Prelude.At.{At, At-left, At-right, At-tail}
use project_chronos_engine.Psb.Value.{
  ok, Stream, Value, null, bool, string, array, object, stream, bstream, Items, cons, Fields,
}
use project_chronos_engine.Psb.Emit.{Floats, write_uint_array, write_indexed}
use project_chronos_engine.Psb.Scan.{Read, ◌>>=◌}
use project_chronos_engine.Psb.Reader.{Tables, read_items, read_typed, read_token}
use project_chronos_engine.Psb.Writer.{
  Writer, Entry, lookup, position, array_token, object_token, sort, below_entry,
}
use project_chronos_engine.Psb.Canon.{
  canon, canon_items, canon_fields, canon_stream, sort_fields, Distinct,
}
use project_chronos_engine.Psb.Canon.Maps.{
  insert_all-end, Distinct-sort_fields, Distinct-canon_fields,
}
use project_chronos_engine.Psb.Numbers.Unsigned.{IsU32}
use project_chronos_engine.Psb.Numbers.Reads.{read_u8-At}
use project_chronos_engine.Psb.Tokens.Layout.{starts, flat, array_token_lem, object_token_lem}
use project_chronos_engine.Psb.Tokens.Leaves.{
  read_string_token, read_stream_token, read_bstream_token,
}
use project_chronos_engine.Psb.Tokens.Sorting.{chunks_of, EntriesFor, EntriesFor-sort, sort_size}
use project_chronos_engine.Psb.Tokens.Branches.{ReadsAs, typed_array, typed_object}

abbrev pub contents : List Stream → List Bytes
contents ss = map (λ s. s.content) ss

-- The reader has the tables of the writer, and the writer's indices point at what they name.
pub record Agrees (w : Writer) (t : Tables) : Type 0 where
  pub keys : (k : Bytes) (i : ℕ) → lookup k w.key_lookup ≡ some i → get_elem? t.keys i ≡ some k
  pub strings :
      (s : Bytes) (i : ℕ) → lookup s w.string_lookup ≡ some i → get_elem? t.strings i ≡ some s
  pub streams : t.streams ≡ contents w.streams
  pub bstreams : t.bstreams ≡ contents w.bstreams
  pub few_keys : IsU32 (length t.keys)
  pub few_strings : IsU32 (length t.strings)
  pub few_streams : IsU32 (length w.streams)
  pub few_bstreams : IsU32 (length w.bstreams)

-- The place of a stream holds a stream.
pub position_found :
    (index : ℕ) (ss : List Stream) (i : ℕ)
    → position index ss ≡ some i
    → (kept : Stream) × (get_elem? ss i ≡ some kept) × (get_or (contents ss) i [] ≡ kept.content)
unfolding position
position_found index [] i h = cc
position_found index (s ∷ ss) zero h = (s, refl, refl)
position_found index (s ∷ ss) (suc i) h = position_found index ss i (ground arith)

pub canon_stream_found :
    (ss : List Stream) (s kept : Stream) (i : ℕ)
    → position s.index ss ≡ some i
    → get_elem? ss i ≡ some kept
    → canon_stream ss s ≡ record { index = i; content = kept.content }
unfolding canon_stream
canon_stream_found ss s kept i p q = rw (p, canon_stream) (rw q)

module _ (floats : Floats) (bytes : Bytes) (w : Writer) (t : Tables) (agree : Agrees w t)
    (narrow_small : (f : ℕ) → floats.narrow f < 2 ^ 32) where
  -- A stream index makes the stream of the table.
  pub stream_back :
      (ss : List Stream) (table : List Bytes) (s : Stream) (i : ℕ)
      → table ≡ contents ss
      → IsU32 (length ss)
      → position s.index ss ≡ some i
      → IsU32 i
        × (◌≡◌ {A = Stream}
            (record { index = i % 2 ^ 32; content = get_or table i [] })
            (canon_stream ss s))
  stream_back ss table s i same few p =
      let (kept, there, content) = position_found s.index ss i p in
      let small = get_elem?-lt ss i kept there in
      (
        omega arith,
        rw (canon_stream_found ss s kept i p there) (λ k. record {
          index = low i (omega arith) k;
          content = (ap (λ x. get_or x i []) same ∙ content) k;
        }),
      )
    where
      low : (i : ℕ) → i < 2 ^ 32 → i % 2 ^ 32 ≡ i
      low i h = omega arith

  -- A token is read back at any fuel that is not below its length.
  abbrev pub Back : Value → ℕ → Bytes → Type 0
  Back v fuel bs =
      (at : ℕ)
      → At bytes at bs
      → (at' : ℕ) × (read_token floats bytes t fuel at ≡ ok (canon w v, at'))

  module _ (fuel : ℕ) where
    pub null-Back : Back null (suc fuel) (1 ∷ [])
    unfolding read_token read_typed canon
    null-Back at h = (at + 1, rw (read_u8-At bytes at 1 [] h, ◌>>=◌))

    pub bool-Back : (b : Bool) → Back (bool b) (suc fuel) ((if b then 3 else 2) ∷ [])
    unfolding read_token read_typed canon
    bool-Back true at h = (at + 1, rw (read_u8-At bytes at 3 [] h, ◌>>=◌))
    bool-Back false at h = (at + 1, rw (read_u8-At bytes at 2 [] h, ◌>>=◌))

    pub string-Back :
        (s : Bytes) (i : ℕ)
        → lookup s w.string_lookup ≡ some i
        → Back (string s) (suc fuel) (write_indexed 21 i)
    unfolding canon
    string-Back s i p at h =
        let there = agree.strings s i p in
        let small = get_elem?-lt t.strings i s there in
        let (last, e) = read_string_token floats bytes t fuel at i (omega arith) h in
        (last, e ∙ rw (get_or-some t.strings i s [] there))

    pub stream_token-Back :
        (s : Stream) (i : ℕ)
        → position s.index w.streams ≡ some i
        → Back (stream s) (suc fuel) (write_indexed 25 i)
    unfolding canon
    stream_token-Back s i p at h =
        let (small, same) = stream_back w.streams t.streams s i agree.streams agree.few_streams p in
        let (last, e) = read_stream_token floats bytes t fuel at i small h in (last, e ∙ rw same)

    pub bstream_token-Back :
        (s : Stream) (i : ℕ)
        → position s.index w.bstreams ≡ some i
        → Back (bstream s) (suc fuel) (write_indexed 34 i)
    unfolding canon
    bstream_token-Back s i p at h =
        let (small, same) =
          stream_back w.bstreams t.bstreams s i agree.bstreams agree.few_bstreams p in
        let (last, e) = read_bstream_token floats bytes t fuel at i small h in (last, e ∙ rw same)

    -- An array whose chunks are read back at `fuel`.
    pub array-Back :
        (items : Items) (cs : List Bytes)
        → IsU32 (length (array_token cs))
        → ((base q : ℕ)
            → At bytes (base + 0) (flat cs)
            → (at' : ℕ) × (read_items (λ p. read_token floats bytes t fuel p) base (starts 0 cs) q
                ≡ ok (canon_items w items, at')))
        → Back (array items) (suc fuel) (array_token cs)
    unfolding read_token canon
    array-Back items cs small children at h =
        let tail = write_uint_array (starts 0 cs) ++ flat cs in
        let h' : At bytes at (32 ∷ tail) = rw array_token_lem at h in
        let size : IsU32 (suc (length tail)) = rw array_token_lem at small in
        let (last, e) =
          typed_array floats bytes t (λ p. read_token floats bytes t fuel p) at (at + 1) cs
            (canon_items w items) (omega arith) (At-tail bytes at 32 tail h') children in
        (last, rw (read_u8-At bytes at 32 tail h', ◌>>=◌) e)

    pub object-Back :
        (fs : Fields) (es : List Entry)
        → Distinct fs
        → IsU32 (length (object_token (sort below_entry es)))
        → EntriesFor
            (ReadsAs bytes t.keys (λ p. read_token floats bytes t fuel p))
            es
            (canon_fields w fs)
        → Back (object fs) (suc fuel) (object_token (sort below_entry es))
    unfolding read_token canon
    object-Back fs es distinct small rs at h =
        let sorted = sort below_entry es in
        let tail =
          write_uint_array (map (λ e. e.key_index) sorted)
          ++ (write_uint_array (starts 0 (chunks_of sorted)) ++ flat (chunks_of sorted)) in
        let h' : At bytes at (33 ∷ tail) = rw object_token_lem at h in
        let size : IsU32 (suc (length tail)) = rw object_token_lem at small in
        let token : Read Value = λ p. read_token floats bytes t fuel p in
        let (last, e) =
          typed_object floats bytes t token at (at + 1) sorted (sort_fields (canon_fields w fs))
            (omega arith) (At-tail bytes at 33 tail h')
            (EntriesFor-sort (ReadsAs bytes t.keys token) es (canon_fields w fs) rs) in
        let rebuilt =
          insert_all-end (sort_fields (canon_fields w fs))
            (Distinct-sort_fields (canon_fields w fs) (Distinct-canon_fields w fs distinct)) in
        (last, rw (read_u8-At bytes at 33 tail h', ◌>>=◌) (e ∙ rw rebuilt))

  pub array_size : (cs : List Bytes) → length (flat cs) < length (array_token cs)
  array_size cs = omega (
    arith,
    ap length (array_token_lem cs),
    length-append (write_uint_array (starts 0 cs)) (flat cs),
  )

  pub object_size :
      (es : List Entry) → length (flat (chunks_of es)) < length (object_token (sort below_entry es))
  object_size es =
      let sorted = sort below_entry es in
      let indices = write_uint_array (map (λ e. e.key_index) sorted) in
      let offsets = write_uint_array (starts 0 (chunks_of sorted)) in
      omega (
        arith,
        sort_size es,
        ap length (object_token_lem sorted),
        length-append indices (offsets ++ flat (chunks_of sorted)),
        length-append offsets (flat (chunks_of sorted)),
      )

  pub some_inj : {A : Type 0} (a b : A) → some a ≡ some b → a ≡ b
  some_inj a b h = cc

  abbrev pub ItemsBack : Items → ℕ → List Bytes → Type 0
  ItemsBack items fuel cs =
      (base k q : ℕ)
      → At bytes (base + k) (flat cs)
      → (at' : ℕ) × (read_items (λ p. read_token floats bytes t fuel p) base (starts k cs) q
          ≡ ok (canon_items w items, at'))

  pub cons-Back :
      (v : Value) (rest : Items) (f : ℕ) (c : Bytes) (others : List Bytes)
      → Back v (suc f) c
      → ItemsBack rest (suc f) others
      → ItemsBack (cons v rest) (suc f) (c ∷ others)
  unfolding canon starts flat read_items
  cons-Back v rest f c others one many base k q h =
      let (mid, first) = one (base + k) (At-left bytes (base + k) c (flat others) h) in
      let regroup : base + k + length c ≡ base + (k + length c) = omega arith in
      let after = rw regroup at (At-right bytes (base + k) c (flat others) h) in
      let (last, more) = many base (k + length c) mid after in
      (last, rw (first, ◌>>=◌) (rw (more, ◌>>=◌)))

  abbrev pub EntryBack : ℕ → Entry → Value → Type 0
  EntryBack fuel = ReadsAs bytes t.keys (λ p. read_token floats bytes t fuel p)

  pub entry_back :
      (f : ℕ) (k : Bytes) (i : ℕ) (c : Bytes) (v : Value)
      → lookup k w.key_lookup ≡ some i
      → Back v (suc f) c
      → EntryBack (suc f) (record { key = k; key_index = i; chunk = c }) (canon w v)
  entry_back f k i c v found child =
      let there = agree.keys k i found in
      let low = get_elem?-lt t.keys i k there in
      let few = agree.few_keys in record { key = there; small = omega arith; child = child }
