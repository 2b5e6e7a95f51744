-- ===== src/Psb/Parse.antt =====
-- editor/crates/m2-psb/src/reader.rs: the tables of a file, and `parse`.
pub mod Hostile
use project_chronos_engine.Prelude.{
  ℕ, zero, suc, ◌+◌, ◌-◌, ◌*◌, ◌%◌, ◌^◌, Bytes, Bool, true, false, not, List, [], ◌∷◌, Option, none,
  some, ltb, leb, ◌==◌, if◌then◌else◌, length, get_or, drop, bytes_eq, take,
}
use project_chronos_engine.Psb.Value.{Value, Result, ok, err, stuck, panicked, truncated, bad_magic}
use project_chronos_engine.Psb.Emit.{Floats}
use project_chronos_engine.Psb.Scan.{
  Read, ◌>>=◌, pure, fail, seek, read_u16, read_u32, read_bytes, read_uint_array,
}
use project_chronos_engine.Psb.Reader.{Tables, read_token}

-- The bytes up to the first NUL, or to the end.
unfoldable pub until_nul : Bytes → Bytes
until_nul [] = []
until_nul (b ∷ bs) = let rest = until_nul bs in if b == 0 then [] else b ∷ rest

-- `String::from_utf8_lossy` is `lossy`; the file is `bytes`.
module _ (lossy : Bytes → Bytes) (bytes : Bytes) where
  -- `&self.data[start..end]` panics when `start` is past the end of the file.
  unfoldable pub read_cstring_at : ℕ → Read Bytes
  unfolding until_nul
  read_cstring_at start at =
      if leb start (length bytes) then ok (lossy (until_nul (drop start bytes)), at) else panicked

  unfoldable pub read_cstrings : ℕ → List ℕ → Read (List Bytes)
  read_cstrings blob_offset [] = pure []
  read_cstrings blob_offset (off ∷ offsets) = do
    s ← read_cstring_at (blob_offset + off)
    rest ← read_cstrings blob_offset offsets
    pure (s ∷ rest)

  unfoldable pub read_strings : ℕ → Read (List Bytes)
  read_strings blob_offset = do offsets ← read_uint_array bytes; read_cstrings blob_offset offsets

  unfoldable pub read_key_names_v1 : ℕ → Read (List Bytes)
  read_key_names_v1 blob_offset = do
    offsets ← read_uint_array bytes
    read_cstrings blob_offset offsets

-- `current.wrapping_sub(parent_off) as u8`
unfoldable pub step_byte : ℕ → ℕ → ℕ
step_byte current parent_off = (current + 2 ^ 64 - parent_off) % 2 ^ 64 % 256

-- `while current != 0`, from a node up to the root. The source pushes the bytes and reverses them.
unfoldable pub walk : List ℕ → List ℕ → ℕ → ℕ → Bytes → Option Bytes
walk value_offsets tree zero current name = if current == 0 then some name else none
walk value_offsets tree (suc fuel) current name =
    let parent = get_or tree current 0 in
    let parent_off = get_or value_offsets parent 0 in
    let up = walk value_offsets tree fuel parent (step_byte current parent_off ∷ name) in
    if current == 0 then some name else up

module _ (lossy : Bytes → Bytes) (fuel : ℕ) (value_offsets tree : List ℕ) where
  unfoldable pub read_names : List ℕ → Read (List Bytes)
  read_names [] = pure []
  read_names (tail ∷ tails) = elim (walk value_offsets tree fuel (get_or tree tail 0) []) [
    | none ↦ (λ at. stuck)
    | some name ↦ (do rest ← read_names tails; pure (lossy name ∷ rest))
  ]

unfoldable pub read_key_names_v2 : (Bytes → Bytes) → ℕ → Bytes → Read (List Bytes)
read_key_names_v2 lossy fuel bytes = do
  value_offsets ← read_uint_array bytes
  tree ← read_uint_array bytes
  tails ← read_uint_array bytes
  read_names lossy fuel value_offsets tree tails

module _ (bytes : Bytes) where
  unfoldable pub cut_streams : ℕ → List ℕ → List ℕ → Read (List Bytes)
  cut_streams data_offset [] sizes = pure []
  cut_streams data_offset (off ∷ offsets) [] = pure []
  cut_streams data_offset (off ∷ offsets) (size ∷ sizes) =
      let start = data_offset + off in
      if ltb (length bytes) (start + size) then fail (truncated (start + size)) else (do
        rest ← cut_streams data_offset offsets sizes
        pure (take size (drop start bytes) ∷ rest))

  unfoldable pub read_streams : ℕ → ℕ → ℕ → Read (List Bytes)
  read_streams offsets_offset sizes_offset data_offset = do
    offsets ← seek offsets_offset (read_uint_array bytes)
    sizes ← seek sizes_offset (read_uint_array bytes)
    cut_streams data_offset offsets sizes

-- The offsets of the header. The last three are 0 before version 4.
pub record Header : Type 0 where
  pub version : ℕ
  pub keys_offsets : ℕ
  pub keys_blob : ℕ
  pub strings_offsets : ℕ
  pub strings_blob : ℕ
  pub streams_offsets : ℕ
  pub streams_sizes : ℕ
  pub streams_blob : ℕ
  pub root : ℕ
  pub bstreams_offsets : ℕ
  pub bstreams_sizes : ℕ
  pub bstreams_blob : ℕ

module _ (bytes : Bytes) where
  -- The checksum is read and not compared.
  unfoldable pub read_checksum : ℕ → Read (Unit {0})
  read_checksum version = if leb 3 version then (do checksum ← read_u32 bytes; pure tt) else pure tt

  unfoldable pub read_bstream_offsets : ℕ → Read (ℕ × ℕ × ℕ)
  read_bstream_offsets version =
      if leb 4 version
      then (do a ← read_u32 bytes; b ← read_u32 bytes; c ← read_u32 bytes; pure (a, b, c))
      else pure (0, 0, 0)

  unfoldable pub read_header : Read Header
  unfolding read_checksum read_bstream_offsets
  read_header = do
    magic ← read_bytes bytes 4
    if bytes_eq magic (80 ∷ 83 ∷ 66 ∷ 0 ∷ [])
        then (do
          version ← read_u16 bytes
          flags ← read_u16 bytes
          keys_offsets ← read_u32 bytes
          keys_blob ← read_u32 bytes
          strings_offsets ← read_u32 bytes
          strings_blob ← read_u32 bytes
          streams_offsets ← read_u32 bytes
          streams_sizes ← read_u32 bytes
          streams_blob ← read_u32 bytes
          root ← read_u32 bytes
          checksum ← read_checksum version
          bstreams ← read_bstream_offsets version
          pure (record {
            version = version;
            keys_offsets = keys_offsets;
            keys_blob = keys_blob;
            strings_offsets = strings_offsets;
            strings_blob = strings_blob;
            streams_offsets = streams_offsets;
            streams_sizes = streams_sizes;
            streams_blob = streams_blob;
            root = root;
            bstreams_offsets = bstreams.0;
            bstreams_sizes = bstreams.1;
            bstreams_blob = bstreams.2;
          }))
        else fail bad_magic

module _ (floats : Floats) (lossy : Bytes → Bytes) (fuel : ℕ) (bytes : Bytes) where
  unfoldable pub read_tables : Header → Read Tables
  read_tables h = do
    keys ←
        if h.version == 1
        then seek h.keys_offsets (read_key_names_v1 lossy bytes h.keys_blob)
        else seek h.keys_blob (read_key_names_v2 lossy fuel bytes)
    strings ← seek h.strings_offsets (read_strings lossy bytes h.strings_blob)
    streams ← read_streams bytes h.streams_offsets h.streams_sizes h.streams_blob
    bstreams ←
        if leb 4 h.version
        then read_streams bytes h.bstreams_offsets h.bstreams_sizes h.bstreams_blob
        else pure []
    pure (record { keys = keys; strings = strings; streams = streams; bstreams = bstreams })

  -- `Reader::parse`. Each walk up the key tree has `fuel` rounds.
  unfoldable pub parse : Read Value
  parse = do
    h ← read_header bytes
    tables ← read_tables h
    seek h.root (read_token floats bytes tables (length bytes + 1))

-- `read`: a parse from the start of the file.
unfoldable pub read : Floats → (Bytes → Bytes) → ℕ → Bytes → Result Value
read floats lossy fuel bytes = elim (parse floats lossy fuel bytes 0) [
  | ok (v, at) ↦ ok v
  | err e ↦ err e
  | panicked ↦ panicked
  | stuck ↦ stuck
]
