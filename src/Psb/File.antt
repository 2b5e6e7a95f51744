-- ===== src/Psb/File.antt =====
-- editor/crates/m2-psb/src/writer.rs: `write`, the layout of a whole file.
use project_chronos_engine.Prelude.{
  ℕ, ◌+◌, ◌*◌, ◌%◌, ◌^◌, Bytes, List, [], ◌∷◌, ◌++◌, map, Option, some, leb, if◌then◌else◌, length,
  le_bytes, take, drop, replicate, and_then,
}
use project_chronos_engine.Psb.Value.{Stream, Value}
use project_chronos_engine.Psb.Emit.{Floats, write_uint_array, align_up, align, adler32}
use project_chronos_engine.Psb.Trie.{build}
use project_chronos_engine.Psb.Writer.{Writer, prepare, write_token}

-- `len as u32`
abbrev pub here : Bytes → ℕ
here buf = length buf % 2 ^ 32

unfoldable pub write_u32_at : Bytes → ℕ → ℕ → Bytes
write_u32_at buf pos v = take pos buf ++ (le_bytes 4 v ++ drop (pos + 4) buf)

-- The offsets and the blob of the NUL-terminated strings.
unfoldable pub string_table : List ℕ → Bytes → List Bytes → List ℕ × Bytes
string_table offsets blob [] = (offsets, blob)
string_table offsets blob (s ∷ ss) =
    string_table (offsets ++ (length blob ∷ [])) (blob ++ (s ++ (0 ∷ []))) ss

-- The `scan` over the aligned sizes, from `acc`.
unfoldable pub stream_offsets : ℕ → List Stream → List ℕ
unfolding align_up
stream_offsets acc [] = []
stream_offsets acc (s ∷ ss) = acc ∷ stream_offsets (acc + align_up (length s.content) 32) ss

unfoldable pub write_blobs : Bytes → List Stream → Bytes
unfolding align
write_blobs buf [] = buf
write_blobs buf (s ∷ ss) = write_blobs (align (buf ++ s.content) 32) ss

-- The two arrays and the blob of a stream table, behind `buf`; with the three offsets.
pub record Section : Type 0 where
  pub buf : Bytes
  pub offsets : ℕ
  pub sizes : ℕ
  pub blob : ℕ

unfoldable pub write_streams : Bytes → List Stream → Section
unfolding stream_offsets write_blobs
write_streams buf streams =
    let offsets = here buf in
    let buf1 = buf ++ write_uint_array (stream_offsets 0 streams) in
    let sizes = here buf1 in
    let buf2 = align (buf1 ++ write_uint_array (map (λ s. length s.content) streams)) 32 in
    record { buf = write_blobs buf2 streams; offsets = offsets; sizes = sizes; blob = here buf2 }

-- The header words one after the other from `pos`.
unfoldable pub backfill : Bytes → ℕ → List ℕ → Bytes
unfolding write_u32_at
backfill buf pos [] = buf
backfill buf pos (v ∷ vs) = backfill (write_u32_at buf pos v) (pos + 4) vs

unfoldable pub le_words : List ℕ → Bytes
le_words [] = []
le_words (v ∷ vs) = le_bytes 4 v ++ le_words vs

unfoldable pub num_offsets : ℕ → ℕ
num_offsets version = 8 + (if leb 3 version then 1 else 0) + (if leb 4 version then 3 else 0)

-- The checksum and the offsets of the bstreams, behind the eight first words at byte 8. The source
-- takes the checksum's input from the buffer, where the eight words stand by then.
unfoldable pub header_words : ℕ → List ℕ → List ℕ → List ℕ
unfolding le_words
header_words version words bs =
    if leb 4 version
    then words ++ (adler32 (le_words words ++ le_words bs) ∷ bs)
    else if leb 3 version
    then words ++ (adler32 (le_words words) ∷ [])
    else words

-- Phase 3 over the prepared tables. `none` is a panic of `build` or of `write_token`.
unfoldable pub emit : Floats → Writer → Value → Option Bytes
emit c w root =
    let head = 80 ∷ 83 ∷ 66 ∷ 0 ∷ (le_bytes 2 w.version ++ le_bytes 2 0) in
    let buf0 = head ++ replicate (num_offsets w.version * 4) 0 in
    let keys = here buf0 in
    and_then (build w.keys) λ trie.
      let buf1 =
        buf0
        ++ (write_uint_array trie.value_offsets
            ++ (write_uint_array trie.tree ++ write_uint_array trie.tails)) in
      and_then (write_token c w root) λ token.
        let buf2 = buf1 ++ token in
        let (offsets, blob) = string_table [] [] w.strings in
        let buf3 = buf2 ++ write_uint_array offsets in
        let buf4 = buf3 ++ blob in
        let bs =
          if leb 4 w.version
          then write_streams buf4 w.bstreams
          else (record { buf = buf4; offsets = 0; sizes = 0; blob = 0 }) in
        let ss = write_streams bs.buf w.streams in
        let words =
          keys ∷ keys ∷ here buf2 ∷ here buf3 ∷ ss.offsets ∷ ss.sizes ∷ ss.blob ∷ here buf1 ∷ [] in
        some
          (backfill ss.buf 8 (header_words w.version words (bs.offsets ∷ bs.sizes ∷ bs.blob ∷ [])))

-- `write`; the source returns `Ok` of it.
unfoldable pub write : Floats → Value → ℕ → Option Bytes
write c value version = emit c (prepare version value) value
