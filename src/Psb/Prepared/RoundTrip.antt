-- ===== src/Psb/Prepared/RoundTrip.antt =====
-- The tokens of a prepared writer, read with its own tables.
use project_chronos_engine.Prelude.{ℕ, ◌+◌, ◌<◌, ◌^◌, ◌≡◌, ap, ◌∙◌, Bytes, some, length}
use project_chronos_engine.Prelude.At.{At}
use project_chronos_engine.Psb.Value.{Value, ok}
use project_chronos_engine.Psb.Emit.{Floats}
use project_chronos_engine.Psb.Reader.{read_token}
use project_chronos_engine.Psb.Writer.{prepare, write_token}
use project_chronos_engine.Psb.Canon.{InRange}
use project_chronos_engine.Psb.Contents.{prepare-SameContents}
use project_chronos_engine.Psb.Contents.Canonical.{canonical, canon-canonical}
use project_chronos_engine.Psb.Numbers.Unsigned.{IsU32}
use project_chronos_engine.Psb.Tokens.RoundTrip.{read_token-write_token}
use project_chronos_engine.Psb.Tokens.Total.{token-Returns}
use project_chronos_engine.Psb.Prepared.{tables, prepare-Agrees, prepare-Covers, prepare-IsNumbered}

-- With floats that narrow to 32 bits: preparing a writer on a value of the Rust types, with fewer
-- than 2^32 keys, strings, streams and bstreams, and writing its root token returns bytes; and
-- where these are fewer than 2^32 and stand in a file, a reader with the tables of that writer
-- reads at their place the value with the fields of each object by name, and with each stream numbered by its place in the
-- tables and with the data of the first stream of the value, of its kind and in the order of the walk, that has its index.
pub read_token-prepare :
    (floats : Floats) (version : ℕ) (v : Value)
    → ((f : ℕ) → floats.narrow f < 2 ^ 32)
    → InRange v
    → IsU32 (length (prepare version v).keys)
    → IsU32 (length (prepare version v).strings)
    → IsU32 (length (prepare version v).streams)
    → IsU32 (length (prepare version v).bstreams)
    → (bs : Bytes) × (write_token floats (prepare version v) v ≡ some bs)
      × ((bytes : Bytes) (at : ℕ)
          → IsU32 (length bs)
          → At bytes at bs
          → (at' : ℕ) × (read_token floats bytes (tables (prepare version v)) (length bytes + 1) at
              ≡ ok (canonical (prepare version v) v, at')))
read_token-prepare floats version v narrow r a b c d =
    let w = prepare version v in
    let (bs, e) =
      token-Returns floats w (prepare-IsNumbered version v) v (prepare-Covers version v) in
    let by_value = canon-canonical w v (λ kind. prepare-SameContents version kind v) in
    (
      bs,
      e,
      λ bytes at small h.
          let (at', back) =
            read_token-write_token floats bytes w (tables w) v bs at
              (prepare-Agrees version v a b c d) narrow r e small h in
          (at', back ∙ ap (λ u. ok (u, at')) by_value),
    )
