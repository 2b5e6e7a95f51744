-- ===== src/Psb/Tokens/RoundTrip.antt =====
-- `write_token` of writer.rs against `read_token` of reader.rs.
use project_chronos_engine.Prelude.{
  ℕ, zero, suc, ◌+◌, ◌^◌, ◌≤◌, ◌<◌, ◌≡◌, refl, ap, subst, Bytes, true, false, List, ◌∷◌, some,
  arith, length, length-append, and_then-eq-some,
}
use native.Mathlib.Numerals.{add-one}
use project_chronos_engine.Prelude.At.{At, At-le}
use project_chronos_engine.Psb.Value.{
  ok, Value, null, bool, int, float, string, array, object, stream, bstream, Items, nil, cons,
  Fields, end, field,
}
use project_chronos_engine.Psb.Emit.{Floats}
use project_chronos_engine.Psb.Reader.{Tables, read_items, read_token}
use project_chronos_engine.Psb.Writer.{
  Writer, Entry, lookup, position, array_token, object_token, write_token, write_items,
  write_fields, sort, below_entry,
}
use project_chronos_engine.Psb.Canon.{canon, canon_fields, InRange, InRangeItems, InRangeFields}
use project_chronos_engine.Psb.Numbers.Unsigned.{IsU32}
use project_chronos_engine.Psb.Numbers.Signed.{read_token-write_int}
use project_chronos_engine.Psb.Tokens.Layout.{starts, flat}
use project_chronos_engine.Psb.Tokens.Leaves.{read_token-write_float}
use project_chronos_engine.Psb.Tokens.Sorting.{chunks_of, EntriesFor}
use project_chronos_engine.Psb.Tokens.Branches.{ReadsAs}
use project_chronos_engine.Psb.Tokens.Backs.{
  null-Back, bool-Back, string-Back, stream_token-Back, bstream_token-Back, array-Back, object-Back,
  Agrees, Back, array_size, object_size, some_inj, ItemsBack, cons-Back, EntryBack, entry_back,
}

module _ (floats : Floats) (bytes : Bytes) (w : Writer) (t : Tables) (agree : Agrees w t)
    (narrow_small : (f : ℕ) → floats.narrow f < 2 ^ 32) where
  -- The mutual induction on the value. `fuel` bounds the length of the token.
  mutual
    unfolding write_token canon starts flat read_items

    token-Back :
        (v : Value) (fuel : ℕ) (bs : Bytes)
        → write_token floats w v ≡ some bs
        → InRange v
        → length bs ≤ fuel
        → IsU32 (length bs)
        → Back floats bytes w t agree narrow_small v (suc fuel) bs
    token-Back null fuel bs e r fits small =
        subst (Back floats bytes w t agree narrow_small null (suc fuel))
          (some_inj floats bytes w t agree narrow_small _ _ e)
          (null-Back floats bytes w t agree narrow_small fuel)
    token-Back (bool true) fuel bs e r fits small =
        subst (Back floats bytes w t agree narrow_small (bool true) (suc fuel))
          (some_inj floats bytes w t agree narrow_small _ _ e)
          (bool-Back floats bytes w t agree narrow_small fuel true)
    token-Back (bool false) fuel bs e r fits small =
        subst (Back floats bytes w t agree narrow_small (bool false) (suc fuel))
          (some_inj floats bytes w t agree narrow_small _ _ e)
          (bool-Back floats bytes w t agree narrow_small fuel false)
    token-Back (int n) fuel bs e r fits small =
        subst (Back floats bytes w t agree narrow_small (int n) (suc fuel))
          (some_inj floats bytes w t agree narrow_small _ _ e)
          (λ at h. read_token-write_int floats bytes t fuel at n r h)
    token-Back (float f) fuel bs e r fits small =
        subst (Back floats bytes w t agree narrow_small (float f) (suc fuel))
          (some_inj floats bytes w t agree narrow_small _ _ e)
          (λ at h. read_token-write_float floats bytes t fuel at f r (narrow_small f) h)
    token-Back (string s) fuel bs e r fits small =
        let (i, found, same) = and_then-eq-some (lookup s w.string_lookup) _ e in
        subst (Back floats bytes w t agree narrow_small (string s) (suc fuel))
          (some_inj floats bytes w t agree narrow_small _ _ same)
          (string-Back floats bytes w t agree narrow_small fuel s i found)
    token-Back (stream s) fuel bs e r fits small =
        let (i, found, same) = and_then-eq-some (position s.index w.streams) _ e in
        subst (Back floats bytes w t agree narrow_small (stream s) (suc fuel))
          (some_inj floats bytes w t agree narrow_small _ _ same)
          (stream_token-Back floats bytes w t agree narrow_small fuel s i found)
    token-Back (bstream s) fuel bs e r fits small =
        let (i, found, same) = and_then-eq-some (position s.index w.bstreams) _ e in
        subst (Back floats bytes w t agree narrow_small (bstream s) (suc fuel))
          (some_inj floats bytes w t agree narrow_small _ _ same)
          (bstream_token-Back floats bytes w t agree narrow_small fuel s i found)
    token-Back (array items) fuel bs e r fits small =
        let (cs, found, same) = and_then-eq-some (write_items floats w items) _ e in
        let token_eq : array_token cs ≡ bs =
          some_inj floats bytes w t agree narrow_small _ _ same in
        let size = ap length token_eq in
        let body = array_size floats bytes w t agree narrow_small cs in
        subst (Back floats bytes w t agree narrow_small (array items) (suc fuel)) token_eq (
          array-Back floats bytes w t agree narrow_small fuel items cs (omega arith)
            (λ base q h. items_back items fuel cs found r (omega arith) (omega arith) base 0 q h))
    token-Back (object fields) fuel bs e r fits small =
        let (es, found, same) = and_then-eq-some (write_fields floats w fields) _ e in
        let token_eq : object_token (sort below_entry es) ≡ bs =
          some_inj floats bytes w t agree narrow_small _ _ same in
        let size = ap length token_eq in
        let body = object_size floats bytes w t agree narrow_small es in
        subst (Back floats bytes w t agree narrow_small (object fields) (suc fuel)) token_eq (
          object-Back floats bytes w t agree narrow_small fuel fields es r.0 (omega arith)
            (fields_back fields fuel es found r.1 (omega arith) (omega arith)))

    items_back :
        (items : Items) (fuel : ℕ) (cs : List Bytes)
        → write_items floats w items ≡ some cs
        → InRangeItems items
        → length (flat cs) < fuel
        → IsU32 (length (flat cs))
        → ItemsBack floats bytes w t agree narrow_small items fuel cs
    items_back items zero cs e r fits small = absurd (omega arith)
    items_back nil (suc f) cs e r fits small =
        subst (ItemsBack floats bytes w t agree narrow_small nil (suc f))
          (some_inj floats bytes w t agree narrow_small _ _ e) (λ base k q h. (q, refl))
    items_back (cons v rest) (suc f) cs e r fits small =
        let (c, found, e1) = and_then-eq-some (write_token floats w v) _ e in
        let (others, found1, e2) = and_then-eq-some (write_items floats w rest) _ e1 in
        let cs_eq : c ∷ others ≡ cs = some_inj floats bytes w t agree narrow_small _ _ e2 in
        let size = ap (λ x. length (flat x)) cs_eq in
        let parts = length-append c (flat others) in
        subst (ItemsBack floats bytes w t agree narrow_small (cons v rest) (suc f)) cs_eq (
          cons-Back floats bytes w t agree narrow_small v rest f c others
            (token-Back v f c found r.0 (omega arith) (omega arith))
            (items_back rest (suc f) others found1 r.1 (omega arith) (omega arith)))

    fields_back :
        (fields : Fields) (fuel : ℕ) (es : List Entry)
        → write_fields floats w fields ≡ some es
        → InRangeFields fields
        → length (flat (chunks_of es)) < fuel
        → IsU32 (length (flat (chunks_of es)))
        → EntriesFor
            (ReadsAs bytes t.keys (λ p. read_token floats bytes t fuel p))
            es
            (canon_fields w fields)
    fields_back fields zero es e r fits small = absurd (omega arith)
    fields_back end (suc f) es e r fits small =
        subst (λ x. EntriesFor (EntryBack floats bytes w t agree narrow_small (suc f)) x end)
          (some_inj floats bytes w t agree narrow_small _ _ e) tt
    fields_back (field k v rest) (suc f) es e r fits small =
        let (i, found_key, e0) = and_then-eq-some (lookup k w.key_lookup) _ e in
        let (c, found, e1) = and_then-eq-some (write_token floats w v) _ e0 in
        let (others, found1, e2) = and_then-eq-some (write_fields floats w rest) _ e1 in
        let es_eq = some_inj floats bytes w t agree narrow_small _ _ e2 in
        let size = ap (λ x. length (flat (chunks_of x))) es_eq in
        let parts = length-append c (flat (chunks_of others)) in
        subst
          (λ x.
            EntriesFor (EntryBack floats bytes w t agree narrow_small (suc f)) x
              (field k (canon w v) (canon_fields w rest)))
          es_eq
          (
            refl,
            entry_back floats bytes w t agree narrow_small f k i c v found_key
                (token-Back v f c found r.0 (omega arith) (omega arith)),
            fields_back rest (suc f) others found1 r.1 (omega arith) (omega arith),
          )

-- For a writer and tables that agree, and floats that narrow to 32 bits: a token of less than 4
-- GiB that the writer emits for a value of the Rust types is read back, wherever it stands in a
-- file, as the canonical form of the value.
pub read_token-write_token :
    (floats : Floats) (bytes : Bytes) (w : Writer) (t : Tables) (v : Value) (bs : Bytes) (at : ℕ)
    → Agrees w t
    → ((f : ℕ) → floats.narrow f < 2 ^ 32)
    → InRange v
    → write_token floats w v ≡ some bs
    → IsU32 (length bs)
    → At bytes at bs
    → (at' : ℕ) × (read_token floats bytes t (length bytes + 1) at ≡ ok (canon w v, at'))
read_token-write_token floats bytes w t v bs at agree narrow r e small h =
    let fits : length bs ≤ length bytes = omega (arith, At-le bytes at bs h) in
    rw add-one (token-Back floats bytes w t agree narrow v (length bytes) bs e r fits small at h)
