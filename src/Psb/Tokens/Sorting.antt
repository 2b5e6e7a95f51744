-- ===== src/Psb/Tokens/Sorting.antt =====
-- The encoded fields of an object and its values, before and after the sort by key.
use project_chronos_engine.Prelude.{
  ◌+◌, ◌≡◌, refl, inl, inr, Bytes, true, false, List, [], ◌∷◌, ◌++◌, map, arith, length,
  length-append, Bool-cases,
}
use project_chronos_engine.Psb.Value.{Value, Fields, end, field}
use project_chronos_engine.Psb.Writer.{Entry, below_entry, insert_sorted, sort, leb_bytes}
use project_chronos_engine.Psb.Canon.{insert_sorted_field, sort_fields}
use project_chronos_engine.Psb.Tokens.Layout.{flat}

abbrev pub chunks_of : List Entry → List Bytes
chunks_of es = map (λ e. e.chunk) es

-- The entries stand for the fields, in the same order, and each is related to its value.
abbrev pub EntriesFor : (Entry → Value → Type 0) → List Entry → Fields → Type 0
EntriesFor R [] end = Unit {0}
EntriesFor R [] (field k v fs) = ⊥
EntriesFor R (e ∷ es) end = ⊥
EntriesFor R (e ∷ es) (field k v fs) = (e.key ≡ k) × R e v × EntriesFor R es fs

module _ (R : Entry → Value → Type 0) where
  EntriesFor-insert :
      (e : Entry) (v : Value) (es : List Entry) (fs : Fields)
      → R e v
      → EntriesFor R es fs
      → EntriesFor R (insert_sorted below_entry e es) (insert_sorted_field e.key v fs)
  unfolding insert_sorted insert_sorted_field
  EntriesFor-insert e v [] end r rs = (refl, r, tt)
  EntriesFor-insert e v [] (field k u fs) r rs = absurd rs
  EntriesFor-insert e v (d ∷ es) end r rs = absurd rs
  EntriesFor-insert e v (d ∷ es) (field k u fs) r rs = elim (Bool-cases (leb_bytes e.key d.key)) [
    | inl below ↦
        let below_k : leb_bytes e.key k ≡ true = rw rs.0 at below in
        rw (below, below_k) (refl, r, rs)
    | inr above ↦
        let above_k : leb_bytes e.key k ≡ false = rw rs.0 at above in
        rw (above, above_k) (rs.0, rs.1, EntriesFor-insert e v es fs r rs.2)
  ]

  -- Sorting the encoded fields is encoding the sorted fields.
  pub EntriesFor-sort :
      (es : List Entry) (fs : Fields)
      → EntriesFor R es fs
      → EntriesFor R (sort below_entry es) (sort_fields fs)
  unfolding sort sort_fields
  EntriesFor-sort [] end rs = tt
  EntriesFor-sort [] (field k v fs) rs = absurd rs
  EntriesFor-sort (e ∷ es) end rs = absurd rs
  EntriesFor-sort (e ∷ es) (field k v fs) rs =
      rw (← rs.0) (EntriesFor-insert e v _ _ rs.1 (EntriesFor-sort es fs rs.2))

insert_size :
    (e : Entry) (es : List Entry)
    → length (flat (chunks_of (insert_sorted below_entry e es)))
      ≡ length e.chunk + length (flat (chunks_of es))
unfolding insert_sorted flat
insert_size e [] = omega (arith, length-append e.chunk [])
insert_size e (d ∷ es) = elim (Bool-cases (leb_bytes e.key d.key)) [
  | inl below ↦ rw below (length-append e.chunk (d.chunk ++ flat (chunks_of es)))
  | inr above ↦ rw above (
      omega (
        arith,
        length-append d.chunk (flat (chunks_of (insert_sorted below_entry e es))),
        length-append d.chunk (flat (chunks_of es)),
        insert_size e es,
      ))
]

-- Sorting keeps the number of bytes.
pub sort_size :
    (es : List Entry)
    → length (flat (chunks_of (sort below_entry es))) ≡ length (flat (chunks_of es))
unfolding sort flat
sort_size [] = refl
sort_size (e ∷ es) = omega (
  arith,
  insert_size e (sort below_entry es),
  sort_size es,
  length-append e.chunk (flat (chunks_of es)),
)
