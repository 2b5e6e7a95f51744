-- ===== src/Psb/Tokens/Total.antt =====
-- The lookups of the writer in its tables.
use project_chronos_engine.Prelude.{
  ℕ, ◌+◌, ◌≡◌, refl, Bytes, true, false, List, [], ◌∷◌, Option, some, arith, and_then, Bool-cases,
  inl, inr, ◌==◌,
}
use project_chronos_engine.Psb.Value.{
  Stream, Value, null, bool, int, float, string, array, object, stream, bstream, Items, nil, cons,
  Fields, end, field,
}
use project_chronos_engine.Psb.Emit.{Floats}
use project_chronos_engine.Psb.Writer.{
  Writer, Index, lookup, contains_key, any_index, position, prepare, write_token, write_items,
  write_fields,
}
use project_chronos_engine.Psb.Collected.{Covers, CoversItems, CoversFields}
use project_chronos_engine.Psb.Prepared.{IsNumbered, prepare-IsNumbered, prepare-Covers}
use project_chronos_engine.Psb.File.{emit, write}
use project_chronos_engine.Psb.Trie.{build}
use project_chronos_engine.Psb.Trie.Arrays.{build-Gives}

abbrev pub Returns {ℓ} : {A : Type ℓ} → Option A → Type ℓ
Returns {A = A} o = (a : A) × (o ≡ some a)

Returns-and_then {ℓ κ} :
    {A : Type ℓ} {B : Type κ} (o : Option A) (f : A → Option B)
    → Returns o
    → ((a : A) → Returns (f a))
    → Returns (and_then o f)
Returns-and_then o f (a, e) k = let (b, e') = k a in (b, rw e e')

lookup_found : (k : Bytes) (m : Index) → contains_key k m ≡ true → Returns (lookup k m)
unfolding contains_key
lookup_found k m h = ground arith

position_found : (i : ℕ) (ss : List Stream) → any_index i ss ≡ true → Returns (position i ss)
unfolding any_index position
position_found i [] h = cc
position_found i (s ∷ ss) h = elim (Bool-cases (s.index == i)) [
  | inl here ↦ (0, rw here)
  | inr later ↦
      let (j, e) = position_found i ss (rw (later, any_index) at h) in (j + 1, rw later (rw e))
]

module _ (c : Floats) (w : Writer) (numbers : IsNumbered w) where
  mutual
    unfolding write_token

    pub token-Returns : (v : Value) → Covers w v → Returns (write_token c w v)
    token-Returns null h = (_, refl)
    token-Returns (bool true) h = (_, refl)
    token-Returns (bool false) h = (_, refl)
    token-Returns (int n) h = (_, refl)
    token-Returns (float f) h = (_, refl)
    token-Returns (string s) h =
        Returns-and_then (lookup s w.string_lookup) _ (lookup_found s _ (numbers.strings s h))
          (λ i. (_, refl))
    token-Returns (array items) h =
        Returns-and_then (write_items c w items) _ (items_return items h) (λ cs. (_, refl))
    token-Returns (object fields) h =
        Returns-and_then (write_fields c w fields) _ (fields_return fields h) (λ es. (_, refl))
    token-Returns (stream s) h =
        Returns-and_then (position s.index w.streams) _ (position_found s.index _ h)
          (λ i. (_, refl))
    token-Returns (bstream s) h =
        Returns-and_then (position s.index w.bstreams) _ (position_found s.index _ h)
          (λ i. (_, refl))

    items_return : (items : Items) → CoversItems w items → Returns (write_items c w items)
    items_return nil h = (_, refl)
    items_return (cons v rest) h =
        Returns-and_then (write_token c w v) _ (token-Returns v h.0) (λ chunk.
          Returns-and_then (write_items c w rest) _ (items_return rest h.1) (λ cs. (_, refl)))

    fields_return : (fields : Fields) → CoversFields w fields → Returns (write_fields c w fields)
    fields_return end h = (_, refl)
    fields_return (field k v rest) h =
        Returns-and_then (lookup k w.key_lookup) _ (lookup_found k _ (numbers.keys k h.0)) (λ i.
          Returns-and_then (write_token c w v) _ (token-Returns v h.1) (λ chunk.
            Returns-and_then (write_fields c w rest) _ (fields_return rest h.2) (λ es. (_, refl))))

emit-Returns :
    (c : Floats) (w : Writer) (v : Value) → Returns (write_token c w v) → Returns (emit c w v)
unfolding emit
emit-Returns c w v h =
    Returns-and_then (build w.keys) _ (build-Gives w.keys)
      (λ trie. Returns-and_then (write_token c w v) _ h (λ token. (_, refl)))

-- `write` returns a file for every value and version: no name and no stream is missing from the tables, and no index of
-- the trie's arrays is out of range, where the packing of the trie takes a round for each node.
pub write_returns :
    (c : Floats) (v : Value) (version : ℕ) → (bytes : Bytes) × (write c v version ≡ some bytes)
unfolding write
write_returns c v version =
    let w = prepare version v in
    emit-Returns c w v
      (token-Returns c w (prepare-IsNumbered version v) v (prepare-Covers version v))
