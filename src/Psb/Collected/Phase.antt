-- ===== src/Psb/Collected/Phase.antt =====
-- `collect` of writer.rs, step by step.
use project_chronos_engine.Prelude.{
  ℕ, ◌≡◌, Bytes, true, List, [], ◌∷◌, ◌++◌, length, bytes_eq, bytes_eq→eq, Bool-cases, inl, inr,
}
use project_chronos_engine.Psb.Value.{
  Stream, Value, null, bool, int, float, string, array, object, stream, bstream, Items, nil, cons,
  Fields, end, field,
}
use project_chronos_engine.Psb.Writer.{
  Writer, Index, lookup, contains_key, any_index, add_string, add_key, add_stream, add_bstream,
  collect, collect_items, collect_fields, new,
}
use project_chronos_engine.Psb.Collected.{
  Covers, Covers-Within, CoversFields, CoversItems, Within, Within-refl, Within-trans,
  any_index-snoc_new, any_index-snoc_old, elem, elem-snoc_new, elem-snoc_old,
}

-- The maps of phase 1 hold nothing that the lists do not.
pub record InStep (w : Writer) : Type 0 where
  pub keys : (k : Bytes) → contains_key k w.key_lookup ≡ true → elem k w.keys ≡ true
  pub strings : (s : Bytes) → contains_key s w.string_lookup ≡ true → elem s w.strings ≡ true

-- What a step of phase 1 does to the tables.
record Step (a b : Writer) : Type 0 where
  within : Within a b
  in_step : InStep a → InStep b

Step-refl : (a : Writer) → Step a a
Step-refl a = record { within = Within-refl a; in_step = λ h. h }

Step-trans : {a b c : Writer} → Step a b → Step b c → Step a c
Step-trans p q = record {
  within = Within-trans p.within q.within;
  in_step = λ h. q.in_step (p.in_step h);
}

-- A fresh name goes into the map and to the end of the list together.
in_step_push :
    (s x : Bytes) (n : ℕ) (m : Index) (xs : List Bytes)
    → (contains_key x m ≡ true → elem x xs ≡ true)
    → contains_key x ((s, n) ∷ m) ≡ true
    → elem x (xs ++ (s ∷ [])) ≡ true
unfolding contains_key lookup
in_step_push s x n m xs old h = elim (Bool-cases (bytes_eq s x)) [
  | inl same ↦ rw (bytes_eq→eq s x same) (elem-snoc_new x xs)
  | inr other ↦ elem-snoc_old x s xs (old (rw (other, contains_key, lookup) at h))
]

add_string-Step : (s : Bytes) (w : Writer) → Step w (add_string s w)
unfolding add_string
add_string-Step s w = elim (Bool-cases (contains_key s w.string_lookup)) [
  | inl old ↦ rw old (Step-refl w)
  | inr fresh ↦ rw fresh (record {
    within = record {
      keys = λ k h. h;
      strings = λ x h. elem-snoc_old x s w.strings h;
      streams = λ i h. h;
      bstreams = λ i h. h;
    };
    in_step = λ h. record {
      keys = h.keys;
      strings =
          λ x q. in_step_push s x (length w.strings) w.string_lookup w.strings (h.strings x) q;
    };
  })
]

add_key-Step : (k : Bytes) (w : Writer) → Step w (add_key k w)
unfolding add_key
add_key-Step k w = elim (Bool-cases (contains_key k w.key_lookup)) [
  | inl old ↦ rw old (Step-refl w)
  | inr fresh ↦ rw fresh (record {
    within = record {
      keys = λ x h. elem-snoc_old x k w.keys h;
      strings = λ s h. h;
      streams = λ i h. h;
      bstreams = λ i h. h;
    };
    in_step = λ h. record {
      keys = λ x q. in_step_push k x (length w.keys) w.key_lookup w.keys (h.keys x) q;
      strings = h.strings;
    };
  })
]

add_stream-Step : (s : Stream) (w : Writer) → Step w (add_stream s w)
unfolding add_stream
add_stream-Step s w = elim (Bool-cases (any_index s.index w.streams)) [
  | inl old ↦ rw old (Step-refl w)
  | inr fresh ↦ rw fresh (record {
    within = record {
      keys = λ k h. h;
      strings = λ x h. h;
      streams = λ i h. any_index-snoc_old i s w.streams h;
      bstreams = λ i h. h;
    };
    in_step = λ h. record { keys = h.keys; strings = h.strings };
  })
]

add_bstream-Step : (s : Stream) (w : Writer) → Step w (add_bstream s w)
unfolding add_bstream
add_bstream-Step s w = elim (Bool-cases (any_index s.index w.bstreams)) [
  | inl old ↦ rw old (Step-refl w)
  | inr fresh ↦ rw fresh (record {
    within = record {
      keys = λ k h. h;
      strings = λ x h. h;
      streams = λ i h. h;
      bstreams = λ i h. any_index-snoc_old i s w.bstreams h;
    };
    in_step = λ h. record { keys = h.keys; strings = h.strings };
  })
]

-- Afterwards the table has what was added.
add_string-elem : (s : Bytes) (w : Writer) → InStep w → elem s (add_string s w).strings ≡ true
unfolding add_string
add_string-elem s w h = elim (Bool-cases (contains_key s w.string_lookup)) [
  | inl old ↦ rw old (h.strings s old)
  | inr fresh ↦ rw fresh (elem-snoc_new s w.strings)
]

add_key-elem : (k : Bytes) (w : Writer) → InStep w → elem k (add_key k w).keys ≡ true
unfolding add_key
add_key-elem k w h = elim (Bool-cases (contains_key k w.key_lookup)) [
  | inl old ↦ rw old (h.keys k old)
  | inr fresh ↦ rw fresh (elem-snoc_new k w.keys)
]

add_stream-any : (s : Stream) (w : Writer) → any_index s.index (add_stream s w).streams ≡ true
unfolding add_stream
add_stream-any s w = elim (Bool-cases (any_index s.index w.streams)) [
  | inl old ↦ rw old old
  | inr fresh ↦ rw fresh (any_index-snoc_new s w.streams)
]

add_bstream-any : (s : Stream) (w : Writer) → any_index s.index (add_bstream s w).bstreams ≡ true
unfolding add_bstream
add_bstream-any s w = elim (Bool-cases (any_index s.index w.bstreams)) [
  | inl old ↦ rw old old
  | inr fresh ↦ rw fresh (any_index-snoc_new s w.bstreams)
]

mutual
  unfolding collect

  collect-Step : (v : Value) (w : Writer) → Step w (collect v w)
  collect-Step null w = Step-refl w
  collect-Step (bool b) w = Step-refl w
  collect-Step (int n) w = Step-refl w
  collect-Step (float f) w = Step-refl w
  collect-Step (string s) w = add_string-Step s w
  collect-Step (array items) w = collect_items-Step items w
  collect-Step (object fields) w = collect_fields-Step fields w
  collect-Step (stream s) w = add_stream-Step s w
  collect-Step (bstream s) w = add_bstream-Step s w

  collect_items-Step : (items : Items) (w : Writer) → Step w (collect_items items w)
  collect_items-Step nil w = Step-refl w
  collect_items-Step (cons v rest) w =
      Step-trans (collect-Step v w) (collect_items-Step rest (collect v w))

  collect_fields-Step : (fields : Fields) (w : Writer) → Step w (collect_fields fields w)
  collect_fields-Step end w = Step-refl w
  collect_fields-Step (field k v rest) w = Step-trans (add_key-Step k w) (
      Step-trans (collect-Step v (add_key k w))
        (collect_fields-Step rest (collect v (add_key k w))))

mutual
  unfolding collect

  pub collect-Covers : (v : Value) (w : Writer) → InStep w → Covers (collect v w) v
  collect-Covers null w h = tt
  collect-Covers (bool b) w h = tt
  collect-Covers (int n) w h = tt
  collect-Covers (float f) w h = tt
  collect-Covers (string s) w h = add_string-elem s w h
  collect-Covers (array items) w h = collect_items-Covers items w h
  collect-Covers (object fields) w h = collect_fields-Covers fields w h
  collect-Covers (stream s) w h = add_stream-any s w
  collect-Covers (bstream s) w h = add_bstream-any s w

  collect_items-Covers :
      (items : Items) (w : Writer) → InStep w → CoversItems (collect_items items w) items
  collect_items-Covers nil w h = tt
  collect_items-Covers (cons v rest) w h =
      let first = collect v w in
      (
        Covers-Within first (collect_items rest first) v (collect_items-Step rest first).within
            (collect-Covers v w h),
        collect_items-Covers rest first ((collect-Step v w).in_step h),
      )

  collect_fields-Covers :
      (fields : Fields) (w : Writer) → InStep w → CoversFields (collect_fields fields w) fields
  collect_fields-Covers end w h = tt
  collect_fields-Covers (field k v rest) w h =
      let keyed = add_key k w in
      let first = collect v keyed in
      let step_key = add_key-Step k w in
      let step_value = collect-Step v keyed in
      let step_rest = collect_fields-Step rest first in
      (
        step_rest.within.keys k (step_value.within.keys k (add_key-elem k w h)),
        Covers-Within first (collect_fields rest first) v step_rest.within
            (collect-Covers v keyed (step_key.in_step h)),
        collect_fields-Covers rest first (step_value.in_step (step_key.in_step h)),
      )

pub InStep-new : (version : ℕ) → InStep (new version)
unfolding contains_key lookup
InStep-new version = record { keys = λ k h. cc; strings = λ s h. cc }
