-- ===== src/Psb/Collected.antt =====
-- The names and streams of a value in the tables of a writer.
pub mod Phase
use project_chronos_engine.Prelude.{
  ℕ, ◌≡◌, Bytes, Bool, true, false, List, [], ◌∷◌, ◌++◌, arith, length, bytes_eq, bytes_eq_refl,
  bytes_eq→eq, if◌then◌else◌, Bool-cases, inl, inr,
}
use project_chronos_engine.Psb.Value.{
  Stream, Value, null, bool, int, float, string, array, object, stream, bstream, Items, nil, cons,
  Fields, end, field,
}
use project_chronos_engine.Psb.Writer.{
  Writer, Index, lookup, contains_key, any_index, add_string, add_key, add_stream, add_bstream,
  collect, collect_items, collect_fields, new,
}

unfoldable pub elem : Bytes → List Bytes → Bool
elem s [] = false
elem s (x ∷ xs) = if bytes_eq x s then true else elem s xs

pub elem-snoc_old :
    (s x : Bytes) (xs : List Bytes) → elem s xs ≡ true → elem s (xs ++ (x ∷ [])) ≡ true
unfolding elem
elem-snoc_old s x [] h = cc
elem-snoc_old s x (y ∷ xs) h = ground (arith, elem-snoc_old s x xs)

pub elem-snoc_new : (x : Bytes) (xs : List Bytes) → elem x (xs ++ (x ∷ [])) ≡ true
unfolding elem
elem-snoc_new x [] = rw (bytes_eq_refl x)
elem-snoc_new x (y ∷ xs) = ground (arith, elem-snoc_new x xs)

pub any_index-snoc_old :
    (i : ℕ) (x : Stream) (xs : List Stream)
    → any_index i xs ≡ true
    → any_index i (xs ++ (x ∷ [])) ≡ true
unfolding any_index
any_index-snoc_old i x [] h = cc
any_index-snoc_old i x (y ∷ xs) h = ground (arith, any_index-snoc_old i x xs)

pub any_index-snoc_new : (x : Stream) (xs : List Stream) → any_index x.index (xs ++ (x ∷ [])) ≡ true
unfolding any_index
any_index-snoc_new x [] = ground arith
any_index-snoc_new x (y ∷ xs) = ground (arith, any_index-snoc_new x xs)

-- Every name and every stream of the value is in the tables.
abbrev mutual
  pub Covers : Writer → Value → Type 0
  Covers w null = Unit {0}
  Covers w (bool b) = Unit {0}
  Covers w (int n) = Unit {0}
  Covers w (float f) = Unit {0}
  Covers w (string s) = elem s w.strings ≡ true
  Covers w (array items) = CoversItems w items
  Covers w (object fields) = CoversFields w fields
  Covers w (stream s) = any_index s.index w.streams ≡ true
  Covers w (bstream s) = any_index s.index w.bstreams ≡ true

  pub CoversItems : Writer → Items → Type 0
  CoversItems w nil = Unit {0}
  CoversItems w (cons v rest) = Covers w v × CoversItems w rest

  pub CoversFields : Writer → Fields → Type 0
  CoversFields w end = Unit {0}
  CoversFields w (field k v rest) = (elem k w.keys ≡ true) × Covers w v × CoversFields w rest

-- `b` has what `a` has.
pub record Within (a b : Writer) : Type 0 where
  pub keys : (k : Bytes) → elem k a.keys ≡ true → elem k b.keys ≡ true
  pub strings : (s : Bytes) → elem s a.strings ≡ true → elem s b.strings ≡ true
  pub streams : (i : ℕ) → any_index i a.streams ≡ true → any_index i b.streams ≡ true
  pub bstreams : (i : ℕ) → any_index i a.bstreams ≡ true → any_index i b.bstreams ≡ true

pub Within-refl : (a : Writer) → Within a a
Within-refl a = record {
  keys = λ k h. h;
  strings = λ s h. h;
  streams = λ i h. h;
  bstreams = λ i h. h;
}

pub Within-trans : {a b c : Writer} → Within a b → Within b c → Within a c
Within-trans p q = record {
  keys = λ k h. q.keys k (p.keys k h);
  strings = λ s h. q.strings s (p.strings s h);
  streams = λ i h. q.streams i (p.streams i h);
  bstreams = λ i h. q.bstreams i (p.bstreams i h);
}

mutual
  pub Covers-Within : (a b : Writer) (v : Value) → Within a b → Covers a v → Covers b v
  Covers-Within a b null p h = tt
  Covers-Within a b (bool x) p h = tt
  Covers-Within a b (int n) p h = tt
  Covers-Within a b (float f) p h = tt
  Covers-Within a b (string s) p h = p.strings s h
  Covers-Within a b (array items) p h = Covers_items-Within a b items p h
  Covers-Within a b (object fields) p h = Covers_fields-Within a b fields p h
  Covers-Within a b (stream s) p h = p.streams s.index h
  Covers-Within a b (bstream s) p h = p.bstreams s.index h

  pub Covers_items-Within :
      (a b : Writer) (items : Items) → Within a b → CoversItems a items → CoversItems b items
  Covers_items-Within a b nil p h = tt
  Covers_items-Within a b (cons v rest) p h =
      (Covers-Within a b v p h.0, Covers_items-Within a b rest p h.1)

  pub Covers_fields-Within :
      (a b : Writer) (fields : Fields) → Within a b → CoversFields a fields → CoversFields b fields
  Covers_fields-Within a b end p h = tt
  Covers_fields-Within a b (field k v rest) p h =
      (p.keys k h.0, Covers-Within a b v p h.1, Covers_fields-Within a b rest p h.2)
