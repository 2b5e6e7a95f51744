-- ===== src/Psb/Prepared.antt =====
-- Phase 2 of the writer: the sorted tables and their new maps.
pub mod RoundTrip
use project_chronos_engine.Prelude.{
  ℕ, zero, suc, ◌+◌, ◌<◌, ◌≡◌, refl, ap, sym, ◌∙◌, subst, Bytes, Bool, true, false, List, [], ◌∷◌,
  ◌++◌, append_assoc, append-nil, Option, none, some, arith, length, length-append, get_elem?,
  bytes_eq, bytes_eq_refl, bytes_eq→eq, if◌then◌else◌, Bool-cases, inl, inr, ◌==◌, leb, map,
  Option-cases,
}
use project_chronos_engine.Psb.Value.{Stream, Value}
use project_chronos_engine.Psb.Reader.{Tables}
use project_chronos_engine.Psb.Writer.{
  Writer, Index, lookup, contains_key, any_index, insert_sorted, sort, leb_bytes, below_stream,
  index_from, prepare, position, collect, new,
}
use project_chronos_engine.Psb.Collected.{elem, Covers, Covers-Within, Within}
use project_chronos_engine.Psb.Collected.Phase.{collect-Covers, InStep-new}
use project_chronos_engine.Psb.Numbers.Unsigned.{IsU32}
use project_chronos_engine.Psb.Tokens.Backs.{Agrees, contents}

elem-insert_sorted :
    (s x : Bytes) (xs : List Bytes)
    → elem s (insert_sorted leb_bytes x xs) ≡ (if bytes_eq x s then true else elem s xs)
unfolding elem insert_sorted
elem-insert_sorted s x [] = refl
elem-insert_sorted s x (y ∷ xs) = ground (arith, elem-insert_sorted s x xs)

elem-sort : (s : Bytes) (xs : List Bytes) → elem s (sort leb_bytes xs) ≡ elem s xs
unfolding elem sort
elem-sort s [] = refl
elem-sort s (x ∷ xs) = elem-insert_sorted s x (sort leb_bytes xs) ∙ rw (elem-sort s xs)

any_index-insert_sorted :
    (i : ℕ) (x : Stream) (xs : List Stream)
    → any_index i (insert_sorted below_stream x xs)
      ≡ (if x.index == i then true else any_index i xs)
unfolding any_index insert_sorted
any_index-insert_sorted i x [] = refl
any_index-insert_sorted i x (y ∷ xs) = ground (arith, any_index-insert_sorted i x xs)

any_index-sort : (i : ℕ) (xs : List Stream) → any_index i (sort below_stream xs) ≡ any_index i xs
unfolding any_index sort
any_index-sort i [] = refl
any_index-sort i (x ∷ xs) =
    any_index-insert_sorted i x (sort below_stream xs) ∙ rw (any_index-sort i xs)

-- A name of the list has a number.
index_from_contains :
    (k : Bytes) (i : ℕ) (ks : List Bytes) (m : Index)
    → (if contains_key k m then true else elem k ks) ≡ true
    → contains_key k (index_from i ks m) ≡ true
unfolding index_from elem
index_from_contains k i [] m h = ground arith
index_from_contains k i (x ∷ ks) m h =
    index_from_contains k (i + 1) ks ((x, i) ∷ m) (unfold contains_key lookup in ground arith)

get_elem?-middle :
    (pre : List Bytes) (x : Bytes) (ks : List Bytes)
    → get_elem? (pre ++ (x ∷ ks)) (length pre) ≡ some x
get_elem?-middle [] x ks = refl
get_elem?-middle (y ∷ pre) x ks = get_elem?-middle pre x ks

number_entry :
    (pre : List Bytes) (x : Bytes) (ks : List Bytes) (m : Index)
    → ((k : Bytes) (j : ℕ) → lookup k m ≡ some j → get_elem? (pre ++ (x ∷ ks)) j ≡ some k)
    → (q : Bytes) (n : ℕ) → lookup q ((x, length pre) ∷ m) ≡ some n
    → get_elem? (pre ++ (x ∷ ks)) n ≡ some q
unfolding lookup
number_entry pre x ks m old q n e = elim (Bool-cases (bytes_eq x q)) [
  | inl same ↦
      let here : length pre ≡ n = some_inj (rw (same, lookup) at e) in
      rw (← here) (get_elem?-middle pre x ks ∙ ap some (bytes_eq→eq x q same))
  | inr other ↦ old q n (rw (other, lookup) at e)
]
  where
    some_inj : {a b : ℕ} → some a ≡ some b → a ≡ b
    some_inj p = cc

-- A number is the place of its name.
index_from_sound :
    (pre ks : List Bytes) (m : Index)
    → ((k : Bytes) (j : ℕ) → lookup k m ≡ some j → get_elem? (pre ++ ks) j ≡ some k)
    → (k : Bytes) (j : ℕ) → lookup k (index_from (length pre) ks m) ≡ some j
    → get_elem? (pre ++ ks) j ≡ some k
unfolding index_from
index_from_sound pre [] m old k j h = old k j h
index_from_sound pre (x ∷ ks) m old k j h =
    let regroup : (pre ++ (x ∷ [])) ++ ks ≡ pre ++ (x ∷ ks) = append_assoc pre (x ∷ []) ks in
    let count : length (pre ++ (x ∷ [])) ≡ length pre + 1 = length-append pre (x ∷ []) in
    let older : (q : Bytes) (n : ℕ)
        → lookup q ((x, length pre) ∷ m) ≡ some n
        → get_elem? ((pre ++ (x ∷ [])) ++ ks) n ≡ some q =
      λ q n e. rw regroup (number_entry pre x ks m old q n e) in
    let found =
      index_from_sound (pre ++ (x ∷ [])) ks ((x, length pre) ∷ m) older k j (rw count h) in
    rw regroup at found

abbrev pub tables : Writer → Tables
tables w = record {
  keys = w.keys;
  strings = w.strings;
  streams = contents w.streams;
  bstreams = contents w.bstreams;
}

numbers_sound :
    (ks : List Bytes) (k : Bytes) (j : ℕ)
    → lookup k (index_from 0 ks []) ≡ some j
    → get_elem? ks j ≡ some k
numbers_sound ks = index_from_sound [] ks [] (λ q n e. unfold lookup in cc)

-- Where a prepared writer has fewer than 2^32 keys, strings, streams and bstreams, the number of
-- each name is its place in the sorted tables, so that a reader of these tables agrees with the
-- writer.
pub prepare-Agrees :
    (version : ℕ) (v : Value)
    → IsU32 (length (prepare version v).keys)
    → IsU32 (length (prepare version v).strings)
    → IsU32 (length (prepare version v).streams)
    → IsU32 (length (prepare version v).bstreams)
    → Agrees (prepare version v) (tables (prepare version v))
prepare-Agrees version v a b c d = record {
  keys = λ k i e. unfold prepare in numbers_sound _ k i (unfold prepare in e);
  strings = λ k i e. unfold prepare in numbers_sound _ k i (unfold prepare in e);
  streams = refl;
  bstreams = refl;
  few_keys = a;
  few_strings = b;
  few_streams = c;
  few_bstreams = d;
}

-- Once a writer is prepared on a value, its tables hold every key and every string of the value,
-- and a stream or a bstream with each index that the value has.
pub prepare-Covers : (version : ℕ) (v : Value) → Covers (prepare version v) v
unfolding prepare
prepare-Covers version v =
    let w = collect v (new version) in
    Covers-Within w (prepare version v) v
      (record {
        keys = λ k h. elem-sort k w.keys ∙ h;
        strings = λ s h. elem-sort s w.strings ∙ h;
        streams = λ i h. any_index-sort i w.streams ∙ h;
        bstreams = λ i h. any_index-sort i w.bstreams ∙ h;
      })
      (collect-Covers v (new version) (InStep-new version))

-- Every name of the tables has a number.
pub record IsNumbered (w : Writer) : Type 0 where
  pub keys : (k : Bytes) → elem k w.keys ≡ true → contains_key k w.key_lookup ≡ true
  pub strings : (s : Bytes) → elem s w.strings ≡ true → contains_key s w.string_lookup ≡ true

numbered :
    (ks : List Bytes) (k : Bytes) → elem k ks ≡ true → contains_key k (index_from 0 ks []) ≡ true
numbered ks k h = index_from_contains k 0 ks [] (unfold contains_key lookup in h)

pub prepare-IsNumbered : (version : ℕ) (v : Value) → IsNumbered (prepare version v)
unfolding prepare
prepare-IsNumbered version v = record { keys = numbered _; strings = numbered _ }
