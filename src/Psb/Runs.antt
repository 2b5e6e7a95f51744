-- ===== src/Psb/Runs.antt =====
-- Concrete runs of the writer and the reader.
use project_chronos_engine.Prelude.{
  and_then, ℕ, zero, suc, ◌+◌, ◌*◌, ◌^◌, ◌%◌, ◌≡◌, ◌≢◌, ◌<◌, ◌≤◌, ◌⊎◌, inl, inr, sym, subst, refl,
  Bytes, Bool, List, [], ◌∷◌, some, none, true, false, append-nil, arith, length, get_or,
}
use project_chronos_engine.Prelude.At.{At}
use project_chronos_engine.Prelude.Int.{negsuc}
use project_chronos_engine.Psb.Value.{
  Value, bool, int, string, array, object, stream, nil, cons, end, field, ok, stuck, panicked,
}
use project_chronos_engine.Psb.Emit.{
  Floats, write_int, write_uint_array, write_uint_with_type, bytes_for, maximum, write_elems,
  write_indexed, long_width, round_trips, sign_extend, write_float, adler32,
}
use project_chronos_engine.Psb.Parse.{walk, read_cstrings, read_names, step_byte}
use project_chronos_engine.Psb.Parse.Hostile.{walk_cycle, walk_ranked, read_cstrings_panic}
use project_chronos_engine.Psb.Scan.{read_uint_array}
use project_chronos_engine.Psb.Reader.{codes, read_token}
use project_chronos_engine.Psb.Trie.{
  find_slot, build, add_names, add_name, add_chars, add_char, push_node, insert_child, child,
  pack_all, pack_node, fits, last_char, grow, assign, materialize, place,
}
use project_chronos_engine.Psb.Trie.Slots.{find_slot_first_fit, IsFree}
use project_chronos_engine.Psb.Writer.{
  prepare, collect, add_stream, any_index, add_key, contains_key, lookup, add_string, leb_bytes,
  write_token, index_from, position, object_token, array_token, add_bstream, insert_sorted, sort,
  lay_out, write_items, write_fields,
}
use project_chronos_engine.Psb.Canon.{canon, InRange, has_key}
use project_chronos_engine.Psb.Contents.{Holds, prepare-Holds}
use project_chronos_engine.Psb.Contents.Canonical.{canonical}
use project_chronos_engine.Psb.Numbers.Unsigned.{IsU32, read_uint_array-write_uint_array}
use project_chronos_engine.Psb.Numbers.Signed.{read_token-write_int}
use project_chronos_engine.Psb.Numbers.Checksum.{adler32_closed, total, weighted}
use project_chronos_engine.Psb.Prepared.{tables, prepare-Agrees}
use project_chronos_engine.Psb.Prepared.RoundTrip.{read_token-prepare}
use project_chronos_engine.Psb.Tokens.Backs.{Agrees}
use project_chronos_engine.Psb.Tokens.RoundTrip.{read_token-write_token}
use project_chronos_engine.Psb.File.{write}
use project_chronos_engine.Psb.Tokens.Total.{write_returns}
use project_chronos_engine.Psb.Tokens.Fuel.{read_token-ne-stuck}

-- Hardware floats where nothing but zero fits an f32.
abbrev doubles : Floats
doubles = record { narrow = λ f. 0; widen = λ f. 0 }

abbrev sample : Value
sample = object (
    field (codes "ab") (array (cons (int (negsuc 299)) (cons (bool true) nil))) (
      field (codes "b") (string (codes "hi"))
        (field (codes "a") (stream (record { index = 0; content = 7 ∷ 8 ∷ [] })) end)))

abbrev cycle : List ℕ
cycle = 0 ∷ 2 ∷ 1 ∷ []

abbrev OnCycle : ℕ → Type 0
OnCycle n = (n ≡ 1) ⊎ (n ≡ 2)

two_cycle : (n : ℕ) → OnCycle n → (n ≢ 0) × OnCycle (get_or cycle n 0)
two_cycle n (inl e) =
    subst (λ (k : ℕ). (k ≢ 0) × OnCycle (get_or cycle k 0)) (sym e) (λ z. omega arith, inr refl)
two_cycle n (inr e) =
    subst (λ (k : ℕ). (k ≢ 0) × OnCycle (get_or cycle k 0)) (sym e) (λ z. omega arith, inl refl)

lower : (n : ℕ) → n ≢ 0 → get_or (0 ∷ 0 ∷ 1 ∷ []) n 0 < n
lower zero h = absurd (h refl)
lower (suc zero) h = omega arith
lower (suc (suc zero)) h = omega arith
lower (suc (suc (suc n))) h = omega arith

array_here : At (9 ∷ write_uint_array (1 ∷ 300 ∷ [])) 1 (write_uint_array (1 ∷ 300 ∷ []))
array_here = ([], sym (append-nil (write_uint_array (1 ∷ 300 ∷ []))))

int_here : At (write_int (negsuc 299)) 0 (write_int (negsuc 299))
int_here = ([], sym (append-nil (write_int (negsuc 299))))

sample-InRange : InRange sample
unfolding has_key
sample-InRange = ((refl, (refl, (refl, tt))), (((omega arith, (tt, tt)), (tt, (tt, tt)))))

abbrev bytes : Bytes
bytes =
    33 ∷ 13 ∷ 3 ∷ 13 ∷ 0 ∷ 1 ∷ 2 ∷ 13 ∷ 3 ∷ 13 ∷ 0 ∷ 2 ∷ 12 ∷ 25 ∷ 0 ∷ 32 ∷ 13 ∷ 2 ∷ 13 ∷ 0 ∷ 3 ∷ 6
    ∷ 212 ∷ 254 ∷ 3 ∷ 21 ∷ 0 ∷ []

token_bytes : write_token doubles (prepare 3 sample) sample ≡ some bytes
unfolding prepare collect add_stream any_index add_key contains_key lookup add_string leb_bytes
    write_token index_from position object_token write_uint_array write_uint_with_type bytes_for
    maximum write_elems write_indexed array_token long_width round_trips sign_extend write_float
    write_int add_bstream insert_sorted sort lay_out write_items write_fields
token_bytes = refl

few_keys : IsU32 (length (prepare 3 sample).keys)
unfolding prepare collect add_stream any_index add_key contains_key lookup add_string leb_bytes
few_keys = omega arith

few_strings : IsU32 (length (prepare 3 sample).strings)
unfolding prepare collect add_stream any_index add_key contains_key lookup add_string leb_bytes
few_strings = omega arith

few_streams : IsU32 (length (prepare 3 sample).streams)
unfolding prepare collect add_stream any_index add_key contains_key lookup add_string leb_bytes
few_streams = omega arith

few_bstreams : IsU32 (length (prepare 3 sample).bstreams)
unfolding prepare collect add_stream any_index add_key contains_key lookup add_string leb_bytes
few_bstreams = omega arith

narrow_small : (f : ℕ) → doubles.narrow f < 2 ^ 32
narrow_small f = omega arith

agrees : Agrees (prepare 3 sample) (tables (prepare 3 sample))
agrees = prepare-Agrees 3 sample few_keys few_strings few_streams few_bstreams

here : At bytes 0 bytes
here = ([], refl)

read_token-write_token_example :
    (at' : ℕ) × (read_token doubles bytes (tables (prepare 3 sample)) (length bytes + 1) 0
      ≡ ok (canon (prepare 3 sample) sample, at'))
read_token-write_token_example =
    read_token-write_token doubles bytes (prepare 3 sample) (tables (prepare 3 sample)) sample bytes
      0 agrees narrow_small sample-InRange token_bytes (omega arith) here

read_token-prepare_example :
    (bs : Bytes) × (write_token doubles (prepare 3 sample) sample ≡ some bs)
    × ((file : Bytes) (at : ℕ)
        → IsU32 (length bs)
        → At file at bs
        → (at' : ℕ) × (read_token doubles file (tables (prepare 3 sample)) (length file + 1) at
            ≡ ok (canonical (prepare 3 sample) sample, at')))
read_token-prepare_example =
    read_token-prepare doubles 3 sample narrow_small sample-InRange few_keys few_strings few_streams
      few_bstreams

write_returns_example : (file : Bytes) × (write doubles sample 3 ≡ some file)
write_returns_example = write_returns doubles sample 3

-- A hostile token: an array whose only element is the array itself.
read_token-ne-stuck_example :
    read_token doubles (32 ∷ 13 ∷ 1 ∷ 13 ∷ 0 ∷ []) (tables (prepare 3 sample)) 6 0 ≢ stuck
read_token-ne-stuck_example =
    read_token-ne-stuck doubles (32 ∷ 13 ∷ 1 ∷ 13 ∷ 0 ∷ []) (tables (prepare 3 sample)) 0

prepare-Holds_example : Holds (prepare 3 sample) sample
prepare-Holds_example = prepare-Holds 3 sample

prepare-Agrees_example : Agrees (prepare 3 sample) (tables (prepare 3 sample))
prepare-Agrees_example = prepare-Agrees 3 sample few_keys few_strings few_streams few_bstreams

read_uint_array-write_uint_array_example :
    read_uint_array (9 ∷ write_uint_array (1 ∷ 300 ∷ [])) 1
    ≡ ok (1 ∷ 300 ∷ [], 1 + length (write_uint_array (1 ∷ 300 ∷ [])))
read_uint_array-write_uint_array_example =
    read_uint_array-write_uint_array (9 ∷ write_uint_array (1 ∷ 300 ∷ [])) 1 (1 ∷ 300 ∷ [])
      ((omega arith, (omega arith, tt))) (omega arith) array_here

read_token-write_int_example :
    (at' : ℕ) × (read_token doubles (write_int (negsuc 299)) (tables (prepare 3 sample)) 1 0
      ≡ ok (int (negsuc 299), at'))
read_token-write_int_example =
    read_token-write_int doubles (write_int (negsuc 299)) (tables (prepare 3 sample)) 0 0
      (negsuc 299) (omega arith) int_here

abbrev two_bytes : Bytes
two_bytes = 1 ∷ 2 ∷ []

adler32_closed_example :
    adler32 two_bytes
    ≡ (length two_bytes + weighted two_bytes) % 65521 * 2 ^ 16 + (1 + total two_bytes) % 65521
adler32_closed_example = adler32_closed two_bytes

abbrev some_used : List Bool
some_used = true ∷ false ∷ true ∷ []

find_slot_first_fit_example :
    IsFree some_used 1 (1 ∷ 2 ∷ []) (find_slot 3 some_used 1 (1 ∷ 2 ∷ []) 0)
    × ((other : ℕ)
        → 0 ≤ other
        → other < find_slot 3 some_used 1 (1 ∷ 2 ∷ []) 0
        → ¬ IsFree some_used 1 (1 ∷ 2 ∷ []) other)
find_slot_first_fit_example = find_slot_first_fit some_used 1 (1 ∷ 2 ∷ []) 0

-- Two nodes that are each other's parents.
walk_cycle_example : walk [] cycle 7 1 [] ≡ none
walk_cycle_example = walk_cycle [] cycle OnCycle two_cycle 7 1 [] (inl refl)

walk_ranked_example : (found : Bytes) × (walk (0 ∷ 1 ∷ []) (0 ∷ 0 ∷ 1 ∷ []) 2 2 [] ≡ some found)
walk_ranked_example = walk_ranked (0 ∷ 1 ∷ []) (0 ∷ 0 ∷ 1 ∷ []) (λ n. n) lower 2 2 [] (omega arith)

read_cstrings_panic_example :
    read_cstrings (λ s. s) (1 ∷ 2 ∷ []) 1 (0 ∷ 1 ∷ 9 ∷ 0 ∷ []) 0 ≡ panicked
read_cstrings_panic_example =
    read_cstrings_panic (λ s. s) (1 ∷ 2 ∷ []) 1 9 0 (0 ∷ 1 ∷ []) (0 ∷ []) (omega arith)

-- The names that the reader finds in the trie of three names are these.
abbrev some_names : List Bytes
some_names = codes "a" ∷ codes "ab" ∷ codes "b" ∷ []

names_found :
    and_then (build some_names) (λ t. some (read_names (λ s. s) 4 t.value_offsets t.tree t.tails 0))
    ≡ some (ok (some_names, 0))
unfolding build add_names add_name add_chars add_char push_node insert_child child pack_all
    pack_node find_slot fits last_char grow assign materialize place read_names walk step_byte
names_found = refl
