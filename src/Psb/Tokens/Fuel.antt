-- ===== src/Psb/Tokens/Fuel.antt =====
-- The recursion of `read_token` of reader.rs.
use project_chronos_engine.Prelude.{
  ℕ, zero, suc, ◌+◌, ◌≤◌, ◌<◌, ◌≡◌, ◌≢◌, Bytes, true, List, [], ◌∷◌, arith, length, subst,
  get_elem?, get_elem?-lt, ◌==◌, inl, inr, Option-cases,
}
use native.Mathlib.Numerals.{add-one}
use project_chronos_engine.Psb.Value.{ok, err, stuck, Value, Fields, truncated, insert_field}
use project_chronos_engine.Psb.Emit.{Floats}
use project_chronos_engine.Psb.Scan.{Read, ◌>>=◌, pure, seek, read_u8, read_uint_array}
use project_chronos_engine.Psb.Reader.{
  Tables, key_at, in_range, read_items, read_fields, read_array, read_object, read_typed,
  read_token,
}
use project_chronos_engine.Psb.Tokens.Forward.{
  Ends, Ends-bind, Ends-if, Ends-then, IsForward, read_bytes-IsForward, read_n_bytes_int-IsForward,
  read_packed_int-IsForward, read_uint_array-IsForward,
}

-- The loops end if every child that they start, at `base` or behind it, ends.
module _ (token : Read Value) (base : ℕ) (child : (p : ℕ) → base ≤ p → Ends (token p)) where
  read_items-Ends : (offsets : List ℕ) (q : ℕ) → Ends (read_items token base offsets q)
  unfolding read_items
  read_items-Ends [] q = tt
  read_items-Ends (off ∷ offsets) q =
      Ends-then (seek (base + off) token) _ q (child (base + off) (omega arith)) (λ v p.
        Ends-then (read_items token base offsets) _ p (read_items-Ends offsets p) (λ vs r. tt))

  read_fields-Ends :
      (keys : List Bytes) (ks offsets : List ℕ) (obj : Fields) (q : ℕ)
      → Ends (read_fields token keys base obj ks offsets q)
  unfolding read_fields
  read_fields-Ends keys [] offsets obj q = tt
  read_fields-Ends keys (k ∷ ks) [] obj q = tt
  read_fields-Ends keys (k ∷ ks) (off ∷ offsets) obj q =
      Ends-then (seek (base + off) token) _ q (child (base + off) (omega arith))
        (λ v p. read_fields-Ends keys ks offsets (insert_field (key_at keys k) v obj) p)

module _ (floats : Floats) (bytes : Bytes) (t : Tables) where
  module _ (token : Read Value) (at : ℕ) (child : (p : ℕ) → at ≤ p → Ends (token p)) where
    read_array-Ends : Ends (read_array floats bytes t token at)
    unfolding read_array
    read_array-Ends =
        Ends-bind (read_uint_array bytes) _ at (read_uint_array-IsForward bytes) (λ offsets p h.
          Ends-then (read_items token p offsets) _ p
            (read_items-Ends token p (λ q k. child q (omega arith)) offsets p) (λ items q. tt))

    read_object-Ends : Ends (read_object floats bytes t token at)
    unfolding read_object
    read_object-Ends =
        Ends-bind (read_uint_array bytes) _ at (read_uint_array-IsForward bytes) (λ ks p h.
          Ends-bind (read_uint_array bytes) _ p (read_uint_array-IsForward bytes) (λ offsets q k.
            Ends-then (read_fields token t.keys q Fields.end ks offsets) _ q
              (read_fields-Ends token q (λ r l. child r (omega arith)) t.keys ks offsets Fields.end
                q)
              (λ obj r. tt)))

    leaf-Ends :
        {A : Type 0} (m : Read A) (f : A → Value) → IsForward m → Ends ((m >>= λ a. pure (f a)) at)
    leaf-Ends m f h = Ends-bind m _ at h (λ a p k. tt)

    read_typed-Ends : (token_pos ty : ℕ) → Ends (read_typed floats bytes t token token_pos ty at)
    unfolding read_typed
    read_typed-Ends token_pos ty =
        let packed = read_packed_int-IsForward bytes ty in
        Ends-if (ty == 1) _ _ at tt (
          Ends-if (ty == 2) _ _ at tt (
            Ends-if (ty == 3) _ _ at tt (
              Ends-if (in_range 4 8 ty) _ _ at
                (leaf-Ends _ _ (read_n_bytes_int-IsForward bytes _ true))
                (Ends-if (in_range 9 12 ty) _ _ at
                  (leaf-Ends _ _ (read_n_bytes_int-IsForward bytes _ true))
                  (Ends-if (in_range 17 20 ty) _ _ at (leaf-Ends _ _ packed) (
                    Ends-if (in_range 21 24 ty) _ _ at (leaf-Ends _ _ packed) (
                      Ends-if (in_range 25 28 ty) _ _ at (leaf-Ends _ _ packed) (
                        Ends-if (in_range 34 37 ty) _ _ at (leaf-Ends _ _ packed) (
                          Ends-if (ty == 29) _ _ at tt (
                            Ends-if (ty == 30) _ _ at (leaf-Ends _ _ (read_bytes-IsForward bytes 4))
                              (Ends-if (ty == 31) _ _ at
                                (leaf-Ends _ _ (read_bytes-IsForward bytes 8))
                                (Ends-if (ty == 32) _ _ at read_array-Ends
                                  (Ends-if (ty == 33) _ _ at read_object-Ends tt)))))))))))))

  token_step :
      (fuel at : ℕ)
      → (at < length bytes → (p : ℕ) → at + 1 ≤ p → Ends (read_token floats bytes t fuel p))
      → Ends (read_token floats bytes t (suc fuel) at)
  unfolding read_token
  token_step fuel at children = elim (Option-cases (get_elem? bytes at)) [
    | inl e ↦
        let none_left : read_u8 bytes at ≡ err (truncated at) = unfold read_u8 in rw (e, read_u8) in
        rw (none_left, ◌>>=◌, Ends) tt
    | inr (b, e) ↦
        let one : read_u8 bytes at ≡ ok (b, at + 1) = unfold read_u8 in rw (e, read_u8) in
        rw (one, ◌>>=◌)
          (read_typed-Ends (λ p. read_token floats bytes t fuel p) (at + 1)
            (children (get_elem?-lt bytes at b e)) at b)
  ]

  read_token-Ends :
      (fuel at : ℕ) → length bytes ≤ at + fuel → Ends (read_token floats bytes t (suc fuel) at)
  read_token-Ends zero at h = token_step zero at (λ less p k. absurd (omega arith))
  read_token-Ends (suc fuel) at h =
      token_step (suc fuel) at (λ less p k. read_token-Ends fuel p (omega arith))

-- On every file, whatever its offsets, `read_token` returns within as many levels as the file has
-- bytes, with a value, an error or a panic.
pub read_token-ne-stuck :
    (floats : Floats) (bytes : Bytes) (t : Tables) (at : ℕ)
    → read_token floats bytes t (length bytes + 1) at ≢ stuck
read_token-ne-stuck floats bytes t at e =
    let ends = read_token-Ends floats bytes t (length bytes) at (omega arith) in
    subst Ends e (rw add-one ends)
