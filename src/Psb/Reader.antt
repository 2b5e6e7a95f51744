-- ===== src/Psb/Reader.antt =====
-- editor/crates/m2-psb/src/reader.rs: the token tree.
use Prim.Native.Char.{code}
use Prim.Native.String.{String}
use project_chronos_engine.Prelude.{
  ℕ, zero, suc, ◌+◌, ◌-◌, ◌/◌, ◌%◌, ◌^◌, Bytes, Bool, true, false, ◌&&◌, List, [], ◌∷◌, ◌++◌,
  Option, none, some, ltb, leb, ◌==◌, if◌then◌else◌, of_le, get_elem?, get_or,
}
use project_chronos_engine.Prelude.Int.{to_u64}
use project_chronos_engine.Psb.Value.{
  Value, null, bool, int, float, string, array, object, stream, bstream, Items, nil, cons, Fields,
  end, insert_field, Result, ok, stuck, unknown_type, invalid_uint_type,
}
use project_chronos_engine.Psb.Emit.{Floats}
use project_chronos_engine.Psb.Scan.{
  Read, ◌>>=◌, pure, fail, seek, read_u8, read_u16, read_u32, read_bytes, read_n_bytes_int,
  read_uint_array,
}

-- The tables of a `Reader` that the token tree refers to.
pub record Tables : Type 0 where
  pub keys : List Bytes
  pub strings : List Bytes
  pub streams : List Bytes
  pub bstreams : List Bytes

abbrev pub codes : String → Bytes
codes String.[] = []
codes (String.◌∷◌ c s) = code c ∷ codes s

-- `format!("{}", n)`; `n` rounds are enough.
unfoldable pub decimal : ℕ → ℕ → Bytes
decimal zero n = (48 + n) ∷ []
decimal (suc fuel) n = elim (ltb n 10) [
  | true ↦ (48 + n) ∷ []
  | false ↦ decimal fuel (n / 10) ++ ((48 + n % 10) ∷ [])
]

-- `keys.get(idx).cloned().unwrap_or_else(|| format!("_key:{}", idx))`
unfoldable pub key_at : List Bytes → ℕ → Bytes
unfolding decimal
key_at keys idx = elim (get_elem? keys idx) [ none ↦ codes "_key:" ++ decimal idx idx | some k ↦ k ]

abbrev pub in_range : ℕ → ℕ → ℕ → Bool
in_range lo hi ty = leb lo ty && leb ty hi

-- Key, string, stream, bstream and uint types stand for 1 to 4 bytes each.
unfoldable pub packed_width : ℕ → Option ℕ
packed_width ty =
    if in_range 17 20 ty
    then some (ty - 17 + 1)
    else if in_range 21 24 ty
    then some (ty - 21 + 1)
    else if in_range 25 28 ty
    then some (ty - 25 + 1)
    else if in_range 34 37 ty
    then some (ty - 34 + 1)
    else if in_range 13 16 ty
    then some (ty - 13 + 1)
    else none

-- The last case is `unreachable!()`: a width is 1 to 4.
unfoldable pub read_width : Bytes → ℕ → Read ℕ
read_width bytes width =
    if width == 1
    then read_u8 bytes
    else if width == 2
    then read_u16 bytes
    else if width == 3
    then (do n ← read_n_bytes_int bytes 3 false; pure (to_u64 n))
    else if width == 4
    then read_u32 bytes
    else (λ at. Result.panicked)

unfoldable pub read_packed_int : Bytes → ℕ → Read ℕ
read_packed_int bytes ty = elim (packed_width ty) [
  | none ↦ fail (invalid_uint_type ty)
  | some width ↦ read_width bytes width
]

abbrev pub position : Read ℕ
position at = ok (at, at)

-- The loops of `read_array` and `read_object`, over the read of one token.
unfoldable pub read_items : Read Value → ℕ → List ℕ → Read Items
read_items token base [] = pure nil
read_items token base (off ∷ offsets) = do
  v ← seek (base + off) token
  rest ← read_items token base offsets
  pure (cons v rest)

unfoldable pub read_fields : Read Value → List Bytes → ℕ → Fields → List ℕ → List ℕ → Read Fields
read_fields token keys base obj [] offsets = pure obj
read_fields token keys base obj (k ∷ ks) [] = pure obj
read_fields token keys base obj (k ∷ ks) (off ∷ offsets) = do
  v ← seek (base + off) token
  read_fields token keys base (insert_field (key_at keys k) v obj) ks offsets

module _ (floats : Floats) (bytes : Bytes) (t : Tables) where
  unfoldable pub read_array : Read Value → Read Value
  read_array token = do
    offsets ← read_uint_array bytes
    base ← position
    items ← read_items token base offsets
    pure (array items)

  unfoldable pub read_object : Read Value → Read Value
  read_object token = do
    key_indices ← read_uint_array bytes
    value_offsets ← read_uint_array bytes
    base ← position
    obj ← read_fields token t.keys base end key_indices value_offsets
    pure (object obj)

  -- The match on the type byte `ty`, read at `token_pos`.
  unfoldable pub read_typed : Read Value → ℕ → ℕ → Read Value
  read_typed token token_pos ty =
      if ty == 1
      then pure null
      else if ty == 2
      then pure (bool false)
      else if ty == 3
      then pure (bool true)
      else if in_range 4 8 ty
      then (do n ← read_n_bytes_int bytes (ty - 4) true; pure (int n))
      else if in_range 9 12 ty
      then (do n ← read_n_bytes_int bytes (ty - 9 + 5) true; pure (int n))
      else if in_range 17 20 ty
      then (do idx ← read_packed_int bytes ty; pure (string (key_at t.keys idx)))
      else if in_range 21 24 ty
      then (do idx ← read_packed_int bytes ty; pure (string (get_or t.strings idx [])))
      else if in_range 25 28 ty
      then (do
        idx ← read_packed_int bytes ty
        pure (stream (record { index = idx % 2 ^ 32; content = get_or t.streams idx [] })))
      else if in_range 34 37 ty
      then (do
        idx ← read_packed_int bytes ty
        pure (bstream (record { index = idx % 2 ^ 32; content = get_or t.bstreams idx [] })))
      else if ty == 29
      then pure (float 0)
      else if ty == 30
      then (do bs ← read_bytes bytes 4; pure (float (floats.widen (of_le bs))))
      else if ty == 31
      then (do bs ← read_bytes bytes 8; pure (float (of_le bs)))
      else if ty == 32
      then read_array token
      else if ty == 33
      then read_object token
      else fail (unknown_type ty token_pos)

  -- A token inside another one stands behind it, so the length of the file bounds the depth.
  unfoldable pub read_token : ℕ → Read Value
  read_token zero at = stuck
  read_token (suc fuel) at = (read_u8 bytes >>= λ ty. read_typed (λ p. read_token fuel p) at ty) at
