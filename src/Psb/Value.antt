-- ===== src/Psb/Value.antt =====
-- editor/crates/m2-psb/src/value.rs, and the errors of lib.rs.
use project_chronos_engine.Prelude.{ℕ, Bytes, Bool, bytes_eq, if◌then◌else◌}
use project_chronos_engine.Prelude.Int.{ℤ}

-- A binary blob of the stream table. (`content` is the field `data` of the source.)
pub record Stream : Type 0 where
  pub index : ℕ
  pub content : Bytes

-- A string is its UTF-8 bytes and a double is its 64-bit pattern. `Vec<Value>` and
-- `IndexMap<String, Value>` are the two lists of the block; a map keeps the order of insertion.
mutual
  pub data Value : Type 0 where
    null : Value
    bool : Bool → Value
    int : ℤ → Value
    float : ℕ → Value
    string : Bytes → Value
    array : Items → Value
    object : Fields → Value
    stream : Stream → Value
    bstream : Stream → Value

  pub data Items : Type 0 where
    nil : Items
    cons : Value → Items → Items

  pub data Fields : Type 0 where
    end : Fields
    field : Bytes → Value → Fields → Fields

pub data Error : Type 0 where
  bad_magic : Error
  truncated : ℕ → Error
  unknown_type : ℕ → ℕ → Error
  invalid_uint_type : ℕ → Error
  invalid_utf8 : Error

-- `panicked` is a panic of the program. `stuck` is no result of it: a loop of the model ran out of
-- its fuel.
pub data Result {ℓ} (A : Type ℓ) : Type ℓ where
  ok : A → Result A
  err : Error → Result A
  panicked : Result A
  stuck : Result A

-- `IndexMap::insert`: a key that is there keeps its place, a new one goes to the end.
unfoldable pub insert_field : Bytes → Value → Fields → Fields
insert_field k v end = field k v end
insert_field k v (field j u fs) =
    if bytes_eq j k then field j v fs else field j u (insert_field k v fs)
