-- ===== src/Psb/Tokens/Layout.antt =====
-- `lay_out` of writer.rs against the loops of the reader that follow the offsets.
use project_chronos_engine.Prelude.{
  ℕ, suc, ◌+◌, ◌≡◌, refl, ap, sym, ◌∙◌, Bytes, All, List, [], ◌∷◌, ◌++◌, append_assoc, append-nil,
  arith, length, length-append, map,
}
use project_chronos_engine.Psb.Emit.{write_uint_array}
use project_chronos_engine.Psb.Writer.{lay_out, array_token, object_token, Entry}
use project_chronos_engine.Psb.Numbers.Unsigned.{IsU32}

-- Where each chunk starts, from `k`, and the chunks in a row.
unfoldable pub starts : ℕ → List Bytes → List ℕ
starts k [] = []
starts k (c ∷ cs) = k ∷ starts (k + length c) cs

unfoldable pub flat : List Bytes → Bytes
flat [] = []
flat (c ∷ cs) = c ++ flat cs

pub lay_out_lem :
    (offsets : List ℕ) (temp : Bytes) (cs : List Bytes)
    → lay_out offsets temp cs ≡ (offsets ++ starts (length temp) cs, temp ++ flat cs)
unfolding lay_out starts flat
lay_out_lem offsets temp [] = λ i. (sym (append-nil offsets) i, sym (append-nil temp) i)
lay_out_lem offsets temp (c ∷ cs) =
    lay_out_lem (offsets ++ (length temp ∷ [])) (temp ++ c) cs ∙ simp (append_assoc, length-append)

pub length-starts : (k : ℕ) (cs : List Bytes) → length (starts k cs) ≡ length cs
unfolding starts
length-starts k [] = refl
length-starts k (c ∷ cs) = ap suc (length-starts (k + length c) cs)

pub starts-IsU32 :
    (k : ℕ) (cs : List Bytes) → IsU32 (k + length (flat cs)) → All IsU32 (starts k cs)
unfolding starts flat
starts-IsU32 k [] h = tt
starts-IsU32 k (c ∷ cs) h = (
  omega (arith, length-append c (flat cs)),
  starts-IsU32 (k + length c) cs (omega (arith, length-append c (flat cs))),
)

pub array_token_lem :
    (cs : List Bytes) → array_token cs ≡ 32 ∷ (write_uint_array (starts 0 cs) ++ flat cs)
unfolding array_token
array_token_lem cs = rw lay_out_lem

pub object_token_lem :
    (es : List Entry)
    → object_token es
      ≡ 33
        ∷ (write_uint_array (map (λ e. e.key_index) es)
            ++ (write_uint_array (starts 0 (map (λ e. e.chunk) es))
                ++ flat (map (λ e. e.chunk) es)))
unfolding object_token
object_token_lem es = rw lay_out_lem
