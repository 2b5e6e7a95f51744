-- ===== src/Psb/Canon/Maps.antt =====
-- Maps: insertion of distinct keys into an empty map, and the sort by key.
use project_chronos_engine.Prelude.{
  ◌≡◌, refl, ap, sym, ◌∙◌, inl, inr, Bytes, true, false, arith, bytes_eq, bytes_eq→eq,
  bytes_eq_refl, Bool-cases, if◌then◌else◌,
}
use project_chronos_engine.Psb.Value.{Value, Fields, end, field, insert_field}
use project_chronos_engine.Psb.Writer.{Writer, leb_bytes}
use project_chronos_engine.Psb.Canon.{
  insert_sorted_field, sort_fields, canon, canon_fields, has_key, Distinct, insert_all,
  append_fields,
}

append_fields-end : (fs : Fields) → append_fields fs end ≡ fs
unfolding append_fields
append_fields-end end = refl
append_fields-end (field k v fs) = ap (field k v) (append_fields-end fs)

append_fields_assoc :
    (fs gs hs : Fields)
    → append_fields (append_fields fs gs) hs ≡ append_fields fs (append_fields gs hs)
unfolding append_fields
append_fields_assoc end gs hs = refl
append_fields_assoc (field k v fs) gs hs = ap (field k v) (append_fields_assoc fs gs hs)

insert_field_new :
    (k : Bytes) (v : Value) (fs : Fields)
    → has_key k fs ≡ false
    → insert_field k v fs ≡ append_fields fs (field k v end)
unfolding insert_field append_fields has_key
insert_field_new k v end h = refl
insert_field_new k v (field j u fs) h = ground (arith, insert_field_new k v fs)

has_key-append :
    (k : Bytes) (fs gs : Fields)
    → has_key k (append_fields fs gs) ≡ (if has_key k fs then true else has_key k gs)
unfolding append_fields has_key
has_key-append k end gs = refl
has_key-append k (field j v fs) gs = ground (arith, has_key-append k fs gs)

-- No key of `fs` is in `obj`.
abbrev Apart : Fields → Fields → Type 0
Apart obj end = Unit {0}
Apart obj (field k v fs) = (has_key k obj ≡ false) × Apart obj fs

bytes_eq_sym : (a b : Bytes) → bytes_eq a b ≡ false → bytes_eq b a ≡ false
bytes_eq_sym a b h = ground (arith, bytes_eq→eq b a, bytes_eq_refl a)

Apart-snoc :
    (obj : Fields) (k : Bytes) (v : Value) (fs : Fields)
    → Apart obj fs
    → has_key k fs ≡ false
    → Apart (append_fields obj (field k v end)) fs
unfolding has_key
Apart-snoc obj k v end p h = tt
Apart-snoc obj k v (field j u fs) p h = (
  ground (arith, has_key-append j obj (field k v end), bytes_eq_sym j k),
  Apart-snoc obj k v fs p.1 (ground arith),
)

insert_all-append :
    (fs obj : Fields) → Distinct fs → Apart obj fs → insert_all obj fs ≡ append_fields obj fs
unfolding insert_all
insert_all-append end obj d p = sym (append_fields-end obj)
insert_all-append (field k v fs) obj d p =
    ap (λ o. insert_all o fs) (insert_field_new k v obj p.0)
    ∙ insert_all-append fs (append_fields obj (field k v end)) d.1 (Apart-snoc obj k v fs p.1 d.0)
    ∙ append_fields_assoc obj (field k v end) fs
    ∙ unfold append_fields in refl

Apart-end : (fs : Fields) → Apart end fs
unfolding has_key
Apart-end end = tt
Apart-end (field k v fs) = (refl, Apart-end fs)

-- Distinct keys inserted one by one into an empty map give the fields back, in their order.
pub insert_all-end : (fs : Fields) → Distinct fs → insert_all end fs ≡ fs
unfolding append_fields
insert_all-end fs d = insert_all-append fs end d (Apart-end fs)

has_key-insert_sorted_field :
    (k j : Bytes) (v : Value) (fs : Fields)
    → has_key k (insert_sorted_field j v fs) ≡ (if bytes_eq j k then true else has_key k fs)
unfolding has_key insert_sorted_field
has_key-insert_sorted_field k j v end = refl
has_key-insert_sorted_field k j v (field i u fs) =
    ground (arith, has_key-insert_sorted_field k j v fs)

Distinct-insert_sorted_field :
    (k : Bytes) (v : Value) (fs : Fields)
    → has_key k fs ≡ false
    → Distinct fs
    → Distinct (insert_sorted_field k v fs)
unfolding insert_sorted_field
Distinct-insert_sorted_field k v end h d = (h, d)
Distinct-insert_sorted_field k v (field j u fs) h d = elim (Bool-cases (leb_bytes k j)) [
  | inl below ↦ rw below (h, d)
  | inr above ↦ rw above (
    unfold has_key in ground (arith, has_key-insert_sorted_field j k v fs, bytes_eq_sym j k),
    Distinct-insert_sorted_field k v fs (unfold has_key in ground arith) d.1,
  )
]

has_key-sort_fields : (k : Bytes) (fs : Fields) → has_key k (sort_fields fs) ≡ has_key k fs
unfolding sort_fields has_key
has_key-sort_fields k end = refl
has_key-sort_fields k (field j v fs) =
    has_key-insert_sorted_field k j v (sort_fields fs) ∙ rw (has_key-sort_fields k fs)

pub Distinct-sort_fields : (fs : Fields) → Distinct fs → Distinct (sort_fields fs)
unfolding sort_fields
Distinct-sort_fields end d = d
Distinct-sort_fields (field k v fs) d =
    Distinct-insert_sorted_field k v (sort_fields fs) (has_key-sort_fields k fs ∙ d.0)
      (Distinct-sort_fields fs d.1)

has_key-canon_fields :
    (w : Writer) (k : Bytes) (fs : Fields) → has_key k (canon_fields w fs) ≡ has_key k fs
unfolding canon has_key
has_key-canon_fields w k end = refl
has_key-canon_fields w k (field j v fs) = rw (has_key-canon_fields w k fs)

pub Distinct-canon_fields : (w : Writer) (fs : Fields) → Distinct fs → Distinct (canon_fields w fs)
unfolding canon
Distinct-canon_fields w end d = d
Distinct-canon_fields w (field k v fs) d =
    (has_key-canon_fields w k fs ∙ d.0, Distinct-canon_fields w fs d.1)
