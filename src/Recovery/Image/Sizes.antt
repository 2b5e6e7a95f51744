-- ===== src/Recovery/Image/Sizes.antt =====
-- `load_image` of image.rs: the image that is chosen, and the length of its bytes.
use project_chronos_engine.Prelude.{
  ℕ, ◌+◌, ◌≡◌, ◌<◌, refl, sym, subst, ◌∙◌, Bytes, Bool, true, false, not, ◌&&◌, ◌||◌, List, [], ◌∷◌,
  Option, none, some, inl, inr, length, All, Bool-cases, ◌==◌, ==_iff, if◌then◌else◌,
}
use project_chronos_engine.Recovery.Image.{
  ImageEntry, ImageError, size_mismatch, no_matching_image, empty, selection_changed, too_large,
  Outcome, ok, err, stuck, ◌>>=◌, ok_or, ZipMember, LocalFile, Source, raw, zipped, open_source,
  check_size, skipped, entry_of, zip_entries, candidates, find_entry, select_entry, entry_eq,
}
use project_chronos_engine.Recovery.Image.Copies.{
  Got, copy_verified, read_loop, read_verified, reader_of, chosen, load_image,
}
use project_chronos_engine.Recovery.Image.Reports.{IsReported, copy_verified-IsReported}
use project_chronos_engine.Recovery.Image.Agreement.{keep, Agree, read_verified-copy_verified}

-- `Q` where the steps succeed.
abbrev Yields : {A : Type 0} → (A → Type 0) → Outcome A → Type 0
Yields Q (ok a) = Q a
Yields Q (err e) = Unit {0}
Yields Q stuck = Unit {0}

Yields-then :
    {A B : Type 0} (Q : A → Type 0) (R : B → Type 0) (o : Outcome A) (f : A → Outcome B)
    → Yields Q o
    → ((a : A) → Q a → Yields R (f a))
    → Yields R (o >>= f)
Yields-then Q R (ok a) f h k = k a h
Yields-then Q R (err e) f h k = tt
Yields-then Q R stuck f h k = tt

abbrev Any : {A : Type 0} → A → Type 0
Any a = Unit {0}

Yields-Any : {A : Type 0} (o : Outcome A) → Yields Any o
Yields-Any (ok a) = tt
Yields-Any (err e) = tt
Yields-Any stuck = tt

abbrev HasSize : ℕ → ImageEntry → Type 0
HasSize n e = e.size ≡ n

module _ (expected : ℕ) where
  kept :
      (b c : Bool) (e : ImageEntry) (es : List ImageEntry)
      → (e.size == expected) ≡ c
      → All (HasSize expected) es
      → All (HasSize expected) (if b then es else if false || c then e ∷ es else es)
  kept true c e es q h = h
  kept false true e es q h = ((==_iff e.size expected).0 q, h)
  kept false false e es q h = h

  zip_entries-HasSize :
      (index : ℕ) (ms : List (Option ZipMember))
      → Yields (All (HasSize expected)) (zip_entries index ms expected false)
  unfolding zip_entries
  zip_entries-HasSize index [] = tt
  zip_entries-HasSize index (none ∷ ms) = tt
  zip_entries-HasSize index (some m ∷ ms) =
      Yields-then (All (HasSize expected)) (All (HasSize expected))
        (zip_entries (index + 1) ms expected false) _ (zip_entries-HasSize (index + 1) ms)
        (λ es h. kept (skipped m) (m.size == expected) (entry_of index m) es refl h)

  check_size-Yields : (n : ℕ) → Yields (λ u. n ≡ expected) (check_size n expected false)
  unfolding check_size
  check_size-Yields n = go (n == 0) (n == expected) refl
    where
      go :
          (b c : Bool)
          → (n == expected) ≡ c
          → Yields
              (λ (u : Unit {0}). n ≡ expected)
              (if b
                then err empty
                else if not c && not false
                then err (size_mismatch n expected)
                else ok tt)
      go true c q = tt
      go false true q = (==_iff n expected).0 q
      go false false q = tt

  candidates-HasSize : (s : Source) → Yields (All (HasSize expected)) (candidates s expected false)
  unfolding candidates
  candidates-HasSize (raw e) =
      Yields-then (λ u. e.size ≡ expected) (All (HasSize expected))
        (check_size e.size expected false) _ (check_size-Yields e.size) (λ u h. (h, tt))
  candidates-HasSize (zipped ms) =
      Yields-then (All (HasSize expected)) (All (HasSize expected))
        (zip_entries 0 ms expected false) _ (zip_entries-HasSize 0 ms) some_entries
    where
      some_entries :
          (es : List ImageEntry)
          → All (HasSize expected) es
          → Yields (All (HasSize expected)) (elim es as (λ x. Outcome (List ImageEntry)) [
            | [] ↦ err (no_matching_image expected)
            | f ∷ fs ↦ ok (f ∷ fs)
          ])
      some_entries [] h = tt
      some_entries (f ∷ fs) h = h

  find_entry-HasSize :
      (es : List ImageEntry) (entry : ImageEntry)
      → All (HasSize expected) es
      → Yields (HasSize expected) (ok_or (find_entry es entry) selection_changed)
  unfolding find_entry
  find_entry-HasSize [] entry h = tt
  find_entry-HasSize (e ∷ es) entry h = here (entry_eq e entry) (find_entry-HasSize es entry h.1)
    where
      here :
          (b : Bool)
          → Yields (HasSize expected) (ok_or (find_entry es entry) selection_changed)
          → Yields
              (HasSize expected)
              (ok_or (if b then some e else find_entry es entry) selection_changed)
      here true k = h.0
      here false k = k

  select_entry-HasSize :
      (es : List ImageEntry) (selection : Option ImageEntry)
      → All (HasSize expected) es
      → Yields (HasSize expected) (select_entry es selection)
  unfolding select_entry
  select_entry-HasSize es (some entry) h = find_entry-HasSize es entry h
  select_entry-HasSize [] none h = tt
  select_entry-HasSize (e ∷ []) none h = h.0
  select_entry-HasSize (e ∷ f ∷ es) none h = tt

module _ {S : Type 0} (read : S → ℕ → S × Got) where
  chosen-HasSize :
      (raw_reader : S) (by_index : ℕ → Option S) (file : LocalFile) (expected : ℕ)
      (selection : Option ImageEntry)
      → Yields
          (λ (c : S × ImageEntry). c.1.size ≡ expected)
          (chosen read raw_reader by_index file expected false selection)
  unfolding chosen
  chosen-HasSize raw_reader by_index file expected selection =
      Yields-then Any Q (open_source file) _ (Yields-Any (open_source file)) (λ source u.
        Yields-then (All (HasSize expected)) Q (candidates source expected false) _
          (candidates-HasSize expected source)
          (λ es h.
            Yields-then (HasSize expected) Q (select_entry es selection) _
              (select_entry-HasSize expected es selection h)
              (λ e k.
                Yields-then Any Q (reader_of read raw_reader by_index source e) _ (Yields-Any _)
                  (λ r v. k))))
    where
      Q : S × ImageEntry → Type 0
      Q c = c.1.size ≡ expected

  -- A load that succeeds has this many bytes.
  abbrev Exact : ℕ → Outcome Bytes × List ℕ → Type 0
  Exact n (ok d, ps) = (length d ≡ n) × (0 < n)
  Exact n (err e, ps) = Unit {0}
  Exact n (stuck, ps) = Unit {0}

  exactly :
      (size : ℕ) (c : Outcome ℕ × Bytes × List ℕ) (l : Outcome Bytes × List ℕ)
      → IsReported size c
      → Agree [] c l
      → Exact size l
  exactly size (ok n, w, []) (ok d, ps) r a = absurd r
  exactly size (ok n, w, p ∷ qs) (ok d, ps) r a =
      (sym (ok_inj n (length d) a.0) ∙ r.0, subst (λ x. 0 < x) r.0 r.2)
    where
      ok_inj : (x y : ℕ) → ◌≡◌ {A = Outcome ℕ} (ok x) (ok y) → x ≡ y
      ok_inj x y e = cc
  exactly size (err e, w, qs) (ok d, ps) r a = not_ok e (length d) a.0
    where
      not_ok : (e : ImageError) (n : ℕ) → ◌≡◌ {A = Outcome ℕ} (err e) (ok n) → Exact size (ok d, ps)
      not_ok e n f = cc
  exactly size (stuck, w, qs) (ok d, ps) r a = not_ok (length d) a.0
    where
      not_ok : (n : ℕ) → ◌≡◌ {A = Outcome ℕ} stuck (ok n) → Exact size (ok d, ps)
      not_ok n f = cc
  exactly size c (err e, ps) r a = tt
  exactly size c (stuck, ps) r a = tt

  too_large-Exact :
      (reserves : ℕ → Bool) (fuel size : ℕ) (s : S)
      → reserves size ≡ false
      → Exact size (read_verified read reserves fuel size s)
  unfolding read_verified
  too_large-Exact reserves fuel size s h =
      subst
        (λ b.
          Exact size (if b then read_loop read fuel size s [] (0 ∷ []) else (err too_large, [])))
        (sym h) tt

  read_verified-Exact :
      (reserves : ℕ → Bool) (fuel size : ℕ) (s : S)
      → Exact size (read_verified read reserves fuel size s)
  read_verified-Exact reserves fuel size s = elim (Bool-cases (reserves size)) [
    | inl h ↦
        exactly size (copy_verified read keep fuel size s [])
          (read_verified read reserves fuel size s)
          (copy_verified-IsReported read keep size fuel s [])
          (read_verified-copy_verified read size [] reserves fuel s h)
    | inr h ↦ too_large-Exact reserves fuel size s h
  ]

  -- For any reader, any file and any selection: where `load_image` succeeds for an expected size and no mismatch is
  -- allowed, it gives exactly that many bytes, and the size is not 0.
  pub length-load_image :
      (reserves : ℕ → Bool) (fuel : ℕ) (raw_reader : S) (by_index : ℕ → Option S) (file : LocalFile)
      (expected : ℕ) (selection : Option ImageEntry) (d : Bytes) (ps : List ℕ)
      → load_image read reserves fuel raw_reader by_index file expected false selection ≡ (ok d, ps)
      → (length d ≡ expected) × (0 < expected)
  unfolding load_image
  length-load_image reserves fuel raw_reader by_index file expected selection d ps h =
      subst (Exact expected) h (
        loads (chosen read raw_reader by_index file expected false selection)
          (chosen-HasSize raw_reader by_index file expected selection))
    where
      loads :
          (c : Outcome (S × ImageEntry))
          → Yields (λ (x : S × ImageEntry). x.1.size ≡ expected) c
          → Exact expected (elim c as (λ x. Outcome Bytes × List ℕ) [
            | ok x ↦ read_verified read reserves fuel x.1.size x.0
            | err e ↦ (err e, [])
            | stuck ↦ (stuck, [])
          ])
      loads (ok x) q =
          subst (λ n. Exact n (read_verified read reserves fuel x.1.size x.0)) q
            (read_verified-Exact reserves fuel x.1.size x.0)
      loads (err e) q = tt
      loads stuck q = tt
