-- ===== src/Saves/Journal/Crashes.antt =====
-- save_format.rs: the two files of a pair and their journal, on the way from the old contents to the new.
use project_chronos_engine.Prelude.{
  ◌≡◌, ◌∙◌, Bytes, true, false, Option, none, some, inl, inr, bytes_eq, length, leb,
}
use project_chronos_engine.Saves.Disk.{FilePath, Node, regular, Files, put, same, is_link}
use project_chronos_engine.Saves.Journal.{PairJournal, Library, journal_path, member_at}
use project_chronos_engine.Saves.Journal.Members.{
  Member, Done, OnTheWay, hash, old_hash, IsSound, IsFrame, put-elsewhere,
}

-- A migration of one pair: its destinations, the names of its staged files, the contents before and after.
pub record Migration : Type 0 where
  pub data_ : FilePath
  pub meta : FilePath
  pub staged_data : Bytes
  pub staged_meta : Bytes
  pub old_data : Option Bytes
  pub old_meta : Option Bytes
  pub new_data : Bytes
  pub new_meta : Bytes

abbrev pub data_member : Migration → Member
data_member t = record {
  target = t.data_;
  staged = member_at t.data_.parent t.staged_data;
  old = t.old_data;
  new = t.new_data;
}

abbrev pub meta_member : Migration → Member
meta_member t = record {
  target = t.meta;
  staged = member_at t.data_.parent t.staged_meta;
  old = t.old_meta;
  new = t.new_meta;
}

-- Neither path is the other.
abbrev pub AreApart : FilePath → FilePath → Type 0
AreApart p q = (same p q ≡ false) × (same q p ≡ false)

-- The journal, the destinations and the staged files are five paths.
abbrev pub IsSpread : Migration → Type 0
IsSpread t =
    AreApart t.data_ t.meta
    × AreApart t.data_ (data_member t).staged
    × AreApart t.data_ (meta_member t).staged
    × AreApart t.meta (data_member t).staged
    × AreApart t.meta (meta_member t).staged
    × AreApart (data_member t).staged (meta_member t).staged
    × AreApart (journal_path t.data_) t.data_
    × AreApart (journal_path t.data_) t.meta
    × AreApart (journal_path t.data_) (data_member t).staged
    × AreApart (journal_path t.data_) (meta_member t).staged

-- The journal of a migration, as `prepare_pair` fills it.
abbrev pub journal_of : (Bytes → Bytes) → Migration → PairJournal
journal_of md5 t = record {
  version = 1;
  data_ = t.data_.name;
  meta = t.meta.name;
  staged_data = t.staged_data;
  staged_meta = t.staged_meta;
  old_data = old_hash md5 t.old_data;
  old_meta = old_hash md5 t.old_meta;
  new_data = hash md5 t.new_data;
  new_meta = hash md5 t.new_meta;
}

-- The digest tells the contents of each destination apart.
abbrev pub IsTold : (Bytes → Bytes) → Migration → Type 0
IsTold md5 t =
    ((c : Bytes)
      → t.old_data ≡ some c
      → bytes_eq (hash md5 c) (hash md5 t.new_data) ≡ true
      → c ≡ t.new_data)
    × ((c : Bytes)
        → t.old_meta ≡ some c
        → bytes_eq (hash md5 c) (hash md5 t.new_meta) ≡ true
        → c ≡ t.new_meta)

-- The journal is a small file that reads as the migration's, in a directory that is not a link.
abbrev pub Journaled : Library → Migration → Files → Type 0
Journaled lib t fs =
    (c : Bytes) × (fs.nodes (journal_path t.data_) ≡ some (regular c))
    × (lib.from_slice c ≡ some (journal_of lib.md5 t))
    × (leb (length c) 4096 ≡ true)
    × (is_link (fs.directories t.data_.parent) ≡ false)

-- The journal stands, and each destination holds what it had, with the new content staged, or the new content.
abbrev pub Recoverable : Library → Migration → Files → Type 0
Recoverable lib t fs =
    Journaled lib t fs × OnTheWay (data_member t) fs × OnTheWay (meta_member t) fs

-- The journal and the staged files are gone, and both destinations hold the new contents.
abbrev pub Finished : Migration → Files → Type 0
Finished t fs =
    (fs.nodes (journal_path t.data_) ≡ none) × Done (data_member t) fs × Done (meta_member t) fs

pub Done-put :
    (p : FilePath) (n : Option Node) (m : Member) (fs : Files)
    → same p m.target ≡ false
    → same p m.staged ≡ false
    → Done m fs
    → Done m (put p n fs)
Done-put p n m fs h k d =
    (put-elsewhere p m.target n fs h ∙ d.0, put-elsewhere p m.staged n fs k ∙ d.1)

OnTheWay-put :
    (p : FilePath) (n : Option Node) (m : Member) (fs : Files)
    → same p m.target ≡ false
    → same p m.staged ≡ false
    → OnTheWay m fs
    → OnTheWay m (put p n fs)
OnTheWay-put p n m fs h k (inl q) =
    inl (put-elsewhere p m.target n fs h ∙ q.0, put-elsewhere p m.staged n fs k ∙ q.1)
OnTheWay-put p n m fs h k (inr d) = inr (Done-put p n m fs h k d)

module _ (lib : Library) (t : Migration) (s : IsSpread t) (told : IsTold lib.md5 t) where
  Journaled-put :
      (p : FilePath) (n : Option Node) (fs : Files)
      → same p (journal_path t.data_) ≡ false
      → Journaled lib t fs
      → Journaled lib t (put p n fs)
  Journaled-put p n fs h (c, e, f, g, k) =
      (c, put-elsewhere p (journal_path t.data_) n fs h ∙ e, f, g, k)

  pub data_IsSound : IsSound lib.md5 (data_member t)
  data_IsSound = (s.1.0, s.1.1, told.0)

  pub meta_IsSound : IsSound lib.md5 (meta_member t)
  meta_IsSound = (s.4.0, s.4.1, told.1)

  pub data_IsFrame :
      IsFrame lib.md5 (data_member t) (λ fs. Journaled lib t fs × OnTheWay (meta_member t) fs)
  data_IsFrame = (
    (λ n fs r. (
      Journaled-put t.data_ n fs s.6.1 r.0,
      OnTheWay-put t.data_ n (meta_member t) fs s.0.0 s.2.0 r.1,
    )),
    (λ n fs r. (
      Journaled-put (data_member t).staged n fs s.8.1 r.0,
      OnTheWay-put (data_member t).staged n (meta_member t) fs s.3.1 s.5.0 r.1,
    )),
  )

  pub meta_IsFrame :
      IsFrame lib.md5 (meta_member t) (λ fs. Journaled lib t fs × Done (data_member t) fs)
  meta_IsFrame = (
    (λ n fs r. (
      Journaled-put t.meta n fs s.7.1 r.0,
      Done-put t.meta n (data_member t) fs s.0.1 s.3.0 r.1,
    )),
    (λ n fs r. (
      Journaled-put (meta_member t).staged n fs s.9.1 r.0,
      Done-put (meta_member t).staged n (data_member t) fs s.2.1 s.5.1 r.1,
    )),
  )
