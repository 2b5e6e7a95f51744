-- ===== src/Saves/Disk.antt =====
-- The calls of the operating system that editor/crates/m2-publish/src/save_format.rs makes, over files in directories.
-- Each call may fail, or the process may die before it; a call that fails leaves the files as they are.
use project_chronos_engine.Prelude.{
  ℕ, suc, ◌+◌, take, drop, ◌++◌, Bytes, Bool, true, false, ◌&&◌, List, [], ◌∷◌, Option, none, some,
  if◌then◌else◌, bytes_eq,
}
use project_chronos_engine.Saves.Metadata.{
  Error, io, not_regular, Outcome, ok, err, panicked, died, digest_hex,
}

-- A directory and a name in it.
pub record FilePath : Type 0 where
  pub parent : Bytes
  pub name : Bytes

abbrev pub same : FilePath → FilePath → Bool
same p q = bytes_eq p.parent q.parent && bytes_eq p.name q.name

-- What a call that follows links finds at something that is no regular file itself.
pub data Followed : Type 0 where
  nothing to_file to_other : Followed

-- A regular file with its bytes, or something else, such as a link or a directory.
pub data Node : Type 0 where
  regular : Bytes → Node
  special : Followed → Node

pub data Directory : Type 0 where
  absent present linked blocked : Directory

pub record Files : Type 0 where
  pub nodes : FilePath → Option Node
  pub directories : Bytes → Directory

abbrev pub put : FilePath → Option Node → Files → Files
put p n fs = record fs { nodes = λ q. if same p q then n else fs.nodes q }

pub data Fate : Type 0 where
  works fails dies : Fate

-- The files, and the fates of the calls to come; beyond the list every call works.
pub record World : Type 0 where
  pub files : Files
  pub fates : List Fate

abbrev pub Io : Type 0 → Type 0
Io A = World → World × Outcome A

-- The steps that follow an outcome.
abbrev pub after : {A B : Type 0} → World × Outcome A → (A → Io B) → World × Outcome B
after (w, ok a) f = f a w
after (w, err e) f = (w, err e)
after (w, panicked) f = (w, panicked)
after (w, died) f = (w, died)

infixl 5 ◌>>=◌
abbrev pub ◌>>=◌ : {A B : Type 0} → Io A → (A → Io B) → Io B
◌>>=◌ m f w = after (m w) f

abbrev pub pure : {A : Type 0} → A → Io A
pure a w = (w, ok a)

abbrev pub lift : {A : Type 0} → Outcome A → Io A
lift o w = (w, o)

abbrev pub fail : {A : Type 0} → Error → Io A
fail e w = (w, err e)

abbrev pub require : Bool → Error → Io (Unit {0})
require true e w = (w, ok tt)
require false e w = (w, err e)

-- One call: what it does, and what it returns where it fails.
abbrev pub run_call :
    {A : Type 0} → Outcome A → (Files → Files × Outcome A) → Files → List Fate → World × Outcome A
run_call failed act fs [] = let (fs', o) = act fs in (record { files = fs'; fates = [] }, o)
run_call failed act fs (works ∷ fates) =
    let (fs', o) = act fs in (record { files = fs'; fates = fates }, o)
run_call failed act fs (fails ∷ fates) = (record { files = fs; fates = fates }, failed)
run_call failed act fs (dies ∷ fates) = (record { files = fs; fates = fates }, died)

unfoldable pub call : {A : Type 0} → Outcome A → (Files → Files × Outcome A) → Io A
call failed act w = run_call failed act w.files w.fates

-- A call that only looks.
unfoldable pub look : {A : Type 0} → Outcome A → (Files → Outcome A) → Io A
unfolding call
look failed f = call failed (λ fs. (fs, f fs))

-- `symlink_metadata`, with `none` for NotFound.
abbrev pub metadata_of : FilePath → Io (Option Node)
metadata_of p = look (err io) (λ fs. ok (fs.nodes p))

-- `path.exists()`, which follows links: a link to nothing is not there, and an error counts as absence.
abbrev pub is_some : Option Node → Bool
is_some none = false
is_some (some (regular c)) = true
is_some (some (special nothing)) = false
is_some (some (special to_file)) = true
is_some (some (special to_other)) = true

abbrev pub exists : FilePath → Io Bool
exists p = look (ok false) (λ fs. ok (is_some (fs.nodes p)))

abbrev pub is_link : Directory → Bool
is_link linked = true
is_link absent = false
is_link present = false
is_link blocked = false

-- `symlink_metadata(parent).is_ok_and(|m| m.file_type().is_symlink())`
abbrev pub is_symlink : Bytes → Io Bool
is_symlink parent = look (ok false) (λ fs. ok (is_link (fs.directories parent)))

abbrev pub bytes_of : Option Node → Outcome Bytes
bytes_of none = err io
bytes_of (some (regular c)) = ok c
bytes_of (some (special r)) = err io

-- The bytes of a file, by `File::open` and reads or by `fs::read`.
abbrev pub read_file : FilePath → Io Bytes
read_file p = look (err io) (λ fs. bytes_of (fs.nodes p))

abbrev pub regular_bytes : Option Node → Outcome Bytes
regular_bytes none = err io
regular_bytes (some (regular c)) = ok c
regular_bytes (some (special r)) = err not_regular

-- `regular_file`: the bytes stand for the metadata, of which only the length is used.
unfoldable pub regular_file : FilePath → Io Bytes
regular_file p = do n ← metadata_of p; lift (regular_bytes n)

abbrev pub sync_directory : Bytes → Io (Unit {0})
sync_directory parent = look (err io) (λ fs. ok tt)

abbrev pub remove_at : FilePath → Files → Files × Outcome (Unit {0})
remove_at p fs = elim (fs.nodes p) [ none ↦ (fs, err io) | some n ↦ (put p none fs, ok tt) ]

abbrev pub remove_file : FilePath → Io (Unit {0})
remove_file p = call (err io) (remove_at p)

abbrev pub rename_at : FilePath → FilePath → Files → Files × Outcome (Unit {0})
rename_at from to fs = elim (fs.nodes from) [
  | none ↦ (fs, err io)
  | some n ↦ (put to (some n) (put from none fs), ok tt)
]

abbrev pub rename : FilePath → FilePath → Io (Unit {0})
rename from to = call (err io) (rename_at from to)

-- One byte written at an offset: over what is there, or behind the last byte. No write of the source begins further on.
abbrev pub overwrite : ℕ → ℕ → Bytes → Bytes
overwrite at b c = take at c ++ (b ∷ drop (suc at) c)

abbrev pub write_byte : FilePath → ℕ → ℕ → Files → Files × Outcome (Unit {0})
write_byte p at b fs = elim (fs.nodes p) [
  | none ↦ (fs, err io)
  | some n ↦ elim n [
    | regular c ↦ (put p (some (regular (overwrite at b c))) fs, ok tt)
    | special r ↦ (fs, err io)
  ]
]

-- `write_all` and `io::copy` into an open file from an offset on: a call for each byte, so that a write that fails, or
-- whose process dies, leaves any part of the bytes.
unfoldable pub write_from : FilePath → ℕ → Bytes → Io (Unit {0})
write_from p at [] = pure tt
write_from p at (b ∷ bs) = do one ← call (err io) (write_byte p at b); write_from p (at + 1) bs

-- From the start of a file.
abbrev pub write_file : FilePath → Bytes → Io (Unit {0})
write_file p c = write_from p 0 c

abbrev pub created : Directory → Outcome (Unit {0})
created absent = ok tt
created present = ok tt
created linked = ok tt
created blocked = err io

abbrev pub made : Directory → Directory
made absent = present
made present = present
made linked = linked
made blocked = blocked

abbrev pub with_directory : Bytes → Files → Bytes → Directory
with_directory parent fs d = if bytes_eq parent d then made (fs.directories d) else fs.directories d

abbrev pub create_dir_all : Bytes → Io (Unit {0})
create_dir_all parent =
    call (err io) (λ fs.
      (record fs { directories = with_directory parent fs }, created (fs.directories parent)))

module _ (md5 : Bytes → Bytes) where
  unfoldable pub file_digest : FilePath → Io Bytes
  file_digest p = do checked ← regular_file p; bytes ← read_file p; pure (md5 bytes)

  -- `optional_digest`, in hexadecimal.
  unfoldable pub optional_digest : FilePath → Io (Option Bytes)
  optional_digest p = do
    n ← metadata_of p
    elim n [
      | none ↦ pure none
      | some node ↦ (do digest ← file_digest p; pure (some (digest_hex digest)))
    ]
