-- ===== src/Os.antt =====
-- The calls of the operating system that src/file_ops.c and src/protocol.c make on files. They
-- are a parameter of the model: a record of functions over an unknown state `Fs` of the disk.
-- A failing call returns none and leaves the disk as it was.
use cileserver.Base.{ℕ, ◌≡◌, Bool, Option, none, some, inl, inr, Option-cases, List, [], ◌++◌}
use cileserver.Base.CString.{Bytes}

-- The fields of `struct stat` that the code reads.
pub record Stat : Type 0 where
  pub st_size : ℕ
  pub is_dir : Bool
  pub st_mtime : ℕ

-- A file opened for reading: what `fread` gets from it, and whether an error, not the end of
-- the file, stops it there.
pub record Stream : Type 0 where
  pub content : Bytes
  pub breaks : Bool

pub record Os (Fs : Type 0) : Type 0 where
  pub realpath : Fs → Bytes → Option Bytes
  pub stat : Fs → Bytes → Option Stat
  -- `mkdir(path, 0755)`, `rmdir(path)`, `unlink(path)`
  pub mkdir : Fs → Bytes → Option Fs
  pub rmdir : Fs → Bytes → Option Fs
  pub unlink : Fs → Bytes → Option Fs
  -- `fopen(path, "rb")`
  pub open_read : Fs → Bytes → Option Stream
  -- `fopen(path, "wb")`
  pub open_write : Fs → Bytes → Option Fs
  -- `fwrite` on the stream opened at that path, with the count that it returns
  pub fwrite : Fs → Bytes → Bytes → Fs × ℕ
  -- `opendir(path)` and the names that `readdir` gives
  pub opendir : Fs → Bytes → Option (List Bytes)

-- The bytes that opening a path for reading gives.
abbrev pub content_at : {Fs : Type 0} → Os Fs → Fs → Bytes → Option Bytes
content_at os fs p = elim (os.open_read fs p) [ none ↦ none | some s ↦ some s.content ]

-- What POSIX says of a file on a disk that is not full: `fopen` with "wb" leaves it empty, and
-- `fwrite` appends.
pub record KeepsData {Fs : Type 0} (os : Os Fs) (p : Bytes) : Type 0 where
  pub truncates : (a b : Fs) → os.open_write a p ≡ some b → content_at os b p ≡ some []
  pub appends :
      (a : Fs) (old bytes : Bytes)
      → content_at os a p ≡ some old
      → content_at os (os.fwrite a p bytes).0 p ≡ some (old ++ bytes)

-- A content is that of a stream.
module _ {Fs : Type 0} (os : Os Fs) (fs : Fs) where
  pub content_at-cases :
      (p bytes : Bytes)
      → content_at os fs p ≡ some bytes
      → (file : Stream) × (os.open_read fs p ≡ some file) × (file.content ≡ bytes)
  content_at-cases p bytes e = elim (Option-cases (os.open_read fs p)) [
    | inl none_there ↦ let x : none ≡ some bytes = rw (none_there, content_at) at e in cc
    | inr (file, there) ↦
        let x : some file.content ≡ some bytes = rw (there, content_at) at e in (file, there, cc)
  ]
