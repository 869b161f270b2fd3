-- ===== src/FileOps/Confined.antt =====
-- The changes that the operations of src/file_ops.c make to the disk.
use cileserver.Base.{
  ℕ, ◌<◌, ◌≡◌, refl, inl, inr, Option, none, some, arith, Bool-cases, Option-cases, length,
}
use cileserver.Base.CString.{Bytes}
use cileserver.Config.{Config}
use cileserver.FileOps.Operations.{
  full_path_of, write_file, delete_file, create_directory, is_directory_at, changed,
}
use cileserver.FileOps.Resolve.{Under, get_full_path-Under, max_path_size}
use cileserver.Os.{Os}

-- The changes that a process can make to the disk by calls on paths at or below `root`.
pub data Touches {Fs : Type 0} (os : Os Fs) (root : Bytes) (fs : Fs) : Fs → Type 0 where
  untouched : Touches os root fs fs
  made :
      {p : Bytes} {a b : Fs}
      → Touches os root fs a
      → Under root p
      → os.mkdir a p ≡ some b
      → Touches os root fs b
  removed :
      {p : Bytes} {a b : Fs}
      → Touches os root fs a
      → Under root p
      → os.rmdir a p ≡ some b
      → Touches os root fs b
  unlinked :
      {p : Bytes} {a b : Fs}
      → Touches os root fs a
      → Under root p
      → os.unlink a p ≡ some b
      → Touches os root fs b
  opened :
      {p : Bytes} {a b : Fs}
      → Touches os root fs a
      → Under root p
      → os.open_write a p ≡ some b
      → Touches os root fs b
  written :
      {p : Bytes} {a : Fs} (bytes : Bytes)
      → Touches os root fs a
      → Under root p
      → Touches os root fs (os.fwrite a p bytes).0

pub Touches-trans :
    {Fs : Type 0} {os : Os Fs} {root : Bytes} {a b c : Fs}
    → Touches os root a b
    → Touches os root b c
    → Touches os root a c
Touches-trans t untouched = t
Touches-trans t (made u h e) = made (Touches-trans t u) h e
Touches-trans t (removed u h e) = removed (Touches-trans t u) h e
Touches-trans t (unlinked u h e) = unlinked (Touches-trans t u) h e
Touches-trans t (opened u h e) = opened (Touches-trans t u) h e
Touches-trans t (written bytes u h) = written bytes (Touches-trans t u) h

module _ {Fs : Type 0} (os : Os Fs) (root : Bytes) (fs : Fs) where
  changed-Touches :
      (o : Option Fs)
      → ((b : Fs) → o ≡ some b → Touches os root fs b)
      → Touches os root fs (changed fs o).1
  changed-Touches none h = untouched
  changed-Touches (some b) h = h b refl

-- The root directory resolves, and leaves room for its NUL in a buffer of that size.
pub record HasRoot {Fs : Type 0} (os : Os Fs) (cfg : Config) (fs : Fs) (root : Bytes) (size : ℕ)
    : Type 0 where
  pub resolves : os.realpath fs cfg.root_directory ≡ some root
  pub room : length root < size

module _ {Fs : Type 0} (os : Os Fs) (cfg : Config) (fs : Fs) {root : Bytes} where
  full_path_of-Under :
      (path out : Bytes)
      → HasRoot os cfg fs root max_path_size
      → full_path_of os cfg fs path ≡ some out
      → Under root out
  unfolding full_path_of
  full_path_of-Under path out r h =
      get_full_path-Under os cfg fs path max_path_size root out r.room r.resolves (ground arith)

  -- `delete_file` removes nothing that is not at or below the root.
  pub delete_file-Touches :
      (path : Bytes)
      → HasRoot os cfg fs root max_path_size
      → Touches os root fs (delete_file os cfg fs path).1
  unfolding delete_file
  delete_file-Touches path r = elim (Option-cases (full_path_of os cfg fs path)) [
    | inl e ↦ rw (e, delete_file) untouched
    | inr (p, e) ↦
        let u = full_path_of-Under path p r e in
        rw (e, delete_file)
          (elim (Option-cases (os.stat fs p)) [
            | inl s ↦ rw s untouched
            | inr (st, s) ↦ rw s (elim (Bool-cases st.is_dir) [
              | inl dir ↦
                  rw dir (changed-Touches os root fs (os.rmdir fs p) λ b d. removed untouched u d)
              | inr file ↦
                  rw file
                    (changed-Touches os root fs (os.unlink fs p) λ b d. unlinked untouched u d)
            ])
          ])
  ]

  pub create_directory-Touches :
      (path : Bytes)
      → HasRoot os cfg fs root max_path_size
      → Touches os root fs (create_directory os cfg fs path).1
  unfolding create_directory
  create_directory-Touches path r = elim (Option-cases (full_path_of os cfg fs path)) [
    | inl e ↦ rw (e, create_directory) untouched
    | inr (p, e) ↦
        let u = full_path_of-Under path p r e in
        rw (e, create_directory)
          (changed-Touches os root fs (os.mkdir fs p) λ b d. made untouched u d)
  ]

  pub write_file-Touches :
      (path bytes : Bytes)
      → HasRoot os cfg fs root max_path_size
      → Touches os root fs (write_file os cfg fs path bytes).1
  unfolding write_file
  write_file-Touches path bytes r = elim (Option-cases (full_path_of os cfg fs path)) [
    | inl e ↦ rw (e, write_file) untouched
    | inr (p, e) ↦
        let u = full_path_of-Under path p r e in
        rw (e, write_file)
          (elim (Bool-cases (is_directory_at os fs p)) [
            | inl dir ↦ rw dir untouched
            | inr file ↦ rw file (elim (Option-cases (os.open_write fs p)) [
              | inl o ↦ rw o untouched
              | inr (b, o) ↦ rw o (written bytes (opened untouched u o) u)
            ])
          ])
  ]
