-- ===== src/Tests/Disk.antt =====
-- A small disk for the tests: a directory `/srv` and files in it.
use cileserver.Base.{
  true, false, List, [], ◌∷◌, ◌++◌, Option, none, some, ◌≡◌, refl, if◌then◌else◌, length, ℕ, arith,
  inl, inr, Option-cases,
}
use cileserver.Base.CString.{Bytes, codes, str_eq, starts_with, split_at_last, skip}
use cileserver.Config.{Config}
use cileserver.FileOps.Confined.{HasRoot}
use cileserver.FileOps.Resolve.{
  get_full_path, resolve, resolve_parent, join_root, lacks_slash, within_root, at_boundary,
}
use cileserver.Net.{ReadEvent, WriteEvent}
use cileserver.Os.{Os, KeepsData}
use cileserver.Protocol.State.{Env, World}
use cileserver.Auth.{Users}

-- The contents of the files.
abbrev pub Disk : Type 0
Disk = Bytes → Option Bytes

abbrev pub empty_disk : Disk
empty_disk q = none

abbrev pub store : Disk → Bytes → Bytes → Disk
store d p bytes q = if str_eq p q then some bytes else d q

abbrev pub remove : Disk → Bytes → Disk
remove d p q = if str_eq p q then none else d q

abbrev pub srv : Bytes
srv = codes "/srv"

abbrev pub a_txt : Bytes
a_txt = codes "/srv/a.txt"

abbrev pub disk_os : Os Disk
disk_os = record {
  realpath =
      λ d p. if str_eq p srv then some p else (elim (d p) [ none ↦ none | some bytes ↦ some p ]);
  stat = λ d p.
      if str_eq p srv
      then some (record { st_size = 0; is_dir = true; st_mtime = 0 })
      else (elim (d p) [
        | none ↦ none
        | some bytes ↦ some (record { st_size = length bytes; is_dir = false; st_mtime = 0 })
      ]);
  mkdir = λ d p. none;
  rmdir = λ d p. none;
  unlink = λ d p. elim (d p) [ none ↦ none | some bytes ↦ some (remove d p) ];
  open_read = λ d p. elim (d p) [
    | none ↦ none
    | some bytes ↦ some (record { content = bytes; breaks = false })
  ];
  open_write = λ d p. if str_eq p srv then none else some (store d p []);
  fwrite = λ d p bytes. elim (d p) [
    | none ↦ (d, 0)
    | some old ↦ (store d p (old ++ bytes), length bytes)
  ];
  opendir = λ d p.
      if str_eq p srv
      then some (codes "." ∷ codes ".." ∷ codes "a.txt" ∷ codes "gone" ∷ [])
      else none;
}

abbrev pub config : ℕ → Config
config enable_auth = record {
  root_directory = srv;
  max_connections = 10;
  port = 9090;
  log_level = 1;
  enable_auth = enable_auth;
  auth_file = [];
}

abbrev pub env_with : ℕ → Env Disk
env_with enable_auth = record {
  os = disk_os;
  cfg = config enable_auth;
  padding = 0 ∷ 0 ∷ 0 ∷ 0 ∷ [];
}

abbrev pub hello_disk : Disk
hello_disk = store empty_disk a_txt (codes "hello")

abbrev pub world : Disk → Users → ℕ → List ReadEvent → List WriteEvent → World Disk
world d users role inbox outbox = record {
  fs = d;
  users = users;
  conn = record { inbox = inbox; outbox = outbox; sent = [] };
  role = role;
}

pub a_txt-get_full_path :
    (d : Disk) (enable_auth : ℕ)
    → d a_txt ≡ none
    → get_full_path disk_os (config enable_auth) d (codes "a.txt") 1024 ≡ some a_txt
unfolding get_full_path resolve resolve_parent join_root lacks_slash within_root at_boundary skip
    str_eq starts_with split_at_last
a_txt-get_full_path d enable_auth e = rw e refl

pub hello-get_full_path :
    (enable_auth : ℕ)
    → get_full_path disk_os (config enable_auth) hello_disk (codes "a.txt") 1024 ≡ some a_txt
unfolding get_full_path resolve resolve_parent join_root lacks_slash within_root at_boundary skip
    str_eq starts_with split_at_last
hello-get_full_path enable_auth = refl

-- An absolute path is taken below the root.
absolute-get_full_path :
    get_full_path disk_os (config 1) (store empty_disk (codes "/srv2") []) (codes "/srv2") 1024
    ≡ some (codes "/srv/srv2")
unfolding get_full_path resolve resolve_parent join_root lacks_slash within_root at_boundary skip
    str_eq starts_with split_at_last
absolute-get_full_path = refl

pub disk-HasRoot : (d : Disk) (enable_auth : ℕ) → HasRoot disk_os (config enable_auth) d srv 1024
unfolding str_eq
disk-HasRoot d enable_auth = record { resolves = refl; room = omega arith }

pub a_txt-KeepsData : KeepsData disk_os a_txt
unfolding str_eq
a_txt-KeepsData = record {
  truncates = λ a b e. let is : store a a_txt [] ≡ b = cc in rw (← is) refl;
  appends = λ a old bytes e. elim (Option-cases (a a_txt)) [
    | inl absent ↦ let x : none ≡ some old = rw absent at e in cc
    | inr (before, present) ↦
        let x : some before ≡ some old = rw present at e in
        let same : before ≡ old = cc in rw present (rw same refl)
  ];
}
