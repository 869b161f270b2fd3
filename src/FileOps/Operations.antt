-- ===== src/FileOps/Operations.antt =====
-- The operations of src/file_ops.c on files and directories. Those that can change the disk
-- return its new state.
use cileserver.Base.{
  ℕ, ◌+◌, ◌-◌, Bool, true, false, ◌||◌, ◌&&◌, List, [], ◌∷◌, ◌++◌, Option, none, some, Rc, success,
  failure, ltb, ◌==◌, if◌then◌else◌, length, take,
}
use cileserver.Base.CString.{Bytes, codes, str_eq, split_at_last}
use cileserver.Config.{Config}
use cileserver.FileOps.Resolve.{get_full_path, max_path_size}
use cileserver.Os.{Os, Stat}

-- `file_info_t`
pub record FileInfo : Type 0 where
  pub name : Bytes
  pub size : ℕ
  pub is_directory : Bool
  pub modified_time : ℕ

-- The path is a string that is never NULL.
unfoldable pub is_path_valid : Bytes → Bool
is_path_valid [] = false
is_path_valid (c ∷ cs) = true

unfoldable pub file_info : Bytes → Stat → FileInfo
file_info name st = record {
  name = take 255 name;
  size = st.st_size;
  is_directory = st.is_dir;
  modified_time = st.st_mtime;
}

-- The part of a path behind its last slash.
unfoldable pub file_name : Bytes → Bytes
file_name path = elim (split_at_last b'/' path) [ none ↦ path | some (before, name) ↦ name ]

-- The result of a call that changes the disk, or fails and leaves it.
abbrev pub changed : {Fs : Type 0} → Fs → Option Fs → Rc × Fs
changed fs none = (failure, fs)
changed fs (some fs') = (success, fs')

-- `.` and `..`
unfoldable pub is_dot_entry : Bytes → Bool
is_dot_entry name = str_eq name (codes ".") || str_eq name (codes "..")

unfoldable pub is_directory_at : {Fs : Type 0} → Os Fs → Fs → Bytes → Bool
is_directory_at os fs path = elim (os.stat fs path) [ none ↦ false | some st ↦ st.is_dir ]

module _ {Fs : Type 0} (os : Os Fs) (cfg : Config) where
  unfoldable pub init_file_ops : Fs → Rc × Fs
  init_file_ops fs = elim (os.stat fs cfg.root_directory) [
    | none ↦ changed fs (os.mkdir fs cfg.root_directory)
    | some st ↦ ((if st.is_dir then success else failure), fs)
  ]

  -- The check of the path and its resolution, with which every operation begins.
  unfoldable pub full_path_of : Fs → Bytes → Option Bytes
  full_path_of fs path =
      if is_path_valid path then get_full_path os cfg fs path max_path_size else none

  unfoldable pub read_file : Fs → Bytes → ℕ → Option Bytes
  read_file fs path size = elim (full_path_of fs path) [
    | none ↦ none
    | some full_path ↦ elim (os.open_read fs full_path) [
      | none ↦ none
      | some file ↦
          let bytes = take size file.content in
          -- `*bytes_read == 0 && ferror(file)`
          if length bytes == 0 && (file.breaks && ltb (length file.content) size)
          then none
          else some bytes
    ]
  ]

  unfoldable pub write_file : Fs → Bytes → Bytes → Rc × Fs
  unfolding is_directory_at
  write_file fs path bytes = elim (full_path_of fs path) [
    | none ↦ (failure, fs)
    | some full_path ↦
        if is_directory_at os fs full_path
        then (failure, fs)
        else (elim (os.open_write fs full_path) [
          | none ↦ (failure, fs)
          | some opened ↦
              let (fs', written) = os.fwrite opened full_path bytes in
              ((if written == length bytes then success else failure), fs')
        ])
  ]

  unfoldable pub delete_file : Fs → Bytes → Rc × Fs
  delete_file fs path = elim (full_path_of fs path) [
    | none ↦ (failure, fs)
    | some full_path ↦ elim (os.stat fs full_path) [
      | none ↦ (failure, fs)
      | some st ↦
          if st.is_dir
          then changed fs (os.rmdir fs full_path)
          else changed fs (os.unlink fs full_path)
    ]
  ]

  unfoldable pub create_directory : Fs → Bytes → Rc × Fs
  create_directory fs path = elim (full_path_of fs path) [
    | none ↦ (failure, fs)
    | some full_path ↦ changed fs (os.mkdir fs full_path)
  ]

  unfoldable pub get_file_info : Fs → Bytes → Option FileInfo
  get_file_info fs path = elim (full_path_of fs path) [
    | none ↦ none
    | some full_path ↦ elim (os.stat fs full_path) [
      | none ↦ none
      | some st ↦ some (file_info (file_name path) st)
    ]
  ]

  -- What `snprintf(entry_path, ...)` and `stat` give for one name of a directory.
  unfoldable pub entry_info : Fs → Bytes → Bytes → Option FileInfo
  entry_info fs full_path name =
      elim (os.stat fs (take (max_path_size - 1) (full_path ++ codes "/" ++ name))) [
        | none ↦ none
        | some st ↦ some (file_info name st)
      ]

  -- `while ((entry = readdir(dir)) != NULL && count < max_entries)`: the entries it still adds.
  unfoldable pub list_entries : Fs → Bytes → ℕ → ℕ → List Bytes → List FileInfo
  unfolding is_dot_entry
  list_entries fs full_path max_entries count [] = []
  list_entries fs full_path max_entries count (name ∷ names) =
      let skipped = list_entries fs full_path max_entries count names in
      let added = list_entries fs full_path max_entries (count + 1) names in
      if ltb count max_entries
      then if is_dot_entry name
        then skipped
        else (elim (entry_info fs full_path name) [ none ↦ skipped | some info ↦ info ∷ added ])
      else []

  unfoldable pub list_directory : Fs → Bytes → ℕ → Option (List FileInfo)
  list_directory fs path max_entries = elim (full_path_of fs path) [
    | none ↦ none
    | some full_path ↦ elim (os.opendir fs full_path) [
      | none ↦ none
      | some names ↦ some (list_entries fs full_path max_entries 0 names)
    ]
  ]
