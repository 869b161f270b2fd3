-- ===== src/FileOps/Listing.antt =====
-- `list_directory` of src/file_ops.c against a description of what it lists.
use cileserver.Base.{
  ℕ, zero, suc, ◌+◌, ◌≡◌, refl, ap, inl, inr, List, [], ◌∷◌, none, some, arith, lt→ltb,
  le→ltb_false, if◌then◌else◌, Bool-cases, Option-cases, take,
}
use cileserver.Base.CString.{Bytes}
use cileserver.Config.{Config}
use cileserver.FileOps.Operations.{
  FileInfo, is_dot_entry, entry_info, list_entries, list_directory, full_path_of,
}
use cileserver.Os.{Os}

module _ {Fs : Type 0} (os : Os Fs) (cfg : Config) (fs : Fs) (full_path : Bytes) where
  -- All entries of a directory: `.` and `..` are left out, and names that `stat` fails for.
  unfoldable pub all_entries : List Bytes → List FileInfo
  all_entries [] = []
  all_entries (name ∷ names) =
      let rest = all_entries names in
      if is_dot_entry name
      then rest
      else (elim (entry_info os cfg fs full_path name) [ none ↦ rest | some info ↦ info ∷ rest ])

  list_entries-take :
      (names : List Bytes) (max_entries count left : ℕ)
      → max_entries ≡ count + left
      → list_entries os cfg fs full_path max_entries count names ≡ take left (all_entries names)
  unfolding list_entries all_entries
  list_entries-take [] max_entries count zero h = refl
  list_entries-take [] max_entries count (suc left) h = refl
  list_entries-take (name ∷ names) max_entries count zero h =
      rw (le→ltb_false count max_entries (omega arith))
  list_entries-take (name ∷ names) max_entries count (suc left) h =
      rw (lt→ltb count max_entries (omega arith)) (elim (Bool-cases (is_dot_entry name)) [
        | inl dot ↦ rw dot (list_entries-take names max_entries count (suc left) h)
        | inr plain ↦ rw plain (elim (Option-cases (entry_info os cfg fs full_path name)) [
          | inl bad ↦ rw bad (list_entries-take names max_entries count (suc left) h)
          | inr (info, good) ↦
              rw good
                (ap (◌∷◌ info) (list_entries-take names max_entries (count + 1) left (omega arith)))
        ])
      ])

-- A successful listing holds the first `max_entries` of all entries of the directory, in the
-- order of `readdir`; so entries that are skipped do not use up room.
pub list_directory-take :
    {Fs : Type 0} (os : Os Fs) (cfg : Config) (fs : Fs) (path : Bytes) (max_entries : ℕ)
    (entries : List FileInfo)
    → list_directory os cfg fs path max_entries ≡ some entries
    → (full_path : Bytes) × (names : List Bytes) × (full_path_of os cfg fs path ≡ some full_path)
      × (os.opendir fs full_path ≡ some names)
      × (entries ≡ take max_entries (all_entries os cfg fs full_path names))
unfolding list_directory
list_directory-take os cfg fs path max_entries entries h =
    elim (Option-cases (full_path_of os cfg fs path)) [
      | inl e ↦ ground arith
      | inr (full_path, e) ↦ elim (Option-cases (os.opendir fs full_path)) [
        | inl d ↦ ground arith
        | inr (names, d) ↦ (
          full_path,
          names,
          e,
          d,
          ground (arith, list_entries-take os cfg fs full_path names max_entries 0 max_entries),
        )
      ]
    ]
