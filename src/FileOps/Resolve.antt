-- ===== src/FileOps/Resolve.antt =====
-- `get_full_path` of src/file_ops.c.
use cileserver.Base.{
  ℕ, zero, suc, ◌-◌, ◌≤◌, ◌<◌, ◌≡◌, ◌≢◌, refl, ap, ◌∙◌, ◌⊎◌, inl, inr, Bool, true, false, not, ◌&&◌,
  [], ◌∷◌, ◌++◌, Option, none, some, arith, ◌==◌, if◌then◌else◌, Option-cases, length, take, drop,
  take-append_ge,
}
use cileserver.Base.CString.{
  Bytes, codes, strncat, skip, split_at_last, starts_with, starts_with-split,
}
use cileserver.Config.{Config}
use cileserver.Os.{Os}

-- `MAX_PATH_SIZE`, and `PATH_MAX` of Linux
abbrev pub max_path_size : ℕ
max_path_size = 2048

abbrev pub path_max : ℕ
path_max = 4096

-- `len > 0 && s[len - 1] != '/'`
unfoldable pub lacks_slash : Bytes → Bool
lacks_slash [] = false
lacks_slash (c ∷ []) = not (c == b'/')
lacks_slash (c ∷ d ∷ s) = lacks_slash (d ∷ s)

-- The path below the root that a request names, before resolution.
unfoldable pub join_root : Bytes → Bytes → Bytes
unfolding lacks_slash
join_root root_directory relative_path =
    let root = take (max_path_size - 1) root_directory in
    elim (skip b'/' relative_path) [
      | [] ↦ root
      | c ∷ rel ↦
          let base =
            if lacks_slash root
            then strncat root (codes "/") (max_path_size - length root - 1)
            else root in
          strncat base (c ∷ rel) (max_path_size - length base - 1)
    ]

module _ {Fs : Type 0} (os : Os Fs) (fs : Fs) where
  -- The resolved parent with the last component put back, for a path that does not exist yet.
  unfoldable pub resolve_parent : Bytes → Option Bytes
  resolve_parent temp_path = elim (split_at_last b'/' (take (max_path_size - 1) temp_path)) [
    | none ↦ none
    | some (parent, name) ↦ elim (os.realpath fs parent) [
      | none ↦ none
      | some p ↦
          let slashed = strncat p (codes "/") (path_max - length p - 1) in
          some (strncat slashed name (path_max - length slashed - 1))
    ]
  ]

  unfoldable pub resolve : Bytes → Option Bytes
  resolve temp_path = elim (os.realpath fs temp_path) [
    | some p ↦ some p
    | none ↦ resolve_parent temp_path
  ]

-- `resolved[root_len]` is NUL or a slash.
unfoldable pub at_boundary : Bytes → Bool
at_boundary [] = true
at_boundary (c ∷ cs) = c == b'/'

unfoldable pub within_root : Bytes → Bytes → Bool
unfolding at_boundary
within_root resolved root = starts_with resolved root && at_boundary (drop (length root) resolved)

module _ {Fs : Type 0} (os : Os Fs) (cfg : Config) (fs : Fs) where
  unfoldable pub get_full_path : Bytes → ℕ → Option Bytes
  get_full_path relative_path out_size =
      elim (resolve os fs (join_root cfg.root_directory relative_path)) [
        | none ↦ none
        | some resolved ↦ elim (os.realpath fs cfg.root_directory) [
          | none ↦ none
          | some root ↦
              if within_root resolved root then some (take (out_size - 1) resolved) else none
        ]
      ]

-- A string that is empty or starts at a separator.
abbrev pub IsBoundary : Bytes → Type 0
IsBoundary s = (s ≡ []) ⊎ ((r : Bytes) × (s ≡ b'/' ∷ r))

-- `p` is `root`, or has it as a proper prefix that ends at a slash.
pub record Under (root p : Bytes) : Type 0 where
  pub below : Bytes
  pub splits : p ≡ root ++ below
  pub boundary : IsBoundary below

at_boundary-IsBoundary : (s : Bytes) → at_boundary s ≡ true → IsBoundary s
unfolding at_boundary
at_boundary-IsBoundary [] h = inl refl
at_boundary-IsBoundary (c ∷ cs) h = inr (cs, ground arith)

take-IsBoundary : (k : ℕ) (s : Bytes) → IsBoundary s → IsBoundary (take k s)
take-IsBoundary zero s h = inl refl
take-IsBoundary (suc k) [] h = inl refl
take-IsBoundary (suc k) (c ∷ cs) (inl e) = inl (cc)
take-IsBoundary (suc k) (c ∷ cs) (inr (r, e)) = inr (take k cs, ground arith)

within_root-Under : (s root : Bytes) → within_root s root ≡ true → Under root s
unfolding within_root
within_root-Under s root h = record {
  below = drop (length root) s;
  splits = starts_with-split s root (ground arith);
  boundary = at_boundary-IsBoundary (drop (length root) s) (ground arith);
}

-- Cutting a path behind its root keeps it below the root.
take-Under : (n : ℕ) (root s : Bytes) → length root ≤ n → Under root s → Under root (take n s)
take-Under n root s h u =
    let k = n - length root in
    record {
      below = take k u.below;
      splits = ap (take n) u.splits ∙ take-append_ge n k root u.below (omega arith);
      boundary = take-IsBoundary k u.below u.boundary;
    }

module _ {Fs : Type 0} (os : Os Fs) (cfg : Config) (fs : Fs) (relative_path : Bytes) where
  -- What a path that is let through has been found to be.
  get_full_path-cases :
      (out_size : ℕ) {root out : Bytes}
      → os.realpath fs cfg.root_directory ≡ some root
      → get_full_path os cfg fs relative_path out_size ≡ some out
      → (resolved : Bytes) × (resolve os fs (join_root cfg.root_directory relative_path)
          ≡ some resolved)
        × (within_root resolved root ≡ true)
        × (out ≡ take (out_size - 1) resolved)
  unfolding get_full_path
  get_full_path-cases out_size {root} {out} r h =
      elim (Option-cases (resolve os fs (join_root cfg.root_directory relative_path))) [
        | inl e ↦ ground arith
        | inr (resolved, e) ↦ (resolved, ground arith, ground arith, ground arith)
      ]

  -- Every path that `get_full_path` hands out is the resolved root directory, or continues it at
  -- a slash, if the caller's buffer has room for the root and its NUL.
  pub get_full_path-Under :
      (out_size : ℕ) (root out : Bytes)
      → length root < out_size
      → os.realpath fs cfg.root_directory ≡ some root
      → get_full_path os cfg fs relative_path out_size ≡ some out
      → Under root out
  get_full_path-Under out_size root out room r h =
      let (resolved, _, within, is) = get_full_path-cases out_size r h in
      rw is (
        take-Under (out_size - 1) root resolved (omega arith)
          (within_root-Under resolved root within))

  -- With the root directory `/` no other path gets through: the byte behind the root must be a
  -- slash, and it is not one in a canonical path such as `/etc`.
  pub get_full_path_slash_root :
      (out_size c : ℕ) (rest : Bytes)
      → os.realpath fs cfg.root_directory ≡ some (codes "/")
      → resolve os fs (join_root cfg.root_directory relative_path) ≡ some (b'/' ∷ c ∷ rest)
      → c ≢ b'/'
      → get_full_path os cfg fs relative_path out_size ≡ none
  unfolding get_full_path within_root starts_with
  get_full_path_slash_root out_size c rest r h ne = ground arith
