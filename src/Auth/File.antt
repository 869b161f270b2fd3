-- ===== src/Auth/File.antt =====
-- `init_auth` and `save_auth_file` of src/auth.c, over the calls on files of `Os`.
pub mod Lines
pub mod RoundTrip
use cileserver.Auth.{User, Users, max_users, role_admin, add_user}
use cileserver.Base.CString.{Bytes, codes, cstr, skip}
use cileserver.Base.Text.{newline, fgets, break_at, strtok}
use cileserver.Base.Decimal.{print_int, atoi}
use cileserver.Base.{
  ℕ, zero, suc, ◌-◌, ◌>>=◌, true, false, List, [], ◌∷◌, ◌++◌, ◌||◌, Option, none, some, Rc, success,
  failure, ltb, ◌==◌, if◌then◌else◌, length, take,
}
use cileserver.Os.{Os}

-- `LINE_BUFFER_SIZE`
abbrev pub line_buffer_size : ℕ
line_buffer_size = 256

-- The entry for a line `username:password_hash:role`.
unfoldable pub parse_line : Bytes → Option User
parse_line line = do
  (username, after_name) ← strtok b':' line
  (password_hash, after_hash) ← strtok b':' after_name
  (role_str, after_role) ← strtok b':' after_hash
  some (record {
    username = take 63 username;
    password_hash = take 127 password_hash;
    role = atoi role_str;
  })

-- The body of the loop, on a line that is not empty.
unfoldable pub add_line : ℕ → Bytes → Users → Users
add_line c line users =
    if c == b'#' || c == newline
    then users
    else (elim (parse_line (break_at newline (cstr (c ∷ line))).0) [
      | none ↦ users
      | some u ↦ users ++ u ∷ []
    ])

-- `while (fgets(...) != NULL && num_users < MAX_USERS)`; each round takes a byte or more.
unfoldable pub load_users : ℕ → Bytes → Users → Users
load_users zero file users = users
load_users (suc f) file users =
    let (line, rest) = fgets (line_buffer_size - 1) file in
    elim line [
      | [] ↦ users
      | c ∷ cs ↦ elim (ltb (length users) max_users) [
        | false ↦ users
        | true ↦ load_users f rest (add_line c cs users)
      ]
    ]

-- `fprintf(file, "%s:%s:%d\n", ...)`
unfoldable pub print_user : User → Bytes
print_user u =
    u.username ++ (b':' ∷ (u.password_hash ++ (b':' ∷ (print_int u.role ++ newline ∷ []))))

unfoldable pub print_entries : Users → Bytes
print_entries [] = []
print_entries (u ∷ us) = print_user u ++ print_entries us

-- All that `save_auth_file` writes.
unfoldable pub print_users : Users → Bytes
print_users us =
    codes "# CileServer Authentication File"
    ++ (newline ∷ (codes "# Format: username:password_hash:role" ++ (newline ∷ print_entries us)))

-- The static variables of src/auth.c.
pub record AuthState : Type 0 where
  pub users : Users
  pub auth_file_path : Bytes

module _ {Fs : Type 0} (os : Os Fs) where
  unfoldable pub save_auth_file : Fs → AuthState → Rc × Fs
  save_auth_file fs s = elim s.auth_file_path [
    | [] ↦ (failure, fs)
    | c ∷ cs ↦ elim (os.open_write fs (c ∷ cs)) [
      | none ↦ (failure, fs)
      | some opened ↦ (success, (os.fwrite opened (c ∷ cs) (print_users s.users)).0)
    ]
  ]

  -- The path is not NULL; it returns 0 on every branch. What `add_user` and `save_auth_file`
  -- return is not looked at.
  unfoldable pub init_auth : Fs → Bytes → List ℕ → AuthState → Fs × AuthState
  init_auth fs auth_file draws s =
      let path = take 1023 auth_file in
      elim (os.open_read fs path) [
        | none ↦
            let (rc, users) = add_user (codes "admin") (codes "admin") role_admin draws s.users in
            let s' : AuthState = record { users = users; auth_file_path = path } in
            ((save_auth_file fs s').1, s')
        | some file ↦ (
          fs,
          record {
            users = load_users (suc (length file.content)) file.content [];
            auth_file_path = path;
          },
        )
      ]
