-- ===== src/Auth.antt =====
-- src/auth.c and include/auth.h: roles, the table of users, and what a role may do. A `char`
-- array that holds a string is the list of its bytes. Pointers are not NULL here: the server
-- passes arrays. Each function runs under `auth_mutex`, so it is one step on the table.
pub mod Hash
pub mod Permission
pub mod Table
pub mod Invariant
pub mod File
pub mod Accounts
use cileserver.Base.{
  ℕ, ◌+◌, ◌<◌, Bool, true, false, ◌||◌, List, [], ◌∷◌, ◌++◌, Option, none, some, Rc, success,
  failure, ltb, ◌==◌, if◌then◌else◌, length, take,
}
use cileserver.Base.CString.{Bytes, str_eq, split_at}
use cileserver.Wire.{cmd_list, cmd_get, cmd_put, cmd_delete, cmd_mkdir, cmd_info}
use Hash.{hash_password, generate_salt}

abbrev pub role_guest : ℕ
role_guest = 0

abbrev pub role_user : ℕ
role_user = 1

abbrev pub role_admin : ℕ
role_admin = 2

abbrev pub max_users : ℕ
max_users = 100

-- `user_t`
pub record User : Type 0 where
  pub username : Bytes
  pub password_hash : Bytes
  pub role : ℕ

-- `users[0 .. num_users - 1]`
abbrev pub Users : Type 0
Users = List User

-- `check_permission`; a role outside the enum may do nothing.
unfoldable pub check_permission : ℕ → ℕ → Bool
check_permission role operation =
    if role == role_admin
    then true
    else if role == role_user
    then operation == cmd_list
      || operation == cmd_get
      || operation == cmd_put
      || operation == cmd_delete
      || operation == cmd_mkdir
      || operation == cmd_info
    else if role == role_guest
    then operation == cmd_list || operation == cmd_get || operation == cmd_info
    else false

-- The loop over the table stops at the first entry of that name.
unfoldable pub find_user : Bytes → Users → Option User
find_user name [] = none
find_user name (u ∷ us) = if str_eq u.username name then some u else find_user name us

-- Whether a stored hash, `salt$hash` or an unsalted one, is that of a password. A salt that the
-- array of 64 bytes does not hold is taken whole.
unfoldable pub matches_hash : Bytes → Bytes → Bool
matches_hash stored password = elim (split_at b'$' stored) [
  | some (salt, hash) ↦ str_eq hash (hash_password password salt)
  | none ↦ str_eq stored (hash_password password [])
]

-- `authenticate_user`: the value written to `*role`, or none for -1.
unfoldable pub authenticate_user : Bytes → Bytes → Users → Option ℕ
authenticate_user username password users = elim (find_user username users) [
  | none ↦ none
  | some u ↦ if matches_hash u.password_hash password then some u.role else none
]

-- The entry that `add_user` writes; `draws` are the results of `random`.
unfoldable pub new_user : Bytes → Bytes → ℕ → List ℕ → User
new_user username password role draws =
    let salt = generate_salt draws in
    record {
      username = take 63 username;
      password_hash = take 127 (salt ++ (b'$' ∷ hash_password password salt));
      role = role;
    }

unfoldable pub add_user : Bytes → Bytes → ℕ → List ℕ → Users → Rc × Users
add_user username password role draws users =
    if ltb (length users) max_users
    then (elim (find_user username users) [
      | some u ↦ (failure, users)
      | none ↦ (success, users ++ new_user username password role draws ∷ [])
    ])
    else (failure, users)

-- The entries behind the one found move up by one place.
unfoldable pub remove_first : Bytes → Users → Users
remove_first name [] = []
remove_first name (u ∷ us) = if str_eq u.username name then us else u ∷ remove_first name us

unfoldable pub remove_user : Bytes → Users → Rc × Users
remove_user username users = elim (find_user username users) [
  | none ↦ (failure, users)
  | some u ↦ (success, remove_first username users)
]
