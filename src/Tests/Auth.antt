-- ===== src/Tests/Auth.antt =====
-- The user table at concrete inputs.
use cileserver.Auth.File.{AuthState, save_auth_file, init_auth, load_users, add_line, parse_line}
use cileserver.Base.Text.{fgets, break_at, strtok}
use cileserver.Auth.File.Lines.{IsField, IsStorable}
use cileserver.Auth.File.RoundTrip.{login_after_restart}
use cileserver.Tests.Disk.{disk_os, empty_disk, store, a_txt, a_txt-KeepsData}
use cileserver.Base.Decimal.{atoi, parse_digits}
use cileserver.Auth.Hash.{mix_byte}
use cileserver.Auth.Accounts.{
  AuthCall, add_call, remove_call, login_call, call_all, promise_all, view,
}
use cileserver.Auth.Accounts.Calls.{call_all-promise_all}
use cileserver.Auth.Invariant.{remove_user-revokes}
use cileserver.Auth.Table.{IsTable, authenticate_user-add_user, authenticate_user-add_user_long}
use cileserver.Auth.{
  User, Users, role_user, role_admin, find_user, authenticate_user, new_user, add_user,
  remove_first, remove_user,
}
use cileserver.Base.{
  ◌<◌, List, length, ◌≡◌, ◌≢◌, refl, true, [], ◌∷◌, ◌++◌, none, some, success, arith, replicate,
}
use cileserver.Base.CString.{Bytes, codes, cstr, skip, str_eq, lacks, lacks-NoByte}

abbrev alice : User
alice = record { username = codes "alice"; password_hash = codes "x"; role = role_user }

abbrev bob : User
bob = record { username = codes "bob"; password_hash = codes "y"; role = role_admin }

abbrev two_users : Users
two_users = alice ∷ bob ∷ []

two_users-IsTable : IsTable two_users
unfolding find_user str_eq
two_users-IsTable = record {
  fits = omega arith;
  distinct = (refl, (refl, tt));
  short = (omega arith, (omega arith, tt));
}

abbrev with_carol : Users
with_carol = two_users ++ new_user (codes "carol") (codes "secret") role_user [] ∷ []

add_carol : add_user (codes "carol") (codes "secret") role_user [] two_users ≡ (success, with_carol)
unfolding add_user find_user str_eq
add_carol = refl

authenticate_user-add_user_example :
    authenticate_user (codes "carol") (codes "secret") with_carol ≡ some role_user
authenticate_user-add_user_example =
    authenticate_user-add_user (codes "carol") (codes "secret") role_user [] two_users with_carol
      (omega arith) add_carol

abbrev long_name : Bytes
long_name = replicate 64 b'a'

abbrev with_long : Users
with_long = new_user long_name (codes "secret") role_user [] ∷ []

add_long : add_user long_name (codes "secret") role_user [] [] ≡ (success, with_long)
unfolding add_user find_user
add_long = refl

authenticate_user-add_user_long_example :
    authenticate_user long_name (codes "secret") with_long ≡ none
authenticate_user-add_user_long_example =
    authenticate_user-add_user_long long_name (codes "secret") role_user [] [] with_long
      (omega arith) add_long

abbrev calls : List AuthCall
calls =
    login_call (codes "carol") (codes "secret")
    ∷ add_call (codes "carol") (codes "secret") role_user []
    ∷ add_call (codes "carol") (codes "other") role_admin []
    ∷ login_call (codes "carol") (codes "secret")
    ∷ remove_call (codes "alice")
    ∷ login_call (codes "alice") (codes "wonderland")
    ∷ remove_call (codes "alice")
    ∷ []

call_all-promise_all_example :
    IsTable (call_all calls two_users).1
    × (promise_all calls (view two_users)
        ≡ ((call_all calls two_users).0, view (call_all calls two_users).1))
call_all-promise_all_example =
    call_all-promise_all calls two_users (omega arith, (omega arith, tt)) two_users-IsTable

remove_alice : remove_user (codes "alice") two_users ≡ (success, bob ∷ [])
unfolding remove_user remove_first find_user str_eq
remove_alice = refl

remove_user-revokes_example :
    IsTable (bob ∷ [])
    × (authenticate_user (codes "alice") (codes "pw") (bob ∷ []) ≡ none)
    × (authenticate_user (codes "bob") (codes "pw") (bob ∷ [])
        ≡ authenticate_user (codes "bob") (codes "pw") two_users)
remove_user-revokes_example =
    remove_user-revokes (codes "alice") (codes "bob") (codes "pw") two_users (bob ∷ [])
      two_users-IsTable names_differ remove_alice
  where
    names_differ : codes "alice" ≢ codes "bob"
    names_differ e = ground arith

-- The first round of the hash of "a" with the salt "b".
first_byte : mix_byte (codes "a") (codes "b") 0 0 (replicate 32 0) ≡ 195 ∷ replicate 31 0
unfolding mix_byte
first_byte = refl

field :
    (s : Bytes)
    → 0 < length s
    → lacks b':' s ≡ true
    → lacks 10 s ≡ true
    → lacks 0 s ≡ true
    → IsField s
field s filled colon line nul = record {
  filled = filled;
  no_colon = lacks-NoByte b':' s colon;
  no_newline = lacks-NoByte 10 s line;
  no_nul = lacks-NoByte 0 s nul;
}

alice-IsStorable : IsStorable alice
alice-IsStorable = record {
  name = field (codes "alice") (omega arith) refl refl refl;
  short = omega arith;
  no_comment = λ e. omega arith;
  hash = field (codes "x") (omega arith) refl refl refl;
  hash_short = omega arith;
  role_fits = omega arith;
}

bob-IsStorable : IsStorable bob
bob-IsStorable = record {
  name = field (codes "bob") (omega arith) refl refl refl;
  short = omega arith;
  no_comment = λ e. omega arith;
  hash = field (codes "y") (omega arith) refl refl refl;
  hash_short = omega arith;
  role_fits = omega arith;
}

abbrev fresh : AuthState
fresh = record { users = []; auth_file_path = [] }

-- The user file of a server, at the path of the test disk.
opened_file : disk_os.open_write empty_disk a_txt ≡ some (store empty_disk a_txt [])
opened_file = unfold str_eq in refl

login_after_restart_example :
    let saved =
      save_auth_file disk_os empty_disk (record { users = with_carol; auth_file_path = a_txt }) in
    authenticate_user
      (codes "carol")
      (codes "secret")
      (init_auth disk_os saved.1 a_txt [] fresh).1.users
    ≡ some role_user
login_after_restart_example =
    login_after_restart disk_os empty_disk (store empty_disk a_txt []) a_txt (codes "carol")
      (codes "secret") role_user [] [] two_users with_carol fresh a_txt-KeepsData (omega arith)
      (omega arith) opened_file (alice-IsStorable, (bob-IsStorable, tt))
      (field (codes "carol") (omega arith) refl refl refl) (omega arith) (λ e. omega arith)
      (omega arith) add_carol

-- A comment, an entry, a line that is no entry, and a second entry without its newline.
abbrev user_file : Bytes
user_file = codes "#c" ++ (10 ∷ (codes "a:h:2" ++ (10 ∷ (codes "oops" ++ (10 ∷ codes "::b:k:1")))))

load_user_file :
    load_users 99 user_file []
    ≡ record { username = codes "a"; password_hash = codes "h"; role = 2 }
      ∷ record { username = codes "b"; password_hash = codes "k"; role = 1 }
      ∷ []
unfolding load_users fgets add_line parse_line break_at strtok skip cstr atoi parse_digits
load_user_file = refl
