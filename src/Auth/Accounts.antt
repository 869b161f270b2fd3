-- ===== src/Auth/Accounts.antt =====
-- The table of users of src/auth.c as its callers see it: a map from names to accounts. What
-- `add_user`, `remove_user` and `authenticate_user` do with the array is what the map promises.
pub mod Calls
use cileserver.Base.{
  ℕ, ◌+◌, ◌-◌, ◌≤◌, ◌≡◌, refl, sym, ap, ap₂, ◌∙◌, fun_ext, Bool, false, inl, inr, List, [], ◌∷◌,
  ◌++◌, Option, none, some, Rc, success, failure, arith, ltb, if◌then◌else◌, Bool-cases,
  Option-cases, length, take_all, length-append,
}
use cileserver.Base.CString.{Bytes, str_eq, str_eq_iff}
use cileserver.Auth.Hash.{hash_password, generate_salt}
use cileserver.Auth.Invariant.{add_user-IsTable, remove_first-IsTable, str_eq-false}
use cileserver.Auth.Table.{
  IsTable, find_user-append, find_user-append_some, find_user-remove_self, find_user-remove_other,
  new_user-username, new_user-role, new_user-matches_hash,
}
use cileserver.Auth.{
  User, Users, max_users, find_user, matches_hash, authenticate_user, new_user, add_user,
  remove_first, remove_user,
}

-- An account: the passwords that it accepts, and its role.
pub record Entry : Type 0 where
  pub accepts : Bytes → Bool
  pub role : ℕ

-- A new account accepts the passwords with the hash of its own.
abbrev pub new_entry : Bytes → ℕ → List ℕ → Entry
new_entry password role draws =
    let salt = generate_salt draws in
    record {
      accepts = λ other. str_eq (hash_password password salt) (hash_password other salt);
      role = role;
    }

-- The abstract table; its order and its hashes are forgotten.
pub record Accounts : Type 0 where
  pub entry : Bytes → Option Entry
  pub count : ℕ

-- The calls that auth.h offers on the table, and what they answer.
pub data AuthCall : Type 0 where
  add_call : Bytes → Bytes → ℕ → List ℕ → AuthCall
  remove_call : Bytes → AuthCall
  login_call : Bytes → Bytes → AuthCall

pub data Answer : Type 0 where
  done : Rc → Answer
  role_is : Option ℕ → Answer

pub call : AuthCall → Users → Answer × Users
call (add_call username password role draws) users =
    let (rc, us) = add_user username password role draws users in (done rc, us)
call (remove_call username) users = let (rc, us) = remove_user username users in (done rc, us)
call (login_call username password) users =
    (role_is (authenticate_user username password users), users)

pub call_all : List AuthCall → Users → List Answer × Users
call_all [] users = ([], users)
call_all (c ∷ cs) users =
    let (answer, us) = call c users in
    let (answers, end) = call_all cs us in (answer ∷ answers, end)

-- What is promised: a free name is added while there is room; a known name is removed; a login
-- asks the account.
pub promise : AuthCall → Accounts → Answer × Accounts
promise (add_call username password role draws) a =
    if ltb a.count max_users
    then (elim (a.entry username) [
      | some e ↦ (done failure, a)
      | none ↦ (
        done success,
        record {
          entry = λ name.
              if str_eq username name then some (new_entry password role draws) else a.entry name;
          count = a.count + 1;
        },
      )
    ])
    else (done failure, a)
promise (remove_call username) a = elim (a.entry username) [
  | none ↦ (done failure, a)
  | some e ↦ (
    done success,
    record {
      entry = λ name. if str_eq username name then none else a.entry name;
      count = a.count - 1;
    },
  )
]
promise (login_call username password) a = (
  role_is (elim (a.entry username) [
    | none ↦ none
    | some e ↦ if e.accepts password then some e.role else none
  ]),
  a,
)

pub promise_all : List AuthCall → Accounts → List Answer × Accounts
promise_all [] a = ([], a)
promise_all (c ∷ cs) a =
    let (answer, b) = promise c a in
    let (answers, end) = promise_all cs b in (answer ∷ answers, end)

-- The account that an entry of the array stands for, and the accounts of the array.
abbrev pub entry_of : Option User → Option Entry
entry_of none = none
entry_of (some u) = some (record { accepts = matches_hash u.password_hash; role = u.role })

abbrev pub view : Users → Accounts
view users = record { entry = λ name. entry_of (find_user name users); count = length users }

-- The names that are added fit their arrays.
abbrev pub HasShortAdds : List AuthCall → Type 0
HasShortAdds [] = Unit {0}
HasShortAdds (add_call username password role draws ∷ cs) = (length username ≤ 63) × HasShortAdds cs
HasShortAdds (c ∷ cs) = HasShortAdds cs
