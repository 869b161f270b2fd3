-- ===== src/Auth/Accounts/Calls.antt =====
-- The calls of the table of users of src/auth.c against the map of Auth/Accounts.
use cileserver.Base.{
  ℕ, ◌+◌, ◌-◌, ◌≤◌, ◌≡◌, refl, sym, ap, ap₂, ◌∙◌, fun_ext, false, inl, inr, List, [], ◌∷◌, ◌++◌,
  none, some, success, arith, ltb, if◌then◌else◌, Bool-cases, Option-cases, length, take_all,
  length-append,
}
use cileserver.Base.CString.{Bytes, str_eq, str_eq_iff}
use cileserver.Auth.Invariant.{add_user-IsTable, remove_first-IsTable, str_eq-false}
use cileserver.Auth.Table.{
  IsTable, find_user-append, find_user-append_some, find_user-remove_self, find_user-remove_other,
  new_user-username, new_user-role, new_user-matches_hash,
}
use cileserver.Auth.{
  User, Users, max_users, find_user, authenticate_user, new_user, add_user, remove_first,
  remove_user,
}
use cileserver.Auth.Accounts.{
  AuthCall, add_call, remove_call, login_call, done, call, call_all, promise, promise_all, entry_of,
  new_entry, view, HasShortAdds,
}

module _ (username password : Bytes) (role : ℕ) (draws : List ℕ) where
  entry_of-new_user :
      entry_of (some (new_user username password role draws)) ≡ some (new_entry password role draws)
  entry_of-new_user =
      ap₂ (λ f r. some (record { accepts = f; role = r }))
        (fun_ext (new_user-matches_hash username password role draws))
        (new_user-role username password role draws [] [])

  find_user-added :
      (users : Users) (name : Bytes)
      → length username ≤ 63
      → find_user username users ≡ none
      → find_user name (users ++ new_user username password role draws ∷ []) ≡ (
          if str_eq username name
          then some (new_user username password role draws)
          else find_user name users)
  find_user-added users name short absent =
      let v = new_user username password role draws in
      let stored : v.username ≡ username =
        new_user-username username password role draws users users ∙ take_all 63 username short in
      elim (Option-cases (find_user name users)) [
        | inl new ↦ find_user-append name users v new ∙ rw (stored, new) refl
        | inr (u, old) ↦
            let other : str_eq username name ≡ false = str_eq-false username name (λ e.
              let x : some u ≡ none = sym old ∙ ap (λ n. find_user n users) (sym e) ∙ absent in
              ground arith) in
            find_user-append_some name users v u old ∙ rw (other, old) refl
      ]

  view-added :
      (users : Users)
      → length username ≤ 63
      → find_user username users ≡ none
      → view (users ++ new_user username password role draws ∷ []) ≡ record {
        entry = λ name.
            if str_eq username name
            then some (new_entry password role draws)
            else (view users).entry name;
        count = length users + 1;
      }
  view-added users short absent =
      ap₂ (λ e c. record { entry = e; count = c })
        (fun_ext (λ name.
          ap entry_of (find_user-added users name short absent)
          ∙ elim (Bool-cases (str_eq username name)) [
            | inl same ↦ rw same entry_of-new_user
            | inr other ↦ rw other refl
          ]))
        (length-append users (new_user username password role draws ∷ []))

module _ (username : Bytes) where
  length-remove_found :
      (users : Users) (u : User)
      → find_user username users ≡ some u
      → length (remove_first username users) + 1 ≡ length users
  unfolding find_user remove_first
  length-remove_found [] u h = ground arith
  length-remove_found (v ∷ us) u h = elim (Bool-cases (str_eq v.username username)) [
    | inl same ↦ rw same (omega arith)
    | inr other ↦
        let found : find_user username us ≡ some u = rw other at h in
        rw other (omega (arith, length-remove_found us u found))
  ]

  view-removed :
      (users : Users) (u : User)
      → IsTable users
      → find_user username users ≡ some u
      → view (remove_first username users) ≡ record {
        entry = λ name. if str_eq username name then none else (view users).entry name;
        count = length users - 1;
      }
  view-removed users u t found =
      ap₂ (λ e c. record { entry = e; count = c })
        (fun_ext (λ name. elim (Bool-cases (str_eq username name)) [
          | inl same ↦ rw same (
              ap entry_of (
                ap (λ n. find_user n (remove_first username users))
                  (sym ((str_eq_iff username name).0 same))
                ∙ find_user-remove_self username users t.distinct))
          | inr other ↦ rw other (ap entry_of (find_user-remove_other username name users other))
        ]))
        (omega (arith, length-remove_found users u found))

-- A call answers, and leaves, what is promised of the accounts; the table stays well formed.
record Keeps (c : AuthCall) (users : Users) : Type 0 where
  table : IsTable (call c users).1
  kept : promise c (view users) ≡ ((call c users).0, view (call c users).1)

module _ (username : Bytes) where
  add-Keeps :
      (password : Bytes) (role : ℕ) (draws : List ℕ) (users : Users)
      → length username ≤ 63
      → IsTable users
      → Keeps (add_call username password role draws) users
  unfolding call promise add_user
  add-Keeps password role draws users short t = record {
    table = add_user-IsTable username password role draws users short t;
    kept = elim (Bool-cases (ltb (length users) max_users)) [
      | inr full ↦ rw full refl
      | inl free ↦ elim (Option-cases (find_user username users)) [
        | inr (u, old) ↦ rw free (rw old refl)
        | inl absent ↦ rw free (
            rw absent (
              ap (λ a. (done success, a))
                (sym (view-added username password role draws users short absent))))
      ]
    ];
  }

  remove-Keeps : (users : Users) → IsTable users → Keeps (remove_call username) users
  unfolding call promise remove_user
  remove-Keeps users t = elim (Option-cases (find_user username users)) [
    | inl absent ↦ record {
      table = rw (absent, remove_user) t;
      kept = rw (absent, promise, remove_user) refl;
    }
    | inr (u, old) ↦ record {
      table = rw (old, remove_user) (remove_first-IsTable username users t);
      kept =
          rw (old, promise, remove_user)
            (ap (λ a. (done success, a)) (sym (view-removed username users u t old)));
    }
  ]

  login-Keeps :
      (password : Bytes) (users : Users)
      → IsTable users
      → Keeps (login_call username password) users
  unfolding call promise authenticate_user
  login-Keeps password users t = elim (Option-cases (find_user username users)) [
    | inl absent ↦ record { table = t; kept = rw (absent, authenticate_user) refl }
    | inr (u, old) ↦ record { table = t; kept = rw (old, authenticate_user) refl }
  ]

call-Keeps :
    (c : AuthCall) (cs : List AuthCall) (users : Users)
    → HasShortAdds (c ∷ cs)
    → IsTable users
    → Keeps c users × HasShortAdds cs
call-Keeps (add_call username password role draws) cs users s t =
    (add-Keeps username password role draws users s.0 t, s.1)
call-Keeps (remove_call username) cs users s t = (remove-Keeps username users t, s)
call-Keeps (login_call username password) cs users s t = (login-Keeps username password users t, s)

-- The array of users is a map from names to accounts: started in a well-formed table, any sequence
-- of calls that add users, remove users and log in, whether they succeed or not, leaves a
-- well-formed table, gives the answers that the map promises, and leaves the accounts that the map
-- has then. The names that are added have at most 63 bytes.
pub call_all-promise_all :
    (cs : List AuthCall) (users : Users)
    → HasShortAdds cs
    → IsTable users
    → IsTable (call_all cs users).1
      × (promise_all cs (view users) ≡ ((call_all cs users).0, view (call_all cs users).1))
unfolding call_all promise_all
call_all-promise_all [] users s t = (t, refl)
call_all-promise_all (c ∷ cs) users s t =
    let (keeps, short) = call-Keeps c cs users s t in
    let (table, rest) = call_all-promise_all cs (call c users).1 short keeps.table in
    (table, rw keeps.kept (rw rest refl))
