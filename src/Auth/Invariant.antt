-- ===== src/Auth/Invariant.antt =====
-- The table of users through `add_user` and `remove_user` of src/auth.c.
use cileserver.Base.{
  ℕ, ◌≤◌, ◌≡◌, ◌≢◌, refl, ◌∙◌, false, inl, inr, List, [], ◌∷◌, ◌++◌, none, success, arith, ltb,
  ltb→lt, Bool-cases, Option-cases, length, take_all, length-append,
}
use cileserver.Base.CString.{Bytes, str_eq, str_eq_iff}
use cileserver.Auth.Table.{
  HasDistinctNames, HasShortNames, IsTable, find_user-append, find_user-remove_self,
  find_user-remove_other, length-remove_first, new_user-username,
}
use cileserver.Auth.{
  User, Users, max_users, find_user, authenticate_user, new_user, add_user, remove_first,
  remove_user,
}

pub str_eq-false : (a b : Bytes) → a ≢ b → str_eq a b ≡ false
str_eq-false a b h = ground (arith, str_eq_iff a b)

HasDistinctNames-append :
    (us : Users) (v : User)
    → HasDistinctNames us
    → find_user v.username us ≡ none
    → HasDistinctNames (us ++ v ∷ [])
unfolding find_user
HasDistinctNames-append [] v d h = (refl, tt)
HasDistinctNames-append (u ∷ us) v d h = elim (Bool-cases (str_eq u.username v.username)) [
  | inl same ↦ absurd (ground arith)
  | inr other ↦
      let other' : str_eq v.username u.username ≡ false =
        ground (arith, str_eq_iff u.username v.username, str_eq_iff v.username u.username) in
      (
        find_user-append u.username us v d.0 ∙ rw other' refl,
        HasDistinctNames-append us v d.1 (rw other at h),
      )
]

HasShortNames-append :
    (us : Users) (v : User)
    → HasShortNames us
    → length v.username ≤ 63
    → HasShortNames (us ++ v ∷ [])
HasShortNames-append [] v s h = (h, tt)
HasShortNames-append (u ∷ us) v s h = (s.0, HasShortNames-append us v s.1 h)

module _ (name : Bytes) where
  find_user-remove_none :
      (other : Bytes) (us : Users)
      → find_user other us ≡ none
      → find_user other (remove_first name us) ≡ none
  unfolding find_user remove_first
  find_user-remove_none other [] h = refl
  find_user-remove_none other (u ∷ us) h = ground (arith, find_user-remove_none other us)

  HasDistinctNames-remove :
      (us : Users) → HasDistinctNames us → HasDistinctNames (remove_first name us)
  unfolding remove_first
  HasDistinctNames-remove [] d = tt
  HasDistinctNames-remove (u ∷ us) d = elim (Bool-cases (str_eq u.username name)) [
    | inl same ↦ rw same d.1
    | inr other ↦ rw other (find_user-remove_none u.username us d.0, HasDistinctNames-remove us d.1)
  ]

  HasShortNames-remove : (us : Users) → HasShortNames us → HasShortNames (remove_first name us)
  unfolding remove_first
  HasShortNames-remove [] s = tt
  HasShortNames-remove (u ∷ us) s = elim (Bool-cases (str_eq u.username name)) [
    | inl same ↦ rw same s.1
    | inr other ↦ rw other (s.0, HasShortNames-remove us s.1)
  ]

-- Adding a user whose name fits, whether it succeeds or not, keeps at most 100 entries, with
-- distinct names that fit their arrays.
pub add_user-IsTable :
    (username password : Bytes) (role : ℕ) (draws : List ℕ) (users : Users)
    → length username ≤ 63
    → IsTable users
    → IsTable (add_user username password role draws users).1
unfolding add_user
add_user-IsTable username password role draws users short t =
    elim (Bool-cases (ltb (length users) max_users)) [
      | inr full ↦ rw full t
      | inl free ↦ elim (Option-cases (find_user username users)) [
        | inr (u, old) ↦ rw free (rw old t)
        | inl absent ↦
            let v = new_user username password role draws in
            let stored : v.username ≡ username =
              new_user-username username password role draws users users
              ∙ take_all 63 username short in
            rw free (
              rw absent (record {
                fits = omega (arith, ltb→lt _ _ free, length-append users (v ∷ []));
                distinct = HasDistinctNames-append users v t.distinct (rw stored absent);
                short = HasShortNames-append users v t.short (rw stored short);
              }))
      ]
    ]

pub remove_first-IsTable :
    (name : Bytes) (users : Users) → IsTable users → IsTable (remove_first name users)
remove_first-IsTable name users t = record {
  fits = omega (arith, t.fits, length-remove_first name users);
  distinct = HasDistinctNames-remove name users t.distinct;
  short = HasShortNames-remove name users t.short;
}

remove_user-after :
    (name : Bytes) (users after : Users)
    → remove_user name users ≡ (success, after)
    → after ≡ remove_first name users
unfolding remove_user
remove_user-after name users after e = elim (Option-cases (find_user name users)) [
  | inl absent ↦ ground arith
  | inr (u, old) ↦ ground arith
]

-- Removing a user keeps the table well formed too. When it succeeds, no password logs that
-- name in any more, and every other name logs in as before.
pub remove_user-revokes :
    (name other password : Bytes) (users after : Users)
    → IsTable users
    → name ≢ other
    → remove_user name users ≡ (success, after)
    → IsTable after
      × (authenticate_user name password after ≡ none)
      × (authenticate_user other password after ≡ authenticate_user other password users)
unfolding authenticate_user
remove_user-revokes name other password users after t ne e =
    let is : after ≡ remove_first name users = remove_user-after name users after e in
    rw is (
      remove_first-IsTable name users t,
      rw (find_user-remove_self name users t.distinct, authenticate_user) refl,
      rw (find_user-remove_other name other users (str_eq-false name other ne), authenticate_user)
          refl,
    )
