-- ===== src/Auth/Table.antt =====
-- The user table of src/auth.c: its invariant, and what a change of it means for a login.
use cileserver.Base.{
  ℕ, ◌≤◌, ◌<◌, ◌≡◌, refl, ap, false, inl, inr, List, [], ◌∷◌, ◌++◌, none, some, success, arith, ltb,
  if◌then◌else◌, Bool-cases, Option-cases, length, take, take_all, length-take, length-append,
}
use cileserver.Base.CString.{Bytes, str_eq, str_eq_iff, str_eq_refl, split_at-append}
use cileserver.Auth.Hash.{
  hash_password, generate_salt, length-hash_password, length-generate_salt, generate_salt-NoByte,
}
use cileserver.Auth.{
  User, Users, max_users, find_user, matches_hash, authenticate_user, new_user, add_user,
  remove_first,
}

-- No two entries share a name.
abbrev pub HasDistinctNames : Users → Type 0
HasDistinctNames [] = Unit {0}
HasDistinctNames (u ∷ us) = (find_user u.username us ≡ none) × HasDistinctNames us

-- The names fit their arrays with a NUL.
abbrev pub HasShortNames : Users → Type 0
HasShortNames [] = Unit {0}
HasShortNames (u ∷ us) = (length u.username ≤ 63) × HasShortNames us

pub record IsTable (users : Users) : Type 0 where
  pub fits : length users ≤ max_users
  pub distinct : HasDistinctNames users
  pub short : HasShortNames users

module _ (name : Bytes) where
  pub find_user-append :
      (us : Users) (v : User)
      → find_user name us ≡ none
      → find_user name (us ++ v ∷ []) ≡ (if str_eq v.username name then some v else none)
  unfolding find_user
  find_user-append [] v h = refl
  find_user-append (u ∷ us) v h = ground (arith, find_user-append us v)

  pub find_user-append_some :
      (us : Users) (v u : User)
      → find_user name us ≡ some u
      → find_user name (us ++ v ∷ []) ≡ some u
  unfolding find_user
  find_user-append_some [] v u h = cc
  find_user-append_some (w ∷ us) v u h = ground (arith, find_user-append_some us v u)

  -- The entry found has the name.
  find_user-username : (us : Users) (u : User) → find_user name us ≡ some u → u.username ≡ name
  unfolding find_user
  find_user-username [] u h = cc
  find_user-username (w ∷ us) u h =
      ground (arith, str_eq_iff w.username name, find_user-username us u)

  pub find_user-long : (us : Users) → HasShortNames us → 63 < length name → find_user name us ≡ none
  unfolding find_user
  find_user-long [] s h = refl
  find_user-long (u ∷ us) s h = elim (Bool-cases (str_eq u.username name)) [
    | inl same ↦ absurd (omega (arith, s.0, ap length ((str_eq_iff u.username name).0 same)))
    | inr other ↦ rw other (find_user-long us s.1 h)
  ]

  pub find_user-remove_self :
      (us : Users) → HasDistinctNames us → find_user name (remove_first name us) ≡ none
  unfolding find_user remove_first
  find_user-remove_self [] d = refl
  find_user-remove_self (u ∷ us) d = elim (Bool-cases (str_eq u.username name)) [
    | inl same ↦ rw same (rw (← (str_eq_iff u.username name).0 same) d.0)
    | inr other ↦ rw other (rw (other, find_user) (find_user-remove_self us d.1))
  ]

  pub find_user-remove_other :
      (other : Bytes) (us : Users)
      → str_eq name other ≡ false
      → find_user other (remove_first name us) ≡ find_user other us
  unfolding find_user remove_first
  find_user-remove_other other [] h = refl
  find_user-remove_other other (u ∷ us) h = elim (Bool-cases (str_eq u.username name)) [
    | inl same ↦ rw same (rw ((str_eq_iff u.username name).0 same) (rw h refl))
    | inr kept ↦ rw kept (
        ap (λ r. if str_eq u.username other then some u else r) (find_user-remove_other other us h))
  ]

  pub length-remove_first : (us : Users) → length (remove_first name us) ≤ length us
  unfolding remove_first
  length-remove_first [] = omega arith
  length-remove_first (u ∷ us) = ground (arith, length-remove_first us)

-- The array has room for the salt, the separator and the hash.
pub stored_hash :
    (password : Bytes) (draws : List ℕ)
    → take 127 (generate_salt draws ++ (b'$' ∷ hash_password password (generate_salt draws)))
      ≡ generate_salt draws ++ (b'$' ∷ hash_password password (generate_salt draws))
stored_hash password draws =
    let salt = generate_salt draws in
    take_all 127 _ (
      omega (
        arith,
        length-append salt (b'$' ∷ hash_password password salt),
        length-generate_salt draws,
        length-hash_password password salt,
      ))

-- The passwords that log a new user in are those with the hash of its own.
pub new_user-matches_hash :
    (username password : Bytes) (role : ℕ) (draws : List ℕ) (other : Bytes)
    → matches_hash (new_user username password role draws).password_hash other ≡ (
        let salt = generate_salt draws in
        str_eq (hash_password password salt) (hash_password other salt))
unfolding matches_hash new_user
new_user-matches_hash username password role draws other =
    let salt = generate_salt draws in
    let hash = hash_password password salt in
    rw (stored_hash password draws) (
      rw
        (
          split_at-append b'$' salt hash (generate_salt-NoByte b'$' draws (inl (omega arith))),
          matches_hash,
        )
        refl)

module _ (username password : Bytes) (role : ℕ) (draws : List ℕ) (users after : Users) where
  pub add_user-cases :
      add_user username password role draws users ≡ (success, after)
      → (length users < max_users)
        × (find_user username users ≡ none)
        × (after ≡ users ++ new_user username password role draws ∷ [])
  unfolding add_user
  add_user-cases e = elim (Bool-cases (ltb (length users) max_users)) [
    | inr full ↦ ground arith
    | inl free ↦ elim (Option-cases (find_user username users)) [
      | inl new ↦ ground arith
      | inr (u, old) ↦ ground arith
    ]
  ]

  pub new_user-username : (new_user username password role draws).username ≡ take 63 username
  unfolding new_user
  new_user-username = refl

  pub new_user-role : (new_user username password role draws).role ≡ role
  unfolding new_user
  new_user-role = refl

  find_user-add_user :
      add_user username password role draws users ≡ (success, after)
      → find_user username after ≡ (
          if str_eq (take 63 username) username
          then some (new_user username password role draws)
          else none)
  find_user-add_user e =
      let (_, absent, is) = add_user-cases e in
      rw is (rw (← new_user-username) (find_user-append username users _ absent))

  -- When adding a user has succeeded, and the name is one that fits its array, the same name and
  -- password log in, with the role given.
  pub authenticate_user-add_user :
      length username ≤ 63
      → add_user username password role draws users ≡ (success, after)
      → authenticate_user username password after ≡ some role
  unfolding authenticate_user
  authenticate_user-add_user short e =
      rw (find_user-add_user e, authenticate_user)
        (rw (take_all 63 username short) (
          rw (str_eq_refl username) (
            rw
              (
                new_user-matches_hash username password role draws password,
                str_eq_refl (hash_password password (generate_salt draws)),
              )
              (ap some new_user-role))))

  -- The array cuts a longer name, so the user that has just been added cannot log in.
  pub authenticate_user-add_user_long :
      63 < length username
      → add_user username password role draws users ≡ (success, after)
      → authenticate_user username password after ≡ none
  unfolding authenticate_user
  authenticate_user-add_user_long long e = elim (Bool-cases (str_eq (take 63 username) username)) [
    | inl same ↦ absurd (
        omega (
          arith,
          length-take 63 username,
          ap length ((str_eq_iff (take 63 username) username).0 same),
        ))
    | inr cut ↦ rw (find_user-add_user e, authenticate_user) (rw cut)
  ]
