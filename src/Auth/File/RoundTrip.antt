-- ===== src/Auth/File/RoundTrip.antt =====
-- The user file of src/auth.c, through `save_auth_file` and `init_auth`.
use cileserver.Auth.File.Lines.{IsField, IsStorable, load_users-print_user, length-print_user}
use cileserver.Auth.File.{
  AuthState, add_line, load_users, print_user, print_users, print_entries, save_auth_file,
  init_auth,
}
use cileserver.Auth.Hash.{
  hash_password, generate_salt, IsSeparator, generate_salt-NoByte, hash_password-NoByte,
}
use cileserver.Auth.Table.{stored_hash, authenticate_user-add_user, add_user-cases}
use cileserver.Auth.{User, Users, max_users, new_user, add_user, authenticate_user}
use cileserver.Base.Text.{newline, fgets, NoByte-append}
use cileserver.Base.CString.{Bytes, NoByte}
use cileserver.Base.{
  ℕ, zero, suc, ◌^◌, get_or, length-take, ◌+◌, ◌<◌, ◌≤◌, ◌≡◌, ◌≢◌, refl, sym, ap, ◌∙◌, inl, inr,
  List, [], ◌∷◌, ◌++◌, some, success, arith, length, take, append_assoc, append-nil, length-append,
  take_all,
}
use cileserver.Os.{Os, KeepsData, content_at, content_at-cases}

abbrev pub AllStorable : Users → Type 0
AllStorable [] = Unit {0}
AllStorable (u ∷ us) = IsStorable u × AllStorable us

load_users-print_entries :
    (f : ℕ) (us users : Users)
    → AllStorable us
    → length us < f
    → length users + length us ≤ max_users
    → load_users f (print_entries us) users ≡ users ++ us
unfolding load_users print_entries fgets
load_users-print_entries zero us users s h k = absurd (omega arith)
load_users-print_entries (suc f) [] users s h k = sym (append-nil users)
load_users-print_entries (suc f) (u ∷ us) users s h k =
    load_users-print_user f u (print_entries us) users s.0 (omega arith)
    ∙ load_users-print_entries f us (users ++ u ∷ []) s.1 (omega arith)
        (omega (arith, length-append users (u ∷ [])))
    ∙ append_assoc users (u ∷ []) us

length-print_entries : (us : Users) → AllStorable us → length us ≤ length (print_entries us)
unfolding print_entries
length-print_entries [] s = omega arith
length-print_entries (u ∷ us) s = omega (
  arith,
  length-append (print_user u) (print_entries us),
  length-print_user u s.0,
  length-print_entries us s.1,
)

-- The two lines of comment are skipped.
load_users-comments :
    (f : ℕ) (us : Users)
    → load_users (suc (suc f)) (print_users us) [] ≡ load_users f (print_entries us) []
unfolding load_users print_users fgets add_line
load_users-comments f us = refl

length-print_users : (us : Users) → length (print_users us) ≡ 71 + length (print_entries us)
unfolding print_users
length-print_users us = omega arith

-- Reading the lines that `save_auth_file` writes gives the same entries, in the same order, for
-- at most 100 entries whose fields have none of the separators and fit.
pub load_users-print_users :
    (us : Users)
    → AllStorable us
    → length us ≤ max_users
    → load_users (suc (length (print_users us))) (print_users us) [] ≡ us
load_users-print_users us s fits =
    let f = length (print_entries us) + 70 in
    let e : suc (length (print_users us)) ≡ suc (suc f) = omega (arith, length-print_users us) in
    ap (λ n. load_users n (print_users us) []) e
    ∙ load_users-comments f us
    ∙ load_users-print_entries f us [] s (omega (arith, length-print_entries us s)) (omega arith)

module _ {Fs : Type 0} (os : Os Fs) (fs : Fs) where
  init_auth-loads :
      (path bytes : Bytes) (draws : List ℕ) (s : AuthState)
      → length path ≤ 1023
      → content_at os fs path ≡ some bytes
      → init_auth os fs path draws s
        ≡ (fs, record { users = load_users (suc (length bytes)) bytes []; auth_file_path = path })
  unfolding init_auth
  init_auth-loads path bytes draws s short e =
      let (file, there, is) = content_at-cases os fs path bytes e in
      rw (take_all 1023 path short, init_auth)
        (rw there (rw is (rw (take_all 1023 path short) refl)))

  save_auth_file-writes :
      (path : Bytes) (opened : Fs) (s : AuthState)
      → KeepsData os path
      → s.auth_file_path ≡ path
      → 0 < length path
      → os.open_write fs path ≡ some opened
      → ((save_auth_file os fs s).0 ≡ success)
        × (content_at os (save_auth_file os fs s).1 path ≡ some (print_users s.users))
  unfolding save_auth_file
  save_auth_file-writes [] opened s d e h o = absurd (omega arith)
  save_auth_file-writes (c ∷ cs) opened s d e h o =
      rw (e, save_auth_file)
        (rw o (refl, d.appends opened [] (print_users s.users) (d.truncates fs opened o)))

-- When the user file can be opened, on a disk that keeps its data, saving the table succeeds, and
-- a server that starts with that file has the same entries, in the same order; there are at most
-- 100, their fields have no separator and fit, and so does the path.
pub init_auth-save_auth_file :
    {Fs : Type 0} (os : Os Fs) (fs opened : Fs) (path : Bytes) (users : Users) (draws : List ℕ)
    (before : AuthState)
    → KeepsData os path
    → 0 < length path
    → length path ≤ 1023
    → os.open_write fs path ≡ some opened
    → AllStorable users
    → length users ≤ max_users
    → (let saved = save_auth_file os fs (record { users = users; auth_file_path = path }) in
        (saved.0 ≡ success)
        × (init_auth os saved.1 path draws before
            ≡ (saved.1, record { users = users; auth_file_path = path })))
init_auth-save_auth_file os fs opened path users draws before d filled short o s fits =
    let st : AuthState = record { users = users; auth_file_path = path } in
    let (done, stored) = save_auth_file-writes os fs path opened st d refl filled o in
    (
      done,
      init_auth-loads os (save_auth_file os fs st).1 path (print_users users) draws before short
            stored
          ∙ ap (λ us. ((save_auth_file os fs st).1, record { users = us; auth_file_path = path }))
              (load_users-print_users users s fits),
    )

-- A user that has been added, with a name that is free of the separators and does not begin as a
-- comment, can be stored.
new_user-IsStorable :
    (username password : Bytes) (role : ℕ) (draws : List ℕ)
    → IsField username
    → length username ≤ 63
    → get_or username 0 0 ≢ b'#'
    → role < 2 ^ 32
    → IsStorable (new_user username password role draws)
unfolding new_user
new_user-IsStorable username password role draws f short no_comment fits =
    let salt = generate_salt draws in
    let free : (c : ℕ)
        → IsSeparator c
        → b'$' ≢ c
        → NoByte c (salt ++ (b'$' ∷ hash_password password salt)) =
      λ c out ne.
        NoByte-append c salt _ (generate_salt-NoByte c draws out)
          (ne, hash_password-NoByte c password salt out) in
    let name : take 63 username ≡ username = take_all 63 username short in
    record {
      name = rw name f;
      short = omega (arith, length-take 63 username);
      no_comment = rw name no_comment;
      hash = rw (stored_hash password draws) (record {
        filled = omega (arith, length-append salt (b'$' ∷ hash_password password salt));
        no_colon = free b':' (inr (omega arith, omega arith)) (λ e. omega arith);
        no_newline = free newline (inl (omega arith)) (λ e. omega arith);
        no_nul = free 0 (inl (omega arith)) (λ e. omega arith);
      });
      hash_short = omega (arith, length-take 127 (salt ++ (b'$' ∷ hash_password password salt)));
      role_fits = fits;
    }

AllStorable-append :
    (us : Users) (u : User) → AllStorable us → IsStorable u → AllStorable (us ++ u ∷ [])
AllStorable-append [] u s t = (t, tt)
AllStorable-append (v ∷ us) u s t = (s.0, AllStorable-append us u s.1 t)

-- A user that has been added to a table that can be stored, with a name that is not empty, is free
-- of the separators, fits and does not begin as a comment, can log in after the table has been
-- saved and a server has started with the file, on a disk that keeps its data.
pub login_after_restart :
    {Fs : Type 0} (os : Os Fs) (fs opened : Fs) (path username password : Bytes) (role : ℕ)
    (draws draws' : List ℕ) (users after : Users) (before : AuthState)
    → KeepsData os path
    → 0 < length path
    → length path ≤ 1023
    → os.open_write fs path ≡ some opened
    → AllStorable users
    → IsField username
    → length username ≤ 63
    → get_or username 0 0 ≢ b'#'
    → role < 2 ^ 32
    → add_user username password role draws users ≡ (success, after)
    → (let saved = save_auth_file os fs (record { users = after; auth_file_path = path }) in
        authenticate_user username password (init_auth os saved.1 path draws' before).1.users
        ≡ some role)
login_after_restart os fs opened path username password role draws draws' users after before d
      filled short o s field name_short no_comment fits added =
    let (room, _, is) = add_user-cases username password role draws users after added in
    let storable : AllStorable after = rw is (
      AllStorable-append users _ s
        (new_user-IsStorable username password role draws field name_short no_comment fits)) in
    let count : length after ≤ max_users =
      omega
        (arith, ap length is, length-append users (new_user username password role draws ∷ [])) in
    let (_, same) =
      init_auth-save_auth_file os fs opened path after draws' before d filled short o storable
        count in
    rw same (authenticate_user-add_user username password role draws users after name_short added)
