-- ===== src/Auth/File/Lines.antt =====
-- Reading back a line that src/auth.c has printed: `fgets`, `strtok_r` and `parse_line`.
use cileserver.Auth.File.{newline, fgets, break_at, parse_line, add_line, print_user, load_users}
use cileserver.Auth.{User, Users, max_users}
use cileserver.Base.CString.{Bytes, NoByte, cstr, cstr_self}
use cileserver.Base.Text.{
  newline, fgets, break_at, NoByte-append, break_at-append, fgets-append, strtok-append,
  strtok-whole,
}
use cileserver.Base.Decimal.{
  print_int, print_int-NoByte, length-print_int, print_int_filled, atoi-print_int,
}
use cileserver.Base.{
  ℕ, suc, ◌^◌, ◌<◌, ◌≤◌, ◌≡◌, ◌≢◌, refl, sym, ap, ◌∙◌, inl, inr, [], ◌∷◌, ◌++◌, ◌==◌, ◌||◌, lt→ltb,
  false, get_or, some, arith, length, take_all, length-append, append_assoc,
}

-- A text that can stand between the separators of the user file.
pub record IsField (s : Bytes) : Type 0 where
  pub filled : 0 < length s
  pub no_colon : NoByte b':' s
  pub no_newline : NoByte newline s
  pub no_nul : NoByte 0 s

role-IsField : (role : ℕ) → IsField (print_int role)
role-IsField role = record {
  filled = print_int_filled role;
  no_colon = print_int-NoByte b':' role (inr (omega arith)) (λ e. omega arith);
  no_newline = print_int-NoByte newline role (inl (omega arith)) (λ e. omega arith);
  no_nul = print_int-NoByte 0 role (inl (omega arith)) (λ e. omega arith);
}

-- An entry that the user file can hold.
pub record IsStorable (u : User) : Type 0 where
  pub name : IsField u.username
  pub short : length u.username ≤ 63
  pub no_comment : get_or u.username 0 0 ≢ b'#'
  pub hash : IsField u.password_hash
  pub hash_short : length u.password_hash ≤ 127
  pub role_fits : u.role < 2 ^ 32

-- The line of an entry, without its newline.
unfoldable pub text : User → Bytes
text u = u.username ++ b':' ∷ (u.password_hash ++ b':' ∷ print_int u.role)

module _ (u : User) (s : IsStorable u) where
  parse_line-text : parse_line (text u) ≡ some u
  unfolding parse_line text
  parse_line-text =
      rw
        (
          strtok-append b':' u.username (u.password_hash ++ b':' ∷ print_int u.role) s.name.filled
              s.name.no_colon,
          parse_line,
        )
        (rw (strtok-append b':' u.password_hash (print_int u.role) s.hash.filled s.hash.no_colon) (
          rw
            (strtok-whole b':' (print_int u.role) (role-IsField u.role).filled
              (role-IsField u.role).no_colon)
            (rw (take_all 63 u.username s.short) (
              rw (take_all 127 u.password_hash s.hash_short)
                (rw (atoi-print_int u.role s.role_fits) refl)))))

  text-NoByte :
      (c : ℕ)
      → c ≢ b':'
      → NoByte c u.username
      → NoByte c u.password_hash
      → NoByte c (print_int u.role)
      → NoByte c (text u)
  unfolding text
  text-NoByte c ne h k l =
      NoByte-append c u.username _ h
        ((λ e. ne (sym e)), NoByte-append c u.password_hash _ k ((λ e. ne (sym e)), l))

  length-text : length (text u) < 255
  unfolding text
  length-text = omega (
    arith,
    length-append u.username (b':' ∷ (u.password_hash ++ b':' ∷ print_int u.role)),
    length-append u.password_hash (b':' ∷ print_int u.role),
    length-print_int u.role,
    s.short,
    s.hash_short,
  )

  print_user-text : (rest : Bytes) → print_user u ++ rest ≡ text u ++ newline ∷ rest
  unfolding print_user text
  print_user-text rest = simp append_assoc

  pub length-print_user : 0 < length (print_user u)
  unfolding print_user
  length-print_user = omega (arith, length-append u.username _, s.name.filled)

  pub fgets-print_user :
      (rest : Bytes) → fgets 255 (print_user u ++ rest) ≡ (text u ++ newline ∷ [], rest)
  fgets-print_user rest =
      ap (fgets 255) (print_user-text rest)
      ∙ fgets-append 255 (text u) rest
          (text-NoByte newline (λ e. omega arith) s.name.no_newline s.hash.no_newline
            (role-IsField u.role).no_newline)
          length-text

  -- The line that `fgets` has read gives the entry back.
  line-parse_line : parse_line (break_at newline (cstr (text u ++ newline ∷ []))).0 ≡ some u
  line-parse_line =
      rw
        (cstr_self (text u ++ newline ∷ []) (
          NoByte-append 0 (text u) (newline ∷ [])
            (text-NoByte 0 (λ e. omega arith) s.name.no_nul s.hash.no_nul
              (role-IsField u.role).no_nul)
            ((λ e. omega arith), tt)))
        (rw
          (break_at-append newline (text u) [] (
            text-NoByte newline (λ e. omega arith) s.name.no_newline s.hash.no_newline
              (role-IsField u.role).no_newline))
          parse_line-text)

-- The first byte of a line that begins with a field.
first_byte :
    (name tail : Bytes)
    → 0 < length name
    → get_or name 0 0 ≢ b'#'
    → NoByte newline name
    → (c : ℕ) × (cs : Bytes) × (name ++ tail ≡ c ∷ cs) × (c ≢ b'#') × (c ≢ newline)
first_byte [] tail h k n = absurd (omega (arith, h))
first_byte (c ∷ cs) tail h k n = (c, cs ++ tail, refl, k, n.0)

add_line-text :
    (u : User) (c : ℕ) (cs : Bytes) (users : Users)
    → IsStorable u
    → text u ++ newline ∷ [] ≡ c ∷ cs
    → c ≢ b'#'
    → c ≢ newline
    → add_line c cs users ≡ users ++ u ∷ []
unfolding add_line
add_line-text u c cs users s e no_comment no_newline =
    let plain : (c == b'#' || c == newline) ≡ false = ground arith in
    let parsed : parse_line (break_at newline (cstr (c ∷ cs))).0 ≡ some u =
      rw (← e) (line-parse_line u s) in
    rw (plain, add_line) (rw parsed refl)

-- One round of the loop of `init_auth` on the line of an entry.
pub load_users-print_user :
    (f : ℕ) (u : User) (rest : Bytes) (users : Users)
    → IsStorable u
    → length users < max_users
    → load_users (suc f) (print_user u ++ rest) users ≡ load_users f rest (users ++ u ∷ [])
unfolding load_users text
load_users-print_user f u rest users s room =
    let (c, cs, e, no_comment, no_newline) =
      first_byte u.username ((b':' ∷ (u.password_hash ++ b':' ∷ print_int u.role)) ++ newline ∷ [])
        s.name.filled s.no_comment s.name.no_newline in
    let whole : text u ++ newline ∷ [] ≡ c ∷ cs =
      append_assoc u.username (b':' ∷ (u.password_hash ++ b':' ∷ print_int u.role)) (newline ∷ [])
      ∙ e in
    rw (fgets-print_user u s rest, load_users)
      (rw whole (
        rw (lt→ltb (length users) max_users room) (
          rw (fgets-print_user u s rest)
            (ap (load_users f rest) (add_line-text u c cs users s whole no_comment no_newline)))))
