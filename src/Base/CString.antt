-- ===== src/Base/CString.antt =====
-- C strings as byte lists without their NUL, and the functions of <string.h> the program calls.
-- `strcmp(a, b) == 0` is `str_eq`, `strlen` is `length`, `strncpy` into a zeroed field is `take`.
use Prim.Native.Nat.{ℕ}
use Prim.Native.Char.{code}
use Prim.Native.String.{String}
use mathlib.Core.Path.{◌≡◌, refl}
use mathlib.Core.Logic.{◌↔◌, ◌≢◌}
use mathlib.Core.Bool.{Bool, true, false, not, ◌&&◌, ◌||◌}
use mathlib.Core.Option.{Option, none, some}
use mathlib.Core.List.{List, [], ◌∷◌, ◌++◌}
use native.Mathlib.Omega.{arith}
use cileserver.Base.Tests.{◌==◌, if◌then◌else◌}
use cileserver.Base.Lists.{length, take, drop}

abbrev pub Bytes : Type 0
Bytes = List ℕ

-- The bytes of an ASCII literal.
abbrev pub codes : String → Bytes
codes String.[] = []
codes (String.◌∷◌ c s) = code c ∷ codes s

-- The string that starts at an address: the memory up to the first NUL.
unfoldable pub cstr : Bytes → Bytes
cstr [] = []
cstr (c ∷ cs) = if c == 0 then [] else c ∷ cstr cs

unfoldable pub str_eq : Bytes → Bytes → Bool
str_eq [] [] = true
str_eq (x ∷ xs) (y ∷ ys) = x == y && str_eq xs ys
str_eq _ _ = false

-- `strcmp(arg, short) == 0 || strcmp(arg, long) == 0`
abbrev pub is_option : Bytes → Bytes → Bytes → Bool
is_option short long arg = str_eq arg short || str_eq arg long

-- `strncmp(a, b, strlen(b)) == 0`
unfoldable pub starts_with : Bytes → Bytes → Bool
starts_with s [] = true
starts_with [] (y ∷ ys) = false
starts_with (x ∷ xs) (y ∷ ys) = x == y && starts_with xs ys

-- `strncat(dst, src, n)`
abbrev pub strncat : Bytes → Bytes → ℕ → Bytes
strncat dst src n = dst ++ take n src

-- `strchr(s, c)`: the parts before and after the first `c`.
unfoldable pub split_at : ℕ → Bytes → Option (Bytes × Bytes)
split_at c [] = none
split_at c (x ∷ xs) =
    if x == c
    then some ([], xs)
    else elim (split_at c xs) [ none ↦ none | some (before, after) ↦ some (x ∷ before, after) ]

-- `strrchr(s, c)`: the parts before and after the last `c`.
unfoldable pub split_at_last : ℕ → Bytes → Option (Bytes × Bytes)
split_at_last c [] = none
split_at_last c (x ∷ xs) = elim (split_at_last c xs) [
  | some (before, after) ↦ some (x ∷ before, after)
  | none ↦ if x == c then some ([], xs) else none
]

-- `while (*s == c) s++;`
unfoldable pub skip : ℕ → Bytes → Bytes
skip c [] = []
skip c (x ∷ xs) = let rest = skip c xs in if x == c then rest else x ∷ xs

pub str_eq_iff : (a b : Bytes) → (str_eq a b ≡ true) ↔ (a ≡ b)
unfolding str_eq
str_eq_iff (x ∷ a) (y ∷ b) = ground (arith, str_eq_iff a b)
str_eq_iff _ _ = ground arith

pub str_eq_refl : (a : Bytes) → str_eq a a ≡ true
str_eq_refl a = (str_eq_iff a a).1 refl

-- A positive prefix test splits the string.
pub starts_with-split : (s p : Bytes) → starts_with s p ≡ true → s ≡ p ++ drop (length p) s
unfolding starts_with
starts_with-split s [] h = refl
starts_with-split [] (y ∷ ys) h = ground arith
starts_with-split (x ∷ xs) (y ∷ ys) h = ground (arith, starts_with-split xs ys)

-- With no NUL inside, memory that holds a string and its NUL reads back as the string.
abbrev pub NoByte : ℕ → Bytes → Type 0
NoByte c [] = Unit {0}
NoByte c (x ∷ xs) = (x ≢ c) × NoByte c xs

pub cstr-append : (s rest : Bytes) → NoByte 0 s → cstr (s ++ 0 ∷ rest) ≡ s
unfolding cstr
cstr-append [] rest h = refl
cstr-append (x ∷ s) rest h = ground (arith, cstr-append s rest h.1)

pub cstr_self : (s : Bytes) → NoByte 0 s → cstr s ≡ s
unfolding cstr
cstr_self [] h = refl
cstr_self (x ∷ s) h = ground (arith, cstr_self s h.1)

pub cstr-NoByte : (s : Bytes) → NoByte 0 (cstr s)
unfolding cstr
cstr-NoByte [] = tt
cstr-NoByte (x ∷ s) = ground (arith, cstr-NoByte s)

pub split_at-append :
    (c : ℕ) (before after : Bytes)
    → NoByte c before
    → split_at c (before ++ c ∷ after) ≡ some (before, after)
unfolding split_at
split_at-append c [] after h = ground arith
split_at-append c (x ∷ before) after h = ground (arith, split_at-append c before after h.1)

-- The test for it, on concrete strings.
abbrev pub lacks : ℕ → Bytes → Bool
lacks c [] = true
lacks c (x ∷ xs) = not (x == c) && lacks c xs

pub lacks-NoByte : (c : ℕ) (s : Bytes) → lacks c s ≡ true → NoByte c s
lacks-NoByte c [] h = tt
lacks-NoByte c (x ∷ s) h = ((λ e. ground arith), lacks-NoByte c s (ground arith))
