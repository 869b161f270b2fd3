-- ===== src/Base/Text.antt =====
-- Text files read line by line, and lines split at separators, as src/auth.c and src/config.c do.
use Prim.Native.Nat.{ℕ, zero, suc, ◌<◌}
use mathlib.Core.Path.{◌≡◌, refl, ap}
use mathlib.Core.Bool.{false}
use mathlib.Core.List.{[], ◌∷◌, ◌++◌}
use mathlib.Core.Option.{Option, none, some}
use native.Mathlib.Omega.{arith}
use cileserver.Base.CString.{Bytes, NoByte, skip}
use cileserver.Base.Lists.{length}
use cileserver.Base.Tests.{◌==◌, if◌then◌else◌}

abbrev pub newline : ℕ
newline = 10

-- `fgets` into an array of `n + 1` bytes: the line, and what follows it. An empty line is NULL.
unfoldable pub fgets : ℕ → Bytes → Bytes × Bytes
fgets zero s = ([], s)
fgets (suc n) [] = ([], [])
fgets (suc n) (c ∷ s) =
    let (line, rest) = fgets n s in if c == newline then (c ∷ [], s) else (c ∷ line, rest)

-- The parts of a string before and behind the first `c`.
unfoldable pub break_at : ℕ → Bytes → Bytes × Bytes
break_at c [] = ([], [])
break_at c (x ∷ xs) =
    let (before, behind) = break_at c xs in if x == c then ([], xs) else (x ∷ before, behind)

-- `strtok_r` with one separator: the token, and the string that the next call goes on with.
unfoldable pub strtok : ℕ → Bytes → Option (Bytes × Bytes)
strtok c s = elim (skip c s) [ [] ↦ none | x ∷ xs ↦ some (break_at c (x ∷ xs)) ]

pub NoByte-append : (c : ℕ) (xs ys : Bytes) → NoByte c xs → NoByte c ys → NoByte c (xs ++ ys)
NoByte-append c [] ys h k = k
NoByte-append c (x ∷ xs) ys h k = (h.0, NoByte-append c xs ys h.1 k)

pub break_at-append :
    (c : ℕ) (before behind : Bytes)
    → NoByte c before
    → break_at c (before ++ c ∷ behind) ≡ (before, behind)
unfolding break_at
break_at-append c [] behind h = ground arith
break_at-append c (x ∷ before) behind h = ground (arith, break_at-append c before behind h.1)

break_at-whole : (c : ℕ) (s : Bytes) → NoByte c s → break_at c s ≡ (s, [])
unfolding break_at
break_at-whole c [] h = refl
break_at-whole c (x ∷ s) h = ground (arith, break_at-whole c s h.1)

-- A line that fits the array is read whole, with its newline.
pub fgets-append :
    (n : ℕ) (line rest : Bytes)
    → NoByte newline line
    → length line < n
    → fgets n (line ++ newline ∷ rest) ≡ (line ++ newline ∷ [], rest)
unfolding fgets
fgets-append zero line rest h k = absurd (omega arith)
fgets-append (suc n) [] rest h k = refl
fgets-append (suc n) (x ∷ line) rest h k =
    ground (arith, fgets-append n line rest h.1 (omega arith))

pub strtok-append :
    (c : ℕ) (s rest : Bytes) → 0 < length s → NoByte c s → strtok c (s ++ c ∷ rest) ≡ some (s, rest)
unfolding strtok skip
strtok-append c [] rest h n = absurd (omega arith)
strtok-append c (x ∷ s) rest h n =
    let ne : (x == c) ≡ false = ground (arith, n.0) in
    rw (ne, strtok) (ap some (break_at-append c (x ∷ s) rest n))

pub strtok-whole : (c : ℕ) (s : Bytes) → 0 < length s → NoByte c s → strtok c s ≡ some (s, [])
unfolding strtok skip
strtok-whole c [] h n = absurd (omega arith)
strtok-whole c (x ∷ s) h n =
    let ne : (x == c) ≡ false = ground (arith, n.0) in
    rw (ne, strtok) (ap some (break_at-whole c (x ∷ s) n))
