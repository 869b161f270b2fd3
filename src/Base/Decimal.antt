-- ===== src/Base/Decimal.antt =====
-- `%d` and `atoi`. An `int` is its 32-bit pattern, two's complement.
use cileserver.Base.Tests.{ltb, leb, ◌==◌, if◌then◌else◌, Bool-cases}
use cileserver.Base.CString.{Bytes, NoByte}
use cileserver.Base.Lists.{length, length-append}
use Prim.Native.Nat.{ℕ, zero, suc, ◌+◌, ◌-◌, ◌*◌, ◌/◌, ◌%◌, ◌^◌, ◌≤◌, ◌<◌}
use mathlib.Core.Path.{◌≡◌, refl, ◌∙◌, ap}
use mathlib.Core.Logic.{◌⊎◌, ◌≢◌, inl, inr}
use mathlib.Core.Bool.{Bool, ◌&&◌, ◌||◌}
use mathlib.Core.List.{[], ◌∷◌, ◌++◌}
use native.Mathlib.Nat.{pow-suc}
use native.Mathlib.Omega.{arith}

-- The decimal digits of a number, with fuel for their count.
unfoldable pub digits : ℕ → ℕ → Bytes
digits zero n = []
digits (suc f) n =
    let leading = digits f (n / 10) in
    if ltb n 10 then (b'0' + n) ∷ [] else leading ++ (b'0' + n % 10) ∷ []

-- `%d`; no `int` has more than 10 digits.
unfoldable pub print_int : ℕ → Bytes
print_int w = if ltb w (2 ^ 31) then digits 10 w else b'-' ∷ digits 10 (2 ^ 32 - w)

is_digit : ℕ → Bool
is_digit c = leb b'0' c && leb c b'9'

unfoldable pub parse_digits : ℕ → Bytes → ℕ
unfolding is_digit
parse_digits acc [] = acc
parse_digits acc (c ∷ cs) =
    let rest = parse_digits (acc * 10 + (c - b'0')) cs in if is_digit c then rest else acc

-- `isspace` in the C locale
is_space : ℕ → Bool
is_space c = c == b' ' || (leb 9 c && leb c 13)

skip_space : Bytes → Bytes
unfolding is_space
skip_space [] = []
skip_space (c ∷ cs) = let rest = skip_space cs in if is_space c then rest else c ∷ cs

parse_signed : Bytes → ℕ
parse_signed [] = 0
parse_signed (c ∷ cs) =
    if c == b'-'
    then (2 ^ 32 - parse_digits 0 cs % 2 ^ 32) % 2 ^ 32
    else if c == b'+'
    then parse_digits 0 cs % 2 ^ 32
    else parse_digits 0 (c ∷ cs) % 2 ^ 32

-- `atoi`, for texts whose value is an `int`; C leaves other values undefined, and here they wrap.
unfoldable pub atoi : Bytes → ℕ
unfolding skip_space parse_signed
atoi s = parse_signed (skip_space s)

abbrev AllDigits : Bytes → Type 0
AllDigits [] = Unit {0}
AllDigits (c ∷ cs) = ((b'0' ≤ c) × (c ≤ b'9')) × AllDigits cs

AllDigits-append : (xs : Bytes) (d : ℕ) → AllDigits xs → d < 10 → AllDigits (xs ++ (b'0' + d) ∷ [])
AllDigits-append [] d h k = ((omega arith, omega arith), tt)
AllDigits-append (x ∷ xs) d h k = (h.0, AllDigits-append xs d h.1 k)

digits-AllDigits : (f n : ℕ) → AllDigits (digits f n)
unfolding digits
digits-AllDigits zero n = tt
digits-AllDigits (suc f) n = elim (Bool-cases (ltb n 10)) [
  | inl small ↦ rw small ((omega arith, ground arith), tt)
  | inr large ↦ rw large (AllDigits-append _ (n % 10) (digits-AllDigits f (n / 10)) (omega arith))
]

parse_digits-append :
    (xs ys : Bytes) (acc : ℕ)
    → AllDigits xs
    → parse_digits acc (xs ++ ys) ≡ parse_digits (parse_digits acc xs) ys
unfolding parse_digits
parse_digits-append [] ys acc h = refl
parse_digits-append (x ∷ xs) ys acc h =
    ground (arith, parse_digits-append xs ys (acc * 10 + (x - b'0')) h.1)

parse_digits_last : (acc d : ℕ) → d < 10 → parse_digits acc ((b'0' + d) ∷ []) ≡ acc * 10 + d
unfolding parse_digits
parse_digits_last acc d h = ground arith

parse_digits_nil : parse_digits 0 [] ≡ 0
unfolding parse_digits
parse_digits_nil = refl

parse_digits-digits : (f n : ℕ) → n < 10 ^ f → parse_digits 0 (digits f n) ≡ n
unfolding digits
parse_digits-digits zero n h = omega (arith, parse_digits_nil)
parse_digits-digits (suc f) n h = elim (Bool-cases (ltb n 10)) [
  | inl small ↦ rw small (parse_digits_last 0 n (ground arith) ∙ omega arith)
  | inr large ↦
      let shorter : n / 10 < 10 ^ f = omega (arith, pow-suc 10 f) in
      rw large (
        parse_digits-append (digits f (n / 10)) ((b'0' + n % 10) ∷ []) 0
          (digits-AllDigits f (n / 10))
        ∙ ap (λ acc. parse_digits acc ((b'0' + n % 10) ∷ []))
            (parse_digits-digits f (n / 10) shorter)
        ∙ parse_digits_last (n / 10) (n % 10) (omega arith)
        ∙ omega arith)
]

-- A number that starts with a digit is read as it stands.
atoi-AllDigits : (s : Bytes) → AllDigits s → atoi s ≡ parse_digits 0 s % 2 ^ 32
unfolding atoi
atoi-AllDigits [] h = omega (arith, parse_digits_nil)
atoi-AllDigits (c ∷ cs) h = ground arith

atoi_minus : (s : Bytes) → atoi (b'-' ∷ s) ≡ (2 ^ 32 - parse_digits 0 s % 2 ^ 32) % 2 ^ 32
unfolding atoi
atoi_minus s = refl

-- Reading back what `%d` prints gives the same `int`.
pub atoi-print_int : (w : ℕ) → w < 2 ^ 32 → atoi (print_int w) ≡ w
unfolding print_int
atoi-print_int w h = elim (Bool-cases (ltb w (2 ^ 31))) [
  | inl positive ↦ rw positive (
      atoi-AllDigits (digits 10 w) (digits-AllDigits 10 w)
      ∙ rw (parse_digits-digits 10 w (omega arith)) (omega arith))
  | inr negative ↦ rw negative (
      atoi_minus (digits 10 (2 ^ 32 - w))
      ∙ rw (parse_digits-digits 10 (2 ^ 32 - w) (ground arith)) (ground arith))
]

pub length-digits : (f n : ℕ) → length (digits f n) ≤ f
unfolding digits
length-digits zero n = omega arith
length-digits (suc f) n = elim (Bool-cases (ltb n 10)) [
  | inl small ↦ rw small (omega arith)
  | inr large ↦ rw large (
      omega
        (arith, length-append (digits f (n / 10)) ((b'0' + n % 10) ∷ []), length-digits f (n / 10)))
]

pub digits_filled : (f n : ℕ) → 0 < length (digits (suc f) n)
unfolding digits
digits_filled f n = elim (Bool-cases (ltb n 10)) [
  | inl small ↦ rw small (omega arith)
  | inr large ↦ rw large (omega (arith, length-append (digits f (n / 10)) ((b'0' + n % 10) ∷ [])))
]

AllDigits-NoByte : (c : ℕ) (s : Bytes) → (c < b'0') ⊎ (b'9' < c) → AllDigits s → NoByte c s
AllDigits-NoByte c [] out h = tt
AllDigits-NoByte c (x ∷ s) out h = ((λ e. ground arith), AllDigits-NoByte c s out h.1)

-- What `%d` prints has no byte but digits and a minus, and at least one and at most eleven.
pub print_int-NoByte : (c w : ℕ) → (c < b'0') ⊎ (b'9' < c) → c ≢ b'-' → NoByte c (print_int w)
unfolding print_int
print_int-NoByte c w out no_minus = elim (Bool-cases (ltb w (2 ^ 31))) [
  | inl positive ↦ rw positive (AllDigits-NoByte c _ out (digits-AllDigits 10 w))
  | inr negative ↦
      rw negative ((λ e. ground arith), AllDigits-NoByte c _ out (digits-AllDigits 10 (2 ^ 32 - w)))
]

pub length-print_int : (w : ℕ) → length (print_int w) ≤ 11
unfolding print_int
length-print_int w = elim (Bool-cases (ltb w (2 ^ 31))) [
  | inl positive ↦ rw positive (omega (arith, length-digits 10 w))
  | inr negative ↦ rw negative (omega (arith, length-digits 10 (2 ^ 32 - w)))
]

pub print_int_filled : (w : ℕ) → 0 < length (print_int w)
unfolding print_int
print_int_filled w = elim (Bool-cases (ltb w (2 ^ 31))) [
  | inl positive ↦ rw positive (digits_filled 9 w)
  | inr negative ↦ rw negative (omega arith)
]
