-- ===== src/Auth/Hash.antt =====
-- src/auth.c: `hash_password` and `generate_salt`. Bytes of a password count as unsigned.
use Prim.Native.Nat.{bit_xor, bit_or}
use cileserver.Base.{
  ℕ, zero, suc, ◌+◌, ◌-◌, ◌*◌, ◌/◌, ◌%◌, ◌≤◌, ◌<◌, ◌≡◌, refl, ◌∙◌, List, [], ◌∷◌, arith, ◌⊎◌, ◌≢◌,
  ltb, if◌then◌else◌, length, get_or, set, take, replicate, length-set, length-take,
}
use cileserver.Base.CString.{Bytes, NoByte}

-- `(len > 0) ? s[k % len] : 0`
abbrev pick : Bytes → ℕ → ℕ
pick s k = if ltb 0 (length s) then get_or s (k % length s) 0 else 0

-- The body of the inner loop, at index `i` of round `round`.
unfoldable pub mix_byte : Bytes → Bytes → ℕ → ℕ → Bytes → Bytes
mix_byte password salt round i hash =
    let added =
      (get_or hash i 0 + pick password (i + round) + pick salt (i * round) + round) % 256 in
    let hash' = set hash i added in
    let mixed = bit_or (get_or hash' ((i + 1) % 32) 0 / 2) (get_or hash' ((i + 2) % 32) 0 * 128) in
    set hash' i (bit_xor added (mixed % 256))

-- `for (i = 0; i < 32; i++)`, over the bytes left to mix.
unfoldable pub mix_bytes : ℕ → Bytes → Bytes → ℕ → ℕ → Bytes → Bytes
mix_bytes zero password salt round i hash = hash
mix_bytes (suc n) password salt round i hash =
    mix_bytes n password salt round (i + 1) (mix_byte password salt round i hash)

-- `for (round = 0; round < 1000; round++)`, over the rounds left.
unfoldable pub mix_rounds : ℕ → Bytes → Bytes → ℕ → Bytes → Bytes
mix_rounds zero password salt round hash = hash
mix_rounds (suc n) password salt round hash =
    mix_rounds n password salt (round + 1) (mix_bytes 32 password salt round 0 hash)

-- A digit of `%02x`.
abbrev hex_digit : ℕ → ℕ
hex_digit d = if ltb d 10 then b'0' + d else b'a' + (d - 10)

unfoldable pub to_hex : Bytes → Bytes
to_hex [] = []
to_hex (x ∷ xs) = hex_digit (x / 16 % 16) ∷ hex_digit (x % 16) ∷ to_hex xs

-- Every caller has an output of 128 bytes, which holds all 64 digits.
unfoldable pub hash_password : Bytes → Bytes → Bytes
hash_password password salt = to_hex (mix_rounds 1000 password salt 0 (replicate 32 0))

-- 16 results of `random` give the salt.
unfoldable pub generate_salt : List ℕ → Bytes
generate_salt draws = to_hex (take 16 draws)

length-to_hex : (xs : Bytes) → length (to_hex xs) ≡ length xs + length xs
unfolding to_hex
length-to_hex [] = omega arith
length-to_hex (x ∷ xs) = omega (arith, length-to_hex xs)

length-mix_bytes :
    (n : ℕ) (password salt : Bytes) (round i : ℕ) (hash : Bytes)
    → length (mix_bytes n password salt round i hash) ≡ length hash
unfolding mix_bytes mix_byte
length-mix_bytes zero password salt round i hash = refl
length-mix_bytes (suc n) password salt round i hash =
    length-mix_bytes n password salt round (i + 1) _ ∙ length-set _ i _ ∙ length-set hash i _

length-mix_rounds :
    (n : ℕ) (password salt : Bytes) (round : ℕ) (hash : Bytes)
    → length (mix_rounds n password salt round hash) ≡ length hash
unfolding mix_rounds
length-mix_rounds zero password salt round hash = refl
length-mix_rounds (suc n) password salt round hash =
    length-mix_rounds n password salt (round + 1) _ ∙ length-mix_bytes 32 password salt round 0 hash

pub length-hash_password : (password salt : Bytes) → length (hash_password password salt) ≡ 64
unfolding hash_password
length-hash_password password salt = omega (
  arith,
  length-to_hex (mix_rounds 1000 password salt 0 (replicate 32 0)),
  length-mix_rounds 1000 password salt 0 (replicate 32 0),
)

pub length-generate_salt : (draws : List ℕ) → length (generate_salt draws) ≤ 32
unfolding generate_salt
length-generate_salt draws = omega (arith, length-to_hex (take 16 draws), length-take 16 draws)

-- No digit is one of the separators of the user file, a newline or a NUL.
abbrev pub IsSeparator : ℕ → Type 0
IsSeparator c = (c < b'0') ⊎ ((b'9' < c) × (c < b'a'))

hex_digit-ne : (c d : ℕ) → IsSeparator c → hex_digit d ≢ c
hex_digit-ne c d s e = ground arith

to_hex-NoByte : (c : ℕ) (xs : Bytes) → IsSeparator c → NoByte c (to_hex xs)
unfolding to_hex
to_hex-NoByte c [] s = tt
to_hex-NoByte c (x ∷ xs) s =
    (hex_digit-ne c (x / 16 % 16) s, (hex_digit-ne c (x % 16) s, to_hex-NoByte c xs s))

pub generate_salt-NoByte : (c : ℕ) (draws : List ℕ) → IsSeparator c → NoByte c (generate_salt draws)
unfolding generate_salt
generate_salt-NoByte c draws s = to_hex-NoByte c (take 16 draws) s

pub hash_password-NoByte :
    (c : ℕ) (password salt : Bytes) → IsSeparator c → NoByte c (hash_password password salt)
unfolding hash_password
hash_password-NoByte c password salt s =
    to_hex-NoByte c (mix_rounds 1000 password salt 0 (replicate 32 0)) s
