-- ===== src/Client/Entry.antt =====
-- One entry of a listing: `file_info_t` of include/file_ops.h as src/protocol.c writes it and
-- src/client.c reads it.
use native.Mathlib.Nat.{pow-suc}
use cileserver.Base.CString.{Bytes, NoByte, cstr, cstr-append}
use cileserver.Base.{
  ℕ, zero, suc, ◌+◌, ◌-◌, ◌/◌, ◌^◌, ◌<◌, ◌≡◌, refl, sym, ap, ◌∙◌, Bool, true, false, not, List, [],
  ◌∷◌, ◌++◌, arith, ◌==◌, if◌then◌else◌, length, take, drop, replicate, append_assoc, length-append,
  take-append, drop-append, drop-drop,
}
use cileserver.Client.Commands.{from_little_endian, decode_info}
use cileserver.FileOps.Operations.{FileInfo}
use cileserver.Protocol.State.{little_endian, encode_info}

length-replicate : (n v : ℕ) → length (replicate n v) ≡ n
length-replicate zero v = refl
length-replicate (suc n) v = omega (arith, length-replicate n v)

length-little_endian : (k n : ℕ) → length (little_endian k n) ≡ k
unfolding little_endian
length-little_endian zero n = refl
length-little_endian (suc k) n = omega (arith, length-little_endian k (n / 256))

-- A number comes back from its bytes.
from_little_endian_lem : (k n : ℕ) → n < 256 ^ k → from_little_endian (little_endian k n) ≡ n
unfolding from_little_endian little_endian
from_little_endian_lem zero n h = omega arith
from_little_endian_lem (suc k) n h =
    let small : n / 256 < 256 ^ k = omega (arith, pow-suc 256 k) in
    omega (arith, from_little_endian_lem k (n / 256) small)

-- What an entry must be to come back from a `file_info_t`: its name fits with the NUL and has
-- none inside, and its numbers are of 64 bits.
pub record Encodable (info : FileInfo) : Type 0 where
  pub name_fits : length info.name < 256
  pub name_no_nul : NoByte 0 info.name
  pub size_fits : info.size < 2 ^ 64
  pub time_fits : info.modified_time < 2 ^ 64

abbrev pub AllEncodable : List FileInfo → Type 0
AllEncodable [] = Unit {0}
AllEncodable (info ∷ infos) = Encodable info × AllEncodable infos

module _ (info : FileInfo) (padding rest : Bytes) (e : Encodable info)
    (four : length padding ≡ 4) where
  -- The parts of an entry, with what follows it.
  abbrev times : Bytes
  times = little_endian 8 info.modified_time ++ rest

  abbrev flags : Bytes
  flags = little_endian 4 (if info.is_directory then 1 else 0) ++ (padding ++ times)

  abbrev sizes : Bytes
  sizes = little_endian 8 info.size ++ flags

  abbrev name_field : Bytes
  name_field = info.name ++ replicate (256 - length info.name) 0

  length-name_field : length name_field ≡ 256
  length-name_field = omega (
    arith,
    length-append info.name (replicate (256 - length info.name) 0),
    length-replicate (256 - length info.name) 0,
    e.name_fits,
  )

  entry_parts : encode_info padding info ++ rest ≡ name_field ++ sizes
  unfolding encode_info
  entry_parts = simp append_assoc

  drop_name : drop 256 (encode_info padding info ++ rest) ≡ sizes
  drop_name = ap (drop 256) entry_parts ∙ drop-append 256 name_field sizes (sym length-name_field)

  drop_size : drop 264 (encode_info padding info ++ rest) ≡ flags
  drop_size =
      sym (drop-drop 256 8 264 (encode_info padding info ++ rest) (omega arith))
      ∙ ap (drop 8) drop_name
      ∙ drop-append 8 (little_endian 8 info.size) flags (sym (length-little_endian 8 info.size))

  drop_flags : drop 272 (encode_info padding info ++ rest) ≡ times
  drop_flags =
      let directory = little_endian 4 (if info.is_directory then 1 else 0) in
      sym (drop-drop 264 8 272 (encode_info padding info ++ rest) (omega arith))
      ∙ ap (drop 8) (drop_size ∙ sym (append_assoc directory padding times))
      ∙ drop-append 8 (directory ++ padding) times (
          omega (
            arith,
            length-append directory padding,
            length-little_endian 4 (if info.is_directory then 1 else 0),
          ))

  pub drop_entry : drop 280 (encode_info padding info ++ rest) ≡ rest
  drop_entry =
      sym (drop-drop 272 8 280 (encode_info padding info ++ rest) (omega arith))
      ∙ ap (drop 8) drop_flags
      ∙ drop-append 8 (little_endian 8 info.modified_time) rest
          (sym (length-little_endian 8 info.modified_time))

  pub length-entry : length (encode_info padding info ++ rest) ≡ 280 + length rest
  length-entry =
      let directory = little_endian 4 (if info.is_directory then 1 else 0) in
      ap length entry_parts
      ∙ omega (
        arith,
        four,
        length-name_field,
        length-append name_field sizes,
        length-append (little_endian 8 info.size) flags,
        length-append directory (padding ++ times),
        length-append padding times,
        length-append (little_endian 8 info.modified_time) rest,
        length-little_endian 8 info.size,
        length-little_endian 4 (if info.is_directory then 1 else 0),
        length-little_endian 8 info.modified_time,
      )

  name_back : cstr (encode_info padding info ++ rest) ≡ info.name
  name_back =
      let k = 255 - length info.name in
      let zeros : 256 - length info.name ≡ suc k = omega (arith, e.name_fits) in
      ap cstr (
        entry_parts
        ∙ ap (λ j. (info.name ++ replicate j 0) ++ sizes) zeros
        ∙ append_assoc info.name (replicate (suc k) 0) sizes)
      ∙ cstr-append info.name (replicate k 0 ++ sizes) e.name_no_nul

  -- A number in a field.
  field_back :
      (k n : ℕ) (bytes later : Bytes)
      → bytes ≡ little_endian k n ++ later
      → n < 256 ^ k
      → from_little_endian (take k bytes) ≡ n
  field_back k n bytes later is small =
      ap from_little_endian
        (ap (take k) is ∙ take-append k (little_endian k n) later (sym (length-little_endian k n)))
      ∙ from_little_endian_lem k n small

  flag_small : (d : Bool) → (if d then 1 else 0) < 256 ^ 4
  flag_small true = omega arith
  flag_small false = omega arith

  flag_back : (d : Bool) → not ((if d then 1 else 0) == 0) ≡ d
  flag_back true = refl
  flag_back false = refl

  pub decode_info-encode_info : decode_info (encode_info padding info ++ rest) ≡ info
  unfolding decode_info
  decode_info-encode_info =
      let flag : ℕ = if info.is_directory then 1 else 0 in
      rw (name_back, decode_info)
        (rw (field_back 8 info.size _ flags drop_name (omega (arith, e.size_fits))) (
          rw (field_back 4 flag _ (padding ++ times) drop_size (flag_small info.is_directory)) (
            rw (flag_back info.is_directory) (
              rw (field_back 8 info.modified_time _ rest drop_flags (omega (arith, e.time_fits)))
                refl))))
