-- ===== src/Client/Listing.antt =====
-- What `client_list_directory` of src/client.c makes of the entries that `handle_list_command` of
-- src/protocol.c sends, and how much of an answer fits its buffer.
use cileserver.Base.CString.{Bytes}
use cileserver.Base.{
  ◌*◌, ◌/◌, ◌≤◌, ◌<◌, ◌≡◌, refl, ap, ap₂, ◌∙◌, List, [], ◌∷◌, arith, length, subst,
}
use cileserver.Client.Commands.{decode_infos, num_entries}
use cileserver.Client.Requests.{receive_response_reads}
use cileserver.Client.Session.{client_buffer}
use cileserver.Client.{received, receive_response}
use cileserver.FileOps.Operations.{FileInfo}
use cileserver.Net.{ReadEvent, arrived}
use cileserver.Protocol.State.{encode_infos, file_info_size}
use cileserver.Wire.{response_header, resp_ok}
use cileserver.Client.Entry.{AllEncodable, decode_info-encode_info, drop_entry, length-entry}

-- The entries of an answer come back as they were.
decode_infos-encode_infos :
    (infos : List FileInfo) (padding : Bytes)
    → AllEncodable infos
    → length padding ≡ 4
    → decode_infos (length infos) (encode_infos padding infos) ≡ infos
unfolding decode_infos encode_infos
decode_infos-encode_infos [] padding e four = refl
decode_infos-encode_infos (info ∷ infos) padding e four =
    let rest = encode_infos padding infos in
    ap₂ ◌∷◌ (decode_info-encode_info info padding rest e.0 four) (
      ap (decode_infos (length infos)) (drop_entry info padding rest e.0 four)
      ∙ decode_infos-encode_infos infos padding e.1 four)

length-encode_infos :
    (infos : List FileInfo) (padding : Bytes)
    → AllEncodable infos
    → length padding ≡ 4
    → length (encode_infos padding infos) ≡ length infos * file_info_size
unfolding encode_infos
length-encode_infos [] padding e four = refl
length-encode_infos (info ∷ infos) padding e four = omega (
  arith,
  length-entry info padding (encode_infos padding infos) e.0 four,
  length-encode_infos infos padding e.1 four,
)

-- A listing of 1 to 14 entries that `handle_list_command` answers with, and whose header and data
-- each arrive as one packet, comes back from the client's buffer as the same entries, with names
-- that fit and have no NUL inside, and sizes and times of 64 bits.
pub receive_listing :
    (infos : List FileInfo) (padding : Bytes) (es : List ReadEvent)
    → AllEncodable infos
    → length padding ≡ 4
    → 0 < length infos
    → length infos ≤ 14
    → (let n = length infos * file_info_size in
        let bytes = encode_infos padding infos in
        (receive_response client_buffer (arrived (response_header resp_ok n) ∷ arrived bytes ∷ es)
          ≡ (received n bytes, es))
        × (decode_infos (num_entries n) bytes ≡ infos))
unfolding num_entries
receive_listing infos padding es e four some_entries few =
    let bytes = encode_infos padding infos in
    let size : length bytes ≡ length infos * file_info_size =
      length-encode_infos infos padding e four in
    let count : length infos * file_info_size / file_info_size ≡ length infos = omega arith in
    (
      subst
          (λ n.
            receive_response client_buffer
              (arrived (response_header resp_ok n) ∷ arrived bytes ∷ es)
            ≡ (received n bytes, es))
          size
          (receive_response_reads client_buffer bytes es (omega arith) (omega arith) (omega arith)),
      ap (λ n. decode_infos n bytes) count ∙ decode_infos-encode_infos infos padding e four,
    )
