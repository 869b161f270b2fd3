-- ===== src/Wire.antt =====
-- include/protocol.h and the packed headers of src/protocol.c and src/client.c. Multi-byte
-- fields go over the wire in network byte order; `size_t` lengths are cut to the field's width.
use cileserver.Base.{ℕ, ◌+◌, ◌*◌, ◌/◌, ◌%◌, ◌^◌, [], ◌∷◌, ◌++◌, get_or}
use cileserver.Base.CString.{Bytes}

abbrev pub cmd_list : ℕ
cmd_list = 0x01

abbrev pub cmd_get : ℕ
cmd_get = 0x02

abbrev pub cmd_put : ℕ
cmd_put = 0x03

abbrev pub cmd_delete : ℕ
cmd_delete = 0x04

abbrev pub cmd_mkdir : ℕ
cmd_mkdir = 0x05

abbrev pub cmd_info : ℕ
cmd_info = 0x06

abbrev pub cmd_auth : ℕ
cmd_auth = 0x07

abbrev pub cmd_logout : ℕ
cmd_logout = 0x08

abbrev pub resp_ok : ℕ
resp_ok = 0x00

abbrev pub resp_error : ℕ
resp_error = 0x01

abbrev pub resp_auth_required : ℕ
resp_auth_required = 0x02

-- `htons` and `htonl`: the bytes as they are sent.
abbrev pub be16 : ℕ → Bytes
be16 n = (n / 256 % 256) ∷ (n % 256) ∷ []

abbrev pub be32 : ℕ → Bytes
be32 n = (n / 2 ^ 24 % 256) ∷ (n / 2 ^ 16 % 256) ∷ (n / 256 % 256) ∷ (n % 256) ∷ []

-- `ntohs` and `ntohl` of the field at an offset.
abbrev pub u16_at : Bytes → ℕ → ℕ
u16_at buffer i = get_or buffer i 0 * 256 + get_or buffer (i + 1) 0

abbrev pub u32_at : Bytes → ℕ → ℕ
u32_at buffer i =
    get_or buffer i 0 * 2 ^ 24
    + get_or buffer (i + 1) 0 * 2 ^ 16
    + get_or buffer (i + 2) 0 * 256
    + get_or buffer (i + 3) 0

-- `sizeof(message_header_t)` and `sizeof(response_header_t)`
abbrev pub message_header_size : ℕ
message_header_size = 7

abbrev pub response_header_size : ℕ
response_header_size = 5

-- The request header that `send_request` of src/client.c builds.
unfoldable pub message_header : ℕ → ℕ → ℕ → Bytes
message_header command path_len data_size = (command % 256) ∷ (be16 path_len ++ be32 data_size)

-- The response header that `send_response` of src/protocol.c builds.
unfoldable pub response_header : ℕ → ℕ → Bytes
response_header status data_size = (status % 256) ∷ be32 data_size
