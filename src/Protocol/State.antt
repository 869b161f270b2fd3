-- ===== src/Protocol/State.antt =====
-- What the thread of one connection works on, and `send_response` of src/protocol.c.
use cileserver.Auth.{Users}
use cileserver.Base.{
  ℕ, zero, suc, ◌-◌, ◌/◌, ◌%◌, List, [], ◌∷◌, ◌++◌, Rc, success, failure, if◌then◌else◌, length,
  take, replicate,
}
use cileserver.Base.CString.{Bytes}
use cileserver.Config.{Config}
use cileserver.FileOps.Operations.{FileInfo}
use cileserver.Net.{Conn, write_all, write_once, on_conn}
use cileserver.Os.{Os}
use cileserver.Wire.{response_header}

-- What does not change while a request is handled. `padding` is the 4 bytes of stack between
-- `is_directory` and `modified_time` of a `file_info_t`, which nothing sets; they are taken to be
-- the same in all answers.
pub record Env (Fs : Type 0) : Type 0 where
  pub os : Os Fs
  pub cfg : Config
  pub padding : Bytes

-- What may change: the disk, the user table, the connection, and its entry of `client_roles`.
pub record World (Fs : Type 0) : Type 0 where
  pub fs : Fs
  pub users : Users
  pub conn : Conn
  pub role : ℕ

-- The header goes out by one `write`, and the data by a loop.
unfoldable pub send_response : Conn → ℕ → Bytes → ℕ → Rc × Conn
send_response c status body data_size =
    let (sent_header, c1) = on_conn c (write_once (response_header status data_size) c.outbox) in
    elim sent_header [
      | failure ↦ (failure, c1)
      | success ↦ on_conn c1 (write_all (take data_size body) c1.outbox)
    ]

module _ {Fs : Type 0} where
  -- `return send_response(client_fd, ...)`
  unfoldable pub reply : World Fs → ℕ → Bytes → ℕ → Rc × World Fs
  reply w status body data_size =
      let (rc, c) = send_response w.conn status body data_size in (rc, record w { conn = c })

-- An integer in the byte order of the machine.
unfoldable pub little_endian : ℕ → ℕ → Bytes
little_endian zero n = []
little_endian (suc k) n = (n % 256) ∷ little_endian k (n / 256)

-- `sizeof(file_info_t)` on a 64-bit machine: 256 + 8 + 4 + 4 + 8
abbrev pub file_info_size : ℕ
file_info_size = 280

-- The bytes of a `file_info_t`; `strncpy` has filled the name with zeros.
unfoldable pub encode_info : Bytes → FileInfo → Bytes
encode_info padding info =
    (info.name ++ replicate (256 - length info.name) 0)
    ++ (little_endian 8 info.size
        ++ (little_endian 4 (if info.is_directory then 1 else 0)
            ++ (padding ++ little_endian 8 info.modified_time)))

unfoldable pub encode_infos : Bytes → List FileInfo → Bytes
encode_infos padding [] = []
encode_infos padding (info ∷ infos) = encode_info padding info ++ encode_infos padding infos
