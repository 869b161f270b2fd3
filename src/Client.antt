-- ===== src/Client.antt =====
-- `send_request` and `receive_response` of src/client.c.
pub mod Session
pub mod Commands
pub mod Transfer
pub mod Main
pub mod Room
pub mod Requests
pub mod Bounds
pub mod Pending
pub mod Fuel
pub mod Loops
pub mod Prompts
pub mod Entry
pub mod Listing
pub mod Uploads
pub mod Steady
pub mod Downloads
use cileserver.Base.CString.{Bytes}
use cileserver.Base.{
  ℕ, ◌&&◌, true, [], ◌∷◌, ◌++◌, List, Option, none, some, Rc, success, failure, ltb, leb, ◌==◌,
  if◌then◌else◌, length, get_or, take,
}
use cileserver.Net.{Conn, ReadEvent, ReadResult, got, again, error, read, write_once, on_conn}
use cileserver.Wire.{message_header, u32_at, response_header_size, resp_ok, resp_auth_required}

-- The data, if there is some, goes out by one `write`.
unfoldable pub send_data : Conn → Option Bytes → ℕ → Rc × Conn
send_data c none data_size = (success, c)
send_data c (some bytes) data_size =
    if ltb 0 data_size then on_conn c (write_once (take data_size bytes) c.outbox) else (success, c)

-- One `write` for the header and one for the path.
unfoldable pub send_request : Conn → ℕ → Bytes → Option Bytes → ℕ → Rc × Conn
send_request c command path body data_size =
    let (sent_header, c1) =
      on_conn c (write_once (message_header command (length path) data_size) c.outbox) in
    elim sent_header [
      | failure ↦ (failure, c1)
      | success ↦
          let (sent_path, c2) = on_conn c1 (write_once path c1.outbox) in
          elim sent_path [ failure ↦ (failure, c2) | success ↦ send_data c2 body data_size ]
    ]

-- The result of `receive_response`: 0 with `*data_size` and the data, -2, or -1.
pub data Response : Type 0 where
  received : ℕ → Bytes → Response
  auth_required : Response
  failed : Response

-- One `read` that must give all it is asked for, and the events that are left. A `read` of no
-- bytes takes none.
unfoldable pub read_exact : ℕ → List ReadEvent → Option Bytes × List ReadEvent
read_exact n es = elim (read n es) [
  | again es' ↦ (none, es')
  | error es' ↦ (none, es')
  | got bytes es' ↦ ((if length bytes == n then some bytes else none), es')
]

-- The data of a response with RESP_OK, for a caller that has a buffer.
unfoldable pub receive_data : ℕ → ℕ → List ReadEvent → Response × List ReadEvent
receive_data buffer_size data_size es =
    if ltb 0 data_size
    then if ltb buffer_size data_size
      then (failed, es)
      else (let (bytes, es') = read_exact data_size es in
          elim bytes [
            | none ↦ (failed, es')
            | some received_bytes ↦ (received data_size received_bytes, es')
          ])
    else (received data_size [], es)

-- The message of an error is read and printed, if it fits.
unfoldable pub receive_error : ℕ → ℕ → List ReadEvent → Response × List ReadEvent
receive_error buffer_size data_size es =
    if ltb 0 data_size && ltb data_size buffer_size
    then (failed, (read_exact data_size es).1)
    else (failed, es)

-- `buffer` is not NULL.
unfoldable pub receive_response : ℕ → List ReadEvent → Response × List ReadEvent
receive_response buffer_size es =
    let (header, es') = read_exact response_header_size es in
    elim header [
      | none ↦ (failed, es')
      | some h ↦
          if get_or h 0 0 == resp_ok
          then receive_data buffer_size (u32_at h 1) es'
          else if get_or h 0 0 == resp_auth_required
          then (auth_required, es')
          else receive_error buffer_size (u32_at h 1) es'
    ]

-- With NULL the header is all that is read of a response, whatever its status.
unfoldable pub receive_header : List ReadEvent → Response × List ReadEvent
receive_header es =
    let (header, es') = read_exact response_header_size es in
    elim header [
      | none ↦ (failed, es')
      | some h ↦
          if get_or h 0 0 == resp_ok
          then (received (u32_at h 1) [], es')
          else if get_or h 0 0 == resp_auth_required
          then (auth_required, es')
          else (failed, es')
    ]
