-- ===== src/Server/Receive.antt =====
-- `handle_client` of src/server.c, and the loop of `client_handler`.
use cileserver.Base.{
  ℕ, zero, suc, ◌+◌, ◌-◌, List, [], ◌++◌, Rc, success, failure, ltb, if◌then◌else◌, length, min,
}
use cileserver.Base.CString.{Bytes}
use cileserver.Net.{ReadEvent, Filled, filled, cut, endless, fill, fill_fuel}
use cileserver.Protocol.Request.{process_request}
use cileserver.Protocol.State.{Env, World}
use cileserver.Protocol.Streaming.{buffer_size}
use cileserver.Wire.{u16_at, u32_at, message_header_size}

-- A request as it lies in the buffer, or a connection that is given up, with the events left.
pub data Received : Type 0 where
  request : Bytes → List ReadEvent → Received
  dropped : List ReadEvent → Received

-- `fill` with as much fuel as it needs: it is never `endless`.
abbrev pub fill_bytes : ℕ → List ReadEvent → Filled
fill_bytes n es = fill (fill_fuel n es) n es

-- `to_read_payload`
abbrev pub payload_room : ℕ → ℕ → ℕ
payload_room path_length data_length =
    min data_length (buffer_size - (message_header_size + path_length))

-- The payload, behind the header and the path.
unfoldable pub receive_payload : Bytes → Bytes → List ReadEvent → Received
receive_payload header path es =
    elim (fill_bytes (payload_room (u16_at header 1) (u32_at header 3)) es) [
      | endless ↦ dropped []
      | cut es' ↦ dropped es'
      | filled body es' ↦ request (header ++ (path ++ body)) es'
    ]

-- The path, behind the header.
unfoldable pub receive_path : Bytes → List ReadEvent → Received
receive_path header es =
    if ltb buffer_size (message_header_size + u16_at header 1)
    then dropped es
    else (elim (fill_bytes (u16_at header 1) es) [
      | endless ↦ dropped []
      | cut es' ↦ dropped es'
      | filled path es' ↦ receive_payload header path es'
    ])

unfoldable pub receive_request : List ReadEvent → Received
receive_request es = elim (fill_bytes message_header_size es) [
  | endless ↦ dropped []
  | cut es' ↦ dropped es'
  | filled header es' ↦ receive_path header es'
]

-- The connection after some of its events.
abbrev pub with_inbox : {Fs : Type 0} → World Fs → List ReadEvent → World Fs
with_inbox w es = record w { conn = record w.conn { inbox = es } }

module _ {Fs : Type 0} (env : Env Fs) where
  -- `junk` is what the buffer holds behind the request.
  unfoldable pub handle_client : World Fs → Bytes → Rc × World Fs
  handle_client w junk = elim (receive_request w.conn.inbox) [
    | dropped es ↦ (failure, with_inbox w es)
    | request bytes es ↦ process_request env (with_inbox w es) (bytes ++ junk) (length bytes)
  ]

  -- The loop of `client_handler`, for a number of requests at most.
  unfoldable pub serve : ℕ → World Fs → Bytes → World Fs
  serve zero w junk = w
  serve (suc n) w junk =
      let (rc, w') = handle_client w junk in
      let rest = serve n w' junk in elim rc [ failure ↦ w' | success ↦ rest ]
