-- ===== src/Protocol/Streaming.antt =====
-- `handle_get_streaming` and `handle_put_streaming` of src/protocol.c.
use cileserver.Auth.{check_permission}
use cileserver.Base.{
  ℕ, zero, suc, ◌+◌, ◌-◌, true, false, List, [], ◌∷◌, ◌++◌, none, some, Rc, success, failure, ltb,
  ◌==◌, if◌then◌else◌, length, take, drop,
}
use cileserver.Base.CString.{Bytes, codes}
use cileserver.FileOps.Operations.{FileInfo, get_file_info}
use cileserver.FileOps.Resolve.{get_full_path}
use cileserver.Net.{
  ReadEvent, ReadResult, WriteEvent, read, got, again, error, write_all, write_once, on_conn,
}
use cileserver.Os.{Os}
use cileserver.Protocol.State.{Env, World, reply}
use cileserver.Wire.{cmd_get, cmd_put, resp_ok, resp_error, response_header}

-- `BUFFER_SIZE`
abbrev pub buffer_size : ℕ
buffer_size = 4096

-- `while (sent < info.size)`: `content` is what the stream still holds. Each round sends a byte
-- or more, so a fuel above `size - sent` is enough.
unfoldable pub send_file : ℕ → ℕ → ℕ → Bytes → List WriteEvent → Rc × List WriteEvent × Bytes
send_file zero sent size content es = (success, es, [])
send_file (suc f) sent size content es = elim (ltb sent size) [
  | false ↦ (success, es, [])
  | true ↦ elim (take buffer_size content) [
    | [] ↦ (success, es, [])
    | b ∷ bs ↦
        let (rc, es', out) = write_all (b ∷ bs) es in
        elim rc [
          | failure ↦ (failure, es', out)
          | success ↦
              let (rc', es'', later) =
                send_file f (sent + length (b ∷ bs)) size (drop buffer_size content) es' in
              (rc', es'', out ++ later)
        ]
  ]
]

-- Enough rounds for the receiving loop of a PUT.
abbrev pub receive_fuel : ℕ → List ReadEvent → ℕ
receive_fuel remaining es = remaining + length es + 1

-- How the receiving loop of a PUT ends, with what is left to read and the disk.
pub data PutEnd (Fs : Type 0) : Type 0 where
  stopped : ℕ → Fs → List ReadEvent → PutEnd Fs
  broken : Fs → List ReadEvent → PutEnd Fs

module _ {Fs : Type 0} where
  -- The body of `while (remaining > 0)`, on what `read` returned; `rest` is the rounds that
  -- follow. What `fwrite` returns is not looked at.
  unfoldable pub receive_chunk :
      Os Fs → Bytes → ℕ → Fs → ReadResult → (ℕ → Fs → List ReadEvent → PutEnd Fs) → PutEnd Fs
  receive_chunk os path remaining fs (again es) rest = rest remaining fs es
  receive_chunk os path remaining fs (error es) rest = broken fs es
  receive_chunk os path remaining fs (got [] es) rest = stopped remaining fs es
  receive_chunk os path remaining fs (got (b ∷ bs) es) rest =
      rest (remaining - length (b ∷ bs)) (os.fwrite fs path (b ∷ bs)).0 es

  -- The loop; each round takes an event or lowers `remaining`.
  unfoldable pub receive_file : Os Fs → Bytes → ℕ → ℕ → Fs → List ReadEvent → PutEnd Fs
  receive_file os path zero remaining fs es = broken fs es
  receive_file os path (suc f) zero fs es = stopped 0 fs es
  receive_file os path (suc f) (suc n) fs es =
      receive_chunk os path (suc n) fs
        (read (if ltb (suc n) buffer_size then suc n else buffer_size) es) (receive_file os path f)

  -- From the point where the header of the response is sent.
  unfoldable pub send_found : Env Fs → World Fs → Bytes → FileInfo → Rc × World Fs
  send_found env w path info =
      let (rc, c1) =
        on_conn w.conn (write_once (response_header resp_ok info.size) w.conn.outbox) in
      let w1 = record w { conn = c1 } in
      elim rc [
        | failure ↦ (failure, w1)
        | success ↦ elim (get_full_path env.os env.cfg w.fs path 1024) [
          | none ↦ (failure, w1)
          | some resolved_path ↦ elim (env.os.open_read w.fs resolved_path) [
            | none ↦ (failure, w1)
            | some file ↦
                let (rc', c2) =
                  on_conn c1 (send_file (suc info.size) 0 info.size file.content c1.outbox) in
                (rc', record w { conn = c2 })
          ]
        ]
      ]

  unfoldable pub handle_get_streaming : Env Fs → World Fs → Bytes → ℕ → Rc × World Fs
  handle_get_streaming env w path user_role =
      if check_permission user_role cmd_get
      then (elim (get_file_info env.os env.cfg w.fs path) [
        | none ↦ reply w resp_error (codes "Failed to read file") 19
        | some info ↦
            if info.is_directory
            then reply w resp_error (codes "Failed to read file") 19
            else send_found env w path info
      ])
      else reply w resp_error (codes "Permission denied") 17

  -- `if (initial_len > 0) fwrite(initial_data, 1, initial_len, f);`
  unfoldable pub write_initial : Os Fs → Bytes → Fs → Bytes → Fs
  write_initial os full_path opened initial_data =
      if ltb 0 (length initial_data) then (os.fwrite opened full_path initial_data).0 else opened

  -- Behind the loop of a PUT.
  unfoldable pub finish_put : World Fs → PutEnd Fs → Rc × World Fs
  finish_put w (broken fs' es) =
      (failure, record w { fs = fs'; conn = record w.conn { inbox = es } })
  finish_put w (stopped left fs' es) =
      let w' = record w { fs = fs'; conn = record w.conn { inbox = es } } in
      if left == 0 then reply w' resp_ok (codes "File written successfully") 25 else (failure, w')

  -- From the point where the file has been opened, with the disk that `fopen` leaves.
  unfoldable pub store_opened : Env Fs → World Fs → Bytes → Fs → Bytes → ℕ → Rc × World Fs
  store_opened env w full_path opened initial_data total_len =
      let remaining = total_len - length initial_data in
      finish_put w (
        receive_file env.os full_path (receive_fuel remaining w.conn.inbox) remaining
          (write_initial env.os full_path opened initial_data) w.conn.inbox)

  -- The initial data is what the request's buffer holds of it, at most `total_len` bytes.
  unfoldable pub handle_put_streaming : Env Fs → World Fs → Bytes → Bytes → ℕ → ℕ → Rc × World Fs
  handle_put_streaming env w path initial_data total_len user_role =
      if check_permission user_role cmd_put
      then (elim (get_full_path env.os env.cfg w.fs path 1024) [
        | none ↦ reply w resp_error (codes "Invalid path") 12
        | some full_path ↦ elim (env.os.open_write w.fs full_path) [
          | none ↦ reply w resp_error (codes "Failed to write file") 20
          | some opened ↦ store_opened env w full_path opened initial_data total_len
        ]
      ])
      else reply w resp_error (codes "Permission denied") 17
