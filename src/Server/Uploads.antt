-- ===== src/Server/Uploads.antt =====
-- From the bytes of a client's PUT to the file: `handle_client` of src/server.c, then
-- `process_request` and `handle_put_streaming` of src/protocol.c.
use cileserver.Auth.{check_permission}
use cileserver.Base.{
  ℕ, ◌-◌, ◌^◌, ◌<◌, ◌≤◌, ◌≡◌, ap, ap₂, ◌∙◌, false, true, List, ◌++◌, some, arith, length, take,
  drop, length-take, length-drop, take-take-drop, drop-drop,
}
use cileserver.Base.CString.{Bytes, NoByte, codes}
use cileserver.FileOps.Resolve.{get_full_path}
use cileserver.Net.Reads.{flow}
use cileserver.Net.{ReadEvent}
use cileserver.Protocol.Request.{
  which_command, run_command, needs_login, process_request, max_path_length, initial_length,
  payload, data_length_of,
}
use cileserver.Protocol.State.{Env, World, reply}
use cileserver.Protocol.Streaming.{handle_put_streaming}
use cileserver.Os.{KeepsData, content_at}
use cileserver.Protocol.Upload.{handle_put_streaming-stores}
use cileserver.Server.Framing.{Carries, receive_request-Finds}
use cileserver.Server.Receive.{handle_client, payload_room, with_inbox}
use cileserver.Server.Requests.{
  memory, request_bytes, process_request-memory, path_of-memory, initial_data-memory,
  data_length_of-memory,
}
use cileserver.Wire.{cmd_put, resp_ok}

-- Who may upload has logged in.
put_allowed-needs_login :
    {Fs : Type 0} (env : Env Fs) (w : World Fs) (buffer : Bytes)
    → check_permission w.role cmd_put ≡ true
    → needs_login env w buffer ≡ false
unfolding check_permission needs_login
put_allowed-needs_login env w buffer h = ground arith

pub process_request-put :
    {Fs : Type 0} (env : Env Fs) (w : World Fs) (path body junk : Bytes) (data_len : ℕ)
    → length path < max_path_length
    → NoByte 0 path
    → data_len < 2 ^ 32
    → length body ≤ data_len
    → needs_login env w (memory cmd_put path data_len body junk) ≡ false
    → process_request env w
        (memory cmd_put path data_len body junk)
        (length (request_bytes cmd_put path data_len body junk))
      ≡ handle_put_streaming env w path body data_len w.role
unfolding which_command run_command
process_request-put env w path body junk data_len short no_nul dl le logged =
    process_request-memory cmd_put path data_len body junk env w (omega arith) short logged
    ∙ ap
        (λ p.
          handle_put_streaming env w p
            (take
              (initial_length (memory cmd_put path data_len body junk)
                (length (request_bytes cmd_put path data_len body junk)))
              (payload (memory cmd_put path data_len body junk)))
            (data_length_of (memory cmd_put path data_len body junk)) w.role)
        (path_of-memory cmd_put path data_len body junk (omega arith) no_nul)
    ∙ ap₂ (λ b n. handle_put_streaming env w path b n w.role)
        (initial_data-memory cmd_put path data_len body junk (omega arith) dl le)
        (data_length_of-memory cmd_put path data_len body junk dl)

-- A PUT that arrives on a connection, in whatever packets, ends with the announced bytes in the
-- file, no more and no fewer, a response that says so, and the rest of the stream left for the
-- next request. The role permits it, the path has no NUL and fits, the stream carries all the
-- data, the path resolves, the file can be opened, and the disk keeps its data.
pub handle_client-stores :
    {Fs : Type 0} (env : Env Fs) (w : World Fs) (path full_path body junk : Bytes) (opened_fs : Fs)
    (data_len : ℕ)
    → KeepsData env.os full_path
    → check_permission w.role cmd_put ≡ true
    → NoByte 0 path
    → length path < max_path_length
    → get_full_path env.os env.cfg w.fs path 1024 ≡ some full_path
    → env.os.open_write w.fs full_path ≡ some opened_fs
    → Carries cmd_put path data_len body w.conn.inbox
    → (disk : Fs) × (rest : List ReadEvent) × (handle_client env w junk
        ≡ reply
            (record w { fs = disk; conn = record w.conn { inbox = rest } })
            resp_ok
            (codes "File written successfully")
            25)
      × (content_at env.os disk full_path ≡ some (take data_len body))
      × (flow rest ≡ drop data_len body)
unfolding handle_client
handle_client-stores env w path full_path body junk opened_fs data_len d allowed no_nul short
      resolved opened c =
    let found = receive_request-Finds cmd_put path data_len body w.conn.inbox c in
    let room = payload_room (length path) data_len in
    let first = take room body in
    let missing = data_len - room in
    let w' = with_inbox w found.later in
    let stored =
      handle_put_streaming-stores env w' path first full_path opened_fs data_len w.role missing d
        allowed resolved opened (omega (arith, length-take room body, c.body_fits))
        found.clean_later
        (omega (arith, ap length found.flow_later, length-drop room body, c.body_fits)) in
    (
      stored.0,
      stored.1,
      rw (found.result, handle_client)
          (process_request-put env w' path first junk data_len short no_nul c.data_fits
              (omega (arith, length-take room body)) (put_allowed-needs_login env w' _ allowed)
            ∙ stored.2),
      stored.3
          ∙ ap some (
              ap (λ x. first ++ take missing x) found.flow_later
              ∙ take-take-drop room missing data_len body (omega arith)),
      stored.4
          ∙ ap (drop missing) found.flow_later
          ∙ drop-drop room missing data_len body (omega arith),
    )
