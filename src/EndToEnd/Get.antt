-- ===== src/EndToEnd/Get.antt =====
-- A download, from the file on the server's disk to the file that `client_get_file` of
-- src/client.c writes.
use cileserver.Auth.{check_permission}
use cileserver.Base.CString.{Bytes, NoByte}
use cileserver.Base.{
  ◌^◌, ◌<◌, ◌≤◌, ◌≡◌, sym, ap, ap₂, ◌∙◌, false, [], ◌∷◌, ◌++◌, List, some, success, arith, length,
  true, none,
}
use cileserver.Client.Downloads.{WritesAll}
use cileserver.Client.Steady.{IsSteady}
use cileserver.Client.Room.{IsRoomy, send_request-Sent}
use cileserver.Client.Session.{Session, is_set}
use cileserver.Client.Transfer.{client_get_file}
use cileserver.Client.{send_request}
use cileserver.FileOps.Operations.{FileInfo, get_file_info}
use cileserver.FileOps.Resolve.{get_full_path}
use cileserver.Net.Reads.{flow, IsClean}
use cileserver.Net.Sends.{IsWritable}
use cileserver.Net.{ReadEvent, arrived, write_once}
use cileserver.Os.{Os, Stream, KeepsData, content_at}
use cileserver.Protocol.Download.{handle_get_streaming-sends}
use cileserver.Protocol.Request.{max_path_length}
use cileserver.Protocol.State.{Env, World}
use cileserver.Server.Receive.{handle_client, with_inbox}
use cileserver.Wire.{cmd_get, message_header, response_header, resp_ok}
use cileserver.Server.Downloads.{handle_client-get}
use cileserver.Client.Uploads.{login_first_missing}
use cileserver.Base.{inl}
use cileserver.Client.Downloads.{download_from-saves}
use cileserver.Client.Transfer.{download_from}

module _ {Fs Gs : Type 0} (os : Os Fs) (env : Env Gs) where
  -- Somebody who runs `get` of the client without credentials, over a server without
  -- authentication, ends with exactly the content of the server's file in the local file, and the
  -- client says so, if the file is found, is as long as `stat` says and below 4 GiB, the role
  -- permits GET, the path has fewer than 1024 bytes and no NUL, and the request arrives without an error. The connection is new on both sides,
  -- no write of the server fails and its header goes out at once, the kernel has room for the
  -- client's writes, and the answer comes to the client without interruptions and with its header
  -- whole in the first packet; the client's disk keeps its data and is not full.
  pub client_get_file-gets :
      (s : Session Fs) (w : World Gs) (path local_path full_path junk first : Bytes)
      (es : List ReadEvent) (opened : Fs) (info : FileInfo) (file : Stream)
      → is_set s.username ≡ false
      → env.cfg.enable_auth ≡ 0
      → length path < max_path_length
      → NoByte 0 path
      → s.conn.sent ≡ []
      → IsRoomy s.conn.outbox
      → IsClean w.conn.inbox
      → flow w.conn.inbox ≡ (send_request s.conn cmd_get path none 0).1.sent
      → check_permission w.role cmd_get ≡ true
      → get_file_info env.os env.cfg w.fs path ≡ some info
      → info.is_directory ≡ false
      → get_full_path env.os env.cfg w.fs path 1024 ≡ some full_path
      → env.os.open_read w.fs full_path ≡ some file
      → length file.content ≡ info.size
      → length file.content < 2 ^ 32
      → w.conn.sent ≡ []
      → IsWritable w.conn.outbox
      → (write_once (response_header resp_ok info.size) w.conn.outbox).0 ≡ success
      → s.conn.inbox ≡ arrived first ∷ es
      → 5 ≤ length first
      → IsSteady es
      → flow s.conn.inbox ≡ (handle_client env w junk).1.conn.sent
      → os.open_write s.fs local_path ≡ some opened
      → KeepsData os local_path
      → WritesAll os local_path
      → (let r = client_get_file os s path local_path in
          (r.0 ≡ success) × (content_at os r.1.fs local_path ≡ some file.content))
  unfolding client_get_file
  client_get_file-gets s w path local_path full_path junk first es opened info file guest no_auth
        short no_nul fresh roomy clean asked allowed found plain resolved opens_remote size small
        fresh_w writable header inbox enough steady answered opens d full =
      let text = message_header cmd_get (length path) 0 ++ path in
      let asked_for : flow w.conn.inbox ≡ text =
        asked
        ∙ (send_request-Sent s.conn cmd_get path (omega arith) roomy 0).1.sent
        ∙ ap (λ x. x ++ text) fresh in
      let (later, handled) =
        handle_client-get env path junk short no_nul w (inl no_auth) clean asked_for in
      let (done, bytes) =
        handle_get_streaming-sends env (with_inbox w later) path full_path info file w.role allowed
          found plain resolved opens_remote size writable header in
      let arrives : flow s.conn.inbox
          ≡ response_header resp_ok (length file.content) ++ file.content =
        answered
        ∙ ap (λ r. r.1.conn.sent) handled
        ∙ bytes
        ∙ ap₂ (λ x n. x ++ (response_header resp_ok n ++ file.content)) fresh_w (sym size) in
      let same : client_get_file os s path local_path ≡ download_from os s path local_path =
        ap (λ x. download_from os x path local_path) (login_first_missing s guest) in
      rw same (
        download_from-saves os s path local_path first file.content es opened d full (omega arith)
          roomy inbox enough steady arrives small opens)
