-- ===== src/EndToEnd/RoundTrip.antt =====
-- A file that goes through the server: `client_put_file` of src/client.c on one connection, then
-- `client_get_file` on another.
use cileserver.Auth.{check_permission, role_guest}
use cileserver.Base.CString.{Bytes}
use cileserver.Base.{
  ℕ, ◌^◌, ◌<◌, ◌≤◌, ◌≡◌, ◌≢◌, sym, ap, ◌∙◌, [], ◌∷◌, List, Option, some, none, true, success,
  length, subst,
}
use cileserver.Client.Downloads.{WritesAll}
use cileserver.Client.Room.{IsRoomy}
use cileserver.Client.Session.{Session, login_first}
use cileserver.Client.Steady.{IsSteady}
use cileserver.Client.Transfer.{client_get_file, client_put_file}
use cileserver.Client.{send_request}
use cileserver.EndToEnd.Login.{Account, Names, client_get_file-gets_login}
use cileserver.EndToEnd.Put.{client_put_file-stores}
use cileserver.FileOps.Resolve.{get_full_path}
use cileserver.Net.Reads.{flow, IsClean}
use cileserver.Net.{ReadEvent, arrived}
use cileserver.Os.{Os, Stream, KeepsData, content_at}
use cileserver.Protocol.Handlers.{welcome}
use cileserver.Protocol.State.{Env, World}
use cileserver.Server.Receive.{handle_client}
use cileserver.Wire.{cmd_get, cmd_put, response_header, resp_ok}

module _ {Fs Gs : Type 0} (os : Os Fs) (file_length : Fs → Bytes → Option ℕ) (env : Env Gs)
    (path full_path : Bytes) (n : Names env path full_path) where
  -- What one user uploads is what another, or the same, downloads: when `put` of the client has run
  -- on a connection of the server and `get` runs on another, the `get` succeeds, and the local file
  -- of the second client has exactly the content of the local file of the first. The users: the
  -- server's table has both names with their passwords, which are not empty, have fewer than 63
  -- bytes and no NUL; the role of the first permits PUT, that of the second permits GET and is not
  -- a guest's. The path: it is not empty, has fewer than 1024 bytes and no NUL, and does not end in
  -- a slash; it resolves to the file before the upload, and on every disk of the server that has
  -- the file, and `stat` then says that it is no directory and how long it is. The disks: the first
  -- client can read its file, which has the length that `fseek` gives, below 4 GiB; the server can
  -- open its file for writing, and its disk keeps all that is written there; the second client can
  -- open its local file, and its disk keeps what is written and is not full. The connections: the
  -- clients and the server's second connection have sent nothing yet; the writes of the clients and
  -- of the server's second connection find room; the server gets exactly what each client sends, in
  -- whatever packets, without an error; the second client gets what the server has sent without
  -- interruptions, header and text of the login each as a packet, and the next header within one
  -- packet. The second connection finds the disk as the first has left it, and the same users.
  pub client_get_file-client_put_file :
      (s s' : Session Fs) (w v : World Gs)
      (local_path local_path' first junk₁ junk₂ junk₃ junk₄ : Bytes) (file : Stream)
      (opened_fs : Gs) (es : List ReadEvent) (opened : Fs) (role role' : ℕ)
      → Account w.users s.username s.password role
      → check_permission role cmd_put ≡ true
      → Account w.users s'.username s'.password role'
      → check_permission role' cmd_get ≡ true
      → role' ≢ role_guest
      → os.open_read s.fs local_path ≡ some file
      → file_length s.fs local_path ≡ some (length file.content)
      → length file.content < 2 ^ 32
      → s.conn.sent ≡ []
      → IsRoomy s.conn.outbox
      → IsClean w.conn.inbox
      → flow w.conn.inbox ≡ (client_put_file os file_length s path local_path).1.conn.sent
      → get_full_path env.os env.cfg w.fs path 1024 ≡ some full_path
      → env.os.open_write w.fs full_path ≡ some opened_fs
      → v.fs ≡ (handle_client env (handle_client env w junk₁).1 junk₂).1.fs
      → v.users ≡ w.users
      → s'.conn.sent ≡ []
      → IsRoomy s'.conn.outbox
      → v.conn.sent ≡ []
      → v.conn.outbox ≡ []
      → IsClean v.conn.inbox
      → flow v.conn.inbox ≡ (send_request (login_first s').conn cmd_get path none 0).1.sent
      → s'.conn.inbox
        ≡ arrived (response_header resp_ok (length (welcome s'.username role')))
          ∷ arrived (welcome s'.username role')
          ∷ arrived first
          ∷ es
      → 5 ≤ length first
      → IsSteady es
      → flow s'.conn.inbox ≡ (handle_client env (handle_client env v junk₃).1 junk₄).1.conn.sent
      → os.open_write s'.fs local_path' ≡ some opened
      → KeepsData os local_path'
      → WritesAll os local_path'
      → (let r = client_get_file os s' path local_path' in
          (r.0 ≡ success) × (content_at os r.1.fs local_path' ≡ some file.content))
  client_get_file-client_put_file s s' w v local_path local_path' first junk₁ junk₂ junk₃ junk₄ file
        opened_fs es opened role role' a may_put a' may_get no_guest there size small fresh roomy
        clean arrives resolved opens same_fs same_users fresh' roomy' fresh_v room clean' asked
        inbox enough steady answered opens' d full =
      let stored =
        client_put_file-stores os file_length env s w path local_path full_path junk₁ junk₂ file
          opened_fs role a.name_set a.password_set a.name_short a.password_short a.name_no_nul
          a.password_no_nul n.no_nul n.short n.no_directory fresh roomy there size small clean
          arrives a.known may_put resolved opens n.keeps in
      let account : Account v.users s'.username s'.password role' =
        subst (λ users. Account users s'.username s'.password role') (sym same_users) a' in
      client_get_file-gets_login os env path full_path n s' v local_path' first file.content junk₃
        junk₄ es opened role' account may_get no_guest
        (ap (λ f. content_at env.os f full_path) same_fs ∙ stored.0) small fresh' roomy' fresh_v
        room clean' asked inbox enough steady answered opens' d full
