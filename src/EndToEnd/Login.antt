-- ===== src/EndToEnd/Login.antt =====
-- A download by a user who logs in on the same connection, from the file on the server's disk to
-- the file that `client_get_file` of src/client.c writes.
use cileserver.Auth.{Users, authenticate_user, check_permission, role_guest}
use cileserver.Base.CString.{Bytes, NoByte, codes}
use cileserver.Base.Decimal.{print_int}
use cileserver.Base.{
  ℕ, ◌^◌, ◌<◌, ◌≤◌, ◌≡◌, ◌≢◌, refl, sym, ap, ap₂, ◌∙◌, true, false, inr, [], ◌∷◌, ◌++◌, List, some,
  none, success, arith, length, append_assoc, append_cancel, length-take, take_all, subst,
}
use cileserver.Client.Downloads.{WritesAll, download_from-saves}
use cileserver.Client.Room.{IsRoomy, send_request-Sent}
use cileserver.Client.Session.{Session, is_set, login_first}
use cileserver.Client.Steady.{IsSteady}
use cileserver.Client.Transfer.{client_get_file, ends_with_slash}
use cileserver.Client.Uploads.{auth_request, login_first-SentOn, login_first-inbox}
use cileserver.Client.{send_request}
use cileserver.FileOps.Operations.{
  FileInfo, get_file_info, full_path_of, is_path_valid, file_info, file_name,
}
use cileserver.FileOps.Resolve.{get_full_path}
use cileserver.Net.Reads.{flow, IsClean}
use cileserver.Net.Sends.{IsWritable}
use cileserver.Net.{ReadEvent, arrived, write_once}
use cileserver.Os.{Os, Stat, KeepsData, content_at, content_at-cases}
use cileserver.Protocol.Download.{handle_get_streaming-sends}
use cileserver.Protocol.Handlers.{welcome}
use cileserver.Protocol.Request.{max_path_length}
use cileserver.Protocol.Responses.{whole_response}
use cileserver.Protocol.State.{Env, World}
use cileserver.Server.Downloads.{handle_client-get}
use cileserver.Server.Logins.{handle_client-LoggedIn, handle_client-welcomes}
use cileserver.Server.Receive.{handle_client, with_inbox}
use cileserver.Wire.{cmd_get, message_header, response_header, resp_ok}

-- Credentials that fit the fields of an AUTH request, of a user whom the server knows.
pub record Account (users : Users) (username password : Bytes) (role : ℕ) : Type 0 where
  pub name_set : is_set username ≡ true
  pub password_set : is_set password ≡ true
  pub name_short : length username < 63
  pub password_short : length password < 63
  pub name_no_nul : NoByte 0 username
  pub password_no_nul : NoByte 0 password
  pub known : authenticate_user username password users ≡ some role

-- A path of requests that names a file of the server: on every disk that has the file the path
-- resolves to it, and `stat` gives its size.
pub record Names {Gs : Type 0} (env : Env Gs) (path full_path : Bytes) : Type 0 where
  pub not_empty : is_path_valid path ≡ true
  pub short : length path < max_path_length
  pub no_nul : NoByte 0 path
  pub no_directory : ends_with_slash path ≡ false
  pub keeps : KeepsData env.os full_path
  pub resolves :
      (fs : Gs) (bytes : Bytes) (out_size : ℕ)
      → content_at env.os fs full_path ≡ some bytes
      → 1024 ≤ out_size
      → get_full_path env.os env.cfg fs path out_size ≡ some full_path
  pub measured :
      (fs : Gs) (bytes : Bytes)
      → content_at env.os fs full_path ≡ some bytes
      → (st : Stat) × (env.os.stat fs full_path ≡ some st)
        × (st.st_size ≡ length bytes)
        × (st.is_dir ≡ false)

-- The header of an answer with that data.
abbrev header_of : Bytes → Bytes
header_of text = response_header resp_ok (length text)

welcome-fits :
    (username : Bytes) (role : ℕ)
    → (0 < length (welcome username role)) × (length (welcome username role) ≤ 4096)
unfolding welcome
welcome-fits username role =
    let behind = username ++ (codes " (role " ++ (print_int role ++ codes ")")) in
    let e = length-take 63 (codes "Authenticated as " ++ behind) in
    (omega (arith, e), omega (arith, e))

module _ {Gs : Type 0} (env : Env Gs) (path full_path : Bytes) (n : Names env path full_path) where
  -- What the server knows of a file that is there.
  Names-get_file_info :
      (fs : Gs) (bytes : Bytes)
      → content_at env.os fs full_path ≡ some bytes
      → (info : FileInfo) × (get_file_info env.os env.cfg fs path ≡ some info)
        × (info.is_directory ≡ false)
        × (info.size ≡ length bytes)
  unfolding get_file_info full_path_of file_info
  Names-get_file_info fs bytes e =
      let (st, there, size, plain) = n.measured fs bytes e in
      (
        file_info (file_name path) st,
        rw (n.not_empty, get_file_info)
            (rw (n.resolves fs bytes 2048 e (omega arith)) (rw there refl)),
        plain,
        size,
      )

  -- The answer to a GET of it, on a connection for which the kernel always has room.
  pub handle_client-sends :
      (w : World Gs) (junk bytes : Bytes)
      → content_at env.os w.fs full_path ≡ some bytes
      → check_permission w.role cmd_get ≡ true
      → w.role ≢ role_guest
      → w.conn.outbox ≡ []
      → IsClean w.conn.inbox
      → flow w.conn.inbox ≡ message_header cmd_get (length path) 0 ++ path
      → (handle_client env w junk).1.conn.sent
        ≡ w.conn.sent ++ (response_header resp_ok (length bytes) ++ bytes)
  unfolding write_once
  handle_client-sends w junk bytes e allowed known room clean asked =
      let (info, found, plain, size) = Names-get_file_info w.fs bytes e in
      let (file, opened, same) = content_at-cases env.os w.fs full_path bytes e in
      let (later, handled) =
        handle_client-get env path junk n.short n.no_nul w (inr known) clean asked in
      let writable : IsWritable w.conn.outbox = subst IsWritable (sym room) tt in
      let header : (write_once (response_header resp_ok info.size) w.conn.outbox).0 ≡ success =
        ap (λ o. (write_once (response_header resp_ok info.size) o).0) room in
      let (done, bytes_sent) =
        handle_get_streaming-sends env (with_inbox w later) path full_path info file w.role allowed
          found plain (n.resolves w.fs bytes 1024 e (omega arith)) opened
          (ap length same ∙ sym size) writable header in
      ap (λ r. r.1.conn.sent) handled
      ∙ bytes_sent
      ∙ ap₂ (λ k x. w.conn.sent ++ (response_header resp_ok k ++ x)) size same

module _ {Fs Gs : Type 0} (os : Os Fs) (env : Env Gs) (path full_path : Bytes)
    (n : Names env path full_path) where
  -- A user who runs `get` of the client with the credentials set, and whose role permits GET, ends
  -- with exactly the content of the server's file in the local file, and the client says so. The
  -- file is below 4 GiB; the connection is new on both sides and the kernels have room; the
  -- requests arrive without an error; the answers come to the client without interruptions, the
  -- header and the text of the login and the header of the file each whole in a packet; the
  -- client's disk keeps its data and is not full.
  pub client_get_file-gets_login :
      (s : Session Fs) (w : World Gs) (local_path first content junk junk' : Bytes)
      (es : List ReadEvent) (opened : Fs) (role : ℕ)
      → Account w.users s.username s.password role
      → check_permission role cmd_get ≡ true
      → role ≢ role_guest
      → content_at env.os w.fs full_path ≡ some content
      → length content < 2 ^ 32
      → s.conn.sent ≡ []
      → IsRoomy s.conn.outbox
      → w.conn.sent ≡ []
      → w.conn.outbox ≡ []
      → IsClean w.conn.inbox
      → flow w.conn.inbox ≡ (send_request (login_first s).conn cmd_get path none 0).1.sent
      → s.conn.inbox
        ≡ arrived (response_header resp_ok (length (welcome s.username role)))
          ∷ arrived (welcome s.username role)
          ∷ arrived first
          ∷ es
      → 5 ≤ length first
      → IsSteady es
      → flow s.conn.inbox ≡ (handle_client env (handle_client env w junk).1 junk').1.conn.sent
      → os.open_write s.fs local_path ≡ some opened
      → KeepsData os local_path
      → WritesAll os local_path
      → (let r = client_get_file os s path local_path in
          (r.0 ≡ success) × (content_at os r.1.fs local_path ≡ some content))
  unfolding client_get_file
  client_get_file-gets_login s w local_path first content junk junk' es opened role a allowed
        no_guest there small fresh roomy fresh_w room clean asked inbox enough steady answered opens
        d full =
      let request = message_header cmd_get (length path) 0 ++ path in
      let auth = auth_request s.username s.password s.stack in
      let text = welcome s.username role in
      let greeting = whole_response resp_ok text (length text) in
      let login = login_first-SentOn s a.name_set a.password_set roomy in
      let (done, sent) =
        send_request-Sent (login_first s).conn cmd_get path (omega (arith, n.short))
          login.conn_sent.roomy 0 in
      let arrives : flow w.conn.inbox ≡ auth ++ request =
        asked
        ∙ sent.sent
        ∙ ap (λ x. x ++ request) (login.conn_sent.sent ∙ ap (λ x. x ++ auth) fresh) in
      let logged =
        handle_client-LoggedIn env w s.username s.password s.stack junk request role a.name_short
          a.name_no_nul a.password_short a.password_no_nul a.known clean arrives in
      let (welcomed, room') =
        handle_client-welcomes env w s.username s.password s.stack junk request role a.name_short
          a.name_no_nul a.password_short a.password_no_nul a.known clean arrives room in
      let w1 = (handle_client env w junk).1 in
      let sends =
        handle_client-sends env path full_path n w1 junk' content
          (ap (λ f. content_at env.os f full_path) logged.same_fs ∙ there)
          (ap (λ r. check_permission r cmd_get) logged.has_role ∙ allowed)
          (λ e. no_guest (sym logged.has_role ∙ e)) room' logged.clean_later logged.flow_later in
      let answer = response_header resp_ok (length content) ++ content in
      let whole : flow s.conn.inbox ≡ greeting ++ answer =
        answered ∙ sends ∙ ap (λ x. x ++ answer) (welcomed ∙ ap (λ x. x ++ greeting) fresh_w) in
      let behind : flow (arrived first ∷ es) ≡ answer =
        append_cancel (header_of text ++ text) (flow (arrived first ∷ es)) answer (
          append_assoc (header_of text) text (flow (arrived first ∷ es))
          ∙ sym (ap flow inbox)
          ∙ whole
          ∙ ap (λ x. (header_of text ++ x) ++ answer)
              (take_all (length text) text (omega arith))) in
      let (filled, fits) = welcome-fits s.username role in
      let at_command : (login_first s).conn.inbox ≡ arrived first ∷ es =
        login_first-inbox s text (arrived first ∷ es) a.name_set a.password_set roomy inbox filled
          fits in
      download_from-saves os (login_first s) path local_path first content es opened d full
        (omega (arith, n.short)) login.conn_sent.roomy at_command enough steady
        (ap flow at_command ∙ behind) small
        (ap (λ f. os.open_write f local_path) login.same_fs ∙ opens)
