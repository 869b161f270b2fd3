-- ===== src/Client/Uploads.antt =====
-- What the commands of src/client.c put on the wire, whatever the server answers meanwhile.
use cileserver.Base.CString.{Bytes}
use cileserver.Base.{
  ℕ, suc, ◌≤◌, ◌≡◌, refl, ap, ◌∙◌, [], ◌∷◌, ◌++◌, Option, some, none, true, false, success, arith,
  length, length-append, length-take, take, subst, get_or, replicate,
}
use cileserver.Client.Room.{
  IsRoomy, Sent, Sent-trans, on_conn-Sent, upload-Goes, send_request-Sent, send_request-Sent_data,
}
use cileserver.Client.Session.{
  Session, auth_field, auth_message, send, receive, print_line, show_success, is_set, login_first,
  client_authenticate,
}
use cileserver.Client.Transfer.{upload, show_upload, upload_from, client_put_file, ends_with_slash}
use cileserver.Client.{Response, received, auth_required, failed, send_request}
use cileserver.Net.{Conn, on_conn}
use cileserver.Os.{Os, Stream}
use cileserver.Client.Requests.{receive_response_reads}
use cileserver.Net.{ReadEvent, arrived}
use cileserver.Base.{List, ◌<◌}
use cileserver.Client.{receive_response}
use cileserver.Client.Room.{send_request-inbox}
use cileserver.Client.Session.{client_buffer}
use cileserver.Wire.{response_header, resp_ok, message_header, cmd_auth, cmd_put}

pub length-auth_field : (text : Bytes) (last : ℕ) → length (auth_field text last) ≡ 64
unfolding auth_field
length-auth_field text last = omega (
  arith,
  length-append (take 63 (text ++ replicate 63 0)) (last ∷ []),
  length-take 63 (text ++ replicate 63 0),
  length-append text (replicate 63 0),
)

pub length-auth_message :
    (username password stack : Bytes) → length (auth_message username password stack) ≡ 128
unfolding auth_message
length-auth_message username password stack = omega (
  arith,
  length-append (auth_field username (get_or stack 0 0)) (auth_field password (get_or stack 1 0)),
  length-auth_field username (get_or stack 0 0),
  length-auth_field password (get_or stack 1 0),
)

-- The AUTH request on the wire.
abbrev pub auth_request : Bytes → Bytes → Bytes → Bytes
auth_request username password stack =
    message_header cmd_auth 0 128 ++ auth_message username password stack

auth_request-Sent :
    (c : Conn) (username password stack : Bytes)
    → IsRoomy c.outbox
    → (let sent = send_request c cmd_auth [] (some (auth_message username password stack)) 128 in
        (sent.0 ≡ success) × Sent c (auth_request username password stack) sent.1)
auth_request-Sent c username password stack roomy =
    let body = auth_message username password stack in
    let size : length body ≡ 128 = length-auth_message username password stack in
    subst
      (λ n.
        ((send_request c cmd_auth [] (some body) n).0 ≡ success)
        × Sent c (message_header cmd_auth 0 n ++ body) (send_request c cmd_auth [] (some body) n).1)
      size
      (send_request-Sent_data c cmd_auth [] (omega arith) roomy body (omega arith) (omega arith))

-- Without a name the commands begin with no login.
pub login_first_missing :
    {Fs : Type 0} (s : Session Fs) → is_set s.username ≡ false → login_first s ≡ s
unfolding login_first
login_first_missing s h = rw (h, login_first) refl

module _ {Fs : Type 0} where
  -- The session has the same disk, and its connection has sent those bytes.
  pub record SentOn (s : Session Fs) (bytes : Bytes) (s' : Session Fs) : Type 0 where
    pub same_fs : s'.fs ≡ s.fs
    pub conn_sent : Sent s.conn bytes s'.conn

  -- Reading an answer and printing it sends nothing.
  show_success-SentOn :
      (s s1 : Session Fs) (bytes : Bytes) (r : Response)
      → SentOn s bytes s1
      → SentOn s bytes (show_success r s1)
  unfolding show_success print_line
  show_success-SentOn s s1 bytes (received n data_bytes) h = record {
    same_fs = h.same_fs;
    conn_sent = h.conn_sent;
  }
  show_success-SentOn s s1 bytes auth_required h = h
  show_success-SentOn s s1 bytes failed h = h

  receive-SentOn :
      (s s1 : Session Fs) (bytes : Bytes) → SentOn s bytes s1 → SentOn s bytes (receive s1).1
  unfolding receive
  receive-SentOn s s1 bytes h = record {
    same_fs = h.same_fs;
    conn_sent = record { sent = h.conn_sent.sent; roomy = h.conn_sent.roomy };
  }

  client_authenticate-SentOn :
      (s : Session Fs) (username password : Bytes)
      → IsRoomy s.conn.outbox
      → SentOn s (auth_request username password s.stack) (client_authenticate s username password)
  unfolding client_authenticate send
  client_authenticate-SentOn s username password roomy =
      let (done, sent) = auth_request-Sent s.conn username password s.stack roomy in
      rw (done, client_authenticate)
        (show_success-SentOn s _ _ _
          (receive-SentOn s _ _ (record { same_fs = refl; conn_sent = sent })))

  pub login_first-SentOn :
      (s : Session Fs)
      → is_set s.username ≡ true
      → is_set s.password ≡ true
      → IsRoomy s.conn.outbox
      → SentOn s (auth_request s.username s.password s.stack) (login_first s)
  unfolding login_first
  login_first-SentOn s u p roomy =
      rw (u, login_first) (rw p (client_authenticate-SentOn s s.username s.password roomy))

  client_authenticate-inbox :
      (s : Session Fs) (username password text : Bytes) (later : List ReadEvent)
      → IsRoomy s.conn.outbox
      → s.conn.inbox ≡ arrived (response_header resp_ok (length text)) ∷ arrived text ∷ later
      → 0 < length text
      → length text ≤ client_buffer
      → (client_authenticate s username password).conn.inbox ≡ later
  unfolding client_authenticate send receive show_success print_line
  client_authenticate-inbox s username password text later roomy inbox filled fits =
      let body = auth_message username password s.stack in
      let (done, sent) = auth_request-Sent s.conn username password s.stack roomy in
      let e : receive_response client_buffer
            (send_request s.conn cmd_auth [] (some body) 128).1.inbox
          ≡ (received (length text) text, later) =
        ap (receive_response client_buffer)
          (send_request-inbox s.conn cmd_auth [] (some body) 128 ∙ inbox)
        ∙ receive_response_reads client_buffer text later filled fits (omega arith) in
      rw (done, client_authenticate) (rw (ap (λ r. r.0) e) (ap (λ r. r.1) e))

  -- The answer to a login, whose header and text each arrive as one packet, is all that is read
  -- before the command.
  pub login_first-inbox :
      (s : Session Fs) (text : Bytes) (later : List ReadEvent)
      → is_set s.username ≡ true
      → is_set s.password ≡ true
      → IsRoomy s.conn.outbox
      → s.conn.inbox ≡ arrived (response_header resp_ok (length text)) ∷ arrived text ∷ later
      → 0 < length text
      → length text ≤ client_buffer
      → (login_first s).conn.inbox ≡ later
  unfolding login_first
  login_first-inbox s text later u p roomy inbox filled fits =
      rw (u, login_first)
        (rw p
          (client_authenticate-inbox s s.username s.password text later roomy inbox filled fits))

  show_upload-conn : (r : Response) (s : Session Fs) → (show_upload r s).1.conn ≡ s.conn
  unfolding show_upload print_line
  show_upload-conn (received n bytes) s = ground arith
  show_upload-conn auth_required s = refl
  show_upload-conn failed s = refl

  upload_from-Sent :
      (s : Session Fs) (path : Bytes) (file : Stream) (n : ℕ)
      → n ≡ length file.content
      → length path ≤ 4096
      → IsRoomy s.conn.outbox
      → Sent s.conn
          ((message_header cmd_put (length path) n ++ path) ++ file.content)
          (upload_from s path file n).1.conn
  unfolding upload_from send receive
  upload_from-Sent s path file n whole short roomy =
      let (done, sent) = send_request-Sent s.conn cmd_put path short roomy n in
      let c1 = (send_request s.conn cmd_put path none n).1 in
      let g = upload-Goes (suc n) n file.content c1.outbox whole (omega arith) sent.roomy in
      let both = Sent-trans sent (on_conn-Sent c1 file.content _ g) in
      let s2 = record (send s cmd_put path none n).1 {
        conn = (on_conn c1 (upload (suc n) n file.content c1.outbox)).1;
      } in
      rw (done, upload_from)
        (rw g.done (
          rw (show_upload-conn (receive s2).0 (receive s2).1)
            (record { sent = both.sent; roomy = both.roomy })))

module _ {Fs : Type 0} (os : Os Fs) (file_length : Fs → Bytes → Option ℕ) where
  -- What an upload puts on the wire, if the credentials are set, the local file can be read, and
  -- the kernel has room for a piece of 4096 bytes each time: the AUTH request, the PUT request,
  -- and the content of the file, whatever the server answers.
  pub client_put_file-sends :
      (s : Session Fs) (path local_path : Bytes) (file : Stream)
      → is_set s.username ≡ true
      → is_set s.password ≡ true
      → ends_with_slash path ≡ false
      → length path ≤ 4096
      → os.open_read s.fs local_path ≡ some file
      → file_length s.fs local_path ≡ some (length file.content)
      → IsRoomy s.conn.outbox
      → (client_put_file os file_length s path local_path).1.conn.sent
        ≡ s.conn.sent
          ++ (auth_request s.username s.password s.stack
              ++ ((message_header cmd_put (length path) (length file.content) ++ path)
                  ++ file.content))
  unfolding client_put_file
  client_put_file-sends s path local_path file u p plain short opened size roomy =
      let first = login_first-SentOn s u p roomy in
      let there : os.open_read (login_first s).fs local_path ≡ some file =
        ap (λ d. os.open_read d local_path) first.same_fs ∙ opened in
      let measured : file_length (login_first s).fs local_path ≡ some (length file.content) =
        ap (λ d. file_length d local_path) first.same_fs ∙ size in
      let then_put =
        upload_from-Sent (login_first s) path file (length file.content) refl short
          first.conn_sent.roomy in
      rw (plain, client_put_file)
        (rw there (rw measured (Sent-trans first.conn_sent then_put).sent))
