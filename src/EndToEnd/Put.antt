-- ===== src/EndToEnd/Put.antt =====
-- An upload, from `client_put_file` of src/client.c to the file on the server's disk.
use cileserver.Auth.{authenticate_user, check_permission}
use cileserver.Base.CString.{Bytes, NoByte, codes}
use cileserver.Base.{
  ℕ, ◌^◌, ◌<◌, ◌≡◌, ap, ◌∙◌, true, false, [], ◌++◌, Option, some, arith, length, take_all, drop,
  append_assoc, length-drop, length-zero,
}
use cileserver.Client.Room.{IsRoomy}
use cileserver.Client.Session.{Session, is_set}
use cileserver.Client.Transfer.{client_put_file, ends_with_slash}
use cileserver.Client.Uploads.{auth_request, client_put_file-sends}
use cileserver.FileOps.Resolve.{get_full_path}
use cileserver.Net.Reads.{flow, IsClean}
use cileserver.Os.{Os, Stream, KeepsData, content_at}
use cileserver.Protocol.Request.{max_path_length}
use cileserver.Protocol.State.{Env, World, reply}
use cileserver.Server.Logins.{handle_client-LoggedIn, send_response-inbox}
use cileserver.Server.Receive.{handle_client}
use cileserver.Server.Uploads.{handle_client-stores}
use cileserver.Wire.{cmd_put, resp_ok, message_header}

-- The two requests of an upload: the login and the file.
module _ {Fs Gs : Type 0} (os : Os Fs) (file_length : Fs → Bytes → Option ℕ) (env : Env Gs) where
  -- A user who may upload and who runs `put` of the client with the credentials set, for a path
  -- that resolves to a file the server can open, ends with exactly the content of the local file
  -- in the server's file and with nothing left on the stream, after the server has handled two
  -- requests, if what the client has sent arrives in whatever packets without an error. The
  -- connection is new, and the kernel has room for a piece of 4096 bytes at each of the client's
  -- writes; credentials of at most 62 bytes, a path of fewer than 1024 bytes that does not end
  -- in a slash, no NUL in them, a file below 4 GiB, and a server's disk that keeps its data.
  pub client_put_file-stores :
      (s : Session Fs) (w : World Gs) (path local_path full_path junk junk' : Bytes) (file : Stream)
      (opened_fs : Gs) (role : ℕ)
      → is_set s.username ≡ true
      → is_set s.password ≡ true
      → length s.username < 63
      → length s.password < 63
      → NoByte 0 s.username
      → NoByte 0 s.password
      → NoByte 0 path
      → length path < max_path_length
      → ends_with_slash path ≡ false
      → s.conn.sent ≡ []
      → IsRoomy s.conn.outbox
      → os.open_read s.fs local_path ≡ some file
      → file_length s.fs local_path ≡ some (length file.content)
      → length file.content < 2 ^ 32
      → IsClean w.conn.inbox
      → flow w.conn.inbox ≡ (client_put_file os file_length s path local_path).1.conn.sent
      → authenticate_user s.username s.password w.users ≡ some role
      → check_permission role cmd_put ≡ true
      → get_full_path env.os env.cfg w.fs path 1024 ≡ some full_path
      → env.os.open_write w.fs full_path ≡ some opened_fs
      → KeepsData env.os full_path
      → (let after = (handle_client env (handle_client env w junk).1 junk').1 in
          (content_at env.os after.fs full_path ≡ some file.content) × (flow after.conn.inbox ≡ []))
  unfolding reply
  client_put_file-stores s w path local_path full_path junk junk' file opened_fs role u_set p_set u
        p u_nul p_nul nul short plain fresh roomy opened size small clean arrives known allowed
        resolved opens d =
      let put =
        (message_header cmd_put (length path) (length file.content) ++ path) ++ file.content in
      let bytes : flow w.conn.inbox ≡ auth_request s.username s.password s.stack ++ put =
        arrives
        ∙ client_put_file-sends os file_length s path local_path file u_set p_set plain
            (omega arith) opened size roomy
        ∙ ap (λ x. x ++ (auth_request s.username s.password s.stack ++ put)) fresh in
      let login =
        handle_client-LoggedIn env w s.username s.password s.stack junk put role u u_nul p p_nul
          known clean bytes in
      let w1 = (handle_client env w junk).1 in
      let stored =
        handle_client-stores env w1 path full_path file.content junk' opened_fs
          (length file.content) d (ap (λ r. check_permission r cmd_put) login.has_role ∙ allowed)
          nul short (ap (λ f. get_full_path env.os env.cfg f path 1024) login.same_fs ∙ resolved)
          (ap (λ f. env.os.open_write f full_path) login.same_fs ∙ opens)
          (record {
            clean = login.clean_later;
            bytes = login.flow_later ∙ append_assoc _ path file.content;
            path_fits = omega arith;
            data_fits = small;
            body_fits = omega arith;
          }) in
      (
        ap (λ r. content_at env.os r.1.fs full_path) stored.2
            ∙ stored.3
            ∙ ap some (take_all (length file.content) file.content (omega arith)),
        ap (λ r. flow r.1.conn.inbox) stored.2
            ∙ ap flow (
                send_response-inbox (record w1.conn { inbox = stored.1 }) resp_ok
                  (codes "File written successfully") 25)
            ∙ stored.4
            ∙ length-zero (drop (length file.content) file.content)
                (omega (arith, length-drop (length file.content) file.content)),
      )
