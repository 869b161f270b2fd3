-- ===== src/Server/Sessions.antt =====
-- A whole connection of src/server.c: the requests that its thread handles one after another.
use cileserver.Auth.{Users, role_guest, authenticate_user, check_permission}
use cileserver.Base.{
  ℕ, zero, suc, ◌<◌, ◌≡◌, refl, sym, ◌∙◌, inl, inr, false, List, ◌++◌, none, some, arith, length,
  take, drop, length-take,
}
use cileserver.Base.CString.{Bytes, NoByte, codes}
use cileserver.Net.Reads.{flow}
use cileserver.Net.{ReadEvent}
use cileserver.Protocol.Request.{process_request, needs_login, max_path_length}
use cileserver.Protocol.Responses.{Rc-cases}
use cileserver.Protocol.Roles.{process_request-FairLogin, process_request_guest}
use cileserver.Protocol.State.{Env, World, reply}
use cileserver.Protocol.Streaming.{handle_put_streaming}
use cileserver.Server.Framing.{Carries, receive_request-Finds}
use cileserver.Server.Receive.{
  Received, request, dropped, receive_request, handle_client, serve, payload_room, with_inbox,
}
use cileserver.Server.Requests.{memory}
use cileserver.Server.Uploads.{process_request-put}
use cileserver.Wire.{cmd_put, resp_error}

-- No name and password log in, as with the empty table of a server without authentication.
abbrev pub NobodyLogsIn : Users → Type 0
NobodyLogsIn users = (username password : Bytes) → authenticate_user username password users ≡ none

-- `v` is a guest's connection like `w`, over the same disk and the same users.
pub record StaysGuest {Fs : Type 0} (w v : World Fs) : Type 0 where
  pub same_fs : v.fs ≡ w.fs
  pub same_users : v.users ≡ w.users
  pub guest : v.role ≡ role_guest

module _ {Fs : Type 0} (env : Env Fs) where
  process_request-StaysGuest :
      (w : World Fs) (buffer : Bytes) (size : ℕ)
      → w.role ≡ role_guest
      → NobodyLogsIn w.users
      → StaysGuest w (process_request env w buffer size).1
  process_request-StaysGuest w buffer size g nobody =
      let f = process_request-FairLogin env w buffer size in
      record {
        same_fs = process_request_guest env w buffer size g;
        same_users = f.same_users;
        guest = elim f.role_from [
          | inl same ↦ same ∙ g
          | inr (inl out) ↦ out.1
          | inr (inr given) ↦ let x : none ≡ some _ = sym (nobody _ _) ∙ given.known in cc
        ];
      }

  handle_client-StaysGuest :
      (w : World Fs) (junk : Bytes)
      → w.role ≡ role_guest
      → NobodyLogsIn w.users
      → StaysGuest w (handle_client env w junk).1
  unfolding handle_client
  handle_client-StaysGuest w junk g nobody = after (receive_request w.conn.inbox) refl
    where
      after :
          (r : Received)
          → receive_request w.conn.inbox ≡ r
          → StaysGuest w (handle_client env w junk).1
      after (dropped es) e =
          rw (e, handle_client) (record { same_fs = refl; same_users = refl; guest = g })
      after (request bytes es) e =
          let s =
            process_request-StaysGuest (with_inbox w es) (bytes ++ junk) (length bytes) g nobody in
          rw (e, handle_client)
            (record { same_fs = s.same_fs; same_users = s.same_users; guest = s.guest })

  -- Over a table with which nobody can log in, a guest's connection changes nothing on the disk
  -- and remains a guest's, whatever bytes it sends, however many requests they make, and whether
  -- or not authentication is enabled.
  pub serve-StaysGuest :
      (n : ℕ) (w : World Fs) (junk : Bytes)
      → w.role ≡ role_guest
      → NobodyLogsIn w.users
      → StaysGuest w (serve env n w junk)
  unfolding serve
  serve-StaysGuest zero w junk g nobody = record { same_fs = refl; same_users = refl; guest = g }
  serve-StaysGuest (suc n) w junk g nobody =
      let w' = (handle_client env w junk).1 in
      let s = handle_client-StaysGuest w junk g nobody in
      let t = serve-StaysGuest n w' junk s.guest (λ u p. rw s.same_users (nobody u p)) in
      elim (Rc-cases (handle_client env w junk).0) [
        | inr stop ↦ rw (stop, serve) s
        | inl go ↦
            rw (go, serve)
              (record {
                same_fs = t.same_fs ∙ s.same_fs;
                same_users = t.same_users ∙ s.same_users;
                guest = t.guest;
              })
      ]

put_denied :
    {Fs : Type 0} (env : Env Fs) (w : World Fs) (path initial_data : Bytes) (total_len role : ℕ)
    → check_permission role cmd_put ≡ false
    → handle_put_streaming env w path initial_data total_len role
      ≡ reply w resp_error (codes "Permission denied") 17
unfolding handle_put_streaming
put_denied env w path initial_data total_len role h = rw (h, handle_put_streaming) refl

-- A PUT that the role does not permit, on a connection that need not log in, is answered without
-- the rest of its data being read: what did not fit the request buffer stays on the stream, where
-- the next call of `handle_client` looks for a request. The path has no NUL and fits, and the
-- stream carries all the data.
pub handle_client-refused_put :
    {Fs : Type 0} (env : Env Fs) (w : World Fs) (path body junk : Bytes) (data_len : ℕ)
    → check_permission w.role cmd_put ≡ false
    → needs_login env w
        (memory cmd_put path data_len (take (payload_room (length path) data_len) body) junk)
      ≡ false
    → NoByte 0 path
    → length path < max_path_length
    → Carries cmd_put path data_len body w.conn.inbox
    → (rest : List ReadEvent) × (handle_client env w junk
        ≡ reply (with_inbox w rest) resp_error (codes "Permission denied") 17)
      × (flow rest ≡ drop (payload_room (length path) data_len) body)
unfolding handle_client needs_login
handle_client-refused_put env w path body junk data_len denied logged no_nul short c =
    let found = receive_request-Finds cmd_put path data_len body w.conn.inbox c in
    let first = take (payload_room (length path) data_len) body in
    (
      found.later,
      rw (found.result, handle_client)
          (process_request-put env (with_inbox w found.later) path first junk data_len short no_nul
              c.data_fits (omega (arith, length-take (payload_room (length path) data_len) body))
              logged
            ∙ put_denied env (with_inbox w found.later) path first data_len w.role denied),
      found.flow_later,
    )
