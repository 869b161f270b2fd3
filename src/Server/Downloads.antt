-- ===== src/Server/Downloads.antt =====
-- A GET request of a client, from the bytes on the stream to `handle_get_streaming` of
-- src/protocol.c.
use cileserver.Base.CString.{Bytes, NoByte}
use cileserver.Base.{
  ℕ, ◌<◌, ◌≡◌, sym, ap, ◌∙◌, false, [], ◌++◌, List, arith, length, append-nil, take_all,
}
use cileserver.Net.Reads.{flow, IsClean}
use cileserver.Net.{ReadEvent}
use cileserver.Protocol.Request.{
  max_path_length, which_command, run_command, needs_login, process_request,
}
use cileserver.Protocol.State.{Env, World}
use cileserver.Protocol.Streaming.{handle_get_streaming}
use cileserver.Server.Framing.{receive_request-Finds}
use cileserver.Server.Receive.{handle_client, with_inbox, payload_room}
use cileserver.Server.Requests.{memory, process_request-memory, path_of-memory}
use cileserver.Wire.{cmd_get, message_header}
use cileserver.Auth.{role_guest}
use cileserver.Base.{◌⊎◌, ◌≢◌, inl, inr}

module _ {Gs : Type 0} (env : Env Gs) (path junk : Bytes) (short : length path < max_path_length)
    (no_nul : NoByte 0 path) where
  process_request-get :
      (w : World Gs)
      → (env.cfg.enable_auth ≡ 0) ⊎ (w.role ≢ role_guest)
      → process_request env w
          (memory cmd_get path 0 [] junk)
          (length (message_header cmd_get (length path) 0 ++ (path ++ [])))
        ≡ handle_get_streaming env w path w.role
  unfolding needs_login which_command run_command
  process_request-get w may =
      let logged : needs_login env w (memory cmd_get path 0 [] junk) ≡ false = elim may [
        | inl no_auth ↦ ground (arith, no_auth)
        | inr known ↦ ground (arith, known)
      ] in
      process_request-memory cmd_get path 0 [] junk env w (omega arith) short logged
      ∙ ap (λ p. handle_get_streaming env w p w.role)
          (path_of-memory cmd_get path 0 [] junk (omega arith) no_nul)

  -- A GET request that arrives on a connection for which no login is wanting.
  pub handle_client-get :
      (w : World Gs)
      → (env.cfg.enable_auth ≡ 0) ⊎ (w.role ≢ role_guest)
      → IsClean w.conn.inbox
      → flow w.conn.inbox ≡ message_header cmd_get (length path) 0 ++ path
      → (later : List ReadEvent) × (handle_client env w junk
          ≡ handle_get_streaming env (with_inbox w later) path w.role)
  unfolding handle_client
  handle_client-get w may clean arrives =
      let found = receive_request-Finds cmd_get path 0 [] w.conn.inbox (record {
        clean = clean;
        bytes =
            arrives ∙ ap (◌++◌ (message_header cmd_get (length path) 0)) (sym (append-nil path));
        path_fits = omega arith;
        data_fits = omega arith;
        body_fits = omega arith;
      }) in
      (
        found.later,
        rw (found.result, handle_client)
            (rw (take_all {A = ℕ} (payload_room (length path) 0) [] (omega arith))
              (process_request-get (with_inbox w found.later) may)),
      )
