-- ===== src/Server/Logins.antt =====
-- The AUTH request of a client, from the bytes of `client_authenticate` in src/client.c to the
-- role that `handle_auth_command` of src/protocol.c gives the connection.
use cileserver.Auth.{authenticate_user}
use cileserver.Base.{
  ℕ, zero, suc, ◌-◌, ◌<◌, ◌≤◌, ◌≡◌, refl, sym, ap, ap₂, ◌∙◌, List, [], ◌∷◌, ◌++◌, some, inl, inr,
  success, arith, length, take, drop, replicate, get_or, length-append, append_assoc, subst,
  take-append, drop-append, take-append_ge,
}
use cileserver.Base.CString.{Bytes, NoByte, cstr, cstr-append}
use cileserver.Client.Session.{auth_field, auth_message}
use cileserver.Client.Uploads.{auth_request, length-auth_field, length-auth_message}
use cileserver.Net.Reads.{flow, IsClean}
use cileserver.Net.{Conn, ReadEvent, write_once, write_all}
use cileserver.Protocol.Handlers.{handle_auth_command, welcome}
use cileserver.Protocol.Request.{
  which_command, run_command, needs_login, process_request, initial_length, payload, command_of,
}
use cileserver.Protocol.Responses.{Rc-cases, whole_response}
use cileserver.Protocol.State.{Env, World, reply, send_response}
use cileserver.Server.Framing.{receive_request-Finds}
use cileserver.Server.Receive.{handle_client, with_inbox}
use cileserver.Server.Requests.{
  memory, request_bytes, process_request-memory, command_of-memory, initial_length-memory,
  payload-memory,
}
use cileserver.Wire.{cmd_auth, response_header, resp_ok, message_header}

take-replicate : (k n v : ℕ) → k ≤ n → take k (replicate n v) ≡ replicate k v
take-replicate zero n v h = refl
take-replicate (suc k) zero v h = absurd (omega arith)
take-replicate (suc k) (suc n) v h = ap (◌∷◌ v) (take-replicate k n v (omega arith))

-- A text of at most 62 bytes comes back from its field, whatever lies behind it.
cstr-auth_field :
    (text : Bytes) (last : ℕ) (rest : Bytes)
    → length text < 63
    → NoByte 0 text
    → cstr (auth_field text last ++ rest) ≡ text
unfolding auth_field
cstr-auth_field text last rest short no_nul =
    let k = 62 - length text in
    let padded : take 63 (text ++ replicate 63 0) ≡ text ++ 0 ∷ replicate k 0 =
      take-append_ge 63 (suc k) text (replicate 63 0) (omega arith)
      ∙ ap (◌++◌ text) (take-replicate (suc k) 63 0 (omega arith)) in
    ap (λ x. cstr ((x ++ last ∷ []) ++ rest)) padded
    ∙ ap cstr (
        append_assoc (text ++ 0 ∷ replicate k 0) (last ∷ []) rest
        ∙ append_assoc text (0 ∷ replicate k 0) (last ∷ rest))
    ∙ cstr-append text (replicate k 0 ++ (last ∷ rest)) no_nul

pub send_response-inbox :
    (c : Conn) (status : ℕ) (body : Bytes) (n : ℕ)
    → (send_response c status body n).1.inbox ≡ c.inbox
unfolding send_response
send_response-inbox c status body n =
    elim (Rc-cases (write_once (response_header status n) c.outbox).0) [
      | inl good ↦ rw (good, send_response) refl
      | inr bad ↦ rw (bad, send_response) refl
    ]

write_all-room : (bytes : Bytes) → write_all bytes [] ≡ (success, [], bytes)
unfolding write_all
write_all-room [] = refl
write_all-room (b ∷ bs) = refl

-- A kernel that always has room takes all of a response.
send_response-room :
    (c : Conn) (status : ℕ) (body : Bytes) (n : ℕ)
    → c.outbox ≡ []
    → ((send_response c status body n).1.sent ≡ c.sent ++ whole_response status body n)
      × ((send_response c status body n).1.outbox ≡ [])
unfolding send_response write_once
send_response-room c status body n e =
    subst
      (λ o.
        (let sent = send_response (record c { outbox = o }) status body n in
          (sent.1.sent ≡ c.sent ++ whole_response status body n) × (sent.1.outbox ≡ [])))
      (sym e)
      (
        ap (λ r. (c.sent ++ response_header status n) ++ r.2) (write_all-room (take n body))
            ∙ append_assoc c.sent (response_header status n) (take n body),
        ap (λ r. r.1) (write_all-room (take n body)),
      )

module _ (username password stack junk : Bytes) where
  abbrev the_memory : Bytes
  the_memory = memory cmd_auth [] 128 (auth_message username password stack) junk

  the_payload : payload the_memory ≡ auth_message username password stack ++ junk
  the_payload =
      payload-memory cmd_auth [] 128 (auth_message username password stack) junk (omega arith)

  username_of-memory :
      length username < 63 → NoByte 0 username → cstr (payload the_memory) ≡ username
  unfolding auth_message
  username_of-memory short no_nul =
      ap cstr (the_payload ∙ append_assoc (auth_field username (get_or stack 0 0)) _ junk)
      ∙ cstr-auth_field username (get_or stack 0 0) _ short no_nul

  password_of-memory :
      length password < 63 → NoByte 0 password → cstr (drop 64 (payload the_memory)) ≡ password
  unfolding auth_message
  password_of-memory short no_nul =
      let field = auth_field username (get_or stack 0 0) in
      ap (λ x. cstr (drop 64 x))
        (the_payload ∙ append_assoc field (auth_field password (get_or stack 1 0)) junk)
      ∙ ap cstr (drop-append 64 field _ (sym (length-auth_field username (get_or stack 0 0))))
      ∙ cstr-auth_field password (get_or stack 1 0) junk short no_nul

  process_request-auth :
      {Fs : Type 0} (env : Env Fs) (w : World Fs)
      → length username < 63
      → NoByte 0 username
      → length password < 63
      → NoByte 0 password
      → process_request env w the_memory
          (length (request_bytes cmd_auth [] 128 (auth_message username password stack) junk))
        ≡ handle_auth_command w username password
  unfolding which_command run_command needs_login
  process_request-auth env w u u_nul p p_nul =
      let body = auth_message username password stack in
      let size : length body ≡ 128 = length-auth_message username password stack in
      let is_auth : command_of the_memory ≡ cmd_auth =
        command_of-memory cmd_auth [] 128 body junk (omega arith) in
      let given : initial_length the_memory (length (request_bytes cmd_auth [] 128 body junk))
          ≡ 128 =
        initial_length-memory cmd_auth [] 128 body junk (omega arith) (omega arith) (omega arith)
        ∙ size in
      process_request-memory cmd_auth [] 128 body junk env w (omega arith) (omega arith)
        (ground (arith, is_auth))
      ∙ rw (given, run_command)
          (ap₂ (handle_auth_command w) (username_of-memory u u_nul) (password_of-memory p p_nul))

-- The connection that a login with a role leaves, on which those bytes are still to come.
pub record LoggedIn {Fs : Type 0} (w : World Fs) (role : ℕ) (more : Bytes) (v : World Fs)
    : Type 0 where
  pub same_fs : v.fs ≡ w.fs
  pub same_users : v.users ≡ w.users
  pub has_role : v.role ≡ role
  pub flow_later : flow v.conn.inbox ≡ more
  pub clean_later : IsClean v.conn.inbox

module _ {Fs : Type 0} (env : Env Fs) (w : World Fs)
    (username password stack junk more : Bytes) where
  handle_auth_command-LoggedIn :
      (role : ℕ) (later : List ReadEvent)
      → authenticate_user username password w.users ≡ some role
      → flow later ≡ more
      → IsClean later
      → LoggedIn w role more (handle_auth_command (with_inbox w later) username password).1
  unfolding handle_auth_command reply
  handle_auth_command-LoggedIn role later known f clean =
      let text = welcome username role in
      let same = send_response-inbox (record w.conn { inbox = later }) resp_ok text (length text) in
      rw (known, handle_auth_command)
        (record {
          same_fs = refl;
          same_users = refl;
          has_role = refl;
          flow_later = ap flow same ∙ f;
          clean_later = subst IsClean (sym same) clean;
        })

  -- An AUTH request of a client reaches its handler, and what follows it stays on the stream.
  handle_client-auth :
      length username < 63
      → NoByte 0 username
      → length password < 63
      → NoByte 0 password
      → IsClean w.conn.inbox
      → flow w.conn.inbox ≡ auth_request username password stack ++ more
      → (later : List ReadEvent) × (handle_client env w junk
          ≡ handle_auth_command (with_inbox w later) username password)
        × (flow later ≡ more)
        × IsClean later
  unfolding handle_client
  handle_client-auth u u_nul p p_nul clean arrives =
      let body = auth_message username password stack in
      let size : length body ≡ 128 = length-auth_message username password stack in
      let found = receive_request-Finds cmd_auth [] 128 (body ++ more) w.conn.inbox (record {
        clean = clean;
        bytes = arrives ∙ append_assoc (message_header cmd_auth 0 128) body more;
        path_fits = omega arith;
        data_fits = omega arith;
        body_fits = omega (arith, length-append body more);
      }) in
      let first : take 128 (body ++ more) ≡ body = take-append 128 body more (sym size) in
      (
        found.later,
        rw (found.result, handle_client)
            (rw first (
              process_request-auth username password stack junk env (with_inbox w found.later) u
                u_nul p p_nul)),
        found.flow_later ∙ drop-append 128 body more (sym size),
        found.clean_later,
      )

  -- It gives the connection the role of the user.
  pub handle_client-LoggedIn :
      (role : ℕ)
      → length username < 63
      → NoByte 0 username
      → length password < 63
      → NoByte 0 password
      → authenticate_user username password w.users ≡ some role
      → IsClean w.conn.inbox
      → flow w.conn.inbox ≡ auth_request username password stack ++ more
      → LoggedIn w role more (handle_client env w junk).1
  handle_client-LoggedIn role u u_nul p p_nul known clean arrives =
      let (later, e, f, c) = handle_client-auth u u_nul p p_nul clean arrives in
      rw e (handle_auth_command-LoggedIn role later known f c)

  -- It is answered with the welcome, if the kernel has room for it.
  pub handle_client-welcomes :
      (role : ℕ)
      → length username < 63
      → NoByte 0 username
      → length password < 63
      → NoByte 0 password
      → authenticate_user username password w.users ≡ some role
      → IsClean w.conn.inbox
      → flow w.conn.inbox ≡ auth_request username password stack ++ more
      → w.conn.outbox ≡ []
      → ((handle_client env w junk).1.conn.sent
          ≡ w.conn.sent
            ++ whole_response resp_ok (welcome username role) (length (welcome username role)))
        × ((handle_client env w junk).1.conn.outbox ≡ [])
  unfolding handle_auth_command reply
  handle_client-welcomes role u u_nul p p_nul known clean arrives room =
      let (later, e, f, c) = handle_client-auth u u_nul p p_nul clean arrives in
      let text = welcome username role in
      let sent =
        send_response-room (record w.conn { inbox = later }) resp_ok text (length text) room in
      rw e (rw (known, handle_auth_command) sent)
