-- ===== src/Client/Session.antt =====
-- The login of src/client.c: its static variables, `client_authenticate`, `client_logout` and the
-- prompts for credentials.
use cileserver.Base.CString.{Bytes, cstr}
use cileserver.Base.Text.{newline, fgets, break_at}
use cileserver.Base.{
  ℕ, ◌&&◌, Bool, true, false, [], ◌∷◌, ◌++◌, Option, none, some, Rc, success, failure,
  if◌then◌else◌, get_or, take, drop, replicate,
}
use cileserver.Client.{Response, received, auth_required, failed, send_request, receive_response}
use cileserver.Net.{Conn}
use cileserver.Wire.{cmd_auth, cmd_logout}

-- A run of the client on one connection: its local disk, `g_username` and `g_password`, and the
-- standard input. `stack` is what the client finds in memory that it reads without having set
-- it, byte by byte; `stdout` is what it prints of the server's answers.
pub record Session (Fs : Type 0) : Type 0 where
  pub conn : Conn
  pub fs : Fs
  pub username : Bytes
  pub password : Bytes
  pub stdin : Bytes
  pub stack : Bytes
  pub stdout : Bytes

-- `BUFFER_SIZE`
abbrev pub client_buffer : ℕ
client_buffer = 4096

-- A field of 64 bytes after `strncpy(field, text, 63)`: its last byte is not set.
unfoldable pub auth_field : Bytes → ℕ → Bytes
auth_field text last = take 63 (text ++ replicate 63 0) ++ last ∷ []

-- `auth_message_t`
unfoldable pub auth_message : Bytes → Bytes → Bytes → Bytes
auth_message username password stack =
    auth_field username (get_or stack 0 0) ++ auth_field password (get_or stack 1 0)

-- `text[0] != '\0'`
unfoldable pub is_set : Bytes → Bool
is_set [] = false
is_set (c ∷ cs) = true

-- One credential and the input behind it: `fgets` into 64 bytes, then the newline cut off.
unfoldable pub prompt_for : Bytes → Bytes → Bytes × Bytes
prompt_for text stdin =
    if is_set text
    then (text, stdin)
    else (let (line, rest) = fgets 63 stdin in ((break_at newline (cstr line)).0, rest))

module _ {Fs : Type 0} where
  unfoldable pub send : Session Fs → ℕ → Bytes → Option Bytes → ℕ → Rc × Session Fs
  send s command path body data_size =
      let (rc, c) = send_request s.conn command path body data_size in (rc, record s { conn = c })

  -- `receive_response` into a buffer of `BUFFER_SIZE` bytes.
  unfoldable pub receive : Session Fs → Response × Session Fs
  receive s =
      let (response, es) = receive_response client_buffer s.conn.inbox in
      (response, record s { conn = record s.conn { inbox = es } })

  -- `printf("%s\n", text)`
  unfoldable pub print_line : Bytes → Session Fs → Session Fs
  print_line text s = record s { stdout = s.stdout ++ (text ++ newline ∷ []) }

  -- `if (result == 0) { buffer[data_size] = '\0'; printf("%s\n", buffer); }`
  unfoldable pub show_success : Response → Session Fs → Session Fs
  show_success (received data_size bytes) s = print_line (cstr bytes) s
  show_success auth_required s = s
  show_success failed s = s

  unfoldable pub client_authenticate : Session Fs → Bytes → Bytes → Session Fs
  client_authenticate s username password =
      let (rc, s1) =
        send (record s { stack = drop 2 s.stack }) cmd_auth []
          (some (auth_message username password s.stack)) 128 in
      elim rc [
        | failure ↦ s1
        | success ↦ let (response, s2) = receive s1 in show_success response s2
      ]

  unfoldable pub client_logout : Session Fs → Session Fs
  client_logout s =
      let (rc, s1) = send s cmd_logout [] none 0 in
      elim rc [
        | failure ↦ s1
        | success ↦ let (response, s2) = receive s1 in show_success response s2
      ]

  -- The start of every command but logout.
  unfoldable pub login_first : Session Fs → Session Fs
  login_first s =
      if is_set s.username && is_set s.password
      then client_authenticate s s.username s.password
      else s

  -- The prompts after RESP_AUTH_REQUIRED, and the login that follows them.
  unfoldable pub login_again : Session Fs → Session Fs
  login_again s =
      let (username, rest) = prompt_for s.username s.stdin in
      let (password, rest') = prompt_for s.password rest in
      client_authenticate (record s { username = username; password = password; stdin = rest' })
        username password

  -- The credentials that `client_login` keeps, once `connect_to_server` has given it a connection
  -- of its own, which the session stands for.
  unfoldable pub client_login : Session Fs → Bytes → Bytes → Session Fs
  client_login s username password = record (client_authenticate s username password) {
    username = take 63 username;
    password = take 63 password;
  }
