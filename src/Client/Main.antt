-- ===== src/Client/Main.antt =====
-- `main` of src/client.c: its options and the commands it hands on.
use cileserver.Base.CString.{Bytes, codes, str_eq, is_option}
use cileserver.Base.Decimal.{atoi}
use cileserver.Base.{
  ℕ, Bool, ◌%◌, ◌^◌, List, [], ◌∷◌, Option, none, some, Rc, success, failure, if◌then◌else◌, take,
}
use cileserver.Client.Commands.{client_list_directory, client_delete_file, client_create_directory}
use cileserver.Client.Session.{Session, client_login, client_logout}
use cileserver.Client.Transfer.{client_get_file, client_put_file}
use cileserver.Net.{Conn}
use cileserver.Os.{Os}

-- `g_host`, `g_port`, `g_username` and `g_password`
pub record Globals : Type 0 where
  pub host : Bytes
  pub port : ℕ
  pub username : Bytes
  pub password : Bytes

abbrev pub default_globals : Globals
default_globals = record { host = codes "localhost"; port = 9090; username = []; password = [] }

-- What the next argument is the value of, if it is one.
pub data ClientAwaited : Type 0 where
  no_value host_value port_value user_value password_value : ClientAwaited

-- The option that an argument is; none ends the options.
unfoldable pub which_option : Bytes → Option ClientAwaited
which_option arg =
    if is_option (codes "-h") (codes "--host") arg
    then some host_value
    else if is_option (codes "-p") (codes "--port") arg
    then some port_value
    else if is_option (codes "-u") (codes "--user") arg
    then some user_value
    else if is_option (codes "-P") (codes "--password") arg
    then some password_value
    else none

-- The loop over the arguments, with those that are left for the command.
unfoldable pub parse_options : ClientAwaited → Globals → List Bytes → Globals × List Bytes
parse_options awaited g [] = (g, [])
parse_options host_value g (arg ∷ args) =
    parse_options no_value (record g { host = take 255 arg }) args
parse_options port_value g (arg ∷ args) = parse_options no_value (record g { port = atoi arg }) args
parse_options user_value g (arg ∷ args) =
    parse_options no_value (record g { username = take 63 arg }) args
parse_options password_value g (arg ∷ args) =
    parse_options no_value (record g { password = take 63 arg }) args
parse_options no_value g (arg ∷ args) = elim (which_option arg) [
  | none ↦ (g, arg ∷ args)
  | some awaited ↦ parse_options awaited g args
]

-- A command with an argument or two, or an error that is printed.
unfoldable pub with_one {ℓ} : {A : Type ℓ} → List Bytes → A → (Bytes → A) → A
with_one [] otherwise go = otherwise
with_one (x ∷ xs) otherwise go = go x

unfoldable pub with_two {ℓ} : {A : Type ℓ} → List Bytes → A → (Bytes → Bytes → A) → A
with_two [] otherwise go = otherwise
with_two (x ∷ []) otherwise go = otherwise
with_two (x ∷ y ∷ ys) otherwise go = go x y

-- What `socket`, `gethostbyname` and `connect` give for a host: a descriptor or -1, whether there
-- is such a host, and whether it can be reached on a port.
pub record ConnectCalls : Type 0 where
  pub socket : Option ℕ
  pub is_host : Bool
  pub connects : ℕ → Bool

-- The descriptor of the connection, and those that have been closed. `htons` cuts the port to 16
-- bits.
unfoldable pub connect_to_server : ConnectCalls → ℕ → Option ℕ × List ℕ
connect_to_server calls port = elim calls.socket [
  | none ↦ (none, [])
  | some fd ↦
      if calls.is_host
      then if calls.connects (port % 2 ^ 16) then (some fd, []) else (none, fd ∷ [])
      else (none, fd ∷ [])
]

-- `file_length`, `format_size` and `format_time` are what libc makes of files and numbers; `fuel`
-- is for the commands that call themselves.
module _ {Fs : Type 0} (os : Os Fs) (file_length : Fs → Bytes → Option ℕ)
    (format_size format_time : ℕ → Bytes) (fuel : ℕ) where
  -- `client_login` on a connection of its own, if there is one, and back on the first.
  unfoldable pub login_apart : Option Conn → Bytes → Bytes → Session Fs → Session Fs
  login_apart none username password s = s
  login_apart (some c) username password s =
      record (client_login (record s { conn = c }) username password) { conn = s.conn }

  -- The commands; `second` is what a second `connect_to_server` gives.
  unfoldable pub run_client : Option Conn → Bytes → List Bytes → Session Fs → Session Fs
  run_client second command args s =
      if str_eq command (codes "login")
      then with_two args s (λ username password. login_apart second username password s)
      else if str_eq command (codes "logout")
      then record (client_logout s) { username = []; password = [] }
      else if str_eq command (codes "list")
      then client_list_directory format_size format_time fuel s
          (with_one args (codes "/") (λ path. path))
      else if str_eq command (codes "get")
      then with_two args s (λ path local_path. (client_get_file os s path local_path).1)
      else if str_eq command (codes "put")
      then with_two args s (λ path local_path. (client_put_file os file_length s path local_path).1)
      else if str_eq command (codes "delete")
      then with_one args s (λ path. client_delete_file fuel s path)
      else if str_eq command (codes "mkdir")
      then with_one args s (λ path. client_create_directory fuel s path)
      else s

  -- The result of the program, and the session if the server could be reached. `first` and
  -- `second` are what the calls of `connect_to_server` give for a host, and `peer` is what happens
  -- on the connection of a descriptor.
  unfoldable pub client_main :
      List Bytes
      → (Bytes → ConnectCalls)
      → (Bytes → ConnectCalls)
      → (ℕ → Conn)
      → Fs
      → Bytes
      → Bytes
      → Rc × Option (Session Fs)
  client_main args first second peer fs stdin stack =
      let (g, rest) = parse_options no_value default_globals args in
      elim rest [
        | [] ↦ (failure, none)
        | command ∷ command_args ↦ elim (connect_to_server (first g.host) g.port).0 [
          | none ↦ (failure, none)
          | some fd ↦
              let apart : Option Conn = elim (connect_to_server (second g.host) g.port).0 [
                | none ↦ none
                | some fd' ↦ some (peer fd')
              ] in
              let s : Session Fs = record {
                conn = peer fd;
                fs = fs;
                username = g.username;
                password = g.password;
                stdin = stdin;
                stack = stack;
                stdout = [];
              } in
              (success, some (run_client apart command command_args s))
        ]
      ]
