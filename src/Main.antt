-- ===== src/Main.antt =====
-- src/main.c: the options of the command line, the start of the server and the end of the
-- program.
pub mod CommandLine
pub mod Exit
pub mod Start
pub mod Loop
use cileserver.Base.CString.{Bytes, codes, str_eq, is_option}
use cileserver.Base.Decimal.{atoi}
use cileserver.Base.{
  ℕ, Bool, true, false, ◌||◌, List, [], ◌∷◌, Option, none, some, Rc, success, failure, ◌==◌,
  if◌then◌else◌, get_or, take,
}
use cileserver.Config.File.{ConfigState, set_config_path, load_config}
use cileserver.Logger.{Logger, Call, returned, blocked, init_logger, cleanup_logger, log_info}
use cileserver.Os.{Os}
use cileserver.Server.Slots.{Server, Event, handle_event}
use cileserver.Server.Init.{SocketCalls, Starting, init_server}

-- `DEFAULT_BACKLOG`
abbrev pub default_backlog : ℕ
default_backlog = 10

-- The variables of `main` that the options set; for `auth_enabled`, none is -1.
pub record Options : Type 0 where
  pub port : ℕ
  pub port_specified : Bool
  pub auth_enabled : Option Bool
  pub config_path : Bytes
  pub auth_file : Bytes

abbrev pub default_options : Options
default_options = record {
  port = 9090;
  port_specified = false;
  auth_enabled = none;
  config_path = codes "config/cileserver.conf";
  auth_file = codes "config/users.auth";
}

-- What the loop expects of the next argument: nothing, or the value of the option before it, which
-- `argv[i + 1]` and `i++` take.
pub data Awaited : Type 0 where
  no_value port_value config_value auth_value : Awaited

-- One round of the loop: it goes on, or the usage is printed and the program returns 0.
pub data Round : Type 0 where
  next : Awaited → Options → Round
  usage : Round

unfoldable pub parse_option : Options → Bytes → Round
parse_option o arg =
    if is_option (codes "-p") (codes "--port") arg
    then next port_value o
    else if is_option (codes "-c") (codes "--config") arg
    then next config_value o
    else if is_option (codes "-a") (codes "--auth") arg
    then next auth_value (record o { auth_enabled = some true })
    else if str_eq arg (codes "--no-auth")
    then next no_value (record o { auth_enabled = some false })
    else if is_option (codes "-h") (codes "--help") arg
    then usage
    else next no_value (record o { config_path = take 1023 arg })

-- The file of `-a` is left out if what follows begins with a dash.
unfoldable pub parse_argument : Awaited → Options → Bytes → Round
parse_argument no_value o arg = parse_option o arg
parse_argument port_value o arg =
    next no_value (record o { port = atoi arg; port_specified = true })
parse_argument config_value o arg = next no_value (record o { config_path = take 1023 arg })
parse_argument auth_value o arg =
    if get_or arg 0 0 == b'-'
    then parse_option o arg
    else next no_value (record o { auth_file = take 1023 arg })

-- The loop over `argv[1]` and what follows; none is the usage.
unfoldable pub parse_arguments : Awaited → Options → List Bytes → Option Options
parse_arguments awaited o [] = some o
parse_arguments awaited o (arg ∷ args) = elim (parse_argument awaited o arg) [
  | usage ↦ none
  | next awaited' o' ↦ parse_arguments awaited' o' args
]

-- The configuration after the options, and the port.
unfoldable pub apply_options : Options → ConfigState → ℕ × ConfigState
apply_options o s = (
  (if o.port_specified then o.port else s.config.port),
  elim o.auth_enabled [
    | none ↦ s
    | some true ↦ record s {
      config = record s.config {
        enable_auth = 1;
        auth_file = elim o.auth_file [ [] ↦ s.config.auth_file | c ∷ cs ↦ take 1023 (c ∷ cs) ];
      };
    }
    | some false ↦ record s { config = record s.config { enable_auth = 0 } }
  ],
)

module _ {Fs : Type 0} (os : Os Fs) where
  -- From the path of the configuration to `init_server`; its result is the program's, if it is -1.
  -- `set_config_path` and `load_config` return 0. `cwd` is what `getcwd` gives.
  unfoldable pub start :
      Options
      → Option Bytes
      → ConfigState
      → SocketCalls
      → List ℕ
      → Starting Fs
      → Rc × ConfigState × Starting Fs
  start o cwd config_state calls draws s =
      let loaded = load_config os s.fs cwd (set_config_path config_state o.config_path) in
      let (port, configured) = apply_options o loaded in
      let (rc, s') = init_server os configured.config calls port default_backlog draws s in
      (rc, configured, s')

-- What follows `shutdown_server` at the end of `main`; the times are those of the two messages.
unfoldable pub finish : Bool → Bytes → Bytes → Logger → Call
finish opens timestamp timestamp' s = elim (cleanup_logger timestamp s) [
  | blocked s' ↦ blocked s'
  | returned rc s' ↦ log_info opens timestamp' (codes "Server shutdown complete") s'
]

-- What has become of the program before its loop: it has ended with a result, it waits for the
-- mutex of the logger, or it serves.
pub data Launch (Fs : Type 0) : Type 0 where
  exited : ℕ → Launch Fs
  stuck : Logger → Launch Fs
  serving : Logger → ConfigState → Starting Fs → Launch Fs

-- `main` up to its loop, on the arguments behind the name of the program.
unfoldable pub launch :
    {Fs : Type 0}
    → Os Fs
    → List Bytes
    → Bool
    → Bytes
    → Logger
    → Option Bytes
    → ConfigState
    → SocketCalls
    → List ℕ
    → Starting Fs
    → Launch Fs
launch os args opens timestamp logger cwd config_state calls draws s =
    elim (parse_arguments no_value default_options args) [
      | none ↦ exited 0
      | some o ↦ elim (init_logger opens timestamp logger) [
        | blocked logger' ↦ stuck logger'
        | returned failure logger' ↦ exited 1
        | returned success logger' ↦
            let (rc, configured, s') = start os o cwd config_state calls draws s in
            elim rc [ failure ↦ exited 1 | success ↦ serving logger' configured s' ]
      ]
    ]

-- `SIGINT` and `SIGTERM`; the result is `keep_running`.
unfoldable pub handle_signal : ℕ → Bool → Bool
handle_signal sig keep_running = if sig == 2 || sig == 15 then false else keep_running

-- What happens while the loop of `main` runs: a signal, or an event of the server.
pub data Happening : Type 0 where
  signal : ℕ → Happening
  server_event : Event → Happening

-- `while (keep_running) { server_process(); ... }`, with whether the loop has ended. The events
-- that are not its own calls are the ends of clients in their threads.
unfoldable pub main_loop : Bool → Server → List Happening → Bool × Server
main_loop false s hs = (true, s)
main_loop true s [] = (false, s)
main_loop true s (signal sig ∷ hs) = main_loop (handle_signal sig true) s hs
main_loop true s (server_event e ∷ hs) = main_loop true (handle_event s e) hs
