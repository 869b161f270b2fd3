-- ===== src/Main/Start.antt =====
-- The port on which `main` of src/main.c starts the server.
use cileserver.Base.CString.{Bytes}
use cileserver.Base.{
  ℕ, ◌%◌, ◌^◌, ◌≡◌, ap, ◌∙◌, false, List, Option, none, some, Rc, success, failure, take,
}
use cileserver.Config.File.{ConfigState, set_config_path, load_config, init_default_config}
use cileserver.Config.{Config}
use cileserver.Main.{Options, apply_options, start, default_backlog}
use cileserver.Os.{Os}
use cileserver.Server.Init.{
  SocketCalls, Starting, InitOutcome, init_server, init_server-InitOutcome,
}

-- A start that is reported as such is bound to its port.
init_server-port :
    {Fs : Type 0} (os : Os Fs) (cfg : Config) (calls : SocketCalls) (port backlog : ℕ)
    (draws : List ℕ) (s : Starting Fs)
    → (init_server os cfg calls port backlog draws s).0 ≡ success
    → (init_server os cfg calls port backlog draws s).1.listener.bound_port ≡ some (port % 2 ^ 16)
init_server-port {Fs} os cfg calls port backlog draws s =
    of_outcome (init_server os cfg calls port backlog draws s)
      (init_server-InitOutcome os cfg calls port backlog draws s)
  where
    of_outcome :
        (r : Rc × Starting Fs)
        → InitOutcome os cfg calls port backlog draws s r
        → r.0 ≡ success
        → r.1.listener.bound_port ≡ some (port % 2 ^ 16)
    of_outcome (success, v) h e = h.0.on_port
    of_outcome (failure, v) h e = cc

module _ {Fs : Type 0} (os : Os Fs) (o : Options) (cwd : Option Bytes) (config_state : ConfigState)
    (calls : SocketCalls) (draws : List ℕ) (s : Starting Fs) where
  default_port : (init_default_config cwd).port ≡ 8080
  unfolding init_default_config
  default_port = λ i. 8080

  default_config :
      os.open_read s.fs (take 1023 o.config_path) ≡ none
      → (load_config os s.fs cwd (set_config_path config_state o.config_path)).config
        ≡ init_default_config cwd
  unfolding load_config set_config_path
  default_config no_file = rw (no_file, load_config) (λ i. init_default_config cwd)

  -- Without a configuration file and without `-p`, a server that starts listens on port 8080.
  pub start_default_port :
      os.open_read s.fs (take 1023 o.config_path) ≡ none
      → o.port_specified ≡ false
      → (start os o cwd config_state calls draws s).0 ≡ success
      → (start os o cwd config_state calls draws s).2.listener.bound_port ≡ some 8080
  unfolding start apply_options
  start_default_port no_file no_port good =
      let loaded = load_config os s.fs cwd (set_config_path config_state o.config_path) in
      let (port, configured) = apply_options o loaded in
      let is_default : port ≡ 8080 =
        rw (no_port, apply_options) (ap (λ c. c.port) (default_config no_file) ∙ default_port) in
      init_server-port os configured.config calls port default_backlog draws s good
      ∙ ap (λ p. some (p % 2 ^ 16)) is_default
