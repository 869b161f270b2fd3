-- ===== src/Main/CommandLine.antt =====
-- The options of src/main.c, from a command line back to what was meant.
use cileserver.Base.CString.{Bytes, codes, str_eq}
use cileserver.Base.Decimal.{print_int, atoi-print_int}
use cileserver.Base.{
  ℕ, ◌^◌, ◌≤◌, ◌<◌, ◌≡◌, ◌≢◌, refl, sym, ap, ap₂, ◌∙◌, Bool, true, false, List, [], ◌∷◌, ◌++◌,
  Option, none, some, length, take_all, arith, get_or, ◌==◌,
}
use cileserver.Main.{
  Options, default_options, no_value, parse_option, parse_argument, parse_arguments,
}

-- A command line for the options.
abbrev pub port_arguments : Bool → ℕ → List Bytes
port_arguments false port = []
port_arguments true port = codes "-p" ∷ print_int port ∷ []

abbrev pub auth_arguments : Option Bool → Bytes → List Bytes
auth_arguments none file = []
auth_arguments (some false) file = codes "--no-auth" ∷ []
auth_arguments (some true) file = codes "--auth" ∷ file ∷ []

abbrev pub command_line : Options → List Bytes
command_line o =
    port_arguments o.port_specified o.port
    ++ (codes "-c" ∷ o.config_path ∷ auth_arguments o.auth_enabled o.auth_file)

-- What the file of `-a` is when there is no such option, and what it may be when there is one.
abbrev pub IsAuthFile : Option Bool → Bytes → Type 0
IsAuthFile (some true) file = (length file ≤ 1023) × (get_or file 0 0 ≢ b'-')
IsAuthFile _ file = file ≡ codes "config/users.auth"

abbrev pub IsPort : Bool → ℕ → Type 0
IsPort true port = port < 2 ^ 32
IsPort false port = port ≡ 9090

parse_port :
    (specified : Bool) (port : ℕ) (rest : List Bytes)
    → IsPort specified port
    → parse_arguments no_value default_options (port_arguments specified port ++ rest)
      ≡ parse_arguments no_value
          (record default_options { port = port; port_specified = specified })
          rest
unfolding parse_arguments parse_argument parse_option str_eq
parse_port false port rest h =
    ap (λ p. parse_arguments no_value (record default_options { port = p }) rest) (sym h)
parse_port true port rest h =
    ap
      (λ p.
        parse_arguments no_value (record default_options { port = p; port_specified = true }) rest)
      (atoi-print_int port h)

parse_config :
    (o : Options) (path : Bytes) (rest : List Bytes)
    → length path ≤ 1023
    → parse_arguments no_value o (codes "-c" ∷ path ∷ rest)
      ≡ parse_arguments no_value (record o { config_path = path }) rest
unfolding parse_arguments parse_argument parse_option str_eq
parse_config o path rest h =
    ap (λ p. parse_arguments no_value (record o { config_path = p }) rest) (take_all 1023 path h)

parse_auth :
    (enabled : Option Bool) (file : Bytes) (o : Options)
    → IsAuthFile enabled file
    → o.auth_enabled ≡ none
    → o.auth_file ≡ codes "config/users.auth"
    → parse_arguments no_value o (auth_arguments enabled file)
      ≡ some (record o { auth_enabled = enabled; auth_file = file })
unfolding parse_arguments parse_argument parse_option str_eq
parse_auth none file o h n d =
    ap₂ (λ a f. some (record o { auth_enabled = a; auth_file = f })) n (d ∙ sym h)
parse_auth (some false) file o h n d =
    ap (λ f. some (record o { auth_enabled = some false; auth_file = f })) (d ∙ sym h)
parse_auth (some true) file o h n d =
    let dashless : (get_or file 0 0 == b'-') ≡ false = ground (arith, h.1) in
    rw (dashless, parse_arguments)
      (ap (λ f. some (record o { auth_enabled = some true; auth_file = f }))
        (take_all 1023 file h.0))

-- The options that a command line gives are those it was made from: the port as an `int`, a path
-- and a file that fit their arrays, a file that does not begin with a dash, and the defaults where
-- an option is not given.
pub parse_arguments-command_line :
    (o : Options)
    → IsPort o.port_specified o.port
    → length o.config_path ≤ 1023
    → IsAuthFile o.auth_enabled o.auth_file
    → parse_arguments no_value default_options (command_line o) ≡ some o
parse_arguments-command_line o port path file =
    let with_port = record default_options { port = o.port; port_specified = o.port_specified } in
    parse_port o.port_specified o.port _ port
    ∙ parse_config with_port o.config_path (auth_arguments o.auth_enabled o.auth_file) path
    ∙ parse_auth o.auth_enabled o.auth_file (record with_port { config_path = o.config_path }) file
        refl refl
