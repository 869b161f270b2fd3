-- ===== src/Config/File.antt =====
-- The functions of src/config.c, over the calls on files of `Os`.
pub mod Lines
pub mod Spaced
pub mod RoundTrip
use cileserver.Base.CString.{Bytes, codes, cstr, skip, str_eq}
use cileserver.Base.Decimal.{print_int, atoi}
use cileserver.Base.Text.{newline, fgets, break_at, strtok}
use cileserver.Base.{
  ℕ, zero, suc, Bool, true, false, ◌||◌, [], ◌∷◌, ◌++◌, Option, none, some, Rc, success, failure,
  ◌==◌, if◌then◌else◌, length, take,
}
use cileserver.Config.{Config}
use cileserver.Os.{Os}

-- The static variables of src/config.c, and `current_log_level` of src/logger.c.
pub record ConfigState : Type 0 where
  pub config : Config
  pub config_file_path : Bytes
  pub config_loaded : Bool
  pub current_log_level : ℕ

-- `getcwd` gives the directory, or fails.
unfoldable pub init_default_config : Option Bytes → Config
init_default_config cwd = record {
  root_directory = take 1023 (elim cwd [ none ↦ codes "." | some directory ↦ directory ]);
  max_connections = 100;
  port = 8080;
  log_level = 1;
  enable_auth = 0;
  auth_file = codes "users.auth";
}

-- The path is not NULL.
unfoldable pub set_config_path : ConfigState → Bytes → ConfigState
set_config_path s path = record s { config_file_path = take 1023 path }

-- The name and the value are not NULL.
unfoldable pub set_config_value : ConfigState → Bytes → Bytes → Rc × ConfigState
set_config_value s name value =
    if str_eq name (codes "root_directory")
    then (success, record s { config = record s.config { root_directory = take 1023 value } })
    else if str_eq name (codes "max_connections")
    then (success, record s { config = record s.config { max_connections = atoi value } })
    else if str_eq name (codes "port")
    then (success, record s { config = record s.config { port = atoi value } })
    else if str_eq name (codes "log_level")
    then (
      success,
      record s {
        config = record s.config { log_level = atoi value };
        current_log_level = atoi value;
      },
    )
    else if str_eq name (codes "enable_auth")
    then (success, record s { config = record s.config { enable_auth = atoi value } })
    else if str_eq name (codes "auth_file")
    then (success, record s { config = record s.config { auth_file = take 1023 value } })
    else (failure, s)

-- The assignment in a line that is neither a comment nor empty.
unfoldable pub set_from_line : Bytes → ConfigState → ConfigState
set_from_line line s = elim (strtok b'=' line) [
  | none ↦ s
  | some (key, after_key) ↦ elim (strtok b'=' after_key) [
    | none ↦ s
    | some (value, after_value) ↦ (set_config_value s (skip b' ' key) (skip b' ' value)).1
  ]
]

-- The body of the loop, on a line that is not empty.
unfoldable pub config_line : ℕ → Bytes → ConfigState → ConfigState
config_line c line s =
    if c == b'#' || c == newline then s else set_from_line (break_at newline (cstr (c ∷ line))).0 s

-- `while (fgets(line, 1024, file) != NULL)`; each round takes a byte or more.
unfoldable pub load_lines : ℕ → Bytes → ConfigState → ConfigState
load_lines zero file s = s
load_lines (suc f) file s =
    let (line, rest) = fgets 1023 file in
    elim line [ [] ↦ s | c ∷ cs ↦ load_lines f rest (config_line c cs s) ]

-- `fprintf(file, "name=%s\n", value)`
unfoldable pub print_entry : Bytes → Bytes → Bytes
print_entry name value = name ++ b'=' ∷ (value ++ newline ∷ [])

unfoldable pub print_settings : Config → Bytes
print_settings c =
    print_entry (codes "root_directory") c.root_directory
    ++ (print_entry (codes "max_connections") (print_int c.max_connections)
        ++ (print_entry (codes "port") (print_int c.port)
            ++ (print_entry (codes "log_level") (print_int c.log_level)
                ++ (print_entry (codes "enable_auth") (print_int c.enable_auth)
                    ++ (print_entry (codes "auth_file") c.auth_file ++ [])))))

-- All that `save_config` writes.
unfoldable pub print_config : Config → Bytes
print_config c = codes "# CileServer Configuration File" ++ (newline ∷ newline ∷ print_settings c)

module _ {Fs : Type 0} (os : Os Fs) (fs : Fs) where
  -- It returns 0 on every branch.
  unfoldable pub load_config : Option Bytes → ConfigState → ConfigState
  load_config cwd s =
      let s' : ConfigState = record s { config = init_default_config cwd } in
      elim (os.open_read fs s.config_file_path) [
        | none ↦ record s' { config_loaded = true }
        | some file ↦ record (load_lines (suc (length file.content)) file.content s') {
          config_loaded = true;
        }
      ]

  unfoldable pub get_config : Option Bytes → ConfigState → ConfigState
  get_config cwd s = let loaded = load_config cwd s in if s.config_loaded then s else loaded

  unfoldable pub save_config : ConfigState → Rc × Fs
  save_config s = elim (os.open_write fs s.config_file_path) [
    | none ↦ (failure, fs)
    | some opened ↦ (success, (os.fwrite opened s.config_file_path (print_config s.config)).0)
  ]
