-- ===== src/Tests/Config.antt =====
-- The configuration at concrete inputs.
use cileserver.Base.CString.{Bytes, codes, cstr, skip, str_eq, lacks-NoByte}
use cileserver.Base.Decimal.{atoi, parse_digits}
use cileserver.Base.Text.{fgets, break_at, strtok}
use cileserver.Base.{◌≡◌, refl, true, false, [], ◌∷◌, ◌++◌, none, some, success, arith}
use cileserver.Config.File.Spaced.{set_from_line_spaced}
use cileserver.Config.File.RoundTrip.{IsSavable, load_config-save_config}
use cileserver.Config.File.{
  ConfigState, init_default_config, set_config_value, set_from_line, config_line, load_lines,
  load_config, save_config,
}
use cileserver.Config.{Config}
use cileserver.Tests.Disk.{config, disk_os, empty_disk, store, a_txt, a_txt-KeepsData}

abbrev shared : Config
shared = record (config 1) { auth_file = codes "users.auth" }

abbrev shared_state : ConfigState
shared_state = record {
  config = shared;
  config_file_path = a_txt;
  config_loaded = true;
  current_log_level = 1;
}

abbrev default_state : ConfigState
default_state = record {
  config = init_default_config none;
  config_file_path = a_txt;
  config_loaded = false;
  current_log_level = 1;
}

shared-IsSavable : IsSavable shared
shared-IsSavable = record {
  root = record {
    filled = omega arith;
    no_equals = lacks-NoByte b'=' (codes "/srv") refl;
    no_newline = lacks-NoByte 10 (codes "/srv") refl;
    no_nul = lacks-NoByte 0 (codes "/srv") refl;
    no_space = λ e. omega arith;
  };
  root_short = omega arith;
  auth = record {
    filled = omega arith;
    no_equals = lacks-NoByte b'=' (codes "users.auth") refl;
    no_newline = lacks-NoByte 10 (codes "users.auth") refl;
    no_nul = lacks-NoByte 0 (codes "users.auth") refl;
    no_space = λ e. omega arith;
  };
  auth_short = omega arith;
  ints = (omega arith, omega arith, omega arith, omega arith);
}

opened_file : disk_os.open_write empty_disk a_txt ≡ some (store empty_disk a_txt [])
opened_file = unfold str_eq in refl

load_config-save_config_example :
    ((save_config disk_os empty_disk shared_state).0 ≡ success)
    × (load_config disk_os (save_config disk_os empty_disk shared_state).1 none default_state
        ≡ shared_state)
load_config-save_config_example =
    load_config-save_config disk_os empty_disk (store empty_disk a_txt []) shared_state
      default_state none a_txt-KeepsData opened_file refl shared-IsSavable

-- Spaces before a name and a value are skipped; one behind the name makes it unknown.
abbrev spaced : Bytes
spaced = codes "#port=1" ++ (10 ∷ (codes " port= 80" ++ (10 ∷ codes "log_level =3")))

load_spaced :
    load_lines 9 spaced default_state
    ≡ record default_state { config = record (init_default_config none) { port = 80 } }
unfolding load_lines fgets config_line set_from_line set_config_value break_at strtok cstr skip
    str_eq atoi parse_digits init_default_config
load_spaced = refl

set_from_line_spaced_example : set_from_line (codes "port = 9090") default_state ≡ default_state
set_from_line_spaced_example =
    set_from_line_spaced b'p' (codes "ort") (codes " 9090") default_state
      (lacks-NoByte b'=' (codes "port") refl) (λ e. omega arith)
