-- ===== src/Config/File/RoundTrip.antt =====
-- The configuration file of src/config.c, through `save_config` and `load_config`.
use cileserver.Config.File.Lines.{IsSide, int-IsSide, load_lines-print_entry}
use cileserver.Base.CString.{Bytes, codes, str_eq, lacks, lacks-NoByte}
use cileserver.Base.Decimal.{print_int, length-print_int, atoi-print_int}
use cileserver.Base.Text.{newline, fgets}
use cileserver.Base.{
  ℕ, zero, suc, ◌-◌, ◌^◌, ◌<◌, ◌≤◌, ◌≡◌, ◌≢◌, refl, ap, ◌∙◌, true, [], Option, some, success, arith,
  length, get_or, take_all,
}
use cileserver.Config.File.{
  ConfigState, init_default_config, set_config_value, config_line, load_lines, print_settings,
  print_config, load_config, save_config,
}
use cileserver.Config.{Config}
use cileserver.Os.{Os, KeepsData, content_at, content_at-cases}

-- A configuration that the file can hold: the lines with the two texts fit the array of a line.
pub record IsSavable (c : Config) : Type 0 where
  pub root : IsSide c.root_directory
  pub root_short : length c.root_directory ≤ 1007
  pub auth : IsSide c.auth_file
  pub auth_short : length c.auth_file ≤ 1012
  pub ints :
      (c.max_connections < 2 ^ 32)
      × (c.port < 2 ^ 32)
      × (c.log_level < 2 ^ 32)
      × (c.enable_auth < 2 ^ 32)

name :
    (s : Bytes)
    → lacks b'=' s ≡ true
    → lacks newline s ≡ true
    → lacks 0 s ≡ true
    → 0 < length s
    → get_or s 0 0 ≢ b' '
    → IsSide s
name s equals line nul filled space = record {
  filled = filled;
  no_equals = lacks-NoByte b'=' s equals;
  no_newline = lacks-NoByte newline s line;
  no_nul = lacks-NoByte 0 s nul;
  no_space = space;
}

-- The state after the assignments of a file that holds `c`.
assigned : Config → ConfigState → ConfigState
assigned c s =
    let s1 = (set_config_value s (codes "root_directory") c.root_directory).1 in
    let s2 = (set_config_value s1 (codes "max_connections") (print_int c.max_connections)).1 in
    let s3 = (set_config_value s2 (codes "port") (print_int c.port)).1 in
    let s4 = (set_config_value s3 (codes "log_level") (print_int c.log_level)).1 in
    let s5 = (set_config_value s4 (codes "enable_auth") (print_int c.enable_auth)).1 in
    (set_config_value s5 (codes "auth_file") c.auth_file).1

assigned-whole :
    (c : Config) (s : ConfigState)
    → IsSavable c
    → assigned c s ≡ record s { config = c; current_log_level = c.log_level }
unfolding assigned set_config_value str_eq
assigned-whole c s v = rw (take_all 1023 c.root_directory (omega (arith, v.root_short))) (
    rw (take_all 1023 c.auth_file (omega (arith, v.auth_short))) (
      rw (atoi-print_int c.max_connections v.ints.0) (
        rw (atoi-print_int c.port v.ints.1) (
          rw (atoi-print_int c.log_level v.ints.2)
            (rw (atoi-print_int c.enable_auth v.ints.3) refl)))))

load_lines_end : (f : ℕ) (s : ConfigState) → load_lines f [] s ≡ s
unfolding load_lines fgets
load_lines_end zero s = refl
load_lines_end (suc f) s = refl

load_lines-comments :
    (f : ℕ) (c : Config) (s : ConfigState)
    → load_lines (suc (suc f)) (print_config c) s ≡ load_lines f (print_settings c) s
unfolding load_lines print_config fgets config_line
load_lines-comments f c s = refl

load_lines-print_settings :
    (f : ℕ) (c : Config) (s : ConfigState)
    → IsSavable c
    → load_lines (suc (suc (suc (suc (suc (suc f)))))) (print_settings c) s ≡ assigned c s
unfolding print_settings assigned
load_lines-print_settings f c s v =
    load_lines-print_entry b'r' (codes "oot_directory") c.root_directory
      (name (codes "root_directory") refl refl refl (omega arith) (λ e. omega arith)) v.root
      (suc (suc (suc (suc (suc f))))) _ _ (λ e. omega arith) (omega (arith, v.root_short))
    ∙ load_lines-print_entry b'm' (codes "ax_connections") (print_int c.max_connections)
        (name (codes "max_connections") refl refl refl (omega arith) (λ e. omega arith))
        (int-IsSide c.max_connections) (suc (suc (suc (suc f)))) _ _ (λ e. omega arith)
        (omega (arith, length-print_int c.max_connections))
    ∙ load_lines-print_entry b'p' (codes "ort") (print_int c.port)
        (name (codes "port") refl refl refl (omega arith) (λ e. omega arith)) (int-IsSide c.port)
        (suc (suc (suc f))) _ _ (λ e. omega arith) (omega (arith, length-print_int c.port))
    ∙ load_lines-print_entry b'l' (codes "og_level") (print_int c.log_level)
        (name (codes "log_level") refl refl refl (omega arith) (λ e. omega arith))
        (int-IsSide c.log_level) (suc (suc f)) _ _ (λ e. omega arith)
        (omega (arith, length-print_int c.log_level))
    ∙ load_lines-print_entry b'e' (codes "nable_auth") (print_int c.enable_auth)
        (name (codes "enable_auth") refl refl refl (omega arith) (λ e. omega arith))
        (int-IsSide c.enable_auth) (suc f) _ _ (λ e. omega arith)
        (omega (arith, length-print_int c.enable_auth))
    ∙ load_lines-print_entry b'a' (codes "uth_file") c.auth_file
        (name (codes "auth_file") refl refl refl (omega arith) (λ e. omega arith)) v.auth f _ _
        (λ e. omega arith) (omega (arith, v.auth_short))
    ∙ load_lines_end f _

length-print_config : (c : Config) → 33 ≤ length (print_config c)
unfolding print_config
length-print_config c = omega arith

-- Reading the lines that `save_config` writes sets every field to what was saved.
load_lines-print_config :
    (c : Config) (s : ConfigState)
    → IsSavable c
    → load_lines (suc (length (print_config c))) (print_config c) s
      ≡ record s { config = c; current_log_level = c.log_level }
load_lines-print_config c s v =
    let f = length (print_config c) - 7 in
    let e : suc (length (print_config c)) ≡ suc (suc (suc (suc (suc (suc (suc (suc f))))))) =
      omega (arith, length-print_config c) in
    ap (λ n. load_lines n (print_config c) s) e
    ∙ load_lines-comments _ c s
    ∙ load_lines-print_settings f c s v
    ∙ assigned-whole c s v

module _ {Fs : Type 0} (os : Os Fs) (fs : Fs) where
  load_config-loads :
      (cwd : Option Bytes) (s : ConfigState) (bytes : Bytes)
      → content_at os fs s.config_file_path ≡ some bytes
      → load_config os fs cwd s
        ≡ (record (load_lines
            (suc (length bytes))
            bytes
            (record s { config = init_default_config cwd })) { config_loaded = true })
  unfolding load_config
  load_config-loads cwd s bytes e =
      let (file, there, is) = content_at-cases os fs s.config_file_path bytes e in
      rw (there, load_config) (rw is refl)

  save_config-writes :
      (s : ConfigState) (opened : Fs)
      → KeepsData os s.config_file_path
      → os.open_write fs s.config_file_path ≡ some opened
      → ((save_config os fs s).0 ≡ success)
        × (content_at os (save_config os fs s).1 s.config_file_path ≡ some (print_config s.config))
  unfolding save_config
  save_config-writes s opened d o =
      rw (o, save_config)
        (refl, d.appends opened [] (print_config s.config) (d.truncates fs opened o))

-- When the configuration file can be opened, on a disk that keeps its data, saving succeeds, and
-- loading that file, from any state with the same path, gives the same configuration, with the
-- logger at its level. The texts are not empty, have no `=`, newline or NUL, do not begin with a
-- space, and their lines fit an array of 1024 bytes.
pub load_config-save_config :
    {Fs : Type 0} (os : Os Fs) (fs opened : Fs) (s before : ConfigState) (cwd : Option Bytes)
    → KeepsData os s.config_file_path
    → os.open_write fs s.config_file_path ≡ some opened
    → before.config_file_path ≡ s.config_file_path
    → IsSavable s.config
    → ((save_config os fs s).0 ≡ success)
      × (load_config os (save_config os fs s).1 cwd before ≡ record {
        config = s.config;
        config_file_path = s.config_file_path;
        config_loaded = true;
        current_log_level = s.config.log_level;
      })
load_config-save_config os fs opened s before cwd d o same v =
    let (done, stored) = save_config-writes os fs s opened d o in
    (
      done,
      load_config-loads os (save_config os fs s).1 cwd before (print_config s.config)
            (rw same stored)
          ∙ ap marked (
              load_lines-print_config s.config (record before { config = init_default_config cwd })
                v)
          ∙ ap at_path same,
    )
  where
    marked : ConfigState → ConfigState
    marked x = record x { config_loaded = true }

    at_path : Bytes → ConfigState
    at_path path = record {
      config = s.config;
      config_file_path = path;
      config_loaded = true;
      current_log_level = s.config.log_level;
    }
