-- ===== src/Config.antt =====
-- include/config.h: the configuration of the server. An `int` is its 32-bit pattern.
pub mod File
use cileserver.Base.{ℕ}
use cileserver.Base.CString.{Bytes}

-- `server_config_t`
pub record Config : Type 0 where
  pub root_directory : Bytes
  pub max_connections : ℕ
  pub port : ℕ
  pub log_level : ℕ
  pub enable_auth : ℕ
  pub auth_file : Bytes
