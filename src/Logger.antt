-- ===== src/Logger.antt =====
-- src/logger.c: the log file, the level below which messages are dropped, and the mutex. Each
-- call is a critical section of its own, so what a lock waits for is the thread that asks for it.
pub mod Levels
use cileserver.Base.CString.{Bytes, codes}
use cileserver.Base.Text.{newline}
use cileserver.Base.{
  ℕ, Bool, true, false, [], ◌∷◌, ◌++◌, Rc, success, failure, ltb, leb, if◌then◌else◌, take, get_or,
}

-- `log_level_t`
abbrev pub log_debug_level : ℕ
log_debug_level = 0

abbrev pub log_info_level : ℕ
log_info_level = 1

abbrev pub log_warning_level : ℕ
log_warning_level = 2

abbrev pub log_error_level : ℕ
log_error_level = 3

-- The static variables, what has been written to the file, and what to the standard error.
-- `is_open` is `log_file != NULL`.
pub record Logger : Type 0 where
  pub is_open : Bool
  pub locked : Bool
  pub current_log_level : ℕ
  pub file : Bytes
  pub stderr : Bytes

-- How a call ends: it returns, or it waits for the mutex that its own thread holds.
pub data Call : Type 0 where
  returned : Rc → Logger → Call
  blocked : Logger → Call

-- `level_strings[level]`
unfoldable pub level_string : ℕ → Bytes
level_string level =
    get_or (codes "DEBUG" ∷ codes "INFO" ∷ codes "WARNING" ∷ codes "ERROR" ∷ []) level []

-- `fprintf(file, "[%s] [%s] %s\n", timestamp, ..., message)`
unfoldable pub log_line : Bytes → ℕ → Bytes → Bytes
log_line timestamp level message =
    codes "["
    ++ (timestamp
        ++ (codes "] [" ++ (level_string level ++ (codes "] " ++ (message ++ newline ∷ [])))))

-- The lock of a section, the rest of which returns and unlocks.
unfoldable pub with_lock : Logger → Call → Call
with_lock s section = if s.locked then blocked s else section

-- `timestamp` is what `time`, `localtime` and `strftime` give.
module _ (timestamp : Bytes) where
  unfoldable pub cleanup_logger : Logger → Call
  cleanup_logger s = with_lock s (
      returned success (
        if s.is_open
        then record s {
          is_open = false;
          file = s.file ++ log_line timestamp log_info_level (codes "Logger shutting down");
        }
        else s))

  -- From the point where the time is asked for, to the unlock.
  unfoldable pub write_message : ℕ → Bytes → Logger → Call
  write_message level message s =
      let line = log_line timestamp level (take 1023 message) in
      returned success (record s {
        locked = false;
        file = s.file ++ line;
        stderr = if leb log_warning_level level then s.stderr ++ line else s.stderr;
      })

-- `opens` says whether `fopen` opens the file.
module _ (opens : Bool) (timestamp : Bytes) where
  unfoldable pub init_logger : Logger → Call
  init_logger s = with_lock s (
      if s.is_open
      then returned success s
      else if opens
      then returned success (record s {
        is_open = true;
        file = s.file ++ log_line timestamp log_info_level (codes "Logger initialized");
      })
      else returned failure s)

  -- `message` is what `vsnprintf` makes of the format and the arguments in a buffer that is large
  -- enough; the code's has room for 1023 bytes of it.
  unfoldable pub log_message : ℕ → Bytes → Logger → Call
  log_message level message s =
      if ltb level s.current_log_level
      then returned success s
      else with_lock s (
          let held = record s { locked = true } in
          elim s.is_open [
            | true ↦ write_message timestamp level message held
            | false ↦ elim (init_logger held) [
              | blocked s' ↦ blocked s'
              | returned failure s' ↦ returned success (record s' { locked = false })
              | returned success s' ↦ write_message timestamp level message s'
            ]
          ])

  unfoldable pub log_debug : Bytes → Logger → Call
  log_debug message s = log_message log_debug_level message s

  unfoldable pub log_info : Bytes → Logger → Call
  log_info message s = log_message log_info_level message s

  unfoldable pub log_warning : Bytes → Logger → Call
  log_warning message s = log_message log_warning_level message s

  unfoldable pub log_error : Bytes → Logger → Call
  log_error message s = log_message log_error_level message s

unfoldable pub set_log_level : ℕ → Logger → Call
set_log_level level s = with_lock s (returned success (record s { current_log_level = level }))
