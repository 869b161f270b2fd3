-- ===== src/Main/Exit.antt =====
-- The end of `main` in src/main.c.
use cileserver.Base.CString.{Bytes, codes}
use cileserver.Base.{◌≤◌, ◌≡◌, Bool, true, false}
use cileserver.Logger.{Logger, blocked, log_info}
use cileserver.Logger.Levels.{cleanup_logger-blocks}
use cileserver.Main.{finish}

-- With the logger at the level of INFO or below, which is the default, `main` never returns from
-- the message behind `cleanup_logger`, whether the log file could be opened again or not: the
-- thread waits for the mutex that it holds.
pub finish-blocks :
    (opens : Bool) (timestamp timestamp' : Bytes) (s : Logger)
    → s.locked ≡ false
    → s.current_log_level ≤ 1
    → (last : Logger) × (finish opens timestamp timestamp' s ≡ blocked last) × (last.locked ≡ true)
unfolding finish log_info
finish-blocks opens timestamp timestamp' s free h =
    let (closed, cleaned, waits) =
      cleanup_logger-blocks opens timestamp timestamp' (codes "Server shutdown complete") 1 s free
        h in
    (record closed { locked = true }, rw (cleaned, finish) waits, λ i. true)
