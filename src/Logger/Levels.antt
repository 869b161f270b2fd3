-- ===== src/Logger/Levels.antt =====
-- Which messages get into the log of src/logger.c, and which calls never return.
use cileserver.Base.CString.{Bytes, codes}
use cileserver.Base.{
  ℕ, ◌≤◌, ◌<◌, ◌≡◌, refl, sym, ap, ◌∙◌, inl, inr, Bool, true, false, List, [], ◌∷◌, ◌++◌, success,
  arith, ltb, leb, Bool-cases, if◌then◌else◌, ltb→lt, take, append_assoc, append-nil, ltb_false→le,
  lt→ltb, le→ltb_false,
}
use cileserver.Logger.{
  Logger, Call, returned, blocked, log_line, with_lock, init_logger, cleanup_logger, write_message,
  log_message, log_warning_level, log_info_level,
}

-- One message that is logged, with the time and the level.
pub record Message : Type 0 where
  pub timestamp : Bytes
  pub level : ℕ
  pub text : Bytes

-- A sequence of calls of the logging functions; the first that waits for the mutex ends it.
unfoldable pub log_all : Bool → List Message → Logger → Call
log_all opens [] s = returned success s
log_all opens (m ∷ ms) s = elim (log_message opens m.timestamp m.level m.text s) [
  | blocked s' ↦ blocked s'
  | returned rc s' ↦ log_all opens ms s'
]

-- The lines of the messages at a level or above.
abbrev pub lines_from : ℕ → List Message → Bytes
lines_from level [] = []
lines_from level (m ∷ ms) =
    if ltb m.level level
    then lines_from level ms
    else log_line m.timestamp m.level (take 1023 m.text) ++ lines_from level ms

-- The level from which messages also go to the standard error.
abbrev pub stderr_level : ℕ → ℕ
stderr_level level = if ltb level log_warning_level then log_warning_level else level

lines_from_below :
    (level : ℕ) (m : Message) (ms : List Message)
    → m.level < level
    → lines_from level (m ∷ ms) ≡ lines_from level ms
lines_from_below level m ms h = rw (lt→ltb m.level level h) refl

-- The line of a message, behind what has been written.
lines_from_line :
    (level : ℕ) (m : Message) (ms : List Message) (old : Bytes)
    → level ≤ m.level
    → (old ++ log_line m.timestamp m.level (take 1023 m.text)) ++ lines_from level ms
      ≡ old ++ lines_from level (m ∷ ms)
lines_from_line level m ms old h =
    rw (le→ltb_false m.level level h) (append_assoc old _ (lines_from level ms))

stderr_level-above : (level : ℕ) → (level ≤ stderr_level level) × (2 ≤ stderr_level level)
stderr_level-above level = elim (Bool-cases (ltb level 2)) [
  | inl low ↦ rw low (omega (arith, ltb→lt level 2 low), omega arith)
  | inr high ↦ rw high (omega arith, omega (arith, ltb_false→le level 2 high))
]

stderr_level-below : (level n : ℕ) → level ≤ n → 2 ≤ n → stderr_level level ≤ n
stderr_level-below level n h two = elim (Bool-cases (ltb level 2)) [
  | inl low ↦ rw low two
  | inr high ↦ rw high h
]

-- The standard error after a message that is logged, and the messages that follow.
stderr_line :
    (level : ℕ) (m : Message) (ms : List Message) (old : Bytes)
    → level ≤ m.level
    → (let line = log_line m.timestamp m.level (take 1023 m.text) in
        (if leb log_warning_level m.level then old ++ line else old)
          ++ lines_from (stderr_level level) ms
        ≡ old ++ lines_from (stderr_level level) (m ∷ ms))
stderr_line level m ms old h = elim (Bool-cases (leb log_warning_level m.level)) [
  | inl warning ↦ rw warning (
      lines_from_line (stderr_level level) m ms old
        (stderr_level-below level m.level h (ground arith)))
  | inr quiet ↦ rw quiet (
      ap (◌++◌ old) (
        sym
          (lines_from_below (stderr_level level) m ms (ground (arith, stderr_level-above level)))))
]

-- What a logger does with the lines of a sequence of messages.
pub record Logs (s : Logger) (ms : List Message) (r : Call) : Type 0 where
  pub later : Logger
  pub returns : r ≡ returned success later
  pub in_file : later.file ≡ s.file ++ lines_from s.current_log_level ms
  pub on_stderr : later.stderr ≡ s.stderr ++ lines_from (stderr_level s.current_log_level) ms
  pub stays_open : later.is_open ≡ true
  pub unlocked : later.locked ≡ false

module _ (opens : Bool) where
  -- One message below the level.
  log_message_below :
      (timestamp message : Bytes) (level : ℕ) (s : Logger)
      → level < s.current_log_level
      → log_message opens timestamp level message s ≡ returned success s
  unfolding log_message
  log_message_below timestamp message level s h =
      rw (lt→ltb level s.current_log_level h, log_message) refl

  -- One message at the level or above, with the log open.
  log_message_open :
      (timestamp message : Bytes) (level : ℕ) (s : Logger)
      → s.current_log_level ≤ level
      → s.is_open ≡ true
      → s.locked ≡ false
      → log_message opens timestamp level message s
        ≡ write_message timestamp level message (record s { is_open = true; locked = true })
  unfolding log_message with_lock
  log_message_open timestamp message level s h is_open free =
      rw (le→ltb_false level s.current_log_level h, log_message)
        (rw free (
          rw is_open (
            ap
              (λ b. write_message timestamp level message (record s { is_open = b; locked = true }))
              is_open)))

  -- A log that is open gets exactly the lines of the messages at its level or above, in order,
  -- each cut to 1023 bytes; those at the level of warnings or above, if they are not below the
  -- log's, go to the standard error too, and every call returns.
  pub log_all-Logs :
      (ms : List Message) (s : Logger)
      → s.is_open ≡ true
      → s.locked ≡ false
      → Logs s ms (log_all opens ms s)
  unfolding log_all write_message
  log_all-Logs [] s is_open free = record {
    later = s;
    returns = refl;
    in_file = sym (append-nil s.file);
    on_stderr = sym (append-nil s.stderr);
    stays_open = is_open;
    unlocked = free;
  }
  log_all-Logs (m ∷ ms) s is_open free = elim (Bool-cases (ltb m.level s.current_log_level)) [
    | inl below ↦
        let l = log_all-Logs ms s is_open free in
        let lt : m.level < s.current_log_level = ltb→lt m.level s.current_log_level below in
        rw (log_message_below m.timestamp m.text m.level s lt, log_all)
          (record {
            later = l.later;
            returns = l.returns;
            in_file =
                l.in_file ∙ ap (◌++◌ s.file) (sym (lines_from_below s.current_log_level m ms lt));
            on_stderr =
                l.on_stderr
                ∙ ap (◌++◌ s.stderr) (
                    sym (
                      lines_from_below (stderr_level s.current_log_level) m ms
                        (omega (arith, lt, stderr_level-above s.current_log_level))));
            stays_open = l.stays_open;
            unlocked = l.unlocked;
          })
    | inr logged ↦
        let le = ltb_false→le m.level s.current_log_level logged in
        let line = log_line m.timestamp m.level (take 1023 m.text) in
        let s1 : Logger = record {
          is_open = true;
          locked = false;
          current_log_level = s.current_log_level;
          file = s.file ++ line;
          stderr = if leb log_warning_level m.level then s.stderr ++ line else s.stderr;
        } in
        let l = log_all-Logs ms s1 refl refl in
        rw (log_message_open m.timestamp m.text m.level s le is_open free, log_all)
          (record {
            later = l.later;
            returns = l.returns;
            in_file = l.in_file ∙ lines_from_line s.current_log_level m ms s.file le;
            on_stderr = l.on_stderr ∙ stderr_line s.current_log_level m ms s.stderr le;
            stays_open = l.stays_open;
            unlocked = l.unlocked;
          })
  ]

  -- A message at the level or above, with the log closed.
  log_message_closed :
      (timestamp message : Bytes) (level : ℕ) (s : Logger)
      → s.current_log_level ≤ level
      → s.is_open ≡ false
      → s.locked ≡ false
      → log_message opens timestamp level message s ≡ blocked (record s { locked = true })
  unfolding log_message with_lock init_logger
  log_message_closed timestamp message level s h closed free =
      rw (le→ltb_false level s.current_log_level h, log_message)
        (rw free (rw closed (ap (λ b. blocked (record s { is_open = b; locked = true })) closed)))

  -- Once the log has been closed, a message at the level or above never returns, whether the file
  -- could be opened again or not: `log_message` holds the mutex when `init_logger` asks for it.
  pub cleanup_logger-blocks :
      (timestamp timestamp' message : Bytes) (level : ℕ) (s : Logger)
      → s.locked ≡ false
      → s.current_log_level ≤ level
      → (closed : Logger) × (cleanup_logger timestamp s ≡ returned success closed)
        × (log_message opens timestamp' level message closed
            ≡ blocked (record closed { locked = true }))
  unfolding cleanup_logger with_lock
  cleanup_logger-blocks timestamp timestamp' message level s free h =
      let closed : Logger =
        if s.is_open
        then record s {
          is_open = false;
          file = s.file ++ log_line timestamp log_info_level (codes "Logger shutting down");
        }
        else s in
      let facts : (closed.current_log_level ≤ level)
          × (closed.is_open ≡ false)
          × (closed.locked ≡ false) =
        elim (Bool-cases s.is_open) [
          | inl is_open ↦ rw is_open (h, refl, free)
          | inr shut ↦ rw shut (h, refl, free)
        ] in
      (
        closed,
        rw (free, cleanup_logger) refl,
        log_message_closed timestamp' message level closed facts.0 facts.1 facts.2,
      )
