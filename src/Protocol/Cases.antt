-- ===== src/Protocol/Cases.antt =====
-- What holds for every handler of src/protocol.c holds for `process_request`.
use cileserver.Base.{ℕ, ◌+◌, inl, inr, Rc, failure, Bool-cases, ltb, leb}
use cileserver.Base.CString.{Bytes, codes}
use cileserver.Protocol.Handlers.{
  handle_auth_command, handle_logout_command, handle_list_command, handle_delete_command,
  handle_mkdir_command, handle_info_command,
}
use cileserver.Protocol.Request.{
  Command, auth, logout, list, get, put, delete, mkdir, info, unknown, run_command, which_command,
  process_request, command_of, path_length_of, initial_length, needs_login, auth_message_size,
  max_path_length,
}
use cileserver.Protocol.State.{Env, World, reply}
use cileserver.Protocol.Streaming.{handle_get_streaming, handle_put_streaming}
use cileserver.Wire.{message_header_size, resp_auth_required}

-- A request is refused, or asked for a login, or runs its command.
module _ {Fs : Type 0} (env : Env Fs) (w : World Fs) (P : Rc × World Fs → Type 0) (buffer : Bytes)
    (size : ℕ) where
  pub process_request-runs :
      P (failure, w)
      → P (reply w resp_auth_required (codes "Authentication required") 23)
      → P (run_command (which_command (command_of buffer)) env w buffer size)
      → P (process_request env w buffer size)
  unfolding process_request
  process_request-runs refused asked runs = elim (Bool-cases (ltb size message_header_size)) [
    | inl e ↦ rw (e, process_request) refused
    | inr e ↦
        rw (e, process_request)
          (elim (Bool-cases (ltb size (message_header_size + path_length_of buffer))) [
            | inl f ↦ rw f refused
            | inr f ↦ rw f (elim (Bool-cases (leb max_path_length (path_length_of buffer))) [
              | inl g ↦ rw g refused
              | inr g ↦ rw g (elim (Bool-cases (needs_login env w buffer)) [
                | inl k ↦ rw k asked
                | inr k ↦ rw k runs
              ])
            ])
          ])
  ]

-- The handlers are called with the role that the connection has.
pub record ForHandlers {Fs : Type 0} (env : Env Fs) (w : World Fs) (P : Rc × World Fs → Type 0)
    : Type 0 where
  pub refuses : P (failure, w)
  pub replies : (status : ℕ) (body : Bytes) (n : ℕ) → P (reply w status body n)
  pub auths : (username password : Bytes) → P (handle_auth_command w username password)
  pub logouts : P (handle_logout_command w)
  pub lists : (path : Bytes) → P (handle_list_command env w path w.role)
  pub gets : (path : Bytes) → P (handle_get_streaming env w path w.role)
  pub puts :
      (path initial_data : Bytes) (total_len : ℕ)
      → P (handle_put_streaming env w path initial_data total_len w.role)
  pub deletes : (path : Bytes) → P (handle_delete_command env w path w.role)
  pub mkdirs : (path : Bytes) → P (handle_mkdir_command env w path w.role)
  pub infos : (path : Bytes) → P (handle_info_command env w path w.role)

module _ {Fs : Type 0} (env : Env Fs) (w : World Fs) (P : Rc × World Fs → Type 0)
    (h : ForHandlers env w P) (buffer : Bytes) (size : ℕ) where
  run_command-cases : (c : Command) → P (run_command c env w buffer size)
  unfolding run_command
  run_command-cases auth = elim (Bool-cases (leb auth_message_size (initial_length buffer size))) [
    | inl whole ↦ rw whole (h.auths _ _)
    | inr short ↦ rw short (h.replies _ _ _)
  ]
  run_command-cases logout = h.logouts
  run_command-cases list = h.lists _
  run_command-cases get = h.gets _
  run_command-cases put = h.puts _ _ _
  run_command-cases delete = h.deletes _
  run_command-cases mkdir = h.mkdirs _
  run_command-cases info = h.infos _
  run_command-cases unknown = h.replies _ _ _

  pub process_request-cases : P (process_request env w buffer size)
  process_request-cases =
      process_request-runs env w P buffer size h.refuses (h.replies _ _ _)
        (run_command-cases (which_command (command_of buffer)))
