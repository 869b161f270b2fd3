-- ===== src/Protocol/Request.antt =====
-- `process_request` of src/protocol.c. `buffer` is the memory from the start of the request on,
-- also behind the `size` bytes that have been read: the string functions may look there.
use cileserver.Base.{
  ℕ, ◌+◌, ◌-◌, Bool, not, ◌&&◌, Rc, failure, ltb, leb, ◌==◌, if◌then◌else◌, get_or, take, drop, min,
}
use cileserver.Auth.{role_guest}
use cileserver.Base.CString.{Bytes, codes, cstr}
use cileserver.Protocol.Handlers.{
  handle_auth_command, handle_logout_command, handle_list_command, handle_delete_command,
  handle_mkdir_command, handle_info_command,
}
use cileserver.Protocol.State.{Env, World, reply}
use cileserver.Protocol.Streaming.{handle_get_streaming, handle_put_streaming}
use cileserver.Wire.{
  cmd_list, cmd_get, cmd_put, cmd_delete, cmd_mkdir, cmd_info, cmd_auth, cmd_logout, resp_error,
  resp_auth_required, u16_at, u32_at, message_header_size,
}

-- `MAX_PATH_LENGTH`
abbrev pub max_path_length : ℕ
max_path_length = 1024

-- `sizeof(auth_message_t)`, and the offset of its password
abbrev pub auth_message_size : ℕ
auth_message_size = 128

abbrev pub password_offset : ℕ
password_offset = 64

-- The fields of the request as the code reads them from the buffer.
unfoldable pub command_of : Bytes → ℕ
command_of buffer = get_or buffer 0 0

unfoldable pub path_length_of : Bytes → ℕ
path_length_of buffer = u16_at buffer 1

unfoldable pub data_length_of : Bytes → ℕ
data_length_of buffer = u32_at buffer 3

-- `path` after the copy and its NUL
unfoldable pub path_of : Bytes → Bytes
path_of buffer = cstr (take (path_length_of buffer) (drop message_header_size buffer))

-- `initial_data_len`
unfoldable pub initial_length : Bytes → ℕ → ℕ
initial_length buffer size =
    min (size - (message_header_size + path_length_of buffer)) (data_length_of buffer)

abbrev pub payload : Bytes → Bytes
payload buffer = drop (message_header_size + path_length_of buffer) buffer

-- The cases of `switch (command)`.
pub data Command : Type 0 where
  auth logout list get put delete mkdir info unknown : Command

unfoldable pub which_command : ℕ → Command
which_command c =
    if c == cmd_auth
    then auth
    else if c == cmd_logout
    then logout
    else if c == cmd_list
    then list
    else if c == cmd_get
    then get
    else if c == cmd_put
    then put
    else if c == cmd_delete
    then delete
    else if c == cmd_mkdir
    then mkdir
    else if c == cmd_info
    then info
    else unknown

module _ {Fs : Type 0} where
  unfoldable pub run_command : Command → Env Fs → World Fs → Bytes → ℕ → Rc × World Fs
  run_command auth env w buffer size =
      if leb auth_message_size (initial_length buffer size)
      then handle_auth_command w (cstr (payload buffer))
          (cstr (drop password_offset (payload buffer)))
      else reply w resp_error (codes "Invalid authentication data") 27
  run_command logout env w buffer size = handle_logout_command w
  run_command list env w buffer size = handle_list_command env w (path_of buffer) w.role
  run_command get env w buffer size = handle_get_streaming env w (path_of buffer) w.role
  run_command put env w buffer size =
      handle_put_streaming env w (path_of buffer)
        (take (initial_length buffer size) (payload buffer)) (data_length_of buffer) w.role
  run_command delete env w buffer size = handle_delete_command env w (path_of buffer) w.role
  run_command mkdir env w buffer size = handle_mkdir_command env w (path_of buffer) w.role
  run_command info env w buffer size = handle_info_command env w (path_of buffer) w.role
  run_command unknown env w buffer size = reply w resp_error (codes "Unknown command") 15

  -- Whether `process_request` asks for a login instead of handling the command.
  unfoldable pub needs_login : Env Fs → World Fs → Bytes → Bool
  needs_login env w buffer =
      not (env.cfg.enable_auth == 0)
      && (not (command_of buffer == cmd_auth) && w.role == role_guest)

  unfoldable pub process_request : Env Fs → World Fs → Bytes → ℕ → Rc × World Fs
  process_request env w buffer size =
      if ltb size message_header_size
      then (failure, w)
      else if ltb size (message_header_size + path_length_of buffer)
      then (failure, w)
      else if leb max_path_length (path_length_of buffer)
      then (failure, w)
      else if needs_login env w buffer
      then reply w resp_auth_required (codes "Authentication required") 23
      else run_command (which_command (command_of buffer)) env w buffer size
