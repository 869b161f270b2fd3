-- ===== src/Protocol/Handlers.antt =====
-- The handlers of src/protocol.c that need no streaming.
use cileserver.Auth.{check_permission, authenticate_user, role_guest}
use cileserver.Base.{ℕ, ◌*◌, ◌++◌, none, some, Rc, success, failure, if◌then◌else◌, length, take}
use cileserver.Base.CString.{Bytes, codes}
use cileserver.Base.Decimal.{print_int}
use cileserver.FileOps.Operations.{delete_file, create_directory, get_file_info, list_directory}
use cileserver.Protocol.State.{Env, World, reply, encode_info, encode_infos, file_info_size}
use cileserver.Wire.{cmd_list, cmd_delete, cmd_mkdir, cmd_info, resp_ok, resp_error}

-- `MAX_ENTRIES`
abbrev pub max_entries : ℕ
max_entries = 100

-- What `snprintf(response, 64, "Authenticated as %s (role %d)", username, role)` leaves.
unfoldable pub welcome : Bytes → ℕ → Bytes
welcome username role =
    take 63 (
      codes "Authenticated as " ++ (username ++ (codes " (role " ++ (print_int role ++ codes ")"))))

module _ {Fs : Type 0} where
  unfoldable pub handle_auth_command : World Fs → Bytes → Bytes → Rc × World Fs
  handle_auth_command w username password = elim (authenticate_user username password w.users) [
    | some role ↦
        let response = welcome username role in
        reply (record w { role = role }) resp_ok response (length response)
    | none ↦ reply w resp_error (codes "Authentication failed") 21
  ]

  unfoldable pub handle_logout_command : World Fs → Rc × World Fs
  handle_logout_command w = reply (record w { role = role_guest }) resp_ok (codes "Logged out") 10

  unfoldable pub handle_list_command : Env Fs → World Fs → Bytes → ℕ → Rc × World Fs
  handle_list_command env w path user_role =
      if check_permission user_role cmd_list
      then (elim (list_directory env.os env.cfg w.fs path max_entries) [
        | none ↦ reply w resp_error (codes "Failed to list directory") 24
        | some entries ↦
            reply w resp_ok (encode_infos env.padding entries) (length entries * file_info_size)
      ])
      else reply w resp_error (codes "Permission denied") 17

  unfoldable pub handle_delete_command : Env Fs → World Fs → Bytes → ℕ → Rc × World Fs
  handle_delete_command env w path user_role =
      if check_permission user_role cmd_delete
      then (let (rc, fs') = delete_file env.os env.cfg w.fs path in
          let w' = record w { fs = fs' } in
          elim rc [
            | failure ↦ reply w' resp_error (codes "Failed to delete file") 21
            | success ↦ reply w' resp_ok (codes "File deleted successfully") 25
          ])
      else reply w resp_error (codes "Permission denied") 17

  unfoldable pub handle_mkdir_command : Env Fs → World Fs → Bytes → ℕ → Rc × World Fs
  handle_mkdir_command env w path user_role =
      if check_permission user_role cmd_mkdir
      then (let (rc, fs') = create_directory env.os env.cfg w.fs path in
          let w' = record w { fs = fs' } in
          elim rc [
            | failure ↦ reply w' resp_error (codes "Failed to create dir") 20
            | success ↦ reply w' resp_ok (codes "Directory created successfully") 30
          ])
      else reply w resp_error (codes "Permission denied") 17

  unfoldable pub handle_info_command : Env Fs → World Fs → Bytes → ℕ → Rc × World Fs
  handle_info_command env w path user_role =
      if check_permission user_role cmd_info
      then (elim (get_file_info env.os env.cfg w.fs path) [
        | none ↦ reply w resp_error (codes "Failed to get file info") 23
        | some info ↦ reply w resp_ok (encode_info env.padding info) file_info_size
      ])
      else reply w resp_error (codes "Permission denied") 17
