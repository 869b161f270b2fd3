-- ===== src/Protocol/Frame.antt =====
-- What the handlers of src/protocol.c leave alone.
use cileserver.Base.{ℕ, ◌≡◌, refl, arith, inl, inr, Bool-cases, Option-cases, if◌then◌else◌}
use cileserver.Auth.{check_permission}
use cileserver.Base.CString.{Bytes}
use cileserver.FileOps.Operations.{FileInfo, delete_file, create_directory}
use cileserver.FileOps.Resolve.{get_full_path}
use cileserver.Wire.{cmd_put, cmd_delete, cmd_mkdir}
use cileserver.Protocol.Handlers.{
  handle_auth_command, handle_logout_command, handle_list_command, handle_delete_command,
  handle_mkdir_command, handle_info_command,
}
use cileserver.Protocol.State.{Env, World, reply}
use cileserver.Protocol.Streaming.{
  PutEnd, stopped, broken, finish_put, send_found, store_opened, handle_get_streaming,
  handle_put_streaming,
}

-- The user table and the role of the connection stay.
pub record SameLogin {Fs : Type 0} (w v : World Fs) : Type 0 where
  pub same_users : v.users ≡ w.users
  pub same_role : v.role ≡ w.role

module _ {Fs : Type 0} (env : Env Fs) (w : World Fs) where
  pub reply-SameLogin : (status : ℕ) (body : Bytes) (n : ℕ) → SameLogin w (reply w status body n).1
  unfolding reply
  reply-SameLogin status body n = record { same_users = refl; same_role = refl }

  pub reply-fs : (status : ℕ) (body : Bytes) (n : ℕ) → (reply w status body n).1.fs ≡ w.fs
  unfolding reply
  reply-fs status body n = refl

  pub list-fs : (path : Bytes) (role : ℕ) → (handle_list_command env w path role).1.fs ≡ w.fs
  unfolding handle_list_command reply
  list-fs path role = ground arith

  pub list-SameLogin :
      (path : Bytes) (role : ℕ) → SameLogin w (handle_list_command env w path role).1
  unfolding handle_list_command reply
  list-SameLogin path role = ground arith

  pub info-fs : (path : Bytes) (role : ℕ) → (handle_info_command env w path role).1.fs ≡ w.fs
  unfolding handle_info_command reply
  info-fs path role = ground arith

  pub info-SameLogin :
      (path : Bytes) (role : ℕ) → SameLogin w (handle_info_command env w path role).1
  unfolding handle_info_command reply
  info-SameLogin path role = ground arith

  pub send_found-fs : (path : Bytes) (info : FileInfo) → (send_found env w path info).1.fs ≡ w.fs
  unfolding send_found
  send_found-fs path info = ground arith

  pub get-fs : (path : Bytes) (role : ℕ) → (handle_get_streaming env w path role).1.fs ≡ w.fs
  unfolding handle_get_streaming send_found reply
  get-fs path role = ground arith

  pub get-SameLogin :
      (path : Bytes) (role : ℕ) → SameLogin w (handle_get_streaming env w path role).1
  unfolding handle_get_streaming send_found reply
  get-SameLogin path role = ground arith

  pub delete-SameLogin :
      (path : Bytes) (role : ℕ) → SameLogin w (handle_delete_command env w path role).1
  unfolding handle_delete_command reply
  delete-SameLogin path role = ground arith

  pub delete-fs :
      (path : Bytes) (role : ℕ)
      → (handle_delete_command env w path role).1.fs ≡ (
          if check_permission role cmd_delete
          then (delete_file env.os env.cfg w.fs path).1
          else w.fs)
  unfolding handle_delete_command reply
  delete-fs path role = ground arith

  pub mkdir-fs :
      (path : Bytes) (role : ℕ)
      → (handle_mkdir_command env w path role).1.fs ≡ (
          if check_permission role cmd_mkdir
          then (create_directory env.os env.cfg w.fs path).1
          else w.fs)
  unfolding handle_mkdir_command reply
  mkdir-fs path role = ground arith

  pub mkdir-SameLogin :
      (path : Bytes) (role : ℕ) → SameLogin w (handle_mkdir_command env w path role).1
  unfolding handle_mkdir_command reply
  mkdir-SameLogin path role = ground arith

  finish_put-SameLogin : (e : PutEnd Fs) → SameLogin w (finish_put w e).1
  unfolding finish_put reply
  finish_put-SameLogin (broken fs es) = record { same_users = refl; same_role = refl }
  finish_put-SameLogin (stopped left fs es) = ground arith

  pub put-SameLogin :
      (path initial_data : Bytes) (total_len role : ℕ)
      → SameLogin w (handle_put_streaming env w path initial_data total_len role).1
  unfolding handle_put_streaming store_opened
  put-SameLogin path initial_data total_len role =
      elim (Bool-cases (check_permission role cmd_put)) [
        | inr denied ↦ rw (denied, handle_put_streaming) (reply-SameLogin _ _ _)
        | inl allowed ↦
            rw (allowed, handle_put_streaming)
              (elim (Option-cases (get_full_path env.os env.cfg w.fs path 1024)) [
                | inl e ↦ rw e (reply-SameLogin _ _ _)
                | inr (p, e) ↦ rw e (elim (Option-cases (env.os.open_write w.fs p)) [
                  | inl o ↦ rw o (reply-SameLogin _ _ _)
                  | inr (opened, o) ↦ rw o (finish_put-SameLogin _)
                ])
              ])
      ]

  pub auth-fs : (username password : Bytes) → (handle_auth_command w username password).1.fs ≡ w.fs
  unfolding handle_auth_command reply
  auth-fs username password = ground arith

  pub logout-fs : (handle_logout_command w).1.fs ≡ w.fs
  unfolding handle_logout_command reply
  logout-fs = refl
