-- ===== src/Protocol/Roles.antt =====
-- How a request may change the role of its connection, and what a guest may change.
use cileserver.Auth.{Users, role_guest, authenticate_user, check_permission}
use cileserver.Base.{
  ℕ, ◌≤◌, ◌≡◌, refl, ◌⊎◌, inl, inr, some, arith, leb, drop, Bool-cases, Option-cases,
}
use cileserver.Base.CString.{Bytes, cstr}
use cileserver.Protocol.Cases.{process_request-cases, process_request-runs}
use cileserver.Protocol.Frame.{
  SameLogin, reply-SameLogin, reply-fs, list-fs, list-SameLogin, info-fs, info-SameLogin, get-fs,
  get-SameLogin, delete-SameLogin, mkdir-SameLogin, put-SameLogin, auth-fs, logout-fs,
}
use cileserver.Protocol.Handlers.{
  handle_auth_command, handle_logout_command, handle_delete_command, handle_mkdir_command,
}
use cileserver.Protocol.Request.{
  Command, auth, logout, list, get, put, delete, mkdir, info, unknown, process_request, run_command,
  which_command, command_of, initial_length, payload, auth_message_size, password_offset,
}
use cileserver.Protocol.State.{Env, World, reply}
use cileserver.Wire.{cmd_auth, cmd_logout}
use cileserver.Protocol.Streaming.{handle_put_streaming}

-- The request is an AUTH with whole credentials, and they are those of an entry with that role.
pub record GivesPassword (users : Users) (buffer : Bytes) (size role : ℕ) : Type 0 where
  pub is_auth : command_of buffer ≡ cmd_auth
  pub whole : auth_message_size ≤ initial_length buffer size
  pub known :
      authenticate_user (cstr (payload buffer)) (cstr (drop password_offset (payload buffer))) users
      ≡ some role

-- The login `v` comes from the login `w` by the request in the buffer.
pub record FairLogin {Fs : Type 0} (w : World Fs) (buffer : Bytes) (size : ℕ) (v : World Fs)
    : Type 0 where
  pub same_users : v.users ≡ w.users
  pub role_from :
      (v.role ≡ w.role)
      ⊎ (((command_of buffer ≡ cmd_logout) × (v.role ≡ role_guest))
          ⊎ GivesPassword w.users buffer size v.role)

which_command-auth : (c : ℕ) → which_command c ≡ auth → c ≡ cmd_auth
unfolding which_command
which_command-auth c h = ground arith

which_command-logout : (c : ℕ) → which_command c ≡ logout → c ≡ cmd_logout
unfolding which_command
which_command-logout c h = ground arith

module _ {Fs : Type 0} (env : Env Fs) (w : World Fs) (buffer : Bytes) (size : ℕ) where
  SameLogin-FairLogin : {v : World Fs} → SameLogin w v → FairLogin w buffer size v
  SameLogin-FairLogin s = record { same_users = s.same_users; role_from = inl s.same_role }

  auth-FairLogin :
      command_of buffer ≡ cmd_auth
      → auth_message_size ≤ initial_length buffer size
      → FairLogin w buffer size
          (handle_auth_command w
            (cstr (payload buffer))
            (cstr (drop password_offset (payload buffer)))).1
  unfolding handle_auth_command reply
  auth-FairLogin c whole =
      let username = cstr (payload buffer) in
      let password = cstr (drop password_offset (payload buffer)) in
      elim (Option-cases (authenticate_user username password w.users)) [
        | inl e ↦ rw (e, handle_auth_command) (record { same_users = refl; role_from = inl refl })
        | inr (role, e) ↦
            rw (e, handle_auth_command)
              (record {
                same_users = refl;
                role_from = inr (inr (record { is_auth = c; whole = whole; known = e }));
              })
      ]

  logout-FairLogin :
      command_of buffer ≡ cmd_logout → FairLogin w buffer size (handle_logout_command w).1
  unfolding handle_logout_command reply
  logout-FairLogin c = record { same_users = refl; role_from = inr (inl (c, refl)) }

  reply-FairLogin :
      (status : ℕ) (body : Bytes) (n : ℕ) → FairLogin w buffer size (reply w status body n).1
  reply-FairLogin status body n = SameLogin-FairLogin (reply-SameLogin env w status body n)

  run_command-FairLogin :
      (c : Command)
      → which_command (command_of buffer) ≡ c
      → FairLogin w buffer size (run_command c env w buffer size).1
  unfolding run_command
  run_command-FairLogin auth h =
      elim (Bool-cases (leb auth_message_size (initial_length buffer size))) [
        | inl whole ↦
            rw whole (auth-FairLogin (which_command-auth (command_of buffer) h) (ground arith))
        | inr short ↦ rw short (reply-FairLogin _ _ _)
      ]
  run_command-FairLogin logout h = logout-FairLogin (which_command-logout (command_of buffer) h)
  run_command-FairLogin list h = SameLogin-FairLogin (list-SameLogin env w _ w.role)
  run_command-FairLogin get h = SameLogin-FairLogin (get-SameLogin env w _ w.role)
  run_command-FairLogin put h = SameLogin-FairLogin (put-SameLogin env w _ _ _ w.role)
  run_command-FairLogin delete h = SameLogin-FairLogin (delete-SameLogin env w _ w.role)
  run_command-FairLogin mkdir h = SameLogin-FairLogin (mkdir-SameLogin env w _ w.role)
  run_command-FairLogin info h = SameLogin-FairLogin (info-SameLogin env w _ w.role)
  run_command-FairLogin unknown h = reply-FairLogin _ _ _

  -- No request changes the user table, and the role of the connection afterwards is the one it
  -- had; or that of a guest, and the request is a LOGOUT; or the one that `authenticate_user` gives
  -- for the strings at the bytes 0 and 64 of the data of the request, which is an AUTH with at least
  -- 128 bytes of data in the buffer.
  pub process_request-FairLogin : FairLogin w buffer size (process_request env w buffer size).1
  process_request-FairLogin =
      process_request-runs env w (λ r. FairLogin w buffer size r.1) buffer size
        (record { same_users = refl; role_from = inl refl }) (reply-FairLogin _ _ _)
        (run_command-FairLogin (which_command (command_of buffer)) refl)

module _ {Fs : Type 0} (env : Env Fs) (w : World Fs) {role : ℕ} (g : role ≡ role_guest) where
  put_guest :
      (path initial_data : Bytes) (total_len : ℕ)
      → (handle_put_streaming env w path initial_data total_len role).1.fs ≡ w.fs
  unfolding handle_put_streaming check_permission reply
  put_guest path initial_data total_len = rw g refl

  delete_guest : (path : Bytes) → (handle_delete_command env w path role).1.fs ≡ w.fs
  unfolding handle_delete_command check_permission reply
  delete_guest path = rw g refl

  mkdir_guest : (path : Bytes) → (handle_mkdir_command env w path role).1.fs ≡ w.fs
  unfolding handle_mkdir_command check_permission reply
  mkdir_guest path = rw g refl

-- A request on a connection whose role is that of a guest changes nothing on the disk.
pub process_request_guest :
    {Fs : Type 0} (env : Env Fs) (w : World Fs) (buffer : Bytes) (size : ℕ)
    → w.role ≡ role_guest
    → (process_request env w buffer size).1.fs ≡ w.fs
process_request_guest env w buffer size g =
    process_request-cases env w (λ r. r.1.fs ≡ w.fs)
      (record {
        refuses = refl;
        replies = reply-fs env w;
        auths = auth-fs env w;
        logouts = logout-fs env w;
        lists = λ path. list-fs env w path w.role;
        gets = λ path. get-fs env w path w.role;
        puts = put_guest env w g;
        deletes = delete_guest env w g;
        mkdirs = mkdir_guest env w g;
        infos = λ path. info-fs env w path w.role;
      })
      buffer size
