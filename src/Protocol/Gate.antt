-- ===== src/Protocol/Gate.antt =====
-- Authentication in `process_request` of src/protocol.c, before a login.
use cileserver.Auth.{role_guest}
use cileserver.Base.{ℕ, ◌+◌, ◌≡◌, ◌≢◌, refl, inl, inr, true, ◌++◌, arith, ltb, leb, Bool-cases}
use cileserver.Base.CString.{Bytes, codes}
use cileserver.Protocol.Frame.{SameLogin}
use cileserver.Protocol.Request.{
  process_request, needs_login, command_of, path_length_of, max_path_length,
}
use cileserver.Protocol.Responses.{whole_response, send_response-prefix}
use cileserver.Protocol.State.{Env, World, reply}
use cileserver.Wire.{cmd_auth, resp_auth_required, message_header_size}

-- Nothing but the connection has changed, and the client has got at most the response.
pub record OnlyAnswers {Fs : Type 0} (w v : World Fs) (response : Bytes) : Type 0 where
  pub same_fs : v.fs ≡ w.fs
  pub same_login : SameLogin w v
  pub answer : (tail : Bytes) × (v.conn.sent ++ tail ≡ w.conn.sent ++ response)

reply-OnlyAnswers :
    {Fs : Type 0} (env : Env Fs) (w : World Fs) (status : ℕ) (body : Bytes) (n : ℕ)
    → OnlyAnswers w (reply w status body n).1 (whole_response status body n)
unfolding reply
reply-OnlyAnswers env w status body n = record {
  same_fs = refl;
  same_login = record { same_users = refl; same_role = refl };
  answer = send_response-prefix w.conn status body n;
}

-- With authentication enabled, a request from a guest that is no AUTH request leaves the disk,
-- the users and the role as they are, and the client gets AUTH_REQUIRED, a part of that answer
-- if a write fails, or nothing if the request is malformed.
pub process_request_gate :
    {Fs : Type 0} (env : Env Fs) (w : World Fs) (buffer : Bytes) (size : ℕ)
    → env.cfg.enable_auth ≢ 0
    → w.role ≡ role_guest
    → command_of buffer ≢ cmd_auth
    → OnlyAnswers w
        (process_request env w buffer size).1
        (whole_response resp_auth_required (codes "Authentication required") 23)
unfolding process_request
process_request_gate env w buffer size on guest other =
    elim (Bool-cases (ltb size message_header_size)) [
      | inl e ↦ rw (e, process_request) nothing
      | inr e ↦
          rw (e, process_request)
            (elim (Bool-cases (ltb size (message_header_size + path_length_of buffer))) [
              | inl f ↦ rw f nothing
              | inr f ↦ rw f (elim (Bool-cases (leb max_path_length (path_length_of buffer))) [
                | inl g ↦ rw g nothing
                | inr g ↦ rw g (rw gate (reply-OnlyAnswers env w _ _ _))
              ])
            ])
    ]
  where
    answer : Bytes
    answer = whole_response resp_auth_required (codes "Authentication required") 23

    nothing : OnlyAnswers w w answer
    nothing = record {
      same_fs = refl;
      same_login = record { same_users = refl; same_role = refl };
      answer = (answer, refl);
    }

    gate : needs_login env w buffer ≡ true
    gate = unfold needs_login in ground arith
