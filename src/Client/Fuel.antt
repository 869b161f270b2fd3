-- ===== src/Client/Fuel.antt =====
-- The call of a command of src/client.c by itself, after a login, comes to an end: each time the
-- server's answer has taken bytes from the stream.
use cileserver.Base.CString.{Bytes}
use cileserver.Base.{
  ℕ, ◌⊎◌, zero, suc, ◌+◌, ◌≤◌, ◌<◌, ◌≡◌, refl, ap, inl, inr, [], none, some, arith, ◌&&◌,
  Bool-cases, drop,
}
use cileserver.Client.Commands.{client_command}
use cileserver.Client.Room.{send_request-inbox}
use cileserver.Client.Session.{
  Session, client_buffer, send, receive, print_line, show_success, login_first, login_again,
  client_authenticate, is_set, prompt_for, auth_message,
}
use cileserver.Client.{Response, received, auth_required, failed, receive_response, send_request}
use cileserver.Protocol.Responses.{Rc-cases}
use cileserver.Wire.{cmd_auth}
use cileserver.Client.Pending.{pending, receive_response-Takes}

Response-cases :
    (r : Response)
    → ((n : ℕ) × (bytes : Bytes) × (r ≡ received n bytes)) ⊎ ((r ≡ auth_required) ⊎ (r ≡ failed))
Response-cases (received n bytes) = inl (n, bytes, refl)
Response-cases auth_required = inr (inl refl)
Response-cases failed = inr (inr refl)

module _ {Fs : Type 0} where
  show_success-inbox :
      (r : Response) (s : Session Fs) → (show_success r s).conn.inbox ≡ s.conn.inbox
  unfolding show_success print_line
  show_success-inbox (received n bytes) s = refl
  show_success-inbox auth_required s = refl
  show_success-inbox failed s = refl

  client_authenticate-pending :
      (s : Session Fs) (username password : Bytes)
      → pending (client_authenticate s username password).conn.inbox ≤ pending s.conn.inbox
  unfolding client_authenticate send receive
  client_authenticate-pending s username password =
      let body = auth_message username password s.stack in
      let c1 = (send_request s.conn cmd_auth [] (some body) 128).1 in
      let kept = send_request-inbox s.conn cmd_auth [] (some body) 128 in
      let answer = receive_response-Takes client_buffer c1.inbox in
      elim (Rc-cases (send_request s.conn cmd_auth [] (some body) 128).0) [
        | inr bad ↦ rw (bad, client_authenticate) (omega (arith, ap pending kept))
        | inl good ↦
            rw (good, client_authenticate)
              (rw
                (show_success-inbox (receive_response client_buffer c1.inbox).0
                  (receive
                    (send (record s { stack = drop 2 s.stack }) cmd_auth [] (some body) 128).1).1)
                (omega (arith, ap pending kept, answer)))
      ]

  login_first-pending : (s : Session Fs) → pending (login_first s).conn.inbox ≤ pending s.conn.inbox
  unfolding login_first
  login_first-pending s = elim (Bool-cases (is_set s.username && is_set s.password)) [
    | inl ready ↦ rw (ready, login_first) (client_authenticate-pending s s.username s.password)
    | inr other ↦ rw (other, login_first) (omega arith)
  ]

  login_again-pending : (s : Session Fs) → pending (login_again s).conn.inbox ≤ pending s.conn.inbox
  unfolding login_again
  login_again-pending s =
      let (username, rest) = prompt_for s.username s.stdin in
      let (password, rest') = prompt_for s.password rest in
      client_authenticate-pending
        (record s { username = username; password = password; stdin = rest' }) username password

  module _ (command : ℕ) (path : Bytes) (show : ℕ → Bytes → Session Fs → Session Fs) where
    -- What the next try finds on the stream.
    again-pending :
        (s : Session Fs)
        → (let answer = receive (send (login_first s) command path none 0).1 in
            answer.0 ≡ auth_required
            → pending (login_again answer.1).conn.inbox < pending s.conn.inbox)
    unfolding send receive
    again-pending s e =
        let c1 = (send_request (login_first s).conn command path none 0).1 in
        let left = receive_response-Takes client_buffer c1.inbox in
        let five : 5 + pending (receive_response client_buffer c1.inbox).1 ≤ pending c1.inbox =
          rw e at left in
        let answer = receive (send (login_first s) command path none 0).1 in
        omega (
          arith,
          five,
          ap pending (send_request-inbox (login_first s).conn command path none 0),
          login_first-pending s,
          login_again-pending answer.1,
        )

    -- A command that asks for a login and tries again gives the same with every fuel above the
    -- number of bytes to come from the server: it never ends for want of fuel.
    pub client_command_any_fuel :
        (f g : ℕ) (s : Session Fs)
        → pending s.conn.inbox < f
        → pending s.conn.inbox < g
        → client_command f command path show s ≡ client_command g command path show s
    unfolding client_command
    client_command_any_fuel zero g s m k = absurd (omega arith)
    client_command_any_fuel (suc f) zero s m k = absurd (omega arith)
    client_command_any_fuel (suc f) (suc g) s m k =
        elim (Rc-cases (send (login_first s) command path none 0).0) [
          | inr bad ↦ rw (bad, client_command) refl
          | inl good ↦
              let s2 = (receive (send (login_first s) command path none 0).1).1 in
              elim (Response-cases (receive (send (login_first s) command path none 0).1).0) [
                | inl (n, bytes, e) ↦ rw (good, client_command) (rw e refl)
                | inr (inr e) ↦ rw (good, client_command) (rw e refl)
                | inr (inl e) ↦
                    let fewer : pending (login_again s2).conn.inbox < pending s.conn.inbox =
                      again-pending s e in
                    rw (good, client_command)
                      (rw e
                        (client_command_any_fuel f g (login_again s2) (omega arith) (omega arith)))
              ]
        ]
