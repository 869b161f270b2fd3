-- ===== src/Client/Prompts.antt =====
-- The prompts of src/client.c after RESP_AUTH_REQUIRED, over the message that
-- `receive_response` has left on the stream.
use cileserver.Base.CString.{Bytes, codes}
use cileserver.Base.{
  ℕ, zero, suc, ◌*◌, ◌≤◌, ◌≡◌, refl, ap, ◌∙◌, inl, inr, false, List, [], ◌∷◌, none, some, arith,
  ◌&&◌, Bool-cases, drop,
}
use cileserver.Client.Commands.{client_command}
use cileserver.Client.Room.{send_request-inbox}
use cileserver.Client.Uploads.{login_first_missing}
use cileserver.Client.Session.{
  Session, client_buffer, auth_message, send, receive, show_success, is_set, login_first,
  login_again, client_authenticate, prompt_for,
}
use cileserver.Client.{
  auth_required, failed, read_exact, receive_error, receive_response, send_request,
}
use cileserver.Net.{ReadEvent, arrived, read}
use cileserver.Protocol.Responses.{Rc-cases, whole_response}
use cileserver.Wire.{cmd_auth, resp_auth_required, response_header}

-- The message of the server, from its fifth, tenth, ... byte on.
abbrev message : Bytes
message = codes "Authentication required"

abbrev text_from : ℕ → Bytes
text_from j = drop (5 * j) message

-- Taken for a header, five bytes of it are an error with more data than the buffer holds.
receive_response-message :
    (j : ℕ) (es : List ReadEvent)
    → j ≤ 3
    → receive_response client_buffer (arrived (text_from j) ∷ es)
      ≡ (failed, arrived (text_from (suc j)) ∷ es)
unfolding receive_response receive_error read_exact read
receive_response-message zero es h = refl
receive_response-message (suc zero) es h = refl
receive_response-message (suc (suc zero)) es h = refl
receive_response-message (suc (suc (suc zero))) es h = refl
receive_response-message (suc (suc (suc (suc j)))) es h = absurd (omega arith)

module _ {Fs : Type 0} (es : List ReadEvent) where
  -- The client has shown that output, and has at most `n` headers' worth of the message behind it.
  record Garbled (n : ℕ) (output : Bytes) (s : Session Fs) : Type 0 where
    at : ℕ
    at_most : at ≤ n
    inbox : s.conn.inbox ≡ arrived (text_from at) ∷ es
    shown : s.stdout ≡ output

  receive-Garbled :
      (n : ℕ) (output : Bytes) (s : Session Fs)
      → n ≤ 3
      → Garbled n output s
      → ((receive s).0 ≡ failed) × Garbled (suc n) output (receive s).1
  unfolding receive
  receive-Garbled n output s h g =
      let e =
        ap (receive_response client_buffer) g.inbox
        ∙ receive_response-message g.at es (omega (arith, g.at_most)) in
      (
        ap (λ r. r.0) e,
        record {
          at = suc g.at;
          at_most = omega (arith, g.at_most);
          inbox = ap (λ r. r.1) e;
          shown = g.shown;
        },
      )

  client_authenticate-Garbled :
      (n : ℕ) (output : Bytes) (s : Session Fs) (username password : Bytes)
      → n ≤ 3
      → Garbled n output s
      → Garbled (suc n) output (client_authenticate s username password)
  unfolding client_authenticate send show_success
  client_authenticate-Garbled n output s username password h g =
      let body = auth_message username password s.stack in
      let s1 = (send (record s { stack = drop 2 s.stack }) cmd_auth [] (some body) 128).1 in
      let kept : s1.conn.inbox ≡ s.conn.inbox =
        send_request-inbox s.conn cmd_auth [] (some body) 128 in
      let g1 : Garbled n output s1 = record {
        at = g.at;
        at_most = g.at_most;
        inbox = kept ∙ g.inbox;
        shown = g.shown;
      } in
      elim (Rc-cases (send_request s.conn cmd_auth [] (some body) 128).0) [
        | inr bad ↦
            rw (bad, client_authenticate)
              (record {
                at = g.at;
                at_most = omega (arith, g.at_most);
                inbox = g1.inbox;
                shown = g.shown;
              })
        | inl good ↦
            let (answer, g2) = receive-Garbled n output s1 h g1 in
            rw (good, client_authenticate) (rw answer g2)
      ]

  login_first-Garbled :
      (n : ℕ) (output : Bytes) (s : Session Fs)
      → n ≤ 3
      → Garbled n output s
      → Garbled (suc n) output (login_first s)
  unfolding login_first
  login_first-Garbled n output s h g = elim (Bool-cases (is_set s.username && is_set s.password)) [
    | inl ready ↦
        rw (ready, login_first) (client_authenticate-Garbled n output s s.username s.password h g)
    | inr missing ↦
        rw (missing, login_first)
          (record {
            at = g.at;
            at_most = omega (arith, g.at_most);
            inbox = g.inbox;
            shown = g.shown;
          })
  ]

  login_again-Garbled :
      (n : ℕ) (output : Bytes) (s : Session Fs)
      → n ≤ 3
      → Garbled n output s
      → Garbled (suc n) output (login_again s)
  unfolding login_again
  login_again-Garbled n output s h g =
      let (username, rest) = prompt_for s.username s.stdin in
      let (password, rest') = prompt_for s.password rest in
      client_authenticate-Garbled n output
        (record s { username = username; password = password; stdin = rest' }) username password h
        (record { at = g.at; at_most = g.at_most; inbox = g.inbox; shown = g.shown })

  module _ (command : ℕ) (path : Bytes) (show : ℕ → Bytes → Session Fs → Session Fs) where
    send-Garbled :
        (n : ℕ) (output : Bytes) (s : Session Fs)
        → Garbled n output s
        → Garbled n output (send s command path none 0).1
    unfolding send
    send-Garbled n output s g = record {
      at = g.at;
      at_most = g.at_most;
      inbox = send_request-inbox s.conn command path none 0 ∙ g.inbox;
      shown = g.shown;
    }

    -- A try of the command shows nothing, and is the last.
    client_command-Garbled :
        (f n : ℕ) (output : Bytes) (s : Session Fs)
        → n ≤ 2
        → Garbled n output s
        → (client_command f command path show s).stdout ≡ output
    unfolding client_command
    client_command-Garbled zero n output s h g = g.shown
    client_command-Garbled (suc f) n output s h g =
        let g1 =
          send-Garbled (suc n) output (login_first s)
            (login_first-Garbled n output s (omega arith) g) in
        let (answer, g2) =
          receive-Garbled (suc n) output (send (login_first s) command path none 0).1 (omega arith)
            g1 in
        elim (Rc-cases (send (login_first s) command path none 0).0) [
          | inr bad ↦ rw (bad, client_command) g1.shown
          | inl good ↦ rw (good, client_command) (rw answer g2.shown)
        ]

-- The first answer, of which the message is left.
first_answer :
    {Fs : Type 0} (s : Session Fs) (es : List ReadEvent)
    → s.conn.inbox ≡ arrived (whole_response resp_auth_required message 23) ∷ es
    → ((receive s).0 ≡ auth_required) × Garbled es 0 s.stdout (receive s).1
unfolding receive receive_response read_exact read response_header
first_answer s es inbox =
    let e : receive_response client_buffer s.conn.inbox
        ≡ (auth_required, arrived (text_from 0) ∷ es) =
      ap (receive_response client_buffer) inbox in
    (
      ap (λ r. r.0) e,
      record { at = 0; at_most = omega arith; inbox = ap (λ r. r.1) e; shown = refl },
    )

send_keeps :
    {Fs : Type 0} (s : Session Fs) (command : ℕ) (path : Bytes)
    → ((send s command path none 0).1.conn.inbox ≡ s.conn.inbox)
      × ((send s command path none 0).1.stdout ≡ s.stdout)
unfolding send
send_keeps s command path = (send_request-inbox s.conn command path none 0, refl)

-- A command that the server answers with AUTH_REQUIRED never comes to show its answer, whatever
-- the user types at the prompts, and whatever the server sends behind that answer: the login and
-- the second try read what is left of the message of that answer. The answer arrives as one
-- packet, and no name was given before.
pub client_command-prompts :
    {Fs : Type 0} (f command : ℕ) (path : Bytes) (show : ℕ → Bytes → Session Fs → Session Fs)
    (s : Session Fs) (es : List ReadEvent)
    → is_set s.username ≡ false
    → s.conn.inbox
      ≡ arrived (whole_response resp_auth_required (codes "Authentication required") 23) ∷ es
    → (client_command f command path show s).stdout ≡ s.stdout
unfolding client_command
client_command-prompts zero command path show s es no_name inbox = refl
client_command-prompts (suc f) command path show s es no_name inbox =
    let same = login_first_missing s no_name in
    let s1 = (send (login_first s) command path none 0).1 in
    let (kept, quiet) = send_keeps (login_first s) command path in
    let quiet' : s1.stdout ≡ s.stdout = quiet ∙ ap (λ x. x.stdout) same in
    let (answer, g) = first_answer s1 es (kept ∙ ap (λ x. x.conn.inbox) same ∙ inbox) in
    elim (Rc-cases (send (login_first s) command path none 0).0) [
      | inr bad ↦ rw (bad, client_command) quiet'
      | inl good ↦
          rw (good, client_command)
            (rw answer (
              client_command-Garbled es command path show f 1 s1.stdout (login_again (receive s1).1)
                (omega arith) (login_again-Garbled es 0 s1.stdout (receive s1).1 (omega arith) g)
              ∙ quiet'))
    ]
