-- ===== src/Client/Requests.antt =====
-- What a client sends and the server finds, and what the server answers and a client reads:
-- src/client.c against src/server.c and src/protocol.c.
use cileserver.Base.CString.{Bytes, codes}
use cileserver.Base.{
  ℕ, ◌+◌, ◌^◌, ◌<◌, ◌≤◌, ◌≡◌, refl, sym, ap, ◌∙◌, inl, inr, [], ◌∷◌, ◌++◌, List, some, success,
  failure, arith, ltb, leb, Bool-cases, length, take_all, length-zero, ltb_false→le, lt→ltb,
  le→ltb_false, true, ◌==◌, ◌%◌, append_assoc, append-nil,
}
use cileserver.Client.{
  send_data, send_request, received, auth_required, failed, read_exact, receive_data, receive_error,
  receive_response,
}
use cileserver.Net.Reads.{flow, IsClean}
use cileserver.Net.Sends.{write_once_complete}
use cileserver.Net.{Conn, ReadEvent, arrived, read, write_once, on_conn}
use cileserver.Protocol.Responses.{Rc-cases, whole_response}
use cileserver.Protocol.Streaming.{buffer_size}
use cileserver.Server.Framing.{Finds, receive_request-Finds}
use cileserver.Server.Receive.{receive_request}
use cileserver.Wire.{
  u32_at, message_header, message_header_size, response_header, resp_ok, resp_auth_required,
}

-- The sent bytes of a call of `write` that has given all of them to the kernel.
write-on_conn :
    (c : Conn) (bytes : Bytes)
    → (write_once bytes c.outbox).0 ≡ success
    → (on_conn c (write_once bytes c.outbox)).1.sent ≡ c.sent ++ bytes
write-on_conn c bytes good = ap (◌++◌ c.sent) (write_once_complete bytes c.outbox good)

send_data_complete :
    (c : Conn) (body : Bytes)
    → (send_data c (some body) (length body)).0 ≡ success
    → (send_data c (some body) (length body)).1.sent ≡ c.sent ++ body
unfolding send_data
send_data_complete c body = elim (Bool-cases (ltb 0 (length body))) [
  | inl filled ↦
      rw (filled, send_data) (rw (take_all (length body) body (omega arith)) (write-on_conn c body))
  | inr empty ↦
      rw (empty, send_data)
        (λ h.
          sym (append-nil c.sent)
          ∙ ap (◌++◌ c.sent)
              (sym (length-zero body (omega (arith, ltb_false→le 0 (length body) empty)))))
]

module _ (c : Conn) (command : ℕ) (path body : Bytes) where
  -- What the client has put on the wire.
  abbrev pub request_text : Bytes
  request_text = message_header command (length path) (length body) ++ (path ++ body)

  send_request_complete :
      (send_request c command path (some body) (length body)).0 ≡ success
      → (send_request c command path (some body) (length body)).1.sent ≡ c.sent ++ request_text
  unfolding send_request
  send_request_complete =
      let header = message_header command (length path) (length body) in
      let c1 = (on_conn c (write_once header c.outbox)).1 in
      let c2 = (on_conn c1 (write_once path c1.outbox)).1 in
      elim (Rc-cases (write_once header c.outbox).0) [
        | inr bad ↦ rw (bad, send_request) (λ h. let e : failure ≡ success = h in absurd cc)
        | inl good ↦
            rw (good, send_request)
              (elim (Rc-cases (write_once path c1.outbox).0) [
                | inr bad ↦ rw bad (λ h. let e : failure ≡ success = h in absurd cc)
                | inl good' ↦ rw good' (λ h.
                    send_data_complete c2 body h
                    ∙ ap (λ x. x ++ body)
                        (write-on_conn c1 path good'
                          ∙ ap (λ x. x ++ path) (write-on_conn c header good))
                    ∙ append_assoc (c.sent ++ header) path body
                    ∙ append_assoc c.sent header (path ++ body))
              ])
      ]

-- A request that a client reports as sent on a new connection, and that arrives without an error
-- in whatever packets, is found by the server's `handle_client` as it was meant: the command, the
-- path, and as much of the data as the buffer has room for. The path fits the buffer, and the
-- length of the data its field.
send_request-Finds :
    (c : Conn) (command : ℕ) (path body : Bytes) (es : List ReadEvent)
    → c.sent ≡ []
    → (send_request c command path (some body) (length body)).0 ≡ success
    → flow es ≡ (send_request c command path (some body) (length body)).1.sent
    → IsClean es
    → message_header_size + length path ≤ buffer_size
    → length body < 2 ^ 32
    → Finds command path (length body) body (receive_request es)
send_request-Finds c command path body es fresh done arrives clean fits short =
    receive_request-Finds command path (length body) body es (record {
      clean = clean;
      bytes =
          arrives
          ∙ send_request_complete c command path body done
          ∙ ap (λ x. x ++ request_text c command path body) fresh;
      path_fits = fits;
      data_fits = short;
      body_fits = omega arith;
    })

pub read_exact_whole :
    (bytes : Bytes) (es : List ReadEvent)
    → 0 < length bytes
    → read_exact (length bytes) (arrived bytes ∷ es) ≡ (some bytes, es)
unfolding read_exact read
read_exact_whole bytes es h =
    let enough : leb (length bytes) (length bytes) ≡ true = ground arith in
    let all : (length bytes == length bytes) ≡ true = ground arith in
    rw (enough, read_exact) (rw all refl)

receive_data_whole :
    (size : ℕ) (body : Bytes) (es : List ReadEvent)
    → 0 < length body
    → length body ≤ size
    → receive_data size (length body) (arrived body ∷ es) ≡ (received (length body) body, es)
unfolding receive_data
receive_data_whole size body es filled fits =
    rw (lt→ltb 0 (length body) filled, receive_data)
      (rw (le→ltb_false size (length body) fits)
        (rw (read_exact_whole body es filled) (rw (read_exact_whole body es filled) refl)))

pub header_size : (status n : ℕ) → u32_at (response_header status n) 1 ≡ n % 2 ^ 32
unfolding response_header
header_size status n = omega arith

-- A response with data that `send_response` has sent, whose header and data each arrive as one
-- packet, is read as it was meant, if its data fits the client's buffer and its length the field.
pub receive_response_reads :
    (size : ℕ) (body : Bytes) (es : List ReadEvent)
    → 0 < length body
    → length body ≤ size
    → length body < 2 ^ 32
    → receive_response size (arrived (response_header resp_ok (length body)) ∷ arrived body ∷ es)
      ≡ (received (length body) body, es)
unfolding receive_response response_header
receive_response_reads size body es filled fits short =
    let header = response_header resp_ok (length body) in
    let first : read_exact 5 (arrived header ∷ arrived body ∷ es)
        ≡ (some header, arrived body ∷ es) =
      read_exact_whole header (arrived body ∷ es) (omega arith) in
    let announced : u32_at header 1 ≡ length body =
      header_size resp_ok (length body) ∙ omega arith in
    rw (first, receive_response)
      (rw first (
        ap (λ n. receive_data size n (arrived body ∷ es)) announced
        ∙ receive_data_whole size body es filled fits))

-- Whatever the server sends behind an AUTH_REQUIRED answer that arrives as one packet, the next
-- call of `receive_response` fails, with the client's buffer or a smaller one: the first call
-- leaves the message of that answer on the stream, and the next takes its text for a header.
pub receive_response_out_of_step :
    (size : ℕ) (es : List ReadEvent)
    → size ≤ buffer_size
    → (let packet = whole_response resp_auth_required (codes "Authentication required") 23 in
        let first = receive_response size (arrived packet ∷ es) in
        (first.0 ≡ auth_required) × ((receive_response size first.1).0 ≡ failed))
unfolding receive_response receive_error response_header read_exact read
receive_response_out_of_step size es small =
    (refl, rw (le→ltb_false 1970563173 size (omega arith)) refl)
