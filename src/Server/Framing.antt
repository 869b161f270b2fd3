-- ===== src/Server/Framing.antt =====
-- The requests of `send_request` of src/client.c on the stream that `handle_client` of
-- src/server.c reads.
use cileserver.Base.{
  ℕ, ◌+◌, ◌^◌, ◌≤◌, ◌<◌, ◌≡◌, refl, sym, ap, ◌∙◌, List, ◌++◌, arith, le→ltb_false, length, take,
  drop, take-append, drop-append, take-append-drop, length-append, length-take,
}
use cileserver.Base.CString.{Bytes}
use cileserver.Net.Reads.{flow, IsClean, fill-Takes}
use cileserver.Net.{ReadEvent, filled}
use cileserver.Protocol.Streaming.{buffer_size}
use cileserver.Server.Receive.{
  Received, request, receive_payload, receive_path, receive_request, payload_room, fill_bytes,
}
use cileserver.Wire.{message_header, u16_at, u32_at, message_header_size}

module _ (command path_len data_len : ℕ) where
  pub length-message_header : length (message_header command path_len data_len) ≡ 7
  unfolding message_header
  length-message_header = refl

  -- The fields that the server reads from a header are the ones that the client wrote.
  header_path_length :
      path_len < 2 ^ 16 → u16_at (message_header command path_len data_len) 1 ≡ path_len
  unfolding message_header
  header_path_length h = omega arith

  header_data_length :
      data_len < 2 ^ 32 → u32_at (message_header command path_len data_len) 3 ≡ data_len
  unfolding message_header
  header_data_length h = omega arith

-- A stream that begins with a request: the header, the path, and what is announced as data.
pub record Carries (command : ℕ) (path : Bytes) (data_len : ℕ) (body : Bytes) (es : List ReadEvent)
    : Type 0 where
  pub clean : IsClean es
  pub bytes : flow es ≡ message_header command (length path) data_len ++ (path ++ body)
  pub path_fits : message_header_size + length path ≤ buffer_size
  pub data_fits : data_len < 2 ^ 32
  pub body_fits : data_len ≤ length body

-- `handle_client` takes the header, the path and as much of the data as its buffer has room for
-- from the stream, and leaves the rest.
pub record Finds (command : ℕ) (path : Bytes) (data_len : ℕ) (body : Bytes) (r : Received)
    : Type 0 where
  pub later : List ReadEvent
  pub result :
      r
      ≡ request
          (message_header command (length path) data_len
            ++ (path ++ take (payload_room (length path) data_len) body))
          later
  pub flow_later : flow later ≡ drop (payload_room (length path) data_len) body
  pub clean_later : IsClean later

-- One of the loops, on a stream that begins with what it is to read.
fill_exact :
    (n : ℕ) (xs ys : Bytes) (es : List ReadEvent)
    → n ≡ length xs
    → flow es ≡ xs ++ ys
    → IsClean es
    → (later : List ReadEvent) × (fill_bytes n es ≡ filled xs later)
      × (flow later ≡ ys)
      × IsClean later
fill_exact n xs ys es e split c =
    let t = fill-Takes n es c (omega (arith, ap length split, length-append xs ys)) in
    (
      t.rest,
      t.result ∙ ap (λ x. filled x t.rest) (ap (take n) split ∙ take-append n xs ys e),
      t.flow_rest ∙ ap (drop n) split ∙ drop-append n xs ys e,
      t.clean,
    )

module _ (command : ℕ) (path : Bytes) (data_len : ℕ) (body : Bytes) where
  abbrev pub header : Bytes
  header = message_header command (length path) data_len

  receive_payload-Finds :
      (es : List ReadEvent)
      → flow es ≡ body
      → IsClean es
      → length path < 2 ^ 16
      → data_len < 2 ^ 32
      → data_len ≤ length body
      → Finds command path data_len body (receive_payload header path es)
  unfolding receive_payload
  receive_payload-Finds es split c pl dl enough =
      let k = payload_room (length path) data_len in
      let (later, e, f, clean) =
        fill_exact k (take k body) (drop k body) es (omega (arith, length-take k body))
          (split ∙ sym (take-append-drop k body)) c in
      record {
        later = later;
        result =
            rw (header_path_length command (length path) data_len pl, receive_payload)
              (rw (header_data_length command (length path) data_len dl) (rw e refl));
        flow_later = f;
        clean_later = clean;
      }

  receive_path-Finds :
      (es : List ReadEvent)
      → flow es ≡ path ++ body
      → IsClean es
      → message_header_size + length path ≤ buffer_size
      → data_len < 2 ^ 32
      → data_len ≤ length body
      → Finds command path data_len body (receive_path header es)
  unfolding receive_path
  receive_path-Finds es split c fits dl enough =
      let pl : length path < 2 ^ 16 = omega arith in
      let (later, e, f, clean) = fill_exact (length path) path body es refl split c in
      rw (header_path_length command (length path) data_len pl, receive_path)
        (rw (le→ltb_false buffer_size (message_header_size + length path) fits)
          (rw e (receive_payload-Finds later f clean pl dl enough)))

  -- On a stream that carries a request whose path fits the buffer and whose data has been sent,
  -- however it is cut into packets, `handle_client` finds exactly the header, the path and as much
  -- of the data as the buffer has room for, and leaves the rest of the stream as it is.
  pub receive_request-Finds :
      (es : List ReadEvent)
      → Carries command path data_len body es
      → Finds command path data_len body (receive_request es)
  unfolding receive_request
  receive_request-Finds es c =
      let (later, e, f, clean) =
        fill_exact message_header_size header (path ++ body) es
          (sym (length-message_header command (length path) data_len)) c.bytes c.clean in
      rw (e, receive_request) (receive_path-Finds later f clean c.path_fits c.data_fits c.body_fits)
