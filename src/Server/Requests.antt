-- ===== src/Server/Requests.antt =====
-- What `process_request` of src/protocol.c reads from the buffer that `handle_client` of
-- src/server.c has filled with a request of a client.
use cileserver.Base.{
  ℕ, ◌+◌, ◌^◌, ◌≤◌, ◌<◌, ◌≡◌, refl, ap, ◌∙◌, ◌++◌, arith, length, false, le→ltb_false, lt→leb_false,
  take, drop, take-append, drop-append, append_assoc, length-append,
}
use cileserver.Base.CString.{Bytes, NoByte, cstr, cstr_self}
use cileserver.Protocol.Request.{
  command_of, path_length_of, data_length_of, path_of, initial_length, payload, process_request,
  run_command, which_command, needs_login, max_path_length,
}
use cileserver.Protocol.State.{Env, World}
use cileserver.Server.Framing.{header, length-message_header}
use cileserver.Wire.{message_header}

module _ (command : ℕ) (path : Bytes) (data_len : ℕ) (body junk : Bytes) where
  -- The bytes read, and the memory that begins with them.
  abbrev pub request_bytes : Bytes
  request_bytes = header command path data_len body ++ (path ++ body)

  abbrev pub memory : Bytes
  memory = request_bytes ++ junk

  pub command_of-memory : command < 256 → command_of memory ≡ command
  unfolding command_of message_header
  command_of-memory h = omega arith

  pub path_length_of-memory : length path < 2 ^ 16 → path_length_of memory ≡ length path
  unfolding path_length_of message_header
  path_length_of-memory h = omega arith

  pub data_length_of-memory : data_len < 2 ^ 32 → data_length_of memory ≡ data_len
  unfolding data_length_of message_header
  data_length_of-memory h = omega arith

  drop_header : drop 7 memory ≡ path ++ (body ++ junk)
  unfolding message_header
  drop_header = append_assoc path body junk

  pub length-request_bytes : length request_bytes ≡ 7 + length path + length body
  length-request_bytes = omega (
    arith,
    length-append (header command path data_len body) (path ++ body),
    length-append path body,
    length-message_header command (length path) data_len,
  )

  pub path_of-memory : length path < 2 ^ 16 → NoByte 0 path → path_of memory ≡ path
  unfolding path_of
  path_of-memory h no_nul =
      ap cstr (
        ap (λ n. take n (drop 7 memory)) (path_length_of-memory h)
        ∙ ap (take (length path)) drop_header
        ∙ take-append (length path) path (body ++ junk) refl)
      ∙ cstr_self path no_nul

  regrouped : memory ≡ (header command path data_len body ++ path) ++ (body ++ junk)
  regrouped = simp append_assoc

  pub payload-memory : length path < 2 ^ 16 → payload memory ≡ body ++ junk
  payload-memory h =
      ap (λ n. drop (7 + n) memory) (path_length_of-memory h)
      ∙ ap (drop (7 + length path)) regrouped
      ∙ drop-append (7 + length path) (header command path data_len body ++ path) (body ++ junk) (
          omega (
            arith,
            length-append (header command path data_len body) path,
            length-message_header command (length path) data_len,
          ))

  pub initial_length-memory :
      length path < 2 ^ 16
      → data_len < 2 ^ 32
      → length body ≤ data_len
      → initial_length memory (length request_bytes) ≡ length body
  unfolding initial_length
  initial_length-memory h k le =
      omega (arith, length-request_bytes, path_length_of-memory h, data_length_of-memory k)

  pub initial_data-memory :
      length path < 2 ^ 16
      → data_len < 2 ^ 32
      → length body ≤ data_len
      → take (initial_length memory (length request_bytes)) (payload memory) ≡ body
  initial_data-memory h k le =
      ap (λ n. take n (payload memory)) (initial_length-memory h k le)
      ∙ ap (take (length body)) (payload-memory h)
      ∙ take-append (length body) body junk refl

  -- A request that is whole, with a path that fits, reaches its handler.
  pub process_request-memory :
      {Fs : Type 0} (env : Env Fs) (w : World Fs)
      → command < 256
      → length path < max_path_length
      → needs_login env w memory ≡ false
      → process_request env w memory (length request_bytes)
        ≡ run_command (which_command command) env w memory (length request_bytes)
  unfolding process_request
  process_request-memory env w c short logged =
      let pl : path_length_of memory ≡ length path = path_length_of-memory (omega arith) in
      rw
        (
          le→ltb_false (length request_bytes) 7 (omega (arith, length-request_bytes)),
          process_request,
        )
        (rw pl (
          rw
            (le→ltb_false (length request_bytes) (7 + length path)
              (omega (arith, length-request_bytes)))
            (rw (lt→leb_false max_path_length (length path) short) (
              rw logged (
                ap (λ x. run_command (which_command x) env w memory (length request_bytes))
                  (command_of-memory c))))))
