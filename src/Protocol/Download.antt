-- ===== src/Protocol/Download.antt =====
-- What a GET sends: `handle_get_streaming` of src/protocol.c.
use cileserver.Auth.{check_permission}
use cileserver.Base.{
  ℕ, zero, suc, ◌+◌, ◌<◌, ◌≡◌, refl, sym, ap, ap₂, ◌∙◌, inl, inr, true, false, List, [], ◌∷◌, ◌++◌,
  some, success, failure, arith, ltb, ltb→lt, lt→ltb, le→ltb_false, Bool-cases, length, take, drop,
  append_assoc, take-append-drop, length-take, length-drop,
}
use cileserver.Base.CString.{Bytes}
use cileserver.FileOps.Operations.{FileInfo, get_file_info}
use cileserver.FileOps.Resolve.{get_full_path}
use cileserver.Net.Sends.{
  IsWritable, write_all_complete, write_all-IsWritable, write_once_complete, write_once-IsWritable,
}
use cileserver.Net.{WriteEvent, write_all, write_once, on_conn}
use cileserver.Os.{Stream}
use cileserver.Protocol.Responses.{Rc-cases}
use cileserver.Protocol.State.{Env, World}
use cileserver.Protocol.Streaming.{send_file, send_found, handle_get_streaming, buffer_size}
use cileserver.Wire.{cmd_get, resp_ok, response_header}

-- One round of the loop on a content that is not empty.
module _ (f sent size c : ℕ) (cs : Bytes) (es : List WriteEvent) (more : sent < size) where
  send_file-step :
      (write_all (take buffer_size (c ∷ cs)) es).0 ≡ success
      → send_file (suc f) sent size (c ∷ cs) es ≡ (
          let chunk = take buffer_size (c ∷ cs) in
          let next =
            send_file f
              (sent + length chunk)
              size
              (drop buffer_size (c ∷ cs))
              (write_all chunk es).1 in
          (next.0, next.1, (write_all chunk es).2 ++ next.2))
  unfolding send_file
  send_file-step h = rw (lt→ltb sent size more, send_file) (rw h refl)

  send_file-failure :
      (write_all (take buffer_size (c ∷ cs)) es).0 ≡ failure
      → (send_file (suc f) sent size (c ∷ cs) es).0 ≡ failure
  unfolding send_file
  send_file-failure h = rw (lt→ltb sent size more, send_file) (rw h refl)

-- The loop sends the whole content, if its length is what is still to be sent.
send_file_complete :
    (f sent size : ℕ) (content : Bytes) (es : List WriteEvent)
    → sent + length content ≡ size
    → length content < f
    → (send_file f sent size content es).0 ≡ success
    → (send_file f sent size content es).2 ≡ content
unfolding send_file
send_file_complete zero sent size content es e m h = absurd (omega arith)
send_file_complete (suc f) sent size [] es e m h =
    rw (le→ltb_false sent size (omega arith), send_file) refl
send_file_complete (suc f) sent size (c ∷ cs) es e m h =
    let chunk = take buffer_size (c ∷ cs) in
    let more : sent < size = omega arith in
    elim (Rc-cases (write_all chunk es).0) [
      | inr bad ↦
          let x : failure ≡ success = sym (send_file-failure f sent size c cs es more bad) ∙ h in cc
      | inl good ↦
          let step = send_file-step f sent size c cs es more good in
          ap (λ r. r.2) step
          ∙ ap₂ (λ x y. x ++ y) (write_all_complete chunk es good)
              (send_file_complete f (sent + length chunk) size (drop buffer_size (c ∷ cs)) _
                (omega (arith, length-take buffer_size (c ∷ cs), length-drop buffer_size (c ∷ cs)))
                (omega (arith, length-drop buffer_size (c ∷ cs))) (sym (ap (λ r. r.0) step) ∙ h))
          ∙ take-append-drop buffer_size (c ∷ cs)
    ]

-- It succeeds unless a write fails.
send_file-IsWritable :
    (f sent size : ℕ) (content : Bytes) (es : List WriteEvent)
    → IsWritable es
    → (send_file f sent size content es).0 ≡ success
unfolding send_file
send_file-IsWritable zero sent size content es h = refl
send_file-IsWritable (suc f) sent size [] es h = ground arith
send_file-IsWritable (suc f) sent size (c ∷ cs) es h = elim (Bool-cases (ltb sent size)) [
  | inr over ↦ rw (over, send_file) refl
  | inl more ↦
      let chunk = take buffer_size (c ∷ cs) in
      let (good, writable) = write_all-IsWritable chunk es h in
      ap (λ r. r.0) (send_file-step f sent size c cs es (ltb→lt sent size more) good)
      ∙ send_file-IsWritable f (sent + length chunk) size (drop buffer_size (c ∷ cs)) _ writable
]

-- A GET that is permitted, of a file that is found, can be opened and is as long as `stat` says,
-- answers with the header of RESP_OK for its size and then its whole content, if no write fails
-- and the header goes out at once, however little room the kernel has otherwise.
pub handle_get_streaming-sends :
    {Fs : Type 0} (env : Env Fs) (w : World Fs) (path full_path : Bytes) (info : FileInfo)
    (file : Stream) (role : ℕ)
    → check_permission role cmd_get ≡ true
    → get_file_info env.os env.cfg w.fs path ≡ some info
    → info.is_directory ≡ false
    → get_full_path env.os env.cfg w.fs path 1024 ≡ some full_path
    → env.os.open_read w.fs full_path ≡ some file
    → length file.content ≡ info.size
    → IsWritable w.conn.outbox
    → (write_once (response_header resp_ok info.size) w.conn.outbox).0 ≡ success
    → ((handle_get_streaming env w path role).0 ≡ success)
      × ((handle_get_streaming env w path role).1.conn.sent
          ≡ w.conn.sent ++ (response_header resp_ok info.size ++ file.content))
unfolding handle_get_streaming send_found
handle_get_streaming-sends env w path full_path info file role allowed found plain resolved opened
      size writable header =
    let c1 = (on_conn w.conn (write_once (response_header resp_ok info.size) w.conn.outbox)).1 in
    let body = send_file (suc info.size) 0 info.size file.content c1.outbox in
    let done : body.0 ≡ success =
      send_file-IsWritable (suc info.size) 0 info.size file.content c1.outbox
        (write_once-IsWritable (response_header resp_ok info.size) w.conn.outbox writable) in
    let whole : body.2 ≡ file.content =
      send_file_complete (suc info.size) 0 info.size file.content c1.outbox (omega arith)
        (omega arith) done in
    rw (allowed, handle_get_streaming)
      (rw found (
        rw plain (
          rw (header, send_found)
            (rw resolved (
              rw opened (
                done,
                ap₂ (λ x y. (w.conn.sent ++ x) ++ y)
                      (write_once_complete (response_header resp_ok info.size) w.conn.outbox header)
                      whole
                    ∙ append_assoc w.conn.sent (response_header resp_ok info.size) file.content,
              ))))))
