-- ===== src/Client/Transfer.antt =====
-- `client_get_file` and `client_put_file` of src/client.c, with their loops over pieces of 4096
-- bytes. They do not try again after EINTR.
use cileserver.Base.CString.{Bytes, codes, cstr}
use cileserver.Base.{
  ℕ, zero, suc, ◌-◌, ◌&&◌, Bool, true, false, List, [], ◌∷◌, ◌++◌, Option, none, some, Rc, success,
  failure, ltb, ◌==◌, if◌then◌else◌, length, take, drop, min,
}
use cileserver.Client.Session.{Session, send, receive, print_line, login_first, client_buffer}
use cileserver.Client.{Response, received, auth_required, failed, receive_header}
use cileserver.Net.{
  ReadEvent, WriteEvent, read, got, again, error, room, write_retry, write_broken, on_conn,
}
use cileserver.Os.{Os, Stream}
use cileserver.Wire.{cmd_get, cmd_put}

-- `while (written < bytes_read) { sent = write(...); ... }` of the upload.
unfoldable pub write_strict : Bytes → List WriteEvent → Rc × List WriteEvent × Bytes
write_strict [] es = (success, es, [])
write_strict (b ∷ bs) [] = (success, [], b ∷ bs)
write_strict (b ∷ bs) (write_retry ∷ es) = (failure, es, [])
write_strict (b ∷ bs) (write_broken ∷ es) = (failure, es, [])
write_strict (b ∷ bs) (room n ∷ es) =
    let (rc, es', out) = write_strict (drop n (b ∷ bs)) es in (rc, es', take n (b ∷ bs) ++ out)

-- The loop of the upload; `content` is what `fread` still gets. Each round lowers `remaining`.
unfoldable pub upload : ℕ → ℕ → Bytes → List WriteEvent → Rc × List WriteEvent × Bytes
upload zero remaining content es = (failure, es, [])
upload (suc f) zero content es = (success, es, [])
upload (suc f) (suc n) content es = elim (take (min (suc n) client_buffer) content) [
  | [] ↦ (failure, es, [])
  | b ∷ bs ↦
      let (rc, es', out) = write_strict (b ∷ bs) es in
      elim rc [
        | failure ↦ (failure, es', out)
        | success ↦
            let (rc', es'', later) =
              upload f (suc n - length (b ∷ bs)) (drop (length (b ∷ bs)) content) es' in
            (rc', es'', out ++ later)
      ]
]

-- `path_len > 0 && path[path_len - 1] == '/'`
unfoldable pub ends_with_slash : Bytes → Bool
ends_with_slash [] = false
ends_with_slash (c ∷ []) = c == b'/'
ends_with_slash (c ∷ d ∷ cs) = ends_with_slash (d ∷ cs)

module _ {Fs : Type 0} where
  -- The message at the end of an upload.
  unfoldable pub show_upload : Response → Session Fs → Rc × Session Fs
  show_upload auth_required s = (failure, s)
  show_upload failed s = (failure, s)
  show_upload (received data_size bytes) s = (
    success,
    (if ltb 0 data_size && ltb data_size client_buffer
        then print_line (cstr bytes) s
        else print_line (codes "Upload completed successfully.") s),
  )

  -- From the point where the size of the local file is known.
  unfoldable pub upload_from : Session Fs → Bytes → Stream → ℕ → Rc × Session Fs
  upload_from s path file file_size =
      let (rc, s1) = send s cmd_put path none file_size in
      elim rc [
        | failure ↦ (failure, s1)
        | success ↦
            let (rc', c) =
              on_conn s1.conn (upload (suc file_size) file_size file.content s1.conn.outbox) in
            let s2 = record s1 { conn = c } in
            elim rc' [
              | failure ↦ (failure, s2)
              | success ↦ let (response, s3) = receive s2 in show_upload response s3
            ]
      ]

module _ {Fs : Type 0} (os : Os Fs) where
  -- The loop of the download. Each round lowers `remaining`.
  unfoldable pub download : Bytes → ℕ → ℕ → Fs → List ReadEvent → Rc × Fs × List ReadEvent
  download local_path zero remaining fs es = (failure, fs, es)
  download local_path (suc f) zero fs es = (success, fs, es)
  download local_path (suc f) (suc n) fs es = elim (read (min (suc n) client_buffer) es) [
    | again es' ↦ (failure, fs, es')
    | error es' ↦ (failure, fs, es')
    | got [] es' ↦ (failure, fs, es')
    | got (b ∷ bs) es' ↦
        let (fs', count) = os.fwrite fs local_path (b ∷ bs) in
        elim (count == length (b ∷ bs)) [
          | false ↦ (failure, fs', es')
          | true ↦ download local_path f (suc n - length (b ∷ bs)) fs' es'
        ]
  ]

  -- From the point where the local file has been opened.
  unfoldable pub download_to : Bytes → ℕ → Fs → Session Fs → Rc × Session Fs
  download_to local_path data_size opened s =
      let (rc, fs, es) = download local_path (suc data_size) data_size opened s.conn.inbox in
      (rc, record s { fs = fs; conn = record s.conn { inbox = es } })

  -- From the point where the GET request is sent.
  unfoldable pub download_from : Session Fs → Bytes → Bytes → Rc × Session Fs
  download_from s path local_path =
      let (rc, s1) = send s cmd_get path none 0 in
      elim rc [
        | failure ↦ (failure, s1)
        | success ↦
            let (response, es) = receive_header s1.conn.inbox in
            let s2 = record s1 { conn = record s1.conn { inbox = es } } in
            elim response [
              | auth_required ↦ (failure, s2)
              | failed ↦ (failure, s2)
              | received data_size bytes ↦ elim (os.open_write s2.fs local_path) [
                | none ↦ (failure, s2)
                | some opened ↦ download_to local_path data_size opened s2
              ]
            ]
      ]

  -- The result says whether the client has printed that the file has been downloaded.
  unfoldable pub client_get_file : Session Fs → Bytes → Bytes → Rc × Session Fs
  client_get_file s path local_path = download_from (login_first s) path local_path

  -- `file_length` is what `fseek` to the end and `ftell` give for a file opened at that path; none
  -- is a negative result.
  module _ (file_length : Fs → Bytes → Option ℕ) where
    -- The result says whether the client has printed that the file has been uploaded.
    unfoldable pub client_put_file : Session Fs → Bytes → Bytes → Rc × Session Fs
    client_put_file s path local_path =
        if ends_with_slash path
        then (failure, s)
        else (let s1 = login_first s in
            elim (os.open_read s1.fs local_path) [
              | none ↦ (failure, s1)
              | some file ↦ elim (file_length s1.fs local_path) [
                | none ↦ (failure, s1)
                | some file_size ↦ upload_from s1 path file file_size
              ]
            ])
