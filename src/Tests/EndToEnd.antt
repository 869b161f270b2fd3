-- ===== src/Tests/EndToEnd.antt =====
-- The client and the server together at concrete inputs.
use cileserver.Auth.Table.{authenticate_user-add_user}
use cileserver.Auth.{
  Users, role_guest, role_user, new_user, add_user, find_user, authenticate_user, check_permission,
}
use cileserver.Base.CString.{
  Bytes, codes, cstr, str_eq, split_at_last, skip, starts_with, lacks-NoByte,
}
use cileserver.Base.{
  ◌≡◌, refl, sym, ◌∙◌, [], ◌∷◌, ◌++◌, List, Option, some, none, false, success, arith, length,
  append-nil, ℕ, ◌<◌, ◌≤◌, inl, inr, Option-cases,
}
use cileserver.Client.Downloads.{WritesAll}
use cileserver.Client.Session.{Session, is_set}
use cileserver.Client.Transfer.{client_put_file, client_get_file, ends_with_slash}
use cileserver.Client.Uploads.{auth_request, client_put_file-sends}
use cileserver.Client.{send_request, send_data}
use cileserver.EndToEnd.Get.{client_get_file-gets}
use cileserver.EndToEnd.Put.{client_put_file-stores}
use cileserver.FileOps.Operations.{
  FileInfo, get_file_info, full_path_of, is_path_valid, file_info, file_name,
}
use cileserver.FileOps.Resolve.{
  get_full_path, resolve, resolve_parent, join_root, lacks_slash, within_root, at_boundary,
}
use cileserver.Net.Reads.{flow}
use cileserver.Net.{ReadEvent, arrived, read, fill, write_once, write_all}
use cileserver.Os.{content_at}
use cileserver.Protocol.Request.{
  process_request, needs_login, command_of, path_length_of, path_of, which_command, run_command,
}
use cileserver.Protocol.State.{World}
use cileserver.Protocol.Streaming.{handle_get_streaming, send_found, send_file}
use cileserver.Server.Receive.{handle_client, receive_request, receive_path, receive_payload}
use cileserver.Tests.Disk.{
  Disk, store, empty_disk, hello_disk, a_txt, disk_os, config, env_with, world, a_txt-get_full_path,
  hello-get_full_path, a_txt-KeepsData,
}
use cileserver.Wire.{cmd_put, cmd_get, resp_ok, message_header, response_header}

-- The server knows one user.
abbrev pub users : Users
users = new_user (codes "carol") (codes "secret") role_user [] ∷ []

pub carol_is_known : authenticate_user (codes "carol") (codes "secret") users ≡ some role_user
carol_is_known =
    authenticate_user-add_user (codes "carol") (codes "secret") role_user [] [] users (omega arith)
      added
  where
    added : add_user (codes "carol") (codes "secret") role_user [] [] ≡ (success, users)
    added = unfold add_user in unfold find_user in refl

-- What `fseek` and `ftell` give on the disk of the tests.
abbrev pub file_length : Disk → Bytes → Option ℕ
file_length d p = elim (d p) [ none ↦ none | some bytes ↦ some (length bytes) ]

abbrev pub session : Disk → Bytes → Bytes → List ReadEvent → Session Disk
session d username password inbox = record {
  conn = record { inbox = inbox; outbox = []; sent = [] };
  fs = d;
  username = username;
  password = password;
  stdin = [];
  stack = 255 ∷ 254 ∷ [];
  stdout = [];
}

abbrev pub carol : Session Disk
carol = session hello_disk (codes "carol") (codes "secret") []

-- What carol's client sends to upload its file, in one packet.
abbrev pub upload_text : Bytes
upload_text =
    auth_request (codes "carol") (codes "secret") (255 ∷ 254 ∷ [])
    ++ ((message_header cmd_put 5 5 ++ codes "a.txt") ++ codes "hello")

abbrev pub upload_world : World Disk
upload_world = world empty_disk users role_guest (arrived upload_text ∷ []) []

pub hello_there :
    disk_os.open_read hello_disk a_txt ≡ some (record { content = codes "hello"; breaks = false })
unfolding str_eq
hello_there = refl

pub hello_length : file_length hello_disk a_txt ≡ some 5
unfolding str_eq
hello_length = refl

pub upload_arrives :
    flow (arrived upload_text ∷ [])
    ≡ (client_put_file disk_os file_length carol (codes "a.txt") a_txt).1.conn.sent
unfolding is_set ends_with_slash
upload_arrives =
    append-nil upload_text
    ∙ sym (
        client_put_file-sends disk_os file_length carol (codes "a.txt") a_txt
          (record { content = codes "hello"; breaks = false }) refl refl refl (omega arith)
          hello_there hello_length tt)

client_put_file-stores_example :
    let after = (handle_client (env_with 1) (handle_client (env_with 1) upload_world []).1 []).1 in
    (content_at disk_os after.fs a_txt ≡ some (codes "hello")) × (flow after.conn.inbox ≡ [])
unfolding is_set ends_with_slash check_permission
client_put_file-stores_example =
    client_put_file-stores disk_os file_length (env_with 1) carol upload_world (codes "a.txt") a_txt
      a_txt [] [] (record { content = codes "hello"; breaks = false }) (store empty_disk a_txt [])
      role_user refl refl (omega arith) (omega arith) (lacks-NoByte 0 (codes "carol") refl)
      (lacks-NoByte 0 (codes "secret") refl) (lacks-NoByte 0 (codes "a.txt") refl) (omega arith)
      refl refl tt hello_there hello_length (omega arith) (filled, tt) upload_arrives carol_is_known
      refl (a_txt-get_full_path empty_disk 1 refl) opens a_txt-KeepsData
  where
    filled : 0 < length upload_text
    filled = unfold message_header in omega arith

    opens : disk_os.open_write empty_disk a_txt ≡ some (store empty_disk a_txt [])
    opens = unfold str_eq in refl

pub a_txt-WritesAll : WritesAll disk_os a_txt
unfolding str_eq
a_txt-WritesAll = record {
  counts = λ a old bytes e. elim (Option-cases (a a_txt)) [
    | inl absent ↦ let x : none ≡ some old = rw absent at e in cc
    | inr (before, present) ↦ rw present refl
  ];
}

-- Somebody without a login, who gets the same file.
abbrev answer_text : Bytes
answer_text = response_header resp_ok 5 ++ codes "hello"

abbrev visitor : Session Disk
visitor = session empty_disk [] [] (arrived answer_text ∷ [])

abbrev download_world : World Disk
download_world =
    world hello_disk [] role_guest (arrived (message_header cmd_get 5 0 ++ codes "a.txt") ∷ []) []

abbrev hello_info : FileInfo
hello_info = record { name = codes "a.txt"; size = 5; is_directory = false; modified_time = 0 }

hello-get_file_info : get_file_info disk_os (config 0) hello_disk (codes "a.txt") ≡ some hello_info
unfolding get_file_info full_path_of is_path_valid file_info file_name get_full_path resolve
    resolve_parent join_root lacks_slash within_root at_boundary skip str_eq starts_with
    split_at_last
hello-get_file_info = refl

download_asked :
    flow download_world.conn.inbox
    ≡ (send_request visitor.conn cmd_get (codes "a.txt") none 0).1.sent
unfolding send_request send_data write_once message_header
download_asked = refl

download_answered :
    flow visitor.conn.inbox ≡ (handle_client (env_with 0) download_world []).1.conn.sent
unfolding handle_client receive_request receive_path receive_payload fill read process_request
    needs_login command_of path_length_of path_of which_command run_command handle_get_streaming
    send_found send_file write_once write_all check_permission message_header response_header cstr
    get_file_info full_path_of is_path_valid file_info file_name get_full_path resolve
    resolve_parent join_root lacks_slash within_root at_boundary skip str_eq starts_with
    split_at_last
download_answered = refl

client_get_file-gets_example :
    let r = client_get_file disk_os visitor (codes "a.txt") a_txt in
    (r.0 ≡ success) × (content_at disk_os r.1.fs a_txt ≡ some (codes "hello"))
unfolding is_set check_permission write_once
client_get_file-gets_example =
    client_get_file-gets disk_os (env_with 0) visitor download_world (codes "a.txt") a_txt a_txt []
      answer_text [] (store empty_disk a_txt []) hello_info
      (record { content = codes "hello"; breaks = false }) refl refl (omega arith)
      (lacks-NoByte 0 (codes "a.txt") refl) refl tt (filled, tt) download_asked refl
      hello-get_file_info refl (hello-get_full_path 0) hello_there refl (omega arith) refl tt header
      refl enough tt download_answered opens a_txt-KeepsData a_txt-WritesAll
  where
    filled : 0 < length (message_header cmd_get 5 0 ++ codes "a.txt")
    filled = unfold message_header in omega arith

    enough : 5 ≤ length answer_text
    enough = unfold response_header in omega arith

    header : (write_once (response_header resp_ok 5) download_world.conn.outbox).0 ≡ success
    header = unfold write_once in refl

    opens : disk_os.open_write empty_disk a_txt ≡ some (store empty_disk a_txt [])
    opens = unfold str_eq in refl
