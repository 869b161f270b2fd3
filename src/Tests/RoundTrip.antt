-- ===== src/Tests/RoundTrip.antt =====
-- A file that carol uploads and downloads again.
use cileserver.Auth.{check_permission, role_guest, role_user}
use cileserver.Base.CString.{Bytes, codes, str_eq, split_at_last, skip, starts_with, lacks-NoByte}
use cileserver.Base.{
  ◌≡◌, ◌<◌, ◌≤◌, refl, sym, ◌∙◌, ap, [], ◌∷◌, ◌++◌, some, none, true, false, success, arith, length,
  append-nil, take_all, ℕ, inl, inr, Option-cases, append_assoc,
}
use cileserver.Client.Session.{Session, is_set, login_first}
use cileserver.Client.Transfer.{client_get_file, ends_with_slash}
use cileserver.Client.Room.{send_request-Sent}
use cileserver.Client.Uploads.{auth_request, login_first-SentOn}
use cileserver.Client.{send_request}
use cileserver.EndToEnd.Login.{Account, Names, handle_client-sends}
use cileserver.EndToEnd.Put.{client_put_file-stores}
use cileserver.EndToEnd.RoundTrip.{client_get_file-client_put_file}
use cileserver.FileOps.Operations.{is_path_valid}
use cileserver.FileOps.Resolve.{
  get_full_path, resolve, resolve_parent, join_root, lacks_slash, within_root, at_boundary,
}
use cileserver.Net.Reads.{flow}
use cileserver.Net.{arrived}
use cileserver.Os.{content_at}
use cileserver.Protocol.Handlers.{welcome}
use cileserver.Protocol.Request.{process_request}
use cileserver.Protocol.Roles.{FairLogin, process_request-FairLogin}
use cileserver.Protocol.State.{World}
use cileserver.Server.Logins.{handle_client-LoggedIn, handle_client-welcomes}
use cileserver.Server.Receive.{handle_client}
use cileserver.Tests.Disk.{
  Disk, store, empty_disk, a_txt, disk_os, env_with, world, a_txt-get_full_path, a_txt-KeepsData,
}
use cileserver.Tests.EndToEnd.{
  users, carol_is_known, file_length, session, carol, upload_text, upload_world, hello_there,
  hello_length, upload_arrives, a_txt-WritesAll,
}
use cileserver.Wire.{cmd_put, cmd_get, resp_ok, message_header, response_header}

-- A disk that has content at a path has a file there.
content_at-disk :
    (d : Disk) (p bytes : Bytes) → content_at disk_os d p ≡ some bytes → d p ≡ some bytes
content_at-disk d p bytes e = elim (Option-cases (d p)) [
  | inl absent ↦ let x : none ≡ some bytes = rw absent at e in cc
  | inr (before, present) ↦ let x : some before ≡ some bytes = rw present at e in present ∙ x
]

a_txt-Names : Names (env_with 1) (codes "a.txt") a_txt
unfolding is_path_valid ends_with_slash get_full_path resolve resolve_parent join_root lacks_slash
    within_root at_boundary skip str_eq starts_with split_at_last
a_txt-Names = record {
  not_empty = refl;
  short = omega arith;
  no_nul = lacks-NoByte 0 (codes "a.txt") refl;
  no_directory = refl;
  keeps = a_txt-KeepsData;
  resolves = λ d bytes out_size e h.
      rw (content_at-disk d a_txt bytes e) (ap some (take_all {A = ℕ} _ a_txt (omega arith)));
  measured = λ d bytes e. (
    record { st_size = length bytes; is_dir = false; st_mtime = 0 },
    rw (content_at-disk d a_txt bytes e) refl,
    refl,
    refl,
  );
}

carol-Account : Account users (codes "carol") (codes "secret") role_user
unfolding is_set
carol-Account = record {
  name_set = refl;
  password_set = refl;
  name_short = omega arith;
  password_short = omega arith;
  name_no_nul = lacks-NoByte 0 (codes "carol") refl;
  password_no_nul = lacks-NoByte 0 (codes "secret") refl;
  known = carol_is_known;
}

-- The server after the upload, and carol's second connection to it.
abbrev after : World Disk
after = (handle_client (env_with 1) (handle_client (env_with 1) upload_world []).1 []).1

abbrev get_text : Bytes
get_text = message_header cmd_get 5 0 ++ codes "a.txt"

abbrev login_text : Bytes
login_text = auth_request (codes "carol") (codes "secret") (255 ∷ 254 ∷ [])

abbrev second_world : World Disk
second_world = world after.fs users role_guest (arrived (login_text ++ get_text) ∷ []) []

-- The login of carol, as it lies in the buffer.
process_request-FairLogin_example :
    FairLogin second_world login_text
      (length login_text)
      (process_request (env_with 1) second_world login_text (length login_text)).1
process_request-FairLogin_example =
    process_request-FairLogin (env_with 1) second_world login_text (length login_text)

abbrev greeting : Bytes
greeting = welcome (codes "carol") role_user

abbrev file_packet : Bytes
file_packet = response_header resp_ok 5 ++ codes "hello"

abbrev downloader : Session Disk
downloader = session empty_disk (codes "carol") (codes "secret") (
    arrived (response_header resp_ok (length greeting))
    ∷ arrived greeting
    ∷ arrived file_packet
    ∷ [])

opens : disk_os.open_write empty_disk a_txt ≡ some (store empty_disk a_txt [])
unfolding str_eq
opens = refl

upload_filled : 0 < length upload_text
unfolding message_header
upload_filled = omega arith

user_may_put : check_permission role_user cmd_put ≡ true
unfolding check_permission
user_may_put = refl

user_may_get : check_permission role_user cmd_get ≡ true
unfolding check_permission
user_may_get = refl

upload_stored : content_at disk_os after.fs a_txt ≡ some (codes "hello")
upload_stored =
    let a = carol-Account in
    let n = a_txt-Names in
    (client_put_file-stores disk_os file_length (env_with 1) carol upload_world (codes "a.txt")
      a_txt a_txt [] [] (record { content = codes "hello"; breaks = false })
      (store empty_disk a_txt []) role_user a.name_set a.password_set a.name_short a.password_short
      a.name_no_nul a.password_no_nul n.no_nul n.short n.no_directory refl tt hello_there
      hello_length (omega arith) (upload_filled, tt) upload_arrives a.known user_may_put
      (a_txt-get_full_path empty_disk 1 refl) opens n.keeps).0

-- What carol's second client sends.
asked :
    flow second_world.conn.inbox
    ≡ (send_request (login_first downloader).conn cmd_get (codes "a.txt") none 0).1.sent
asked =
    let a = carol-Account in
    let login = login_first-SentOn downloader a.name_set a.password_set tt in
    let (done, sent) =
      send_request-Sent (login_first downloader).conn cmd_get (codes "a.txt") (omega arith)
        login.conn_sent.roomy 0 in
    append-nil (login_text ++ get_text)
    ∙ sym (sent.sent ∙ ap (λ x. x ++ get_text) login.conn_sent.sent)

asked_filled : 0 < length (login_text ++ get_text)
unfolding message_header
asked_filled = omega arith

-- What the server answers it.
answered :
    flow downloader.conn.inbox
    ≡ (handle_client (env_with 1) (handle_client (env_with 1) second_world []).1 []).1.conn.sent
answered =
    let a = carol-Account in
    let bytes = append-nil (login_text ++ get_text) in
    let logged =
      handle_client-LoggedIn (env_with 1) second_world (codes "carol") (codes "secret")
        (255 ∷ 254 ∷ []) [] get_text role_user a.name_short a.name_no_nul a.password_short
        a.password_no_nul a.known (asked_filled, tt) bytes in
    let (welcomed, room) =
      handle_client-welcomes (env_with 1) second_world (codes "carol") (codes "secret")
        (255 ∷ 254 ∷ []) [] get_text role_user a.name_short a.name_no_nul a.password_short
        a.password_no_nul a.known (asked_filled, tt) bytes refl in
    let w1 = (handle_client (env_with 1) second_world []).1 in
    let sends =
      handle_client-sends (env_with 1) (codes "a.txt") a_txt a_txt-Names w1 [] (codes "hello")
        (ap (λ f. content_at disk_os f a_txt) logged.same_fs ∙ upload_stored)
        (ap (λ r. check_permission r cmd_get) logged.has_role ∙ user_may_get)
        (λ e. let x : 1 ≡ 0 = sym logged.has_role ∙ e in ground arith) room logged.clean_later
        logged.flow_later in
    let header = response_header resp_ok (length greeting) in
    ap (λ x. header ++ (greeting ++ x)) (append-nil file_packet)
    ∙ sym (append_assoc header greeting file_packet)
    ∙ ap (λ x. (header ++ x) ++ file_packet)
        (sym (take_all {A = ℕ} (length greeting) greeting (omega arith)))
    ∙ sym (sends ∙ ap (λ x. x ++ file_packet) welcomed)

file_packet_enough : 5 ≤ length file_packet
unfolding response_header
file_packet_enough = omega arith

client_get_file-client_put_file_example :
    let r = client_get_file disk_os downloader (codes "a.txt") a_txt in
    (r.0 ≡ success) × (content_at disk_os r.1.fs a_txt ≡ some (codes "hello"))
client_get_file-client_put_file_example =
    client_get_file-client_put_file disk_os file_length (env_with 1) (codes "a.txt") a_txt
      a_txt-Names carol downloader upload_world second_world a_txt a_txt file_packet [] [] [] []
      (record { content = codes "hello"; breaks = false }) (store empty_disk a_txt []) []
      (store empty_disk a_txt []) role_user role_user carol-Account user_may_put carol-Account
      user_may_get (λ e. let x : 1 ≡ 0 = e in ground arith) hello_there hello_length (omega arith)
      refl tt (upload_filled, tt) upload_arrives (a_txt-get_full_path empty_disk 1 refl) opens refl
      refl refl tt refl refl (asked_filled, tt) asked refl file_packet_enough tt answered opens
      a_txt-KeepsData a_txt-WritesAll
