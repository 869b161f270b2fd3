-- ===== src/Tests/Requests.antt =====
-- Single requests at concrete inputs.
use cileserver.Auth.{role_guest, role_user, check_permission}
use cileserver.Base.{
  ◌≡◌, ◌≢◌, refl, true, false, [], ◌∷◌, ◌++◌, some, success, arith, take, List, none,
}
use cileserver.Base.CString.{Bytes, codes, str_eq, split_at_last, skip, starts_with}
use cileserver.FileOps.Confined.{Touches}
use cileserver.FileOps.Listing.{all_entries, list_directory-take}
use cileserver.FileOps.Operations.{
  FileInfo, list_directory, full_path_of, is_path_valid, get_file_info, file_info, file_name,
  list_entries, is_dot_entry, entry_info,
}
use cileserver.FileOps.Resolve.{
  Under, get_full_path, get_full_path-Under, get_full_path_slash_root, resolve, resolve_parent,
  join_root, lacks_slash, within_root, at_boundary,
}
use cileserver.Net.{ReadEvent, arrived, read_retry, room, write_retry, write_once, write_all}
use cileserver.Net.Reads.{flow}
use cileserver.Os.{Os, content_at}
use cileserver.Protocol.Confined.{process_request-Touches}
use cileserver.Protocol.Download.{handle_get_streaming-sends}
use cileserver.Protocol.Gate.{OnlyAnswers, process_request_gate}
use cileserver.Protocol.Request.{process_request, command_of}
use cileserver.Protocol.Responses.{whole_response, send_response_complete, send_response_delivers}
use cileserver.Config.{Config}
use cileserver.Protocol.Roles.{process_request_guest}
use cileserver.Protocol.State.{World, send_response, reply}
use cileserver.Protocol.Streaming.{handle_get_streaming, handle_put_streaming}
use cileserver.Protocol.Upload.{handle_put_streaming-stores}
use cileserver.Wire.{
  cmd_delete, cmd_put, cmd_get, response_header, resp_ok, resp_auth_required, resp_error,
}
use cileserver.Tests.Disk.{
  Disk, store, empty_disk, hello_disk, srv, a_txt, disk_os, config, env_with, world, disk-HasRoot,
  a_txt-get_full_path, hello-get_full_path, a_txt-KeepsData,
}

-- DELETE of "a.txt".
abbrev delete_bytes : Bytes
delete_bytes = cmd_delete ∷ 0 ∷ 5 ∷ 0 ∷ 0 ∷ 0 ∷ 0 ∷ codes "a.txt"

abbrev user_world : World Disk
user_world = world hello_disk [] role_user [] []

abbrev guest_world : World Disk
guest_world = world hello_disk [] role_guest [] (room 3 ∷ [])

process_request-Touches_example :
    Touches disk_os srv hello_disk (process_request (env_with 1) user_world delete_bytes 12).1.fs
process_request-Touches_example =
    process_request-Touches (env_with 1) user_world srv delete_bytes 12 (disk-HasRoot hello_disk 1)

process_request_gate_example :
    OnlyAnswers guest_world
      (process_request (env_with 1) guest_world delete_bytes 12).1
      (whole_response resp_auth_required (codes "Authentication required") 23)
process_request_gate_example =
    process_request_gate (env_with 1) guest_world delete_bytes 12 (λ e. omega arith) refl no_auth
  where
    no_auth : command_of delete_bytes ≢ 0x07
    no_auth = unfold command_of in λ e. omega arith

process_request_guest_example :
    (process_request (env_with 0) guest_world delete_bytes 12).1.fs ≡ hello_disk
process_request_guest_example = process_request_guest (env_with 0) guest_world delete_bytes 12 refl

get_full_path-Under_example : Under srv a_txt
get_full_path-Under_example =
    get_full_path-Under disk_os (config 1) empty_disk (codes "a.txt") 1024 srv a_txt (omega arith)
      (disk-HasRoot empty_disk 1).resolves (a_txt-get_full_path empty_disk 1 refl)

send_response_complete_example :
    (send_response user_world.conn resp_error (codes "no") 2).1.sent
    ≡ whole_response resp_error (codes "no") 2
unfolding write_all
send_response_complete_example =
    send_response_complete user_world.conn resp_error (codes "no") 2
      (unfold send_response in unfold write_once in refl)

abbrev hello : Bytes
hello = codes "hello"

abbrev hello_info : FileInfo
hello_info = record { name = codes "a.txt"; size = 5; is_directory = false; modified_time = 0 }

hello-get_file_info : get_file_info disk_os (config 1) hello_disk (codes "a.txt") ≡ some hello_info
unfolding get_file_info full_path_of is_path_valid file_info file_name get_full_path resolve
    resolve_parent join_root lacks_slash within_root at_boundary skip str_eq starts_with
    split_at_last
hello-get_file_info = refl

-- The kernel has room for the header and two bytes, and then interrupts.
abbrev slow_world : World Disk
slow_world = world hello_disk [] role_user [] (room 5 ∷ room 2 ∷ write_retry ∷ room 100 ∷ [])

handle_get_streaming-sends_example :
    ((handle_get_streaming (env_with 1) slow_world (codes "a.txt") role_user).0 ≡ success)
    × ((handle_get_streaming (env_with 1) slow_world (codes "a.txt") role_user).1.conn.sent
        ≡ response_header resp_ok 5 ++ hello)
handle_get_streaming-sends_example =
    handle_get_streaming-sends (env_with 1) slow_world (codes "a.txt") a_txt hello_info
      (record { content = hello; breaks = false }) role_user allowed hello-get_file_info refl
      (hello-get_full_path 1) opened refl tt header
  where
    allowed : check_permission role_user cmd_get ≡ true
    allowed = unfold check_permission in refl

    opened : disk_os.open_read hello_disk a_txt ≡ some (record { content = hello; breaks = false })
    opened = unfold str_eq in refl

    header : (write_once (response_header resp_ok 5) slow_world.conn.outbox).0 ≡ success
    header = unfold write_once in unfold response_header in refl

-- "he" has come with the request, and the rest comes in two packets.
abbrev put_world : World Disk
put_world =
    world empty_disk [] role_user (arrived (codes "l") ∷ read_retry ∷ arrived (codes "lo!") ∷ []) []

handle_put_streaming-stores_example :
    (disk : Disk) × (rest : List ReadEvent) × (handle_put_streaming
        (env_with 1)
        put_world
        (codes "a.txt")
        (codes "he")
        5
        role_user
      ≡ reply
          (record put_world { fs = disk; conn = record put_world.conn { inbox = rest } })
          resp_ok
          (codes "File written successfully")
          25)
    × (content_at disk_os disk a_txt ≡ some hello)
    × (flow rest ≡ codes "!")
handle_put_streaming-stores_example =
    handle_put_streaming-stores (env_with 1) put_world (codes "a.txt") (codes "he") a_txt _ 5
      role_user 3 a_txt-KeepsData allowed (a_txt-get_full_path empty_disk 1 refl) opened refl
      (omega arith, (omega arith, tt)) (omega arith)
  where
    allowed : check_permission role_user cmd_put ≡ true
    allowed = unfold check_permission in refl

    opened : disk_os.open_write empty_disk a_txt ≡ some (store empty_disk a_txt [])
    opened = unfold str_eq in refl

-- `.` and `..` and a name that has gone are left out.
hello-list_directory :
    list_directory disk_os (config 1) hello_disk (codes "/") 100 ≡ some (hello_info ∷ [])
unfolding list_directory list_entries is_dot_entry entry_info full_path_of is_path_valid file_info
    get_full_path resolve resolve_parent join_root lacks_slash within_root at_boundary skip str_eq
    starts_with split_at_last
hello-list_directory = refl

list_directory-take_example :
    (full_path : Bytes) × (names : List Bytes) × (full_path_of disk_os
        (config 1)
        hello_disk
        (codes "/")
      ≡ some full_path)
    × (disk_os.opendir hello_disk full_path ≡ some names)
    × (hello_info ∷ [] ≡ take 100 (all_entries disk_os (config 1) hello_disk full_path names))
list_directory-take_example =
    list_directory-take disk_os (config 1) hello_disk (codes "/") 100 (hello_info ∷ [])
      hello-list_directory

-- A disk on which every path is canonical, shared as a whole.
abbrev plain_os : Os Disk
plain_os = record disk_os { realpath = λ d p. some p }

abbrev whole_disk : Config
whole_disk = record (config 1) { root_directory = codes "/" }

get_full_path_slash_root_example :
    get_full_path plain_os whole_disk empty_disk (codes "etc") 1024 ≡ none
get_full_path_slash_root_example =
    get_full_path_slash_root plain_os whole_disk empty_disk (codes "etc") 1024 b'e' (codes "tc")
      refl resolved (λ e. omega arith)
  where
    resolved :
        resolve plain_os empty_disk (join_root whole_disk.root_directory (codes "etc"))
        ≡ some (codes "/etc")
    resolved = unfold resolve in unfold join_root in unfold skip in unfold lacks_slash in refl

send_response_delivers_example :
    (send_response slow_world.conn resp_error (codes "no") 2).0 ≡ success
send_response_delivers_example =
    send_response_delivers slow_world.conn resp_error (codes "no") 2 tt
      (unfold write_once in unfold response_header in refl)

-- A file that has become shorter than announced.
