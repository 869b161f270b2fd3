-- ===== src/Tests/Connections.antt =====
-- Connections and the table of clients at concrete inputs.
use cileserver.Auth.{role_guest, role_user, check_permission, authenticate_user, find_user}
use cileserver.Base.{
  ℕ, Bool, ◌==◌, ◌≢◌, ◌+◌, ◌≤◌, ◌≡◌, refl, true, false, [], ◌∷◌, ◌++◌, some, arith, length, take,
  drop, List, replicate, append-nil,
}
use cileserver.Base.CString.{Bytes, NoByte, lacks-NoByte, codes, str_eq}
use cileserver.Net.{
  ReadEvent, arrived, read_broken, read_retry, room, write_retry, fill, fill_fuel, write_all,
}
use cileserver.Net.Fuel.{FillOutcome, fill-FillOutcome}
use cileserver.Net.Reads.{flow, Takes, fill-Takes}
use cileserver.Net.Sends.{write_all_complete}
use cileserver.Protocol.Request.{needs_login}
use cileserver.Protocol.State.{World, reply}
use cileserver.Os.{content_at}
use cileserver.Server.Framing.{Carries}
use cileserver.Server.Receive.{handle_client, serve, with_inbox}
use cileserver.Server.Requests.{memory}
use cileserver.Server.Sessions.{
  StaysGuest, NobodyLogsIn, serve-StaysGuest, handle_client-refused_put,
}
use cileserver.Server.Slots.{
  Event, incoming, accepted, gone, max_clients, run, no_clients, take_slot, server_process,
  clear_slot, client_cleanup, handle_event,
}
use cileserver.Server.Shutdown.{
  Shutdown, waiting, by_main, joining, stopped, update, hung_up, joins, Reaches, here, after,
  shutdown_begun, shutdown_hangs,
}
use cileserver.Server.Slots.Leaks.{run-IsServer, run_no_leak}
use cileserver.Server.Slots.Table.{taken, open_count, closed_count}
use cileserver.Server.Uploads.{handle_client-stores}
use cileserver.Tests.Disk.{
  Disk, store, empty_disk, a_txt, disk_os, env_with, world, a_txt-get_full_path, a_txt-KeepsData,
}
use cileserver.Wire.{cmd_put, message_header, resp_ok, resp_error}

abbrev a_name : Bytes
a_name = codes "a.txt"

a_name-NoByte : NoByte 0 a_name
a_name-NoByte = lacks-NoByte 0 a_name refl

-- A PUT of "hello" to "a.txt", and two bytes of the next request, in three packets.
abbrev put_packets : List ReadEvent
put_packets =
    arrived (cmd_put ∷ 0 ∷ 5 ∷ 0 ∷ [])
    ∷ read_retry
    ∷ arrived (0 ∷ 0 ∷ 5 ∷ codes "a.t")
    ∷ arrived (codes "xthello!!")
    ∷ []

put_packets-Carries : Carries cmd_put a_name 5 (codes "hello!!") put_packets
unfolding message_header
put_packets-Carries = record {
  clean = (omega arith, (omega arith, (omega arith, tt)));
  bytes = refl;
  path_fits = omega arith;
  data_fits = omega arith;
  body_fits = omega arith;
}

abbrev put_world : World Disk
put_world = world empty_disk [] role_user put_packets []

abbrev guest_put_world : World Disk
guest_put_world = world empty_disk [] role_guest put_packets []

handle_client-stores_example :
    (disk : Disk) × (rest : List ReadEvent) × (handle_client (env_with 1) put_world []
      ≡ reply
          (record put_world { fs = disk; conn = record put_world.conn { inbox = rest } })
          resp_ok
          (codes "File written successfully")
          25)
    × (content_at disk_os disk a_txt ≡ some (codes "hello"))
    × (flow rest ≡ codes "!!")
handle_client-stores_example =
    handle_client-stores (env_with 1) put_world a_name a_txt (codes "hello!!") []
      (store empty_disk a_txt []) 5 a_txt-KeepsData allowed a_name-NoByte (omega arith)
      (a_txt-get_full_path empty_disk 1 refl) opened put_packets-Carries
  where
    allowed : check_permission role_user cmd_put ≡ true
    allowed = unfold check_permission in refl

    opened : disk_os.open_write empty_disk a_txt ≡ some (store empty_disk a_txt [])
    opened = unfold str_eq in refl

nobody : NobodyLogsIn []
unfolding authenticate_user find_user
nobody username password = refl

serve-StaysGuest_example : StaysGuest guest_put_world (serve (env_with 0) 3 guest_put_world [])
serve-StaysGuest_example = serve-StaysGuest (env_with 0) 3 guest_put_world [] refl nobody

-- A PUT of 5000 bytes, of which 4084 fit the buffer behind the header and the path.
abbrev large : Bytes
large = replicate 5000 b'x'

abbrev large_world : World Disk
large_world =
    world empty_disk [] role_guest
      (arrived (message_header cmd_put 5 5000 ++ (a_name ++ large)) ∷ []) []

large-Carries : Carries cmd_put a_name 5000 large large_world.conn.inbox
unfolding message_header
large-Carries = record {
  clean = (omega arith, tt);
  bytes = append-nil (message_header cmd_put 5 5000 ++ (a_name ++ large));
  path_fits = omega arith;
  data_fits = omega arith;
  body_fits = omega arith;
}

handle_client-refused_put_example :
    (rest : List ReadEvent) × (handle_client (env_with 0) large_world []
      ≡ reply (with_inbox large_world rest) resp_error (codes "Permission denied") 17)
    × (flow rest ≡ drop 4084 large)
handle_client-refused_put_example =
    handle_client-refused_put (env_with 0) large_world a_name large [] 5000 denied logged
      a_name-NoByte (omega arith) large-Carries
  where
    denied : check_permission role_guest cmd_put ≡ false
    denied = unfold check_permission in refl

    logged :
        needs_login (env_with 0) large_world (memory cmd_put a_name 5000 (take 4084 large) [])
        ≡ false
    logged = unfold needs_login in refl

fill-Takes_example : Takes 9 put_packets (fill (fill_fuel 9 put_packets) 9 put_packets)
fill-Takes_example =
    fill-Takes 9 put_packets (omega arith, (omega arith, (omega arith, tt))) (omega arith)

write_all_complete_example :
    (write_all (codes "abc") (room 1 ∷ write_retry ∷ room 1 ∷ [])).2 ≡ codes "abc"
write_all_complete_example =
    write_all_complete (codes "abc") (room 1 ∷ write_retry ∷ room 1 ∷ []) (unfold write_all in refl)

-- Two clients arrive, the first leaves, a thread cannot be made, and a third client arrives.
abbrev visits : List Event
visits =
    incoming (accepted 7 true)
    ∷ incoming (accepted 8 true)
    ∷ gone 0
    ∷ gone 0
    ∷ incoming (accepted 7 false)
    ∷ incoming (accepted 9 true)
    ∷ []

run-IsServer_example :
    (length (run no_clients visits).slots ≡ max_clients)
    × ((run no_clients visits).num_clients ≡ taken (run no_clients visits).slots)
    × ((run no_clients visits).num_clients ≤ max_clients)
run-IsServer_example = run-IsServer visits

run_no_leak_example :
    open_count 7 (run no_clients visits).slots + closed_count 7 (run no_clients visits).closed ≡ 2
run_no_leak_example = run_no_leak visits 7

visits_closed : (run no_clients visits).closed ≡ 7 ∷ 7 ∷ []
unfolding run handle_event server_process take_slot client_cleanup clear_slot
visits_closed = refl

-- A connection that breaks in the middle of a header.
abbrev broken_header : List ReadEvent
broken_header = arrived (1 ∷ []) ∷ read_broken ∷ []

fill-FillOutcome_example :
    FillOutcome 7 broken_header (fill (fill_fuel 7 broken_header) 7 broken_header)
fill-FillOutcome_example = fill-FillOutcome 7 broken_header

-- The first slot is taken; its descriptor has been closed by the main thread, and its thread has
-- come to the lock.
abbrev only_first : ℕ → Bool
only_first i = i == 0

abbrev nobody_at_lock : ℕ → Bool
nobody_at_lock i = false

abbrev hung : Shutdown
hung = record {
  main = joining 0;
  lock = by_main;
  threads = update (shutdown_begun only_first nobody_at_lock).threads 0 waiting;
  open_fds = update only_first 0 false;
}

hung-Reaches : Reaches (shutdown_begun only_first nobody_at_lock) hung
hung-Reaches = after (after here (joins 0 refl (omega arith) refl)) (hung_up 0 refl)

shutdown_hangs_example : (hung.main ≢ stopped) × (hung.lock ≡ by_main)
shutdown_hangs_example =
    shutdown_hangs only_first nobody_at_lock 0 hung (omega arith) refl hung-Reaches
