-- ===== src/Tests/Programs.antt =====
-- The programs around the server at concrete inputs: the logger, the two `main` functions, the
-- start of the server, and the answers that a client reads.
use cileserver.Base.CString.{Bytes, codes, str_eq, lacks-NoByte}
use cileserver.Base.{◌≡◌, refl, [], ◌∷◌, List, some, none, true, false, success, arith, ◌*◌}
use cileserver.Client.Bounds.{FitsBuffer, receive_response-FitsBuffer, listing_too_large}
use cileserver.Client.Commands.{client_command, show_message, decode_infos, num_entries}
use cileserver.Client.Fuel.{client_command_any_fuel}
use cileserver.Client.Listing.{receive_listing}
use cileserver.Client.Session.{Session, client_buffer}
use cileserver.Client.{receive_response, received, failed}
use cileserver.FileOps.Operations.{FileInfo}
use cileserver.Logger.{Logger, blocked}
use cileserver.Logger.Levels.{Message, Logs, log_all, log_all-Logs}
use cileserver.Config.File.{ConfigState, load_config, set_config_path, init_default_config}
use cileserver.Main.Start.{start_default_port}
use cileserver.Main.CommandLine.{command_line, parse_arguments-command_line}
use cileserver.Main.Exit.{finish-blocks}
use cileserver.Main.{
  Happening, signal, server_event, Options, default_options, no_value, parse_arguments,
  parse_argument, parse_option, start, apply_options, finish,
}
use cileserver.Net.{ReadEvent, arrived}
use cileserver.Protocol.State.{encode_infos, file_info_size}
use cileserver.Server.Init.{
  SocketCalls, Starting, InitOutcome, init_server, open_listener, finish_init,
  init_server-InitOutcome,
}
use cileserver.Server.Slots.{static_clients, incoming, gone, accepted}
use cileserver.Client.Main.{ClientAwaited, parse_options, default_globals, which_option}
use cileserver.Tests.Disk.{Disk, empty_disk, disk_os, config}
use cileserver.Wire.{cmd_delete, resp_ok, response_header}

abbrev logger : Logger
logger = record { is_open = true; locked = false; current_log_level = 1; file = []; stderr = [] }

abbrev messages : List Message
messages =
    record { timestamp = codes "10:00"; level = 0; text = codes "detail" }
    ∷ record { timestamp = codes "10:01"; level = 2; text = codes "careful" }
    ∷ []

log_all-Logs_example : Logs logger messages (log_all false messages logger)
log_all-Logs_example = log_all-Logs false messages logger refl refl

finish-blocks_example :
    (last : Logger) × (finish true (codes "10:00") (codes "10:01") logger ≡ blocked last)
    × (last.locked ≡ true)
finish-blocks_example = finish-blocks true (codes "10:00") (codes "10:01") logger refl (omega arith)

-- `listen` fails.
abbrev calls : SocketCalls
calls = record {
  socket = some 3;
  setsockopt = true;
  bind = true;
  listen = false;
  get_flags = true;
  set_flags = true;
}

abbrev starting : Starting Disk
starting = record {
  fs = empty_disk;
  auth = record { users = []; auth_file_path = [] };
  listener = record {
    server_fd = none;
    bound_port = none;
    backlog = none;
    non_blocking = false;
    closed = [];
  };
  table = static_clients;
}

init_server-InitOutcome_example :
    InitOutcome disk_os
      (config 1)
      calls
      9090
      10
      []
      starting
      (init_server disk_os (config 1) calls 9090 10 [] starting)
init_server-InitOutcome_example =
    init_server-InitOutcome disk_os (config 1) calls 9090 10 [] starting

abbrev options : Options
options = record {
  port = 8000;
  port_specified = true;
  auth_enabled = some true;
  config_path = codes "/etc/cileserver.conf";
  auth_file = codes "users";
}

parse_arguments-command_line_example :
    parse_arguments no_value default_options (command_line options) ≡ some options
parse_arguments-command_line_example =
    parse_arguments-command_line options (omega arith) (omega arith)
      (omega arith, λ e. ground arith)

arguments_help :
    parse_arguments no_value default_options (codes "-p" ∷ codes "1" ∷ codes "-h" ∷ []) ≡ none
unfolding parse_arguments parse_argument parse_option str_eq
arguments_help = refl

-- An option that misses its value is left out, and an argument that is none is the path.
arguments_path :
    parse_arguments no_value default_options (codes "my.conf" ∷ codes "-p" ∷ [])
    ≡ some (record default_options { config_path = codes "my.conf" })
unfolding parse_arguments parse_argument parse_option str_eq
arguments_path = refl

abbrev infos : List FileInfo
infos =
    record { name = codes "a.txt"; size = 5; is_directory = false; modified_time = 1700000000 }
    ∷ record { name = codes "docs"; size = 4096; is_directory = true; modified_time = 0 }
    ∷ []

abbrev padding : Bytes
padding = 7 ∷ 7 ∷ 7 ∷ 7 ∷ []

receive_listing_example :
    let n = 2 * file_info_size in
    let bytes = encode_infos padding infos in
    (receive_response client_buffer (arrived (response_header resp_ok n) ∷ arrived bytes ∷ [])
      ≡ (received n bytes, []))
    × (decode_infos (num_entries n) bytes ≡ infos)
receive_listing_example =
    receive_listing infos padding []
      (
        record {
          name_fits = omega arith;
          name_no_nul = lacks-NoByte 0 (codes "a.txt") refl;
          size_fits = omega arith;
          time_fits = omega arith;
        },
        (
          record {
            name_fits = omega arith;
            name_no_nul = lacks-NoByte 0 (codes "docs") refl;
            size_fits = omega arith;
            time_fits = omega arith;
          },
          tt,
        ),
      )
      refl (omega arith) (omega arith)

abbrev two_answers : List ReadEvent
two_answers = arrived (response_header resp_ok 2) ∷ arrived (codes "ok") ∷ []

receive_response-FitsBuffer_example : FitsBuffer 4096 (receive_response 4096 two_answers).0
receive_response-FitsBuffer_example = receive_response-FitsBuffer 4096 two_answers

listing_too_large_example :
    receive_response client_buffer (arrived (response_header resp_ok (20 * file_info_size)) ∷ [])
    ≡ (failed, [])
listing_too_large_example = listing_too_large 20 [] (omega arith) (omega arith)

abbrev session : Session Disk
session = record {
  conn = record { inbox = two_answers; outbox = []; sent = [] };
  fs = empty_disk;
  username = [];
  password = [];
  stdin = [];
  stack = [];
  stdout = [];
}

client_command_any_fuel_example :
    client_command 8 cmd_delete (codes "a.txt") show_message session
    ≡ client_command 100 cmd_delete (codes "a.txt") show_message session
unfolding response_header
client_command_any_fuel_example =
    client_command_any_fuel cmd_delete (codes "a.txt") show_message 8 100 session (omega arith)
      (omega arith)

-- No configuration file is there, and no call fails.
abbrev good_calls : SocketCalls
good_calls = record calls { listen = true }

abbrev first_state : ConfigState
first_state = record {
  config = config 0;
  config_file_path = [];
  config_loaded = false;
  current_log_level = 1;
}

start_default_port_example :
    (start disk_os default_options none first_state good_calls [] starting).2.listener.bound_port
    ≡ some 8080
start_default_port_example =
    start_default_port disk_os default_options none first_state good_calls [] starting refl refl
      started
  where
    started : (start disk_os default_options none first_state good_calls [] starting).0 ≡ success
    started =
        unfold start in
        unfold apply_options in
        unfold load_config in
        unfold set_config_path in
        unfold init_default_config in
        unfold init_server in unfold open_listener in unfold finish_init in refl

-- A connection, a signal that does not end the program, the end of the connection, and SIGTERM.
abbrev happenings : List Happening
happenings =
    server_event (incoming (accepted 7 true))
    ∷ signal 1
    ∷ server_event (gone 0)
    ∷ signal 15
    ∷ server_event (incoming (accepted 8 true))
    ∷ []

client_options :
    parse_options ClientAwaited.no_value default_globals
      (codes "-u" ∷ codes "carol" ∷ codes "-P" ∷ codes "x" ∷ codes "list" ∷ codes "-u" ∷ [])
    ≡ (
      record default_globals { password = codes "x"; username = codes "carol" },
      codes "list" ∷ codes "-u" ∷ [],
    )
unfolding parse_options which_option str_eq
client_options = refl
