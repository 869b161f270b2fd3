-- ===== src/Lib.antt =====
-- Verification library of cileserver, a file server over TCP in C.
--
-- The program. `server_process` of src/server.c accepts connections and gives each a thread and
-- a slot of the table of clients; the thread calls `handle_client` until the connection ends.
-- That function reads one request (a 7-byte header, a path, and what fits of the data) and passes
-- it to `process_request` of src/protocol.c, which asks for a login where the configuration wants
-- one, and dispatches on the command. The handlers check the role by `check_permission` of
-- src/auth.c, resolve the path by `get_full_path` of src/file_ops.c, and answer by
-- `send_response`. GET and PUT stream the file in pieces of 4096 bytes.
--
-- The files.
--   Base: Boolean tests, lists over native numbers, C strings (Base/CString), `%d` with `atoi`
--     (Base/Decimal), and `fgets` with `strtok_r` (Base/Text).
--   Wire: the codes and headers of include/protocol.h. Config: the record of include/config.h,
--     and in Config/File the functions of src/config.c.
--   Os: the calls on files, as a parameter. Net: `read` and `write` on a socket, with the loops
--     around them; a list of events says what each call does.
--   Auth: src/auth.c. Auth/Hash has the password hash, Auth/Table and Auth/Invariant the table,
--     Auth/Accounts the map from names to accounts that the table stands for, Auth/File
--     `init_auth` and `save_auth_file`.
--   FileOps: src/file_ops.c. FileOps/Resolve has `get_full_path`, FileOps/Operations the rest,
--     under the names of the C functions.
--   Protocol: src/protocol.c. Protocol/State has the state and `send_response`,
--     Protocol/Streaming and Protocol/Handlers the handlers, Protocol/Request `process_request`.
--     The other files below Protocol prove properties of them.
--   Server: src/server.c. Server/Receive has `handle_client` and the loop of `client_handler`,
--     Server/Slots the table of clients, Server/Shutdown the threads of `shutdown_server` and
--     `client_handler` with the lock between them.
--     Server/Init has `init_server`.
--   Client: src/client.c. Client has `send_request` and `receive_response`, Client/Session the
--     login, Client/Commands the commands that print an answer, Client/Transfer `client_get_file`
--     and `client_put_file`, Client/Main the options and `main`. The other files below Client prove
--     properties of them, Client/Requests of the messages of both sides.
--   Logger: src/logger.c. Main: src/main.c, with its options, the start, the
--     loop and the end.
--   EndToEnd: the client and the server on the two ends of a connection.
--   Tests: a small disk, tests, and uses of the theorems.
--
-- How the code is modelled. A function that returns -1 or 0 returns `Rc`, with the state it
-- leaves; one that fills a buffer returns an Option. The state of a connection is a `World`: the
-- disk, the user table, the two directions of the socket, and the role. The disk is unknown, and
-- changes only by the calls of `Os`. A string is the list of its bytes without the NUL, and a
-- copy into an array cuts it to what the array holds. Numbers are natural numbers; fields of 8,
-- 16 and 32 bits wrap around where the code writes them.
--
-- Bounds and fuel. `fill`, `receive_file` and `send_file` recurse on fuel: a round takes an event
-- or at least one byte, so the number of bytes still missing and of events still to come, and
-- one more, is enough. A `fill` that runs out of it is `endless`, which is neither the bytes nor a
-- connection that is given up. `load_users` and `load_lines` take a byte or more from the file in each
-- round. `serve` handles a given number of requests at most. The hash does its 1000 rounds by
-- recursion.
--
-- `client_command` calls itself after a login and takes at least the five bytes of an answer each
-- time; `upload` and `download` lower the number of bytes to go.
--
-- Not modelled: log messages but those of src/logger.c itself and the last of `main`, sleeping
-- between attempts, memory beyond the arrays, the usage texts, and the client's own messages on the
-- terminal. Signals come between two rounds of the loop of `main`.
pub mod Base
pub mod Wire
pub mod Config
pub mod Os
pub mod Auth
pub mod FileOps
pub mod Net
pub mod Protocol
pub mod Server
pub mod Logger
pub mod Client
pub mod EndToEnd
pub mod Main
pub mod Tests
