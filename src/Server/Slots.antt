-- ===== src/Server/Slots.antt =====
-- The table of clients of src/server.c: `client_fds`, `client_roles` and `num_clients`. The
-- accepting loop and the threads of the clients change it under `clients_mutex`, so their
-- critical sections are the steps of a sequence.
pub mod Leaks
pub mod Table
use cileserver.Auth.{role_guest}
use cileserver.Base.{
  ℕ, zero, suc, ◌+◌, ◌-◌, Bool, true, false, List, [], ◌∷◌, ◌++◌, Option, none, some, Rc, success,
  failure, ltb, if◌then◌else◌, replicate,
}

-- `MAX_CLIENTS`
abbrev pub max_clients : ℕ
max_clients = 100

-- `client_fds[i]`, where none is -1, and `client_roles[i]`
pub record Slot : Type 0 where
  pub fd : Option ℕ
  pub role : ℕ

abbrev pub free_slot : Slot
free_slot = record { fd = none; role = role_guest }

-- `closed` lists the descriptors that have been closed, the latest first.
pub record Server : Type 0 where
  pub slots : List Slot
  pub num_clients : ℕ
  pub closed : List ℕ

-- The variables as a process starts with them, all of them zero.
abbrev pub static_clients : Server
static_clients = record {
  slots = replicate max_clients (record { fd = some 0; role = role_guest });
  num_clients = 0;
  closed = [];
}

-- The tracking of clients at the end of `init_server`: the slots are set, and nothing else.
abbrev pub reset_clients : Server → Server
reset_clients s = record s { slots = replicate max_clients free_slot }

-- The table that `init_server` leaves in a new process.
abbrev pub no_clients : Server
no_clients = reset_clients static_clients

-- What `accept` gives: a descriptor, and whether `pthread_create` then makes its thread; EAGAIN
-- or EWOULDBLOCK; another error.
pub data Incoming : Type 0 where
  accepted : ℕ → Bool → Incoming
  would_block : Incoming
  accept_failed : Incoming

-- The outcome of the search for a free slot.
pub data Search : Type 0 where
  no_slot : Search
  started : List Slot → Search
  not_started : List Slot → Search

abbrev pub behind : Slot → Search → Search
behind s no_slot = no_slot
behind s (started ss) = started (s ∷ ss)
behind s (not_started ss) = not_started (s ∷ ss)

-- `for (int i = 0; i < MAX_CLIENTS; i++) { if (client_fds[i] == -1) { ... break; } }`
unfoldable pub take_slot : ℕ → Bool → List Slot → Search
take_slot fd created [] = no_slot
take_slot fd created (s ∷ ss) = elim s.fd [
  | some other ↦ behind s (take_slot fd created ss)
  | none ↦
      if created
      then started (record { fd = some fd; role = role_guest } ∷ ss)
      else not_started (record { fd = none; role = role_guest } ∷ ss)
]

unfoldable pub server_process : Server → Incoming → Rc × Server
server_process s accept_failed = (failure, s)
server_process s would_block = (success, s)
server_process s (accepted fd created) = (
  success,
  (if ltb s.num_clients max_clients
      then (elim (take_slot fd created s.slots) [
        | no_slot ↦ s
        | started ss ↦ record s { slots = ss; num_clients = s.num_clients + 1 }
        | not_started ss ↦ record s { slots = ss; closed = fd ∷ s.closed }
      ])
      else record s { closed = fd ∷ s.closed }),
)

-- The slots without client `index`, and the descriptor that it had.
unfoldable pub clear_slot : ℕ → List Slot → Option (ℕ × List Slot)
clear_slot index [] = none
clear_slot zero (s ∷ ss) = elim s.fd [ none ↦ none | some fd ↦ some (fd, free_slot ∷ ss) ]
clear_slot (suc index) (s ∷ ss) = elim (clear_slot index ss) [
  | none ↦ none
  | some (fd, ss') ↦ some (fd, s ∷ ss')
]

-- What `client_handler` does at the end of its connection.
unfoldable pub client_cleanup : ℕ → Server → Server
client_cleanup index s = elim (clear_slot index s.slots) [
  | none ↦ s
  | some (fd, ss) ↦ record s { slots = ss; num_clients = s.num_clients - 1; closed = fd ∷ s.closed }
]

pub data Event : Type 0 where
  incoming : Incoming → Event
  gone : ℕ → Event

unfoldable pub handle_event : Server → Event → Server
handle_event s (incoming i) = (server_process s i).1
handle_event s (gone index) = client_cleanup index s

-- The server after a sequence of events.
unfoldable pub run : Server → List Event → Server
run s [] = s
run s (e ∷ es) = run (handle_event s e) es
