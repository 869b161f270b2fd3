-- ===== src/Server/Init.antt =====
-- `init_server` of src/server.c: the calls that set up the listening socket, and what is closed
-- when one of them fails.
use cileserver.Auth.File.{AuthState, init_auth}
use cileserver.Base.{
  ℕ, ◌%◌, ◌^◌, ◌≡◌, refl, inl, inr, Bool, true, false, List, [], ◌∷◌, Option, none, some, Rc,
  success, failure, ◌==◌, if◌then◌else◌, Bool-cases, replicate,
}
use cileserver.Config.{Config}
use cileserver.Os.{Os}
use cileserver.Server.Slots.{Server, max_clients, free_slot, reset_clients}

-- What the calls on the socket give, in their order: a descriptor or -1, and then whether each of
-- `setsockopt`, `bind`, `listen`, and `fcntl` with F_GETFL and with F_SETFL succeeds.
pub record SocketCalls : Type 0 where
  pub socket : Option ℕ
  pub setsockopt : Bool
  pub bind : Bool
  pub listen : Bool
  pub get_flags : Bool
  pub set_flags : Bool

-- The listening socket: `server_fd`, where none is -1, the port and the length of the queue, and
-- the descriptors that have been closed.
pub record Listener : Type 0 where
  pub server_fd : Option ℕ
  pub bound_port : Option ℕ
  pub backlog : Option ℕ
  pub non_blocking : Bool
  pub closed : List ℕ

-- `close(server_fd); return -1;`; the variable keeps the descriptor.
unfoldable pub give_up : ℕ → Listener → Rc × Listener
give_up fd l = (failure, record l { closed = fd ∷ l.closed })

-- From the socket to the mode of its descriptor. `htons` cuts the port to 16 bits.
unfoldable pub open_listener : SocketCalls → ℕ → ℕ → Rc × Listener
open_listener calls port backlog = elim calls.socket [
  | none ↦ (
    failure,
    record {
      server_fd = none;
      bound_port = none;
      backlog = none;
      non_blocking = false;
      closed = [];
    },
  )
  | some fd ↦
      let l : Listener = record {
        server_fd = some fd;
        bound_port = none;
        backlog = none;
        non_blocking = false;
        closed = [];
      } in
      let bound = record l { bound_port = some (port % 2 ^ 16) } in
      let listening = record bound { backlog = some backlog } in
      if calls.setsockopt
      then if calls.bind
        then if calls.listen
          then if calls.get_flags
            then if calls.set_flags
              then (success, record listening { non_blocking = true })
              else give_up fd listening
            else give_up fd listening
          else give_up fd bound
        else give_up fd l
      else give_up fd l
]

-- What `init_server` works on.
pub record Starting (Fs : Type 0) : Type 0 where
  pub fs : Fs
  pub auth : AuthState
  pub listener : Listener
  pub table : Server

module _ {Fs : Type 0} (os : Os Fs) (cfg : Config) where
  -- The login, if the configuration wants one, and the tracking of clients. `init_auth` returns 0
  -- on every branch. `draws` is what `rand` gives it.
  unfoldable pub finish_init : List ℕ → Starting Fs → Starting Fs
  finish_init draws s =
      let (fs, auth) = init_auth os s.fs cfg.auth_file draws s.auth in
      if cfg.enable_auth == 0
      then record s { table = reset_clients s.table }
      else record s { fs = fs; auth = auth; table = reset_clients s.table }

  unfoldable pub init_server : SocketCalls → ℕ → ℕ → List ℕ → Starting Fs → Rc × Starting Fs
  init_server calls port backlog draws s =
      let (rc, listener) = open_listener calls port backlog in
      let s' = record s { listener = listener } in
      elim rc [ failure ↦ (failure, s') | success ↦ (success, finish_init draws s') ]

-- The descriptors that the calls have opened.
abbrev pub opened : SocketCalls → List ℕ
opened calls = elim calls.socket [ none ↦ [] | some fd ↦ fd ∷ [] ]

-- What a start is for: a socket that is bound to the port, accepts connections and does not block.
pub record IsListening (calls : SocketCalls) (port backlog : ℕ) (l : Listener) : Type 0 where
  pub is_socket : l.server_fd ≡ calls.socket
  pub on_port : l.bound_port ≡ some (port % 2 ^ 16)
  pub queue : l.backlog ≡ some backlog
  pub non_blocking : l.non_blocking ≡ true
  pub still_open : l.closed ≡ []

abbrev ListenerOutcome : SocketCalls → ℕ → ℕ → Rc × Listener → Type 0
ListenerOutcome calls port backlog (success, l) = IsListening calls port backlog l
ListenerOutcome calls port backlog (failure, l) = l.closed ≡ opened calls

abbrev calls_of : Option ℕ → Bool → Bool → Bool → Bool → Bool → SocketCalls
calls_of fd o b l g f = record {
  socket = fd;
  setsockopt = o;
  bind = b;
  listen = l;
  get_flags = g;
  set_flags = f;
}

open_listener-ListenerOutcome :
    (fd : Option ℕ) (o b l g f : Bool) (port backlog : ℕ)
    → ListenerOutcome
        (calls_of fd o b l g f)
        port
        backlog
        (open_listener (calls_of fd o b l g f) port backlog)
unfolding open_listener give_up
open_listener-ListenerOutcome none o b l g f port backlog = refl
open_listener-ListenerOutcome (some fd) false b l g f port backlog = refl
open_listener-ListenerOutcome (some fd) true false l g f port backlog = refl
open_listener-ListenerOutcome (some fd) true true false g f port backlog = refl
open_listener-ListenerOutcome (some fd) true true true false f port backlog = refl
open_listener-ListenerOutcome (some fd) true true true true false port backlog = refl
open_listener-ListenerOutcome (some fd) true true true true true port backlog = record {
  is_socket = refl;
  on_port = refl;
  queue = refl;
  non_blocking = refl;
  still_open = refl;
}

-- How a start ends: the listener is ready, all slots of clients are free, and users are known if
-- a login is wanted; or everything that was opened has been closed, and nothing else is changed.
abbrev pub InitOutcome :
    {Fs : Type 0}
    → Os Fs
    → Config
    → SocketCalls
    → ℕ
    → ℕ
    → List ℕ
    → Starting Fs
    → Rc × Starting Fs
    → Type 0
InitOutcome os cfg calls port backlog draws s (success, v) =
    IsListening calls port backlog v.listener
    × (v.table.slots ≡ replicate max_clients free_slot)
    × (v.table.num_clients ≡ s.table.num_clients)
    × (v.table.closed ≡ s.table.closed)
    × ((v.fs, v.auth) ≡ (
        if cfg.enable_auth == 0
        then (s.fs, s.auth)
        else init_auth os s.fs cfg.auth_file draws s.auth))
InitOutcome os cfg calls port backlog draws s (failure, v) =
    (v.listener.closed ≡ opened calls) × (v.fs ≡ s.fs) × (v.auth ≡ s.auth) × (v.table ≡ s.table)

-- Whichever of the calls on the socket fails, `init_server` reports it, has closed the descriptor
-- if there was one, once, and leaves the disk, the users and the table of clients as they were. If
-- none fails it reports success: the socket is open, does not block, and listens on the low 16
-- bits of the port with the length of queue asked for, all 100 slots of clients are free, the count
-- of clients is what it was, and the users are those of `init_auth` on the configured file if the
-- configuration wants a login, and what they were if not.
pub init_server-InitOutcome :
    {Fs : Type 0} (os : Os Fs) (cfg : Config) (calls : SocketCalls) (port backlog : ℕ)
    (draws : List ℕ) (s : Starting Fs)
    → InitOutcome os cfg calls port backlog draws s (init_server os cfg calls port backlog draws s)
unfolding init_server finish_init
init_server-InitOutcome {Fs} os cfg calls port backlog draws s =
    of_listener (open_listener calls port backlog) (
      open_listener-ListenerOutcome calls.socket calls.setsockopt calls.bind calls.listen
        calls.get_flags calls.set_flags port backlog)
  where
    of_listener :
        (r : Rc × Listener)
        → ListenerOutcome calls port backlog r
        → InitOutcome os cfg calls port backlog draws s (
            let s' = record s { listener = r.1 } in
            elim r.0 as (λ x. Rc × Starting Fs) [
              | failure ↦ (failure, s')
              | success ↦ (success, finish_init os cfg draws s')
            ])
    of_listener (failure, l) h = (h, refl, refl, refl)
    of_listener (success, l) h = elim (Bool-cases (cfg.enable_auth == 0)) [
      | inl off ↦ rw (off, finish_init) (h, refl, refl, refl, refl)
      | inr on ↦ rw (on, finish_init) (h, refl, refl, refl, refl)
    ]
