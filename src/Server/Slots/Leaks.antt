-- ===== src/Server/Slots/Leaks.antt =====
-- The table of clients of src/server.c over sequences of events.
use cileserver.Base.{
  ℕ, ◌+◌, ◌-◌, ◌≤◌, ◌<◌, ◌≡◌, refl, ◌∙◌, inl, inr, Bool, List, [], ◌∷◌, Option, none, some, arith,
  length, ltb, Bool-cases, ltb→lt,
}
use cileserver.Server.Slots.Table.{
  taken, taken-length, open_count, closed_count, SearchCase, is_full, is_started, is_not_started,
  ClearCase, was_free, was_taken, take_slot-SearchCase, clear_slot-ClearCase, IsServer, arrivals,
  known, Keeps,
}
use cileserver.Server.Slots.{
  Slot, Server, accepted, would_block, accept_failed, Search, no_slot, started, not_started, Event,
  incoming, gone, max_clients, no_clients, server_process, client_cleanup, handle_event, run,
}

-- The server with the outcome of a search, as `server_process` puts it.
searched : Server → ℕ → Search → Server
searched s fd r = elim r [
  | no_slot ↦ s
  | started ss ↦ record s { slots = ss; num_clients = s.num_clients + 1 }
  | not_started ss ↦ record s { slots = ss; closed = fd ∷ s.closed }
]

searched-Keeps :
    (s : Server) (fd : ℕ) (created : Bool) (r : Search)
    → IsServer s
    → s.num_clients < max_clients
    → SearchCase fd s.slots r
    → Keeps s (incoming (accepted fd created)) (searched s fd r)
unfolding searched
searched-Keeps s fd created _ i lt (is_full h) = absurd (omega (arith, i.size, i.count))
searched-Keeps s fd created _ i lt (is_started l h c) = record {
  invariant = record { size = l ∙ i.size; count = omega (arith, i.count) };
  no_leak = λ d. omega (arith, c d);
}
searched-Keeps s fd created _ i lt (is_not_started l h c) = record {
  invariant = record { size = l ∙ i.size; count = omega (arith, i.count) };
  no_leak = λ d. omega (arith, c d);
}

accepted-Keeps :
    (s : Server) (fd : ℕ) (created : Bool)
    → IsServer s
    → Keeps s (incoming (accepted fd created)) (server_process s (accepted fd created)).1
unfolding server_process searched
accepted-Keeps s fd created i = elim (Bool-cases (ltb s.num_clients max_clients)) [
  | inl room ↦
      rw (room, server_process)
        (searched-Keeps s fd created _ i (ltb→lt s.num_clients max_clients room)
          (take_slot-SearchCase fd created s.slots))
  | inr full ↦
      rw (full, server_process)
        (record {
          invariant = record { size = i.size; count = i.count };
          no_leak = λ d. omega arith;
        })
]

cleared-Keeps :
    (s : Server) (index : ℕ) (r : Option (ℕ × List Slot))
    → IsServer s
    → ClearCase s.slots r
    → Keeps s (gone index) (elim r [
      | none ↦ s
      | some (fd, ss) ↦ record s {
        slots = ss;
        num_clients = s.num_clients - 1;
        closed = fd ∷ s.closed;
      }
    ])
cleared-Keeps s index _ i was_free = record { invariant = i; no_leak = λ d. omega arith }
cleared-Keeps s index _ i (was_taken l h c) = record {
  invariant = record { size = l ∙ i.size; count = omega (arith, i.count) };
  no_leak = λ d. omega (arith, c d);
}

-- Every event keeps the table's size and its count of clients, and no descriptor is lost.
handle_event-Keeps : (s : Server) (e : Event) → IsServer s → Keeps s e (handle_event s e)
unfolding handle_event server_process client_cleanup
handle_event-Keeps s (incoming (accepted fd created)) i = accepted-Keeps s fd created i
handle_event-Keeps s (incoming would_block) i = record { invariant = i; no_leak = λ d. omega arith }
handle_event-Keeps s (incoming accept_failed) i = record {
  invariant = i;
  no_leak = λ d. omega arith;
}
handle_event-Keeps s (gone index) i = cleared-Keeps s index _ i (clear_slot-ClearCase index s.slots)

arrivals-cons :
    (d : ℕ) (e : Event) (es : List Event)
    → arrivals d (e ∷ es) ≡ arrivals d (e ∷ []) + arrivals d es
arrivals-cons d (incoming (accepted fd created)) es = omega arith
arrivals-cons d (incoming would_block) es = omega arith
arrivals-cons d (incoming accept_failed) es = omega arith
arrivals-cons d (gone index) es = omega arith

run-IsServer_from : (s : Server) (es : List Event) → IsServer s → IsServer (run s es)
unfolding run
run-IsServer_from s [] i = i
run-IsServer_from s (e ∷ es) i =
    run-IsServer_from (handle_event s e) es (handle_event-Keeps s e i).invariant

run-known_from :
    (s : Server) (es : List Event) (d : ℕ)
    → IsServer s
    → known d (run s es) ≡ known d s + arrivals d es
unfolding run
run-known_from s [] d i = omega arith
run-known_from s (e ∷ es) d i =
    let k = handle_event-Keeps s e i in
    omega
      (arith, run-known_from (handle_event s e) es d k.invariant, k.no_leak d, arrivals-cons d e es)

no_clients-IsServer : IsServer no_clients
no_clients-IsServer = record { size = refl; count = refl }

-- Whatever connections arrive and leave, in whatever order, the table of clients keeps its 100
-- slots and `num_clients` is the number of those that are taken, at most 100.
pub run-IsServer :
    (es : List Event)
    → (length (run no_clients es).slots ≡ max_clients)
      × ((run no_clients es).num_clients ≡ taken (run no_clients es).slots)
      × ((run no_clients es).num_clients ≤ max_clients)
run-IsServer es =
    let i = run-IsServer_from no_clients es no_clients-IsServer in
    (i.size, i.count, omega (arith, i.size, i.count, taken-length (run no_clients es).slots))

-- Whatever happens, a descriptor is held by slots and has been closed, together, exactly as often
-- as `accept` has given it: no connection is lost, and none is both held and closed.
pub run_no_leak :
    (es : List Event) (d : ℕ)
    → open_count d (run no_clients es).slots + closed_count d (run no_clients es).closed
      ≡ arrivals d es
run_no_leak es d =
    let none_yet : known d no_clients ≡ 0 = refl in
    omega (arith, run-known_from no_clients es d no_clients-IsServer, none_yet)
