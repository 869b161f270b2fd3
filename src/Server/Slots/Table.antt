-- ===== src/Server/Slots/Table.antt =====
-- The count of clients and the descriptors in the table of src/server.c.
use cileserver.Base.{
  ◌==◌, if◌then◌else◌, ℕ, zero, suc, ◌+◌, ◌≤◌, ◌≡◌, refl, ap, inl, inr, Bool, true, false, List, [],
  ◌∷◌, Option, none, some, arith, length, Option-cases,
}
use cileserver.Server.Slots.{
  Slot, Server, accepted, would_block, accept_failed, Search, no_slot, started, not_started, Event,
  incoming, gone, max_clients, behind, take_slot, clear_slot,
}

abbrev pub one_if_taken : Option ℕ → ℕ
one_if_taken none = 0
one_if_taken (some fd) = 1

abbrev pub taken : List Slot → ℕ
taken [] = 0
taken (s ∷ ss) = one_if_taken s.fd + taken ss

pub taken-length : (ss : List Slot) → taken ss ≤ length ss
taken-length [] = omega arith
taken-length (s ∷ ss) = elim (Option-cases s.fd) [
  | inl e ↦ rw e (omega (arith, taken-length ss))
  | inr (fd, e) ↦ rw e (omega (arith, taken-length ss))
]

-- How often a descriptor occurs.
abbrev pub same : ℕ → ℕ → ℕ
same d fd = if d == fd then 1 else 0

abbrev pub held : ℕ → Option ℕ → ℕ
held d none = 0
held d (some fd) = same d fd

abbrev pub open_count : ℕ → List Slot → ℕ
open_count d [] = 0
open_count d (s ∷ ss) = held d s.fd + open_count d ss

-- What a search finds: a slot, unless all are taken.
pub data SearchCase (fd : ℕ) (ss : List Slot) : Search → Type 0 where
  is_full : taken ss ≡ length ss → SearchCase fd ss no_slot
  is_started :
      {ss' : List Slot}
      → length ss' ≡ length ss
      → taken ss' ≡ taken ss + 1
      → ((d : ℕ) → open_count d ss' ≡ open_count d ss + same d fd)
      → SearchCase fd ss (started ss')
  is_not_started :
      {ss' : List Slot}
      → length ss' ≡ length ss
      → taken ss' ≡ taken ss
      → ((d : ℕ) → open_count d ss' ≡ open_count d ss)
      → SearchCase fd ss (not_started ss')

-- What clearing a slot does: nothing, or it takes the descriptor out.
pub data ClearCase (ss : List Slot) : Option (ℕ × List Slot) → Type 0 where
  was_free : ClearCase ss none
  was_taken :
      {fd : ℕ} {ss' : List Slot}
      → length ss' ≡ length ss
      → taken ss ≡ taken ss' + 1
      → ((d : ℕ) → open_count d ss ≡ open_count d ss' + same d fd)
      → ClearCase ss (some (fd, ss'))

behind-SearchCase :
    (fd : ℕ) (s : Slot) (ss : List Slot) (r : Search)
    → one_if_taken s.fd ≡ 1
    → SearchCase fd ss r
    → SearchCase fd (s ∷ ss) (behind s r)
behind-SearchCase fd s ss _ e (is_full h) = is_full (omega (arith, h))
behind-SearchCase fd s ss _ e (is_started l h c) =
    is_started (ap suc l) (omega (arith, h)) (λ d. omega (arith, c d))
behind-SearchCase fd s ss _ e (is_not_started l h c) =
    is_not_started (ap suc l) (omega (arith, h)) (λ d. omega (arith, c d))

take_slot-cons :
    (fd : ℕ) (created : Bool) (o : Option ℕ) (r : ℕ) (ss : List Slot)
    → SearchCase fd ss (take_slot fd created ss)
    → SearchCase fd
        (record { fd = o; role = r } ∷ ss)
        (take_slot fd created (record { fd = o; role = r } ∷ ss))
unfolding take_slot
take_slot-cons fd created (some other) r ss ih =
    behind-SearchCase fd (record { fd = some other; role = r }) ss _ refl ih
take_slot-cons fd true none r ss ih = is_started refl (omega arith) (λ d. omega arith)
take_slot-cons fd false none r ss ih = is_not_started refl refl (λ d. refl)

pub take_slot-SearchCase :
    (fd : ℕ) (created : Bool) (ss : List Slot) → SearchCase fd ss (take_slot fd created ss)
unfolding take_slot
take_slot-SearchCase fd created [] = is_full refl
take_slot-SearchCase fd created (s ∷ ss) =
    take_slot-cons fd created s.fd s.role ss (take_slot-SearchCase fd created ss)

behind_cleared :
    (s : Slot) (ss : List Slot) (r : Option (ℕ × List Slot))
    → ClearCase ss r
    → ClearCase (s ∷ ss) (elim r [ none ↦ none | some (fd, ss') ↦ some (fd, s ∷ ss') ])
behind_cleared s ss _ was_free = was_free
behind_cleared s ss _ (was_taken l h c) =
    was_taken (ap suc l) (omega (arith, h)) (λ d. omega (arith, c d))

clear_slot-head :
    (o : Option ℕ) (r : ℕ) (ss : List Slot)
    → ClearCase
        (record { fd = o; role = r } ∷ ss)
        (clear_slot zero (record { fd = o; role = r } ∷ ss))
unfolding clear_slot
clear_slot-head none r ss = was_free
clear_slot-head (some fd) r ss = was_taken refl (omega arith) (λ d. omega arith)

pub clear_slot-ClearCase : (index : ℕ) (ss : List Slot) → ClearCase ss (clear_slot index ss)
unfolding clear_slot
clear_slot-ClearCase index [] = was_free
clear_slot-ClearCase zero (s ∷ ss) = clear_slot-head s.fd s.role ss
clear_slot-ClearCase (suc index) (s ∷ ss) = behind_cleared s ss _ (clear_slot-ClearCase index ss)

-- The table has its size, and `num_clients` is the number of slots that are taken.
pub record IsServer (s : Server) : Type 0 where
  pub size : length s.slots ≡ max_clients
  pub count : s.num_clients ≡ taken s.slots

-- The descriptors that have been accepted.
abbrev pub arrivals : ℕ → List Event → ℕ
arrivals d [] = 0
arrivals d (incoming (accepted fd created) ∷ es) = same d fd + arrivals d es
arrivals d (incoming would_block ∷ es) = arrivals d es
arrivals d (incoming accept_failed ∷ es) = arrivals d es
arrivals d (gone index ∷ es) = arrivals d es

abbrev pub closed_count : ℕ → List ℕ → ℕ
closed_count d [] = 0
closed_count d (fd ∷ fds) = same d fd + closed_count d fds

-- How often a descriptor is held, by a slot or by the list of the closed ones.
abbrev pub known : ℕ → Server → ℕ
known d s = open_count d s.slots + closed_count d s.closed

-- A step that keeps the invariant and loses no descriptor, with those that it accepts.
pub record Keeps (s : Server) (e : Event) (s' : Server) : Type 0 where
  pub invariant : IsServer s'
  pub no_leak : (d : ℕ) → known d s' ≡ known d s + arrivals d (e ∷ [])
