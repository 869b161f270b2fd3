-- ===== src/Net.antt =====
-- Sockets as the code of src/protocol.c and src/server.c sees them: the peer, the kernel and
-- the network choose, call by call, what `read` and `write` do, and the loops of the source must
-- cope. A schedule lists those choices.
pub mod Reads
pub mod Fuel
pub mod Sends
use cileserver.Base.{
  ℕ, zero, suc, ◌+◌, ◌-◌, Bool, true, false, List, [], ◌∷◌, ◌++◌, Rc, success, failure, leb, ◌==◌,
  if◌then◌else◌, length, take, drop,
}
use cileserver.Base.CString.{Bytes}

-- One thing that happens to a blocked `read`: bytes arrive; EINTR, EAGAIN or EWOULDBLOCK;
-- another error. After the last event the peer has closed.
pub data ReadEvent : Type 0 where
  arrived : Bytes → ReadEvent
  read_retry : ReadEvent
  read_broken : ReadEvent

-- One thing that happens to a `write`: the kernel has room for that many bytes; EINTR, EAGAIN
-- or EWOULDBLOCK; another error. After the last event there is always room.
pub data WriteEvent : Type 0 where
  room : ℕ → WriteEvent
  write_retry : WriteEvent
  write_broken : WriteEvent

pub record Conn : Type 0 where
  pub inbox : List ReadEvent
  pub outbox : List WriteEvent
  pub sent : Bytes

-- What one call of `read` returns, with the events that are left. `got []` is the result 0.
pub data ReadResult : Type 0 where
  got : Bytes → List ReadEvent → ReadResult
  again : List ReadEvent → ReadResult
  error : List ReadEvent → ReadResult

unfoldable pub read : ℕ → List ReadEvent → ReadResult
read n [] = got [] []
read n (read_retry ∷ es) = again es
read n (read_broken ∷ es) = error es
read n (arrived bs ∷ es) =
    if leb (length bs) n then got bs es else got (take n bs) (arrived (drop n bs) ∷ es)

-- The outcome of a loop that reads an exact number of bytes: the bytes, a `return -1`, or, apart
-- from both, no end within the fuel.
pub data Filled : Type 0 where
  filled : Bytes → List ReadEvent → Filled
  cut : List ReadEvent → Filled
  endless : Filled

abbrev pub after_bytes : Bytes → Filled → Filled
after_bytes bs (filled cs es) = filled (bs ++ cs) es
after_bytes bs (cut es) = cut es
after_bytes bs endless = endless

-- `while (bytes_read < wanted) { r = read(...); ... }`, over the number of bytes still missing.
unfoldable pub fill : ℕ → ℕ → List ReadEvent → Filled
fill zero missing es = endless
fill (suc f) zero es = filled [] es
fill (suc f) (suc n) es = elim (read (suc n) es) [
  | again es' ↦ fill f (suc n) es'
  | error es' ↦ cut es'
  | got [] es' ↦ cut es'
  | got (b ∷ bs) es' ↦ after_bytes (b ∷ bs) (fill f (suc n - length (b ∷ bs)) es')
]

-- Each round takes an event or finishes the request, so this is enough.
abbrev pub fill_fuel : ℕ → List ReadEvent → ℕ
fill_fuel missing es = missing + length es + 1

-- `while (written < count) { w = write(...); ... }`, over the bytes still to go. The result
-- holds the schedule that is left and what the peer gets.
unfoldable pub write_all : Bytes → List WriteEvent → Rc × List WriteEvent × Bytes
write_all [] es = (success, es, [])
write_all (b ∷ bs) [] = (success, [], b ∷ bs)
write_all (b ∷ bs) (write_retry ∷ es) = write_all (b ∷ bs) es
write_all (b ∷ bs) (write_broken ∷ es) = (failure, es, [])
write_all (b ∷ bs) (room n ∷ es) =
    let (rc, es', out) = write_all (drop n (b ∷ bs)) es in (rc, es', take n (b ∷ bs) ++ out)

-- `write(fd, bs, n) != n`: a single call, for the headers.
unfoldable pub write_once : Bytes → List WriteEvent → Rc × List WriteEvent × Bytes
write_once bs [] = (success, [], bs)
write_once bs (write_retry ∷ es) = (failure, es, [])
write_once bs (write_broken ∷ es) = (failure, es, [])
write_once bs (room n ∷ es) = ((if leb (length bs) n then success else failure), es, take n bs)

-- A call of one of these on a connection.
abbrev pub on_conn : Conn → (Rc × List WriteEvent × Bytes) → Rc × Conn
on_conn c (rc, es, out) = (rc, record c { outbox = es; sent = c.sent ++ out })
