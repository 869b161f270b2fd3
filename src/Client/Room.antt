-- ===== src/Client/Room.antt =====
-- The calls of `write` in src/client.c over a kernel that has room for a piece of 4096 bytes each
-- time.
use cileserver.Base.CString.{Bytes}
use cileserver.Base.{
  ℕ, zero, suc, ◌-◌, ◌≤◌, ◌<◌, ◌≡◌, refl, ap, ap₂, ◌∙◌, List, [], ◌∷◌, ◌++◌, Option, none, some,
  success, arith, length, take, drop, min, append_assoc, append-nil, length-drop, length-take,
  length-zero, Rc, take-append-drop-length, take_all, true, inl, inr, Bool-cases, ltb, subst,
  lt→ltb, leb,
}
use cileserver.Client.Session.{client_buffer}
use cileserver.Client.Transfer.{write_strict, upload}
use cileserver.Client.{send_request, send_data}
use cileserver.Net.{Conn, WriteEvent, room, write_retry, write_broken, write_once, on_conn}
use cileserver.Protocol.Responses.{Rc-cases}
use cileserver.Server.Framing.{length-message_header}
use cileserver.Wire.{message_header}

abbrev pub IsRoomy : List WriteEvent → Type 0
IsRoomy [] = Unit {0}
IsRoomy (room n ∷ es) = (4096 ≤ n) × IsRoomy es
IsRoomy (_ ∷ es) = ⊥

-- The second connection is the first one after those bytes have been sent.
pub record Sent (c : Conn) (bytes : Bytes) (c' : Conn) : Type 0 where
  pub sent : c'.sent ≡ c.sent ++ bytes
  pub roomy : IsRoomy c'.outbox

pub Sent-trans :
    {c c' c'' : Conn} {xs ys : Bytes} → Sent c xs c' → Sent c' ys c'' → Sent c (xs ++ ys) c''
Sent-trans {c} {c'} {c''} {xs} {ys} s t = record {
  sent = t.sent ∙ ap (λ x. x ++ ys) s.sent ∙ append_assoc c.sent xs ys;
  roomy = t.roomy;
}

-- Those bytes have gone out.
pub record Goes (bs : Bytes) (r : Rc × List WriteEvent × Bytes) : Type 0 where
  pub done : r.0 ≡ success
  pub whole : r.2 ≡ bs
  pub left : IsRoomy r.1

pub on_conn-Sent :
    (c : Conn) (bs : Bytes) (r : Rc × List WriteEvent × Bytes)
    → Goes bs r
    → Sent c bs (on_conn c r).1
on_conn-Sent c bs r g = record { sent = ap (◌++◌ c.sent) g.whole; roomy = g.left }

pub write_once-Goes :
    (bs : Bytes) (es : List WriteEvent) → length bs ≤ 4096 → IsRoomy es → Goes bs (write_once bs es)
unfolding write_once
write_once-Goes bs [] h r = record { done = refl; whole = refl; left = tt }
write_once-Goes bs (write_retry ∷ es) h r = absurd r
write_once-Goes bs (write_broken ∷ es) h r = absurd r
write_once-Goes bs (room n ∷ es) h r =
    let fits : leb (length bs) n ≡ true = ground (arith, r.0) in
    record { done = rw fits refl; whole = take_all n bs (omega (arith, r.0)); left = r.1 }

write_strict-Goes :
    (bs : Bytes) (es : List WriteEvent)
    → length bs ≤ 4096
    → IsRoomy es
    → Goes bs (write_strict bs es)
unfolding write_strict
write_strict-Goes [] es h r = record { done = refl; whole = refl; left = r }
write_strict-Goes (b ∷ bs) [] h r = record { done = refl; whole = refl; left = tt }
write_strict-Goes (b ∷ bs) (write_retry ∷ es) h r = absurd r
write_strict-Goes (b ∷ bs) (write_broken ∷ es) h r = absurd r
write_strict-Goes (b ∷ bs) (room n ∷ es) h r =
    let all : drop n (b ∷ bs) ≡ [] =
      length-zero (drop n (b ∷ bs)) (omega (arith, length-drop n (b ∷ bs), r.0)) in
    record {
      done = rw (all, write_strict) refl;
      whole = rw (all, write_strict) (append-nil _ ∙ take_all n (b ∷ bs) (omega (arith, r.0)));
      left = rw (all, write_strict) r.1;
    }

-- One round of the upload.
module _ (f n : ℕ) (content : Bytes) (es : List WriteEvent) (b : ℕ) (bs rest : Bytes) where
  upload-round :
      take (min (suc n) client_buffer) content ≡ b ∷ bs
      → Goes (b ∷ bs) (write_strict (b ∷ bs) es)
      → Goes rest (
          upload f
            (suc n - length (b ∷ bs))
            (drop (length (b ∷ bs)) content)
            (write_strict (b ∷ bs) es).1)
      → Goes ((b ∷ bs) ++ rest) (upload (suc f) (suc n) content es)
  unfolding upload
  upload-round e g later =
      rw (e, upload)
        (rw g.done (record {
          done = later.done;
          whole = ap₂ (λ x y. x ++ y) g.whole later.whole;
          left = later.left;
        }))

pub upload-Goes :
    (f n : ℕ) (content : Bytes) (es : List WriteEvent)
    → n ≡ length content
    → n < f
    → IsRoomy es
    → Goes content (upload f n content es)
unfolding upload
upload-Goes zero n content es e m r = absurd (omega arith)
upload-Goes (suc f) zero [] es e m r = record { done = refl; whole = refl; left = r }
upload-Goes (suc f) zero (c ∷ cs) es e m r = absurd (omega arith)
upload-Goes (suc f) (suc n) [] es e m r = absurd (omega arith)
upload-Goes (suc f) (suc n) (c ∷ cs) es e m r =
    let size : min (suc n) client_buffer ≡ suc (min n 4095) = omega arith in
    let chunk = c ∷ take (min n 4095) cs in
    let g = write_strict-Goes chunk es (omega (arith, length-take (min n 4095) cs)) r in
    let rest = drop (length chunk) (c ∷ cs) in
    let later =
      upload-Goes f (suc n - length chunk) rest (write_strict chunk es).1
        (omega (arith, length-drop (length chunk) (c ∷ cs))) (omega arith) g.left in
    subst (λ x. Goes x (upload (suc f) (suc n) (c ∷ cs) es))
      (take-append-drop-length (suc (min n 4095)) (c ∷ cs))
      (upload-round f n (c ∷ cs) es c (take (min n 4095) cs) rest (rw size refl) g later)

-- The calls of `write` of one request.
module _ (c : Conn) (command : ℕ) (path : Bytes) (short : length path ≤ 4096)
    (roomy : IsRoomy c.outbox) where
  -- The connection after the header and the path.
  send_header-Sent :
      (n : ℕ) (body : Option Bytes)
      → (c2 : Conn) × (send_request c command path body n ≡ send_data c2 body n)
        × Sent c (message_header command (length path) n ++ path) c2
  unfolding send_request
  send_header-Sent n body =
      let header = message_header command (length path) n in
      let g1 =
        write_once-Goes header c.outbox
          (omega (arith, length-message_header command (length path) n)) roomy in
      let c1 = (on_conn c (write_once header c.outbox)).1 in
      let g2 = write_once-Goes path c1.outbox short g1.left in
      (
        (on_conn c1 (write_once path c1.outbox)).1,
        rw (g1.done, send_request) (rw g2.done refl),
        Sent-trans (on_conn-Sent c header _ g1) (on_conn-Sent c1 path _ g2),
      )

  -- A request whose data is sent by the caller, if it has any.
  pub send_request-Sent :
      (n : ℕ)
      → ((send_request c command path none n).0 ≡ success)
        × Sent c
            (message_header command (length path) n ++ path)
            (send_request c command path none n).1
  unfolding send_data
  send_request-Sent n = let (c2, e, s) = send_header-Sent n none in rw e (refl, s)

  pub send_request-Sent_data :
      (body : Bytes)
      → 0 < length body
      → length body ≤ 4096
      → ((send_request c command path (some body) (length body)).0 ≡ success)
        × Sent c
            (message_header command (length path) (length body) ++ (path ++ body))
            (send_request c command path (some body) (length body)).1
  unfolding send_data
  send_request-Sent_data body filled fits =
      let (c2, e, s) = send_header-Sent (length body) (some body) in
      let g = write_once-Goes body c2.outbox fits s.roomy in
      let all : take (length body) body ≡ body = take_all (length body) body (omega arith) in
      let data_sent = Sent-trans s (on_conn-Sent c2 body _ g) in
      rw e (
        rw (lt→ltb 0 (length body) filled) (
          rw all (
            g.done,
            subst (λ x. Sent c x (on_conn c2 (write_once body c2.outbox)).1)
                (append_assoc (message_header command (length path) (length body)) path body)
                data_sent,
          )))

-- It reads nothing.
send_data-inbox : (c : Conn) (body : Option Bytes) (n : ℕ) → (send_data c body n).1.inbox ≡ c.inbox
unfolding send_data
send_data-inbox c none n = refl
send_data-inbox c (some bytes) n = elim (Bool-cases (ltb 0 n)) [
  | inl some_data ↦ rw (some_data, send_data) refl
  | inr nothing ↦ rw (nothing, send_data) refl
]

pub send_request-inbox :
    (c : Conn) (command : ℕ) (path : Bytes) (body : Option Bytes) (n : ℕ)
    → (send_request c command path body n).1.inbox ≡ c.inbox
unfolding send_request
send_request-inbox c command path body n =
    let header = message_header command (length path) n in
    let c1 = (on_conn c (write_once header c.outbox)).1 in
    let c2 = (on_conn c1 (write_once path c1.outbox)).1 in
    elim (Rc-cases (write_once header c.outbox).0) [
      | inr bad ↦ rw (bad, send_request) refl
      | inl good ↦
          rw (good, send_request)
            (elim (Rc-cases (write_once path c1.outbox).0) [
              | inr bad ↦ rw bad refl
              | inl good' ↦ rw good' (send_data-inbox c2 body n)
            ])
    ]
