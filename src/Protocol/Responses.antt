-- ===== src/Protocol/Responses.antt =====
-- What a client gets from `send_response` of src/protocol.c.
use cileserver.Base.{
  ℕ, ◌≡◌, refl, sym, ap, ap₂, ◌∙◌, inl, inr, ◌++◌, Rc, success, failure, ◌⊎◌, take, append_assoc,
}
use cileserver.Base.CString.{Bytes}
use cileserver.Net.Sends.{
  IsWritable, write_all_complete, write_all-IsWritable, write_all-prefix, write_once_complete,
  write_once-prefix, write_once-IsWritable,
}
use cileserver.Net.{Conn, write_all, write_once, on_conn}
use cileserver.Protocol.State.{send_response}
use cileserver.Wire.{response_header}

-- The bytes of a whole response.
abbrev pub whole_response : ℕ → Bytes → ℕ → Bytes
whole_response status body n = response_header status n ++ take n body

pub Rc-cases : (r : Rc) → (r ≡ success) ⊎ (r ≡ failure)
Rc-cases success = inl refl
Rc-cases failure = inr refl

module _ (c : Conn) (status : ℕ) (body : Bytes) (n : ℕ) where
  -- The header has gone out and the rest follows.
  send_response-success :
      (write_once (response_header status n) c.outbox).0 ≡ success
      → send_response c status body n
        ≡ on_conn
            (on_conn c (write_once (response_header status n) c.outbox)).1
            (write_all (take n body) (write_once (response_header status n) c.outbox).1)
  unfolding send_response
  send_response-success h = rw (h, send_response) refl

  send_response-failure :
      (write_once (response_header status n) c.outbox).0 ≡ failure
      → send_response c status body n
        ≡ (failure, (on_conn c (write_once (response_header status n) c.outbox)).1)
  unfolding send_response
  send_response-failure h = rw (h, send_response) refl

  -- A response that is reported as sent has arrived whole: the header, then the data.
  pub send_response_complete :
      (send_response c status body n).0 ≡ success
      → (send_response c status body n).1.sent ≡ c.sent ++ whole_response status body n
  send_response_complete h = elim (Rc-cases (write_once (response_header status n) c.outbox).0) [
    | inr bad ↦ let e : failure ≡ success = rw (send_response-failure bad) at h in cc
    | inl good ↦
        let loop : (write_all (take n body) (write_once (response_header status n) c.outbox).1).0
            ≡ success =
          rw (send_response-success good) at h in
        rw (send_response-success good) (
          ap₂ (λ x y. (c.sent ++ x) ++ y)
            (write_once_complete (response_header status n) c.outbox good)
            (write_all_complete (take n body) _ loop)
          ∙ append_assoc c.sent (response_header status n) (take n body))
  ]

  -- Whatever happens, what the client gets from `send_response` is a prefix of the response.
  pub send_response-prefix :
      (tail : Bytes) × ((send_response c status body n).1.sent ++ tail
        ≡ c.sent ++ whole_response status body n)
  send_response-prefix =
      let (tail₁, e₁) = write_once-prefix (response_header status n) c.outbox in
      elim (Rc-cases (write_once (response_header status n) c.outbox).0) [
        | inr bad ↦ (
          tail₁ ++ take n body,
          rw (send_response-failure bad) (
              append_assoc c.sent _ (tail₁ ++ take n body)
              ∙ ap (◌++◌ c.sent)
                  (sym (append_assoc _ tail₁ (take n body)) ∙ ap (λ x. x ++ take n body) e₁)),
        )
        | inl good ↦
            let (tail₂, e₂) =
              write_all-prefix (take n body) (write_once (response_header status n) c.outbox).1 in
            (
              tail₂,
              rw (send_response-success good) (
                  append_assoc (c.sent ++ _) _ tail₂
                  ∙ ap (◌++◌ (c.sent ++ (write_once (response_header status n) c.outbox).2)) e₂
                  ∙ ap (λ x. (c.sent ++ x) ++ take n body)
                      (write_once_complete (response_header status n) c.outbox good)
                  ∙ append_assoc c.sent (response_header status n) (take n body)),
            )
      ]

  -- `send_response` succeeds when no write fails and the header goes out at once.
  pub send_response_delivers :
      IsWritable c.outbox
      → (write_once (response_header status n) c.outbox).0 ≡ success
      → (send_response c status body n).0 ≡ success
  send_response_delivers w good =
      rw (send_response-success good)
        (write_all-IsWritable (take n body) _
          (write_once-IsWritable (response_header status n) c.outbox w)).0
