-- ===== src/Client/Pending.antt =====
-- How many bytes an answer takes from the stream in `receive_response` of src/client.c.
use cileserver.Base.CString.{Bytes}
use cileserver.Base.{
  ℕ, ◌+◌, ◌≤◌, ◌≡◌, refl, inl, inr, List, [], ◌∷◌, Option, none, some, arith, ltb, leb, ◌==◌, ◌&&◌,
  if◌then◌else◌, Bool-cases, Option-cases, length, drop, length-append, length-take, length-drop,
  get_or,
}
use cileserver.Client.{
  Response, auth_required, read_exact, receive_data, receive_error, receive_response,
}
use cileserver.Net.Reads.{flow}
use cileserver.Net.{
  ReadEvent, ReadResult, got, again, error, arrived, read_retry, read_broken, read,
}
use cileserver.Wire.{response_header_size, resp_ok, resp_auth_required, u32_at}

-- The bytes still to come.
abbrev pub pending : List ReadEvent → ℕ
pending es = length (flow es)

-- What a `read` leaves has the bytes that it did not give.
abbrev ReadLeaves : List ReadEvent → ReadResult → Type 0
ReadLeaves es (got bytes later) = pending es ≡ length bytes + pending later
ReadLeaves es (again later) = pending es ≡ pending later
ReadLeaves es (error later) = pending es ≡ pending later

read-ReadLeaves : (n : ℕ) (es : List ReadEvent) → ReadLeaves es (read n es)
unfolding read
read-ReadLeaves n [] = refl
read-ReadLeaves n (read_retry ∷ es) = refl
read-ReadLeaves n (read_broken ∷ es) = refl
read-ReadLeaves n (arrived bs ∷ es) = elim (Bool-cases (leb (length bs) n)) [
  | inl whole ↦ rw whole (length-append bs (flow es))
  | inr over ↦ rw over (
      omega (
        arith,
        length-append bs (flow es),
        length-append (drop n bs) (flow es),
        length-take n bs,
        length-drop n bs,
      ))
]

-- The bytes that reading them all at once takes from the stream.
abbrev taken : ℕ → Option Bytes → ℕ
taken n none = 0
taken n (some bytes) = n

read_exact-pending :
    (n : ℕ) (es : List ReadEvent)
    → taken n (read_exact n es).0 + pending (read_exact n es).1 ≤ pending es
unfolding read_exact
read_exact-pending n es = of_result (read n es) (read-ReadLeaves n es)
  where
    of_result :
        (r : ReadResult)
        → ReadLeaves es r
        → (let (bytes, later) = elim r as (λ x. Option Bytes × List ReadEvent) [
          | again es' ↦ (none, es')
          | error es' ↦ (none, es')
          | got bs es' ↦ ((if length bs == n then some bs else none), es')
        ] in
            taken n bytes + pending later ≤ pending es)
    of_result (again es') h = omega (arith, h)
    of_result (error es') h = omega (arith, h)
    of_result (got bs es') h = elim (Bool-cases (length bs == n)) [
      | inl exact ↦ rw exact (ground (arith, h))
      | inr other ↦ rw other (omega (arith, h))
    ]

-- The bytes that an answer takes at least.
abbrev pub answer_size : Response → ℕ
answer_size auth_required = 5
answer_size _ = 0

-- What an answer leaves.
abbrev pub Takes : List ReadEvent → Response × List ReadEvent → Type 0
Takes es (response, later) = answer_size response + pending later ≤ pending es

receive_data-Takes : (size n : ℕ) (es : List ReadEvent) → Takes es (receive_data size n es)
unfolding receive_data
receive_data-Takes size n es = elim (Bool-cases (ltb 0 n)) [
  | inr nothing ↦ rw (nothing, receive_data) (omega arith)
  | inl some_data ↦
      rw (some_data, receive_data)
        (elim (Bool-cases (ltb size n)) [
          | inl large ↦ rw large (omega arith)
          | inr fits ↦
              let left : pending (read_exact n es).1 ≤ pending es =
                omega (arith, read_exact-pending n es) in
              rw fits (elim (Option-cases (read_exact n es).0) [
                | inl short ↦ rw short (omega (arith, left))
                | inr (bytes, whole) ↦ rw whole (omega (arith, left))
              ])
        ])
]

receive_error-Takes : (size n : ℕ) (es : List ReadEvent) → Takes es (receive_error size n es)
unfolding receive_error
receive_error-Takes size n es = elim (Bool-cases (ltb 0 n && ltb n size)) [
  | inl fits ↦ rw (fits, receive_error) (omega (arith, read_exact-pending n es))
  | inr over ↦ rw (over, receive_error) (omega arith)
]

pub receive_response-Takes : (size : ℕ) (es : List ReadEvent) → Takes es (receive_response size es)
unfolding receive_response
receive_response-Takes size es =
    let header_taken = read_exact-pending response_header_size es in
    elim (Option-cases (read_exact response_header_size es).0) [
      | inl no_header ↦ rw (no_header, receive_response) (omega (arith, header_taken))
      | inr (h, header) ↦
          let es' = (read_exact response_header_size es).1 in
          let left : 5 + pending es' ≤ pending es = rw header at header_taken in
          rw (header, receive_response)
            (elim (Bool-cases (get_or h 0 0 == resp_ok)) [
              | inl ok ↦ rw ok (omega (arith, left, receive_data-Takes size (u32_at h 1) es'))
              | inr not_ok ↦ rw not_ok (elim (Bool-cases (get_or h 0 0 == resp_auth_required)) [
                | inl login ↦ rw login left
                | inr other ↦
                    rw other (omega (arith, left, receive_error-Takes size (u32_at h 1) es'))
              ])
            ])
    ]
