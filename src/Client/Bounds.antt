-- ===== src/Client/Bounds.antt =====
-- The sizes that `receive_response` of src/client.c lets through to its callers.
use cileserver.Base.CString.{Bytes}
use cileserver.Base.{
  ℕ, ◌*◌, ◌^◌, ◌≤◌, ◌<◌, ◌≡◌, refl, sym, ap, ◌∙◌, inl, inr, List, ◌∷◌, Option, none, some, arith,
  ltb, ◌==◌, Bool-cases, Option-cases, length, get_or, lt→ltb, ltb_false→le, if◌then◌else◌, ◌&&◌,
}
use cileserver.Client.{
  Response, received, auth_required, failed, read_exact, receive_data, receive_error,
  receive_response,
}
use cileserver.Client.Requests.{read_exact_whole, header_size}
use cileserver.Client.Session.{client_buffer}
use cileserver.Net.{ReadEvent, ReadResult, got, again, error, arrived, read}
use cileserver.Protocol.State.{file_info_size}
use cileserver.Wire.{response_header, response_header_size, resp_ok, resp_auth_required, u32_at}

-- What a caller with a buffer of that size may rely on.
abbrev pub FitsBuffer : ℕ → Response → Type 0
FitsBuffer size (received n bytes) = (n ≤ size) × (length bytes ≡ n)
FitsBuffer size auth_required = Unit {0}
FitsBuffer size failed = Unit {0}

-- What is read, if it is, has the length asked for.
read_exact-length :
    (n : ℕ) (es : List ReadEvent) (bytes : Bytes)
    → (read_exact n es).0 ≡ some bytes
    → length bytes ≡ n
unfolding read_exact
read_exact-length n es bytes = of_result (read n es)
  where
    of_result :
        (r : ReadResult)
        → (elim r as (λ x. Option Bytes × List ReadEvent) [
          | again es' ↦ (none, es')
          | error es' ↦ (none, es')
          | got bs es' ↦ ((if length bs == n then some bs else none), es')
        ]).0
          ≡ some bytes
        → length bytes ≡ n
    of_result (again es') h = cc
    of_result (error es') h = cc
    of_result (got bs es') h = elim (Bool-cases (length bs == n)) [
      | inl exact ↦
          let same : bs ≡ bytes = let e : some bs ≡ some bytes = rw exact at h in cc in
          ap length (sym same) ∙ ground arith
      | inr other ↦ let e : none ≡ some bytes = rw other at h in cc
    ]

receive_data-FitsBuffer :
    (size n : ℕ) (es : List ReadEvent) → FitsBuffer size (receive_data size n es).0
unfolding receive_data
receive_data-FitsBuffer size n es = elim (Bool-cases (ltb 0 n)) [
  | inr nothing ↦
      rw (nothing, receive_data)
        (omega (arith, ltb_false→le 0 n nothing), omega (arith, ltb_false→le 0 n nothing))
  | inl some_data ↦
      rw (some_data, receive_data)
        (elim (Bool-cases (ltb size n)) [
          | inl large ↦ rw large tt
          | inr fits ↦ rw fits (elim (Option-cases (read_exact n es).0) [
            | inl short ↦ rw short tt
            | inr (bytes, whole) ↦
                rw whole (ltb_false→le size n fits, read_exact-length n es bytes whole)
          ])
        ])
]

receive_error-FitsBuffer :
    (size n : ℕ) (es : List ReadEvent) → FitsBuffer size (receive_error size n es).0
unfolding receive_error
receive_error-FitsBuffer size n es = elim (Bool-cases (ltb 0 n && ltb n size)) [
  | inl fits ↦ rw (fits, receive_error) tt
  | inr over ↦ rw (over, receive_error) tt
]

-- Whatever the server sends, in whatever packets, the data that `receive_response` reports fits
-- the buffer of its caller and is as long as it reports.
pub receive_response-FitsBuffer :
    (size : ℕ) (es : List ReadEvent) → FitsBuffer size (receive_response size es).0
unfolding receive_response
receive_response-FitsBuffer size es = elim (Option-cases (read_exact response_header_size es).0) [
  | inl no_header ↦ rw (no_header, receive_response) tt
  | inr (h, header) ↦
      rw (header, receive_response)
        (elim (Bool-cases (get_or h 0 0 == resp_ok)) [
          | inl ok ↦ rw ok (receive_data-FitsBuffer size (u32_at h 1) _)
          | inr not_ok ↦ rw not_ok (elim (Bool-cases (get_or h 0 0 == resp_auth_required)) [
            | inl login ↦ rw login tt
            | inr other ↦ rw other (receive_error-FitsBuffer size (u32_at h 1) _)
          ])
        ])
]

receive_data_too_large :
    (size n : ℕ) (es : List ReadEvent) → size < n → receive_data size n es ≡ (failed, es)
unfolding receive_data
receive_data_too_large size n es large =
    rw (lt→ltb 0 n (omega arith), receive_data) (rw (lt→ltb size n large) refl)

-- An answer with more data than the caller's buffer holds fails, and its data stays on the stream
-- for the next answer to be looked for in it.
pub receive_response_too_large :
    (size n : ℕ) (es : List ReadEvent)
    → size < n
    → n < 2 ^ 32
    → receive_response size (arrived (response_header resp_ok n) ∷ es) ≡ (failed, es)
unfolding receive_response response_header
receive_response_too_large size n es large small =
    let header = response_header resp_ok n in
    let first = read_exact_whole header es (omega arith) in
    let announced : u32_at header 1 ≡ n = header_size resp_ok n ∙ omega arith in
    rw (first, receive_response)
      (rw first
        (ap (λ m. receive_data size m es) announced ∙ receive_data_too_large size n es large))

-- A listing of 15 entries or more fails in the client.
pub listing_too_large :
    (entries : ℕ) (es : List ReadEvent)
    → 15 ≤ entries
    → entries ≤ 100
    → receive_response client_buffer
        (arrived (response_header resp_ok (entries * file_info_size)) ∷ es)
      ≡ (failed, es)
listing_too_large entries es many few =
    receive_response_too_large client_buffer (entries * file_info_size) es (omega arith)
      (omega arith)
