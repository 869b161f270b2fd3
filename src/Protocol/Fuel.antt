-- ===== src/Protocol/Fuel.antt =====
-- The fuel of the streaming loops of src/protocol.c.
use cileserver.Base.{
  ℕ, zero, suc, ◌+◌, ◌-◌, ◌≤◌, ◌<◌, ◌≡◌, refl, sym, ◌∙◌, ap, inl, inr, List, [], ◌∷◌, arith, ltb,
  length, drop, Bool-cases, ltb_false→le, take, success, failure, ◌++◌, Rc, lt→ltb, le→ltb_false,
  ltb→lt,
}
use cileserver.Base.CString.{Bytes}
use cileserver.Net.Fuel.{ReadStep, retries, fails, closes, advances, read-ReadStep}
use cileserver.Net.{ReadEvent, WriteEvent, ReadResult, write_all}
use cileserver.Os.{Os}
use cileserver.Protocol.Streaming.{PutEnd, receive_chunk, receive_file, buffer_size, send_file}

module _ {Fs : Type 0} (os : Os Fs) (path : Bytes) where
  receive_chunk-same :
      (rest rest' : ℕ → Fs → List ReadEvent → PutEnd Fs) (n k : ℕ) (fs : Fs) (es : List ReadEvent)
      (r : ReadResult)
      → ReadStep k es r
      → k ≤ suc n
      → ((m : ℕ) (a : Fs) (later : List ReadEvent)
          → m + length later < suc n + length es
          → rest m a later ≡ rest' m a later)
      → receive_chunk os path (suc n) fs r rest ≡ receive_chunk os path (suc n) fs r rest'
  unfolding receive_chunk
  receive_chunk-same rest rest' n k fs es _ (retries {later} lt) le ih =
      ih (suc n) fs later (omega arith)
  receive_chunk-same rest rest' n k fs es _ fails le ih = refl
  receive_chunk-same rest rest' n k fs es _ closes le ih = refl
  receive_chunk-same rest rest' n k fs es _ (advances {b} {bs} {later} fits shorter) le ih =
      ih (suc n - length (b ∷ bs)) (os.fwrite fs path (b ∷ bs)).0 later (omega arith)

  -- The receiving loop of a PUT gives the same with every fuel above the bytes missing and the
  -- events to come, on any stream, so it never ends for want of fuel.
  pub receive_file_any_fuel :
      (f g n : ℕ) (fs : Fs) (es : List ReadEvent)
      → n + length es < f
      → n + length es < g
      → receive_file os path f n fs es ≡ receive_file os path g n fs es
  unfolding receive_file
  receive_file_any_fuel zero g n fs es h k = absurd (omega arith)
  receive_file_any_fuel (suc f) zero n fs es h k = absurd (omega arith)
  receive_file_any_fuel (suc f) (suc g) zero fs es h k = refl
  receive_file_any_fuel (suc f) (suc g) (suc n) fs es h k =
      let ih : (m : ℕ) (a : Fs) (later : List ReadEvent)
          → m + length later < suc n + length es
          → receive_file os path f m a later ≡ receive_file os path g m a later =
        λ m a later lt. receive_file_any_fuel f g m a later (omega arith) (omega arith) in
      elim (Bool-cases (ltb (suc n) buffer_size)) [
        | inl small ↦ rw small (
            receive_chunk-same (receive_file os path f) (receive_file os path g) n (suc n) fs es _
              (read-ReadStep n es) (omega arith) ih)
        | inr large ↦ rw large (
            receive_chunk-same (receive_file os path f) (receive_file os path g) n buffer_size fs es
              _ (read-ReadStep 4095 es) (ltb_false→le (suc n) buffer_size large) ih)
      ]

-- What follows a piece of a GET that `write_all` has dealt with; `rest` is the rounds that follow.
round :
    (ℕ → Bytes → List WriteEvent → Rc × List WriteEvent × Bytes)
    → ℕ
    → Bytes
    → Rc × List WriteEvent × Bytes
    → Rc × List WriteEvent × Bytes
round rest sent content r = elim r.0 [
  | failure ↦ (failure, r.1, r.2)
  | success ↦ let (rc, es', later) = rest sent content r.1 in (rc, es', r.2 ++ later)
]

round-same :
    (rest rest' : ℕ → Bytes → List WriteEvent → Rc × List WriteEvent × Bytes) (sent : ℕ)
    (content : Bytes) (r : Rc × List WriteEvent × Bytes)
    → ((es : List WriteEvent) → rest sent content es ≡ rest' sent content es)
    → round rest sent content r ≡ round rest' sent content r
unfolding round
round-same rest rest' sent content (failure, es, out) h = refl
round-same rest rest' sent content (success, es, out) h = ap (λ x. (x.0, x.1, out ++ x.2)) (h es)

send_file-round :
    (f sent size c : ℕ) (cs : Bytes) (es : List WriteEvent)
    → sent < size
    → send_file (suc f) sent size (c ∷ cs) es
      ≡ round
          (λ n content later. send_file f n size content later)
          (sent + length (take buffer_size (c ∷ cs)))
          (drop buffer_size (c ∷ cs))
          (write_all (take buffer_size (c ∷ cs)) es)
unfolding send_file round
send_file-round f sent size c cs es more = rw (lt→ltb sent size more, send_file) refl

-- The sending loop of a GET gives the same with every fuel above the bytes still to be sent, for
-- any content, longer or shorter than announced, so it never ends for want of fuel.
pub send_file_any_fuel :
    (f g sent size : ℕ) (content : Bytes) (es : List WriteEvent)
    → size < sent + f
    → size < sent + g
    → send_file f sent size content es ≡ send_file g sent size content es
unfolding send_file
send_file_any_fuel zero zero sent size content es h k = refl
send_file_any_fuel zero (suc g) sent size content es h k =
    rw (le→ltb_false sent size (omega arith), send_file) refl
send_file_any_fuel (suc f) zero sent size content es h k =
    rw (le→ltb_false sent size (omega arith), send_file) refl
send_file_any_fuel (suc f) (suc g) sent size [] es h k = refl
send_file_any_fuel (suc f) (suc g) sent size (c ∷ cs) es h k = elim (Bool-cases (ltb sent size)) [
  | inr over ↦ rw (over, send_file) refl
  | inl more ↦
      let chunk = take buffer_size (c ∷ cs) in
      let less = ltb→lt sent size more in
      send_file-round f sent size c cs es less
      ∙ round-same (λ n content later. send_file f n size content later)
          (λ n content later. send_file g n size content later) (sent + length chunk)
          (drop buffer_size (c ∷ cs)) (write_all chunk es)
          (λ later.
            send_file_any_fuel f g (sent + length chunk) size (drop buffer_size (c ∷ cs)) later
              (omega arith) (omega arith))
      ∙ sym (send_file-round g sent size c cs es less)
]
