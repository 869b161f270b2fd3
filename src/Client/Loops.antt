-- ===== src/Client/Loops.antt =====
-- The fuel of the two loops of src/client.c over the pieces of a file.
use cileserver.Base.CString.{Bytes}
use cileserver.Base.{
  ℕ, zero, suc, ◌-◌, ◌<◌, ◌≡◌, refl, inl, inr, ◌⊎◌, Bool-cases, List, [], ◌∷◌, arith, ◌==◌, length,
  take, drop, min,
}
use cileserver.Client.Session.{client_buffer}
use cileserver.Client.Transfer.{write_strict, upload, download}
use cileserver.Net.{ReadEvent, ReadResult, WriteEvent, read, got, again, error}
use cileserver.Os.{Os}
use cileserver.Protocol.Responses.{Rc-cases}

List-cases : (xs : Bytes) → (xs ≡ []) ⊎ ((b : ℕ) × (bs : Bytes) × (xs ≡ b ∷ bs))
List-cases [] = inl refl
List-cases (b ∷ bs) = inr (b, bs, refl)

-- The loop of an upload gives the same with every fuel above the bytes still to be sent, for any
-- content and any writes, so it never ends for want of fuel.
pub upload_any_fuel :
    (f g n : ℕ) (content : Bytes) (es : List WriteEvent)
    → n < f
    → n < g
    → upload f n content es ≡ upload g n content es
unfolding upload
upload_any_fuel zero g n content es h k = absurd (omega arith)
upload_any_fuel (suc f) zero n content es h k = absurd (omega arith)
upload_any_fuel (suc f) (suc g) zero content es h k = refl
upload_any_fuel (suc f) (suc g) (suc n) content es h k =
    elim (List-cases (take (min (suc n) client_buffer) content)) [
      | inl none_left ↦ rw (none_left, upload) refl
      | inr (b, bs, chunk) ↦ elim (Rc-cases (write_strict (b ∷ bs) es).0) [
        | inr bad ↦ rw (chunk, upload) (rw bad refl)
        | inl good ↦
            let same =
              upload_any_fuel f g (suc n - length (b ∷ bs)) (drop (length (b ∷ bs)) content)
                (write_strict (b ∷ bs) es).1 (omega arith) (omega arith) in
            rw (chunk, upload) (rw good (rw same refl))
      ]
    ]

data ReadIs (r : ReadResult) : Type 0 where
  is_again : {es : List ReadEvent} → r ≡ again es → ReadIs r
  is_error : {es : List ReadEvent} → r ≡ error es → ReadIs r
  is_end : {es : List ReadEvent} → r ≡ got [] es → ReadIs r
  is_bytes : {b : ℕ} {bs : Bytes} {es : List ReadEvent} → r ≡ got (b ∷ bs) es → ReadIs r

ReadResult-cases : (r : ReadResult) → ReadIs r
ReadResult-cases (again es) = is_again refl
ReadResult-cases (error es) = is_error refl
ReadResult-cases (got [] es) = is_end refl
ReadResult-cases (got (b ∷ bs) es) = is_bytes refl

module _ {Fs : Type 0} (os : Os Fs) (local_path : Bytes) where
  -- The loop of a download gives the same with every fuel above the bytes still to come, on any
  -- stream, so it never ends for want of fuel.
  pub download_any_fuel :
      (f g n : ℕ) (fs : Fs) (es : List ReadEvent)
      → n < f
      → n < g
      → download os local_path f n fs es ≡ download os local_path g n fs es
  unfolding download
  download_any_fuel zero g n fs es h k = absurd (omega arith)
  download_any_fuel (suc f) zero n fs es h k = absurd (omega arith)
  download_any_fuel (suc f) (suc g) zero fs es h k = refl
  download_any_fuel (suc f) (suc g) (suc n) fs es h k =
      elim (ReadResult-cases (read (min (suc n) client_buffer) es)) [
        | is_again e ↦ rw (e, download) refl
        | is_error e ↦ rw (e, download) refl
        | is_end e ↦ rw (e, download) refl
        | is_bytes {b = b} {bs = bs} {es = later} e ↦
            elim (Bool-cases ((os.fwrite fs local_path (b ∷ bs)).1 == length (b ∷ bs))) [
              | inr short ↦ rw (e, download) (rw short refl)
              | inl whole ↦
                  let same =
                    download_any_fuel f g (suc n - length (b ∷ bs))
                      (os.fwrite fs local_path (b ∷ bs)).0 later (omega arith) (omega arith) in
                  rw (e, download) (rw whole same)
            ]
      ]
