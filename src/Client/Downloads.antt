-- ===== src/Client/Downloads.antt =====
-- What `client_get_file` of src/client.c makes of an answer that arrives without interruptions.
use cileserver.Base.CString.{Bytes}
use cileserver.Base.{
  ℕ, zero, suc, ◌+◌, ◌-◌, ◌^◌, ◌≤◌, ◌<◌, ◌≡◌, refl, sym, ap, ◌∙◌, List, [], ◌∷◌, ◌++◌, some,
  success, true, arith, ◌==◌, length, take, drop, min, append_assoc, append-nil, length-append,
  take-append_ge, drop-append_ge, take_all, Rc, none,
}
use cileserver.Client.Session.{Session, client_buffer, send}
use cileserver.Client.Transfer.{download, download_to, download_from}
use cileserver.Client.Room.{IsRoomy, send_request-Sent, send_request-inbox}
use cileserver.Client.{received, receive_header, send_request}
use cileserver.Net.Reads.{flow}
use cileserver.Net.{Conn, ReadEvent, arrived, read, got}
use cileserver.Os.{Os, KeepsData, content_at}
use cileserver.Wire.{cmd_get, response_header, resp_ok}
use cileserver.Client.Steady.{IsSteady, read-ReadsSome, receive_header_reads}

-- What POSIX says of a disk that is not full: `fwrite` on an open file takes all it is given.
pub record WritesAll {Fs : Type 0} (os : Os Fs) (p : Bytes) : Type 0 where
  pub counts :
      (a : Fs) (old bytes : Bytes)
      → content_at os a p ≡ some old
      → (os.fwrite a p bytes).1 ≡ length bytes

module _ {Fs : Type 0} (os : Os Fs) (p : Bytes) (d : KeepsData os p) (full : WritesAll os p) where
  -- The loop has read `n` bytes and stored them behind `old`.
  pub record Saves (n : ℕ) (old : Bytes) (es : List ReadEvent) (r : Rc × Fs × List ReadEvent)
      : Type 0 where
    pub done : r.0 ≡ success
    pub stored : content_at os r.1 p ≡ some (old ++ take n (flow es))
    pub flow_rest : flow r.2 ≡ drop n (flow es)

  -- One round of the loop.
  module _ (f n : ℕ) (fs : Fs) (es : List ReadEvent) (b : ℕ) (bs : Bytes)
      (later : List ReadEvent) where
    download-round :
        read (min (suc n) client_buffer) es ≡ got (b ∷ bs) later
        → (os.fwrite fs p (b ∷ bs)).1 ≡ length (b ∷ bs)
        → download os p (suc f) (suc n) fs es
          ≡ download os p f (suc n - length (b ∷ bs)) (os.fwrite fs p (b ∷ bs)).0 later
    unfolding download
    download-round e count =
        let all : ((os.fwrite fs p (b ∷ bs)).1 == length (b ∷ bs)) ≡ true = ground arith in
        rw (e, download) (rw all refl)

  download-Saves_fuel :
      (f n : ℕ) (fs : Fs) (old : Bytes) (es : List ReadEvent)
      → IsSteady es
      → n ≤ length (flow es)
      → n < f
      → content_at os fs p ≡ some old
      → Saves n old es (download os p f n fs es)
  unfolding download
  download-Saves_fuel zero n fs old es c h m e = absurd (omega arith)
  download-Saves_fuel (suc f) zero fs old es c h m e = record {
    done = refl;
    stored = e ∙ ap some (sym (append-nil old));
    flow_rest = refl;
  }
  download-Saves_fuel (suc f) (suc n) fs old es c h m e =
      let size : min (suc n) client_buffer ≡ suc (min n 4095) = omega arith in
      let r = read-ReadsSome (min n 4095) es c (omega arith) in
      let bytes = r.b ∷ r.bs in
      let j = suc n - length bytes in
      let sum : suc n ≡ length bytes + j = omega (arith, r.fits) in
      let s =
        download-Saves_fuel f j (os.fwrite fs p bytes).0 (old ++ bytes) r.later r.steady
          (omega (arith, ap length r.split, length-append bytes (flow r.later))) (omega arith)
          (d.appends fs old bytes e) in
      rw
        (download-round f n fs es r.b r.bs r.later (ap (λ k. read k es) size ∙ r.result)
          (full.counts fs old bytes e))
        (record {
          done = s.done;
          stored =
              s.stored
              ∙ ap some (
                  append_assoc old bytes (take j (flow r.later))
                  ∙ ap (◌++◌ old) (
                      sym (
                        ap (take (suc n)) r.split
                        ∙ take-append_ge (suc n) j bytes (flow r.later) sum)));
          flow_rest =
              s.flow_rest
              ∙ sym (ap (drop (suc n)) r.split ∙ drop-append_ge (suc n) j bytes (flow r.later) sum);
        })

-- What is left of the session once the request has gone out and the header has been read.
module _ {Fs : Type 0} (os : Os Fs) (s : Session Fs) (path local_path : Bytes) where
  abbrev requested : Conn
  requested = (send_request s.conn cmd_get path none 0).1

  download_from-download_to :
      (n : ℕ) (rest : List ReadEvent) (opened : Fs)
      → (send_request s.conn cmd_get path none 0).0 ≡ success
      → receive_header requested.inbox ≡ (received n [], rest)
      → os.open_write s.fs local_path ≡ some opened
      → download_from os s path local_path
        ≡ download_to os local_path n opened (record s { conn = record requested { inbox = rest } })
  unfolding download_from send
  download_from-download_to n rest opened done header opens =
      rw (done, download_from) (rw header (rw opens (rw header refl)))

  -- From an answer whose header comes whole in the first packet, and whose packets are not
  -- interrupted, exactly the content that is announced ends in the local file.
  pub download_from-saves :
      (first content : Bytes) (es : List ReadEvent) (opened : Fs)
      → KeepsData os local_path
      → WritesAll os local_path
      → length path ≤ 4096
      → IsRoomy s.conn.outbox
      → s.conn.inbox ≡ arrived first ∷ es
      → 5 ≤ length first
      → IsSteady es
      → flow s.conn.inbox ≡ response_header resp_ok (length content) ++ content
      → length content < 2 ^ 32
      → os.open_write s.fs local_path ≡ some opened
      → (let r = download_from os s path local_path in
          (r.0 ≡ success) × (content_at os r.1.fs local_path ≡ some content))
  unfolding download_to
  download_from-saves first content es opened d full short roomy inbox enough steady arrives small
        opens =
      let n = length content in
      let (done, sent) = send_request-Sent s.conn cmd_get path short roomy 0 in
      let (rest, header, f, c) =
        receive_header_reads first content n es enough (ap flow (sym inbox) ∙ arrives) steady
          small in
      let answered : receive_header requested.inbox ≡ (received n [], rest) =
        ap receive_header (send_request-inbox s.conn cmd_get path none 0 ∙ inbox) ∙ header in
      let saved =
        download-Saves_fuel os local_path d full (suc n) n opened [] rest c
          (omega (arith, ap length f)) (omega arith) (d.truncates s.fs opened opens) in
      rw (download_from-download_to n rest opened done answered opens)
        (saved.done, saved.stored ∙ ap some (ap (take n) f ∙ take_all n content (omega arith)))
