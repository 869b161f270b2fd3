-- ===== src/Protocol/Upload.antt =====
-- What a PUT stores: `handle_put_streaming` of src/protocol.c, over a disk that keeps its data.
use cileserver.Auth.{check_permission}
use cileserver.Base.{
  ℕ, zero, suc, ◌+◌, ◌-◌, ◌≤◌, ◌<◌, ◌≡◌, refl, sym, ap, ◌∙◌, inl, inr, true, List, [], ◌∷◌, ◌++◌,
  some, arith, ltb, ltb_false→le, Bool-cases, length, take, drop, append_assoc, append-nil,
  length-append, take-append_ge, drop-append_ge, length-zero,
}
use cileserver.Base.CString.{Bytes, codes}
use cileserver.FileOps.Resolve.{get_full_path}
use cileserver.Net.Reads.{flow, IsClean, ReadCase, waits, takes, read-ReadCase}
use cileserver.Net.{ReadEvent, ReadResult}
use cileserver.Os.{Os, KeepsData, content_at}
use cileserver.Protocol.State.{Env, World, reply}
use cileserver.Protocol.Streaming.{
  PutEnd, stopped, receive_chunk, receive_file, receive_fuel, write_initial, finish_put,
  store_opened, handle_put_streaming, buffer_size,
}
use cileserver.Wire.{cmd_put, resp_ok}

module _ {Fs : Type 0} (os : Os Fs) (p : Bytes) (d : KeepsData os p) where
  -- The loop has read `n` bytes of the stream and stored them behind `old`.
  record Stores (n : ℕ) (old : Bytes) (es : List ReadEvent) (r : PutEnd Fs) : Type 0 where
    disk : Fs
    rest : List ReadEvent
    result : r ≡ stopped 0 disk rest
    stored : content_at os disk p ≡ some (old ++ take n (flow es))
    flow_rest : flow rest ≡ drop n (flow es)
    clean : IsClean rest

  receive_chunk-Stores :
      (f n k : ℕ) (fs : Fs) (old : Bytes) (es : List ReadEvent) (r : ReadResult)
      → ReadCase k es r
      → k ≤ suc n
      → suc n ≤ length (flow es)
      → suc n + length es < suc f
      → content_at os fs p ≡ some old
      → ((m : ℕ) (a : Fs) (o : Bytes) (later : List ReadEvent)
          → IsClean later
          → m ≤ length (flow later)
          → m + length later < f
          → content_at os a p ≡ some o
          → Stores m o later (receive_file os p f m a later))
      → Stores (suc n) old es (receive_chunk os p (suc n) fs r (receive_file os p f))
  unfolding receive_chunk
  receive_chunk-Stores f n k fs old es _ (waits {later} same c lt) le h m e ih =
      let s = ih (suc n) fs old later c (omega (arith, ap length same)) (omega arith) e in
      record {
        disk = s.disk;
        rest = s.rest;
        result = s.result;
        stored = s.stored ∙ ap (λ x. some (old ++ take (suc n) x)) same;
        flow_rest = s.flow_rest ∙ ap (drop (suc n)) same;
        clean = s.clean;
      }
  receive_chunk-Stores f n k fs old es _ (takes {b} {bs} {later} split fit c lt) le h m e ih =
      let j = suc n - length (b ∷ bs) in
      let sum : suc n ≡ length (b ∷ bs) + j = omega arith in
      let s =
        ih j (os.fwrite fs p (b ∷ bs)).0 (old ++ (b ∷ bs)) later c
          (omega (arith, ap length split, length-append (b ∷ bs) (flow later))) (omega arith)
          (d.appends fs old (b ∷ bs) e) in
      record {
        disk = s.disk;
        rest = s.rest;
        result = s.result;
        stored =
            s.stored
            ∙ ap some (
                append_assoc old (b ∷ bs) (take j (flow later))
                ∙ ap (◌++◌ old) (
                    sym (
                      ap (take (suc n)) split
                      ∙ take-append_ge (suc n) j (b ∷ bs) (flow later) sum)));
        flow_rest =
            s.flow_rest
            ∙ sym (ap (drop (suc n)) split ∙ drop-append_ge (suc n) j (b ∷ bs) (flow later) sum);
        clean = s.clean;
      }

  receive_file-Stores :
      (f n : ℕ) (fs : Fs) (old : Bytes) (es : List ReadEvent)
      → IsClean es
      → n ≤ length (flow es)
      → n + length es < f
      → content_at os fs p ≡ some old
      → Stores n old es (receive_file os p f n fs es)
  unfolding receive_file
  receive_file-Stores zero n fs old es c h m e = absurd (omega arith)
  receive_file-Stores (suc f) zero fs old es c h m e = record {
    disk = fs;
    rest = es;
    result = refl;
    stored = e ∙ ap some (sym (append-nil old));
    flow_rest = refl;
    clean = c;
  }
  receive_file-Stores (suc f) (suc n) fs old es c h m e =
      elim (Bool-cases (ltb (suc n) buffer_size)) [
        | inl small ↦ rw small (
            receive_chunk-Stores f n (suc n) fs old es _ (read-ReadCase n es c (omega arith))
              (omega arith) h m e (receive_file-Stores f))
        | inr large ↦ rw large (
            receive_chunk-Stores f n buffer_size fs old es _ (read-ReadCase 4095 es c (omega arith))
              (ltb_false→le (suc n) buffer_size large) h m e (receive_file-Stores f))
      ]

  write_initial-stores :
      (opened_fs : Fs) (initial_data : Bytes)
      → content_at os opened_fs p ≡ some []
      → content_at os (write_initial os p opened_fs initial_data) p ≡ some initial_data
  unfolding write_initial
  write_initial-stores opened_fs initial_data e = elim (Bool-cases (ltb 0 (length initial_data))) [
    | inl some_data ↦ rw (some_data, write_initial) (d.appends opened_fs [] initial_data e)
    | inr no_data ↦
        rw (no_data, write_initial)
          (e ∙ ap some (sym (length-zero initial_data (omega (arith, ltb_false→le _ _ no_data)))))
  ]

finish_stopped :
    {Fs : Type 0} (w : World Fs) (disk : Fs) (rest : List ReadEvent)
    → finish_put w (stopped 0 disk rest)
      ≡ reply
          (record w { fs = disk; conn = record w.conn { inbox = rest } })
          resp_ok
          (codes "File written successfully")
          25
unfolding finish_put
finish_stopped w disk rest = refl

store_opened-reply :
    {Fs : Type 0} (env : Env Fs) (w : World Fs) (full_path initial_data : Bytes)
    (opened_fs disk : Fs) (total_len missing : ℕ) (rest : List ReadEvent)
    → total_len ≡ length initial_data + missing
    → receive_file env.os full_path
        (receive_fuel missing w.conn.inbox)
        missing
        (write_initial env.os full_path opened_fs initial_data)
        w.conn.inbox
      ≡ stopped 0 disk rest
    → store_opened env w full_path opened_fs initial_data total_len
      ≡ reply
          (record w { fs = disk; conn = record w.conn { inbox = rest } })
          resp_ok
          (codes "File written successfully")
          25
unfolding store_opened
store_opened-reply env w full_path initial_data opened_fs disk total_len missing rest total e =
    let is : total_len - length initial_data ≡ missing = omega arith in
    rw (is, store_opened) (rw e (finish_stopped w disk rest))

-- A PUT that is permitted, and whose file can be opened, stores exactly the announced bytes: the
-- part of them that came with the request, then those that follow on the stream, however they
-- are cut into packets. It leaves the bytes behind them to the next request, and answers that the
-- file has been written. The disk keeps its data, the stream does not break, and it has all the
-- bytes that are still missing.
pub handle_put_streaming-stores :
    {Fs : Type 0} (env : Env Fs) (w : World Fs) (path initial_data full_path : Bytes)
    (opened_fs : Fs) (total_len role missing : ℕ)
    → KeepsData env.os full_path
    → check_permission role cmd_put ≡ true
    → get_full_path env.os env.cfg w.fs path 1024 ≡ some full_path
    → env.os.open_write w.fs full_path ≡ some opened_fs
    → total_len ≡ length initial_data + missing
    → IsClean w.conn.inbox
    → missing ≤ length (flow w.conn.inbox)
    → (disk : Fs) × (rest : List ReadEvent) × (handle_put_streaming env w path initial_data
          total_len role
        ≡ reply
            (record w { fs = disk; conn = record w.conn { inbox = rest } })
            resp_ok
            (codes "File written successfully")
            25)
      × (content_at env.os disk full_path ≡ some (initial_data ++ take missing (flow w.conn.inbox)))
      × (flow rest ≡ drop missing (flow w.conn.inbox))
unfolding handle_put_streaming
handle_put_streaming-stores env w path initial_data full_path opened_fs total_len role missing d
      allowed resolved opened_e total c h =
    let s =
      receive_file-Stores env.os full_path d (receive_fuel missing w.conn.inbox) missing
        (write_initial env.os full_path opened_fs initial_data) initial_data w.conn.inbox c h
        (omega arith)
        (write_initial-stores env.os full_path d opened_fs initial_data
          (d.truncates w.fs opened_fs opened_e)) in
    (
      s.disk,
      s.rest,
      rw (allowed, handle_put_streaming)
          (rw resolved (
            rw opened_e (
              store_opened-reply env w full_path initial_data opened_fs s.disk total_len missing
                s.rest total s.result))),
      s.stored,
      s.flow_rest,
    )
