-- ===== src/Protocol/Confined.antt =====
-- The changes that a request makes to the disk: src/protocol.c over src/file_ops.c.
use cileserver.Base.{
  ℕ, zero, suc, ◌≡◌, refl, sym, subst, inl, inr, List, [], ◌∷◌, arith, ltb, Bool-cases,
  Option-cases, length,
}
use cileserver.Auth.{check_permission}
use cileserver.Base.CString.{Bytes}
use cileserver.FileOps.Confined.{
  Touches, untouched, opened, written, Touches-trans, HasRoot, delete_file-Touches,
  create_directory-Touches,
}
use cileserver.FileOps.Resolve.{Under, get_full_path, get_full_path-Under, max_path_size}
use cileserver.Net.{ReadEvent, ReadResult, got, again, error}
use cileserver.Os.{Os}
use cileserver.Protocol.Cases.{process_request-cases}
use cileserver.Protocol.Frame.{
  reply-fs, delete-fs, mkdir-fs, list-fs, info-fs, get-fs, auth-fs, logout-fs,
}
use cileserver.Protocol.Handlers.{handle_delete_command, handle_mkdir_command}
use cileserver.Protocol.Request.{process_request}
use cileserver.Protocol.State.{Env, World, reply}
use cileserver.Protocol.Streaming.{
  PutEnd, stopped, broken, receive_chunk, receive_file, write_initial, finish_put, store_opened,
  handle_put_streaming,
}
use cileserver.Wire.{cmd_delete, cmd_mkdir, cmd_put}

abbrev end_fs : {Fs : Type 0} → PutEnd Fs → Fs
end_fs (stopped left fs es) = fs
end_fs (broken fs es) = fs

module _ {Fs : Type 0} (os : Os Fs) {root : Bytes} (path : Bytes) (u : Under root path) where
  receive_chunk-Touches :
      (n : ℕ) (fs : Fs) (r : ReadResult) (rest : ℕ → Fs → List ReadEvent → PutEnd Fs)
      → ((m : ℕ) (a : Fs) (es : List ReadEvent) → Touches os root a (end_fs (rest m a es)))
      → Touches os root fs (end_fs (receive_chunk os path n fs r rest))
  unfolding receive_chunk
  receive_chunk-Touches n fs (again es) rest h = h n fs es
  receive_chunk-Touches n fs (error es) rest h = untouched
  receive_chunk-Touches n fs (got [] es) rest h = untouched
  receive_chunk-Touches n fs (got (b ∷ bs) es) rest h =
      Touches-trans (written (b ∷ bs) untouched u) (h _ _ es)

  receive_file-Touches :
      (f n : ℕ) (fs : Fs) (es : List ReadEvent)
      → Touches os root fs (end_fs (receive_file os path f n fs es))
  unfolding receive_file
  receive_file-Touches zero n fs es = untouched
  receive_file-Touches (suc f) zero fs es = untouched
  receive_file-Touches (suc f) (suc n) fs es =
      receive_chunk-Touches (suc n) fs _ (receive_file os path f) (receive_file-Touches f)

module _ {Fs : Type 0} (env : Env Fs) (w : World Fs) where
  finish_put-fs : (e : PutEnd Fs) → (finish_put w e).1.fs ≡ end_fs e
  unfolding finish_put reply
  finish_put-fs (broken fs es) = refl
  finish_put-fs (stopped left fs es) = ground arith

  write_initial-Touches :
      {root : Bytes} (full_path initial_data : Bytes) (opened_fs : Fs)
      → Under root full_path
      → Touches env.os root opened_fs (write_initial env.os full_path opened_fs initial_data)
  unfolding write_initial
  write_initial-Touches full_path initial_data opened_fs u =
      elim (Bool-cases (ltb 0 (length initial_data))) [
        | inl some_data ↦ rw (some_data, write_initial) (written initial_data untouched u)
        | inr no_data ↦ rw (no_data, write_initial) untouched
      ]

  store_opened-Touches :
      {root : Bytes} (full_path initial_data : Bytes) (opened_fs : Fs) (total_len : ℕ)
      → Under root full_path
      → Touches env.os root opened_fs
          (store_opened env w full_path opened_fs initial_data total_len).1.fs
  unfolding store_opened
  store_opened-Touches {root} full_path initial_data opened_fs total_len u =
      subst (Touches env.os root opened_fs) (sym (finish_put-fs _)) (
        Touches-trans (write_initial-Touches full_path initial_data opened_fs u)
          (receive_file-Touches env.os full_path u _ _ _ _))

  put-Touches :
      {root : Bytes} (path initial_data : Bytes) (total_len role : ℕ)
      → HasRoot env.os env.cfg w.fs root 1024
      → Touches env.os root w.fs (handle_put_streaming env w path initial_data total_len role).1.fs
  unfolding handle_put_streaming reply
  put-Touches {root} path initial_data total_len role r =
      elim (Bool-cases (check_permission role cmd_put)) [
        | inr denied ↦ rw (denied, handle_put_streaming) untouched
        | inl allowed ↦
            rw (allowed, handle_put_streaming)
              (elim (Option-cases (get_full_path env.os env.cfg w.fs path 1024)) [
                | inl e ↦ rw e untouched
                | inr (p, e) ↦
                    let u =
                      get_full_path-Under env.os env.cfg w.fs path 1024 root p r.room r.resolves
                        e in
                    rw e (elim (Option-cases (env.os.open_write w.fs p)) [
                      | inl o ↦ rw o untouched
                      | inr (b, o) ↦ rw o (
                          Touches-trans (opened untouched u o)
                            (store_opened-Touches p initial_data b total_len u))
                    ])
              ])
      ]

  delete-Touches :
      {root : Bytes} (path : Bytes) (role : ℕ)
      → HasRoot env.os env.cfg w.fs root max_path_size
      → Touches env.os root w.fs (handle_delete_command env w path role).1.fs
  delete-Touches {root} path role r =
      subst (Touches env.os root w.fs) (sym (delete-fs env w path role))
        (elim (Bool-cases (check_permission role cmd_delete)) [
          | inr denied ↦ rw denied untouched
          | inl allowed ↦ rw allowed (delete_file-Touches env.os env.cfg w.fs path r)
        ])

  mkdir-Touches :
      {root : Bytes} (path : Bytes) (role : ℕ)
      → HasRoot env.os env.cfg w.fs root max_path_size
      → Touches env.os root w.fs (handle_mkdir_command env w path role).1.fs
  mkdir-Touches {root} path role r =
      subst (Touches env.os root w.fs) (sym (mkdir-fs env w path role))
        (elim (Bool-cases (check_permission role cmd_mkdir)) [
          | inr denied ↦ rw denied untouched
          | inl allowed ↦ rw allowed (create_directory-Touches env.os env.cfg w.fs path r)
        ])

-- Whatever a client sends and whatever its role is, one request changes the disk only by calls
-- on paths that are the resolved root directory or continue it at a slash, if that root is
-- shorter than the 1024 bytes of the buffers for paths.
pub process_request-Touches :
    {Fs : Type 0} (env : Env Fs) (w : World Fs) (root buffer : Bytes) (size : ℕ)
    → HasRoot env.os env.cfg w.fs root 1024
    → Touches env.os root w.fs (process_request env w buffer size).1.fs
process_request-Touches {Fs} env w root buffer size r =
    let wide : HasRoot env.os env.cfg w.fs root max_path_size = record {
      resolves = r.resolves;
      room = omega (arith, r.room);
    } in
    let kept = λ (fs : Fs) (e : fs ≡ w.fs). subst (Touches env.os root w.fs) (sym e) untouched in
    process_request-cases env w (λ x. Touches env.os root w.fs x.1.fs)
      (record {
        refuses = untouched;
        replies = λ s b n. kept _ (reply-fs env w s b n);
        auths = λ u p. kept _ (auth-fs env w u p);
        logouts = kept _ (logout-fs env w);
        lists = λ path. kept _ (list-fs env w path w.role);
        gets = λ path. kept _ (get-fs env w path w.role);
        puts = λ path initial total. put-Touches env w path initial total w.role r;
        deletes = λ path. delete-Touches env w path w.role wide;
        mkdirs = λ path. mkdir-Touches env w path w.role wide;
        infos = λ path. kept _ (info-fs env w path w.role);
      })
      buffer size
