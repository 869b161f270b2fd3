-- ===== src/Server/Shutdown.antt =====
-- `shutdown_server` of src/server.c against the end of `client_handler`: the steps of their
-- threads, with `clients_mutex` between them.
use cileserver.Base.{
  ℕ, ◌+◌, ◌<◌, ◌≤◌, ◌≡◌, ◌≢◌, refl, sym, ap, ◌∙◌, ◌⊎◌, inl, inr, Bool, true, false, arith, ◌==◌,
  ==_iff, if◌then◌else◌, Bool-cases,
}
use cileserver.Server.Slots.{max_clients}

-- Where the thread of a client is: in `handle_client`, before the lock of the cleanup, behind it,
-- or at its end.
pub data Thread : Type 0 where
  working waiting cleaning finished : Thread

pub data Holder : Type 0 where
  free by_main : Holder
  by_client : ℕ → Holder

-- Where the main thread is: before the shutdown, in its loop at an index, in `pthread_join` for
-- an index, or behind it.
pub data MainThread : Type 0 where
  accepting stopped : MainThread
  scanning joining : ℕ → MainThread

pub record Shutdown : Type 0 where
  pub main : MainThread
  pub lock : Holder
  pub threads : ℕ → Thread
  -- `client_fds[i] >= 0`
  pub open_fds : ℕ → Bool

abbrev pub update : {A : Type 0} → (ℕ → A) → ℕ → A → ℕ → A
update f i v j = if j == i then v else f j

-- One step of one of the threads.
pub data Step (s : Shutdown) : Shutdown → Type 0 where
  hung_up :
      (i : ℕ) → s.threads i ≡ working → Step s (record s { threads = update s.threads i waiting })
  locked :
      (i : ℕ)
      → s.threads i ≡ waiting
      → s.lock ≡ free
      → Step s (record s { threads = update s.threads i cleaning; lock = by_client i })
  cleaned :
      (i : ℕ)
      → s.threads i ≡ cleaning
      → Step s (record s {
        threads = update s.threads i finished;
        lock = free;
        open_fds = update s.open_fds i false;
      })
  begins :
      s.main ≡ accepting → s.lock ≡ free → Step s (record s { main = scanning 0; lock = by_main })
  passes :
      (k : ℕ)
      → s.main ≡ scanning k
      → k < max_clients
      → s.open_fds k ≡ false
      → Step s (record s { main = scanning (k + 1) })
  joins :
      (k : ℕ)
      → s.main ≡ scanning k
      → k < max_clients
      → s.open_fds k ≡ true
      → Step s (record s { main = joining k; open_fds = update s.open_fds k false })
  joined :
      (k : ℕ)
      → s.main ≡ joining k
      → s.threads k ≡ finished
      → Step s (record s { main = scanning (k + 1) })
  ends : s.main ≡ scanning max_clients → Step s (record s { main = stopped; lock = free })

pub data Reaches (s : Shutdown) : Shutdown → Type 0 where
  here : Reaches s s
  after : {a b : Shutdown} → Reaches s a → Step a b → Reaches s b

-- The state in which `shutdown_server` has taken the lock, with the clients that are connected,
-- and those of them whose threads wait for the lock already.
abbrev pub shutdown_begun : (ℕ → Bool) → (ℕ → Bool) → Shutdown
shutdown_begun connected at_lock = record {
  main = scanning 0;
  lock = by_main;
  threads = λ i. if connected i then (if at_lock i then waiting else working) else finished;
  open_fds = connected;
}

module _ {A : Type 0} (f : ℕ → A) (i : ℕ) (v : A) where
  update-ne : (x : A) (j : ℕ) → v ≢ x → f j ≢ x → update f i v j ≢ x
  update-ne x j h k = elim (Bool-cases (j == i)) [ inl same ↦ rw same h | inr other ↦ rw other k ]

update-false : (f : ℕ → Bool) (i j : ℕ) → update f i false j ≡ true → f j ≡ true
update-false f i j = elim (Bool-cases (j == i)) [
  | inl same ↦ rw same (λ h. cc)
  | inr other ↦ rw other (λ h. h)
]

-- The shutdown holds the lock, and is still before client `k` or joins a thread that needs it.
record IsHung (k : ℕ) (s : Shutdown) : Type 0 where
  held : s.lock ≡ by_main
  none_cleaning : (i : ℕ) → s.threads i ≢ cleaning
  none_ended : (i : ℕ) → s.open_fds i ≡ true → s.threads i ≢ finished
  main_at :
      ((j : ℕ) × (s.main ≡ scanning j) × (j ≤ k) × (s.open_fds k ≡ true))
      ⊎ ((j : ℕ) × (s.main ≡ joining j) × (s.threads j ≢ finished))

Step-IsHung : (k : ℕ) {s t : Shutdown} → k < max_clients → IsHung k s → Step s t → IsHung k t
Step-IsHung k {s} lt h (hung_up i w) = record {
  held = h.held;
  none_cleaning = λ j. update-ne s.threads i waiting cleaning j (λ e. cc) (h.none_cleaning j);
  none_ended = λ j o. update-ne s.threads i waiting finished j (λ e. cc) (h.none_ended j o);
  main_at = elim h.main_at [
    | inl at ↦ inl at
    | inr (j, m, ne) ↦ inr (j, m, update-ne s.threads i waiting finished j (λ e. cc) ne)
  ];
}
Step-IsHung k {s} lt h (locked i w l) = let e : by_main ≡ free = sym h.held ∙ l in absurd cc
Step-IsHung k {s} lt h (cleaned i c) = absurd (h.none_cleaning i c)
Step-IsHung k {s} lt h (begins m l) = let e : by_main ≡ free = sym h.held ∙ l in absurd cc
Step-IsHung k {s} lt h (passes j m jlt closed) = record {
  held = h.held;
  none_cleaning = h.none_cleaning;
  none_ended = h.none_ended;
  main_at = elim h.main_at [
    | inl (i, at, le, o) ↦
        let same : scanning i ≡ scanning j = sym at ∙ m in
        let here_too : i ≡ j = cc in
        elim (Bool-cases (i == k)) [
          | inl last ↦
              let e : i ≡ k = (==_iff i k).0 last in
              let clash : true ≡ false = sym o ∙ ap s.open_fds (sym e ∙ here_too) ∙ closed in
              absurd cc
          | inr before ↦ inl (j + 1, refl, ground arith, o)
        ]
    | inr (i, at, ne) ↦ let clash : joining i ≡ scanning j = sym at ∙ m in absurd cc
  ];
}
Step-IsHung k {s} lt h (joins j m jlt o) = record {
  held = h.held;
  none_cleaning = h.none_cleaning;
  none_ended = λ i e. h.none_ended i (update-false s.open_fds j i e);
  main_at = inr (j, refl, h.none_ended j o);
}
Step-IsHung k {s} lt h (joined j m f) = elim h.main_at [
  | inl (i, at, le, o) ↦ let clash : scanning i ≡ joining j = sym at ∙ m in absurd cc
  | inr (i, at, ne) ↦
      let same : joining i ≡ joining j = sym at ∙ m in
      let here_too : i ≡ j = cc in absurd (ne (ap s.threads here_too ∙ f))
]
Step-IsHung k {s} lt h (ends m) = elim h.main_at [
  | inl (i, at, le, o) ↦
      let same : scanning i ≡ scanning max_clients = sym at ∙ m in
      let here_too : i ≡ max_clients = cc in absurd (omega arith)
  | inr (i, at, ne) ↦ let clash : joining i ≡ scanning max_clients = sym at ∙ m in absurd cc
]

shutdown_begun-IsHung :
    (k : ℕ) (connected at_lock : ℕ → Bool)
    → connected k ≡ true
    → IsHung k (shutdown_begun connected at_lock)
shutdown_begun-IsHung k connected at_lock o = record {
  held = refl;
  none_cleaning = λ i. ground arith;
  none_ended = λ i e. ground arith;
  main_at = inl (0, refl, omega arith, o);
}

Reaches-IsHung : (k : ℕ) {s t : Shutdown} → k < max_clients → IsHung k s → Reaches s t → IsHung k t
Reaches-IsHung k lt h here = h
Reaches-IsHung k lt h (after r step) = Step-IsHung k lt (Reaches-IsHung k lt h r) step

-- If a client is connected when `shutdown_server` has taken the lock, then in whatever order the
-- threads go on, the main thread never gets to the end of the shutdown and never gives the lock
-- back: it joins a thread that needs the lock to end.
pub shutdown_hangs :
    (connected at_lock : ℕ → Bool) (k : ℕ) (s : Shutdown)
    → k < max_clients
    → connected k ≡ true
    → Reaches (shutdown_begun connected at_lock) s
    → (s.main ≢ stopped) × (s.lock ≡ by_main)
shutdown_hangs connected at_lock k s lt o r =
    let h = Reaches-IsHung k lt (shutdown_begun-IsHung k connected at_lock o) r in
    (
      (λ e. elim h.main_at [
        | inl (i, at, le, still) ↦ let clash : scanning i ≡ stopped = sym at ∙ e in absurd cc
        | inr (i, at, ne) ↦ let clash : joining i ≡ stopped = sym at ∙ e in absurd cc
      ]),
      h.held,
    )
