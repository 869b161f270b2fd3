-- ===== src/Net/Fuel.antt =====
-- The fuel of the reading loops of src/server.c.
use cileserver.Base.{
  ℕ, zero, suc, ◌+◌, ◌-◌, ◌≤◌, ◌<◌, ◌≡◌, refl, sym, ap, ◌∙◌, inl, inr, List, [], ◌∷◌, ◌++◌, arith,
  leb, length, take, drop, Bool-cases, length-take, length-append, append_assoc, take-append-drop,
}
use cileserver.Base.CString.{Bytes}
use cileserver.Net.{
  ReadEvent, ReadResult, again, arrived, read_retry, read_broken, read, got, error, Filled, cut,
  filled, endless, fill, fill_fuel, after_bytes,
}
use cileserver.Net.Reads.{flow, IsClean, Takes, fill-Takes}

-- What one `read` of at most `k` bytes does: it takes an event or at least one byte, or it ends
-- the loop.
pub data ReadStep (k : ℕ) (es : List ReadEvent) : ReadResult → Type 0 where
  retries : {later : List ReadEvent} → length later < length es → ReadStep k es (again later)
  fails : {later : List ReadEvent} → ReadStep k es (error later)
  closes : {later : List ReadEvent} → ReadStep k es (got [] later)
  advances :
      {b : ℕ} {bs : Bytes} {later : List ReadEvent}
      → length (b ∷ bs) ≤ k
      → length later ≤ length es
      → ReadStep k es (got (b ∷ bs) later)

pub read-ReadStep : (k : ℕ) (es : List ReadEvent) → ReadStep (suc k) es (read (suc k) es)
unfolding read
read-ReadStep k [] = closes
read-ReadStep k (read_retry ∷ es) = retries (omega arith)
read-ReadStep k (read_broken ∷ es) = fails
read-ReadStep k (arrived [] ∷ es) = elim (Bool-cases (leb 0 (suc k))) [
  | inl fits ↦ rw fits closes
  | inr over ↦ rw over closes
]
read-ReadStep k (arrived (b ∷ bs) ∷ es) = elim (Bool-cases (leb (length (b ∷ bs)) (suc k))) [
  | inl fits ↦ rw fits (advances (ground arith) (omega arith))
  | inr over ↦ rw over (advances (omega (arith, length-take (suc k) (b ∷ bs))) (omega arith))
]

-- `read` takes what it returns from the front of the stream.
abbrev KeepsFlow : List ReadEvent → ReadResult → Type 0
KeepsFlow es (again later) = flow later ≡ flow es
KeepsFlow es (error later) = Unit {0}
KeepsFlow es (got bs later) = flow es ≡ bs ++ flow later

read-KeepsFlow : (k : ℕ) (es : List ReadEvent) → KeepsFlow es (read k es)
unfolding read
read-KeepsFlow k [] = refl
read-KeepsFlow k (read_retry ∷ es) = refl
read-KeepsFlow k (read_broken ∷ es) = tt
read-KeepsFlow k (arrived bs ∷ es) = elim (Bool-cases (leb (length bs) k)) [
  | inl fits ↦ rw fits refl
  | inr over ↦ rw over (
      sym (ap (λ x. x ++ flow es) (take-append-drop k bs))
      ∙ append_assoc (take k bs) (drop k bs) (flow es))
]

-- How a loop that wants `n` bytes of `es` may end: with bytes from the front of the stream, or
-- without.
abbrev Ends : ℕ → List ReadEvent → Filled → Type 0
Ends n es (filled bs later) = (length bs ≡ n) × (flow es ≡ bs ++ flow later)
Ends n es (cut later) = Unit {0}
Ends n es endless = ⊥

after_bytes-Ends :
    (bs : Bytes) (k n : ℕ) (es later : List ReadEvent) (r : Filled)
    → length bs + k ≡ n
    → flow es ≡ bs ++ flow later
    → Ends k later r
    → Ends n es (after_bytes bs r)
after_bytes-Ends bs k n es later (filled cs last) e split h = (
  omega (arith, length-append bs cs, h.0, e),
  split ∙ ap (λ x. bs ++ x) h.1 ∙ sym (append_assoc bs cs (flow last)),
)
after_bytes-Ends bs k n es later (cut last) e split h = tt
after_bytes-Ends bs k n es later endless e split h = h

same_flow-Ends :
    (n : ℕ) (es later : List ReadEvent) (r : Filled)
    → flow later ≡ flow es
    → Ends n later r
    → Ends n es r
same_flow-Ends n es later (filled bs last) same h = (h.0, sym same ∙ h.1)
same_flow-Ends n es later (cut last) same h = tt
same_flow-Ends n es later endless same h = h

-- The body of the loop, over what `read` returned.
fill_on : (ℕ → List ReadEvent → Filled) → ℕ → ReadResult → Filled
fill_on rest n r = elim r [
  | again es' ↦ rest (suc n) es'
  | error es' ↦ cut es'
  | got [] es' ↦ cut es'
  | got (b ∷ bs) es' ↦ after_bytes (b ∷ bs) (rest (suc n - length (b ∷ bs)) es')
]

fill_on-Ends :
    (rest : ℕ → List ReadEvent → Filled) (n : ℕ) (es : List ReadEvent) (r : ReadResult)
    → ReadStep (suc n) es r
    → KeepsFlow es r
    → ((m : ℕ) (later : List ReadEvent)
        → m + length later < suc n + length es
        → Ends m later (rest m later))
    → Ends (suc n) es (fill_on rest n r)
unfolding fill_on
fill_on-Ends rest n es _ (retries {later} lt) same ih =
    same_flow-Ends (suc n) es later (rest (suc n) later) same (ih (suc n) later (omega arith))
fill_on-Ends rest n es _ fails same ih = tt
fill_on-Ends rest n es _ closes same ih = tt
fill_on-Ends rest n es _ (advances {b} {bs} {later} fits le) split ih =
    let k = suc n - length (b ∷ bs) in
    after_bytes-Ends (b ∷ bs) k (suc n) es later (rest k later) (omega arith) split
      (ih k later (omega arith))

fill-Ends : (f n : ℕ) (es : List ReadEvent) → n + length es < f → Ends n es (fill f n es)
unfolding fill fill_on
fill-Ends zero n es h = absurd (omega arith)
fill-Ends (suc f) zero es h = (refl, refl)
fill-Ends (suc f) (suc n) es h =
    fill_on-Ends (fill f) n es _ (read-ReadStep n es) (read-KeepsFlow (suc n) es)
      (λ m later lt. fill-Ends f m later (omega arith))

-- How the loop ends on any stream: with the next `n` bytes, the stream going on behind them, or
-- without, on a stream that breaks or has too few.
abbrev pub FillOutcome : ℕ → List ReadEvent → Filled → Type 0
FillOutcome n es (filled bs later) = (length bs ≡ n) × (flow es ≡ bs ++ flow later)
FillOutcome n es (cut later) = ¬ (IsClean es × (n ≤ length (flow es)))
FillOutcome n es endless = ⊥

Ends-FillOutcome :
    (n : ℕ) (es : List ReadEvent) (r : Filled)
    → Ends n es r
    → (IsClean es → n ≤ length (flow es) → Takes n es r)
    → FillOutcome n es r
Ends-FillOutcome n es (filled bs later) h takes = h
Ends-FillOutcome n es (cut later) h takes = λ (c, enough).
    let t = takes c enough in let x : cut later ≡ filled (take n (flow es)) t.rest = t.result in cc
Ends-FillOutcome n es endless h takes = h

-- The reading loop of `handle_client` comes to an end on every stream, whatever the network does:
-- it has exactly the number of bytes it wants, those at the front of the stream, and the rest is
-- still to come; or it has given up, and then a read fails or the peer closes before so many bytes
-- have arrived.
pub fill-FillOutcome : (n : ℕ) (es : List ReadEvent) → FillOutcome n es (fill (fill_fuel n es) n es)
fill-FillOutcome n es =
    Ends-FillOutcome n es _ (fill-Ends (fill_fuel n es) n es (omega arith)) (fill-Takes n es)
