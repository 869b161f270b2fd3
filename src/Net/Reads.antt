-- ===== src/Net/Reads.antt =====
-- The reading loops of src/server.c over streams that are cut into packets.
use cileserver.Base.{
  ℕ, zero, suc, ◌+◌, ◌-◌, ◌≤◌, ◌<◌, ◌≡◌, refl, sym, ap, ◌∙◌, inl, inr, List, [], ◌∷◌, ◌++◌, arith,
  leb, Bool-cases, length, take, drop, length-append, length-drop, length-take, append-nil,
  take-append_le, drop-append_le, take-append_ge, drop-append_ge, take-append-drop, append_assoc,
}
use cileserver.Base.CString.{Bytes}
use cileserver.Net.{
  ReadEvent, ReadResult, again, arrived, read_retry, read_broken, read, got, Filled, filled, fill,
  fill_fuel, after_bytes,
}

-- All bytes that are to arrive.
abbrev pub flow : List ReadEvent → Bytes
flow [] = []
flow (arrived bs ∷ es) = bs ++ flow es
flow (_ ∷ es) = flow es

-- No read fails, and no packet is empty.
abbrev pub IsClean : List ReadEvent → Type 0
IsClean [] = Unit {0}
IsClean (arrived bs ∷ es) = (0 < length bs) × IsClean es
IsClean (read_retry ∷ es) = IsClean es
IsClean (read_broken ∷ es) = ⊥

-- What a loop that wants `n` bytes of `es` does: it takes them, and leaves the rest.
pub record Takes (n : ℕ) (es : List ReadEvent) (r : Filled) : Type 0 where
  pub rest : List ReadEvent
  pub result : r ≡ filled (take n (flow es)) rest
  pub flow_rest : flow rest ≡ drop n (flow es)
  pub clean : IsClean rest
  pub shorter : length rest ≤ length es

module _ (f n b : ℕ) (bs : Bytes) (es : List ReadEvent) where
  -- The packet ends inside the request.
  fill_packet :
      length (b ∷ bs) ≤ suc n
      → fill (suc f) (suc n) (arrived (b ∷ bs) ∷ es)
        ≡ after_bytes (b ∷ bs) (fill f (suc n - length (b ∷ bs)) es)
  unfolding fill read
  fill_packet h = ground arith

  -- The packet holds more than the request.
  read_part :
      suc n < length (b ∷ bs)
      → read (suc n) (arrived (b ∷ bs) ∷ es)
        ≡ got (take (suc n) (b ∷ bs)) (arrived (drop (suc n) (b ∷ bs)) ∷ es)
  unfolding read
  read_part h = ground arith

  fill_part :
      suc n < length (b ∷ bs)
      → fill (suc (suc f)) (suc n) (arrived (b ∷ bs) ∷ es)
        ≡ filled (take (suc n) (b ∷ bs)) (arrived (drop (suc n) (b ∷ bs)) ∷ es)
  unfolding fill
  fill_part h =
      let done : suc n - suc (length (take n bs)) ≡ 0 = omega (arith, length-take n bs) in
      rw (read_part h, fill) (rw done (rw append-nil))

fill-Takes_fuel :
    (f n : ℕ) (es : List ReadEvent)
    → IsClean es
    → n ≤ length (flow es)
    → n + length es < f
    → Takes n es (fill f n es)
unfolding fill read
fill-Takes_fuel zero n es c h m = absurd (omega arith)
fill-Takes_fuel (suc f) zero es c h m = record {
  rest = es;
  result = refl;
  flow_rest = refl;
  clean = c;
  shorter = omega arith;
}
fill-Takes_fuel (suc f) (suc n) [] c h m = absurd (omega arith)
fill-Takes_fuel (suc f) (suc n) (read_broken ∷ es) c h m = absurd c
fill-Takes_fuel (suc f) (suc n) (read_retry ∷ es) c h m =
    let t = fill-Takes_fuel f (suc n) es c h (omega arith) in
    record {
      rest = t.rest;
      result = t.result;
      flow_rest = t.flow_rest;
      clean = t.clean;
      shorter = omega (arith, t.shorter);
    }
fill-Takes_fuel (suc f) (suc n) (arrived [] ∷ es) c h m = absurd (omega (arith, c.0))
fill-Takes_fuel (suc f) (suc n) (arrived (b ∷ bs) ∷ es) c h m =
    elim (Bool-cases (leb (length (b ∷ bs)) (suc n))) [
      | inl fits ↦
          let k = suc n - length (b ∷ bs) in
          let e : suc n ≡ length (b ∷ bs) + k = ground arith in
          let t =
            fill-Takes_fuel f k es c.1 (omega (arith, length-append (b ∷ bs) (flow es)))
              (omega arith) in
          record {
            rest = t.rest;
            result =
                fill_packet f n b bs es (omega arith)
                ∙ ap (after_bytes (b ∷ bs)) t.result
                ∙ ap (λ x. filled x t.rest) (sym (take-append_ge (suc n) k (b ∷ bs) (flow es) e));
            flow_rest = t.flow_rest ∙ sym (drop-append_ge (suc n) k (b ∷ bs) (flow es) e);
            clean = t.clean;
            shorter = omega (arith, t.shorter);
          }
      | inr over ↦
          let e : f ≡ suc (f - 1) = omega arith in
          let lt : suc n < length (b ∷ bs) = ground arith in
          record {
            rest = arrived (drop (suc n) (b ∷ bs)) ∷ es;
            result =
                rw e (fill_part (f - 1) n b bs es lt)
                ∙ ap (λ x. filled x (arrived (drop (suc n) (b ∷ bs)) ∷ es))
                    (sym (take-append_le (suc n) (b ∷ bs) (flow es) (omega arith)));
            flow_rest = sym (drop-append_le (suc n) (b ∷ bs) (flow es) (omega arith));
            clean = (omega (arith, length-drop (suc n) (b ∷ bs)), c.1);
            shorter = omega arith;
          }
    ]

-- On a stream that does not break and has enough bytes, the reading loop of `handle_client` takes
-- exactly the bytes it asks for, however they are cut into packets and interrupted, and leaves
-- the rest of the stream. Its fuel is enough for that.
pub fill-Takes :
    (n : ℕ) (es : List ReadEvent)
    → IsClean es
    → n ≤ length (flow es)
    → Takes n es (fill (fill_fuel n es) n es)
fill-Takes n es c h = fill-Takes_fuel (fill_fuel n es) n es c h (omega arith)

-- What one `read` of at most `k` bytes does on a clean stream that has bytes left.
pub data ReadCase (k : ℕ) (es : List ReadEvent) : ReadResult → Type 0 where
  waits :
      {later : List ReadEvent}
      → flow later ≡ flow es
      → IsClean later
      → length later < length es
      → ReadCase k es (again later)
  takes :
      {b : ℕ} {bs : Bytes} {later : List ReadEvent}
      → flow es ≡ (b ∷ bs) ++ flow later
      → length (b ∷ bs) ≤ k
      → IsClean later
      → length later ≤ length es
      → ReadCase k es (got (b ∷ bs) later)

pub read-ReadCase :
    (k : ℕ) (es : List ReadEvent)
    → IsClean es
    → 0 < length (flow es)
    → ReadCase (suc k) es (read (suc k) es)
unfolding read
read-ReadCase k [] c h = absurd (omega arith)
read-ReadCase k (read_retry ∷ es) c h = waits refl c (omega arith)
read-ReadCase k (read_broken ∷ es) c h = absurd c
read-ReadCase k (arrived [] ∷ es) c h = absurd (omega (arith, c.0))
read-ReadCase k (arrived (b ∷ bs) ∷ es) c h = elim (Bool-cases (leb (length (b ∷ bs)) (suc k))) [
  | inl fits ↦ rw fits (takes refl (ground arith) c.1 (omega arith))
  | inr over ↦
      let long : suc k < length (b ∷ bs) = ground arith in
      rw over (
        takes
          (sym (ap (λ x. x ++ flow es) (take-append-drop (suc k) (b ∷ bs)))
            ∙ append_assoc (take (suc k) (b ∷ bs)) (drop (suc k) (b ∷ bs)) (flow es))
          (omega (arith, length-take (suc k) (b ∷ bs)))
          (omega (arith, length-drop (suc k) (b ∷ bs), long), c.1) (omega arith))
]
