-- ===== src/Client/Steady.antt =====
-- What the calls of `read` in src/client.c give on a stream that is not interrupted.
use cileserver.Base.CString.{Bytes}
use cileserver.Base.{
  ℕ, suc, ◌^◌, ◌≤◌, ◌<◌, ◌≡◌, refl, sym, ap, ◌∙◌, inl, inr, List, [], ◌∷◌, ◌++◌, some, true, arith,
  leb, ◌==◌, Bool-cases, length, take, drop, append_assoc, length-take, length-drop,
  take-append-drop, take-append_le, drop-append_le, take-append, drop-append, take_all, length-zero,
}
use cileserver.Client.{received, read_exact, receive_header}
use cileserver.Net.Reads.{flow}
use cileserver.Net.{ReadEvent, arrived, read_retry, read_broken, read, got}
use cileserver.Wire.{response_header, resp_ok, u32_at}

-- No read is interrupted or fails, and no packet is empty.
abbrev pub IsSteady : List ReadEvent → Type 0
IsSteady [] = Unit {0}
IsSteady (arrived bs ∷ es) = (0 < length bs) × IsSteady es
IsSteady (_ ∷ es) = ⊥

-- One `read` of at most `k` bytes, with what it gives and the packets that are left.
pub record ReadsSome (k : ℕ) (es : List ReadEvent) : Type 0 where
  pub b : ℕ
  pub bs : Bytes
  pub later : List ReadEvent
  pub result : read k es ≡ got (b ∷ bs) later
  pub split : flow es ≡ (b ∷ bs) ++ flow later
  pub fits : length (b ∷ bs) ≤ k
  pub steady : IsSteady later

pub read-ReadsSome :
    (k : ℕ) (es : List ReadEvent) → IsSteady es → 0 < length (flow es) → ReadsSome (suc k) es
unfolding read
read-ReadsSome k [] c h = absurd (omega arith)
read-ReadsSome k (read_retry ∷ es) c h = absurd c
read-ReadsSome k (read_broken ∷ es) c h = absurd c
read-ReadsSome k (arrived [] ∷ es) c h = absurd (omega (arith, c.0))
read-ReadsSome k (arrived (b ∷ bs) ∷ es) c h = elim (Bool-cases (leb (length (b ∷ bs)) (suc k))) [
  | inl whole ↦ record {
    b = b;
    bs = bs;
    later = es;
    result = rw whole refl;
    split = refl;
    fits = ground arith;
    steady = c.1;
  }
  | inr over ↦ record {
    b = b;
    bs = take k bs;
    later = arrived (drop k bs) ∷ es;
    result = rw over refl;
    split =
        ap (λ x. b ∷ (x ++ flow es)) (sym (take-append-drop k bs))
        ∙ ap (◌∷◌ b) (append_assoc (take k bs) (drop k bs) (flow es));
    fits = omega (arith, length-take k bs);
    steady = (ground (arith, length-drop k bs), c.1);
  }
]

-- The header of an answer, in a first packet that holds all of it.
module _ (first content : Bytes) (n : ℕ) (es : List ReadEvent) (enough : 5 ≤ length first)
    (arrives : flow (arrived first ∷ es) ≡ response_header resp_ok n ++ content) where
  packet_head : take 5 first ≡ response_header resp_ok n
  unfolding response_header
  packet_head =
      sym (take-append_le 5 first (flow es) enough)
      ∙ ap (take 5) arrives
      ∙ take-append 5 (response_header resp_ok n) content refl

  packet_tail : drop 5 first ++ flow es ≡ content
  unfolding response_header
  packet_tail =
      sym (drop-append_le 5 first (flow es) enough)
      ∙ ap (drop 5) arrives
      ∙ drop-append 5 (response_header resp_ok n) content refl

  read_header :
      IsSteady es
      → (rest : List ReadEvent) × (read_exact 5 (arrived first ∷ es)
          ≡ (some (response_header resp_ok n), rest))
        × (flow rest ≡ content)
        × IsSteady rest
  unfolding read_exact read
  read_header steady = elim (Bool-cases (leb (length first) 5)) [
    | inl whole ↦
        let exact : (length first == 5) ≡ true = ground arith in
        let nothing : drop 5 first ≡ [] =
          length-zero (drop 5 first) (ground (arith, length-drop 5 first)) in
        (
          es,
          rw (whole, read_exact)
              (rw exact
                (ap (λ x. (some x, es)) (sym (take_all 5 first (ground arith)) ∙ packet_head))),
          ap (λ x. x ++ flow es) (sym nothing) ∙ packet_tail,
          steady,
        )
    | inr over ↦
        let exact : (length (take 5 first) == 5) ≡ true = ground (arith, length-take 5 first) in
        (
          arrived (drop 5 first) ∷ es,
          rw (over, read_exact)
              (rw exact (ap (λ x. (some x, arrived (drop 5 first) ∷ es)) packet_head)),
          packet_tail,
          (ground (arith, length-drop 5 first), steady),
        )
  ]

  pub receive_header_reads :
      IsSteady es
      → n < 2 ^ 32
      → (rest : List ReadEvent) × (receive_header (arrived first ∷ es) ≡ (received n [], rest))
        × (flow rest ≡ content)
        × IsSteady rest
  unfolding receive_header response_header
  receive_header_reads steady small =
      let (rest, e, f, c) = read_header steady in
      let announced : u32_at (response_header resp_ok n) 1 ≡ n = omega arith in
      (rest, rw (e, receive_header) (rw e (ap (λ k. (received k [], rest)) announced)), f, c)
