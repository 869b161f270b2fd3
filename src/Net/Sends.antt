-- ===== src/Net/Sends.antt =====
-- The writing loops of src/protocol.c over a kernel with little room.
use cileserver.Base.{
  ◌≡◌, refl, ap, ◌∙◌, List, [], ◌∷◌, ◌++◌, success, arith, take, drop, take-append-drop,
  append_assoc, append-nil, take_all,
}
use cileserver.Base.CString.{Bytes}
use cileserver.Net.{WriteEvent, room, write_retry, write_broken, write_all, write_once}

-- No write fails.
abbrev pub IsWritable : List WriteEvent → Type 0
IsWritable [] = Unit {0}
IsWritable (write_broken ∷ es) = ⊥
IsWritable (_ ∷ es) = IsWritable es

-- A loop that reports success has sent every byte, in order.
pub write_all_complete :
    (bs : Bytes) (es : List WriteEvent) → (write_all bs es).0 ≡ success → (write_all bs es).2 ≡ bs
unfolding write_all
write_all_complete [] es h = refl
write_all_complete (b ∷ bs) [] h = refl
write_all_complete (b ∷ bs) (write_retry ∷ es) h = write_all_complete (b ∷ bs) es h
write_all_complete (b ∷ bs) (write_broken ∷ es) h = cc
write_all_complete (b ∷ bs) (room n ∷ es) h =
    ap (◌++◌ (take n (b ∷ bs))) (write_all_complete (drop n (b ∷ bs)) es h)
    ∙ take-append-drop n (b ∷ bs)

-- It succeeds unless a write fails, and interruptions and short writes do not count as that.
pub write_all-IsWritable :
    (bs : Bytes) (es : List WriteEvent)
    → IsWritable es
    → ((write_all bs es).0 ≡ success) × IsWritable (write_all bs es).1
unfolding write_all
write_all-IsWritable [] es h = (refl, h)
write_all-IsWritable (b ∷ bs) [] h = (refl, tt)
write_all-IsWritable (b ∷ bs) (write_retry ∷ es) h = write_all-IsWritable (b ∷ bs) es h
write_all-IsWritable (b ∷ bs) (write_broken ∷ es) h = absurd h
write_all-IsWritable (b ∷ bs) (room n ∷ es) h = write_all-IsWritable (drop n (b ∷ bs)) es h

-- What the peer has got is always a prefix of what was to be sent.
pub write_all-prefix :
    (bs : Bytes) (es : List WriteEvent) → (tail : Bytes) × ((write_all bs es).2 ++ tail ≡ bs)
unfolding write_all
write_all-prefix [] es = ([], refl)
write_all-prefix (b ∷ bs) [] = ([], append-nil (b ∷ bs))
write_all-prefix (b ∷ bs) (write_retry ∷ es) = write_all-prefix (b ∷ bs) es
write_all-prefix (b ∷ bs) (write_broken ∷ es) = (b ∷ bs, refl)
write_all-prefix (b ∷ bs) (room n ∷ es) =
    let (tail, e) = write_all-prefix (drop n (b ∷ bs)) es in
    (
      tail,
      append_assoc (take n (b ∷ bs)) _ tail
          ∙ ap (◌++◌ (take n (b ∷ bs))) e
          ∙ take-append-drop n (b ∷ bs),
    )

pub write_once_complete :
    (bs : Bytes) (es : List WriteEvent) → (write_once bs es).0 ≡ success → (write_once bs es).2 ≡ bs
unfolding write_once
write_once_complete bs [] h = refl
write_once_complete bs (write_retry ∷ es) h = cc
write_once_complete bs (write_broken ∷ es) h = cc
write_once_complete bs (room n ∷ es) h = take_all n bs (ground arith)

pub write_once-prefix :
    (bs : Bytes) (es : List WriteEvent) → (tail : Bytes) × ((write_once bs es).2 ++ tail ≡ bs)
unfolding write_once
write_once-prefix bs [] = ([], append-nil bs)
write_once-prefix bs (write_retry ∷ es) = (bs, refl)
write_once-prefix bs (write_broken ∷ es) = (bs, refl)
write_once-prefix bs (room n ∷ es) = (drop n bs, take-append-drop n bs)

pub write_once-IsWritable :
    (bs : Bytes) (es : List WriteEvent) → IsWritable es → IsWritable (write_once bs es).1
unfolding write_once
write_once-IsWritable bs [] h = tt
write_once-IsWritable bs (write_retry ∷ es) h = h
write_once-IsWritable bs (write_broken ∷ es) h = absurd h
write_once-IsWritable bs (room n ∷ es) h = h
