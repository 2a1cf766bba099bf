-- ===== src/BleEth/Fragments.antt =====
-- app/src/main/cpp/ble_eth.c, the comment at its top: how a datagram is cut into chunks, described
-- on lists of bytes.
use adapto_lite.Prelude.{
  ℕ, zero, suc, ◌+◌, ◌*◌, ◌≤◌, ◌<◌, ◌≡◌, List, [], ◌∷◌, ◌++◌, Bool, true, false, ltb, if◌then◌else◌,
  length, take, drop, length-take, length-drop, take-append-drop, All, append-nil, ltb_cases, inl,
  inr, low_bits, has_bit, arith,
}

-- A chunk of a datagram: whether it is the first, whether it is the last, and its bytes.
pub record Fragment : Type 0 where
  pub first : Bool
  pub last : Bool
  pub body : List ℕ

-- The type of a chunk in its first byte.
abbrev pub type_bits : Bool → Bool → ℕ
type_bits first last = (if first then 0x40 else 0) + (if last then 0x80 else 0)

-- The bytes of a chunk before the link sets its sequence number.
abbrev pub untagged : Fragment → List ℕ
untagged f = type_bits f.first f.last ∷ f.body

-- The bytes of a chunk with the sequence number `seq`.
abbrev pub encode : ℕ → Fragment → List ℕ
encode seq f = (seq + type_bits f.first f.last) ∷ f.body

-- A datagram as chunks of at most 167 bytes, with enough room in `n + 1` of them.
unfoldable pub fragments : ℕ → Bool → List ℕ → List Fragment
fragments zero first d = record { first = first; last = true; body = d } ∷ []
fragments (suc n) first d =
    let rest = fragments n false (drop 167 d) in
    if ltb 167 (length d)
    then record { first = first; last = false; body = take 167 d } ∷ rest
    else record { first = first; last = true; body = d } ∷ []

-- The chunks with consecutive sequence numbers.
unfoldable pub encode_all : ℕ → List Fragment → List (List ℕ)
encode_all seq [] = []
encode_all seq (f ∷ fs) = encode (low_bits seq 6) f ∷ encode_all (seq + 1) fs

pub bodies : List Fragment → List ℕ
bodies [] = []
bodies (f ∷ fs) = f.body ++ bodies fs

-- The chunks hold the datagram, in order.
pub bodies-fragments : (n : ℕ) (first : Bool) (d : List ℕ) → bodies (fragments n first d) ≡ d
unfolding fragments bodies
bodies-fragments zero first d = ground (arith, append-nil d)
bodies-fragments (suc n) first d = elim (ltb_cases 167 (length d)) [
  | inl (h, e) ↦ rw (e, bodies-fragments n false (drop 167 d)) (take-append-drop 167 d)
  | inr (h, e) ↦ rw e (append-nil d)
]

-- No chunk is longer than 167 bytes.
pub fragments-length :
    (n : ℕ) (first : Bool) (d : List ℕ)
    → length d ≤ 167 * (n + 1)
    → All (λ f. length (Fragment.body f) ≤ 167) (fragments n first d)
unfolding fragments
fragments-length zero first d h = (omega arith, tt)
fragments-length (suc n) first d h =
    let r = fragments-length n false (drop 167 d) (omega (arith, length-drop 167 d)) in
    elim (ltb_cases 167 (length d)) [
      | inl (h1, e) ↦ rw e (omega (arith, length-take 167 d), r)
      | inr (h1, e) ↦ rw e (h1, tt)
    ]

-- The header byte says what it was made of.
pub seq-head :
    (seq : ℕ) (first last : Bool) → seq < 64 → low_bits (seq + type_bits first last) 6 ≡ seq
seq-head seq true true h = omega arith
seq-head seq true false h = omega arith
seq-head seq false true h = omega arith
seq-head seq false false h = omega arith

pub first-head :
    (seq : ℕ) (first last : Bool) → seq < 64 → has_bit (seq + type_bits first last) 6 ≡ first
first-head seq true true h = ground arith
first-head seq true false h = ground arith
first-head seq false true h = ground arith
first-head seq false false h = ground arith

pub last-head :
    (seq : ℕ) (first last : Bool) → seq < 64 → has_bit (seq + type_bits first last) 7 ≡ last
last-head seq true true h = ground arith
last-head seq true false h = ground arith
last-head seq false true h = ground arith
last-head seq false false h = ground arith
