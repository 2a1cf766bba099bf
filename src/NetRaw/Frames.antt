-- ===== src/NetRaw/Frames.antt =====
-- app/src/main/cpp/lwip/net_raw.c: a frame that is sent passes the check of its receiver.
use adapto_lite.Prelude.{
  ℕ, zero, suc, ◌+◌, ◌%◌, ◌≤◌, ◌<◌, ◌≡◌, ◌⊎◌, inl, inr, refl, sym, ap, ◌∙◌, some, List, arith,
  length,
}
use adapto_lite.Prelude.Bytes.{
  Memory, update, read, write, write_below, write_above, length-read, get16, bytes16,
}
use adapto_lite.NetRaw.{
  Err, frame_len, frame_csum, checksum, good, dg_check, sealed, sent_len, ethernet_send_raw, output,
}
use adapto_lite.NetRaw.Checksum.{sum16_congr, checksum-sum16, dg_check-good}

-- The byte `i` of a copy.
pub write-read : (m k : Memory) (a b n i : ℕ) → i < n → write k b (read m a n) (b + i) ≡ m (a + i)
unfolding write read
write-read m k a b zero i h = absurd (omega arith)
write-read m k a b (suc n) zero h =
    let p : b + 0 ≡ b = omega arith in
    let q : a + 0 ≡ a = omega arith in
    rw (p, q)
      (write_below (update k b (m a)) (b + 1) (read m (a + 1) n) b (omega arith) ∙ ground arith)
write-read m k a b (suc n) (suc i) h =
    let p : b + suc i ≡ b + 1 + i = omega arith in
    let q : a + suc i ≡ a + 1 + i = omega arith in
    rw (p, q) (write-read m (update k b (m a)) (a + 1) (b + 1) n i (omega arith))

-- The `size` bytes at `b` of `k` are those at `a` of `m`.
unfoldable pub Copies : Memory → ℕ → Memory → ℕ → ℕ → Type 0
Copies k b m a size = (i : ℕ) → i < size → k (b + i) ≡ m (a + i)

pub Copies-get16 :
    (k : Memory) (b : ℕ) (m : Memory) (a size i : ℕ)
    → Copies k b m a size
    → i + 1 < size
    → get16 k (b + i) ≡ get16 m (a + i)
unfolding Copies
Copies-get16 k b m a size i c h =
    let p : b + (i + 1) ≡ b + i + 1 = omega arith in
    let q : a + (i + 1) ≡ a + i + 1 = omega arith in
    let high : k (b + i + 1) ≡ m (a + i + 1) = ap k (sym p) ∙ c (i + 1) h ∙ ap m q in
    omega (arith, high, c i (omega (arith, h)))

-- What the driver gets of the frame.
abbrev pub frame_bytes : List ℕ → Memory → ℕ → List ℕ
frame_bytes hwaddr m a = read (sealed hwaddr m a) a (sent_len (frame_len m a))

pub frame_bytes-Copies :
    (hwaddr : List ℕ) (m k : Memory) (a b : ℕ)
    → Copies
        (write k b (frame_bytes hwaddr m a))
        b
        (sealed hwaddr m a)
        a
        (length (frame_bytes hwaddr m a))
unfolding Copies
frame_bytes-Copies hwaddr m k a b =
    rw (length-read (sealed hwaddr m a) a (sent_len (frame_len m a)))
      (write-read (sealed hwaddr m a) k a b (sent_len (frame_len m a)))

pub frame_bytes_long :
    (hwaddr : List ℕ) (m : Memory) (a : ℕ)
    → frame_len m a ≤ 1482
    → frame_len m a + 18 ≤ length (frame_bytes hwaddr m a)
unfolding sent_len
frame_bytes_long hwaddr m a small =
    rw (length-read (sealed hwaddr m a) a (sent_len (frame_len m a))) (ground (arith, small))

module _ (hwaddr : List ℕ) (six : length hwaddr ≡ 6) where
  -- The checksum and the source address are all that changes.
  pub sealed_other :
      (m : Memory) (a b : ℕ)
      → (b < a + 6) ⊎ (((a + 12 ≤ b) × (b < a + 14)) ⊎ (a + 16 ≤ b))
      → sealed hwaddr m a b ≡ m b
  unfolding sealed
  sealed_other m a b (inl h) =
      write_below _ (a + 6) hwaddr b h ∙ write_below m (a + 14) _ b (omega arith)
  sealed_other m a b (inr (inl h)) =
      write_above _ (a + 6) hwaddr b (omega (arith, six, h.0)) ∙ write_below m (a + 14) _ b h.1
  sealed_other m a b (inr (inr h)) =
      write_above _ (a + 6) hwaddr b (omega (arith, six, h))
      ∙ write_above m (a + 14) _ b (omega (arith, h))

  pub sealed-csum :
      (m : Memory) (a : ℕ) → frame_csum (sealed hwaddr m a) a ≡ checksum m a (frame_len m a)
  unfolding sealed write
  sealed-csum m a =
      let sum : ℕ = checksum m a (frame_len m a) in
      let k : Memory = write m (a + 14) (bytes16 sum) in
      let low = write_above k (a + 6) hwaddr (a + 14) (omega (arith, six)) in
      let high = write_above k (a + 6) hwaddr (a + 14 + 1) (omega (arith, six)) in
      ground (arith, low, high)

  pub sealed-checksum :
      (m : Memory) (a b n : ℕ) (k : Memory)
      → ((i : ℕ) → i < n → k (b + 18 + i) ≡ sealed hwaddr m a (a + 18 + i))
      → checksum k b n ≡ checksum m a n
  sealed-checksum m a b n k h =
      checksum-sum16 k b n
      ∙ ap (λ (x : ℕ). (9029 + n + x) % 65536)
          (sum16_congr k m (b + 18) (a + 18) n
            (λ i l. h i l ∙ sealed_other m a (a + 18 + i) (inr (inr (omega arith)))))
      ∙ sym (checksum-sum16 m a n)

  -- What is a copy of a frame that was sent passes the check.
  pub Copies-dg_check :
      (m k : Memory) (a b size : ℕ)
      → Copies k b (sealed hwaddr m a) a size
      → frame_len m a + 18 ≤ size
      → dg_check k b size ≡ good
  unfolding Copies
  Copies-dg_check m k a b size c long =
      let n : ℕ = frame_len m a in
      let s : Memory = sealed hwaddr m a in
      let len0 : frame_len s a ≡ n = len_same m a in
      let len : frame_len k b ≡ n = Copies-get16 k b s a size 16 c (omega (arith, long)) ∙ len0 in
      let sum : frame_csum k b ≡ checksum m a n =
        Copies-get16 k b s a size 14 c (omega (arith, long)) ∙ sealed-csum m a in
      dg_check-good k b size (omega (arith, len, long))
        (sum ∙ sym (sealed-checksum m a b n k (payload n s long c)) ∙ ap (checksum k b) (sym len))
    where
      len_same : (m : Memory) (a : ℕ) → frame_len (sealed hwaddr m a) a ≡ frame_len m a
      len_same m a = omega (
        arith,
        sealed_other m a (a + 16) (inr (inr (omega arith))),
        sealed_other m a (a + 16 + 1) (inr (inr (omega arith))),
      )

      payload :
          (n : ℕ) (s : Memory)
          → n + 18 ≤ size
          → Copies k b s a size
          → (i : ℕ) → i < n
          → k (b + 18 + i) ≡ s (a + 18 + i)
      payload n s l c i h =
          let p : b + (18 + i) ≡ b + 18 + i = omega arith in
          let q : a + (18 + i) ≡ a + 18 + i = omega arith in
          ap k (sym p) ∙ c (18 + i) (omega (arith, l, h)) ∙ ap s q

  -- Whatever the payload of at most 1482 bytes, the driver gets the bytes of the frame, and they
  -- pass the check of a receiver, wherever it stores them; the driver's result is the result.
  pub ethernet_send_raw-dg_check {ℓ} :
      {S : Type ℓ} (link : List ℕ → S → Err × S) (s : S) (m k : Memory) (a b : ℕ)
      → frame_len m a ≤ 1482
      → (ethernet_send_raw (some link) hwaddr m a s ≡ (
        (link (frame_bytes hwaddr m a) s).0,
        (sealed hwaddr m a, (link (frame_bytes hwaddr m a) s).1),
      ))
        × (dg_check (write k b (frame_bytes hwaddr m a)) b (length (frame_bytes hwaddr m a)) ≡ good)
  unfolding ethernet_send_raw output
  ethernet_send_raw-dg_check link s m k a b small = (
    refl,
    Copies-dg_check m (write k b (frame_bytes hwaddr m a)) a b (length (frame_bytes hwaddr m a))
        (frame_bytes-Copies hwaddr m k a b) (frame_bytes_long hwaddr m a small),
  )
