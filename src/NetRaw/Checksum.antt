-- ===== src/NetRaw/Checksum.antt =====
-- app/src/main/cpp/lwip/net_raw.c: what the checksum of a frame says about its bytes.
use adapto_lite.Prelude.{
  ℕ, zero, suc, ◌+◌, ◌-◌, ◌*◌, ◌/◌, ◌%◌, ◌≤◌, ◌<◌, ◌≡◌, ◌≢◌, ◌⊎◌, inl, inr, refl, sym, ap, ◌∙◌,
  ◌==◌, if◌then◌else◌, u16, arith,
}
use adapto_lite.Prelude.Bytes.{Memory, update, get16}
use native.Mathlib.Decide.{ℕ_discrete}
use adapto_lite.NetRaw.{frame_len, frame_csum, add_words, checksum, good, bad_sum, dg_check}

-- The sum of the little-endian words of `n` bytes; the last byte of an odd number is a word.
unfoldable pub sum16 : Memory → ℕ → ℕ → ℕ
sum16 m a zero = 0
sum16 m a (suc zero) = m a
sum16 m a (suc (suc n)) = get16 m a + sum16 m (a + 2) n

-- The loop and the last byte.
finish : Memory → ℕ → ℕ → ℕ → ℕ
finish m a len c = if len % 2 == 1 then u16 (c + m (a + (len - 1))) else c

half_step : (n : ℕ) → suc (suc n) / 2 ≡ suc (n / 2)
half_step n = omega arith

finish_step : (m : Memory) (a n c : ℕ) → finish m a (suc (suc n)) c ≡ finish m (a + 2) n c
unfolding finish
finish_step m a zero c = refl
finish_step m a (suc n) c =
    let p : suc (suc (suc n)) % 2 ≡ suc n % 2 = omega arith in
    let q : a + (suc (suc (suc n)) - 1) ≡ a + 2 + (suc n - 1) = omega arith in rw (p, q) refl

finish-add_words :
    (m : Memory) (a len cs : ℕ)
    → cs < 65536
    → finish m a len (add_words m a (len / 2) cs) ≡ (cs + sum16 m a len) % 65536
unfolding sum16 finish add_words
finish-add_words m a zero cs h = omega (arith, h)
finish-add_words m a (suc zero) cs h = by_one a
  where
    by_one : (a : ℕ) → (cs + m (a + 0)) % 65536 ≡ (cs + m a) % 65536
    by_one a = let e : a + 0 ≡ a = omega arith in rw e refl
finish-add_words m a (suc (suc n)) cs h =
    let next : ℕ = u16 (cs + get16 m a) in
    ap (λ (k : ℕ). finish m a (suc (suc n)) (add_words m a k cs)) (half_step n)
    ∙ finish_step m a n (add_words m (a + 2) (n / 2) next)
    ∙ finish-add_words m (a + 2) n next (omega arith)
    ∙ omega arith

-- The checksum is the sum modulo 2^16.
pub checksum-sum16 :
    (m : Memory) (a len : ℕ) → checksum m a len ≡ (9029 + len + sum16 m (a + 18) len) % 65536
unfolding checksum finish
checksum-sum16 m a len =
    finish-add_words m (a + 18) len (u16 (9029 + len)) (omega arith) ∙ omega arith

pub sum16_congr :
    (m k : Memory) (a b n : ℕ)
    → ((i : ℕ) → i < n → m (a + i) ≡ k (b + i))
    → sum16 m a n ≡ sum16 k b n
unfolding sum16
sum16_congr m k a b zero h = refl
sum16_congr m k a b (suc zero) h =
    let p : a + 0 ≡ a = omega arith in
    let q : b + 0 ≡ b = omega arith in ap m (sym p) ∙ h 0 (omega arith) ∙ ap k q
sum16_congr m k a b (suc (suc n)) h =
    let p : a + 0 ≡ a = omega arith in
    let q : b + 0 ≡ b = omega arith in
    let first : m a ≡ k b = ap m (sym p) ∙ h 0 (omega arith) ∙ ap k q in
    let rest = sum16_congr m k (a + 2) (b + 2) n (shifted m k a b n h) in
    omega (arith, first, h 1 (omega arith), rest)
  where
    shifted :
        (m k : Memory) (a b n : ℕ)
        → ((i : ℕ) → i < suc (suc n) → m (a + i) ≡ k (b + i))
        → (i : ℕ) → i < n
        → m (a + 2 + i) ≡ k (b + 2 + i)
    shifted m k a b n h i l =
        let p : a + 2 + i ≡ a + (i + 2) = omega arith in
        let q : b + 2 + i ≡ b + (i + 2) = omega arith in rw (p, q) (h (i + 2) (omega (arith, l)))

-- A byte before the summed ones.
sum16_below : (m : Memory) (a n b v : ℕ) → b < a → sum16 (update m b v) a n ≡ sum16 m a n
sum16_below m a n b v h = sum16_congr (update m b v) m a a n (λ i l. ground (arith, h))

-- One byte replaced changes the sum by the bytes' difference, or by 256 times that.
Moves : Memory → ℕ → ℕ → ℕ → ℕ → Type 0
Moves m a n b v =
    (sum16 (update m b v) a n + m b ≡ sum16 m a n + v)
    ⊎ (sum16 (update m b v) a n + 256 * m b ≡ sum16 m a n + 256 * v)

sum16_update : (m : Memory) (a n b v : ℕ) → a ≤ b → b < a + n → Moves m a n b v
unfolding sum16 Moves
sum16_update m a zero b v h l = absurd (omega arith)
sum16_update m a (suc zero) b v h l = let e : b ≡ a = omega (arith, h, l) in inl (ground (arith, e))
sum16_update m a (suc (suc n)) b v h l = elim (ℕ_discrete b a) [
  | yes e ↦ inl (ground (arith, e, sum16_below m (a + 2) n b v (omega arith)))
  | no e ↦ elim (ℕ_discrete b (a + 1)) [
    | yes f ↦ inr (ground (arith, f, sum16_below m (a + 2) n b v (omega arith)))
    | no f ↦ elim (sum16_update m (a + 2) n b v (omega (arith, h, e, f)) (omega (arith, l))) [
      | inl x ↦ inl (ground (arith, e, f, x))
      | inr x ↦ inr (ground (arith, e, f, x))
    ]
  ]
]

-- A payload with one byte replaced has another checksum.
pub checksum-update :
    (m : Memory) (a len i v : ℕ)
    → i < len
    → m (a + 18 + i) < 256
    → v < 256
    → v ≢ m (a + 18 + i)
    → checksum (update m (a + 18 + i) v) a len ≢ checksum m a len
unfolding Moves
checksum-update m a len i v h l k ne e =
    let b : ℕ = a + 18 + i in
    let same = sym (checksum-sum16 (update m b v) a len) ∙ e ∙ checksum-sum16 m a len in
    elim (sum16_update m (a + 18) len b v (omega arith) (omega (arith, h))) [
      | inl x ↦ omega (arith, same, x, l, k, ne)
      | inr x ↦ omega (arith, same, x, l, k, ne)
    ]

pub dg_check-good :
    (m : Memory) (a len : ℕ)
    → frame_len m a + 18 ≤ len
    → frame_csum m a ≡ checksum m a (frame_len m a)
    → dg_check m a len ≡ good
unfolding dg_check
dg_check-good m a len h e = rw e (ground (arith, h))

-- A frame that passes the check fails it when one byte of its payload is replaced by another.
pub dg_check-corrupted :
    (m : Memory) (a len i v : ℕ)
    → dg_check m a len ≡ good
    → i < frame_len m a
    → m (a + 18 + i) < 256
    → v < 256
    → v ≢ m (a + 18 + i)
    → dg_check (update m (a + 18 + i) v) a len ≡ bad_sum
unfolding dg_check
dg_check-corrupted m a len i v ok h l k ne =
    let differs = checksum-update m a (frame_len m a) i v h l k ne in
    let size : frame_len (update m (a + 18 + i) v) a ≡ frame_len m a = ground arith in
    let sum : frame_csum (update m (a + 18 + i) v) a ≡ frame_csum m a = ground arith in
    rw (size, sum) (ground (arith, ok, differs))
