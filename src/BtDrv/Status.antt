-- ===== src/BtDrv/Status.antt =====
-- app/src/main/cpp/bt_drv.c, `status_thread`: the speeds that the Java service shows, from a ring of 16
-- samples.
use adapto_lite.Prelude.{
  ℕ, zero, suc, ◌+◌, ◌-◌, ◌*◌, ◌/◌, ◌%◌, ◌^◌, ◌<◌, ◌≡◌, ◌≢◌, refl, sym, ap, ◌∙◌, Option, none, some,
  List, ◌∷◌, true, false, ◌==◌, if◌then◌else◌, sub32, length, get_or, arith,
}
use adapto_lite.Prelude.Bytes.{update}

-- `tx_hist`, `rx_hist`, `htime` and `histptr`.
pub record History : Type 0 where
  pub tx_hist : ℕ → ℕ
  pub rx_hist : ℕ → ℕ
  pub htime : ℕ → ℕ
  pub histptr : ℕ

-- The counters of bytes and the clock.
pub record Sample : Type 0 where
  pub tx : ℕ
  pub rx : ℕ
  pub now : ℕ

-- (x - old) * 1000 / (now - before) on uint32_t; `none` is the division by zero.
unfoldable pub speed : ℕ → ℕ → ℕ → ℕ → Option ℕ
speed x old now before =
    if sub32 now before == 0 then none else some (sub32 x old * 1000 % 2 ^ 32 / sub32 now before)

-- One round: the new history, and the speeds of sending and receiving.
unfoldable pub status_round : History → Sample → History × Option ℕ × Option ℕ
unfolding speed
status_round h s =
    let p : ℕ = h.histptr % 16 in
    let tx_hist = update h.tx_hist p s.tx in
    let rx_hist = update h.rx_hist p s.rx in
    let htime = update h.htime p s.now in
    let old : ℕ = (p + 6) % 16 in
    (
      record { tx_hist = tx_hist; rx_hist = rx_hist; htime = htime; histptr = (p + 1) % 16 },
      speed (tx_hist p) (tx_hist old) (htime p) (htime old),
      speed (rx_hist p) (rx_hist old) (htime p) (htime old),
    )

-- A place of the ring holds a sample.
pub record At (h : History) (i : ℕ) (s : Sample) : Type 0 where
  pub tx : h.tx_hist i ≡ s.tx
  pub rx : h.rx_hist i ≡ s.rx
  pub now : h.htime i ≡ s.now

abbrev pub no_sample : Sample
no_sample = record { tx = 0; rx = 0; now = 0 }

-- The ring holds the last 16 of the samples `l`, the newest of which comes first.
pub record Recorded (h : History) (l : List Sample) : Type 0 where
  pub ptr : h.histptr < 16
  pub at : (d : ℕ) → d < 16 → d < length l → At h ((h.histptr + 15 - d) % 16) (get_or l d no_sample)

At-update :
    (h : History) (p i v w x k : ℕ) (s : Sample)
    → p ≢ i
    → At h i s
    → At
        (record {
          tx_hist = update h.tx_hist p v;
          rx_hist = update h.rx_hist p w;
          htime = update h.htime p x;
          histptr = k;
        })
        i
        s
At-update h p i v w x k s ne a = record {
  tx = ground (arith, ne, a.tx);
  rx = ground (arith, ne, a.rx);
  now = ground (arith, ne, a.now);
}

pub status_round-Recorded :
    (h : History) (s : Sample) (l : List Sample)
    → Recorded h l
    → Recorded (status_round h s).0 (s ∷ l)
unfolding status_round
status_round-Recorded h s l r = record { ptr = omega arith; at = places }
  where
    places :
        (d : ℕ)
        → d < 16
        → d < length (s ∷ l)
        → At
            (status_round h s).0
            (((status_round h s).0.histptr + 15 - d) % 16)
            (get_or (s ∷ l) d no_sample)
    places zero a b =
        let e : ((h.histptr % 16 + 1) % 16 + 15 - 0) % 16 ≡ h.histptr % 16 = omega arith in
        rw e (record { tx = ground arith; rx = ground arith; now = ground arith })
    places (suc d) a b =
        let e : ((h.histptr % 16 + 1) % 16 + 15 - suc d) % 16 ≡ (h.histptr + 15 - d) % 16 =
          omega (arith, r.ptr, a) in
        rw e (
          At-update h (h.histptr % 16) ((h.histptr + 15 - d) % 16) s.tx s.rx s.now
            ((h.histptr % 16 + 1) % 16) (get_or l d no_sample) (λ z. omega (arith, r.ptr, a, z))
            (r.at d (omega (arith, a)) (omega (arith, b))))

-- The speed from two places of an array, of which one was just written.
speed-update :
    (f g : ℕ → ℕ) (p i x now old before : ℕ)
    → p ≢ i
    → f i ≡ old
    → g i ≡ before
    → sub32 now before ≢ 0
    → speed (update f p x p) (update f p x i) (update g p now p) (update g p now i)
      ≡ some (sub32 x old * 1000 % 2 ^ 32 / sub32 now before)
unfolding speed
speed-update f g p i x now old before ne a b moved =
    let self : (p == p) ≡ true = ground arith in
    let other : (p == i) ≡ false = ground (arith, ne) in
    let z : (sub32 now before == 0) ≡ false = ground (arith, moved) in
    rw (self, other, a, b, z) refl

-- Where the ring records the samples `l`, at least ten, a round records the new one in front, and the
-- speeds that it shows are those since the tenth of `l`: the bytes counted since then, times 1000, over the
-- milliseconds passed (all on 32 bits), as long as some have passed.
pub status_round-speeds :
    (h : History) (s : Sample) (l : List Sample)
    → Recorded h l
    → 9 < length l
    → sub32 s.now (get_or l 9 no_sample).now ≢ 0
    → Recorded (status_round h s).0 (s ∷ l)
      × ((status_round h s).1
          ≡ some (
              sub32 s.tx (get_or l 9 no_sample).tx
              * 1000
              % 2 ^ 32
              / sub32 s.now (get_or l 9 no_sample).now))
      × ((status_round h s).2
          ≡ some (
              sub32 s.rx (get_or l 9 no_sample).rx
              * 1000
              % 2 ^ 32
              / sub32 s.now (get_or l 9 no_sample).now))
unfolding status_round
status_round-speeds h s l r long moved =
    let a = r.at 9 (omega arith) long in
    let place : (h.histptr + 15 - 9) % 16 ≡ (h.histptr % 16 + 6) % 16 = omega (arith, r.ptr) in
    let apart : h.histptr % 16 ≢ (h.histptr % 16 + 6) % 16 = λ z. omega (arith, z) in
    let old = get_or l 9 no_sample in
    let p : ℕ = h.histptr % 16 in
    (
      status_round-Recorded h s l r,
      speed-update h.tx_hist h.htime p ((p + 6) % 16) s.tx s.now old.tx old.now apart
          (ap h.tx_hist (sym place) ∙ a.tx) (ap h.htime (sym place) ∙ a.now) moved,
      speed-update h.rx_hist h.htime p ((p + 6) % 16) s.rx s.now old.rx old.now apart
          (ap h.rx_hist (sym place) ∙ a.rx) (ap h.htime (sym place) ∙ a.now) moved,
    )
