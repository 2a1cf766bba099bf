-- ===== src/BleTcp/Cases.antt =====
-- app/src/main/cpp/ble_tcp.c: what a round of the task, and data from the link, can change in an end.
use adapto_lite.Prelude.{
  ℕ, ◌≡◌, ◌⊎◌, inl, inr, refl, sym, ap, ◌∙◌, List, [], ◌∷◌, ◌&&◌, ◌||◌, ◌==◌, has_bit, Bool-cases,
  Option-cases, low_bits, inc32, add32, length,
}
use adapto_lite.Xlib.{t_notify_wait, t_notify_add}
use adapto_lite.EthMem.State.{Run, done, em_assert, bad_access, out_of_fuel, ◌>>=◌, done-injective}
use adapto_lite.BleEth.{BleEth, AsmResult, process_dgram_asm, get_next_chunk}
use adapto_lite.BleTcp.{BleTcp, process_gatt_data, task_step, task_round, send_block, load_chunk}

-- `b'` comes from `b`, perhaps with another chunk in its buffer, by sending a block or not.
pub record Rounded (bt_send : List ℕ → ℕ) (status : ℕ) (b b' : BleTcp) : Type 0 where
  pub loaded : BleTcp
  pub nack : loaded.rx_nack_blk ≡ b.rx_nack_blk
  pub sent : loaded.sent ≡ b.sent
  pub cases : (b' ≡ loaded) ⊎ (b' ≡ send_block bt_send status loaded)

-- A chunk that is loaded touches neither.
loaded-Rounded :
    (x : Run (ℕ × (ℕ → ℕ) × BleEth)) (bt_send : List ℕ → ℕ) (status : ℕ) (b : BleTcp) {b' : BleTcp}
    → (x
        >>= (λ (len, blk, eth). done (record b { eth = eth; snd_blk = blk; snd_blk_len = len }))
        >>= λ b1. done (send_block bt_send status b1))
      ≡ done b'
    → Rounded bt_send status b b'
loaded-Rounded (done (len, blk, eth)) bt_send status b e = record {
  loaded = record b { eth = eth; snd_blk = blk; snd_blk_len = len };
  nack = refl;
  sent = refl;
  cases = inr (sym (done-injective e));
}
loaded-Rounded (em_assert n) bt_send status b e = cc
loaded-Rounded bad_access bt_send status b e = cc
loaded-Rounded out_of_fuel bt_send status b e = cc

task_round-Rounded :
    (bt_send : List ℕ → ℕ) (status res : ℕ) (b : BleTcp) {b' : BleTcp}
    → task_round bt_send status res b ≡ done b'
    → Rounded bt_send status b b'
unfolding task_round load_chunk
task_round-Rounded bt_send status res b e =
    elim (Bool-cases
      ((has_bit res 3 || has_bit res 1 || has_bit res 4 || has_bit res 6) && b.ble_tx_busy == 0)) [
        | inr t ↦ record {
          loaded = b;
          nack = refl;
          sent = refl;
          cases = inl (sym (done-injective (rw t at e)));
        }
        | inl t ↦ elim (Bool-cases (b.snd_blk_len == 0)) [
          | inl z ↦
              loaded-Rounded (get_next_chunk b.eth b.snd_blk) bt_send status b (rw (t, z) at e)
          | inr z ↦ record {
            loaded = b;
            nack = refl;
            sent = refl;
            cases = inr (sym (done-injective (rw (t, z) at e)));
          }
        ]
      ]

pub task_step-Rounded :
    (bt_send : List ℕ → ℕ) (status : ℕ) (b : BleTcp) {b' : BleTcp}
    → task_step bt_send status b ≡ done b'
    → Rounded bt_send status b b'
unfolding task_step
task_step-Rounded bt_send status b e = elim (Option-cases (t_notify_wait b.notify)) [
  | inl z ↦ record {
    loaded = b;
    nack = refl;
    sent = refl;
    cases = inl (sym (done-injective (rw (z, task_step) at e)));
  }
  | inr ((res, n), z) ↦
      let r =
        task_round-Rounded bt_send status res (record b { notify = n }) (rw (z, task_step) at e) in
      record { loaded = r.loaded; nack = r.nack; sent = r.sent; cases = r.cases }
]

-- Data from the link set the acknowledgement, and nothing is sent.
pub record Arrived (ack : ℕ) (b b' : BleTcp) : Type 0 where
  pub nack : b'.rx_nack_blk ≡ ack
  pub sent : b'.sent ≡ b.sent

assembled-Arrived :
    (x : Run (AsmResult × BleEth)) (ack : ℕ) (b c : BleTcp) {b' : BleTcp}
    → Arrived ack b c
    → (x >>= λ (r, eth). done (record c { eth = eth })) ≡ done b'
    → Arrived ack b b'
assembled-Arrived (done (r, eth)) ack b c h e =
    let s = done-injective e in
    record {
      nack = ap (λ (y : BleTcp). y.rx_nack_blk) (sym s) ∙ h.nack;
      sent = ap (λ (y : BleTcp). y.sent) (sym s) ∙ h.sent;
    }
assembled-Arrived (em_assert n) ack b c h e = cc
assembled-Arrived bad_access ack b c h e = cc
assembled-Arrived out_of_fuel ack b c h e = cc

-- The acknowledgement of the data `c` that arrive, or the old one where there are none.
abbrev pub ack_of : BleTcp → List ℕ → ℕ
ack_of b [] = b.rx_nack_blk
ack_of b (x ∷ xs) = low_bits x 6

pub process_gatt_data-Arrived :
    (c : List ℕ) (b : BleTcp) {b' : BleTcp}
    → process_gatt_data b c ≡ done b'
    → Arrived (ack_of b c) b b'
unfolding process_gatt_data
process_gatt_data-Arrived [] b e =
    let s = done-injective e in
    record {
      nack = ap (λ (y : BleTcp). y.rx_nack_blk) (sym s);
      sent = ap (λ (y : BleTcp). y.sent) (sym s);
    }
process_gatt_data-Arrived (x ∷ []) b e =
    let s = done-injective e in
    record {
      nack = ap (λ (y : BleTcp). y.rx_nack_blk) (sym s);
      sent = ap (λ (y : BleTcp). y.sent) (sym s);
    }
process_gatt_data-Arrived (x ∷ y ∷ ys) b e =
    assembled-Arrived (process_dgram_asm b.eth (y ∷ ys)) (low_bits x 6) b
      (record b {
        stats = record (b.stats) {
          rx_raw = inc32 b.stats.rx_raw;
          rx_bytes = add32 b.stats.rx_bytes (length (x ∷ y ∷ ys));
        };
        rx_nack_blk = low_bits x 6;
        notify = t_notify_add b.notify 16;
      })
      (record { nack = refl; sent = refl }) e
