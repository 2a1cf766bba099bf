-- ===== src/BleTcp/Acks.antt =====
-- app/src/main/cpp/ble_tcp.c: the acknowledgements that the blocks of one end carry.
use adapto_lite.Prelude.{
  inl, inr, ◌∙◌, ℕ, zero, suc, ◌≡◌, inl, inr, refl, List, [], ◌∷◌, Bool, true, false, arith, ◌==◌,
  Bool-cases, All, if◌then◌else◌, not, ◌&&◌, ◌||◌, All-append,
}
use adapto_lite.Prelude.Bytes.{read}
use adapto_lite.EthMem.State.{done}
use adapto_lite.BleTcp.Cases.{ack_of, task_step-Rounded, process_gatt_data-Arrived}
use adapto_lite.BleTcp.{
  BleTcp, gatt_conn_reset, process_gatt_data, next_chunk_avail, ble_tx_complete, tcp_tmr, task_step,
  send_block, send_data, ble_gatt_trysend, header, after_send, SendResult,
}

-- The block begins with the acknowledgement 1.
abbrev pub HasAckOne : List ℕ → Type 0
HasAckOne [] = Unit {0}
HasAckOne (x ∷ xs) = x ≡ 1

-- What an end may do by itself: its task takes a round, and callbacks and timers come in.
pub data Acts (bt_send : List ℕ → ℕ) (status : ℕ) : BleTcp → BleTcp → Type 0 where
  task :
      (b : BleTcp) {b' : BleTcp} → task_step bt_send status b ≡ done b' → Acts bt_send status b b'
  complete : (b : BleTcp) → Acts bt_send status b (ble_tx_complete b)
  timer : (b : BleTcp) → Acts bt_send status b (tcp_tmr b)
  avail : (b : BleTcp) → Acts bt_send status b (next_chunk_avail b)
  reset : (b : BleTcp) → Acts bt_send status b (gatt_conn_reset b)

-- An end acknowledges the block 1, and all that it sent does.
pub record SendsOne (b : BleTcp) : Type 0 where
  pub nack : b.rx_nack_blk ≡ 1
  pub sent : All HasAckOne b.sent

ble_gatt_trysend-SendsOne :
    (bt_send : List ℕ → ℕ) (status : ℕ) (b : BleTcp) (c : List ℕ)
    → SendsOne b
    → HasAckOne c
    → SendsOne (ble_gatt_trysend bt_send status b c).1
unfolding ble_gatt_trysend
ble_gatt_trysend-SendsOne bt_send status b c h o = elim (Bool-cases (status == 2)) [
  | inr e ↦ rw e h
  | inl e ↦ elim (Bool-cases (b.ble_tx_busy == 0)) [
    | inr e1 ↦ rw (e, e1) h
    | inl e1 ↦ elim (Bool-cases (bt_send c == 1)) [
      | inr e2 ↦ rw (e, e1, e2) (record { nack = h.nack; sent = h.sent })
      | inl e2 ↦
          rw (e, e1, e2)
            (record { nack = h.nack; sent = All-append HasAckOne b.sent (c ∷ []) h.sent (o, tt) })
    ]
  ]
]

after_send-SendsOne :
    (len : ℕ) (r : SendResult) (b : BleTcp) → SendsOne b → SendsOne (after_send len (r, b))
unfolding after_send
after_send-SendsOne len SendResult.block_sent b h = record { nack = h.nack; sent = h.sent }
after_send-SendsOne len SendResult.not_ready b h = h
after_send-SendsOne len SendResult.tx_busy b h = h
after_send-SendsOne len SendResult.tx_failed b h = h

header-first : (b : BleTcp) (n : ℕ) → b.rx_nack_blk ≡ 1 → header b n 0 ≡ 1
unfolding header
header-first b n h = ground arith

read-HasAckOne : (f : ℕ → ℕ) (n : ℕ) → f 0 ≡ 1 → HasAckOne (read f 0 n)
unfolding read
read-HasAckOne f zero h = tt
read-HasAckOne f (suc n) h = h

send_data-SendsOne :
    (bt_send : List ℕ → ℕ) (status : ℕ) (b : BleTcp) (len : ℕ)
    → SendsOne b
    → SendsOne (send_data bt_send status b len)
unfolding send_data
send_data-SendsOne bt_send status b len h =
    let b1 : BleTcp = record b { snd_blk = header b b.snd_blk_len } in
    let c = read b1.snd_blk 0 len in
    let r = ble_gatt_trysend bt_send status b1 c in
    after_send-SendsOne len r.0 r.1 (
      ble_gatt_trysend-SendsOne bt_send status b1 c (record { nack = h.nack; sent = h.sent })
        (read-HasAckOne b1.snd_blk len (header-first b b.snd_blk_len h.nack)))

if-SendsOne : (t : Bool) (x y : BleTcp) → SendsOne x → SendsOne y → SendsOne (if t then x else y)
if-SendsOne true x y h k = h
if-SendsOne false x y h k = k

send_block-SendsOne :
    (bt_send : List ℕ → ℕ) (status : ℕ) (b : BleTcp)
    → SendsOne b
    → SendsOne (send_block bt_send status b)
unfolding send_block
send_block-SendsOne bt_send status b h =
    if-SendsOne
      (not (b.snd_blk_len == 0)
        || not (b.ack_notify_request == 0) && not (b.ack_sent_value == b.rx_nack_blk))
      (send_data bt_send status b (if b.snd_blk_len == 0 then 1 else b.snd_blk_len)) b
      (send_data-SendsOne bt_send status b (if b.snd_blk_len == 0 then 1 else b.snd_blk_len) h) h

task_step-SendsOne :
    (bt_send : List ℕ → ℕ) (status : ℕ) (b : BleTcp) {b' : BleTcp}
    → SendsOne b
    → task_step bt_send status b ≡ done b'
    → SendsOne b'
task_step-SendsOne bt_send status b h e =
    let r = task_step-Rounded bt_send status b e in
    let l : SendsOne r.loaded = record { nack = r.nack ∙ h.nack; sent = rw r.sent h.sent } in
    elim r.cases [ inl s ↦ rw s l | inr s ↦ rw s (send_block-SendsOne bt_send status r.loaded l) ]

pub Acts-SendsOne :
    {bt_send : List ℕ → ℕ} {status : ℕ} {b b' : BleTcp}
    → Acts bt_send status b b'
    → SendsOne b
    → SendsOne b'
unfolding ble_tx_complete tcp_tmr next_chunk_avail gatt_conn_reset
Acts-SendsOne {bt_send} {status} (task b e) h = task_step-SendsOne bt_send status b h e
Acts-SendsOne (complete b) h = record { nack = h.nack; sent = h.sent }
Acts-SendsOne (timer b) h = record { nack = h.nack; sent = h.sent }
Acts-SendsOne (avail b) h = record { nack = h.nack; sent = h.sent }
Acts-SendsOne (reset b) h = record { nack = refl; sent = h.sent }

ack_of-one : (c : List ℕ) (b : BleTcp) → SendsOne b → HasAckOne c → ack_of b c ≡ 1
ack_of-one [] b h o = h.nack
ack_of-one (x ∷ xs) b h o = omega (arith, o)

pub process_gatt_data-SendsOne :
    (c : List ℕ) (b : BleTcp) {b' : BleTcp}
    → SendsOne b
    → HasAckOne c
    → process_gatt_data b c ≡ done b'
    → SendsOne b'
process_gatt_data-SendsOne c b h o e =
    let a = process_gatt_data-Arrived c b e in
    record { nack = a.nack ∙ ack_of-one c b h o; sent = rw a.sent h.sent }
