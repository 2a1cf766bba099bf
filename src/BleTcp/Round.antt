-- ===== src/BleTcp/Round.antt =====
-- app/src/main/cpp/ble_tcp.c: what a round of the sending task gives to the driver.
use adapto_lite.Prelude.{
  ◌==◌, false, ℕ, suc, ◌+◌, ◌*◌, ◌/◌, ◌%◌, ◌≡◌, ◌≢◌, refl, ap, ap₂, ◌∙◌, List, [], ◌∷◌, ◌++◌,
  low_bits, arith,
}
use adapto_lite.Prelude.Bytes.{Memory, update, read, read_congr}
use adapto_lite.BleTcp.{BleTcp, header, send_block, ble_gatt_trysend}

-- The block for a chunk of `n` bytes behind its type: the acknowledgement, the number of the
-- chunk below the two bits of the type, and the bytes.
abbrev pub block : BleTcp → ℕ → List ℕ
block b n =
    b.rx_nack_blk ∷ (low_bits b.tx_index_blk 6 + b.snd_blk 1 / 64 % 4 * 64) ∷ read b.snd_blk 2 n

pub nonempty : (n : ℕ) → (suc (suc n) == 0) ≡ false
nonempty n = ground arith

unfoldable pub tagged : BleTcp → Memory
tagged b =
    update (update b.snd_blk 0 b.rx_nack_blk) 1
      (low_bits b.tx_index_blk 6 + b.snd_blk 1 / 64 % 4 * 64)

pub read-tagged : (b : BleTcp) (n : ℕ) → read (tagged b) 0 (suc (suc n)) ≡ block b n
unfolding tagged read
read-tagged b n =
    ap (λ (l : List ℕ). b.rx_nack_blk ∷ (low_bits b.tx_index_blk 6 + b.snd_blk 1 / 64 % 4 * 64) ∷ l)
      (read_congr (tagged b) b.snd_blk 2 n (λ a p q. ground arith))

-- A block that the driver refused.
refused : BleTcp → BleTcp
refused b = record b { snd_blk = tagged b; ble_tx_busy = 0 }

block-refused : (b : BleTcp) (n : ℕ) → block (refused b) n ≡ block b n
unfolding refused tagged
block-refused b n =
    ap₂ (λ (x : ℕ) (l : List ℕ). b.rx_nack_blk ∷ (low_bits b.tx_index_blk 6 + x) ∷ l) (omega arith)
      (read_congr (tagged b) b.snd_blk 2 n (λ a p q. ground arith))

not_one : (x : ℕ) → x ≢ 1 → (x == 1) ≡ false
not_one x h = ground (arith, h)

send_block-refused :
    (bt_send : List ℕ → ℕ) (b : BleTcp) (n : ℕ)
    → b.snd_blk_len ≡ suc (suc n)
    → b.ble_tx_busy ≡ 0
    → ((x : List ℕ) → bt_send x ≢ 1)
    → send_block bt_send 2 b ≡ refused b
unfolding send_block ble_gatt_trysend refused tagged header
send_block-refused bt_send b n l idle no_send =
    rw (l, idle, nonempty n, not_one _ (no_send (read (tagged b) 0 (suc (suc n))))) refl

send_block-taken :
    (bt_send : List ℕ → ℕ) (b : BleTcp) (n : ℕ)
    → b.snd_blk_len ≡ suc (suc n)
    → b.ble_tx_busy ≡ 0
    → ((x : List ℕ) → bt_send x ≡ 1)
    → ((send_block bt_send 2 b).sent ≡ b.sent ++ block b n ∷ [])
      × ((send_block bt_send 2 b).snd_blk_len ≡ 0)
      × ((send_block bt_send 2 b).tx_index_blk ≡ low_bits (b.tx_index_blk + 1) 6)
      × ((send_block bt_send 2 b).ack_sent_value ≡ b.rx_nack_blk)
unfolding send_block ble_gatt_trysend tagged header
send_block-taken bt_send b n l idle all =
    rw (l, idle, nonempty n, all (read (tagged b) 0 (suc (suc n))))
      (ap (λ (x : List ℕ). b.sent ++ x ∷ []) (read-tagged b n), refl, refl, refl)

-- On an open connection a block that the driver first refuses and then takes is not lost: it is sent
-- once, with the acknowledgement, the chunk's number and the type and bytes of the chunk, and only
-- then the buffer is empty and the number counted on.
pub send_block-retry :
    (refuse take : List ℕ → ℕ) (b : BleTcp) (n : ℕ)
    → b.snd_blk_len ≡ suc (suc n)
    → b.ble_tx_busy ≡ 0
    → ((x : List ℕ) → refuse x ≢ 1)
    → ((x : List ℕ) → take x ≡ 1)
    → ((send_block refuse 2 b).sent ≡ b.sent)
      × ((send_block refuse 2 b).snd_blk_len ≡ suc (suc n))
      × ((send_block take 2 (send_block refuse 2 b)).sent ≡ b.sent ++ block b n ∷ [])
      × ((send_block take 2 (send_block refuse 2 b)).snd_blk_len ≡ 0)
      × ((send_block take 2 (send_block refuse 2 b)).tx_index_blk ≡ low_bits (b.tx_index_blk + 1) 6)
unfolding refused
send_block-retry refuse take b n l idle no_send all =
    let taken = send_block-taken take (refused b) n l refl all in
    rw (send_block-refused refuse b n l idle no_send) (
      refl,
      l,
      taken.0 ∙ ap (λ (x : List ℕ). b.sent ++ x ∷ []) (block-refused b n),
      taken.1,
      taken.2,
    )
