-- ===== src/BleTcp/Down.antt =====
-- app/src/main/cpp/ble_tcp.c, `ble_gatt_trysend`: without an open connection nothing is sent.
use adapto_lite.Prelude.{
  ℕ, ◌≡◌, refl, ap, ◌∙◌, List, false, not, ◌&&◌, ◌||◌, ◌==◌, Bool-cases, inl, inr,
}
use adapto_lite.EthMem.State.{done}
use adapto_lite.BleTcp.{BleTcp, task_step, send_block, send_data, ble_gatt_trysend}
use adapto_lite.BleTcp.Cases.{task_step-Rounded}

module _ (send : List ℕ → ℕ) (status : ℕ) (down : (status == 2) ≡ false) where
  send_data-down : (b : BleTcp) (len : ℕ) → (send_data send status b len).sent ≡ b.sent
  unfolding send_data ble_gatt_trysend
  send_data-down b len = rw down refl

  send_block-down : (b : BleTcp) → (send_block send status b).sent ≡ b.sent
  unfolding send_block
  send_block-down b =
      elim (Bool-cases (
        not (b.snd_blk_len == 0)
        || not (b.ack_notify_request == 0) && not (b.ack_sent_value == b.rx_nack_blk))) [
          | inl e ↦ rw e (send_data-down b _)
          | inr e ↦ rw e refl
        ]

  pub task_step-down :
      (b : BleTcp) {b' : BleTcp} → task_step send status b ≡ done b' → b'.sent ≡ b.sent
  task_step-down b e =
      let r = task_step-Rounded send status b e in
      elim r.cases [
        | inl s ↦ ap (λ (y : BleTcp). y.sent) s ∙ r.sent
        | inr s ↦ ap (λ (y : BleTcp). y.sent) s ∙ send_block-down r.loaded ∙ r.sent
      ]
