-- ===== src/LwipIf.antt =====
-- app/src/main/cpp/lwip/eth_router_if_lwip.c: lwIP's interface of the bridge. lwIP's chains of
-- fragments are lists; what its input function returns is an argument.
pub mod Output
pub mod Sent
pub mod Init
mod Tests
use adapto_lite.Prelude.{
  ℕ, zero, suc, ◌+◌, Option, none, some, List, [], ◌∷◌, Bool, true, false, not, ltb, leb, ◌==◌,
  if◌then◌else◌, inc32, length, has_bit,
}
use adapto_lite.Prelude.Bytes.{Memory, write, update}
use adapto_lite.Xlib.{NHandle, t_notify_add, t_notify_wait}
use adapto_lite.EthMem.State.{
  Run, done, em_assert, bad_access, out_of_fuel, ◌>>=◌, EthMem, EthPbuf, EthNetif, set_pbuf,
  set_netif, Callback, lwip_callback_from_bridge, eth_mem_buf_size, lwip_netif_id,
}
use adapto_lite.EthMem.Pbufs.{eth_pbuf_alloc, eth_pbuf_free_request}
use adapto_lite.EthMem.Queues.{eth_add_packet_to_router_queue, eth_get_packet}

-- The bridge with the static variables of the file.
pub record LwipIf : Type 0 where
  pub mem : EthMem
  pub in_too_big : ℕ
  pub in_alloc_errs : ℕ
  pub block_to_send : Option ℕ
  pub task : NHandle
  pub hwaddr : List ℕ

-- The loop over the fragments: what is copied to `dst`, with `ptr` bytes there so far, or `none` where a
-- fragment does not fit.
unfoldable pub copy_frags : Memory → ℕ → ℕ → List (List ℕ) → Option ℕ × Memory
copy_frags m dst ptr [] = (some ptr, m)
copy_frags m dst ptr (f ∷ fs) =
    let rest = copy_frags (write m (dst + ptr) f) dst (ptr + length f) fs in
    if leb (length f + ptr) eth_mem_buf_size then rest else (none, m)

-- The buffer `p` with the frame of `n` bytes: the interface's own address replaces the source's.
unfoldable pub finish_block : EthMem → List ℕ → ℕ → ℕ → EthMem
finish_block m hwaddr p n =
    let b : EthPbuf = m.pbuf p in
    let m1 : EthMem = set_pbuf m p (record b { len = n; tot_len = n; if_idx = lwip_netif_id }) in
    record m1 { bytes = write m1.bytes (b.payload + 6) hwaddr }

count_too_big : LwipIf → LwipIf
count_too_big s = record s { in_too_big = inc32 s.in_too_big }

-- The result of the loop is used.
unfoldable pub after_copy : LwipIf → ℕ → Option ℕ × Memory → Run LwipIf
unfolding count_too_big
after_copy s p (none, bytes) = eth_pbuf_free_request (record (s.mem) { bytes = bytes }) p >>= λ m.
    done (count_too_big (record s { mem = m }))
after_copy s p (some n, bytes) =
    eth_add_packet_to_router_queue (finish_block (record (s.mem) { bytes = bytes }) s.hwaddr p n) p
    >>= λ m. done (record s { mem = m })

-- `lwip_output_to_bridge`, of a chain of the length `tot_len`; its result is always ERR_OK.
unfoldable pub lwip_output_to_bridge : LwipIf → ℕ → List (List ℕ) → Run LwipIf
unfolding count_too_big
lwip_output_to_bridge s tot_len frags =
    if ltb eth_mem_buf_size tot_len
    then done (count_too_big s)
    else eth_pbuf_alloc s.mem none >>= λ (p?, m). elim p? [
      | none ↦ done (record s { mem = m; in_alloc_errs = inc32 s.in_alloc_errs })
      | some p ↦ after_copy (record s { mem = m }) p (copy_frags m.bytes (m.pbuf p).payload 0 frags)
    ]

-- The callback of the bridge for a packet while the task waits.
unfoldable pub lwip_callback : LwipIf → ℕ → LwipIf
lwip_callback s p = record s { block_to_send = some p; task = t_notify_add s.task 1 }

-- `input` tells for a packet whether lwIP takes it: only then it frees the packet itself.
give_to_lwip : (EthMem → ℕ → Bool × EthMem) → EthMem → ℕ → Run EthMem
give_to_lwip input m p =
    let (ok, m1) = input m p in if ok then done m1 else eth_pbuf_free_request m1 p

-- The loop of `to_lwip_QueueTask` for packets, on `fuel`. The loop `while(1)` at a free packet is
-- `em_assert 0`.
unfoldable pub send_blocks : (EthMem → ℕ → Bool × EthMem) → ℕ → LwipIf → ℕ → Run LwipIf
unfolding give_to_lwip
send_blocks input zero s p = out_of_fuel
send_blocks input (suc fuel) s p =
    if (s.mem.pbuf p).ref == 0
    then em_assert 0
    else give_to_lwip input s.mem p >>= λ m1. eth_get_packet m1 lwip_netif_id >>= λ (q?, m2).
        elim q? [
          | none ↦ done (record s { mem = m2; block_to_send = none })
          | some q ↦ send_blocks input fuel (record s { mem = m2; block_to_send = some q }) q
        ]

-- One round of the task: the timers, which are lwIP's, and the packets. `none` while it waits.
unfoldable pub to_lwip_round : (EthMem → ℕ → Bool × EthMem) → ℕ → LwipIf → Option (Run LwipIf)
to_lwip_round input fuel s = elim (t_notify_wait s.task) [
  | none ↦ none
  | some (res, task) ↦
      let s1 : LwipIf = record s { task = task } in
      some (
        if has_bit res 0
        then elim s1.block_to_send [ none ↦ bad_access | some p ↦ send_blocks input fuel s1 p ]
        else done s1)
]

-- The timer's notification.
unfoldable pub to_lwip_tmr : LwipIf → LwipIf
to_lwip_tmr s = record s { task = t_notify_add s.task 2 }
