-- ===== src/EthMem/Queues.antt =====
-- app/src/main/cpp/eth_mem.c: queue entries, the router's input queue and the output queues of the
-- interfaces.
pub mod Rep
pub mod Entries
pub mod Input
pub mod Output
pub mod Kept
pub mod Entered
mod Tests
use adapto_lite.Prelude.{
  ℕ, suc, ◌+◌, ◌-◌, Option, none, some, Bool, true, false, ltb, leb, ◌==◌, if◌then◌else◌, inc32,
  dec32, u8, not,
}
use adapto_lite.Prelude.Chain.{end_after}
use adapto_lite.EthMem.State.{
  Run, done, em_assert, bad_access, out_of_fuel, ◌>>=◌, EthMem, EthNetif, EthQueue, QueueState,
  st_free, st_allocated, st_in_queue, st_sending, st_free_pending, Callback, netif_callback,
  set_pbuf, set_netif, set_queue, emit, eth_netifs,
}
use adapto_lite.EthMem.Pbufs.{eth_pbuf_free_request, notify_pool}

-- The first free entry leaves the chain.
pub take_entry : EthMem → ℕ → EthMem
take_entry m q =
    let used : ℕ = inc32 m.pool.used in
    let max : ℕ = m.pool.used_max in
    set_queue
      (record m {
        pool = record (m.pool) {
          q_begin = (m.queue q).next;
          used = used;
          used_max = if ltb max used then used else max;
        };
      })
      q (record (m.queue q) { state = st_allocated })

no_entry : EthMem → EthMem
no_entry m = record m {
  pool = record (m.pool) { alloc_fails = inc32 m.pool.alloc_fails };
  stats = record (m.stats) { qpool_alloc_fails = inc32 m.stats.qpool_alloc_fails };
}

unfoldable pub eth_queue_entry_alloc : EthMem → Option ℕ × EthMem
unfolding take_entry no_entry
eth_queue_entry_alloc m = elim m.pool.q_begin [
  | none ↦ (none, no_entry m)
  | some q ↦ (some q, take_entry m q)
]

is_free : QueueState → Bool
is_free st_free = true
is_free _ = false

-- The entry goes back to the head of the chain.
pub put_entry : EthMem → ℕ → EthMem
put_entry m q =
    set_queue (record m { pool = record (m.pool) { q_begin = some q; used = dec32 m.pool.used } }) q
      (record (m.queue q) { state = st_free; next = m.pool.q_begin })

unfoldable pub eth_queue_entry_free : EthMem → ℕ → Run EthMem
unfolding is_free put_entry
eth_queue_entry_free m q = if is_free (m.queue q).state then em_assert 5 else done (put_entry m q)

abbrev pub count_lost : EthMem → ℕ → EthMem
count_lost m i = set_netif m i (record (m.netif i) { dgrams_lost = inc32 (m.netif i).dgrams_lost })

-- A packet that cannot be queued is freed and counted as lost.
drop_packet : EthMem → ℕ → ℕ → Run EthMem
drop_packet m p i = eth_pbuf_free_request m p >>= λ m1. done (count_lost m1 i)

link_input : EthMem → ℕ → Option ℕ → EthMem
link_input m q none = record m { pool = record (m.pool) { q_input_begin = some q } }
link_input m q (some e) = set_queue m e (record (m.queue e) { next = some q })

abbrev notify_router_q_update : ℕ
notify_router_q_update = 16

-- The entry `q` with the packet `p` of the interface `i` goes to the end of the input queue.
enqueue_input : EthMem → ℕ → ℕ → ℕ → EthMem
unfolding link_input
enqueue_input m q p i =
    let m1 = set_queue m q (record { next = none; state = st_in_queue; pbuf = p }) in
    let n : EthNetif = m1.netif i in
    let m2 =
      set_netif m1 i
        (record n { input_queue_len = inc32 n.input_queue_len; dgrams_in = inc32 n.dgrams_in }) in
    let m3 = link_input m2 q m2.pool.q_input_end in
    let used : ℕ = inc32 m3.pool.q_input_used in
    let max : ℕ = m3.pool.q_input_used_max in
    notify_pool
      (record m3 {
        pool = record (m3.pool) {
          q_input_end = some q;
          q_input_used = used;
          q_input_used_max = if ltb max used then used else max;
        };
      })
      notify_router_q_update

unfoldable pub eth_add_packet_to_router_queue : EthMem → ℕ → Run EthMem
unfolding eth_queue_entry_alloc drop_packet enqueue_input
eth_add_packet_to_router_queue m p =
    let i : ℕ = (m.pbuf p).if_idx in
    if (m.pbuf p).ref == 0
    then em_assert 11
    else if leb eth_netifs i
    then em_assert 6
    else let m1 = set_pbuf m p (record (m.pbuf p) { src_if = u8 i }) in
      if ltb (m1.pbuf p).len 14
      then drop_packet m1 p i
      else let (q?, m2) = eth_queue_entry_alloc m1 in
        elim q? [ none ↦ drop_packet m2 p i | some q ↦ done (enqueue_input m2 q p i) ]

-- How `EthQueueTask` takes the first entry of the input queue.
take_first : EthMem → ℕ → EthMem
take_first m q =
    let n : Option ℕ = (m.queue q).next in
    set_queue
      (record m {
        pool = record (m.pool) {
          q_input_begin = n;
          q_input_end = end_after n m.pool.q_input_end;
          q_input_used = dec32 m.pool.q_input_used;
        };
      })
      q (record (m.queue q) { next = none })

unfoldable pub take_input : EthMem → Option (ℕ × EthMem)
unfolding take_first
take_input m = elim m.pool.q_input_begin [ none ↦ none | some q ↦ some (q, take_first m q) ]

-- The first packet of the output queue of the interface `i` goes to the driver.
unlink_output : EthMem → ℕ → ℕ → EthMem
unlink_output m i q =
    let n : EthNetif = m.netif i in
    let next : Option ℕ = (m.queue q).next in
    let m1 = set_netif m i (record n {
      q_output_begin = next;
      q_output_end = end_after next n.q_output_end;
      q_output_len = n.q_output_len - 1;
      dgrams_out = inc32 n.dgrams_out;
    }) in
    set_queue m1 q (record (m1.queue q) { next = none; state = st_sending })

wait_for_packet : EthMem → ℕ → EthMem
wait_for_packet m i = elim (m.netif i).callback_fn [
  | none ↦ m
  | some _ ↦ set_netif m i (record (m.netif i) { callback_pending = 1 })
]

unfoldable pub eth_get_packet : EthMem → ℕ → Run (Option ℕ × EthMem)
unfolding unlink_output wait_for_packet
eth_get_packet m i = elim (m.netif i).q_output_begin [
  | none ↦ done (none, wait_for_packet m i)
  | some q ↦
      if (m.netif i).q_output_len == 0
      then em_assert 7
      else eth_queue_entry_free (unlink_output m i q) q >>= λ m1. done (some (m.queue q).pbuf, m1)
]

-- A driver that waits is called at once.
call_driver : EthMem → ℕ → ℕ → Option Callback → Run EthMem
call_driver m p i none = em_assert 10
call_driver m p i (some f) = done (emit m (netif_callback f p i))

send_at_once : EthMem → ℕ → ℕ → Run EthMem
unfolding call_driver
send_at_once m q i = elim (m.netif i).q_output_end [
  | some _ ↦ em_assert 9
  | none ↦
      let n : EthNetif = m.netif i in
      let m1 = set_netif m i (record n { callback_pending = 0; dgrams_out = inc32 n.dgrams_out }) in
      let m2 = set_queue m1 q (record (m1.queue q) { state = st_sending }) in
      eth_queue_entry_free m2 q >>= λ m3.
      call_driver m3 (m2.queue q).pbuf i (m3.netif i).callback_fn
]

drop_output : EthMem → ℕ → ℕ → Run EthMem
drop_output m q i =
    eth_pbuf_free_request (count_lost m i) (m.queue q).pbuf >>= λ m1. eth_queue_entry_free m1 q

link_output : EthMem → ℕ → ℕ → Option ℕ → EthMem
link_output m q i none = set_netif m i (record (m.netif i) { q_output_begin = some q })
link_output m q i (some e) = set_queue m e (record (m.queue e) { next = some q })

enqueue_output : EthMem → ℕ → ℕ → EthMem
unfolding link_output
enqueue_output m q i =
    let m1 = set_queue m q (record (m.queue q) { state = st_in_queue }) in
    let m2 = link_output m1 q i (m1.netif i).q_output_end in
    let n : EthNetif = m2.netif i in
    let len : ℕ = inc32 n.q_output_len in
    set_netif m2 i (record n {
      q_output_end = some q;
      q_output_len = len;
      q_output_len_max = if ltb n.q_output_len_max len then len else n.q_output_len_max;
    })

unfoldable pub eth_add_packet_to_output_queue : EthMem → ℕ → ℕ → Run EthMem
unfolding send_at_once drop_output enqueue_output
eth_add_packet_to_output_queue m q i =
    let m1 = set_queue m q (record (m.queue q) { next = none }) in
    let n : EthNetif = m1.netif i in
    if (m1.pbuf (m1.queue q).pbuf).ref == 0
    then em_assert 8
    else if not (n.callback_pending == 0)
    then send_at_once m1 q i
    else if leb n.q_output_len_max n.q_output_len
    then drop_output m1 q i
    else done (enqueue_output m1 q i)

-- A second entry for the same packet, which counts one reference more (modulo 256).
unfoldable pub eth_mem_clone : EthMem → ℕ → Option ℕ × EthMem
unfolding eth_queue_entry_alloc
eth_mem_clone m q =
    let (copy?, m1) = eth_queue_entry_alloc m in
    elim copy? [
      | none ↦ (none, m1)
      | some copy ↦
          let p : ℕ = (m1.queue q).pbuf in
          let m2 = set_queue m1 copy (record (m1.queue copy) { pbuf = p }) in
          (some copy, set_pbuf m2 p (record (m2.pbuf p) { ref = u8 ((m2.pbuf p).ref + 1) }))
    ]
