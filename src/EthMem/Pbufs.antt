-- ===== src/EthMem/Pbufs.antt =====
-- app/src/main/cpp/eth_mem.c: allocating packet buffers and handing them back.
pub mod Rep
pub mod Alloc
pub mod Free
pub mod FreeBlk
use adapto_lite.Prelude.{
  ℕ, zero, suc, ◌+◌, ◌*◌, ◌-◌, Option, none, some, List, [], ◌∷◌, Bool, true, false, ltb, leb, ◌==◌,
  if◌then◌else◌, inc32, dec32, u8,
}
use adapto_lite.Prelude.Chain.{end_after}
use adapto_lite.Xlib.{NHandle, t_notify_add}
use adapto_lite.EthMem.State.{
  Run, done, em_assert, bad_access, out_of_fuel, EthPbuf, EthMem, Callback, nomem_callback,
  q_update, set_pbuf, set_netif, set_callback, emit,
}

abbrev notify_new_free_p_request : ℕ
notify_new_free_p_request = 1

abbrev notify_new_p_request : ℕ
notify_new_p_request = 4

-- `TNotifyAdd(&pool->tNotifyHandle, v)`
abbrev pub notify_pool : EthMem → ℕ → EthMem
notify_pool m v = record m { pool = record (m.pool) { notify = t_notify_add m.pool.notify v } }

-- The request of callback `c` goes to the end of the queue of those that wait for a buffer.
link_waiter : EthMem → ℕ → Option ℕ → EthMem
link_waiter m c none = record m { pool = record (m.pool) { nopbuf_q_begin = some c } }
link_waiter m c (some prev) = set_callback m prev (record (m.callback prev) { next_p = some c })

add_waiter : EthMem → ℕ → EthMem
unfolding link_waiter
add_waiter m c =
    let m1 : EthMem = record m {
      stats = record (m.stats) { eth_pbuf_alloc_delayed = inc32 m.stats.eth_pbuf_alloc_delayed };
    } in
    let m2 = set_callback m1 c (record (m1.callback c) { next_p = none }) in
    let m3 = link_waiter m2 c m2.pool.nopbuf_q_end in
    let m4 : EthMem = record m3 { pool = record (m3.pool) { nopbuf_q_end = some c } } in
    set_callback m4 c (record (m4.callback c) { wait_active = 1 })

no_memory : EthMem → Option ℕ → EthMem
unfolding add_waiter
no_memory m none = record m {
  stats = record (m.stats) { eth_pbuf_alloc_fails = inc32 m.stats.eth_pbuf_alloc_fails };
}
no_memory m (some c) = if (m.callback c).wait_active == 0 then add_waiter m c else m

-- The first buffer of the free chain leaves it.
take_free : EthMem → ℕ → EthMem
take_free m p =
    let used : ℕ = inc32 m.pbuf_ctrl.used in
    let max : ℕ = m.pbuf_ctrl.used_max in
    set_pbuf
      (record m {
        pbuf_ctrl = record {
          free_chain = (m.pbuf p).next;
          used = used;
          used_max = if ltb max used then used else max;
        };
      })
      p (record (m.pbuf p) { next = none })

pub do_eth_pbuf_alloc : EthMem → Option ℕ → Option ℕ × EthMem
unfolding no_memory take_free
do_eth_pbuf_alloc m cb = elim m.pbuf_ctrl.free_chain [
  | none ↦ (none, no_memory m cb)
  | some p ↦ (some p, take_free m p)
]

-- The fields of a new buffer.
init_pbuf : ℕ → EthPbuf → EthPbuf
init_pbuf if_idx b = record b {
  if_idx = if_idx;
  ref = 1;
  type_internal = 0;
  flags = 2;
  payload = b.default_payload;
}

-- With a callback a refusal is notified and returned; with none, `p->pbuf.if_idx=0` is an access
-- through NULL.
refuse : EthMem → Option ℕ → Run (Option ℕ × EthMem)
refuse m none = bad_access
refuse m (some c) = done (none, notify_pool m notify_new_p_request)

owner : EthMem → Option ℕ → ℕ
owner m none = 0
owner m (some c) = (m.callback c).src_interface_id

unfoldable pub eth_pbuf_alloc : EthMem → Option ℕ → Run (Option ℕ × EthMem)
unfolding do_eth_pbuf_alloc init_pbuf refuse owner
eth_pbuf_alloc m cb =
    let (p?, m1) = do_eth_pbuf_alloc m cb in
    elim p? [
      | none ↦ refuse m1 cb
      | some p ↦ done (some p, set_pbuf m1 p (init_pbuf (owner m1 cb) (m1.pbuf p)))
    ]

-- The buffer `p` is linked behind the last one that waits to be freed.
link_free_request : EthMem → ℕ → Option ℕ → Run EthMem
link_free_request m p none =
    done (record m { pool = record (m.pool) { free_pbuf_q_begin = some p } })
link_free_request m p (some e) = elim (m.pbuf e).next [
  | none ↦ done (set_pbuf m e (record (m.pbuf e) { next = some p }))
  | some _ ↦ em_assert 2
]

add_free_request : EthMem → ℕ → Run EthMem
unfolding link_free_request t_notify_add
add_free_request m p =
    let m1 = set_pbuf m p (record (m.pbuf p) { next = none }) in
    elim (link_free_request m1 p m1.pool.free_pbuf_q_end) [
      | done m2 ↦ done (
          notify_pool (record m2 { pool = record (m2.pool) { free_pbuf_q_end = some p } })
            notify_new_free_p_request)
      | em_assert n ↦ em_assert n
      | bad_access ↦ bad_access
      | out_of_fuel ↦ out_of_fuel
    ]

unfoldable pub eth_pbuf_free_request : EthMem → ℕ → Run EthMem
unfolding add_free_request
eth_pbuf_free_request m p =
    let ref : ℕ = (m.pbuf p).ref in
    if ltb 1 ref
    then done (set_pbuf m p (record (m.pbuf p) { ref = ref - 1 }))
    else if ref == 0
    then em_assert 1
    else add_free_request m p

-- The callback from lwIP's `pbuf_free`, which has already counted `ref` down.
pub eth_custom_pbuf_free_request : EthMem → ℕ → Run EthMem
eth_custom_pbuf_free_request m p =
    eth_pbuf_free_request (set_pbuf m p (record (m.pbuf p) { ref = 1 })) p

-- The buffer goes straight to the first that waits for one.
pass_to_waiter : EthMem → ℕ → ℕ → Run EthMem
pass_to_waiter m p c =
    let next : Option ℕ = (m.callback c).next_p in
    let m1 : EthMem = record m {
      pool = record (m.pool) {
        nopbuf_q_begin = next;
        nopbuf_q_end = end_after next m.pool.nopbuf_q_end;
      };
      stats = record (m.stats) {
        eth_pbuf_alloc_delay_cbks = inc32 m.stats.eth_pbuf_alloc_delay_cbks;
      };
    } in
    let m2 = set_callback m1 c (record (m1.callback c) { next_p = none; wait_active = 0 }) in
    done (
      emit (set_pbuf m2 p (record (m2.pbuf p) { if_idx = (m2.callback c).src_interface_id }))
        (nomem_callback p c))

-- The buffer goes back to the head of the free chain.
give_back : EthMem → ℕ → Run EthMem
give_back m p =
    if m.pbuf_ctrl.used == 0
    then em_assert 4
    else done (
        set_pbuf
          (record m {
            pbuf_ctrl = record (m.pbuf_ctrl) { free_chain = some p; used = dec32 m.pbuf_ctrl.used };
          })
          p (record (m.pbuf p) { next = m.pbuf_ctrl.free_chain; ref = 0 }))

-- The first request leaves the queue; `src` counts one packet less on its way.
unlink_request : EthMem → ℕ → EthMem
unlink_request m p =
    let src : ℕ = (m.pbuf p).src_if in
    let n : Option ℕ = (m.pbuf p).next in
    let m1 = set_pbuf m p (record (m.pbuf p) { src_if = 0 }) in
    let m2 =
      set_netif m1 src
        (record (m1.netif src) { input_queue_len = dec32 (m1.netif src).input_queue_len }) in
    record m2 {
      pool = record (m2.pool) {
        free_pbuf_q_begin = n;
        free_pbuf_q_end = end_after n m2.pool.free_pbuf_q_end;
      };
    }

call_registered : Option Callback → ℕ → EthMem → EthMem
call_registered none src m = m
call_registered (some f) src m = emit m (q_update f src)

call_q_update : ℕ → EthMem → EthMem
unfolding call_registered
call_q_update src m = call_registered (m.netif src).q_update_cbk src m

dispose : EthMem → ℕ → Run EthMem
unfolding pass_to_waiter give_back
dispose m p = elim m.pool.nopbuf_q_begin [ none ↦ give_back m p | some c ↦ pass_to_waiter m p c ]

-- One round of the loop of `free_blk`, for the buffer `p` at the head of the queue.
pub free_one : EthMem → ℕ → Run EthMem
unfolding unlink_request dispose call_q_update
free_one m p =
    if (m.pbuf p).ref == 1
    then elim (dispose (unlink_request m p) p) [
      | done m1 ↦ done (call_q_update (m.pbuf p).src_if m1)
      | em_assert n ↦ em_assert n
      | bad_access ↦ bad_access
      | out_of_fuel ↦ out_of_fuel
    ]
    else em_assert 3

-- `free_blk`, a loop until the queue of requests is empty.
pub free_blk : ℕ → EthMem → Run EthMem
free_blk zero m = out_of_fuel
free_blk (suc fuel) m = elim m.pool.free_pbuf_q_begin [
  | none ↦ done m
  | some p ↦ elim (free_one m p) [
    | done m1 ↦ free_blk fuel m1
    | em_assert n ↦ em_assert n
    | bad_access ↦ bad_access
    | out_of_fuel ↦ out_of_fuel
  ]
]
