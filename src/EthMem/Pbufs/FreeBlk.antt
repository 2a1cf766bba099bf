-- ===== src/EthMem/Pbufs/FreeBlk.antt =====
-- `free_blk`
use mathlib.Core.List.{reverse, reverse-cons}
use adapto_lite.Prelude.{
  ℕ, zero, suc, ◌≤◌, ◌<◌, ◌≡◌, ◌≢◌, refl, sym, ap, ◌∙◌, Option, none, some, List, [], ◌∷◌, ◌++◌,
  arith, length, All-map, dec32, inc32, append_assoc,
}
use adapto_lite.Prelude.Chain.{end_after, end_after-last?, NotIn}
use adapto_lite.EthMem.State.{EthMem, Callback, done, set_pbuf, set_callback, emit, nomem_callback}
use adapto_lite.EthMem.Pbufs.{free_one, free_blk, unlink_request, call_q_update, call_registered}
use adapto_lite.EthMem.Pbufs.Rep.{Rep, next_of, ref_of, Chain-frame, refs_frame, NotIn-refs}

-- A callback to the driver changes no list.
call_registered-Rep :
    (f : Option Callback) (src : ℕ) (m : EthMem) (free pending held : List ℕ)
    → Rep m free pending held
    → Rep (call_registered f src m) free pending held
unfolding call_registered
call_registered-Rep none src m free pending held r = r
call_registered-Rep (some f) src m free pending held r = record {
  free_chain = r.free_chain;
  free_distinct = r.free_distinct;
  free_refs = r.free_refs;
  pending_chain = r.pending_chain;
  pending_end = r.pending_end;
  pending_distinct = r.pending_distinct;
  pending_refs = r.pending_refs;
  held_distinct = r.held_distinct;
  held_refs = r.held_refs;
  held_apart = r.held_apart;
  counted = r.counted;
  small = r.small;
}

nopbuf-call_registered :
    (f : Option Callback) (src : ℕ) (m : EthMem)
    → (call_registered f src m).pool.nopbuf_q_begin ≡ m.pool.nopbuf_q_begin
unfolding call_registered
nopbuf-call_registered none src m = refl
nopbuf-call_registered (some f) src m = refl

-- The state in which `p` has gone back to the chain.
abbrev returned : EthMem → ℕ → EthMem
returned m p =
    let u = unlink_request m p in
    set_pbuf
      (record u {
        pbuf_ctrl = record (u.pbuf_ctrl) { free_chain = some p; used = dec32 u.pbuf_ctrl.used };
      })
      p (record (u.pbuf p) { next = u.pbuf_ctrl.free_chain; ref = 0 })

returned-Rep :
    (m : EthMem) (p : ℕ) (free pending held : List ℕ)
    → Rep m free (p ∷ pending) held
    → Rep (returned m p) (p ∷ free) pending held
unfolding unlink_request
returned-Rep m p free pending held r = record {
  free_chain =
      (refl, ground (arith, Chain-frame m k p same m.pbuf_ctrl.free_chain free apart r.free_chain));
  free_distinct = (apart, r.free_distinct);
  free_refs = (ground arith, refs_frame m k p same (λ x. x ≡ 0) free apart r.free_refs);
  pending_chain = Chain-frame m k p same _ pending r.pending_distinct.0 r.pending_chain.1;
  pending_end =
      ap (end_after (next_of m p)) r.pending_end
      ∙ end_after-last? (next_of m) p pending r.pending_chain.1;
  pending_distinct = r.pending_distinct.1;
  pending_refs = refs_frame m k p same (λ x. x ≡ 1) pending r.pending_distinct.0 r.pending_refs.1;
  held_distinct = r.held_distinct;
  held_refs = refs_frame m k p same (λ x. 1 ≤ x) held held_p r.held_refs;
  held_apart = All-map (λ q h. h.1) held r.held_apart;
  counted = omega (arith, r.counted, r.small);
  small = omega (arith, r.counted, r.small);
}
  where
    k : EthMem
    k = returned m p

    same : (q : ℕ) → q ≢ p → k.pbuf q ≡ m.pbuf q
    same q h = ground arith

    apart : NotIn p free
    apart = NotIn-refs m p (λ x. x ≡ 0) free (λ z. omega (arith, r.pending_refs.0, z)) r.free_refs

    held_p : NotIn p held
    held_p = All-map (λ q h z. h.0 (sym z)) held r.held_apart

free_one-returned :
    (m : EthMem) (p : ℕ) (free pending held : List ℕ)
    → Rep m free (p ∷ pending) held
    → m.pool.nopbuf_q_begin ≡ none
    → free_one m p ≡ done (call_q_update (m.pbuf p).src_if (returned m p))
unfolding free_one
free_one-returned m p free pending held r e = ground (arith, r.pending_refs.0, r.counted)

-- One round without a waiting driver takes the first pending buffer to the head of the free chain.
pub free_one-Rep :
    (m : EthMem) (p : ℕ) (free pending held : List ℕ)
    → Rep m free (p ∷ pending) held
    → m.pool.nopbuf_q_begin ≡ none
    → (m' : EthMem) × (free_one m p ≡ done m')
      × Rep m' (p ∷ free) pending held
      × (m'.pool.nopbuf_q_begin ≡ none)
unfolding call_q_update unlink_request
free_one-Rep m p free pending held r e =
    let f : Option Callback = ((returned m p).netif (m.pbuf p).src_if).q_update_cbk in
    (
      call_q_update (m.pbuf p).src_if (returned m p),
      free_one-returned m p free pending held r e,
      call_registered-Rep f (m.pbuf p).src_if (returned m p) (p ∷ free) pending held
          (returned-Rep m p free pending held r),
      nopbuf-call_registered f (m.pbuf p).src_if (returned m p) ∙ e,
    )

free_blk_step :
    (n : ℕ) (m m1 : EthMem) (p : ℕ)
    → m.pool.free_pbuf_q_begin ≡ some p
    → free_one m p ≡ done m1
    → free_blk (suc n) m ≡ free_blk n m1
unfolding free_blk
free_blk_step n m m1 p e f = ground arith

-- When no driver waits for a buffer, `free_blk` ends, meets no assertion, and returns every pending
-- buffer to the free chain, the last one first.
pub free_blk-Rep :
    (n : ℕ) (m : EthMem) (free pending held : List ℕ)
    → Rep m free pending held
    → m.pool.nopbuf_q_begin ≡ none
    → length pending < n
    → (m' : EthMem) × (free_blk n m ≡ done m') × Rep m' (reverse pending ++ free) [] held
unfolding free_blk
free_blk-Rep zero m free pending held r e h = absurd (omega arith)
free_blk-Rep (suc n) m free [] held r e h = (m, rw r.pending_chain, r)
free_blk-Rep (suc n) m free (p ∷ pending) held r e h =
    let (m1, step, r1, e1) = free_one-Rep m p free pending held r e in
    let (m2, rest, r2) = free_blk-Rep n m1 (p ∷ free) pending held r1 e1 (omega arith) in
    (
      m2,
      free_blk_step n m m1 p r.pending_chain.0 step ∙ rest,
      rw (reverse-cons p pending, append_assoc) r2,
    )

-- The state in which `p` has gone to the driver that waits with the callback `c`.
abbrev passed : EthMem → ℕ → ℕ → EthMem
passed m p c =
    let u = unlink_request m p in
    let next : Option ℕ = (u.callback c).next_p in
    let m1 : EthMem = record u {
      pool = record (u.pool) {
        nopbuf_q_begin = next;
        nopbuf_q_end = end_after next u.pool.nopbuf_q_end;
      };
      stats = record (u.stats) {
        eth_pbuf_alloc_delay_cbks = inc32 u.stats.eth_pbuf_alloc_delay_cbks;
      };
    } in
    let m2 = set_callback m1 c (record (m1.callback c) { next_p = none; wait_active = 0 }) in
    emit (set_pbuf m2 p (record (m2.pbuf p) { if_idx = (m2.callback c).src_interface_id }))
      (nomem_callback p c)

passed-Rep :
    (m : EthMem) (p c : ℕ) (free pending held : List ℕ)
    → Rep m free (p ∷ pending) held
    → Rep (passed m p c) free pending (p ∷ held)
unfolding unlink_request
passed-Rep m p c free pending held r = record {
  free_chain = Chain-frame m k p same m.pbuf_ctrl.free_chain free apart r.free_chain;
  free_distinct = r.free_distinct;
  free_refs = refs_frame m k p same (λ x. x ≡ 0) free apart r.free_refs;
  pending_chain =
      Chain-frame m k p same (next_of m p) pending r.pending_distinct.0 r.pending_chain.1;
  pending_end =
      ap (end_after (next_of m p)) r.pending_end
      ∙ end_after-last? (next_of m) p pending r.pending_chain.1;
  pending_distinct = r.pending_distinct.1;
  pending_refs = refs_frame m k p same (λ x. x ≡ 1) pending r.pending_distinct.0 r.pending_refs.1;
  held_distinct = (held_p, r.held_distinct);
  held_refs = (
    ground (arith, r.pending_refs.0),
    refs_frame m k p same (λ x. 1 ≤ x) held held_p r.held_refs,
  );
  held_apart = (r.pending_distinct.0, All-map (λ q h. h.1) held r.held_apart);
  counted = omega (arith, r.counted);
  small = r.small;
}
  where
    k : EthMem
    k = passed m p c

    same : (q : ℕ) → q ≢ p → k.pbuf q ≡ m.pbuf q
    same q h = ground arith

    apart : NotIn p free
    apart = NotIn-refs m p (λ x. x ≡ 0) free (λ z. omega (arith, r.pending_refs.0, z)) r.free_refs

    held_p : NotIn p held
    held_p = All-map (λ q h z. h.0 (sym z)) held r.held_apart

free_one-passed :
    (m : EthMem) (p c : ℕ)
    → ref_of m p ≡ 1
    → m.pool.nopbuf_q_begin ≡ some c
    → free_one m p ≡ done (call_q_update (m.pbuf p).src_if (passed m p c))
unfolding free_one
free_one-passed m p c r e = ground arith

-- When a driver waits, one round hands it the first pending buffer: the buffer is held again, marked
-- with the driver's interface, and the driver waits no more.
pub free_one-waiter :
    (m : EthMem) (p c : ℕ) (free pending held : List ℕ)
    → Rep m free (p ∷ pending) held
    → m.pool.nopbuf_q_begin ≡ some c
    → (m' : EthMem) × (free_one m p ≡ done m')
      × Rep m' free pending (p ∷ held)
      × ((m'.pbuf p).if_idx ≡ (m.callback c).src_interface_id)
      × ((m'.callback c).wait_active ≡ 0)
      × (m'.pool.nopbuf_q_begin ≡ (m.callback c).next_p)
unfolding call_q_update unlink_request call_registered
free_one-waiter m p c free pending held r e =
    let f : Option Callback = ((passed m p c).netif (m.pbuf p).src_if).q_update_cbk in
    (
      call_q_update (m.pbuf p).src_if (passed m p c),
      free_one-passed m p c r.pending_refs.0 e,
      call_registered-Rep f (m.pbuf p).src_if (passed m p c) free pending (p ∷ held)
          (passed-Rep m p c free pending held r),
      ground arith,
      ground arith,
      nopbuf-call_registered f (m.pbuf p).src_if (passed m p c),
    )
