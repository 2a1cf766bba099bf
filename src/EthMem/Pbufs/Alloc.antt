-- ===== src/EthMem/Pbufs/Alloc.antt =====
-- `eth_pbuf_alloc`
use mathlib.Core.Path.{subst}
use adapto_lite.Prelude.{refl, sym, ap, ◌∙◌, ℕ, ◌≤◌, ◌≡◌, ◌≢◌, Option, none, some, List, ◌∷◌, arith}
use adapto_lite.Prelude.Chain.{NotIn}
use adapto_lite.EthMem.State.{EthMem, done, set_pbuf, done-injective}
use adapto_lite.EthMem.Pbufs.{eth_pbuf_alloc, take_free, owner, init_pbuf}
use adapto_lite.EthMem.Pbufs.Rep.{Rep, next_of, ref_of, Chain-frame, refs_frame, NotIn-refs}

-- The state that `eth_pbuf_alloc(cb)` leaves when the chain begins with `p`.
abbrev allocated : EthMem → ℕ → Option ℕ → EthMem
unfolding take_free owner init_pbuf
allocated m p cb = let m1 = take_free m p in set_pbuf m1 p (init_pbuf (owner m1 cb) (m1.pbuf p))

allocated_frame :
    (m : EthMem) (p : ℕ) (cb : Option ℕ) (q : ℕ) → q ≢ p → (allocated m p cb).pbuf q ≡ m.pbuf q
unfolding eth_pbuf_alloc
allocated_frame m p cb q h = ground arith

eth_pbuf_alloc-allocated :
    (m : EthMem) (p : ℕ) (cb : Option ℕ)
    → m.pbuf_ctrl.free_chain ≡ some p
    → eth_pbuf_alloc m cb ≡ done (some p, allocated m p cb)
unfolding eth_pbuf_alloc
eth_pbuf_alloc-allocated m p cb e = ground arith

allocated-Rep :
    (m : EthMem) (cb : Option ℕ) (p : ℕ) (free pending held : List ℕ)
    → Rep m (p ∷ free) pending held
    → Rep (allocated m p cb) free pending (p ∷ held)
unfolding eth_pbuf_alloc
allocated-Rep m cb p free pending held r = record {
  free_chain = Chain-frame m k p same _ free r.free_distinct.0 r.free_chain.1;
  free_distinct = r.free_distinct.1;
  free_refs = refs_frame m k p same (λ x. x ≡ 0) free r.free_distinct.0 r.free_refs.1;
  pending_chain = Chain-frame m k p same _ pending apart r.pending_chain;
  pending_end = r.pending_end;
  pending_distinct = r.pending_distinct;
  pending_refs = refs_frame m k p same (λ x. x ≡ 1) pending apart r.pending_refs;
  held_distinct = (new, r.held_distinct);
  held_refs = (ground arith, refs_frame m k p same (λ x. 1 ≤ x) held new r.held_refs);
  held_apart = (apart, r.held_apart);
  counted = omega (arith, r.counted, r.small);
  small = omega (arith, r.counted, r.small);
}
  where
    k : EthMem
    k = allocated m p cb

    same : (q : ℕ) → q ≢ p → k.pbuf q ≡ m.pbuf q
    same = allocated_frame m p cb

    apart : NotIn p pending
    apart = NotIn-refs m p (λ x. x ≡ 1) pending (λ e. omega (arith, r.free_refs.0)) r.pending_refs

    new : NotIn p held
    new = NotIn-refs m p (λ x. 1 ≤ x) held (λ e. omega (arith, r.free_refs.0)) r.held_refs

-- With a free buffer `p` at the head of the chain, an allocation returns it with one reference, its
-- own memory, all bytes as they were, and no successor, and it moves from the free to the held buffers.
pub eth_pbuf_alloc-Rep :
    (m : EthMem) (cb : Option ℕ) (p : ℕ) (free pending held : List ℕ)
    → Rep m (p ∷ free) pending held
    → (m' : EthMem) × (eth_pbuf_alloc m cb ≡ done (some p, m'))
      × Rep m' free pending (p ∷ held)
      × (ref_of m' p ≡ 1)
      × ((m'.pbuf p).payload ≡ (m.pbuf p).default_payload)
      × (next_of m' p ≡ none)
      × (m'.bytes ≡ m.bytes)
unfolding eth_pbuf_alloc
eth_pbuf_alloc-Rep m cb p free pending held r = (
  allocated m p cb,
  eth_pbuf_alloc-allocated m p cb r.free_chain.0,
  allocated-Rep m cb p free pending held r,
  ground arith,
  ground arith,
  ground arith,
  refl,
)

-- The queues stay as they are.
pub eth_pbuf_alloc-queues :
    (m k : EthMem) (cb : Option ℕ) (p : ℕ)
    → m.pbuf_ctrl.free_chain ≡ some p
    → eth_pbuf_alloc m cb ≡ done (some p, k)
    → (k.queue ≡ m.queue) × (k.netif ≡ m.netif) × (k.pool ≡ m.pool)
unfolding eth_pbuf_alloc
eth_pbuf_alloc-queues m k cb p f e =
    let same : allocated m p cb ≡ k =
      ap (λ x. x.1) (done-injective (sym (eth_pbuf_alloc-allocated m p cb f) ∙ e)) in
    subst (λ (x : EthMem). (x.queue ≡ m.queue) × (x.netif ≡ m.netif) × (x.pool ≡ m.pool)) same
      (refl, refl, refl)
