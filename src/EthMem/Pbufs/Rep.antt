-- ===== src/EthMem/Pbufs/Rep.antt =====
-- What the pointers of the buffer pool represent: which buffers are free, which wait to be freed,
-- and which are held by a driver, a queue or lwIP.
use adapto_lite.Prelude.{
  ℕ, ◌+◌, ◌^◌, ◌≤◌, ◌<◌, ◌≡◌, ◌≢◌, ap, Option, List, [], ◌∷◌, length, All, All-map, All-intro,
}
use adapto_lite.Prelude.Chain.{Chain, Chain-congr, last?, NotIn, Distinct}
use adapto_lite.EthMem.State.{EthMem, EthPbuf}

abbrev pub next_of : EthMem → ℕ → Option ℕ
next_of m p = (m.pbuf p).next

abbrev pub ref_of : EthMem → ℕ → ℕ
ref_of m p = (m.pbuf p).ref

-- Three lists without a common element make up the pool: the free chain, whose reference counts
-- are 0, the queue of free requests, whose counts are 1, and the held buffers. `used` counts the
-- last two. The pool is small enough for the counter.
pub record Rep (m : EthMem) (free pending held : List ℕ) : Type 0 where
  pub free_chain : Chain (next_of m) m.pbuf_ctrl.free_chain free
  pub free_distinct : Distinct free
  pub free_refs : All (λ p. ref_of m p ≡ 0) free
  pub pending_chain : Chain (next_of m) m.pool.free_pbuf_q_begin pending
  pub pending_end : m.pool.free_pbuf_q_end ≡ last? pending
  pub pending_distinct : Distinct pending
  pub pending_refs : All (λ p. ref_of m p ≡ 1) pending
  pub held_distinct : Distinct held
  pub held_refs : All (λ p. 1 ≤ ref_of m p) held
  pub held_apart : All (λ p. NotIn p pending) held
  pub counted : m.pbuf_ctrl.used ≡ length held + length pending
  pub small : m.pbuf_ctrl.used + length free < 2 ^ 32

module _ (m k : EthMem) (p : ℕ) (same : (q : ℕ) → q ≢ p → k.pbuf q ≡ m.pbuf q) where
  -- A step that writes to the buffer `p` only keeps the chains and the counts that `p` is not in.
  pub Chain-frame :
      (b : Option ℕ) (l : List ℕ) → NotIn p l → Chain (next_of m) b l → Chain (next_of k) b l
  Chain-frame b l n c =
      Chain-congr (next_of m) (next_of k) b l
        (All-map (λ q h. ap (λ (x : EthPbuf). x.next) (same q h)) l n) c

  pub refs_frame {ℓ} :
      (P : ℕ → Type ℓ) (l : List ℕ)
      → NotIn p l
      → All (λ q. P (ref_of m q)) l
      → All (λ q. P (ref_of k q)) l
  refs_frame P [] n h = tt
  refs_frame P (q ∷ l) n h = (rw (same q n.0, ref_of) h.0, refs_frame P l n.1 h.1)

-- A buffer is in no list whose reference counts differ from its own.
pub NotIn-refs {ℓ} :
    (m : EthMem) (p : ℕ) (P : ℕ → Type ℓ) (l : List ℕ)
    → ¬ P (ref_of m p)
    → All (λ q. P (ref_of m q)) l
    → NotIn p l
NotIn-refs m p P [] np h = tt
NotIn-refs m p P (q ∷ l) np h = (λ e. np (rw e at h.0), NotIn-refs m p P l np h.1)

-- Other changes than to links, counts and queues keep it.
pub Rep-same :
    (m k : EthMem) (free pending held : List ℕ)
    → ((q : ℕ) → next_of k q ≡ next_of m q)
    → ((q : ℕ) → ref_of k q ≡ ref_of m q)
    → k.pbuf_ctrl ≡ m.pbuf_ctrl
    → k.pool ≡ m.pool
    → Rep m free pending held
    → Rep k free pending held
Rep-same m k free pending held next ref ctrl pool r = record {
  free_chain =
      rw ctrl (Chain-congr (next_of m) (next_of k) _ free (All-intro next free) r.free_chain);
  free_distinct = r.free_distinct;
  free_refs = refs (λ x. x ≡ 0) free r.free_refs;
  pending_chain =
      rw pool
        (Chain-congr (next_of m) (next_of k) _ pending (All-intro next pending) r.pending_chain);
  pending_end = rw pool r.pending_end;
  pending_distinct = r.pending_distinct;
  pending_refs = refs (λ x. x ≡ 1) pending r.pending_refs;
  held_distinct = r.held_distinct;
  held_refs = refs (λ x. 1 ≤ x) held r.held_refs;
  held_apart = r.held_apart;
  counted = rw ctrl r.counted;
  small = rw ctrl r.small;
}
  where
    refs : (P : ℕ → Type 0) (l : List ℕ) → All (λ q. P (ref_of m q)) l → All (λ q. P (ref_of k q)) l
    refs P l h =
        All-map {P = λ q. P (ref_of m q)} {Q = λ q. P (ref_of k q)} (λ q x. rw (ref q) x) l h
