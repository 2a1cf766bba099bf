-- ===== src/EthMem/Pbufs/Free.antt =====
-- `eth_pbuf_free_request`
use adapto_lite.Prelude.{
  ℕ, suc, ◌-◌, ◌≤◌, ◌<◌, ◌≡◌, ◌≢◌, refl, sym, none, some, List, [], ◌∷◌, ◌++◌, arith, All, All-map,
  All-append, All-remove, All-intro, All-zip, length-append, length-remove,
}
use adapto_lite.Prelude.Bytes.{update}
use adapto_lite.Prelude.Chain.{
  Chain, Chain-congr, Chain-append, Chain-last?, last?, last?-cons, last?-ne, last?-append,
  All-last?, NotIn, NotIn-append, Distinct, Distinct-append, Distinct-remove,
}
use adapto_lite.EthMem.State.{EthMem, done, set_pbuf}
use adapto_lite.EthMem.Pbufs.{eth_pbuf_free_request, notify_pool}
use adapto_lite.EthMem.Pbufs.Rep.{Rep, next_of, ref_of, Chain-frame, refs_frame, NotIn-refs}

-- The states that the request leaves behind an empty queue, and behind the last buffer `e`.
abbrev first_pending : EthMem → ℕ → EthMem
first_pending m p =
    let m1 = set_pbuf m p (record (m.pbuf p) { next = none }) in
    notify_pool
      (record m1 {
        pool = record (m1.pool) { free_pbuf_q_begin = some p; free_pbuf_q_end = some p };
      })
      1

abbrev next_pending : EthMem → ℕ → ℕ → EthMem
next_pending m p e =
    let m1 = set_pbuf m p (record (m.pbuf p) { next = none }) in
    let m2 = set_pbuf m1 e (record (m1.pbuf e) { next = some p }) in
    notify_pool (record m2 { pool = record (m2.pool) { free_pbuf_q_end = some p } }) 1

first_pending-Rep :
    (m : EthMem) (p : ℕ) (free xs ys : List ℕ)
    → Rep m free [] (xs ++ p ∷ ys)
    → ref_of m p ≡ 1
    → (eth_pbuf_free_request m p ≡ done (first_pending m p))
      × Rep (first_pending m p) free (p ∷ []) (xs ++ ys)
unfolding eth_pbuf_free_request
first_pending-Rep m p free xs ys r one = (
  ground (arith, r.pending_end),
  record {
    free_chain = Chain-frame m k p same _ free apart r.free_chain;
    free_distinct = r.free_distinct;
    free_refs = refs_frame m k p same (λ x. x ≡ 0) free apart r.free_refs;
    pending_chain = (refl, ground arith);
    pending_end = refl;
    pending_distinct = (tt, tt);
    pending_refs = (ground arith, tt);
    held_distinct = d.0;
    held_refs =
        refs_frame m k p same (λ x. 1 ≤ x) (xs ++ ys) d.1
          (All-remove (λ q. 1 ≤ ref_of m q) xs p ys r.held_refs).0;
    held_apart = All-map (λ q h. ((λ e. h (sym e)), tt)) (xs ++ ys) d.1;
    counted = omega (arith, r.counted, length-remove {0} xs p ys);
    small = r.small;
  },
)
  where
    k : EthMem
    k = first_pending m p

    same : (q : ℕ) → q ≢ p → k.pbuf q ≡ m.pbuf q
    same q h = ground arith

    apart : NotIn p free
    apart = NotIn-refs m p (λ x. x ≡ 0) free (λ e. omega (arith, one, e)) r.free_refs

    d : Distinct (xs ++ ys) × NotIn p (xs ++ ys)
    d = Distinct-remove xs p ys r.held_distinct

-- The same behind a queue that ends in `e`.
next_pending-Rep :
    (m : EthMem) (p e : ℕ) (free pending xs ys : List ℕ)
    → Rep m free pending (xs ++ p ∷ ys)
    → ref_of m p ≡ 1
    → last? pending ≡ some e
    → (eth_pbuf_free_request m p ≡ done (next_pending m p e))
      × Rep (next_pending m p e) free (pending ++ p ∷ []) (xs ++ ys)
unfolding eth_pbuf_free_request
next_pending-Rep m p e free pending xs ys r one end = (
  ground (arith, r.pending_end, last_next, ne),
  record {
    free_chain =
        Chain-frame m1 k e same2 _ free apart_e
          (Chain-frame m m1 p same1 _ free apart r.free_chain);
    free_distinct = r.free_distinct;
    free_refs =
        refs_frame m1 k e same2 (λ x. x ≡ 0) free apart_e
          (refs_frame m m1 p same1 (λ x. x ≡ 0) free apart r.free_refs);
    pending_chain = chain;
    pending_end = sym (last?-append pending p);
    pending_distinct = Distinct-append pending p r.pending_distinct out.1;
    pending_refs =
        All-append (λ q. ref_of k q ≡ 1) pending (p ∷ [])
          (All-map (λ q h. ground arith) pending r.pending_refs) (ground arith, tt);
    held_distinct = d.0;
    held_refs =
        refs_frame m1 k e same2 (λ x. 1 ≤ x) (xs ++ ys) held_e
          (refs_frame m m1 p same1 (λ x. 1 ≤ x) (xs ++ ys) d.1
            (All-remove (λ q. 1 ≤ ref_of m q) xs p ys r.held_refs).0);
    held_apart =
        All-map (λ q h. NotIn-append q p pending h.0 (λ e. h.1 (sym e))) (xs ++ ys)
          (All-zip (λ q. NotIn q pending) (λ q. q ≢ p) (xs ++ ys) out.0 d.1);
    counted =
        omega (arith, r.counted, length-remove {0} xs p ys, length-append {0} pending (p ∷ []));
    small = r.small;
  },
)
  where
    m1 : EthMem
    m1 = set_pbuf m p (record (m.pbuf p) { next = none })

    k : EthMem
    k = next_pending m p e

    same1 : (q : ℕ) → q ≢ p → m1.pbuf q ≡ m.pbuf q
    same1 q h = ground arith

    same2 : (q : ℕ) → q ≢ e → k.pbuf q ≡ m1.pbuf q
    same2 q h = ground arith

    out : All (λ q. NotIn q pending) (xs ++ ys) × NotIn p pending
    out = All-remove (λ q. NotIn q pending) xs p ys r.held_apart

    ne : e ≢ p
    ne = last?-ne pending p out.1 end

    last_next : next_of m e ≡ none
    last_next = Chain-last? (next_of m) _ pending r.pending_chain end

    ref_e : ref_of m e ≡ 1
    ref_e = All-last? (λ q. ref_of m q ≡ 1) pending r.pending_refs end

    apart : NotIn p free
    apart = NotIn-refs m p (λ x. x ≡ 0) free (λ z. omega (arith, one, z)) r.free_refs

    apart_e : NotIn e free
    apart_e = NotIn-refs m e (λ x. x ≡ 0) free (λ z. omega (arith, ref_e, z)) r.free_refs

    d : Distinct (xs ++ ys) × NotIn p (xs ++ ys)
    d = Distinct-remove xs p ys r.held_distinct

    held_e : NotIn e (xs ++ ys)
    held_e = All-map (λ q h z. last?-ne pending q h end (sym z)) (xs ++ ys) out.0

    chain : Chain (next_of k) k.pool.free_pbuf_q_begin (pending ++ p ∷ [])
    chain =
        Chain-congr (update (next_of m1) e (some p)) (next_of k) _ (pending ++ p ∷ [])
          (All-intro (λ q. ground arith) (pending ++ p ∷ []))
          (Chain-append (next_of m1) _ e p pending r.pending_distinct out.1 end (ground arith)
            (Chain-frame m m1 p same1 _ pending out.1 r.pending_chain))

-- Freeing a held buffer with one reference always succeeds, and moves it from the held buffers to
-- the end of the queue of free requests.
pub eth_pbuf_free_request-Rep :
    (m : EthMem) (p : ℕ) (free pending xs ys : List ℕ)
    → Rep m free pending (xs ++ p ∷ ys)
    → ref_of m p ≡ 1
    → (m' : EthMem) × (eth_pbuf_free_request m p ≡ done m')
      × Rep m' free (pending ++ p ∷ []) (xs ++ ys)
eth_pbuf_free_request-Rep m p free [] xs ys r one =
    let h = first_pending-Rep m p free xs ys r one in (first_pending m p, h.0, h.1)
eth_pbuf_free_request-Rep m p free (q ∷ l) xs ys r one =
    let (e, end) = last?-cons q l in
    let h = next_pending-Rep m p e free (q ∷ l) xs ys r one end in (next_pending m p e, h.0, h.1)

-- With more references a request only counts one off, and the lists stay.
pub eth_pbuf_free_request-shared :
    (m : EthMem) (p : ℕ) (free pending held : List ℕ)
    → Rep m free pending held
    → 1 < ref_of m p
    → (m' : EthMem) × (eth_pbuf_free_request m p ≡ done m')
      × Rep m' free pending held
      × (suc (ref_of m' p) ≡ ref_of m p)
unfolding eth_pbuf_free_request
eth_pbuf_free_request-shared m p free pending held r h = (
  k,
  ground arith,
  record {
    free_chain = Chain-frame m k p same _ free apart r.free_chain;
    free_distinct = r.free_distinct;
    free_refs = refs_frame m k p same (λ x. x ≡ 0) free apart r.free_refs;
    pending_chain = Chain-frame m k p same _ pending apart_p r.pending_chain;
    pending_end = r.pending_end;
    pending_distinct = r.pending_distinct;
    pending_refs = refs_frame m k p same (λ x. x ≡ 1) pending apart_p r.pending_refs;
    held_distinct = r.held_distinct;
    held_refs = All-map (λ q x. ground arith) held r.held_refs;
    held_apart = r.held_apart;
    counted = r.counted;
    small = r.small;
  },
  ground arith,
)
  where
    k : EthMem
    k = set_pbuf m p (record (m.pbuf p) { ref = ref_of m p - 1 })

    same : (q : ℕ) → q ≢ p → k.pbuf q ≡ m.pbuf q
    same q z = ground arith

    apart : NotIn p free
    apart = NotIn-refs m p (λ x. x ≡ 0) free (λ z. omega (arith, h, z)) r.free_refs

    apart_p : NotIn p pending
    apart_p = NotIn-refs m p (λ x. x ≡ 1) pending (λ z. omega (arith, h, z)) r.pending_refs
