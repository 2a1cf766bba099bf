-- ===== src/NatSockets/Close.antt =====
-- app/src/main/cpp/eth_nat.c: a connection that is shut down leaves no packet behind.
use adapto_lite.Prelude.{
  ℕ, zero, suc, ◌+◌, ◌-◌, none, some, List, [], ◌∷◌, ◌++◌, Bool, true, false, ◌==◌, if◌then◌else◌,
}
use adapto_lite.Prelude.Bytes.{update}
use adapto_lite.EthMem.State.{done}
use adapto_lite.NatSockets.{
  NatEntry, Call, tcp_recved, pbuf_free, tcp_abort, shutdown, Nats, set_entry, LwPbuf,
  nat_close_so_conn, ring_next, shut_down, release, drain, end_pcb, clear_txbuf, nat_close_lw_conn,
}
use adapto_lite.Prelude.{
  ◌%◌, ◌<◌, ◌≡◌, ◌≢◌, refl, sym, ap, ◌∙◌, arith, length, append-nil, append_assoc,
}
use adapto_lite.NatSockets.Ring.{Cells, Ring, Cells-update, ring_next_mod}

-- The calls for packets that are handed back.
unfoldable pub handed_back : (ℕ → LwPbuf) → ℕ → List ℕ → List Call
handed_back pbufs pcb [] = []
handed_back pbufs pcb (p ∷ l) =
    tcp_recved (some pcb) (pbufs p).tot_len ∷ pbuf_free p ∷ handed_back pbufs pcb l

-- What the loop leaves: the ring's indices as they were, and the calls.
record Drained (pbufs : ℕ → LwPbuf) (s s' : Nats) (i pcb : ℕ) (l : List ℕ) : Type 0 where
  pub calls : s'.calls ≡ s.calls ++ handed_back pbufs pcb l
  pub end_at : (s'.tab i).index_end ≡ (s.tab i).index_end
  pub status : (s'.tab i).nat ≡ (s.tab i).nat

drain-Drained :
    (fuel : ℕ) (pbufs : ℕ → LwPbuf) (s : Nats) (i pcb ptr : ℕ) (l : List ℕ)
    → length l < fuel
    → ptr < 100
    → length l < 100
    → (s.tab i).index_end ≡ (ptr + length l) % 100
    → Cells (s.tab i).p ptr l
    → (s' : Nats) × (drain fuel pbufs s i pcb ptr ≡ done ((s.tab i).index_end, s'))
      × Drained pbufs s s' i pcb l
unfolding drain handed_back release Cells
drain-Drained zero pbufs s i pcb ptr l f a b e c = absurd (omega arith)
drain-Drained (suc fuel) pbufs s i pcb ptr [] f a b e c =
    let here : ptr ≡ (s.tab i).index_end = omega (arith, a, e) in
    let stop : (ptr == (s.tab i).index_end) ≡ true = ground (arith, here) in
    (
      s,
      rw stop (ap (λ (x : ℕ). done (x, s)) here),
      record { calls = sym (append-nil s.calls); end_at = refl; status = refl },
    )
drain-Drained (suc fuel) pbufs s i pcb ptr (p ∷ l) f a b e (c, cs) =
    let next = ring_next_mod ptr a in
    let go : (ptr == (s.tab i).index_end) ≡ false = ground (arith, a, b, e) in
    let e1 : NatEntry = record (s.tab i) { p = update (s.tab i).p ptr none } in
    let s1 : Nats = release pbufs s i pcb ptr (some p) in
    let at_i : s1.tab i ≡ e1 = ground arith in
    let cells =
      Cells-update (s.tab i).p (ring_next ptr) ptr (99 - length l) none l (omega (arith, next))
        (omega (arith, next, a, b)) (omega (arith, b)) cs in
    let (s', d, r) =
      drain-Drained fuel pbufs s1 i pcb (ring_next ptr) l (omega (arith, f)) (omega (arith, next))
        (omega (arith, b)) (rw at_i (omega (arith, next, e))) (rw at_i cells) in
    let end : (s1.tab i).index_end ≡ (s.tab i).index_end = ap (λ x. x.index_end) at_i in
    let h = handed_back pbufs pcb l in
    let x : List Call = tcp_recved (some pcb) (pbufs p).tot_len ∷ [] in
    (
      s',
      rw (go, c) (rw end at d),
      record {
        calls =
            r.calls
            ∙ append_assoc (s.calls ++ x) (pbuf_free p ∷ []) h
            ∙ append_assoc s.calls x (pbuf_free p ∷ h);
        end_at = r.end_at ∙ end;
        status = r.status ∙ ap (λ y. y.nat) at_i;
      },
    )

-- An entry without a connection: nothing waits in the ring or for lwIP.
pub record Closed (e : NatEntry) : Type 0 where
  pub ring : Ring e []
  pub pcb : e.pcb ≡ none
  pub offs : e.offs ≡ 0
  pub txbuf : e.txbuf ≡ []

abbrev aborted : Bool → ℕ → List Call
aborted ok pcb = if ok then tcp_abort pcb ∷ [] else []

end_pcb-Closed :
    (ok : Bool) (i pcb ptr : ℕ) (s : Nats)
    → ptr < 100
    → (s.tab i).index_end ≡ ptr
    → Closed ((clear_txbuf (end_pcb ok i pcb (ptr, s)) i).tab i)
      × ((clear_txbuf (end_pcb ok i pcb (ptr, s)) i).calls ≡ s.calls ++ aborted ok pcb)
      × (((clear_txbuf (end_pcb ok i pcb (ptr, s)) i).tab i).nat ≡ (s.tab i).nat)
unfolding end_pcb clear_txbuf Cells
end_pcb-Closed true i pcb ptr s h e =
    let self : (i == i) ≡ true = ground arith in
    rw self (
      record {
        ring = record {
          begin_in = h;
          end_at = omega (arith, e, h);
          short = omega arith;
          cells = tt;
        };
        pcb = refl;
        offs = refl;
        txbuf = refl;
      },
      refl,
      refl,
    )
end_pcb-Closed false i pcb ptr s h e =
    let self : (i == i) ≡ true = ground arith in
    rw self (
      record {
        ring = record {
          begin_in = h;
          end_at = omega (arith, e, h);
          short = omega arith;
          cells = tt;
        };
        pcb = refl;
        offs = refl;
        txbuf = refl;
      },
      sym (append-nil s.calls),
      refl,
    )

nat_close_lw_conn-Closed :
    (pbufs : ℕ → LwPbuf) (ok : Bool) (s : Nats) (i pcb : ℕ) (l : List ℕ)
    → (s.tab i).pcb ≡ some pcb
    → Ring (s.tab i) l
    → (s' : Nats) × (nat_close_lw_conn pbufs ok s i ≡ done s')
      × Closed (s'.tab i)
      × (s'.calls ≡ s.calls ++ (handed_back pbufs pcb l ++ aborted ok pcb))
      × ((s'.tab i).nat ≡ (s.tab i).nat)
unfolding nat_close_lw_conn
nat_close_lw_conn-Closed pbufs ok s i pcb l o r =
    let ptr : ℕ = (s.tab i).index_end in
    let (s1, d, x) =
      drain-Drained 100 pbufs s i pcb (s.tab i).index_begin l r.short r.begin_in r.short r.end_at
        r.cells in
    let (c, calls, nat) = end_pcb-Closed ok i pcb ptr s1 (omega (arith, r.end_at)) x.end_at in
    (
      clear_txbuf (end_pcb ok i pcb (ptr, s1)) i,
      rw (o, nat_close_lw_conn, d) refl,
      c,
      calls
          ∙ ap (λ k. k ++ aborted ok pcb) x.calls
          ∙ append_assoc s.calls (handed_back pbufs pcb l) (aborted ok pcb),
      nat ∙ x.status,
    )

so_closed :
    (s : Nats) (i : ℕ)
    → (s.tab i).nat.status ≢ 0
    → ((nat_close_so_conn (set_entry s i (record (s.tab i) { shutdown_req = 1 })) i).tab i
        ≡ record (s.tab i) { shutdown_req = 1; nat = record ((s.tab i).nat) { status = 0 } })
      × ((nat_close_so_conn (set_entry s i (record (s.tab i) { shutdown_req = 1 })) i).calls
          ≡ s.calls ++ shutdown (s.tab i).socket ∷ [])
unfolding nat_close_so_conn
so_closed s i active =
    let self : (i == i) ≡ true = ground arith in
    let open_socket : ((s.tab i).nat.status == 0) ≡ false = ground (arith, active) in
    rw (self, open_socket, self) (refl, refl)

-- An open connection that is shut down: its socket is shut down, every packet of its queue is
-- acknowledged and freed once, in order, the connection of lwIP is aborted where its shutdown
-- succeeds, and the entry is free, with an empty queue; no loop runs on.
pub shut_down-Closed :
    (pbufs : ℕ → LwPbuf) (ok : Bool) (s : Nats) (i pcb : ℕ) (l : List ℕ)
    → (s.tab i).pcb ≡ some pcb
    → (s.tab i).nat.status ≢ 0
    → Ring (s.tab i) l
    → (s' : Nats) × (shut_down pbufs ok s i ≡ done s')
      × Closed (s'.tab i)
      × ((s'.tab i).nat.status ≡ 0)
      × (s'.calls
          ≡ s.calls
            ++ shutdown (s.tab i).socket
              ∷ (handed_back pbufs pcb l ++ (if ok then tcp_abort pcb ∷ [] else [])))
unfolding shut_down
shut_down-Closed pbufs ok s i pcb l o active r =
    let s1 : Nats = nat_close_so_conn (set_entry s i (record (s.tab i) { shutdown_req = 1 })) i in
    let e1 : NatEntry = record (s.tab i) {
      shutdown_req = 1;
      nat = record ((s.tab i).nat) { status = 0 };
    } in
    let (at_i, calls) = so_closed s i active in
    let ring1 : Ring e1 l = record {
      begin_in = r.begin_in;
      end_at = r.end_at;
      short = r.short;
      cells = r.cells;
    } in
    let (s', d, c, k, n) =
      nat_close_lw_conn-Closed pbufs ok s1 i pcb l (ap (λ x. x.pcb) at_i ∙ o) (rw at_i ring1) in
    (
      s',
      d,
      c,
      ap (λ x. x.status) n ∙ ap (λ x. x.nat.status) at_i,
      k
          ∙ ap (λ x. x ++ (handed_back pbufs pcb l ++ aborted ok pcb)) calls
          ∙ append_assoc s.calls (shutdown (s.tab i).socket ∷ [])
              (handed_back pbufs pcb l ++ aborted ok pcb),
    )
