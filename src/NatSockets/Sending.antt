-- ===== src/NatSockets/Sending.antt =====
-- app/src/main/cpp/eth_nat.c, `NAT_Task`: packets go to the socket in their order, byte after byte.
use adapto_lite.Prelude.{
  ℕ, suc, ◌+◌, ◌-◌, none, List, [], ◌∷◌, ◌++◌, Bool, true, false, ltb, ◌==◌, if◌then◌else◌, add32,
  sub32,
}
use adapto_lite.Prelude.Bytes.{update}
use adapto_lite.EthMem.State.{done}
use adapto_lite.NatSockets.{NatEntry, tcp_recved, pbuf_free, Nats, set_entry, LwPbuf, ring_next}
use adapto_lite.Prelude.{
  ◌^◌, ◌≤◌, ◌<◌, ◌≡◌, ◌≢◌, refl, sym, ap, ◌∙◌, inl, inr, arith, length, append-nil, append_assoc,
  ltb_cases,
}
use adapto_lite.NatSockets.Ring.{Cells, Ring, Cells-update, ring_next_mod}
use adapto_lite.NatSockets.Tasks.{SendResult, sent, seek, pop, after_sent, nat_task_entry}

-- The packet `p` heads the queue of an active entry, is not chained, and the bytes from `offs` on are
-- not sent yet.
pub record Head (pbufs : ℕ → LwPbuf) (s : Nats) (i p : ℕ) (l : List ℕ) : Type 0 where
  pub ring : Ring (s.tab i) (p ∷ l)
  pub active : (s.tab i).nat.status ≢ 0
  pub single : (pbufs p).next ≡ none
  pub whole : (pbufs p).len ≡ (pbufs p).tot_len
  pub unsent : (s.tab i).offs < (pbufs p).tot_len
  pub word : (pbufs p).tot_len < 2 ^ 16

popped : NatEntry → NatEntry
popped e = record e {
  p = update e.p e.index_begin none;
  index_begin = ring_next e.index_begin;
  offs = 0;
}

popped-Ring : (e : NatEntry) (p : ℕ) (l : List ℕ) → Ring e (p ∷ l) → Ring (popped e) l
unfolding popped Cells
popped-Ring e p l r =
    let next = ring_next_mod e.index_begin r.begin_in in
    record {
      begin_in = omega (arith, next);
      end_at = omega (arith, next, r.end_at);
      short = omega (arith, r.short);
      cells =
          Cells-update e.p (ring_next e.index_begin) e.index_begin (99 - length l) none l
            (omega (arith, next)) (omega (arith, next, r.begin_in, r.short))
            (omega (arith, r.short)) r.cells.1;
    }

-- The socket is offered what is left of the packet.
pub Head-send :
    (pbufs : ℕ → LwPbuf) (ok : Bool) (send : ℕ → ℕ → ℕ → SendResult) (s : Nats) (i p : ℕ)
    (l : List ℕ)
    → Head pbufs s i p l
    → nat_task_entry pbufs ok send true s i
      ≡ after_sent pbufs ok s i p (send p (s.tab i).offs ((pbufs p).tot_len - (s.tab i).offs))
unfolding nat_task_entry seek Cells
Head-send pbufs ok send s i p l h =
    let active : ((s.tab i).nat.status == 0) ≡ false = ground (arith, h.active) in
    let left : sub32 (pbufs p).tot_len (s.tab i).offs ≡ (pbufs p).tot_len - (s.tab i).offs =
      omega (arith, h.unsent, h.word) in
    let fuel : (s.tab i).offs + 2 ≡ suc ((s.tab i).offs + 1) = omega arith in
    rw (active, h.ring.cells.0, nat_task_entry, fuel, h.single, seek, h.whole, left) refl

-- What the socket takes of an unchained packet at the head of the queue of an active entry:
-- where bytes are left, only the offset moves; when the last byte is taken, the packet leaves
-- the queue, is acknowledged to lwIP and freed, and the next one starts at its first byte.
pub nat_task_entry-Ring :
    (pbufs : ℕ → LwPbuf) (ok : Bool) (send : ℕ → ℕ → ℕ → SendResult) (s : Nats) (i p : ℕ)
    (l : List ℕ) (n : ℕ)
    → Head pbufs s i p l
    → send p (s.tab i).offs ((pbufs p).tot_len - (s.tab i).offs) ≡ sent n
    → n ≤ (pbufs p).tot_len - (s.tab i).offs
    → (s' : Nats) × (nat_task_entry pbufs ok send true s i ≡ done s')
      × Ring (s'.tab i) (if ltb ((s.tab i).offs + n) (pbufs p).tot_len then p ∷ l else l)
      × ((s'.tab i).offs
          ≡ (if ltb ((s.tab i).offs + n) (pbufs p).tot_len then (s.tab i).offs + n else 0))
      × (s'.calls
          ≡ s.calls
            ++ (if ltb ((s.tab i).offs + n) (pbufs p).tot_len
                then []
                else tcp_recved (s.tab i).pcb (pbufs p).tot_len ∷ pbuf_free p ∷ []))
unfolding after_sent pop popped
nat_task_entry-Ring pbufs ok send s i p l n h e b =
    let step = Head-send pbufs ok send s i p l h ∙ ap (after_sent pbufs ok s i p) e in
    let offs : add32 (s.tab i).offs n ≡ (s.tab i).offs + n = omega (arith, h.word, h.unsent, b) in
    let e1 : NatEntry = record (s.tab i) { offs = (s.tab i).offs + n } in
    let s1 : Nats = set_entry s i e1 in
    let self : (i == i) ≡ true = ground arith in
    elim (ltb_cases ((s.tab i).offs + n) (pbufs p).tot_len) [
      | inl (x, y) ↦ (
        s1,
        step ∙ rw (offs, y) refl,
        rw (y, self)
            (record {
              begin_in = h.ring.begin_in;
              end_at = h.ring.end_at;
              short = h.ring.short;
              cells = h.ring.cells;
            }),
        rw (y, self) refl,
        rw y (sym (append-nil s.calls)),
      )
      | inr (x, y) ↦ (
        pop pbufs s1 i p,
        step ∙ rw (offs, y) refl,
        rw (y, self) (popped-Ring (s.tab i) p l h.ring),
        rw (y, self) refl,
        rw (y, self)
            (append_assoc s.calls (tcp_recved (s.tab i).pcb (pbufs p).tot_len ∷ [])
              (pbuf_free p ∷ [])),
      )
    ]
