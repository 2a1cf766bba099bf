-- ===== src/NatSockets/Ring.antt =====
-- app/src/main/cpp/eth_nat.c: the ring of an entry is a queue of at most 99 packets.
use adapto_lite.Prelude.{
  ℕ, suc, ◌+◌, Option, some, List, [], ◌∷◌, ◌++◌, Bool, true, false, not, ◌||◌, ltb, leb, ◌==◌,
  if◌then◌else◌, sub32, inc32, htons,
}
use adapto_lite.Prelude.Bytes.{update}
use adapto_lite.EthMem.State.{done}
use adapto_lite.NatSockets.{
  NatEntry, Call, tcp_recved, pbuf_free, notify_tx, Nats, call, set_entry, LwPbuf, ring_next,
  ring_len,
}
use adapto_lite.Prelude.{
  ◌%◌, ◌≤◌, ◌<◌, ◌≡◌, ◌≢◌, refl, sym, ◌∙◌, inl, inr, arith, length, length-append, append_assoc,
  ltb_cases,
}
use adapto_lite.NatSockets.Callbacks.{
  Segment, err_ok, recv_abrt, owns, push, accept_segment, nat_tcp_recv,
}

-- From the place `i` on the ring holds the packets.
unfoldable pub Cells : (ℕ → Option ℕ) → ℕ → List ℕ → Type 0
Cells f i [] = Unit
Cells f i (x ∷ l) = (f i ≡ some x) × Cells f (ring_next i) l

-- The ring of an entry holds the packets `l`, the oldest first.
pub record Ring (e : NatEntry) (l : List ℕ) : Type 0 where
  pub begin_in : e.index_begin < 100
  pub end_at : e.index_end ≡ (e.index_begin + length l) % 100
  pub short : length l < 100
  pub cells : Cells e.p e.index_begin l

pub ring_next_mod : (i : ℕ) → i < 100 → ring_next i ≡ (i + 1) % 100
ring_next_mod i h = ground (arith, h)

-- A write to a place behind the packets.
pub Cells-update :
    (f : ℕ → Option ℕ) (i b d : ℕ) (v : Option ℕ) (l : List ℕ)
    → i < 100
    → b ≡ (i + length l + d) % 100
    → length l + d < 100
    → Cells f i l
    → Cells (update f b v) i l
unfolding Cells
Cells-update f i b d v [] h e k c = tt
Cells-update f i b d v (x ∷ l) h e k (c, cs) =
    let next = ring_next_mod i h in
    let apart : b ≢ i = omega (arith, h, e, k) in
    (
      ground (arith, apart, c),
      Cells-update f (ring_next i) b d v l (omega (arith, next)) (omega (arith, next, e))
          (omega (arith, k)) cs,
    )

Cells-append :
    (f : ℕ → Option ℕ) (i p : ℕ) (l : List ℕ)
    → i < 100
    → f ((i + length l) % 100) ≡ some p
    → Cells f i l
    → Cells f i (l ++ p ∷ [])
unfolding Cells
Cells-append f i p [] h e c = let z : (i + 0) % 100 ≡ i = omega (arith, h) in (rw z at e, tt)
Cells-append f i p (x ∷ l) h e (c, cs) =
    let next = ring_next_mod i h in
    let z : (i + suc (length l)) % 100 ≡ (ring_next i + length l) % 100 = omega (arith, next) in
    (c, Cells-append f (ring_next i) p l (omega (arith, next)) (rw z at e) cs)

-- The counter of `calc_stats` counts the packets of the ring.
pub Ring-ring_len : (e : NatEntry) (l : List ℕ) → Ring e l → ring_len e ≡ length l
unfolding ring_len
Ring-ring_len e l r = ground (arith, r.begin_in, r.end_at, r.short)

pushed : NatEntry → ℕ → NatEntry
pushed e p = record e { p = update e.p e.index_end (some p); index_end = ring_next e.index_end }

pushed-Ring :
    (e : NatEntry) (l : List ℕ) (p : ℕ) → Ring e l → length l < 99 → Ring (pushed e p) (l ++ p ∷ [])
unfolding pushed
pushed-Ring e l p r h =
    let size : length (l ++ p ∷ []) ≡ length l + 1 = length-append l (p ∷ []) in
    let next = ring_next_mod e.index_end (omega (arith, r.end_at)) in
    record {
      begin_in = r.begin_in;
      end_at = omega (arith, next, size, r.end_at);
      short = omega (arith, size, h);
      cells = Cells-append _ e.index_begin p l r.begin_in (rw (sym r.end_at) (ground arith)) (
          Cells-update e.p e.index_begin e.index_end 0 (some p) l r.begin_in
            (omega (arith, r.end_at)) (omega (arith, h)) r.cells);
    }

-- A packet of the open connection `pcb` of the entry `i`, from the address that the entry is for.
pub record Arrives (s : Nats) (g : Segment) (i pcb p : ℕ) : Type 0 where
  pub entry : i < 16
  pub arg : g.arg ≡ i + 1
  pub good : g.ok ≡ true
  pub conn : g.pcb ≡ some pcb
  pub packet : g.p ≡ some p
  pub remote_ip : g.remote_ip ≡ (s.tab i).nat.src_ip
  pub remote_port : htons g.remote_port ≡ (s.tab i).nat.src_port
  pub tcp : (s.tab i).nat.proto ≡ 6
  pub open_conn : (s.tab i).pcb ≡ some pcb

Arrives-push :
    (pbufs : ℕ → LwPbuf) (shut_ok : Bool) (s : Nats) (g : Segment) (i pcb p : ℕ)
    → Arrives s g i pcb p
    → (s.tab i).index_end < 100
    → nat_tcp_recv pbufs shut_ok s g ≡ push pbufs s i pcb p
unfolding nat_tcp_recv accept_segment
Arrives-push pbufs shut_ok s g i pcb p h inside =
    let own : sub32 g.arg 1 ≡ i = omega (arith, h.arg, h.entry) in
    let known : leb 16 i ≡ false = ground (arith, h.entry) in
    let room : leb 100 (s.tab i).index_end ≡ false = ground (arith, inside) in
    let same : not (g.remote_ip == (s.tab i).nat.src_ip)
          || (not (htons g.remote_port == (s.tab i).nat.src_port) || not ((s.tab i).nat.proto == 6))
        ≡ false =
      ground (arith, h.remote_ip, h.remote_port, h.tcp) in
    rw (h.good, h.conn, h.packet, nat_tcp_recv, own, known, same, room) refl

with_packet : Nats → ℕ → ℕ → Nats
with_packet s i p =
    call
      (set_entry (record s { stat = record (s.stat) { pbuf_used = inc32 s.stat.pbuf_used } }) i
        (pushed (s.tab i) p))
      notify_tx

push_room :
    (pbufs : ℕ → LwPbuf) (s : Nats) (i pcb p : ℕ) (l : List ℕ)
    → (s.tab i).pcb ≡ some pcb
    → Ring (s.tab i) l
    → length l < 99
    → push pbufs s i pcb p ≡ done (err_ok, with_packet s i p)
unfolding push pushed with_packet owns
push_room pbufs s i pcb p l o r h =
    let next = ring_next_mod (s.tab i).index_end (omega (arith, r.end_at)) in
    let free : (ring_next (s.tab i).index_end == (s.tab i).index_begin) ≡ false =
      ground (arith, next, r.begin_in, r.end_at, h) in
    let own : owns (s.tab i).pcb pcb ≡ true = rw (o, owns) (ground arith) in rw (free, own) refl

push_full :
    (pbufs : ℕ → LwPbuf) (s : Nats) (i pcb p : ℕ) (l : List ℕ)
    → Ring (s.tab i) l
    → 99 ≤ length l
    → push pbufs s i pcb p
      ≡ done (
          recv_abrt pbufs
            (set_entry s i (record (s.tab i) { rx_ovf = inc32 (s.tab i).rx_ovf }))
            pcb
            p)
unfolding push
push_full pbufs s i pcb p l r h =
    let next = ring_next_mod (s.tab i).index_end (omega (arith, r.end_at)) in
    let full : (ring_next (s.tab i).index_end == (s.tab i).index_begin) ≡ true =
      ground (arith, next, r.begin_in, r.end_at, r.short, h) in
    rw full refl

-- What is called for a packet of a queue of `n`: the task is woken, or the packet is handed back.
abbrev pub packet_calls : (ℕ → LwPbuf) → ℕ → ℕ → ℕ → List Call
packet_calls pbufs n pcb p =
    if ltb n 99 then notify_tx ∷ [] else tcp_recved (some pcb) (pbufs p).tot_len ∷ pbuf_free p ∷ []

-- A packet of an open connection goes to the end of its queue, if less than 99 packets wait there;
-- else the queue stays as it is and the packet is handed back to lwIP, acknowledged, and freed. In
-- both cases lwIP gets ERR_OK.
pub nat_tcp_recv-Ring :
    (pbufs : ℕ → LwPbuf) (shut_ok : Bool) (s : Nats) (g : Segment) (i pcb p : ℕ) (l : List ℕ)
    → Arrives s g i pcb p
    → Ring (s.tab i) l
    → (s' : Nats) × (nat_tcp_recv pbufs shut_ok s g ≡ done (err_ok, s'))
      × Ring (s'.tab i) (if ltb (length l) 99 then l ++ p ∷ [] else l)
      × (s'.calls ≡ s.calls ++ packet_calls pbufs (length l) pcb p)
unfolding recv_abrt with_packet
nat_tcp_recv-Ring pbufs shut_ok s g i pcb p l h r =
    let step = Arrives-push pbufs shut_ok s g i pcb p h (omega (arith, r.end_at)) in
    elim (ltb_cases (length l) 99) [
      | inl (a, b) ↦
          let self : (with_packet s i p).tab i ≡ pushed (s.tab i) p = ground arith in
          (
            with_packet s i p,
            step ∙ push_room pbufs s i pcb p l h.open_conn r a,
            rw (b, self) (pushed-Ring (s.tab i) l p r a),
            rw b refl,
          )
      | inr (a, b) ↦
          let e : NatEntry = record (s.tab i) { rx_ovf = inc32 (s.tab i).rx_ovf } in
          let s1 : Nats = (recv_abrt pbufs (set_entry s i e) pcb p).1 in
          let self : s1.tab i ≡ e = ground arith in
          (
            s1,
            step ∙ push_full pbufs s i pcb p l r a,
            rw (b, self)
                (record {
                  begin_in = r.begin_in;
                  end_at = r.end_at;
                  short = r.short;
                  cells = r.cells;
                }),
            rw b (
                append_assoc s.calls (tcp_recved (some pcb) (pbufs p).tot_len ∷ [])
                  (pbuf_free p ∷ [])),
          )
    ]
