-- ===== src/NatSockets/Tasks.antt =====
-- app/src/main/cpp/eth_nat.c: the rounds of `NAT_Task`, to the sockets, and of `NAT_RX_Task`, from them.
use adapto_lite.Prelude.{
  ℕ, zero, suc, ◌+◌, ◌-◌, none, some, List, [], ◌∷◌, Bool, true, false, ltb, leb, ◌==◌,
  if◌then◌else◌, add32, sub32, dec32,
}
use adapto_lite.Prelude.Bytes.{update}
use adapto_lite.EthMem.State.{Run, done, bad_access, out_of_fuel, ◌>>=◌}
use adapto_lite.NatSockets.{
  tcp_recved, tcp_write, pbuf_free, Nats, call, set_entry, LwPbuf, ring_next, shut_down,
}

-- The loop in `NAT_Task` that looks for the offset in the chain, on `fuel`: the packet and the
-- offset in it. `p1=p->next` as the source has it, `p` being the first packet of the chain.
unfoldable pub seek : ℕ → (ℕ → LwPbuf) → ℕ → ℕ → ℕ → Run (ℕ × ℕ)
seek zero pbufs p p1 offs = out_of_fuel
seek (suc fuel) pbufs p p1 offs = elim (pbufs p1).next [
  | none ↦ done (p1, offs)
  | some _ ↦
      if leb (pbufs p1).len offs
      then elim (pbufs p).next [
        | none ↦ bad_access
        | some q ↦ seek fuel pbufs p q (offs - (pbufs p1).len)
      ]
      else done (p1, offs)
]

-- What `send` returns: a number of bytes, a full buffer, or another error.
pub data SendResult : Type 0 where
  sent : ℕ → SendResult
  again failed : SendResult

-- The packet `p` at the head of the ring, of which all is sent.
unfoldable pub pop : (ℕ → LwPbuf) → Nats → ℕ → ℕ → Nats
pop pbufs s i p =
    let e = s.tab i in
    let s1 = set_entry s i (record e {
      p = update e.p e.index_begin none;
      index_begin = ring_next e.index_begin;
      offs = 0;
    }) in
    let s2 = call s1 (tcp_recved e.pcb (pbufs p).tot_len) in
    call (record s2 { stat = record (s2.stat) { pbuf_used = dec32 s2.stat.pbuf_used } })
      (pbuf_free p)

unfoldable pub after_sent : (ℕ → LwPbuf) → Bool → Nats → ℕ → ℕ → SendResult → Run Nats
after_sent pbufs ok s i p again = done s
after_sent pbufs ok s i p failed = shut_down pbufs ok s i
after_sent pbufs ok s i p (sent n) =
    let e = s.tab i in
    let offs : ℕ = add32 e.offs n in
    let s1 = set_entry s i (record e { offs = offs }) in
    if ltb offs (pbufs p).tot_len then done s1 else done (pop pbufs s1 i p)

-- The part of a round of `NAT_Task` for the entry `i`: `ready` is `FD_ISSET`, and `send` gets the
-- packet, the offset in it and the length.
unfoldable pub nat_task_entry :
    (ℕ → LwPbuf) → Bool → (ℕ → ℕ → ℕ → SendResult) → Bool → Nats → ℕ → Run Nats
nat_task_entry pbufs ok send ready s i =
    let e = s.tab i in
    if e.nat.status == 0
    then done s
    else if ready
    then elim (e.p e.index_begin) [
      | none ↦ bad_access
      | some p ↦ seek (e.offs + 2) pbufs p p e.offs >>= λ (p1, offs).
          after_sent pbufs ok s i p (send p1 offs (sub32 (pbufs p).len offs))
    ]
    else done s

-- What `recv` returns.
pub data RecvResult : Type 0 where
  received : List ℕ → RecvResult
  closed recv_again recv_failed : RecvResult

-- lwIP takes the bytes `xs` of the entry `i`.
unfoldable pub flush : Nats → ℕ → List ℕ → Nats
flush s i xs = call (set_entry s i (record (s.tab i) { txbuf = [] })) (tcp_write (s.tab i).pcb xs)

-- The loop of `NAT_RX_Task` for one socket that is ready. One element of the list is used up in each
-- round: what `recv` returns, if it is called, and whether `tcp_write` accepts the bytes.
unfoldable pub rx_loop : (ℕ → LwPbuf) → Bool → List (RecvResult × Bool) → Bool → Nats → ℕ → Run Nats
rx_loop pbufs ok [] first s i = out_of_fuel
rx_loop pbufs ok ((r, w) ∷ rs) first s i = elim (s.tab i).txbuf [
  | (x ∷ xs) ↦ if w then rx_loop pbufs ok rs first (flush s i (x ∷ xs)) i else done s
  | [] ↦ elim r [
    | closed ↦ if first then shut_down pbufs ok s i else done s
    | recv_again ↦ done s
    | recv_failed ↦ shut_down pbufs ok s i
    | received xs ↦
        if w
        then rx_loop pbufs ok rs false (flush s i xs) i
        else done (set_entry s i (record (s.tab i) { txbuf = xs }))
  ]
]

-- The part of a round of `NAT_RX_Task` for the entry `i`.
unfoldable pub nat_rx_task_entry :
    (ℕ → LwPbuf) → Bool → Bool → Bool → List (RecvResult × Bool) → Nats → ℕ → Run Nats
nat_rx_task_entry pbufs ok error ready rs s i =
    if (s.tab i).nat.status == 0
    then done s
    else if error
    then shut_down pbufs ok s i
    else if ready
    then rx_loop pbufs ok rs true s i
    else done s
