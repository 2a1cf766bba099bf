-- ===== src/NatSockets.antt =====
-- app/src/main/cpp/eth_nat.c, the sockets' side: what lwIP receives on the local port waits in a
-- ring of packets for the connection's socket, and what the socket receives goes to lwIP. The calls
-- of lwIP and of the system are recorded in their order; what they return is an argument.
pub mod Tasks
pub mod Callbacks
pub mod Ring
pub mod Close
pub mod Sending
pub mod Rounds
pub mod Init
pub mod Select
pub mod Served
pub mod Writing
pub mod Receiving
mod Tests
use adapto_lite.Prelude.{
  ℕ, zero, suc, ◌+◌, ◌-◌, Option, none, some, List, [], ◌∷◌, ◌++◌, Bool, true, false, not, ◌&&◌,
  ◌||◌, ltb, leb, ◌==◌, if◌then◌else◌, add32, sub32, inc32, dec32, htons,
}
use adapto_lite.Prelude.Bytes.{update}
use adapto_lite.EthMem.State.{Run, done, em_assert, bad_access, out_of_fuel, ◌>>=◌}
use adapto_lite.EthNat.{NatTab, prot_tcp}

abbrev pub nat_tab_size : ℕ
nat_tab_size = 16

abbrev pub sndq_maxlen : ℕ
sndq_maxlen = 100

-- `struct NAT_TAB`: the fields of the translation in `nat`; a packet, a connection of lwIP and a
-- socket are numbers. `txbuf` holds `txbuf_len` bytes.
pub record NatEntry : Type 0 where
  pub nat : NatTab
  pub p : ℕ → Option ℕ
  pub txbuf : List ℕ
  pub pcb : Option ℕ
  pub index_begin : ℕ
  pub index_end : ℕ
  pub socket : ℕ
  pub offs : ℕ
  pub errors : ℕ
  pub rx_ovf : ℕ
  pub shutdown_req : ℕ

pub record NatStat : Type 0 where
  pub pbuf_broken : ℕ
  pub tcp_new : ℕ
  pub tcp_close : ℕ
  pub pbuf_used : ℕ

-- The calls of lwIP and of the system that return nothing of use.
pub data Call : Type 0 where
  tcp_recved : Option ℕ → ℕ → Call
  tcp_write : Option ℕ → List ℕ → Call
  pbuf_free : ℕ → Call
  tcp_abort : ℕ → Call
  shutdown : ℕ → Call
  close : ℕ → Call
  notify_tx notify_rx : Call

pub record Nats : Type 0 where
  pub tab : ℕ → NatEntry
  pub stat : NatStat
  pub calls : List Call

abbrev pub call : Nats → Call → Nats
call s c = record s { calls = s.calls ++ c ∷ [] }

abbrev pub set_entry : Nats → ℕ → NatEntry → Nats
set_entry s i e = record s { tab = update s.tab i e }

-- lwIP's packets: `struct pbuf`.
pub record LwPbuf : Type 0 where
  pub next : Option ℕ
  pub len : ℕ
  pub tot_len : ℕ

-- How many packets wait in the ring of an entry, as `calc_stats` counts them.
unfoldable pub ring_len : NatEntry → ℕ
ring_len e =
    if ltb e.index_end e.index_begin
    then e.index_end + sndq_maxlen - e.index_begin
    else e.index_end - e.index_begin

-- `n` rounds of the loop of `calc_stats` from the entry `i` on.
unfoldable pub calc_stats : (ℕ → NatEntry) → ℕ → ℕ → ℕ
calc_stats tab i zero = 0
calc_stats tab i (suc n) = ring_len (tab i) + calc_stats tab (i + 1) n

unfoldable pub nat_close_so_conn : Nats → ℕ → Nats
nat_close_so_conn s i =
    let e = s.tab i in
    if e.nat.status == 0
    then s
    else set_entry (call s (shutdown e.socket)) i (record e { nat = record (e.nat) { status = 0 } })

-- An index of the ring, one further.
abbrev pub ring_next : ℕ → ℕ
ring_next i = if leb sndq_maxlen (i + 1) then 0 else i + 1

-- A packet of the ring is handed back.
unfoldable pub release : (ℕ → LwPbuf) → Nats → ℕ → ℕ → ℕ → Option ℕ → Nats
release pbufs s i pcb ptr none = s
release pbufs s i pcb ptr (some p) =
    let s1 = call (call s (tcp_recved (some pcb) (pbufs p).tot_len)) (pbuf_free p) in
    let e = s1.tab i in
    set_entry (record s1 { stat = record (s1.stat) { pbuf_used = dec32 s1.stat.pbuf_used } }) i
      (record e { p = update e.p ptr none })

-- The loop of `nat_close_lw_conn`, on `fuel`, from `ptr` on. It has at most as many rounds as the ring has
-- places.
unfoldable pub drain : ℕ → (ℕ → LwPbuf) → Nats → ℕ → ℕ → ℕ → Run (ℕ × Nats)
drain zero pbufs s i pcb ptr = out_of_fuel
drain (suc fuel) pbufs s i pcb ptr =
    let rest =
      drain fuel pbufs (release pbufs s i pcb ptr ((s.tab i).p ptr)) i pcb (ring_next ptr) in
    if ptr == (s.tab i).index_end then done (ptr, s) else rest

-- What is left of an open connection of lwIP, after the loop; `ok` is the result of `tcp_shutdown`.
unfoldable pub end_pcb : Bool → ℕ → ℕ → ℕ × Nats → Nats
end_pcb ok i pcb (ptr, s) =
    let s1 : Nats = record s { stat = record (s.stat) { tcp_close = inc32 s.stat.tcp_close } } in
    let s2 = if ok then call s1 (tcp_abort pcb) else s1 in
    set_entry s2 i (record (s2.tab i) { offs = 0; index_begin = ptr; pcb = none })

unfoldable pub clear_txbuf : Nats → ℕ → Nats
clear_txbuf s i = set_entry s i (record (s.tab i) { txbuf = [] })

unfoldable pub nat_close_lw_conn : (ℕ → LwPbuf) → Bool → Nats → ℕ → Run Nats
nat_close_lw_conn pbufs ok s i = elim (s.tab i).pcb [
  | none ↦ done (clear_txbuf s i)
  | some pcb ↦ drain sndq_maxlen pbufs s i pcb (s.tab i).index_begin >>= λ r.
      done (clear_txbuf (end_pcb ok i pcb r) i)
]

-- What the tasks and callbacks do when a connection ends.
unfoldable pub shut_down : (ℕ → LwPbuf) → Bool → Nats → ℕ → Run Nats
shut_down pbufs ok s i =
    nat_close_lw_conn pbufs ok
      (nat_close_so_conn (set_entry s i (record (s.tab i) { shutdown_req = 1 })) i) i
