-- ===== src/NatSockets/Callbacks.antt =====
-- app/src/main/cpp/eth_nat.c: what lwIP calls for a new connection, a packet and an error.
use adapto_lite.Prelude.{
  ℕ, zero, suc, ◌+◌, Option, none, some, Bool, false, not, ◌&&◌, ◌||◌, ltb, leb, ◌==◌,
  if◌then◌else◌, sub32, inc32, htons,
}
use adapto_lite.Prelude.Bytes.{update}
use adapto_lite.EthMem.State.{Run, done, em_assert, ◌>>=◌}
use adapto_lite.EthNat.{prot_tcp}
use adapto_lite.NatSockets.{
  nat_tab_size, sndq_maxlen, NatEntry, tcp_recved, pbuf_free, close, notify_tx, notify_rx, Nats,
  call, set_entry, LwPbuf, nat_close_so_conn, ring_next, shut_down,
}

-- lwIP has freed the connection.
unfoldable pub nat_tcp_err : Nats → ℕ → Nats
nat_tcp_err s zero = s
nat_tcp_err s (suc num) =
    if ltb num nat_tab_size
    then (let s1 = nat_close_so_conn s num in set_entry s1 num (record (s1.tab num) { pcb = none }))
    else s

-- `n` rounds of the loop from the entry `i` on.
unfoldable pub nat_find_match : (ℕ → NatEntry) → ℕ → ℕ → ℕ → ℕ → ℕ → Option ℕ
nat_find_match tab i zero ip port proto = none
nat_find_match tab i (suc n) ip port proto =
    let rest = nat_find_match tab (i + 1) n ip port proto in
    if ip == (tab i).nat.src_ip && (port == (tab i).nat.src_port && proto == (tab i).nat.proto)
    then some i
    else rest

-- What lwIP hands to `nat_tcp_recv`: the argument of the connection, the connection and the packet
-- (or NULL), whether there is no error, and the connection's other end.
pub record Segment : Type 0 where
  pub arg : ℕ
  pub pcb : Option ℕ
  pub p : Option ℕ
  pub ok : Bool
  pub remote_ip : ℕ
  pub remote_port : ℕ

-- The results ERR_OK and ERR_VAL.
pub data RecvErr : Type 0 where
  err_ok err_val : RecvErr

-- `recv_abrt`: the packet is handed back.
unfoldable pub recv_abrt : (ℕ → LwPbuf) → Nats → ℕ → ℕ → RecvErr × Nats
recv_abrt pbufs s pcb p =
    (err_ok, call (call s (tcp_recved (some pcb) (pbufs p).tot_len)) (pbuf_free p))

unfoldable pub count_error : Nats → ℕ → Nats
count_error s i = set_entry s i (record (s.tab i) { errors = inc32 (s.tab i).errors })

-- `nattab[nat_entry].pcb==pcb`
unfoldable pub owns : Option ℕ → ℕ → Bool
owns none pcb = false
owns (some own) pcb = own == pcb

-- The packet goes to the end of the ring, if that has room. `while(1)` is `em_assert 0`.
unfoldable pub push : (ℕ → LwPbuf) → Nats → ℕ → ℕ → ℕ → Run (RecvErr × Nats)
push pbufs s i pcb p =
    let e = s.tab i in
    if ring_next e.index_end == e.index_begin
    then done (recv_abrt pbufs (set_entry s i (record e { rx_ovf = inc32 e.rx_ovf })) pcb p)
    else if owns e.pcb pcb
    then done (
      err_ok,
      call
          (set_entry (record s { stat = record (s.stat) { pbuf_used = inc32 s.stat.pbuf_used } }) i
            (record e { p = update e.p e.index_end (some p); index_end = ring_next e.index_end }))
          notify_tx,
    )
    else em_assert 0

-- The packet `p` of the connection `pcb`, without an error.
unfoldable pub accept_segment : (ℕ → LwPbuf) → Nats → Segment → ℕ → ℕ → Run (RecvErr × Nats)
accept_segment pbufs s g pcb p =
    let i : ℕ = sub32 g.arg 1 in
    let nat = (s.tab i).nat in
    if leb nat_tab_size i
    then done (recv_abrt pbufs s pcb p)
    else if not (g.remote_ip == nat.src_ip)
        || (not (htons g.remote_port == nat.src_port) || not (nat.proto == prot_tcp))
    then done (recv_abrt pbufs (count_error s i) pcb p)
    else if leb sndq_maxlen (s.tab i).index_end
    then done (recv_abrt pbufs (count_error s i) pcb p)
    else push pbufs s i pcb p

-- The local side ends the connection.
unfoldable pub local_close : (ℕ → LwPbuf) → Bool → Nats → Segment → Run (RecvErr × Nats)
local_close pbufs shut_ok s g =
    let i : ℕ = sub32 g.arg 1 in
    if ltb i nat_tab_size
    then (shut_down pbufs shut_ok s i >>= λ s1. done (err_val, s1))
    else done (err_val, s)

unfoldable pub nat_tcp_recv : (ℕ → LwPbuf) → Bool → Nats → Segment → Run (RecvErr × Nats)
nat_tcp_recv pbufs shut_ok s g = if not g.ok then local_close pbufs shut_ok s g else elim g.pcb [
  | none ↦ local_close pbufs shut_ok s g
  | some pcb ↦ elim g.p [
    | none ↦ local_close pbufs shut_ok s g
    | some p ↦ accept_segment pbufs s g pcb p
  ]
]

-- What the system answers to a new connection: the socket, whether `fcntl` succeeds, and whether
-- `connect` does (or is in progress).
pub record Opened : Type 0 where
  pub socket : Option ℕ
  pub nonblocking : Bool
  pub connected : Bool

-- The entry of a new connection.
unfoldable pub connect_entry : Nats → ℕ → ℕ → ℕ → Nats
connect_entry s i pcb socket =
    let e = s.tab i in
    let s1 = set_entry s i (record e {
      socket = socket;
      nat = record (e.nat) { status = 1 };
      index_begin = 0;
      index_end = 0;
      offs = 0;
      shutdown_req = 0;
      pcb = some pcb;
    }) in
    call
      (call (record s1 { stat = record (s1.stat) { tcp_new = inc32 s1.stat.tcp_new } }) notify_tx)
      notify_rx

unfoldable pub open_socket : Nats → ℕ → ℕ → Opened → RecvErr × Nats
open_socket s i pcb o = elim o.socket [
  | none ↦ (err_val, s)
  | some fd ↦
      if not o.nonblocking
      then (err_val, call s (close fd))
      else if not o.connected
      then (err_val, call s (close fd))
      else (err_ok, connect_entry s i pcb fd)
]

-- `nat_accept_fn` without an error, of the connection `pcb` from `remote_ip` and `remote_port`.
unfoldable pub nat_accept_fn : Nats → ℕ → ℕ → ℕ → Opened → RecvErr × Nats
nat_accept_fn s pcb remote_ip remote_port o =
    elim (nat_find_match s.tab 0 nat_tab_size remote_ip (htons remote_port) prot_tcp) [
      | none ↦ (err_val, s)
      | some i ↦ open_socket s i pcb o
    ]
