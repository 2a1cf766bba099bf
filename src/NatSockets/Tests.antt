-- ===== src/NatSockets/Tests.antt =====
-- app/src/main/cpp/eth_nat.c, the sockets' side, on one connection with one packet in its queue.
use adapto_lite.Prelude.{
  false, ℕ, ◌+◌, ◌≢◌, Option, Bool, ◌≡◌, refl, none, some, [], ◌∷◌, ◌++◌, true, arith,
}
use adapto_lite.Prelude.Bytes.{update}
use adapto_lite.EthMem.State.{done}
use adapto_lite.EthNat.{zero_entry}
use adapto_lite.NatSockets.{
  NatEntry, Nats, tcp_recved, pbuf_free, tcp_abort, shutdown, LwPbuf, shut_down,
}
use adapto_lite.NatSockets.Tasks.{
  SendResult, sent, nat_task_entry, received, recv_again, nat_rx_task_entry,
}
use adapto_lite.NatSockets.Callbacks.{Segment, err_ok, nat_tcp_recv}
use adapto_lite.NatSockets.Ring.{Cells, Ring, Arrives, packet_calls, nat_tcp_recv-Ring}
use adapto_lite.NatSockets.Close.{Closed, handed_back, shut_down-Closed}
use adapto_lite.NatSockets.Receiving.{writes, nat_rx_task_entry-forwards}
use adapto_lite.NatSockets.Sending.{Head, nat_task_entry-Ring}

-- Packets of 60 bytes.
abbrev packets : ℕ → LwPbuf
packets p = record { next = none; len = 60; tot_len = 60 }

-- The packet 7 waits at the last place of the ring; 20 of its bytes are sent.
abbrev entry : NatEntry
entry = record {
  nat = record zero_entry { src_ip = 5; src_port = 515; proto = 6; status = 1 };
  p = update (λ i. none) 99 (some 7);
  txbuf = [];
  pcb = some 3;
  index_begin = 99;
  index_end = 0;
  socket = 12;
  offs = 20;
  errors = 0;
  rx_ovf = 0;
  shutdown_req = 0;
}

abbrev nats : Nats
nats = record {
  tab = λ i. entry;
  stat = record { pbuf_broken = 0; tcp_new = 1; tcp_close = 0; pbuf_used = 1 };
  calls = [];
}

entry-Ring : Ring entry (7 ∷ [])
unfolding Cells
entry-Ring = record {
  begin_in = omega arith;
  end_at = refl;
  short = omega arith;
  cells = (refl, tt);
}

abbrev segment : Segment
segment = record { arg = 3; pcb = some 3; p = some 8; ok = true; remote_ip = 5; remote_port = 770 }

segment-Arrives : Arrives nats segment 2 3 8
segment-Arrives = record {
  entry = omega arith;
  arg = refl;
  good = refl;
  conn = refl;
  packet = refl;
  remote_ip = refl;
  remote_port = refl;
  tcp = refl;
  open_conn = refl;
}

nat_tcp_recv-Ring_example :
    (s' : Nats) × (nat_tcp_recv packets true nats segment ≡ done (err_ok, s'))
    × Ring (s'.tab 2) (7 ∷ 8 ∷ [])
    × (s'.calls ≡ packet_calls packets 1 3 8)
nat_tcp_recv-Ring_example =
    nat_tcp_recv-Ring packets true nats segment 2 3 8 (7 ∷ []) segment-Arrives entry-Ring

shut_down-Closed_example :
    (s' : Nats) × (shut_down packets true nats 2 ≡ done s')
    × Closed (s'.tab 2)
    × ((s'.tab 2).nat.status ≡ 0)
    × (s'.calls ≡ shutdown 12 ∷ (handed_back packets 3 (7 ∷ []) ++ tcp_abort 3 ∷ []))
shut_down-Closed_example =
    shut_down-Closed packets true nats 2 3 (7 ∷ []) refl (omega arith) entry-Ring

entry-Head : Head packets nats 2 7 []
entry-Head = record {
  ring = entry-Ring;
  active = omega arith;
  single = refl;
  whole = refl;
  unsent = omega arith;
  word = omega arith;
}

-- The socket takes all that it is offered.
abbrev take_all : ℕ → ℕ → ℕ → SendResult
take_all p offs len = sent len

nat_task_entry-Ring_example :
    (s' : Nats) × (nat_task_entry packets true take_all true nats 2 ≡ done s')
    × Ring (s'.tab 2) []
    × ((s'.tab 2).offs ≡ 0)
    × (s'.calls ≡ tcp_recved (some 3) 60 ∷ pbuf_free 7 ∷ [])
nat_task_entry-Ring_example =
    nat_task_entry-Ring packets true take_all nats 2 7 [] 40 entry-Head refl (omega arith)

-- The table with a socket of its own for each entry.
abbrev many : Nats
many = record nats { tab = λ i. record entry { socket = 12 + i } }

-- All sockets that were asked for are ready.
abbrev all_ready : (ℕ → Bool) → Option (ℕ → Bool)
all_ready w = some w

nat_rx_task_entry-forwards_example :
    (t : Nats) × (u : Nats) × (nat_rx_task_entry packets true false true
        ((received (1 ∷ 2 ∷ []), true) ∷ (received (3 ∷ []), false) ∷ [])
        nats
        2
      ≡ done t)
    × ((t.tab 2).txbuf ≡ 3 ∷ [])
    × (nat_rx_task_entry packets true false true
          ((recv_again, true) ∷ (received (4 ∷ []), true) ∷ (recv_again, false) ∷ [])
          t
          2
        ≡ done u)
    × (u.calls ≡ writes entry ((1 ∷ 2 ∷ []) ∷ (3 ∷ []) ∷ (4 ∷ []) ∷ []))
    × (u.tab 2 ≡ entry)
    × ((j : ℕ) → 2 ≢ j → u.tab j ≡ entry)
nat_rx_task_entry-forwards_example =
    nat_rx_task_entry-forwards packets true false recv_again nats 2 3 [] ((1 ∷ 2 ∷ []) ∷ [])
      ((4 ∷ []) ∷ []) (omega arith) refl
