-- ===== src/NatSockets/Rounds.antt =====
-- app/src/main/cpp/eth_nat.c: whole rounds of `NAT_Task` and `NAT_RX_Task`, with the sets for `select`. A
-- set of descriptors is a test. While `select` waits the lock is open, so the table that the round
-- works on afterwards is another argument. The pipe that wakes `select` is one more descriptor.
use adapto_lite.Prelude.{
  ℕ, zero, suc, ◌+◌, Option, none, some, List, Bool, false, not, ◌&&◌, ◌||◌, ◌==◌,
}
use adapto_lite.EthMem.State.{Run, done, ◌>>=◌}
use adapto_lite.NatSockets.{NatEntry, Nats, LwPbuf, nat_tab_size}
use adapto_lite.NatSockets.Tasks.{SendResult, RecvResult, nat_task_entry, nat_rx_task_entry}

-- FD_SET of the sockets of the entries that `wants` selects, `n` of them from `i` on.
unfoldable pub fd_set : (NatEntry → Bool) → (ℕ → NatEntry) → ℕ → ℕ → ℕ → Bool
fd_set wants tab i zero fd = false
fd_set wants tab i (suc n) fd =
    (wants (tab i) && (tab i).socket == fd) || fd_set wants tab (i + 1) n fd

-- An active entry, and one with packets for its socket.
unfoldable pub is_active : NatEntry → Bool
is_active e = not (e.nat.status == 0)

unfoldable pub has_packets : NatEntry → Bool
unfolding is_active
has_packets e = is_active e && not (e.index_begin == e.index_end)

-- The loop over the table.
unfoldable pub each_entry : ℕ → ℕ → (Nats → ℕ → Run Nats) → Nats → Run Nats
each_entry zero i f s = done s
each_entry (suc n) i f s = f s i >>= λ s1. each_entry n (i + 1) f s1

-- A round of `NAT_Task`. `select` gets the set for writing, with the table as it was, and returns the
-- descriptors that are ready, or `none` for -1; `send` gets the socket as well.
unfoldable pub nat_task_round :
    (ℕ → LwPbuf)
    → Bool
    → ((ℕ → Bool) → Option (ℕ → Bool))
    → (ℕ → ℕ → ℕ → ℕ → SendResult)
    → (ℕ → NatEntry)
    → Nats
    → Run Nats
nat_task_round pbufs ok select send before s =
    elim (select (fd_set has_packets before 0 nat_tab_size)) [
      | none ↦ done s
      | some ready ↦
          each_entry nat_tab_size 0
            (λ t i. nat_task_entry pbufs ok (send (t.tab i).socket) (ready (t.tab i).socket) t i) s
    ]

-- A round of `NAT_RX_Task`: `select` gets the set of the active sockets for reading and for errors;
-- `recv` tells for a socket what its calls of `recv` and `tcp_write` return.
unfoldable pub nat_rx_task_round :
    (ℕ → LwPbuf)
    → Bool
    → ((ℕ → Bool) → Option ((ℕ → Bool) × (ℕ → Bool)))
    → (ℕ → List (RecvResult × Bool))
    → (ℕ → NatEntry)
    → Nats
    → Run Nats
nat_rx_task_round pbufs ok select recv before s =
    elim (select (fd_set is_active before 0 nat_tab_size)) [
      | none ↦ done s
      | some (ready, error) ↦
          each_entry nat_tab_size 0
            (λ t i.
              nat_rx_task_entry pbufs ok (error (t.tab i).socket) (ready (t.tab i).socket)
                (recv (t.tab i).socket) t i)
            s
    ]
