-- ===== src/NatSockets/Writing.antt =====
-- app/src/main/cpp/eth_nat.c: a round of `NAT_Task` over the whole table.
use adapto_lite.Prelude.{ℕ, ◌<◌, ◌≡◌, ◌≢◌, List, [], true}
use adapto_lite.NatSockets.{NatEntry, Nats, LwPbuf, nat_tab_size}
use adapto_lite.NatSockets.Ring.{Ring}
use adapto_lite.NatSockets.Served.{Unsent}
use adapto_lite.NatSockets.Rounds.{is_active, has_packets}

-- The table `before` is that of the call of `select`, and `s` that of its return: meanwhile entries
-- may have been closed, but none was opened or got another socket, and no queue was emptied; no two
-- active entries share a socket. The ring of each entry holds the queue `q`, of which the first packet has
-- bytes left.
pub record Waited (pbufs : ℕ → LwPbuf) (before : ℕ → NatEntry) (s : Nats) (q : ℕ → List ℕ)
    : Type 0 where
  pub rings : (i : ℕ) → i < nat_tab_size → Ring (s.tab i) (q i)
  pub unsent : (i : ℕ) → i < nat_tab_size → Unsent pbufs (s.tab i).offs (q i)
  pub still :
      (i : ℕ)
      → i < nat_tab_size
      → is_active (s.tab i) ≡ true
      → (is_active (before i) ≡ true) × ((before i).socket ≡ (s.tab i).socket)
  pub kept : (i : ℕ) → i < nat_tab_size → has_packets (before i) ≡ true → q i ≢ []
  pub apart :
      (i j : ℕ)
      → i < nat_tab_size
      → j < nat_tab_size
      → is_active (before i) ≡ true
      → is_active (before j) ≡ true
      → (before i).socket ≡ (before j).socket
      → i ≡ j
