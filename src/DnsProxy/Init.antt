-- ===== src/DnsProxy/Init.antt =====
-- app/src/main/cpp/lwip/dnsproxy.c, `dnsproxy_init`. What lwIP's calls return are arguments.
use adapto_lite.Prelude.{ℕ, Bool, true, false, ◌==◌, if◌then◌else◌}
use adapto_lite.EthQueue.{EthQ}

-- The queue of queries, whether `pdns_recv` gets lwIP's datagrams, and whether the thread runs.
pub record DnsService : Type 0 where
  pub dns_q : EthQ
  pub receiving : Bool
  pub running : Bool

-- `udp_new` tells whether there is a connection, and `ret` is the result of `udp_bind`.
unfoldable pub dnsproxy_init : EthQ → Bool → ℕ → DnsService
dnsproxy_init q udp_new ret =
    let q1 : EthQ = record q { q_len_max = 5 } in
    if udp_new
    then (if ret == 0
        then record { dns_q = q1; receiving = true; running = true }
        else record { dns_q = q1; receiving = false; running = false })
    else record { dns_q = q1; receiving = false; running = true }
