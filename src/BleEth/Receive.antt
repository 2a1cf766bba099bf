-- ===== src/BleEth/Receive.antt =====
-- app/src/main/cpp/ble_eth.c, `process_dgram_asm`: the fragments of a datagram are put together,
-- and chunks that do not fit make the receiver give up the datagram.
use adapto_lite.Prelude.{
  ℕ, ◌+◌, ◌≤◌, ◌<◌, ◌≡◌, refl, none, some, List, [], ◌∷◌, Bool, true, false, length, arith, inc32,
  le→leb, low_bits,
}
use adapto_lite.Prelude.Bytes.{Memory, write}
use adapto_lite.EthMem.State.{Run, done, ◌>>=◌, EthMem, set_pbuf, eth_mem_buf_size, ble_netif_id}
use adapto_lite.EthMem.Pbufs.{eth_pbuf_alloc}
use adapto_lite.EthMem.Queues.{eth_add_packet_to_router_queue}
use adapto_lite.BleEth.{BleEth, process_dgram_asm, store_chunk, ok}
use adapto_lite.BleEth.Fragments.{encode, seq-head, first-head, last-head}

-- The chunks of `cs`, one after the other.
unfoldable pub receive_all : BleEth → List (List ℕ) → Run BleEth
receive_all b [] = done b
receive_all b (c ∷ cs) = process_dgram_asm b c >>= λ (r, b1). receive_all b1 cs

-- The buffer `p` holds what was received of a datagram, and the chunk `seq` is the next.
pub record Receiving (b : BleEth) (p seq : ℕ) : Type 0 where
  pub buffer : b.rx_pbuf ≡ some p
  pub no_reset : b.eth_rst_req_rx ≡ 0
  pub no_error : b.rx_seq_err ≡ 0
  pub next : low_bits (b.rx_prev_seq + 1) 6 ≡ low_bits seq 6

-- A chunk was counted, and it is the chunk `seq`.
unfoldable pub accepted : BleEth → ℕ → BleEth
accepted b seq = record b {
  rx_prev_seq = low_bits seq 6;
  stats = record (b.stats) { rx_chunks = inc32 b.stats.rx_chunks };
}

pub process_dgram_asm-next :
    (b : BleEth) (p seq : ℕ) (last : Bool) (x : ℕ) (xs : List ℕ)
    → Receiving b p seq
    → process_dgram_asm b
        (encode (low_bits seq 6) (record { first = false; last = last; body = x ∷ xs }))
      ≡ store_chunk (accepted b seq) p last (x ∷ xs) >>= λ b2. done (ok, b2)
unfolding process_dgram_asm accepted
process_dgram_asm-next b p seq last x xs r =
    let small : low_bits seq 6 < 64 = omega arith in
    rw
      (
        seq-head (low_bits seq 6) false last small,
        first-head (low_bits seq 6) false last small,
        last-head (low_bits seq 6) false last small,
      )
      ground (arith, r.buffer, r.no_reset, r.no_error, r.next)

-- The first chunk takes the buffer `p`, and `m` is the pool then.
unfoldable pub begun : BleEth → ℕ → EthMem → ℕ → BleEth
begun b p m seq = record b {
  mem = m;
  eth_rst_req_rx = 0;
  rx_pbuf = some p;
  rx_ptr = 0;
  rx_prev_seq = low_bits seq 6;
  rx_seq_err = 0;
  stats = record (b.stats) { rx_chunks = inc32 b.stats.rx_chunks };
}

pub process_dgram_asm-first :
    (b : BleEth) (p : ℕ) (m : EthMem) (seq : ℕ) (last : Bool) (x : ℕ) (xs : List ℕ)
    → b.rx_pbuf ≡ none
    → eth_pbuf_alloc b.mem none ≡ done (some p, m)
    → process_dgram_asm b
        (encode (low_bits seq 6) (record { first = true; last = last; body = x ∷ xs }))
      ≡ store_chunk (begun b p m seq) p last (x ∷ xs) >>= λ b2. done (ok, b2)
unfolding process_dgram_asm begun
process_dgram_asm-first b p m seq last x xs z e =
    let small : low_bits seq 6 < 64 = omega arith in
    let next : low_bits (low_bits (low_bits seq 6 + 63) 6 + 1) 6 ≡ low_bits seq 6 = omega arith in
    rw
      (
        seq-head (low_bits seq 6) true last small,
        first-head (low_bits seq 6) true last small,
        last-head (low_bits seq 6) true last small,
      )
      (ground (arith, z, e, next))

-- The pool with the datagram of `n` bytes in the buffer `p`.
abbrev pub datagram : EthMem → ℕ → Memory → ℕ → EthMem
datagram m p bytes n =
    set_pbuf (record m { bytes = bytes }) p
      (record (m.pbuf p) { len = n; tot_len = n; if_idx = ble_netif_id })

abbrev pub appended : BleEth → ℕ → List ℕ → Memory
appended b p body = write b.mem.bytes ((b.mem.pbuf p).payload + b.rx_ptr) body

unfoldable pub stored : BleEth → ℕ → List ℕ → BleEth
stored b p body = record b {
  mem = record (b.mem) { bytes = appended b p body };
  rx_ptr = b.rx_ptr + length body;
}

pub store_chunk-more :
    (b : BleEth) (p : ℕ) (body : List ℕ)
    → b.rx_ptr + length body ≤ eth_mem_buf_size
    → store_chunk b p false body ≡ done (stored b p body)
unfolding store_chunk stored
store_chunk-more b p body h = rw (le→leb _ _ h) refl

unfoldable pub finished : BleEth → List ℕ → EthMem → BleEth
finished b body m = record b {
  mem = m;
  rx_ptr = b.rx_ptr + length body;
  rx_pbuf = none;
  stats = record (b.stats) { rx_dgrams = inc32 b.stats.rx_dgrams };
}

pub store_chunk-last :
    (b : BleEth) (p : ℕ) (body : List ℕ)
    → b.rx_ptr + length body ≤ eth_mem_buf_size
    → 14 ≤ b.rx_ptr + length body
    → store_chunk b p true body
      ≡ eth_add_packet_to_router_queue
          (datagram b.mem p (appended b p body) (b.rx_ptr + length body))
          p
        >>= λ m. done (finished b body m)
unfolding store_chunk finished
store_chunk-last b p body h k = rw (le→leb _ _ h, le→leb _ _ k) refl
