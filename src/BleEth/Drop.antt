-- ===== src/BleEth/Drop.antt =====
-- app/src/main/cpp/ble_eth.c, `process_dgram_asm`: chunks that make the receiver give up.
use adapto_lite.Prelude.{
  ℕ, ◌+◌, ◌<◌, ◌≡◌, ◌≢◌, refl, none, List, [], ◌∷◌, ◌++◌, false, length, arith, ◌⊎◌, ◌==◌, inl, inr,
  inc32, Bool-cases, low_bits, has_bit,
}
use adapto_lite.EthMem.State.{done, EthMem, eth_mem_buf_size}
use adapto_lite.EthMem.Pbufs.{eth_pbuf_free_request}
use adapto_lite.EthMem.Pbufs.Rep.{Rep, ref_of}
use adapto_lite.EthMem.Pbufs.Free.{eth_pbuf_free_request-Rep}
use adapto_lite.BleEth.{BleEth, process_dgram_asm, store_chunk, ok}
use adapto_lite.BleEth.Receive.{Receiving}

dropped : BleEth → EthMem → ℕ → ℕ → BleEth
dropped b m seqerr oversize = record b {
  mem = m;
  rx_pbuf = none;
  rx_prev_seq = low_bits (b.rx_prev_seq + 1) 6;
  stats = record (b.stats) {
    rx_chunks = inc32 b.stats.rx_chunks;
    rx_seqerr = seqerr;
    rx_oversize = oversize;
  };
}

drop_out_of_order :
    (b : BleEth) (p seq h x : ℕ) (body : List ℕ) (m : EthMem)
    → Receiving b p seq
    → has_bit h 6 ≡ false
    → eth_pbuf_free_request b.mem p ≡ done m
    → low_bits h 6 ≢ low_bits seq 6
    → process_dgram_asm b (h ∷ x ∷ body)
      ≡ done (ok, dropped b m (inc32 b.stats.rx_seqerr) b.stats.rx_oversize)
unfolding process_dgram_asm dropped
drop_out_of_order b p seq h x body m r mid e ne =
    rw mid (ground (arith, r.buffer, r.no_reset, r.no_error, r.next, e, ne))

drop_oversize :
    (b : BleEth) (p seq h x : ℕ) (body : List ℕ) (m : EthMem)
    → Receiving b p seq
    → has_bit h 6 ≡ false
    → eth_pbuf_free_request b.mem p ≡ done m
    → low_bits h 6 ≡ low_bits seq 6
    → eth_mem_buf_size < b.rx_ptr + length (x ∷ body)
    → process_dgram_asm b (h ∷ x ∷ body)
      ≡ done (ok, dropped b m b.stats.rx_seqerr (inc32 b.stats.rx_oversize))
unfolding process_dgram_asm dropped store_chunk
drop_oversize b p seq h x body m r mid e same long =
    rw mid (ground (arith, r.buffer, r.no_reset, r.no_error, r.next, e, same, long))

-- With a datagram in progress in a buffer with one reference, a chunk of at least two bytes that
-- begins no datagram and either has not the next sequence number or would make the datagram longer than 1600 bytes gives
-- the buffer back: it waits to be freed, and no datagram is in progress any more.
pub process_dgram_asm-drop :
    (b : BleEth) (p seq h x : ℕ) (body free pending xs ys : List ℕ)
    → Rep b.mem free pending (xs ++ p ∷ ys)
    → ref_of b.mem p ≡ 1
    → Receiving b p seq
    → has_bit h 6 ≡ false
    → (low_bits h 6 ≢ low_bits seq 6) ⊎ (eth_mem_buf_size < b.rx_ptr + length (x ∷ body))
    → (b' : BleEth) × (process_dgram_asm b (h ∷ x ∷ body) ≡ done (ok, b'))
      × Rep b'.mem free (pending ++ p ∷ []) (xs ++ ys)
      × (b'.rx_pbuf ≡ none)
      × (b'.stats.rx_dgrams ≡ b.stats.rx_dgrams)
unfolding dropped
process_dgram_asm-drop b p seq h x body free pending xs ys r one rec mid why =
    let (m, e, r') = eth_pbuf_free_request-Rep b.mem p free pending xs ys r one in
    elim (Bool-cases (low_bits h 6 == low_bits seq 6)) [
      | inl t ↦ (
        dropped b m b.stats.rx_seqerr (inc32 b.stats.rx_oversize),
        drop_oversize b p seq h x body m rec mid e (ground (arith, t)) (ground (arith, t, why)),
        r',
        refl,
        refl,
      )
      | inr f ↦ (
        dropped b m (inc32 b.stats.rx_seqerr) b.stats.rx_oversize,
        drop_out_of_order b p seq h x body m rec mid e (λ q. ground (arith, q, f)),
        r',
        refl,
        refl,
      )
    ]
