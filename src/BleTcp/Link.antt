-- ===== src/BleTcp/Link.antt =====
-- app/src/main/cpp/ble_tcp.c at the receiving end, and a whole datagram from one end to the other.
use adapto_lite.Prelude.{
  ℕ, ◌+◌, ◌≤◌, ◌≡◌, refl, ap, ◌∙◌, none, Option, List, [], ◌∷◌, ◌++◌, true, length, arith, low_bits,
  add32, inc32, ◌==◌,
}
use adapto_lite.Prelude.Bytes.{read, length-read}
use adapto_lite.Xlib.{t_notify_add}
use adapto_lite.EthMem.State.{
  Run, done, em_assert, bad_access, out_of_fuel, ◌>>=◌, EthMem, eth_mem_buf_size,
}
use adapto_lite.EthMem.Pbufs.Rep.{Rep, ref_of}
use adapto_lite.EthMem.Pbufs.Free.{eth_pbuf_free_request-Rep}
use adapto_lite.EthMem.Queues.{eth_add_packet_to_router_queue}
use adapto_lite.BleEth.{BleEth, AsmResult, process_dgram_asm}
use adapto_lite.BleEth.Fragments.{Fragment, fragments, encode, encode_all}
use adapto_lite.BleEth.Receive.{receive_all}
use adapto_lite.BleEth.Reassembly.{outcome}
use adapto_lite.BleEth.Send.{Sending, unsent, Rep-along}
use adapto_lite.BleEth.Datagrams.{process_dgram_asm-fragments, no_buffer_left}
use adapto_lite.BleTcp.{BleTcp, process_gatt_data}
use adapto_lite.BleTcp.Rounds.{send_rounds, Ready}
use adapto_lite.BleTcp.Transport.{blocks, transmit}

-- The blocks `bs` arrive, one after the other.
unfoldable pub receive_blocks : BleTcp → List (List ℕ) → Run BleTcp
receive_blocks r [] = done r
receive_blocks r (b ∷ bs) = process_gatt_data r b >>= λ r1. receive_blocks r1 bs

abbrev eth_of : BleTcp → Run BleEth
eth_of r = done r.eth

eth_after :
    (x : Run (AsmResult × BleEth)) (f : BleEth → BleTcp) (k : BleTcp → Run BleTcp)
    (h : BleEth → Run BleEth)
    → ((e : BleEth) → (k (f e) >>= eth_of) ≡ h e)
    → (x >>= (λ y. done (f y.1)) >>= k >>= eth_of) ≡ (x >>= λ y. h y.1)
eth_after (done (r, e)) f k h same = same e
eth_after (em_assert n) f k h same = refl
eth_after bad_access f k h same = refl
eth_after out_of_fuel f k h same = refl

-- The block `ack ∷ c` was counted and acknowledges; the chunk `c` left `e` in ble_eth.c.
arrived : BleTcp → ℕ → List ℕ → BleEth → BleTcp
arrived r ack c e = record r {
  eth = e;
  stats = record (r.stats) {
    rx_raw = inc32 r.stats.rx_raw;
    rx_bytes = add32 r.stats.rx_bytes (length (ack ∷ c));
  };
  notify = t_notify_add r.notify 16;
  rx_nack_blk = low_bits ack 6;
}

-- What the blocks do to ble_eth.c is what `process_dgram_asm` does with their chunks.
receive_blocks-eth :
    (fs : List Fragment) (r : BleTcp) (ack seq : ℕ)
    → (receive_blocks r (blocks ack seq fs) >>= eth_of) ≡ receive_all r.eth (encode_all seq fs)
unfolding receive_blocks receive_all encode_all process_gatt_data arrived
receive_blocks-eth [] r ack seq = refl
receive_blocks-eth (f ∷ fs) r ack seq =
    let c = encode (low_bits seq 6) f in
    eth_after (process_dgram_asm r.eth c) (arrived r ack c)
      (λ r1. receive_blocks r1 (blocks ack (seq + 1) fs))
      (λ e. receive_all e (encode_all (seq + 1) fs))
      (λ e. receive_blocks-eth fs (arrived r ack c e) ack (seq + 1))

-- The pool of the receiver, and its buffer in progress.
abbrev pub delivered : BleTcp → Run (EthMem × Option ℕ)
delivered r = outcome r.eth

bind_eth :
    (x : Run BleTcp) (y : Run BleEth) → (x >>= eth_of) ≡ y → (x >>= delivered) ≡ (y >>= outcome)
bind_eth (done r) y h = ap (λ z. z >>= outcome) h
bind_eth (em_assert n) y h = ap (λ z. z >>= outcome) h
bind_eth bad_access y h = ap (λ z. z >>= outcome) h
bind_eth out_of_fuel y h = ap (λ z. z >>= outcome) h

-- A sender `b` with an open connection and an idle driver, whose task is notified, with a datagram of 14
-- to 1600 bytes in progress, not begun yet, in a buffer with one reference, and a driver that takes
-- every block; a receiver `r` with a free buffer and no datagram in progress: in some number of
-- rounds, each with the driver's callback, the task sends blocks which make `process_gatt_data`
-- at the receiver hand a buffer with exactly the sender's bytes to the router. Afterwards the
-- sender's task is ready for the next datagram and the buffer waits to be freed.
pub task_step-process_gatt_data :
    (accept : List ℕ → ℕ) (b r : BleTcp) (p q : ℕ)
    (free pending xs ys free2 pending2 held2 : List ℕ)
    → ((x : List ℕ) → accept x ≡ 1)
    → Ready b
    → Rep b.eth.mem free pending (xs ++ p ∷ ys)
    → ref_of b.eth.mem p ≡ 1
    → Sending b.eth p
    → b.eth.tx_ptr ≡ 0
    → 14 ≤ (b.eth.mem.pbuf p).len
    → (b.eth.mem.pbuf p).len ≤ eth_mem_buf_size
    → Rep r.eth.mem (q ∷ free2) pending2 held2
    → r.eth.rx_pbuf ≡ none
    → (k : ℕ) × (bs : List (List ℕ)) × (b' : BleTcp) × (m : EthMem) × (send_rounds k accept b
        ≡ done b')
      × (b'.sent ≡ b.sent ++ bs)
      × Ready b'
      × (b'.eth.current_tx_block ≡ none)
      × Rep b'.eth.mem free (pending ++ p ∷ []) (xs ++ ys)
      × ((m.pbuf q).len ≡ (b.eth.mem.pbuf p).len)
      × (read m.bytes (m.pbuf q).payload (m.pbuf q).len ≡ unsent b.eth p)
      × ((receive_blocks r bs >>= delivered)
          ≡ (eth_add_packet_to_router_queue m q >>= no_buffer_left))
task_step-process_gatt_data accept b r p q free pending xs ys free2 pending2 held2 all ready rep one
      s z long fits rep2 z2 =
    let d = unsent b.eth p in
    let l : length d ≡ (b.eth.mem.pbuf p).len =
      length-read b.eth.mem.bytes _ _ ∙ omega (arith, z) in
    let seq : ℕ = b.tx_index_blk in
    let first : (b.eth.tx_ptr == 0) ≡ true = ground (arith, z) in
    let fs = fragments 9 true d in
    let (m1, free_req, rep1) = eth_pbuf_free_request-Rep b.eth.mem p free pending xs ys rep one in
    let (b', run, t) =
      transmit accept all 9 b p seq m1 ready s (omega (arith, fits)) free_req refl in
    let (m, rm, len, idx, own, content, outside, handed) =
      process_dgram_asm-fragments 9 r.eth q seq d free2 pending2 held2 rep2 z2
        (omega (arith, l, long)) (omega (arith, l, fits)) in
    (
      length fs,
      blocks b.rx_nack_blk seq fs,
      b',
      m,
      rw first at run,
      rw first at t.sent,
      t.ready,
      t.finished.current,
      Rep-along t.finished.mem rep1,
      len ∙ l,
      rw len content,
      bind_eth (receive_blocks r (blocks b.rx_nack_blk seq fs)) _
            (receive_blocks-eth fs r b.rx_nack_blk seq)
          ∙ handed,
    )
