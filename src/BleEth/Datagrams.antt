-- ===== src/BleEth/Datagrams.antt =====
-- app/src/main/cpp/ble_eth.c: what `get_next_chunk` cuts, `process_dgram_asm` puts together.
use adapto_lite.Prelude.{
  ℕ, ◌+◌, ◌≤◌, ◌<◌, ◌≡◌, refl, ap, ◌∙◌, Option, none, some, List, [], ◌∷◌, true, length, arith, ◌⊎◌,
  inl, inr,
}
use adapto_lite.Prelude.Bytes.{Memory, read}
use adapto_lite.EthMem.State.{Run, done, ◌>>=◌, EthMem, eth_mem_buf_size, ble_netif_id}
use adapto_lite.EthMem.Pbufs.{eth_pbuf_alloc}
use adapto_lite.EthMem.Queues.{eth_add_packet_to_router_queue}
use adapto_lite.EthMem.Pbufs.Rep.{Rep, Rep-same}
use adapto_lite.EthMem.Pbufs.Alloc.{eth_pbuf_alloc-Rep}
use adapto_lite.BleEth.{BleEth}
use adapto_lite.BleEth.Fragments.{fragments, encode_all}
use adapto_lite.BleEth.Receive.{receive_all, Receiving, begun, datagram, process_dgram_asm-first}
use adapto_lite.BleEth.Reassembly.{Arrives, outcome, deliver_fragments}

Arrives-first :
    (b : BleEth) (p seq : ℕ) (m : EthMem)
    → b.rx_pbuf ≡ none
    → eth_pbuf_alloc b.mem none ≡ done (some p, m)
    → Arrives b (begun b p m seq) p seq true
unfolding Arrives
Arrives-first b p seq m z e last [] h = absurd (omega arith)
Arrives-first b p seq m z e last (x ∷ xs) h = process_dgram_asm-first b p m seq last x xs z e

begun-Receiving :
    (b : BleEth) (p : ℕ) (m : EthMem) (seq : ℕ) → Receiving (begun b p m seq) p (seq + 1)
unfolding begun
begun-Receiving b p m seq = record {
  buffer = refl;
  no_reset = refl;
  no_error = refl;
  next = omega arith;
}

datagram-Rep :
    (m : EthMem) (p : ℕ) (bytes : Memory) (n : ℕ) (free pending held : List ℕ)
    → Rep m free pending held
    → Rep (datagram m p bytes n) free pending held
datagram-Rep m p bytes n free pending held r =
    Rep-same m k free pending held (λ q. ground arith) (λ q. ground arith) refl refl r
  where
    k : EthMem
    k = datagram m p bytes n

payload-datagram :
    (m : EthMem) (p : ℕ) (bytes : Memory) (n : ℕ)
    → ((datagram m p bytes n).pbuf p).payload ≡ (m.pbuf p).payload
payload-datagram m p bytes n = ground arith

abbrev pub no_buffer_left : EthMem → Run (EthMem × Option ℕ)
no_buffer_left m = done (m, none)

-- With a free buffer `p` and no datagram in progress, the fragments of a datagram of 14 to 1600 bytes,
-- with sequence numbers from any one on, run as one call of `eth_add_packet_to_router_queue` for
-- the buffer `p`, which then holds exactly the datagram, and no other byte has changed.
pub process_dgram_asm-fragments :
    (n : ℕ) (b : BleEth) (p seq : ℕ) (d free pending held : List ℕ)
    → Rep b.mem (p ∷ free) pending held
    → b.rx_pbuf ≡ none
    → 14 ≤ length d
    → length d ≤ eth_mem_buf_size
    → (m : EthMem) × Rep m free pending (p ∷ held)
      × ((m.pbuf p).len ≡ length d)
      × ((m.pbuf p).if_idx ≡ ble_netif_id)
      × ((m.pbuf p).payload ≡ (b.mem.pbuf p).default_payload)
      × (read m.bytes (m.pbuf p).payload (length d) ≡ d)
      × ((a : ℕ)
          → (a < (m.pbuf p).payload) ⊎ ((m.pbuf p).payload + length d ≤ a)
          → m.bytes a ≡ b.mem.bytes a)
      × ((receive_all b (encode_all seq (fragments n true d)) >>= outcome)
          ≡ (eth_add_packet_to_router_queue m p >>= no_buffer_left))
unfolding begun read
process_dgram_asm-fragments n b p seq d free pending held r z long fits =
    let (k, e, r', one, own, end, kept) = eth_pbuf_alloc-Rep b.mem none p free pending held r in
    let x =
      deliver_fragments n b (begun b p k seq) p seq true d (Arrives-first b p seq k z e)
        (begun-Receiving b p k seq) (omega (arith, fits)) (omega (arith, long))
        (omega (arith, long)) in
    let zero_add : 0 + length d ≡ length d = omega arith in
    let at_p = payload-datagram k p x.bytes (length d) in
    (
      datagram k p x.bytes (length d),
      datagram-Rep k p x.bytes (length d) free pending (p ∷ held) r',
      ground arith,
      ground arith,
      ground (arith, own),
      rw at_p (rw zero_add at x.content),
      λ a o. elim o [
        | inl h ↦ x.outside a (inl (omega (arith, at_p, h))) ∙ ap (λ f. f a) kept
        | inr h ↦ x.outside a (inr (omega (arith, at_p, h))) ∙ ap (λ f. f a) kept
      ],
      rw zero_add at x.handed,
    )
