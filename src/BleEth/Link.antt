-- ===== src/BleEth/Link.antt =====
-- app/src/main/cpp/ble_eth.c on both sides of the link, which sets the sequence numbers between
-- them (ble_tcp.c).
use adapto_lite.Prelude.{
  ℕ, ◌+◌, ◌≤◌, ◌≡◌, refl, ap, ◌∙◌, none, List, [], ◌∷◌, ◌++◌, true, length, map, arith, low_bits,
}
use adapto_lite.Prelude.Bytes.{Memory, read, length-read}
use adapto_lite.EthMem.State.{done, ◌>>=◌, EthMem, eth_mem_buf_size}
use adapto_lite.EthMem.Queues.{eth_add_packet_to_router_queue}
use adapto_lite.EthMem.Pbufs.Rep.{Rep, ref_of}
use adapto_lite.BleEth.{BleEth}
use adapto_lite.BleEth.Fragments.{Fragment, fragments, encode, encode_all, untagged}
use adapto_lite.BleEth.Receive.{receive_all}
use adapto_lite.BleEth.Reassembly.{outcome}
use adapto_lite.BleEth.Send.{send_chunks, Sending, unsent, get_next_chunk-fragments}
use adapto_lite.BleEth.Datagrams.{process_dgram_asm-fragments, no_buffer_left}

-- The link adds a sequence number to the first byte of a chunk.
abbrev pub tag : ℕ → List ℕ → List ℕ
tag seq [] = []
tag seq (h ∷ body) = (low_bits seq 6 + h) ∷ body

abbrev pub tag_all : ℕ → List (List ℕ) → List (List ℕ)
tag_all seq [] = []
tag_all seq (c ∷ cs) = tag seq c ∷ tag_all (seq + 1) cs

tag_untagged : (seq : ℕ) (fs : List Fragment) → tag_all seq (map untagged fs) ≡ encode_all seq fs
unfolding encode_all
tag_untagged seq [] = refl
tag_untagged seq (f ∷ fs) = ap (λ l. encode (low_bits seq 6) f ∷ l) (tag_untagged (seq + 1) fs)

-- A datagram of 14 to 1600 bytes in progress at a sender `b`, not begun yet, in a buffer with one
-- reference, and a receiver `c` with a free buffer and no datagram in progress: some number of
-- calls of `get_next_chunk` return chunks which, numbered from any sequence number on, make
-- `process_dgram_asm` hand a buffer with exactly the sender's bytes to the router.
pub get_next_chunk-process_dgram_asm :
    (b c : BleEth) (chunk : Memory) (p q seq : ℕ) (free pending xs ys free2 pending2 held2 : List ℕ)
    → Rep b.mem free pending (xs ++ p ∷ ys)
    → ref_of b.mem p ≡ 1
    → Sending b p
    → b.tx_ptr ≡ 0
    → 14 ≤ (b.mem.pbuf p).len
    → (b.mem.pbuf p).len ≤ eth_mem_buf_size
    → Rep c.mem (q ∷ free2) pending2 held2
    → c.rx_pbuf ≡ none
    → (k : ℕ) × (cs : List (List ℕ)) × (b' : BleEth) × (m : EthMem) × (send_chunks k b chunk
        ≡ done (cs, b'))
      × ((m.pbuf q).len ≡ (b.mem.pbuf p).len)
      × (read m.bytes (m.pbuf q).payload (m.pbuf q).len ≡ unsent b p)
      × ((receive_all c (tag_all seq cs) >>= outcome)
          ≡ (eth_add_packet_to_router_queue m q >>= no_buffer_left))
get_next_chunk-process_dgram_asm b c chunk p q seq free pending xs ys free2 pending2 held2 r one s z
      long fits r2 z2 =
    let d = unsent b p in
    let l : length d ≡ (b.mem.pbuf p).len = length-read b.mem.bytes _ _ ∙ omega (arith, z) in
    let fs = fragments 9 true d in
    let (b', sent, _, _, _, _) =
      get_next_chunk-fragments 9 b p chunk free pending xs ys r one s z (omega (arith, fits)) in
    let (m, rm, len, idx, own, content, outside, run) =
      process_dgram_asm-fragments 9 c q seq d free2 pending2 held2 r2 z2 (omega (arith, l, long))
        (omega (arith, l, fits)) in
    (length fs, map untagged fs, b', m, sent, len ∙ l, rw len content, rw (tag_untagged seq fs) run)
