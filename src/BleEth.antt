-- ===== src/BleEth.antt =====
-- app/src/main/cpp/ble_eth.c: datagrams are cut into chunks for the Bluetooth link, and put
-- together from the chunks that arrive. The first byte of a chunk holds a sequence number in its
-- low six bits, bit 6 on the first chunk of a datagram and bit 7 on the last.
pub mod Fragments
pub mod Init
pub mod Receive
pub mod Reassembly
pub mod Datagrams
pub mod Link
pub mod Drop
pub mod Tests
pub mod Send
use adapto_lite.Prelude.{
  ℕ, suc, ◌+◌, ◌-◌, Option, none, some, List, [], ◌∷◌, Bool, true, false, not, ◌||◌, ltb, leb, ◌==◌,
  if◌then◌else◌, inc32, low_bits, has_bit, length,
}
use adapto_lite.Prelude.Bytes.{Memory, update, read, write}
use adapto_lite.EthMem.State.{
  Run, done, em_assert, bad_access, out_of_fuel, ◌>>=◌, EthMem, set_pbuf, eth_mem_buf_size,
  ble_netif_id,
}
use adapto_lite.EthMem.Pbufs.{eth_pbuf_alloc, eth_pbuf_free_request}
use adapto_lite.EthMem.Queues.{eth_add_packet_to_router_queue, eth_get_packet}

-- `struct BLE_ETH_STATS`, without the fields that no function counts.
pub record BleEthStats : Type 0 where
  pub tx_chunks : ℕ
  pub rx_chunks : ℕ
  pub tx_dgrams : ℕ
  pub rx_dgrams : ℕ
  pub rx_too_short_chunk : ℕ
  pub rx_too_short_dgram : ℕ
  pub rx_oversize : ℕ
  pub rx_pbuf_alloc_err : ℕ
  pub rx_seqerr : ℕ

-- The static variables of ble_eth.c, and the pool that the functions work on.
pub record BleEth : Type 0 where
  pub mem : EthMem
  pub stats : BleEthStats
  pub current_tx_block : Option ℕ
  pub eth_rst_req_rx : ℕ
  pub tx_rst : ℕ
  pub rx_pbuf : Option ℕ
  pub rx_ptr : ℕ
  pub rx_prev_seq : ℕ
  pub rx_seq_err : ℕ
  pub tx_ptr : ℕ
  pub cbk_pending : ℕ

pub max_chunk_len : ℕ
max_chunk_len = 167

unfoldable pub gatt_eth_reset : BleEth → BleEth
gatt_eth_reset b = record b { eth_rst_req_rx = 1; tx_rst = 1 }

-- What `process_dgram_asm` returns.
pub data AsmResult : Type 0 where
  ok no_buffer : AsmResult

abbrev count : BleEth → BleEthStats → BleEth
count b s = record b { stats = s }

-- The buffer in progress is given up.
drop_rx : BleEth → ℕ → Run BleEth
drop_rx b p = eth_pbuf_free_request b.mem p >>= λ m. done (record b { mem = m; rx_pbuf = none })

-- A reset request drops what has been received of a datagram.
reset_rx : BleEth → Run BleEth
unfolding drop_rx
reset_rx b =
    if b.eth_rst_req_rx == 0
    then done b
    else let b1 : BleEth = record b { eth_rst_req_rx = 0 } in
      elim b.rx_pbuf [
        | none ↦ done (record b1 { rx_ptr = 0 })
        | some p ↦ drop_rx b1 p >>= λ b2. done (record b2 { rx_ptr = 0 })
      ]

-- The first chunk of a datagram takes a buffer, unless one is left over.
start_dgram : BleEth → ℕ → Run (AsmResult × BleEth)
start_dgram b seq =
    let b1 : BleEth = record b {
      rx_ptr = 0;
      rx_seq_err = 0;
      rx_prev_seq = low_bits (seq + 63) 6;
    } in
    elim b.rx_pbuf [
      | some p ↦ done (ok, b1)
      | none ↦ eth_pbuf_alloc b.mem none >>= λ (p?, m). done (elim p? [
        | none ↦ (
          no_buffer,
          record b1 {
            mem = m;
            stats = record (b.stats) { rx_pbuf_alloc_err = inc32 b.stats.rx_pbuf_alloc_err };
          },
        )
        | some p ↦ (ok, record b1 { mem = m; rx_pbuf = some p })
      ])
    ]

-- The last chunk: the datagram goes to the router if it has an Ethernet header.
finish_dgram : BleEth → ℕ → Run BleEth
finish_dgram b p =
    let n : ℕ = b.rx_ptr in
    let m =
      set_pbuf b.mem p (record (b.mem.pbuf p) { len = n; tot_len = n; if_idx = ble_netif_id }) in
    if leb 14 n
    then (eth_add_packet_to_router_queue m p >>= λ m1. done (record b {
      mem = m1;
      rx_pbuf = none;
      stats = record (b.stats) { rx_dgrams = inc32 b.stats.rx_dgrams };
    }))
    else (eth_pbuf_free_request m p >>= λ m1. done (record b {
      mem = m1;
      rx_pbuf = none;
      stats = record (b.stats) { rx_too_short_dgram = inc32 b.stats.rx_too_short_dgram };
    }))

store_last : ℕ → Bool → BleEth → Run BleEth
unfolding finish_dgram
store_last p last b = if last then finish_dgram b p else done b

-- The bytes of a chunk go behind those that the buffer holds.
pub store_chunk : BleEth → ℕ → Bool → List ℕ → Run BleEth
unfolding store_last drop_rx
store_chunk b p last body =
    if leb (b.rx_ptr + length body) eth_mem_buf_size
    then store_last p last (record b {
      mem = record (b.mem) { bytes = write b.mem.bytes ((b.mem.pbuf p).payload + b.rx_ptr) body };
      rx_ptr = b.rx_ptr + length body;
    })
    else drop_rx (count b (record (b.stats) { rx_oversize = inc32 b.stats.rx_oversize })) p

-- A chunk of the datagram in progress, whose sequence number must be the next.
next_chunk : BleEth → ℕ → Bool → List ℕ → Option ℕ → Run (AsmResult × BleEth)
unfolding store_chunk drop_rx
next_chunk b seq last body none = done (ok, b)
next_chunk b seq last body (some p) =
    let prev : ℕ = low_bits (b.rx_prev_seq + 1) 6 in
    let b1 : BleEth = record b { rx_prev_seq = prev } in
    if not (prev == seq) || not (b.rx_seq_err == 0)
    then (drop_rx (count b1 (record (b.stats) { rx_seqerr = inc32 b.stats.rx_seqerr })) p >>= λ b2.
        done (ok, b2))
    else (store_chunk b1 p last body >>= λ b2. done (ok, b2))

continue_dgram : ℕ → Bool → List ℕ → AsmResult × BleEth → Run (AsmResult × BleEth)
unfolding next_chunk
continue_dgram seq last body (ok, b) = next_chunk b seq last body b.rx_pbuf
continue_dgram seq last body (no_buffer, b) = done (no_buffer, b)

-- A chunk with the header byte `h` before `body`.
receive_chunk : BleEth → ℕ → List ℕ → Run (AsmResult × BleEth)
unfolding start_dgram continue_dgram
receive_chunk b h body =
    (if has_bit h 6 then start_dgram b (low_bits h 6) else done (ok, b))
    >>= continue_dgram (low_bits h 6) (has_bit h 7) body

-- `process_dgram_asm(data, len)`, with `len` the length of `data`.
unfoldable pub process_dgram_asm : BleEth → List ℕ → Run (AsmResult × BleEth)
unfolding reset_rx receive_chunk
process_dgram_asm b (h ∷ x ∷ rest) =
    reset_rx (count b (record (b.stats) { rx_chunks = inc32 b.stats.rx_chunks })) >>= λ b1.
    receive_chunk b1 h (x ∷ rest)
process_dgram_asm b _ = done (
  ok,
  count b (record (b.stats) {
    rx_chunks = inc32 b.stats.rx_chunks;
    rx_too_short_chunk = inc32 b.stats.rx_too_short_chunk;
  }),
)

-- The rest of the datagram `p`, at most 167 bytes, goes into the chunk from its third byte on; the
-- second byte says whether it is the first or the last. A send pointer behind the end would make
-- the length for `memcpy` negative.
fill_chunk : BleEth → ℕ → Memory → Run (ℕ × Memory × BleEth)
unfolding max_chunk_len
fill_chunk b p chunk =
    let total : ℕ = (b.mem.pbuf p).len in
    if ltb total b.tx_ptr
    then bad_access
    else let rest : ℕ = total - b.tx_ptr in
      let more : Bool = ltb max_chunk_len rest in
      let len : ℕ = if more then max_chunk_len else rest in
      let head : ℕ = (if b.tx_ptr == 0 then 0x40 else 0) + (if more then 0 else 0x80) in
      let part = read b.mem.bytes ((b.mem.pbuf p).payload + b.tx_ptr) len in
      let chunk1 = write (update chunk 1 head) 2 part in
      let s : BleEthStats = record (b.stats) { tx_chunks = inc32 b.stats.tx_chunks } in
      if more
      then done (len + 2, chunk1, record b { tx_ptr = b.tx_ptr + len; stats = s })
      else eth_pbuf_free_request b.mem p >>= λ m. done (
        len + 2,
        chunk1,
        record b {
          mem = m;
          current_tx_block = none;
          tx_ptr = 0;
          stats = record s { tx_dgrams = inc32 b.stats.tx_dgrams };
        },
      )

-- The next datagram for the link, if there is one; otherwise the bridge will call back.
fetch_dgram : BleEth → Memory → Run (ℕ × Memory × BleEth)
unfolding fill_chunk
fetch_dgram b chunk = eth_get_packet b.mem ble_netif_id >>= λ (p?, m). elim p? [
  | none ↦ done (0, chunk, record b { mem = m; cbk_pending = 1 })
  | some p ↦ fill_chunk (record b { mem = m; current_tx_block = some p; cbk_pending = 0 }) p chunk
]

reset_tx : BleEth → BleEth
reset_tx b = if b.tx_rst == 0 then b else record b { tx_rst = 0; tx_ptr = 0 }

-- The result is the length of the chunk (0: nothing to send), the chunk's memory and the state.
unfoldable pub get_next_chunk : BleEth → Memory → Run (ℕ × Memory × BleEth)
unfolding reset_tx fetch_dgram
get_next_chunk b chunk =
    let b1 = reset_tx b in
    if not (b1.cbk_pending == 0)
    then done (0, chunk, b1)
    else elim b1.current_tx_block [ some p ↦ fill_chunk b1 p chunk | none ↦ fetch_dgram b1 chunk ]

-- The bridge hands over a datagram; the caller is notified (`next_chunk_avail`).
unfoldable pub callback_from_bridge : BleEth → ℕ → BleEth
callback_from_bridge b p = record b { current_tx_block = some p; cbk_pending = 0 }
