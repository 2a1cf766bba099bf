-- ===== src/BleEth/Send.antt =====
-- app/src/main/cpp/ble_eth.c, `get_next_chunk`: repeated calls cut the datagram in progress into
-- its fragments.
use adapto_lite.Prelude.{
  ℕ, zero, suc, ◌+◌, ◌-◌, ◌*◌, ◌≤◌, ◌<◌, ◌≡◌, refl, ap, ap₂, ◌∙◌, sym, none, some, List, [], ◌∷◌,
  ◌++◌, Bool, true, false, length, take, drop, map, arith, ◌==◌, ltb_cases, inl, inr, inc32,
}
use adapto_lite.Prelude.Bytes.{
  Memory, update, read, write, length-read, take-read, drop-read, read-write, write_below,
}
use adapto_lite.EthMem.State.{Run, done, ◌>>=◌, EthMem}
use adapto_lite.EthMem.Pbufs.{eth_pbuf_free_request}
use adapto_lite.EthMem.Pbufs.Rep.{Rep, ref_of}
use adapto_lite.EthMem.Pbufs.Free.{eth_pbuf_free_request-Rep}
use adapto_lite.BleEth.{BleEth, get_next_chunk}
use adapto_lite.BleEth.Fragments.{Fragment, fragments, type_bits, untagged}

-- `n` calls of `get_next_chunk`, with the bytes of each chunk without the first, which belongs to
-- the link.
unfoldable pub send_chunks : ℕ → BleEth → Memory → Run (List (List ℕ) × BleEth)
send_chunks zero b chunk = done ([], b)
send_chunks (suc n) b chunk = get_next_chunk b chunk >>= λ (len, chunk1, b1).
    send_chunks n b1 chunk1 >>= λ (cs, b2). done (read chunk1 1 (len - 1) ∷ cs, b2)

-- What of the datagram `p` is not sent yet.
abbrev pub unsent : BleEth → ℕ → List ℕ
unsent b p = read b.mem.bytes ((b.mem.pbuf p).payload + b.tx_ptr) ((b.mem.pbuf p).len - b.tx_ptr)

-- The datagram `p` is in progress.
pub record Sending (b : BleEth) (p : ℕ) : Type 0 where
  pub current : b.current_tx_block ≡ some p
  pub no_reset : b.tx_rst ≡ 0
  pub not_pending : b.cbk_pending ≡ 0
  pub within : b.tx_ptr ≤ (b.mem.pbuf p).len

unfoldable pub filled : BleEth → ℕ → Memory → ℕ → Bool → Memory
filled b p chunk n last =
    write (update chunk 1 (type_bits (b.tx_ptr == 0) last)) 2
      (read b.mem.bytes ((b.mem.pbuf p).payload + b.tx_ptr) n)

pub read-filled :
    (b : BleEth) (p : ℕ) (chunk : Memory) (n : ℕ) (last : Bool)
    → read (filled b p chunk n last) 1 (n + 2 - 1)
      ≡ type_bits (b.tx_ptr == 0) last ∷ read b.mem.bytes ((b.mem.pbuf p).payload + b.tx_ptr) n
unfolding filled read
read-filled b p chunk n last =
    let e : n + 2 - 1 ≡ suc n = omega arith in
    let part = read b.mem.bytes ((b.mem.pbuf p).payload + b.tx_ptr) n in
    let head = update chunk 1 (type_bits (b.tx_ptr == 0) last) in
    rw e (
      ap₂ ◌∷◌ (write_below head 2 part 1 (omega arith)) (
        ap (λ k. read (write head 2 part) 2 k) (sym (length-read b.mem.bytes _ n))
        ∙ read-write head 2 part))

unfoldable pub advanced : BleEth → BleEth
advanced b = record b {
  tx_ptr = b.tx_ptr + 167;
  stats = record (b.stats) { tx_chunks = inc32 b.stats.tx_chunks };
}

pub get_next_chunk-more :
    (b : BleEth) (p : ℕ) (chunk : Memory)
    → Sending b p
    → 167 < (b.mem.pbuf p).len - b.tx_ptr
    → get_next_chunk b chunk ≡ done (169, filled b p chunk 167 false, advanced b)
unfolding get_next_chunk filled advanced
get_next_chunk-more b p chunk s h = ground (arith, s.current, s.no_reset, s.not_pending, s.within)

unfoldable pub ended : BleEth → EthMem → BleEth
ended b m = record b {
  mem = m;
  current_tx_block = none;
  tx_ptr = 0;
  stats = record (b.stats) {
    tx_chunks = inc32 b.stats.tx_chunks;
    tx_dgrams = inc32 b.stats.tx_dgrams;
  };
}

pub get_next_chunk-last :
    (b : BleEth) (p : ℕ) (chunk : Memory) (m : EthMem)
    → Sending b p
    → (b.mem.pbuf p).len - b.tx_ptr ≤ 167
    → eth_pbuf_free_request b.mem p ≡ done m
    → get_next_chunk b chunk
      ≡ done (
        (b.mem.pbuf p).len - b.tx_ptr + 2,
        filled b p chunk ((b.mem.pbuf p).len - b.tx_ptr) true,
        ended b m,
      )
unfolding get_next_chunk filled ended
get_next_chunk-last b p chunk m s h e =
    ground (arith, s.current, s.no_reset, s.not_pending, s.within, e)

pub advanced-Sending :
    (b : BleEth) (p : ℕ)
    → Sending b p
    → 167 < (b.mem.pbuf p).len - b.tx_ptr
    → Sending (advanced b) p
unfolding advanced
advanced-Sending b p s h = record {
  current = s.current;
  no_reset = s.no_reset;
  not_pending = s.not_pending;
  within = omega (arith, h);
}

unsent-advanced :
    (b : BleEth) (p : ℕ)
    → 167 < (b.mem.pbuf p).len - b.tx_ptr
    → drop 167 (unsent b p) ≡ unsent (advanced b) p
unfolding advanced
unsent-advanced b p h =
    let a : ℕ = (b.mem.pbuf p).payload in
    let n : ℕ = (b.mem.pbuf p).len in
    let i : ℕ = b.tx_ptr in
    let e : a + i + 167 ≡ a + (i + 167) = omega arith in
    let k : n - i - 167 ≡ n - (i + 167) = omega arith in
    drop-read b.mem.bytes (a + i) 167 (n - i) (omega arith) ∙ ap₂ (λ x y. read b.mem.bytes x y) e k

-- The last chunk of a datagram, and the buffer goes back.
send_last :
    (b : BleEth) (p : ℕ) (chunk : Memory) (m : EthMem)
    → Sending b p
    → (b.mem.pbuf p).len - b.tx_ptr ≤ 167
    → eth_pbuf_free_request b.mem p ≡ done m
    → send_chunks 1 b chunk ≡ done ((type_bits (b.tx_ptr == 0) true ∷ unsent b p) ∷ [], ended b m)
unfolding send_chunks
send_last b p chunk m s h e =
    rw
      (
        get_next_chunk-last b p chunk m s h e,
        read-filled b p chunk ((b.mem.pbuf p).len - b.tx_ptr) true,
      )
      refl

send_more :
    (b : BleEth) (p : ℕ) (chunk : Memory) (n : ℕ)
    → Sending b p
    → 167 < (b.mem.pbuf p).len - b.tx_ptr
    → send_chunks (suc n) b chunk
      ≡ send_chunks n (advanced b) (filled b p chunk 167 false) >>= λ (cs, b2).
          done ((type_bits (b.tx_ptr == 0) false ∷ take 167 (unsent b p)) ∷ cs, b2)
unfolding send_chunks
send_more b p chunk n s h =
    rw
      (
        get_next_chunk-more b p chunk s h,
        take-read b.mem.bytes ((b.mem.pbuf p).payload + b.tx_ptr) 167
            ((b.mem.pbuf p).len - b.tx_ptr) (omega arith),
      )
      (rw (read-filled b p chunk 167 false) refl)

-- Nothing is in progress, the pool is `m`, and one more datagram was counted.
pub record Sent (b b' : BleEth) (m : EthMem) : Type 0 where
  pub mem : b'.mem ≡ m
  pub current : b'.current_tx_block ≡ none
  pub tx_ptr : b'.tx_ptr ≡ 0
  pub tx_dgrams : b'.stats.tx_dgrams ≡ inc32 b.stats.tx_dgrams

abbrev pub fragments_of : ℕ → BleEth → ℕ → List Fragment
fragments_of n b p = fragments n (b.tx_ptr == 0) (unsent b p)

pub fragments-advanced :
    (n : ℕ) (b : BleEth) (p : ℕ)
    → 167 < (b.mem.pbuf p).len - b.tx_ptr
    → fragments n false (drop 167 (unsent b p)) ≡ fragments_of n (advanced b) p
unfolding advanced
fragments-advanced n b p h =
    let e : (b.tx_ptr + 167 == 0) ≡ false = ground arith in
    rw e (ap (λ l. fragments n false l) (unsent-advanced b p h))

send_fragments :
    (n : ℕ) (b : BleEth) (p : ℕ) (chunk : Memory) (m : EthMem)
    → Sending b p
    → (b.mem.pbuf p).len - b.tx_ptr ≤ 167 * (n + 1)
    → eth_pbuf_free_request b.mem p ≡ done m
    → (b' : BleEth) × (send_chunks (length (fragments_of n b p)) b chunk
        ≡ done (map untagged (fragments_of n b p), b'))
      × Sent b b' m
unfolding fragments ended advanced
send_fragments zero b p chunk m s h e = (
  ended b m,
  send_last b p chunk m s (omega arith) e,
  record { mem = refl; current = refl; tx_ptr = refl; tx_dgrams = refl },
)
send_fragments (suc n) b p chunk m s h e = elim (ltb_cases 167 (length (unsent b p))) [
  | inl (more, t) ↦
      let h1 : 167 < (b.mem.pbuf p).len - b.tx_ptr = omega (arith, more, k) in
      let (b', r, sent) =
        send_fragments n (advanced b) p (filled b p chunk 167 false) m (advanced-Sending b p s h1)
          (omega (arith, h, h1)) e in
      rw (t, fragments-advanced n b p h1)
        (
          b',
          send_more b p chunk _ s h1
              ∙ ap
                  (λ x. x >>= λ (cs, b2).
                    done ((type_bits (b.tx_ptr == 0) false ∷ take 167 (unsent b p)) ∷ cs, b2))
                  r,
          record {
            mem = sent.mem;
            current = sent.current;
            tx_ptr = sent.tx_ptr;
            tx_dgrams = sent.tx_dgrams;
          },
        )
  | inr (less, t) ↦ rw t (
    ended b m,
    send_last b p chunk m s (omega (arith, less, k)) e,
    record { mem = refl; current = refl; tx_ptr = refl; tx_dgrams = refl },
  )
]
  where
    k : length (unsent b p) ≡ (b.mem.pbuf p).len - b.tx_ptr
    k = length-read b.mem.bytes _ _

pub Rep-along :
    {m k : EthMem} {free pending held : List ℕ}
    → k ≡ m
    → Rep m free pending held
    → Rep k free pending held
Rep-along e r = rw e r

-- A datagram in progress, not begun yet, that a buffer with one reference holds: as many calls as it has
-- fragments return the fragments in order, and after the last one nothing is in progress and the
-- buffer waits to be freed.
pub get_next_chunk-fragments :
    (n : ℕ) (b : BleEth) (p : ℕ) (chunk : Memory) (free pending xs ys : List ℕ)
    → Rep b.mem free pending (xs ++ p ∷ ys)
    → ref_of b.mem p ≡ 1
    → Sending b p
    → b.tx_ptr ≡ 0
    → (b.mem.pbuf p).len ≤ 167 * (n + 1)
    → (b' : BleEth) × (send_chunks (length (fragments n true (unsent b p))) b chunk
        ≡ done (map untagged (fragments n true (unsent b p)), b'))
      × Rep b'.mem free (pending ++ p ∷ []) (xs ++ ys)
      × (b'.current_tx_block ≡ none)
      × (b'.tx_ptr ≡ 0)
      × (b'.stats.tx_dgrams ≡ inc32 b.stats.tx_dgrams)
get_next_chunk-fragments n b p chunk free pending xs ys r one s z h =
    let (m, e, r') = eth_pbuf_free_request-Rep b.mem p free pending xs ys r one in
    let (b', eq, sent) = send_fragments n b p chunk m s (omega (arith, h)) e in
    let t : (b.tx_ptr == 0) ≡ true = ground (arith, z) in
    (b', rw t at eq, Rep-along sent.mem r', sent.current, sent.tx_ptr, sent.tx_dgrams)
