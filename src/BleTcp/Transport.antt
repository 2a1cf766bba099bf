-- ===== src/BleTcp/Transport.antt =====
-- app/src/main/cpp/ble_tcp.c on both sides of the link, with ble_eth.c above it: the rounds of the
-- sending task and the blocks' arrival in `process_gatt_data`.
use adapto_lite.Prelude.{
  ℕ, zero, suc, ◌+◌, ◌-◌, ◌*◌, ◌/◌, ◌%◌, ◌≤◌, ◌<◌, ◌≡◌, refl, ap, ap₂, ◌∙◌, List, [], ◌∷◌, ◌++◌,
  Bool, true, false, length, arith, ◌==◌, low_bits, map, take, ltb_cases, inl, inr, append_assoc,
}
use adapto_lite.Prelude.Bytes.{Memory, read, length-read, take-read}
use adapto_lite.EthMem.State.{Run, done, em_assert, bad_access, out_of_fuel, ◌>>=◌, EthMem}
use adapto_lite.EthMem.Pbufs.{eth_pbuf_free_request}
use adapto_lite.BleEth.{BleEth}
use adapto_lite.BleEth.Fragments.{Fragment, fragments, type_bits, encode, encode_all}
use adapto_lite.BleEth.Send.{
  Sending, Sent, unsent, filled, advanced, ended, read-filled, get_next_chunk-more,
  get_next_chunk-last, advanced-Sending, fragments_of, fragments-advanced,
}
use adapto_lite.BleTcp.{BleTcp, task_step, ble_tx_complete}
use adapto_lite.BleTcp.Round.{block}
use adapto_lite.BleTcp.Rounds.{send_rounds, Ready, completed, task_step-completed}

-- What the link carries for the chunks `fs`: an acknowledgement, and the chunk with its number.
abbrev pub blocks : ℕ → ℕ → List Fragment → List (List ℕ)
blocks ack seq fs = map (λ c. ack ∷ c) (encode_all seq fs)

type_bits_kept : (first last : Bool) → type_bits first last / 64 % 4 * 64 ≡ type_bits first last
type_bits_kept true true = refl
type_bits_kept true false = refl
type_bits_kept false true = refl
type_bits_kept false false = refl

first_of : List ℕ → ℕ
first_of [] = 0
first_of (x ∷ xs) = x

rest_of : List ℕ → List ℕ
rest_of [] = []
rest_of (x ∷ xs) = xs

-- The block of a chunk that `get_next_chunk` made.
block-filled :
    (b : BleTcp) (p n seq : ℕ) (last : Bool) (eth : BleEth)
    → low_bits b.tx_index_blk 6 ≡ low_bits seq 6
    → block (record b { eth = eth; snd_blk = filled b.eth p b.snd_blk n last }) n
      ≡ b.rx_nack_blk
        ∷ encode (low_bits seq 6) (record {
          first = b.eth.tx_ptr == 0;
          last = last;
          body = read b.eth.mem.bytes ((b.eth.mem.pbuf p).payload + b.eth.tx_ptr) n;
        })
unfolding read first_of rest_of
block-filled b p n seq last eth e =
    let k : n + 2 - 1 ≡ suc n = omega arith in
    let r = rw k at (read-filled b.eth p b.snd_blk n last) in
    ap₂ (λ (x : ℕ) (l : List ℕ). b.rx_nack_blk ∷ x ∷ l)
      (ap₂ (λ (x y : ℕ). x + y) e
        (ap (λ (x : ℕ). x / 64 % 4 * 64) (ap first_of r) ∙ type_bits_kept _ last))
      (ap rest_of r)

completed-Ready :
    (b : BleTcp) (count n : ℕ) (blk : Memory) (eth : BleEth) → Ready (completed b count n blk eth)
unfolding completed
completed-Ready b count n blk eth = record {
  count = count;
  posted = omega arith;
  woken = refl;
  idle = refl;
  empty = refl;
}

-- `n` rounds more, after one whose result is known.
rounds_after :
    (k : ℕ) (accept : List ℕ → ℕ) (b b1 : BleTcp)
    → (task_step accept 2 b >>= λ x. done (ble_tx_complete x)) ≡ done b1
    → send_rounds (suc k) accept b ≡ send_rounds k accept b1
unfolding send_rounds
rounds_after k accept b b1 e = after (task_step accept 2 b) e
  where
    done_injective : {x y : BleTcp} → done x ≡ done y → x ≡ y
    done_injective h = cc

    after :
        (x : Run BleTcp)
        → (x >>= λ y. done (ble_tx_complete y)) ≡ done b1
        → (x >>= λ y. send_rounds k accept (ble_tx_complete y)) ≡ send_rounds k accept b1
    after (done y) h = ap (send_rounds k accept) (done_injective h)
    after (em_assert n) h = cc
    after bad_access h = cc
    after out_of_fuel h = cc

-- All chunks of the datagram in progress were sent, one in each round.
pub record Transmitted (b b' : BleTcp) (m : EthMem) (l : List (List ℕ)) : Type 0 where
  pub ready : Ready b'
  pub sent : b'.sent ≡ b.sent ++ l
  pub finished : Sent b.eth b'.eth m

module _ (accept : List ℕ → ℕ) (all : (x : List ℕ) → accept x ≡ 1) where
  transmit_last :
      (b : BleTcp) (p seq : ℕ) (m : EthMem)
      → Ready b
      → Sending b.eth p
      → (b.eth.mem.pbuf p).len - b.eth.tx_ptr ≤ 167
      → eth_pbuf_free_request b.eth.mem p ≡ done m
      → low_bits b.tx_index_blk 6 ≡ low_bits seq 6
      → (b' : BleTcp) × (send_rounds 1 accept b ≡ done b')
        × Transmitted b b' m (
            blocks b.rx_nack_blk seq
              (record { first = b.eth.tx_ptr == 0; last = true; body = unsent b.eth p } ∷ []))
  unfolding completed send_rounds ended encode_all
  transmit_last b p seq m r s h e i =
      let n : ℕ = (b.eth.mem.pbuf p).len - b.eth.tx_ptr in
      let two : n + 2 ≡ suc (suc n) = omega arith in
      let blk = filled b.eth p b.snd_blk n true in
      let chunk =
        get_next_chunk-last b.eth p b.snd_blk m s h e
        ∙ ap (λ (x : ℕ). done (x, blk, ended b.eth m)) two in
      (
        completed b r.count n blk (ended b.eth m),
        rounds_after 0 accept b (completed b r.count n blk (ended b.eth m))
            (task_step-completed accept b n blk (ended b.eth m) r chunk all),
        record {
          ready = completed-Ready b r.count n blk (ended b.eth m);
          sent =
              ap (λ (x : List ℕ). b.sent ++ x ∷ []) (block-filled b p n seq true (ended b.eth m) i);
          finished = record { mem = refl; current = refl; tx_ptr = refl; tx_dgrams = refl };
        },
      )

  -- After a chunk that is not the last.
  after_more : (b : BleTcp) → Ready b → ℕ → BleTcp
  after_more b r p = completed b r.count 167 (filled b.eth p b.snd_blk 167 false) (advanced b.eth)

  transmit_more :
      (b : BleTcp) (p seq k : ℕ) (r : Ready b)
      → Sending b.eth p
      → 167 < (b.eth.mem.pbuf p).len - b.eth.tx_ptr
      → low_bits b.tx_index_blk 6 ≡ low_bits seq 6
      → (send_rounds (suc k) accept b ≡ send_rounds k accept (after_more b r p))
        × ((after_more b r p).sent
            ≡ b.sent
              ++ (b.rx_nack_blk
                  ∷ encode (low_bits seq 6) (record {
                    first = b.eth.tx_ptr == 0;
                    last = false;
                    body = take 167 (unsent b.eth p);
                  }))
                ∷ [])
  unfolding completed after_more
  transmit_more b p seq k r s h i =
      let blk = filled b.eth p b.snd_blk 167 false in
      let part =
        take-read b.eth.mem.bytes ((b.eth.mem.pbuf p).payload + b.eth.tx_ptr) 167
          ((b.eth.mem.pbuf p).len - b.eth.tx_ptr) (omega (arith, h)) in
      (
        rounds_after k accept b (after_more b r p) (
            task_step-completed accept b 167 blk (advanced b.eth) r
              (get_next_chunk-more b.eth p b.snd_blk s h) all),
        rw part (
            ap (λ (x : List ℕ). b.sent ++ x ∷ [])
              (block-filled b p 167 seq false (advanced b.eth) i)),
      )

  pub transmit :
      (n : ℕ) (b : BleTcp) (p seq : ℕ) (m : EthMem)
      → Ready b
      → Sending b.eth p
      → (b.eth.mem.pbuf p).len - b.eth.tx_ptr ≤ 167 * (n + 1)
      → eth_pbuf_free_request b.eth.mem p ≡ done m
      → low_bits b.tx_index_blk 6 ≡ low_bits seq 6
      → (b' : BleTcp) × (send_rounds (length (fragments_of n b.eth p)) accept b ≡ done b')
        × Transmitted b b' m (blocks b.rx_nack_blk seq (fragments_of n b.eth p))
  unfolding fragments encode_all after_more completed advanced
  transmit zero b p seq m r s h e i = transmit_last b p seq m r s (omega (arith, h)) e i
  transmit (suc n) b p seq m r s h e i = elim (ltb_cases 167 (length (unsent b.eth p))) [
    | inl (more, t) ↦
        let h1 : 167 < (b.eth.mem.pbuf p).len - b.eth.tx_ptr = omega (arith, more, k) in
        let b1 = after_more b r p in
        let (step, one) =
          transmit_more b p seq (length (fragments_of n (advanced b.eth) p)) r s h1 i in
        let (b', run, done_) =
          transmit n b1 p (seq + 1) m
            (completed-Ready b r.count 167 (filled b.eth p b.snd_blk 167 false) (advanced b.eth))
            (advanced-Sending b.eth p s h1) (omega (arith, h, h1)) e (omega (arith, i)) in
        rw (t, fragments-advanced n b.eth p h1)
          (
            b',
            step ∙ run,
            record {
              ready = done_.ready;
              sent =
                  done_.sent
                  ∙ ap
                      (λ l. l ++ blocks b.rx_nack_blk (seq + 1) (fragments_of n (advanced b.eth) p))
                      one
                  ∙ append_assoc b.sent _ _;
              finished = record {
                mem = done_.finished.mem;
                current = done_.finished.current;
                tx_ptr = done_.finished.tx_ptr;
                tx_dgrams = done_.finished.tx_dgrams;
              };
            },
          )
    | inr (less, t) ↦ rw t (transmit_last b p seq m r s (omega (arith, less, k)) e i)
  ]
    where
      k : length (unsent b.eth p) ≡ (b.eth.mem.pbuf p).len - b.eth.tx_ptr
      k = length-read b.eth.mem.bytes _ _
