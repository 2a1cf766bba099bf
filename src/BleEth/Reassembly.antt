-- ===== src/BleEth/Reassembly.antt =====
-- app/src/main/cpp/ble_eth.c, `process_dgram_asm`: all the fragments of a datagram in order hand the
-- datagram to the router.
use adapto_lite.Prelude.{
  ℕ, zero, suc, ◌+◌, ◌≤◌, ◌<◌, ◌≡◌, refl, ap, ◌∙◌, Option, none, List, [], ◌∷◌, ◌++◌, Bool, true,
  false, length, take, drop, arith, length-take, length-append, length-drop, take-append-drop,
  append_assoc, ◌⊎◌, ltb_cases, inl, inr, low_bits,
}
use adapto_lite.Prelude.Bytes.{Memory, read, read-write-append, write_below, write_above}
use adapto_lite.EthMem.State.{
  Run, done, em_assert, bad_access, out_of_fuel, ◌>>=◌, EthMem, eth_mem_buf_size,
}
use adapto_lite.EthMem.Queues.{eth_add_packet_to_router_queue}
use adapto_lite.BleEth.{BleEth, AsmResult, process_dgram_asm, store_chunk, ok}
use adapto_lite.BleEth.Fragments.{fragments, encode, encode_all}
use adapto_lite.BleEth.Receive.{
  receive_all, Receiving, accepted, datagram, appended, stored, finished, process_dgram_asm-next,
  store_chunk-more, store_chunk-last,
}

-- A chunk with the number `seq` that arrives at `b` is stored as at `b'`.
unfoldable pub Arrives : BleEth → BleEth → ℕ → ℕ → Bool → Type 0
Arrives b b' p seq first =
    (last : Bool) (body : List ℕ)
    → 1 ≤ length body
    → process_dgram_asm b
        (encode (low_bits seq 6) (record { first = first; last = last; body = body }))
      ≡ store_chunk b' p last body >>= λ b2. done (ok, b2)

-- The pool and the buffer in progress.
abbrev pub outcome : BleEth → Run (EthMem × Option ℕ)
outcome b = done (b.mem, b.rx_pbuf)

abbrev base : BleEth → ℕ → ℕ
base b p = (b.mem.pbuf p).payload

-- The run of `chunks` from `b` hands the bytes that `b'` holds and `d` to the router.
pub record Delivered (b b' : BleEth) (p : ℕ) (d : List ℕ) (chunks : List (List ℕ)) : Type 0 where
  pub bytes : Memory
  pub content :
      read bytes (base b' p) (b'.rx_ptr + length d) ≡ read b'.mem.bytes (base b' p) b'.rx_ptr ++ d
  pub outside :
      (a : ℕ)
      → (a < base b' p) ⊎ (base b' p + (b'.rx_ptr + length d) ≤ a)
      → bytes a ≡ b'.mem.bytes a
  pub handed : (receive_all b chunks >>= outcome) ≡ (
      eth_add_packet_to_router_queue (datagram b'.mem p bytes (b'.rx_ptr + length d)) p >>= λ m.
      done (m, none))

abbrev succeeded : BleEth → Run (AsmResult × BleEth)
succeeded b = done (ok, b)

abbrev state_of : AsmResult × BleEth → Run BleEth
state_of (r, b) = done b

outcome_router :
    (r : Run EthMem) (f : EthMem → BleEth)
    → (r >>= (λ m. done (f m)) >>= succeeded >>= state_of >>= outcome)
      ≡ (r >>= λ m. done ((f m).mem, (f m).rx_pbuf))
outcome_router (done m) f = refl
outcome_router (em_assert n) f = refl
outcome_router bad_access f = refl
outcome_router out_of_fuel f = refl

deliver_last :
    (b b' : BleEth) (p seq : ℕ) (first : Bool) (d : List ℕ)
    → Arrives b b' p seq first
    → b'.rx_ptr + length d ≤ eth_mem_buf_size
    → 14 ≤ b'.rx_ptr + length d
    → 1 ≤ length d
    → Delivered b b' p d
        (encode (low_bits seq 6) (record { first = first; last = true; body = d }) ∷ [])
unfolding receive_all finished Arrives
deliver_last b b' p seq first d arr h k l = record {
  bytes = appended b' p d;
  content = read-write-append b'.mem.bytes (base b' p) b'.rx_ptr d;
  outside = λ a o. elim o [
    | inl x ↦ write_below b'.mem.bytes (base b' p + b'.rx_ptr) d a (omega arith)
    | inr x ↦ write_above b'.mem.bytes (base b' p + b'.rx_ptr) d a (omega arith)
  ];
  handed = rw (arr true d l, store_chunk-last b' p d h k) (outcome_router _ (finished b' d));
}

-- After a chunk that is not the last the next one arrives at what was stored.
Arrives-next : (b : BleEth) (p seq : ℕ) → Receiving b p seq → Arrives b (accepted b seq) p seq false
unfolding Arrives
Arrives-next b p seq r last [] h = absurd (omega arith)
Arrives-next b p seq r last (x ∷ xs) h = process_dgram_asm-next b p seq last x xs r

deliver_more :
    (b b' : BleEth) (p seq : ℕ) (first : Bool) (body rest : List ℕ) (chunks : List (List ℕ))
    → Arrives b b' p seq first
    → 1 ≤ length body
    → b'.rx_ptr + length body ≤ eth_mem_buf_size
    → Delivered (stored b' p body) (accepted (stored b' p body) (seq + 1)) p rest chunks
    → Delivered b b' p
        (body ++ rest)
        (encode (low_bits seq 6) (record { first = first; last = false; body = body }) ∷ chunks)
unfolding receive_all Arrives stored accepted
deliver_more b b' p seq first body rest chunks arr l h r = record {
  bytes = r.bytes;
  content = rw i (
      r.content
      ∙ ap (λ l. l ++ rest) (read-write-append b'.mem.bytes (base b' p) b'.rx_ptr body)
      ∙ append_assoc (read b'.mem.bytes (base b' p) b'.rx_ptr) body rest);
  outside = λ a o. elim o [
    | inl x ↦
        r.outside a (inl x) ∙ write_below b'.mem.bytes (base b' p + b'.rx_ptr) body a (omega arith)
    | inr x ↦
        r.outside a (inr (omega (arith, i, x)))
        ∙ write_above b'.mem.bytes (base b' p + b'.rx_ptr) body a (omega (arith, i, x))
  ];
  handed = rw i (rw (arr false body l, store_chunk-more b' p body h) r.handed);
}
  where
    i : b'.rx_ptr + length (body ++ rest) ≡ b'.rx_ptr + length body + length rest
    i = omega (arith, length-append {0} body rest)

stored-Receiving :
    (b : BleEth) (p seq : ℕ) (body : List ℕ) → Receiving b p seq → Receiving (stored b p body) p seq
unfolding stored
stored-Receiving b p seq body r = record {
  buffer = r.buffer;
  no_reset = r.no_reset;
  no_error = r.no_error;
  next = r.next;
}

accepted-Receiving :
    (b : BleEth) (p seq : ℕ) → Receiving b p seq → Receiving (accepted b seq) p (seq + 1)
unfolding accepted
accepted-Receiving b p seq r = record {
  buffer = r.buffer;
  no_reset = r.no_reset;
  no_error = r.no_error;
  next = omega arith;
}

rx_ptr-accepted :
    (b : BleEth) (p seq : ℕ) (body : List ℕ)
    → (accepted (stored b p body) seq).rx_ptr ≡ b.rx_ptr + length body
unfolding accepted stored
rx_ptr-accepted b p seq body = refl

Delivered-along :
    {b b' : BleEth} {p : ℕ} {d e : List ℕ} {chunks : List (List ℕ)}
    → d ≡ e
    → Delivered b b' p d chunks
    → Delivered b b' p e chunks
Delivered-along eq r = rw eq at r

pub deliver_fragments :
    (n : ℕ) (b b' : BleEth) (p seq : ℕ) (first : Bool) (d : List ℕ)
    → Arrives b b' p seq first
    → Receiving b' p (seq + 1)
    → b'.rx_ptr + length d ≤ eth_mem_buf_size
    → 14 ≤ b'.rx_ptr + length d
    → 1 ≤ length d
    → Delivered b b' p d (encode_all seq (fragments n first d))
unfolding fragments encode_all
deliver_fragments zero b b' p seq first d arr r h k l = deliver_last b b' p seq first d arr h k l
deliver_fragments (suc n) b b' p seq first d arr r h k l = elim (ltb_cases 167 (length d)) [
  | inl (more, t) ↦
      let body = take 167 d in
      let rest = drop 167 d in
      let b1 = stored b' p body in
      let r1 = stored-Receiving b' p (seq + 1) body r in
      let x : length body ≡ 167 = omega (arith, length-take 167 d, more) in
      let y : length rest + 167 ≡ length d = omega (arith, length-drop 167 d, more) in
      let z = rx_ptr-accepted b' p (seq + 1) body in
      let next =
        deliver_fragments n b1 (accepted b1 (seq + 1)) p (seq + 1) false rest
          (Arrives-next b1 p (seq + 1) r1) (accepted-Receiving b1 p (seq + 1) r1)
          (omega (arith, x, y, z, h)) (omega (arith, x, y, z, k)) (omega (arith, x, y, more)) in
      let all =
        deliver_more b b' p seq first body rest _ arr (omega (arith, x)) (omega (arith, x, y, h))
          next in
      rw t (Delivered-along (take-append-drop 167 d) all)
  | inr (less, t) ↦ rw t (deliver_last b b' p seq first d arr h k l)
]
