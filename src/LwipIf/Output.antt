-- ===== src/LwipIf/Output.antt =====
-- app/src/main/cpp/lwip/eth_router_if_lwip.c, `lwip_output_to_bridge`: a chain of fragments becomes
-- one packet of the bridge.
use adapto_lite.Prelude.{
  ℕ, ◌+◌, ◌-◌, ◌≤◌, ◌≡◌, refl, sym, ap, ap₂, ◌∙◌, none, some, List, [], ◌∷◌, ◌++◌, true, false, ltb,
  leb, arith, length, length-append, take, drop, le→leb,
}
use adapto_lite.Prelude.Bytes.{
  Memory, read, write, write-append, read-write, read-append, read_congr, write_below, write_above,
  take-read, drop-read,
}
use adapto_lite.EthMem.State.{done, ◌>>=◌, EthMem, eth_mem_buf_size, lwip_netif_id}
use adapto_lite.EthMem.Pbufs.Rep.{Rep, Rep-same, ref_of}
use adapto_lite.EthMem.Pbufs.Alloc.{eth_pbuf_alloc-Rep, eth_pbuf_alloc-queues}
use adapto_lite.EthMem.Queues.{eth_add_packet_to_router_queue}
use adapto_lite.LwipIf.{LwipIf, copy_frags, finish_block, after_copy, lwip_output_to_bridge}

-- The fragments of a chain, one after the other.
abbrev pub joined : List (List ℕ) → List ℕ
joined [] = []
joined (f ∷ fs) = f ++ joined fs

copy_frags-joined :
    (fs : List (List ℕ)) (m : Memory) (dst ptr : ℕ)
    → ptr + length (joined fs) ≤ eth_mem_buf_size
    → copy_frags m dst ptr fs ≡ (some (ptr + length (joined fs)), write m (dst + ptr) (joined fs))
unfolding copy_frags write
copy_frags-joined [] m dst ptr h = let e : ptr + 0 ≡ ptr = omega arith in rw e refl
copy_frags-joined (f ∷ fs) m dst ptr h =
    let size = length-append f (joined fs) in
    let fits : leb (length f + ptr) 1600 ≡ true = le→leb _ _ (omega (arith, h, size)) in
    let place : dst + (ptr + length f) ≡ dst + ptr + length f = omega arith in
    let total : ptr + length f + length (joined fs) ≡ ptr + length (f ++ joined fs) =
      omega (arith, size) in
    rw fits (
      copy_frags-joined fs (write m (dst + ptr) f) dst (ptr + length f) (omega (arith, h, size))
      ∙ ap₂ (λ (n : ℕ) (k : Memory). (some n, k)) total
          (ap (λ (x : ℕ). write (write m (dst + ptr) f) x (joined fs)) place
            ∙ sym (write-append m (dst + ptr) f (joined fs))))

-- Six bytes of a packet replaced.
read-replaced :
    (m : Memory) (a : ℕ) (xs ys : List ℕ)
    → length ys ≡ 6
    → 12 ≤ length xs
    → read (write (write m a xs) (a + 6) ys) a (length xs) ≡ take 6 xs ++ (ys ++ drop 12 xs)
read-replaced m a xs ys six h =
    let n : ℕ = length xs in
    let k : Memory = write m a xs in
    let r : Memory = write k (a + 6) ys in
    let all = read-write m a xs in
    let split : n ≡ 6 + (6 + (n - 12)) = omega (arith, h) in
    let first : read r a 6 ≡ take 6 xs =
      read_congr r k a 6 (λ b p q. write_below k (a + 6) ys b q)
      ∙ sym (take-read k a 6 n (omega (arith, h)))
      ∙ ap (take 6) all in
    let mid : read r (a + 6) 6 ≡ ys =
      ap (λ (x : ℕ). read r (a + 6) x) (sym six) ∙ read-write k (a + 6) ys in
    let place : a + 6 + 6 ≡ a + 12 = omega arith in
    let last : read r (a + 6 + 6) (n - 12) ≡ drop 12 xs =
      ap (λ (x : ℕ). read r x (n - 12)) place
      ∙ read_congr r k (a + 12) (n - 12)
          (λ b p q. write_above k (a + 6) ys b (omega (arith, six, p)))
      ∙ sym (drop-read k a 12 n h)
      ∙ ap (drop 12) all in
    ap (read r a) split
    ∙ read-append r a 6 (6 + (n - 12))
    ∙ ap₂ ◌++◌ first (read-append r (a + 6) 6 (n - 12) ∙ ap₂ ◌++◌ mid last)

finish_block-Rep :
    (m : EthMem) (hwaddr : List ℕ) (p n : ℕ) (free pending held : List ℕ)
    → Rep m free pending held
    → Rep (finish_block m hwaddr p n) free pending held
unfolding finish_block
finish_block-Rep m hwaddr p n free pending held r =
    Rep-same m (finish_block m hwaddr p n) free pending held (λ q. ground arith) (λ q. ground arith)
      refl refl r

-- The packet that is made of the fragments, while the queues stay as they are.
pub lwip_output_to_bridge-Framed :
    (s : LwipIf) (p : ℕ) (fs : List (List ℕ)) (free pending held : List ℕ)
    → Rep s.mem (p ∷ free) pending held
    → length s.hwaddr ≡ 6
    → 14 ≤ length (joined fs)
    → length (joined fs) ≤ eth_mem_buf_size
    → (m : EthMem) × Rep m free pending (p ∷ held)
      × ((m.pbuf p).len ≡ length (joined fs))
      × ((m.pbuf p).if_idx ≡ lwip_netif_id)
      × (read m.bytes (m.pbuf p).payload (length (joined fs))
          ≡ take 6 (joined fs) ++ (s.hwaddr ++ drop 12 (joined fs)))
      × (lwip_output_to_bridge s (length (joined fs)) fs
          ≡ (eth_add_packet_to_router_queue m p >>= λ m1. done (record s { mem = m1 })))
      × ((m.queue ≡ s.mem.queue) × (m.netif ≡ s.mem.netif) × (m.pool ≡ s.mem.pool))
      × (ref_of m p ≡ 1)
unfolding lwip_output_to_bridge after_copy finish_block
lwip_output_to_bridge-Framed s p fs free pending held r six long fits =
    let whole = joined fs in
    let n : ℕ = length whole in
    let (k, e, r', one, own, end, kept) = eth_pbuf_alloc-Rep s.mem none p free pending held r in
    let a : ℕ = (k.pbuf p).payload in
    let a0 : a + 0 ≡ a = omega arith in
    let n0 : 0 + n ≡ n = omega arith in
    let copied = rw (a0, n0) at (copy_frags-joined fs k.bytes a 0 (omega (arith, fits))) in
    let small : ltb 1600 n ≡ false = ground (arith, fits) in
    let k1 : EthMem = record k { bytes = write k.bytes a whole } in
    let m : EthMem = finish_block k1 s.hwaddr p n in
    let same : Rep k1 free pending (p ∷ held) =
      Rep-same k k1 free pending (p ∷ held) (λ q. refl) (λ q. refl) refl refl r' in
    let at_p : (m.pbuf p).payload ≡ a = ground arith in
    (
      m,
      finish_block-Rep k1 s.hwaddr p n free pending (p ∷ held) same,
      ground arith,
      ground arith,
      rw at_p (read-replaced k.bytes a whole s.hwaddr six (omega (arith, long))),
      rw (small, e, copied) refl,
      eth_pbuf_alloc-queues s.mem k none p r.free_chain.0 e,
      ground (arith, one),
    )

-- With a free buffer `p`, a frame of 14 to 1600 bytes from lwIP, in fragments of any lengths, goes to the
-- router as one packet in the buffer `p`: the frame with the interface's own address as its
-- source, marked as lwIP's.
pub lwip_output_to_bridge-joined :
    (s : LwipIf) (p : ℕ) (fs : List (List ℕ)) (free pending held : List ℕ)
    → Rep s.mem (p ∷ free) pending held
    → length s.hwaddr ≡ 6
    → 14 ≤ length (joined fs)
    → length (joined fs) ≤ eth_mem_buf_size
    → (m : EthMem) × Rep m free pending (p ∷ held)
      × ((m.pbuf p).len ≡ length (joined fs))
      × ((m.pbuf p).if_idx ≡ lwip_netif_id)
      × (read m.bytes (m.pbuf p).payload (length (joined fs))
          ≡ take 6 (joined fs) ++ (s.hwaddr ++ drop 12 (joined fs)))
      × (lwip_output_to_bridge s (length (joined fs)) fs
          ≡ (eth_add_packet_to_router_queue m p >>= λ m1. done (record s { mem = m1 })))
lwip_output_to_bridge-joined s p fs free pending held r six long fits =
    let (m, rep, len, if_idx, bytes, run, queues, one) =
      lwip_output_to_bridge-Framed s p fs free pending held r six long fits in
    (m, rep, len, if_idx, bytes, run)
