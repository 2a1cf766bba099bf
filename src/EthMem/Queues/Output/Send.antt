-- ===== src/EthMem/Queues/Output/Send.antt =====
-- `eth_add_packet_to_output_queue` where the driver waits for a packet, or the queue is full
use adapto_lite.Prelude.{
  ℕ, ◌≡◌, ◌≢◌, refl, ap, Option, none, some, List, [], ◌∷◌, ◌++◌, arith, inc32,
}
use adapto_lite.Prelude.Bytes.{update}
use adapto_lite.Prelude.Chain.{last?, NotIn}
use adapto_lite.EthMem.State.{
  EthMem, EthNetif, st_sending, done, set_queue, set_netif, Callback, netif_callback, emit,
}
use adapto_lite.EthMem.Queues.Rep.{
  QRep, QRep-same, OutputRep, OutputRep_same, Place, in_free, in_input, busy, next_entry,
  NotIn-place, next_frame, NotIn-output, index_cases, index_cases,
}
use adapto_lite.EthMem.Queues.Entries.{eth_queue_entry_free-busy, put_entry-QRep}
use adapto_lite.EthMem.Queues.{eth_add_packet_to_output_queue, put_entry}

-- The state that the callback of the driver meets: the entry is freed, the driver waits no more.
abbrev handed : EthMem → ℕ → ℕ → EthMem
handed m q i =
    let m1 = set_queue m q (record (m.queue q) { next = none }) in
    let n : EthNetif = m1.netif i in
    let m2 = set_netif m1 i (record n { callback_pending = 0; dgrams_out = inc32 n.dgrams_out }) in
    set_queue m2 q (record (m2.queue q) { state = st_sending })

handed-QRep :
    (m : EthMem) (place : ℕ → Place) (q i : ℕ) (free input : List ℕ) (out : ℕ → List ℕ)
    → QRep m place free input out
    → place q ≡ busy
    → QRep (handed m q i) place free input out
handed-QRep m place q i free input out r b = record {
  free_chain =
      next_frame (next_entry m) (next_entry k) q m.pool.q_begin free same apart_f r.free_chain;
  free_distinct = r.free_distinct;
  free_places = r.free_places;
  input_chain =
      next_frame (next_entry m) (next_entry k) q m.pool.q_input_begin input same apart
        r.input_chain;
  input_end = r.input_end;
  input_distinct = r.input_distinct;
  input_places = r.input_places;
  outputs = index_cases (λ j. OutputRep (next_entry k) (k.netif j) place j (out j)) i own other;
  states = λ s h. ground (arith, r.states s);
}
  where
    k : EthMem
    k = handed m q i

    same : (s : ℕ) → s ≢ q → next_entry k s ≡ next_entry m s
    same s h = ground arith

    apart : NotIn q input
    apart = NotIn-place place q in_input input (λ z. ground arith) r.input_places

    apart_f : NotIn q free
    apart_f = NotIn-place place q in_free free (λ z. ground arith) r.free_places

    -- The list and its places stay.
    kept :
        (j : ℕ) (n : EthNetif)
        → OutputRep (next_entry m) n place j (out j)
        → OutputRep (next_entry k) n place j (out j)
    kept j n o = record {
      chain =
          next_frame (next_entry m) (next_entry k) q n.q_output_begin (out j) same
            (NotIn-output q j r (λ z. ground arith)) o.chain;
      end = o.end;
      distinct = o.distinct;
      places = o.places;
      len = o.len;
      bound = o.bound;
      waiting = o.waiting;
      registered = o.registered;
    }

    o : OutputRep (next_entry k) (m.netif i) place i (out i)
    o = kept i (m.netif i) (r.outputs i)

    own : OutputRep (next_entry k) (k.netif i) place i (out i)
    own =
        OutputRep_same (next_entry k) (record (m.netif i) { callback_pending = 0 }) (k.netif i)
          place i (out i) (ground arith)
          (record {
            chain = o.chain;
            end = o.end;
            distinct = o.distinct;
            places = o.places;
            len = o.len;
            bound = o.bound;
            waiting = λ h. absurd (h refl);
            registered = λ h. absurd (h refl);
          })

    other : (j : ℕ) → i ≢ j → OutputRep (next_entry k) (k.netif j) place j (out j)
    other j ne =
        OutputRep_same (next_entry k) (m.netif j) (k.netif j) place j (out j) (ground arith)
          (kept j (m.netif j) (r.outputs j))

registered_callback : (f? : Option Callback) → f? ≢ none → (f : Callback) × (f? ≡ some f)
registered_callback none h = absurd (h refl)
registered_callback (some f) h = (f, refl)

-- A packet for a driver that waits skips the queue: the driver's callback gets it at once, the entry
-- is freed, the driver waits no more, and no assertion is met.
pub eth_add_packet_to_output_queue-waiting :
    (m : EthMem) (place : ℕ → Place) (q i : ℕ) (free input : List ℕ) (out : ℕ → List ℕ)
    → QRep m place free input out
    → place q ≡ busy
    → (m.pbuf (m.queue q).pbuf).ref ≢ 0
    → (m.netif i).callback_pending ≢ 0
    → (m' : EthMem) × (f : Callback) × (eth_add_packet_to_output_queue m q i ≡ done m')
      × QRep m' (update place q in_free) (q ∷ free) input out
      × ((m'.netif i).callback_pending ≡ 0)
      × ((m.netif i).callback_fn ≡ some f)
      × (m'.events ≡ m.events ++ netif_callback f (m.queue q).pbuf i ∷ [])
unfolding eth_add_packet_to_output_queue put_entry
eth_add_packet_to_output_queue-waiting m place q i free input out r b alive pending =
    let o = r.outputs i in
    let (f, reg) = registered_callback (m.netif i).callback_fn (o.registered pending) in
    let r1 = handed-QRep m place q i free input out r b in
    let r2 = put_entry-QRep (handed m q i) place q free input out r1 b in
    let k = put_entry (handed m q i) q in
    let k' = emit k (netif_callback f (m.queue q).pbuf i) in
    (
      k',
      f,
      ground (
        arith,
        o.end,
        ap last? (o.waiting pending),
        reg,
        eth_queue_entry_free-busy (handed m q i) place q free input out r1 b,
      ),
      QRep-same k k' (update place q in_free) (q ∷ free) input out (λ s. refl)
          (λ j. (refl, refl, refl, refl, refl, refl)) refl refl refl r2,
      ground arith,
      reg,
      refl,
    )
