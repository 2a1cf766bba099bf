-- ===== src/EthMem/Queues/Output/Get.antt =====
-- `eth_get_packet`
use adapto_lite.Prelude.{ℕ, ◌-◌, ◌≡◌, ◌≢◌, ap, ◌∙◌, none, some, List, [], ◌∷◌, arith, inc32}
use mathlib.Core.Path.{subst}
use adapto_lite.Prelude.Bytes.{update}
use adapto_lite.Prelude.Chain.{Chain, NotIn, end_after, end_after-last?}
use adapto_lite.EthMem.State.{EthMem, EthNetif, done, set_netif}
use adapto_lite.EthMem.Queues.Rep.{
  QRep, OutputRep, OutputRep_same, Place, in_free, in_input, in_output, busy, next_entry,
  NotIn-place, places_frame, next_frame, OutputRep_frame, NotIn-output, update_cases, index_cases,
  index_cases,
}
use adapto_lite.EthMem.Queues.Entries.{eth_queue_entry_free-QRep}
use adapto_lite.EthMem.Queues.{eth_get_packet, unlink_output}

-- The first entry leaves its output queue.
unlink_output-QRep :
    (m : EthMem) (place : ℕ → Place) (i q : ℕ) (l free input : List ℕ) (out : ℕ → List ℕ)
    → QRep m place free input out
    → out i ≡ q ∷ l
    → QRep (unlink_output m i q) (update place q busy) free input (update out i l)
unfolding unlink_output
unlink_output-QRep m place i q l free input out r e = record {
  free_chain =
      next_frame (next_entry m) (next_entry k) q m.pool.q_begin free same apart_f r.free_chain;
  free_distinct = r.free_distinct;
  free_places = places_frame place q in_free busy free apart_f r.free_places;
  input_chain =
      next_frame (next_entry m) (next_entry k) q m.pool.q_input_begin input same apart
        r.input_chain;
  input_end = r.input_end;
  input_distinct = r.input_distinct;
  input_places = places_frame place q in_input busy input apart r.input_places;
  outputs =
      update_cases (λ j x. OutputRep (next_entry k) (k.netif j) (update place q busy) j x) out i l
        own other;
  states = λ s h. ground (arith, r.states s, o.places.0);
}
  where
    k : EthMem
    k = unlink_output m i q

    o : OutputRep (next_entry m) (m.netif i) place i (q ∷ l)
    o = subst (λ x. OutputRep (next_entry m) (m.netif i) place i x) e (r.outputs i)

    same : (s : ℕ) → s ≢ q → next_entry k s ≡ next_entry m s
    same s h = ground arith

    apart : NotIn q input
    apart = NotIn-place place q in_input input (λ z. ground (arith, o.places.0)) r.input_places

    apart_f : NotIn q free
    apart_f = NotIn-place place q in_free free (λ z. ground (arith, o.places.0)) r.free_places

    n' : EthNetif
    n' = record (m.netif i) {
      q_output_begin = next_entry m q;
      q_output_end = end_after (next_entry m q) (m.netif i).q_output_end;
      q_output_len = (m.netif i).q_output_len - 1;
      dgrams_out = inc32 (m.netif i).dgrams_out;
    }

    own : OutputRep (next_entry k) (k.netif i) (update place q busy) i l
    own =
        OutputRep_same (next_entry k) n' (k.netif i) (update place q busy) i l (ground arith)
          (record {
            chain =
                next_frame (next_entry m) (next_entry k) q (next_entry m q) l same o.distinct.0
                  o.chain.1;
            end =
                ap (end_after (next_entry m q)) o.end
                ∙ end_after-last? (next_entry m) q l o.chain.1;
            distinct = o.distinct.1;
            places = places_frame place q (in_output i) busy l o.distinct.0 o.places.1;
            len = omega (arith, o.len);
            bound = omega (arith, o.bound);
            waiting = λ h. absurd (cc (o.waiting h));
            registered = o.registered;
          })

    other : (j : ℕ) → i ≢ j → OutputRep (next_entry k) (k.netif j) (update place q busy) j (out j)
    other j ne =
        OutputRep_same (next_entry k) (m.netif j) (k.netif j) (update place q busy) j (out j)
          (ground arith)
          (OutputRep_frame (next_entry m) (next_entry k) (m.netif j) place j q busy (out j) same
            (NotIn-output q j r (λ z. ground (arith, o.places.0))) (r.outputs j))

-- A driver gets the packets of its output queue in the order in which they were queued; each
-- frees its entry.
pub eth_get_packet-QRep :
    (m : EthMem) (place : ℕ → Place) (i q : ℕ) (l free input : List ℕ) (out : ℕ → List ℕ)
    → QRep m place free input out
    → out i ≡ q ∷ l
    → (m' : EthMem) × (eth_get_packet m i ≡ done (some (m.queue q).pbuf, m'))
      × QRep m' (update (update place q busy) q in_free) (q ∷ free) input (update out i l)
unfolding eth_get_packet
eth_get_packet-QRep m place i q l free input out r e =
    let o = subst (λ x. OutputRep (next_entry m) (m.netif i) place i x) e (r.outputs i) in
    let (m', step, r') =
      eth_queue_entry_free-QRep (unlink_output m i q) (update place q busy) q free input
        (update out i l) (unlink_output-QRep m place i q l free input out r e) (ground arith) in
    (m', ground (arith, o.chain.0, o.len, step), r')

waiting-QRep :
    (m : EthMem) (place : ℕ → Place) (i : ℕ) (free input : List ℕ) (out : ℕ → List ℕ)
    → QRep m place free input out
    → out i ≡ []
    → (m.netif i).callback_fn ≢ none
    → QRep (set_netif m i (record (m.netif i) { callback_pending = 1 })) place free input out
waiting-QRep m place i free input out r e reg = record {
  free_chain = r.free_chain;
  free_distinct = r.free_distinct;
  free_places = r.free_places;
  input_chain = r.input_chain;
  input_end = r.input_end;
  input_distinct = r.input_distinct;
  input_places = r.input_places;
  outputs = index_cases (λ j. OutputRep (next_entry m) (k.netif j) place j (out j)) i own other;
  states = r.states;
}
  where
    k : EthMem
    k = set_netif m i (record (m.netif i) { callback_pending = 1 })

    o : OutputRep (next_entry m) (m.netif i) place i (out i)
    o = r.outputs i

    own : OutputRep (next_entry m) (k.netif i) place i (out i)
    own =
        OutputRep_same (next_entry m) (record (m.netif i) { callback_pending = 1 }) (k.netif i)
          place i (out i) (ground arith)
          (record {
            chain = o.chain;
            end = o.end;
            distinct = o.distinct;
            places = o.places;
            len = o.len;
            bound = o.bound;
            waiting = λ _. e;
            registered = λ _. reg;
          })

    other : (j : ℕ) → i ≢ j → OutputRep (next_entry m) (k.netif j) place j (out j)
    other j ne =
        OutputRep_same (next_entry m) (m.netif j) (k.netif j) place j (out j) (ground arith)
          (r.outputs j)

-- On an empty queue a driver with a callback gets nothing and is marked as waiting.
pub eth_get_packet-empty :
    (m : EthMem) (place : ℕ → Place) (i : ℕ) (free input : List ℕ) (out : ℕ → List ℕ)
    → QRep m place free input out
    → out i ≡ []
    → (m.netif i).callback_fn ≢ none
    → (m' : EthMem) × (eth_get_packet m i ≡ done (none, m'))
      × QRep m' place free input out
      × ((m'.netif i).callback_pending ≡ 1)
unfolding eth_get_packet
eth_get_packet-empty m place i free input out r e reg =
    let begin : (m.netif i).q_output_begin ≡ none =
      subst (λ l. Chain (next_entry m) (m.netif i).q_output_begin l) e (r.outputs i).chain in
    (
      set_netif m i (record (m.netif i) { callback_pending = 1 }),
      ground (arith, begin, reg),
      waiting-QRep m place i free input out r e reg,
      ground arith,
    )
