-- ===== src/EthMem/Queues/Input.antt =====
-- `eth_add_packet_to_router_queue`, and how the router's task takes a packet.
use adapto_lite.Prelude.{
  ℕ, ◌≤◌, ◌<◌, ◌≡◌, ◌≢◌, refl, sym, ap, ◌∙◌, none, some, List, [], ◌∷◌, ◌++◌, arith, All-append,
  All-intro, inl, inr, Option-cases, inc32, u8,
}
use adapto_lite.Prelude.Bytes.{update}
use adapto_lite.Prelude.Chain.{
  Chain-congr, Chain-append, last?, last?-cons, last?-append, All-last?, NotIn, Distinct-append,
  end_after, end_after-last?,
}
use adapto_lite.EthMem.State.{EthMem, st_in_queue, done, set_queue, set_pbuf, eth_netifs}
use adapto_lite.EthMem.Queues.{
  eth_add_packet_to_router_queue, enqueue_input, take_entry, take_input, take_first,
}
use adapto_lite.EthMem.Queues.Rep.{
  QRep, QRep-same, input_end-ne, OutputRep, Place, in_free, in_input, busy, next_entry, NotIn-place,
  places_frame, next_frame, OutputRep_frame, NotIn-output,
}
use adapto_lite.EthMem.Queues.Entries.{take_entry-QRep}

module _ (m : EthMem) (place : ℕ → Place) (q p i : ℕ) (free input : List ℕ) (out : ℕ → List ℕ)
    (r : QRep m place free input out) (b : place q ≡ busy) where
  entered : EthMem
  entered = set_queue m q (record { next = none; state = st_in_queue; pbuf = p })

  same : (s : ℕ) → s ≢ q → next_entry entered s ≡ next_entry m s
  unfolding entered
  same s h = ground arith

  apart : NotIn q input
  apart = NotIn-place place q in_input input (λ e. ground arith) r.input_places

  apart_f : NotIn q free
  apart_f = NotIn-place place q in_free free (λ e. ground arith) r.free_places

  entered_output :
      (j : ℕ) → OutputRep (next_entry entered) (m.netif j) (update place q in_input) j (out j)
  unfolding entered
  entered_output j =
      OutputRep_frame (next_entry m) (next_entry entered) (m.netif j) place j q in_input (out j)
        same (NotIn-output q j r (λ e. ground arith)) (r.outputs j)

  -- With no packet before it, the entry is the whole queue.
  alone : EthMem
  unfolding entered
  alone = record entered { pool = record (m.pool) { q_input_begin = some q; q_input_end = some q } }

  alone-QRep : input ≡ [] → QRep alone (update place q in_input) free (input ++ q ∷ []) out
  unfolding alone
  alone-QRep e = record {
    free_chain =
        next_frame (next_entry m) (next_entry entered) q m.pool.q_begin free same apart_f
          r.free_chain;
    free_distinct = r.free_distinct;
    free_places = places_frame place q in_free in_input free apart_f r.free_places;
    input_chain = rw e (refl, ground arith);
    input_end = rw e;
    input_distinct = rw e (tt, tt);
    input_places = rw e (ground arith, tt);
    outputs = entered_output;
    states = λ s h. ground (arith, r.states s);
  }

  -- Otherwise it is linked behind the last one.
  behind : ℕ → EthMem
  unfolding entered
  behind e =
      let k = set_queue entered e (record (entered.queue e) { next = some q }) in
      record k { pool = record (m.pool) { q_input_end = some q } }

  module _ (e : ℕ) (last : last? input ≡ some e) where
    e_place : place e ≡ in_input
    e_place = All-last? (λ s. place s ≡ in_input) input r.input_places last

    linked : (s : ℕ) → s ≢ e → next_entry (behind e) s ≡ next_entry entered s
    unfolding behind
    linked s h = ground arith

    q_place : place e ≢ place q
    q_place h = ground (arith, e_place)

    behind_output :
        (j : ℕ) → OutputRep (next_entry (behind e)) (m.netif j) (update place q in_input) j (out j)
    behind_output j =
        let o =
          OutputRep_frame (next_entry entered) (next_entry (behind e)) (m.netif j)
            (update place q in_input) j e in_input (out j) linked
            (NotIn-output e j r (λ h. ground (arith, e_place))) (entered_output j) in
        record {
          chain = o.chain;
          end = o.end;
          distinct = o.distinct;
          places = (entered_output j).places;
          len = o.len;
          bound = o.bound;
          waiting = o.waiting;
          registered = o.registered;
        }

    behind-QRep : QRep (behind e) (update place q in_input) free (input ++ q ∷ []) out
    unfolding behind
    behind-QRep = record {
      free_chain =
          next_frame (next_entry entered) (next_entry (behind e)) e m.pool.q_begin free linked
            (NotIn-place place e in_free free (λ h. ground (arith, e_place)) r.free_places)
            (next_frame (next_entry m) (next_entry entered) q m.pool.q_begin free same apart_f
              r.free_chain);
      free_distinct = r.free_distinct;
      free_places = places_frame place q in_free in_input free apart_f r.free_places;
      input_chain =
          Chain-congr (update (next_entry entered) e (some q)) (next_entry (behind e))
            m.pool.q_input_begin (input ++ q ∷ []) (All-intro (λ s. ground arith) (input ++ q ∷ []))
            (Chain-append (next_entry entered) m.pool.q_input_begin e q input r.input_distinct apart
              last (ground arith)
              (next_frame (next_entry m) (next_entry entered) q m.pool.q_input_begin input same
                apart r.input_chain));
      input_end = sym (last?-append input q);
      input_distinct = Distinct-append input q r.input_distinct apart;
      input_places =
          All-append (λ s. update place q in_input s ≡ in_input) input (q ∷ [])
            (places_frame place q in_input in_input input apart r.input_places) (ground arith, tt);
      outputs = behind_output;
      states = λ s h. ground (arith, r.states s);
    }

-- The entry goes to the end of the input queue.
enqueue_input-QRep :
    (m : EthMem) (place : ℕ → Place) (q p i : ℕ) (free input : List ℕ) (out : ℕ → List ℕ)
    → QRep m place free input out
    → place q ≡ busy
    → QRep (enqueue_input m q p i) (update place q in_input) free (input ++ q ∷ []) out
unfolding enqueue_input alone behind
enqueue_input-QRep m place q p i free [] out r b =
    QRep-same (alone m place q p i free [] out r b) (enqueue_input m q p i)
      (update place q in_input) free (q ∷ []) out (λ s. ground (arith, r.input_end))
      (λ j. ground (arith, r.input_end)) (ground (arith, r.input_end)) (ground (arith, r.input_end))
      refl (alone-QRep m place q p i free [] out r b refl)
enqueue_input-QRep m place q p i free (x ∷ l) out r b =
    let (e, last) = last?-cons x l in
    QRep-same (behind m place q p i free (x ∷ l) out r b e) (enqueue_input m q p i)
      (update place q in_input) free (x ∷ l ++ q ∷ []) out (λ s. ground (arith, r.input_end, last))
      (λ j. ground (arith, r.input_end, last)) (ground (arith, r.input_end, last))
      (ground (arith, r.input_end, last)) refl
      (behind-QRep m place q p i free (x ∷ l) out r b e last)

-- What happened to the entry's own fields and to the counters.
enqueue_input_fields :
    (m : EthMem) (q p i : ℕ)
    → ((s : ℕ) → m.pool.q_input_end ≡ some s → s ≢ q)
    → (((enqueue_input m q p i).queue q).pbuf ≡ p)
      × (((enqueue_input m q p i).netif i).input_queue_len ≡ inc32 (m.netif i).input_queue_len)
      × (((enqueue_input m q p i).netif i).dgrams_in ≡ inc32 (m.netif i).dgrams_in)
unfolding enqueue_input
enqueue_input_fields m q p i h = elim (Option-cases m.pool.q_input_end) [
  | inl e ↦ ground (arith, e)
  | inr (s, e) ↦ ground (arith, e, h s e)
]

-- A packet of at least 14 bytes from a known interface, with a free entry at hand, goes to the end
-- of the router's input queue, carried by that entry; the interface counts it.
pub eth_add_packet_to_router_queue-QRep :
    (m : EthMem) (place : ℕ → Place) (p q : ℕ) (free input : List ℕ) (out : ℕ → List ℕ)
    → QRep m place (q ∷ free) input out
    → (m.pbuf p).ref ≢ 0
    → (m.pbuf p).if_idx < eth_netifs
    → 14 ≤ (m.pbuf p).len
    → (m' : EthMem) × (eth_add_packet_to_router_queue m p ≡ done m')
      × QRep m' (update (update place q busy) q in_input) free (input ++ q ∷ []) out
      × ((m'.queue q).pbuf ≡ p)
      × ((m'.netif (m.pbuf p).if_idx).input_queue_len
          ≡ inc32 (m.netif (m.pbuf p).if_idx).input_queue_len)
      × ((m'.netif (m.pbuf p).if_idx).dgrams_in ≡ inc32 (m.netif (m.pbuf p).if_idx).dgrams_in)
unfolding eth_add_packet_to_router_queue
eth_add_packet_to_router_queue-QRep m place p q free input out r alive known long = (
  enqueue_input m2 q p (m.pbuf p).if_idx,
  ground (arith, r.free_chain.0),
  enqueue_input-QRep m2 (update place q busy) q p _ free input out r2 (ground arith),
  f.0,
  f.1,
  f.2,
)
  where
    m1 : EthMem
    m1 = set_pbuf m p (record (m.pbuf p) { src_if = u8 (m.pbuf p).if_idx })

    m2 : EthMem
    m2 = take_entry m1 q

    r1 : QRep m1 place (q ∷ free) input out
    r1 =
        QRep-same m m1 place (q ∷ free) input out (λ s. refl)
          (λ j. (refl, refl, refl, refl, refl, refl)) refl refl refl r

    r2 : QRep m2 (update place q busy) free input out
    r2 = take_entry-QRep m1 place q free input out r1

    f :
        (((enqueue_input m2 q p (m.pbuf p).if_idx).queue q).pbuf ≡ p)
        × (((enqueue_input m2 q p (m.pbuf p).if_idx).netif (m.pbuf p).if_idx).input_queue_len
            ≡ inc32 (m.netif (m.pbuf p).if_idx).input_queue_len)
        × (((enqueue_input m2 q p (m.pbuf p).if_idx).netif (m.pbuf p).if_idx).dgrams_in
            ≡ inc32 (m.netif (m.pbuf p).if_idx).dgrams_in)
    f = enqueue_input_fields m2 q p (m.pbuf p).if_idx (input_end-ne q r2 (λ z. ground arith))

-- The router's task takes the packets in the order in which they were added.
pub take_input-QRep :
    (m : EthMem) (place : ℕ → Place) (q : ℕ) (free input : List ℕ) (out : ℕ → List ℕ)
    → QRep m place free (q ∷ input) out
    → (m' : EthMem) × (take_input m ≡ some (q, m')) × QRep m' (update place q busy) free input out
unfolding take_input
take_input-QRep m place q free input out r = (
  k,
  ground (arith, r.input_chain.0),
  record {
    free_chain =
        next_frame (next_entry m) (next_entry k) q m.pool.q_begin free same_k apart_k r.free_chain;
    free_distinct = r.free_distinct;
    free_places = places_frame place q in_free busy free apart_k r.free_places;
    input_chain =
        next_frame (next_entry m) (next_entry k) q (next_entry m q) input same_k r.input_distinct.0
          r.input_chain.1;
    input_end =
        ap (end_after (next_entry m q)) r.input_end
        ∙ end_after-last? (next_entry m) q input r.input_chain.1;
    input_distinct = r.input_distinct.1;
    input_places = places_frame place q in_input busy input r.input_distinct.0 r.input_places.1;
    outputs = λ i.
        OutputRep_frame (next_entry m) (next_entry k) (m.netif i) place i q busy (out i) same_k
          (NotIn-output q i r (λ e. ground (arith, r.input_places.0))) (r.outputs i);
    states = λ s e. ground (arith, r.states s, r.input_places.0);
  },
)
  where
    k : EthMem
    k = take_first m q

    same_k : (s : ℕ) → s ≢ q → next_entry k s ≡ next_entry m s
    same_k s h = ground arith

    apart_k : NotIn q free
    apart_k = NotIn-place place q in_free free (λ e. ground (arith, r.input_places.0)) r.free_places
