-- ===== src/EthMem/Queues/Output/Add.antt =====
-- `eth_add_packet_to_output_queue` where the packet is queued
use adapto_lite.Prelude.{
  ℕ, ◌+◌, ◌^◌, ◌<◌, ◌≡◌, ◌≢◌, refl, sym, ap, ◌∙◌, Option, none, some, List, [], ◌∷◌, ◌++◌, arith,
  length, length-append, All-append, All-intro, inl, inr,
}
use adapto_lite.Prelude.Bytes.{update}
use adapto_lite.Prelude.Chain.{
  last?-cases, Chain-congr, Chain-append, last?, last?-append, All-last?, NotIn, Distinct-append,
}
use adapto_lite.EthMem.State.{EthMem, EthNetif, st_in_queue, done, set_queue, set_netif}
use adapto_lite.EthMem.Queues.Rep.{
  QRep, QRep-same, OutputRep, OutputRep_same, Place, in_free, in_input, in_output, busy, next_entry,
  NotIn-place, places_frame, next_frame, OutputRep_frame, NotIn-output, output_end-ne, update_cases,
}
use adapto_lite.EthMem.Queues.{eth_add_packet_to_output_queue, enqueue_output}

module _ (m : EthMem) (place : ℕ → Place) (q i : ℕ) (free input : List ℕ) (out : ℕ → List ℕ)
    (r : QRep m place free input out) (b : place q ≡ busy) where
  o : OutputRep (next_entry m) (m.netif i) place i (out i)
  o = r.outputs i

  entered : EthMem
  entered = set_queue m q (record (m.queue q) { next = none; state = st_in_queue })

  same : (s : ℕ) → s ≢ q → next_entry entered s ≡ next_entry m s
  unfolding entered
  same s h = ground arith

  apart : NotIn q input
  apart = NotIn-place place q in_input input (λ e. ground arith) r.input_places

  apart_f : NotIn q free
  apart_f = NotIn-place place q in_free free (λ e. ground arith) r.free_places

  entered_output :
      (j : ℕ) → OutputRep (next_entry entered) (m.netif j) (update place q (in_output i)) j (out j)
  entered_output j =
      OutputRep_frame (next_entry m) (next_entry entered) (m.netif j) place j q (in_output i)
        (out j) same (NotIn-output q j r (λ e. ground arith)) (r.outputs j)

  -- The interface with an entry more, and its begin pointer.
  longer : Option ℕ → EthNetif
  longer begin = record (m.netif i) {
    q_output_begin = begin;
    q_output_end = some q;
    q_output_len = (m.netif i).q_output_len + 1;
  }

  alone : EthMem
  unfolding entered longer
  alone = set_netif entered i (longer (some q))

  module _ (room : (m.netif i).q_output_len < (m.netif i).q_output_len_max)
      (ready : (m.netif i).callback_pending ≡ 0) where
    alone-QRep :
        out i ≡ [] → QRep alone (update place q (in_output i)) free input (update out i (q ∷ []))
    unfolding alone
    alone-QRep e = record {
      free_chain =
          next_frame (next_entry m) (next_entry entered) q m.pool.q_begin free same apart_f
            r.free_chain;
      free_distinct = r.free_distinct;
      free_places = places_frame place q in_free (in_output i) free apart_f r.free_places;
      input_chain =
          next_frame (next_entry m) (next_entry entered) q m.pool.q_input_begin input same apart
            r.input_chain;
      input_end = r.input_end;
      input_distinct = r.input_distinct;
      input_places = places_frame place q in_input (in_output i) input apart r.input_places;
      outputs =
          update_cases
            (λ j x.
              OutputRep (next_entry entered) (alone.netif j) (update place q (in_output i)) j x)
            out i (q ∷ []) own other;
      states = λ s h. ground (arith, r.states s);
    }
      where
        own :
            OutputRep (next_entry entered) (alone.netif i) (update place q (in_output i)) i (q ∷ [])
        own =
            OutputRep_same (next_entry entered) (longer (some q)) (alone.netif i)
              (update place q (in_output i)) i (q ∷ []) (ground arith)
              (record {
                chain = (refl, ground arith);
                end = refl;
                distinct = (tt, tt);
                places = (ground arith, tt);
                len = omega (arith, o.len, ap length e);
                bound = omega (arith, room);
                waiting = λ h. absurd (h ready);
                registered = λ h. absurd (h ready);
              })

        other :
            (j : ℕ)
            → i ≢ j
            → OutputRep
                (next_entry entered)
                (alone.netif j)
                (update place q (in_output i))
                j
                (out j)
        other j ne =
            OutputRep_same (next_entry entered) (m.netif j) (alone.netif j)
              (update place q (in_output i)) j (out j) (ground arith) (entered_output j)

  behind : ℕ → EthMem
  unfolding entered longer
  behind e =
      set_netif (set_queue entered e (record (entered.queue e) { next = some q })) i
        (longer (m.netif i).q_output_begin)

  module _ (room : (m.netif i).q_output_len < (m.netif i).q_output_len_max)
      (ready : (m.netif i).callback_pending ≡ 0) (e : ℕ) (last : last? (out i) ≡ some e) where
    e_place : place e ≡ in_output i
    e_place = All-last? (λ s. place s ≡ in_output i) (out i) o.places last

    linked : (s : ℕ) → s ≢ e → next_entry (behind e) s ≡ next_entry entered s
    unfolding behind
    linked s h = ground arith

    behind-QRep :
        QRep (behind e) (update place q (in_output i)) free input (update out i (out i ++ q ∷ []))
    unfolding behind
    behind-QRep = record {
      free_chain =
          next_frame (next_entry entered) (next_entry k) e m.pool.q_begin free linked
            (NotIn-place place e in_free free (λ h. ground (arith, e_place)) r.free_places)
            (next_frame (next_entry m) (next_entry entered) q m.pool.q_begin free same apart_f
              r.free_chain);
      free_distinct = r.free_distinct;
      free_places = places_frame place q in_free (in_output i) free apart_f r.free_places;
      input_chain =
          next_frame (next_entry entered) (next_entry k) e m.pool.q_input_begin input linked
            (NotIn-place place e in_input input (λ h. ground (arith, e_place)) r.input_places)
            (next_frame (next_entry m) (next_entry entered) q m.pool.q_input_begin input same apart
              r.input_chain);
      input_end = r.input_end;
      input_distinct = r.input_distinct;
      input_places = places_frame place q in_input (in_output i) input apart r.input_places;
      outputs =
          update_cases
            (λ j x. OutputRep (next_entry k) (k.netif j) (update place q (in_output i)) j x) out i
            (out i ++ q ∷ []) own other;
      states = λ s h. ground (arith, r.states s);
    }
      where
        k : EthMem
        k = behind e

        out_q : NotIn q (out i)
        out_q = NotIn-output q i r (λ z. ground arith)

        own :
            OutputRep (next_entry k) (k.netif i) (update place q (in_output i)) i (out i ++ q ∷ [])
        own =
            OutputRep_same (next_entry k) (longer (m.netif i).q_output_begin) (k.netif i)
              (update place q (in_output i)) i (out i ++ q ∷ []) (ground arith)
              (record {
                chain =
                    Chain-congr (update (next_entry entered) e (some q)) (next_entry k)
                      (m.netif i).q_output_begin (out i ++ q ∷ [])
                      (All-intro (λ s. ground arith) (out i ++ q ∷ []))
                      (Chain-append (next_entry entered) (m.netif i).q_output_begin e q (out i)
                        o.distinct out_q last (ground arith) (entered_output i).chain);
                end = sym (last?-append (out i) q);
                distinct = Distinct-append (out i) q o.distinct out_q;
                places =
                    All-append (λ s. update place q (in_output i) s ≡ in_output i) (out i) (q ∷ [])
                      (entered_output i).places (ground arith, tt);
                len = omega (arith, o.len, length-append {0} (out i) (q ∷ []));
                bound = omega (arith, room, o.len, length-append {0} (out i) (q ∷ []));
                waiting = λ h. absurd (h ready);
                registered = λ h. absurd (h ready);
              })

        other :
            (j : ℕ)
            → i ≢ j
            → OutputRep (next_entry k) (k.netif j) (update place q (in_output i)) j (out j)
        other j ne =
            let x =
              OutputRep_frame (next_entry entered) (next_entry k) (m.netif j)
                (update place q (in_output i)) j e busy (out j) linked
                (NotIn-output e j r (λ h. ground (arith, e_place))) (entered_output j) in
            OutputRep_same (next_entry k) (m.netif j) (k.netif j) (update place q (in_output i)) j
              (out j) (ground arith)
              (record {
                chain = x.chain;
                end = x.end;
                distinct = x.distinct;
                places = (entered_output j).places;
                len = x.len;
                bound = x.bound;
                waiting = x.waiting;
                registered = x.registered;
              })

-- A packet for a driver that does not wait, with room in the queue, goes to the end of the output
-- queue of its interface, whose limit stays.
pub eth_add_packet_to_output_queue-QRep :
    (m : EthMem) (place : ℕ → Place) (q i : ℕ) (free input : List ℕ) (out : ℕ → List ℕ)
    → QRep m place free input out
    → place q ≡ busy
    → (m.pbuf (m.queue q).pbuf).ref ≢ 0
    → (m.netif i).callback_pending ≡ 0
    → (m.netif i).q_output_len < (m.netif i).q_output_len_max
    → (m.netif i).q_output_len_max < 2 ^ 32
    → (m' : EthMem) × (eth_add_packet_to_output_queue m q i ≡ done m')
      × QRep m' (update place q (in_output i)) free input (update out i (out i ++ q ∷ []))
      × ((m'.netif i).q_output_len_max ≡ (m.netif i).q_output_len_max)
unfolding eth_add_packet_to_output_queue alone behind
eth_add_packet_to_output_queue-QRep m place q i free input out r b alive ready room fits =
    let m1 = set_queue m q (record (m.queue q) { next = none }) in
    let k = enqueue_output m1 q i in
    let o = r.outputs i in
    elim (last?-cases (out i)) [
      | inl e ↦
          let end : (m.netif i).q_output_end ≡ none = o.end ∙ ap last? e in
          let append_out : update out i (out i ++ q ∷ []) ≡ update out i (q ∷ []) =
            ap (λ l. update out i (l ++ q ∷ [])) e in
          (
            k,
            ground arith,
            QRep-same (alone m place q i free input out r b) k (update place q (in_output i)) free
                input (update out i (out i ++ q ∷ [])) (λ s. ground arith) (λ j. ground arith)
                (ground arith) (ground arith) (ground arith)
                (rw (append_out) (alone-QRep m place q i free input out r b room ready e)),
            ground arith,
          )
      | inr (e, last) ↦
          let end : (m.netif i).q_output_end ≡ some e = o.end ∙ last in
          (
            k,
            ground arith,
            QRep-same (behind m place q i free input out r b e) k (update place q (in_output i))
                free input (update out i (out i ++ q ∷ []))
                (λ s. ground (arith, output_end-ne q i r (λ z. ground arith) e end))
                (λ j. ground arith) (ground arith) (ground arith) (ground arith)
                (behind-QRep m place q i free input out r b room ready e last),
            ground arith,
          )
    ]
