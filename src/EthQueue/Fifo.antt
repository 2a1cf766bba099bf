-- ===== src/EthQueue/Fifo.antt =====
-- app/src/main/cpp/eth_queue.c: the linked packets are a queue, first in, first out.
use adapto_lite.Prelude.{
  ℕ, ◌+◌, ◌^◌, ◌≤◌, ◌<◌, ◌≡◌, refl, sym, Option, none, some, List, [], ◌∷◌, ◌++◌, Bool, true, false,
  ltb, leb, ◌==◌, if◌then◌else◌, inc32, arith, length, length-append, ltb_cases, inl, inr,
}
use adapto_lite.Prelude.Bytes.{update}
use adapto_lite.Prelude.Chain.{
  Chain, Chain-append, Chain-update-NotIn, end_after, last?, last?-append, last?-cons, NotIn,
  Distinct, Distinct-append,
}
use adapto_lite.EthMem.State.{done}
use adapto_lite.EthQueue.{
  QState, link_end, append_pbuf, add_to_custom_queue, unlink_first, get_from_custom_queue,
}

-- The queue holds the packets `l`, the oldest first; it takes no more than its limit.
pub record Holds (s : QState) (l : List ℕ) : Type 0 where
  pub chain : Chain s.next s.q.q_begin l
  pub end : s.q.q_end ≡ last? l
  pub distinct : Distinct l
  pub len : s.q.q_len ≡ length l
  pub bound : length l ≤ s.q.q_len_max
  pub word : s.q.q_len_max < 2 ^ 32

-- What `add_to_custom_queue` does to a queue that holds `l`.
pub record Added (s : QState) (p : ℕ) (l : List ℕ) (r : QState × Bool) : Type 0 where
  pub holds : Holds r.0 (if ltb (length l) s.q.q_len_max then l ++ p ∷ [] else l)
  pub freed : r.1 ≡ (if ltb (length l) s.q.q_len_max then false else true)
  pub lost : r.0.q.lost ≡ (if ltb (length l) s.q.q_len_max then s.q.lost else inc32 s.q.lost)
  pub limit : r.0.q.q_len_max ≡ s.q.q_len_max

append_pbuf-Holds :
    (s : QState) (p : ℕ) (l : List ℕ)
    → Holds s l
    → NotIn p l
    → s.next p ≡ none
    → length l < s.q.q_len_max
    → Holds (append_pbuf s p) (l ++ p ∷ [])
      × ((append_pbuf s p).q.q_len_max ≡ s.q.q_len_max)
      × ((append_pbuf s p).q.lost ≡ s.q.lost)
unfolding append_pbuf link_end
append_pbuf-Holds s p [] h n e room =
    let len : inc32 s.q.q_len ≡ 1 = omega (arith, h.len) in
    let same : ltb s.q.q_len_max 1 ≡ false = ground (arith, room) in
    rw (h.end, len, same)
      (
        record {
          chain = (refl, e);
          end = refl;
          distinct = (tt, tt);
          len = refl;
          bound = omega (arith, room);
          word = h.word;
        },
        refl,
        refl,
      )
append_pbuf-Holds s p (x ∷ l) h n e room =
    let (k, last) = last?-cons x l in
    let size : length ((x ∷ l) ++ p ∷ []) ≡ length (x ∷ l) + 1 = length-append (x ∷ l) (p ∷ []) in
    let len : inc32 s.q.q_len ≡ length (x ∷ l) + 1 = omega (arith, h.len, h.word, room) in
    let same : ltb s.q.q_len_max (length (x ∷ l) + 1) ≡ false = ground (arith, room) in
    rw (h.end, last, len, same)
      (
        record {
          chain = Chain-append s.next s.q.q_begin k p (x ∷ l) h.distinct n last e h.chain;
          end = sym (last?-append (x ∷ l) p);
          distinct = Distinct-append (x ∷ l) p h.distinct n;
          len = sym size;
          bound = omega (arith, room, size);
          word = h.word;
        },
        refl,
        refl,
      )

-- A packet that is not in the queue: where the queue has room, it becomes the last; else it is freed
-- and counted as lost. The limit stays.
pub add_to_custom_queue-Added :
    (s : QState) (p : ℕ) (l : List ℕ)
    → Holds s l
    → NotIn p l
    → Added s p l (add_to_custom_queue s p)
unfolding add_to_custom_queue
add_to_custom_queue-Added s p l h n =
    let s1 : QState = record s { next = update s.next p none } in
    let h1 : Holds s1 l = record {
      chain = Chain-update-NotIn s.next p none s.q.q_begin l n h.chain;
      end = h.end;
      distinct = h.distinct;
      len = h.len;
      bound = h.bound;
      word = h.word;
    } in
    elim (ltb_cases (length l) s.q.q_len_max) [
      | inl (a, b) ↦
          let full : leb s.q.q_len_max s.q.q_len ≡ false = ground (arith, a, h.len) in
          let r = append_pbuf-Holds s1 p l h1 n (ground arith) a in
          rw full (record { holds = rw b r.0; freed = rw b refl; lost = rw b r.2; limit = r.1 })
      | inr (a, b) ↦
          let full : leb s.q.q_len_max s.q.q_len ≡ true = ground (arith, a, h.len) in
          rw full (record {
            holds = rw b (record {
              chain = h1.chain;
              end = h1.end;
              distinct = h1.distinct;
              len = h1.len;
              bound = h1.bound;
              word = h1.word;
            });
            freed = rw b refl;
            lost = rw b refl;
            limit = refl;
          })
    ]

end_left :
    (e n : Option ℕ) (next : ℕ → Option ℕ) (p : ℕ) (l : List ℕ)
    → Chain next n l
    → e ≡ last? (p ∷ l)
    → end_after n e ≡ last? l
end_left e n next p [] c h = rw c refl
end_left e n next p (q ∷ l) c h = rw c.0 h

-- From a queue with packets the oldest is taken, without the assertion, and the others stay in their
-- order; it has no link into the queue any more.
pub get_from_custom_queue-Holds :
    (s : QState) (p : ℕ) (l : List ℕ)
    → Holds s (p ∷ l)
    → (s1 : QState) × (get_from_custom_queue s ≡ done (some p, s1))
      × Holds s1 l
      × (s1.next p ≡ none)
      × (s1.q.q_len_max ≡ s.q.q_len_max)
unfolding get_from_custom_queue unlink_first
get_from_custom_queue-Holds s p l h =
    let busy : (s.q.q_len == 0) ≡ false = ground (arith, h.len) in
    (
      unlink_first s p (s.next p),
      rw (h.chain.0, get_from_custom_queue, busy) refl,
      record {
        chain = Chain-update-NotIn s.next p none (s.next p) l h.distinct.0 h.chain.1;
        end = end_left s.q.q_end (s.next p) s.next p l h.chain.1 h.end;
        distinct = h.distinct.1;
        len = omega (arith, h.len, h.bound, h.word);
        bound = omega (arith, h.bound);
        word = h.word;
      },
      ground arith,
      refl,
    )
