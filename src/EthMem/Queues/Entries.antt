-- ===== src/EthMem/Queues/Entries.antt =====
-- `eth_queue_entry_alloc` and `eth_queue_entry_free`
use adapto_lite.Prelude.{ℕ, ◌≡◌, ◌≢◌, refl, List, ◌∷◌, arith, false}
use adapto_lite.Prelude.Bytes.{update}
use adapto_lite.Prelude.Chain.{NotIn}
use adapto_lite.EthMem.State.{EthMem, QueueState, st_free, done}
use adapto_lite.EthMem.Queues.{
  eth_queue_entry_alloc, eth_queue_entry_free, take_entry, put_entry, is_free,
}
use adapto_lite.EthMem.Queues.Rep.{
  QRep, Place, in_free, in_input, busy, next_entry, NotIn-place, places_frame, next_frame,
  OutputRep_frame, NotIn-output,
}

-- The first free entry leaves the chain, and is in no queue.
pub take_entry-QRep :
    (m : EthMem) (place : ℕ → Place) (q : ℕ) (free input : List ℕ) (out : ℕ → List ℕ)
    → QRep m place (q ∷ free) input out
    → QRep (take_entry m q) (update place q busy) free input out
unfolding eth_queue_entry_alloc
take_entry-QRep m place q free input out r = record {
  free_chain =
      next_frame (next_entry m) (next_entry k) q (next_entry m q) free same r.free_distinct.0
        r.free_chain.1;
  free_distinct = r.free_distinct.1;
  free_places = places_frame place q in_free busy free r.free_distinct.0 r.free_places.1;
  input_chain =
      next_frame (next_entry m) (next_entry k) q m.pool.q_input_begin input same apart
        r.input_chain;
  input_end = r.input_end;
  input_distinct = r.input_distinct;
  input_places = places_frame place q in_input busy input apart r.input_places;
  outputs = λ i.
      OutputRep_frame (next_entry m) (next_entry k) (m.netif i) place i q busy (out i) same
        (NotIn-output q i r (λ e. ground (arith, r.free_places.0))) (r.outputs i);
  states = λ s e. ground (arith, r.states s);
}
  where
    k : EthMem
    k = take_entry m q

    same : (s : ℕ) → s ≢ q → next_entry k s ≡ next_entry m s
    same s h = ground arith

    apart : NotIn q input
    apart = NotIn-place place q in_input input (λ e. ground (arith, r.free_places.0)) r.input_places

is_free_ne : (s : QueueState) → s ≢ st_free → is_free s ≡ false
unfolding is_free
is_free_ne s ne = ground arith

pub eth_queue_entry_free-busy :
    (m : EthMem) (place : ℕ → Place) (q : ℕ) (free input : List ℕ) (out : ℕ → List ℕ)
    → QRep m place free input out
    → place q ≡ busy
    → eth_queue_entry_free m q ≡ done (put_entry m q)
unfolding eth_queue_entry_free
eth_queue_entry_free-busy m place q free input out r b =
    rw (is_free_ne (m.queue q).state (λ e. ground (arith, r.states q e)))

pub put_entry-QRep :
    (m : EthMem) (place : ℕ → Place) (q : ℕ) (free input : List ℕ) (out : ℕ → List ℕ)
    → QRep m place free input out
    → place q ≡ busy
    → QRep (put_entry m q) (update place q in_free) (q ∷ free) input out
unfolding eth_queue_entry_free
put_entry-QRep m place q free input out r b = record {
  free_chain = (
    refl,
    ground (
      arith,
      next_frame (next_entry m) (next_entry k) q m.pool.q_begin free same apart_f r.free_chain,
    ),
  );
  free_distinct = (apart_f, r.free_distinct);
  free_places = (ground arith, places_frame place q in_free in_free free apart_f r.free_places);
  input_chain = next_frame (next_entry m) (next_entry k) q _ input same apart r.input_chain;
  input_end = r.input_end;
  input_distinct = r.input_distinct;
  input_places = places_frame place q in_input in_free input apart r.input_places;
  outputs = λ i.
      OutputRep_frame (next_entry m) (next_entry k) (m.netif i) place i q in_free (out i) same
        (NotIn-output q i r (λ e. ground arith)) (r.outputs i);
  states = λ s e. ground (arith, r.states s);
}
  where
    k : EthMem
    k = put_entry m q

    same : (s : ℕ) → s ≢ q → next_entry k s ≡ next_entry m s
    same s h = ground arith

    apart : NotIn q input
    apart = NotIn-place place q in_input input (λ e. ground arith) r.input_places

    apart_f : NotIn q free
    apart_f = NotIn-place place q in_free free (λ e. ground arith) r.free_places

-- Freeing an entry that is in no queue meets no assertion and puts it first on the free chain.
pub eth_queue_entry_free-QRep :
    (m : EthMem) (place : ℕ → Place) (q : ℕ) (free input : List ℕ) (out : ℕ → List ℕ)
    → QRep m place free input out
    → place q ≡ busy
    → (m' : EthMem) × (eth_queue_entry_free m q ≡ done m')
      × QRep m' (update place q in_free) (q ∷ free) input out
eth_queue_entry_free-QRep m place q free input out r b = (
  put_entry m q,
  eth_queue_entry_free-busy m place q free input out r b,
  put_entry-QRep m place q free input out r b,
)
