-- ===== src/EthQueue/Tests.antt =====
-- app/src/main/cpp/eth_queue.c on a queue of at most two packets.
use adapto_lite.Prelude.{◌≡◌, refl, none, some, [], ◌∷◌, ◌==◌, if◌then◌else◌, arith}
use adapto_lite.EthMem.State.{done}
use adapto_lite.EthQueue.{QState, add_to_custom_queue, get_from_custom_queue}
use adapto_lite.EthQueue.Fifo.{Holds, Added, add_to_custom_queue-Added, get_from_custom_queue-Holds}

-- The packets 4 and 7.
abbrev full : QState
full = record {
  q = record { q_begin = some 4; q_end = some 7; q_len = 2; q_len_max = 2; lost = 0 };
  next = λ p. if p == 4 then some 7 else none;
}

full-Holds : Holds full (4 ∷ 7 ∷ [])
full-Holds = record {
  chain = (refl, (refl, refl));
  end = refl;
  distinct = (((λ e. omega (arith, e)), tt), (tt, tt));
  len = refl;
  bound = omega arith;
  word = omega arith;
}

add_to_custom_queue-Added_example : Added full 9 (4 ∷ 7 ∷ []) (add_to_custom_queue full 9)
add_to_custom_queue-Added_example =
    add_to_custom_queue-Added full 9 (4 ∷ 7 ∷ []) full-Holds
      ((λ e. omega (arith, e)), ((λ e. omega (arith, e)), tt))

get_from_custom_queue-Holds_example :
    (s1 : QState) × (get_from_custom_queue full ≡ done (some 4, s1))
    × Holds s1 (7 ∷ [])
    × (s1.next 4 ≡ none)
    × (s1.q.q_len_max ≡ 2)
get_from_custom_queue-Holds_example = get_from_custom_queue-Holds full 4 (7 ∷ []) full-Holds
