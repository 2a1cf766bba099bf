-- ===== src/EthQueue.antt =====
-- app/src/main/cpp/eth_queue.c: a queue of packets between two threads, linked by the packets' own
-- `next`. A packet is its number, NULL is `none`.
pub mod Fifo
mod Tests
use adapto_lite.Prelude.{
  ℕ, ◌+◌, ◌-◌, Option, none, some, List, Bool, true, false, ltb, leb, ◌==◌, if◌then◌else◌, inc32,
  dec32,
}
use adapto_lite.Prelude.Bytes.{update}
use adapto_lite.Prelude.Chain.{end_after}
use adapto_lite.EthMem.State.{Run, done, em_assert}

-- `struct ETH_Q`
pub record EthQ : Type 0 where
  pub q_begin : Option ℕ
  pub q_end : Option ℕ
  pub q_len : ℕ
  pub q_len_max : ℕ
  pub lost : ℕ

-- The queue, and the field `next` of every packet.
pub record QState : Type 0 where
  pub q : EthQ
  pub next : ℕ → Option ℕ

-- The packet `p` behind the last one, if there is one.
unfoldable pub link_end : QState → ℕ → Option ℕ → QState
link_end s p none = record s { q = record (s.q) { q_begin = some p } }
link_end s p (some e) = record s { next = update s.next e (some p) }

unfoldable pub append_pbuf : QState → ℕ → QState
append_pbuf s p =
    let s1 = link_end s p s.q.q_end in
    let len : ℕ = inc32 s1.q.q_len in
    record s1 {
      q = record (s1.q) {
        q_end = some p;
        q_len = len;
        q_len_max = if ltb s1.q.q_len_max len then len else s1.q.q_len_max;
      };
    }

-- The second part of the result says whether `pbuf_free(p)` is called.
unfoldable pub add_to_custom_queue : QState → ℕ → QState × Bool
add_to_custom_queue s p =
    let s1 : QState = record s { next = update s.next p none } in
    if leb s1.q.q_len_max s1.q.q_len
    then (record s1 { q = record (s1.q) { lost = inc32 s1.q.lost } }, true)
    else (append_pbuf s1 p, false)

-- The first packet, whose successor is `next_pbuf`, leaves.
unfoldable pub unlink_first : QState → ℕ → Option ℕ → QState
unlink_first s p next_pbuf = record s {
  q = record (s.q) {
    q_begin = next_pbuf;
    q_end = end_after next_pbuf s.q.q_end;
    q_len = dec32 s.q.q_len;
  };
  next = update s.next p none;
}

unfoldable pub get_from_custom_queue : QState → Run (Option ℕ × QState)
get_from_custom_queue s = elim s.q.q_begin [
  | none ↦ done (none, s)
  | some p ↦ if s.q.q_len == 0 then em_assert 7 else done (some p, unlink_first s p (s.next p))
]
