-- ===== src/BtDrv/Pool.antt =====
-- The pool of app/src/main/cpp/eth_mem.c while the program starts: what each part's initialisation sets.
use adapto_lite.Prelude.{
  ℕ, ◌≤◌, ◌≡◌, ◌≢◌, ◌∙◌, refl, Option, none, some, List, [], arith, Bool-cases, inl, inr, ◌==◌,
}
use adapto_lite.Prelude.Bytes.{update}
use adapto_lite.EthMem.State.{
  done, EthMem, EthNetif, set_netif, callback_from_bridge, lwip_callback_from_bridge,
  ble_callback_qlen, lwip_netif_id, test_netif_id, ble_netif_id,
}
use adapto_lite.EthMem.Pbufs.Rep.{Rep, Rep-same}
use adapto_lite.EthMem.Queues.{eth_get_packet}
use adapto_lite.EthMem.Queues.Rep.{QRep, QRep-same, OutputRep, Place, next_entry}
use adapto_lite.EthMem.Bridge.{new_place}
use adapto_lite.LwipIf.Sent.{SameNetifs}
use adapto_lite.LwipIf.Init.{take_all_packets}

-- The pool before the start, of which the bridge sets the rest.
pub record Zeroed (m : EthMem) : Type 0 where
  pub used : m.pbuf_ctrl.used ≡ 0
  pub pending : m.pool.free_pbuf_q_begin ≡ none
  pub pending_end : m.pool.free_pbuf_q_end ≡ none
  pub input : m.pool.q_input_begin ≡ none
  pub input_end : m.pool.q_input_end ≡ none
  pub others : (i : ℕ) → 4 ≤ i → OutputRep (next_entry m) (m.netif i) new_place i []

-- An interface with an empty queue.
record IsEmpty (n : EthNetif) : Type 0 where
  begin : n.q_output_begin ≡ none
  end : n.q_output_end ≡ none
  len : n.q_output_len ≡ 0
  registered : n.callback_pending ≢ 0 → n.callback_fn ≢ none

-- Where all queues are empty, an interface may change its limit and its callbacks.
set_netif-QRep :
    (m : EthMem) (free : List ℕ) (i : ℕ) (n : EthNetif)
    → IsEmpty n
    → QRep m new_place free [] (λ j. [])
    → QRep (set_netif m i n) new_place free [] (λ j. [])
set_netif-QRep m free i n z r = record {
  free_chain = r.free_chain;
  free_distinct = r.free_distinct;
  free_places = r.free_places;
  input_chain = r.input_chain;
  input_end = r.input_end;
  input_distinct = tt;
  input_places = tt;
  outputs = λ j. at_index j (r.outputs j);
  states = r.states;
}
  where
    own : (j : ℕ) → OutputRep (next_entry m) n new_place j []
    own j = record {
      chain = z.begin;
      end = z.end;
      distinct = tt;
      places = tt;
      len = z.len;
      bound = omega arith;
      waiting = λ w. refl;
      registered = z.registered;
    }

    at_index :
        (j : ℕ)
        → OutputRep (next_entry m) (m.netif j) new_place j []
        → OutputRep (next_entry m) (update m.netif i n j) new_place j []
    at_index j o = elim (Bool-cases (i == j)) [ inl e ↦ rw e (own j) | inr e ↦ rw e o ]

OutputRep-IsEmpty :
    {f : ℕ → Option ℕ} {n : EthNetif} {place : ℕ → Place} {i : ℕ}
    → OutputRep f n place i []
    → IsEmpty n
OutputRep-IsEmpty o = record {
  begin = o.chain;
  end = o.end;
  len = o.len;
  registered = o.registered;
}

-- Each of the interface's changes at the start.
abbrev ble_netif : EthMem → EthNetif
ble_netif m = record (m.netif ble_netif_id) {
  callback_fn = some callback_from_bridge;
  q_output_len_max = 20;
  q_update_cbk = some ble_callback_qlen;
  if_up = 1;
}

abbrev test_netif : EthMem → EthNetif
test_netif m = record (m.netif test_netif_id) { q_output_len_max = 20; if_up = 1 }

abbrev pub lwip_netif : EthMem → EthNetif
lwip_netif m = record (m.netif lwip_netif_id) { callback_fn = some lwip_callback_from_bridge }

abbrev lwip_waits : EthMem → EthNetif
lwip_waits m = record (lwip_netif m) { callback_pending = 1; q_output_len_max = 20 }

unfoldable pub linked : EthMem → EthMem
linked m =
    let m1 = set_netif m ble_netif_id (ble_netif m) in set_netif m1 test_netif_id (test_netif m1)

unfoldable pub started : EthMem → EthMem
unfolding linked
started m =
    let m2 = linked m in
    let m3 = set_netif m2 lwip_netif_id (lwip_netif m2) in
    let m4 = set_netif m3 lwip_netif_id (record (lwip_netif m2) { callback_pending = 1 }) in
    set_netif m4 lwip_netif_id (lwip_waits m2)

unfoldable pub up : EthMem → EthMem
up m = set_netif m lwip_netif_id (record (m.netif lwip_netif_id) { if_up = 1 })

linked-QRep :
    (m : EthMem) (free : List ℕ)
    → QRep m new_place free [] (λ j. [])
    → QRep (linked m) new_place free [] (λ j. [])
unfolding linked
linked-QRep m free r =
    let m1 = set_netif m ble_netif_id (ble_netif m) in
    let a = OutputRep-IsEmpty (r.outputs ble_netif_id) in
    let r1 =
      set_netif-QRep m free ble_netif_id (ble_netif m)
        (record { begin = a.begin; end = a.end; len = a.len; registered = λ w e. cc }) r in
    let b = OutputRep-IsEmpty (r1.outputs test_netif_id) in
    set_netif-QRep m1 free test_netif_id (test_netif m1)
      (record { begin = b.begin; end = b.end; len = b.len; registered = b.registered }) r1

pub started-QRep :
    (m : EthMem) (free : List ℕ)
    → QRep m new_place free [] (λ j. [])
    → QRep (started m) new_place free [] (λ j. [])
unfolding started
started-QRep m free r =
    let m2 = linked m in
    let r2 = linked-QRep m free r in
    let m3 = set_netif m2 lwip_netif_id (lwip_netif m2) in
    let n4 : EthNetif = record (lwip_netif m2) { callback_pending = 1 } in
    let m4 = set_netif m3 lwip_netif_id n4 in
    let a = OutputRep-IsEmpty (r2.outputs lwip_netif_id) in
    let r3 =
      set_netif-QRep m2 free lwip_netif_id (lwip_netif m2)
        (record { begin = a.begin; end = a.end; len = a.len; registered = λ w e. cc }) r2 in
    let r4 =
      set_netif-QRep m3 free lwip_netif_id n4
        (record { begin = a.begin; end = a.end; len = a.len; registered = λ w e. cc }) r3 in
    set_netif-QRep m4 free lwip_netif_id (lwip_waits m2)
      (record { begin = a.begin; end = a.end; len = a.len; registered = λ w e. cc }) r4

pub take_all_packets-empty :
    (m : EthMem)
    → (m.netif lwip_netif_id).q_output_begin ≡ none
    → (m.netif lwip_netif_id).callback_fn ≡ some lwip_callback_from_bridge
    → take_all_packets 1 m
      ≡ done (set_netif m lwip_netif_id (record (m.netif lwip_netif_id) { callback_pending = 1 }))
unfolding take_all_packets eth_get_packet
take_all_packets-empty m b f = ground (arith, b, f)

pub started-Rep : (m : EthMem) (free : List ℕ) → Rep m free [] [] → Rep (started m) free [] []
unfolding started linked
started-Rep m free r = Rep-same m k free [] [] (λ q. refl) (λ q. refl) refl refl r
  where
    k : EthMem
    k = started m

-- What the start leaves: the link's and lwIP's interfaces are up and registered, with room for 20
-- packets, and lwIP waits for its first packet.
pub record IsUp (m : EthMem) : Type 0 where
  pub ble_up : (m.netif ble_netif_id).if_up ≡ 1
  pub ble_callback : (m.netif ble_netif_id).callback_fn ≡ some callback_from_bridge
  pub ble_qlen : (m.netif ble_netif_id).q_update_cbk ≡ some ble_callback_qlen
  pub ble_limit : (m.netif ble_netif_id).q_output_len_max ≡ 20
  pub lwip_up : (m.netif lwip_netif_id).if_up ≡ 1
  pub lwip_callback : (m.netif lwip_netif_id).callback_fn ≡ some lwip_callback_from_bridge
  pub lwip_waits : (m.netif lwip_netif_id).callback_pending ≡ 1
  pub lwip_limit : (m.netif lwip_netif_id).q_output_len_max ≡ 20
  pub loopback_down : (m.netif 0).if_up ≡ 0

-- All but lwIP's own flag is there before lwIP brings its interface up.
pub IsUp-started :
    (m m' : EthMem) → (m.netif 0).if_up ≡ 0 → SameNetifs (started m) m' → IsUp (up m')
unfolding started linked up
IsUp-started m m' z h = record {
  ble_up = h.if_up ble_netif_id;
  ble_callback = h.callback ble_netif_id;
  ble_qlen = h.update_cbk ble_netif_id;
  ble_limit = h.limit ble_netif_id;
  lwip_up = refl;
  lwip_callback = h.callback lwip_netif_id;
  lwip_waits = h.pending lwip_netif_id;
  lwip_limit = h.limit lwip_netif_id;
  loopback_down = h.if_up 0 ∙ z;
}

pub up-QRep :
    (m : EthMem) (place : ℕ → Place) (free input : List ℕ) (out : ℕ → List ℕ)
    → QRep m place free input out
    → QRep (up m) place free input out
unfolding up
up-QRep m place free input out r =
    QRep-same m k place free input out (λ q. refl) (λ i. ground arith) refl refl refl r
  where
    k : EthMem
    k = up m

pub up-Rep :
    (m : EthMem) (free pending held : List ℕ)
    → Rep m free pending held
    → Rep (up m) free pending held
unfolding up
up-Rep m free pending held r = Rep-same m k free pending held (λ q. refl) (λ q. refl) refl refl r
  where
    k : EthMem
    k = up m
