-- ===== src/NatSockets/Receiving.antt =====
-- app/src/main/cpp/eth_nat.c, `NAT_RX_Task`: what a socket receives goes to lwIP in its order, also
-- where lwIP has no room for a time.
use adapto_lite.Prelude.{
  map-append, ℕ, ◌≡◌, ◌≢◌, refl, sym, ap, ◌∙◌, List, [], ◌∷◌, ◌++◌, Bool, true, false, ◌==◌, map,
  append-nil, append_assoc, arith,
}
use adapto_lite.EthMem.State.{done}
use adapto_lite.NatSockets.{NatEntry, Call, tcp_write, Nats, set_entry, LwPbuf}
use adapto_lite.NatSockets.Tasks.{
  RecvResult, received, recv_again, flush, rx_loop, nat_rx_task_entry,
}

-- What `recv` and `tcp_write` return for bytes that lwIP takes.
abbrev pub accepted : List (List ℕ) → List (RecvResult × Bool)
accepted = map (λ xs. (received xs, true))

-- The writes to lwIP's connection of the entry.
abbrev pub writes : NatEntry → List (List ℕ) → List Call
writes e = map (λ xs. tcp_write e.pcb xs)

-- The writes `cs` were made, and `xs` waits in the entry's buffer; all else is as it was.
pub record Forwarded (s t : Nats) (i : ℕ) (cs : List (List ℕ)) (xs : List ℕ) : Type 0 where
  pub calls : t.calls ≡ s.calls ++ writes (s.tab i) cs
  pub entry : t.tab i ≡ record (s.tab i) { txbuf = xs }
  pub others : (j : ℕ) → i ≢ j → t.tab j ≡ s.tab j
  pub stat : t.stat ≡ s.stat

flush-Forwarded : (s : Nats) (i : ℕ) (xs : List ℕ) → Forwarded s (flush s i xs) i (xs ∷ []) []
unfolding flush
flush-Forwarded s i xs = record {
  calls = refl;
  entry = ground arith;
  others = λ j h. ground arith;
  stat = refl;
}

-- One flush more, in front.
flush-more :
    (s t : Nats) (i : ℕ) (xs : List ℕ) (cs : List (List ℕ)) (ys : List ℕ)
    → Forwarded (flush s i xs) t i cs ys
    → Forwarded s t i (xs ∷ cs) ys
flush-more s t i xs cs ys h =
    let f = flush-Forwarded s i xs in
    record {
      calls =
          h.calls
          ∙ ap (λ (e : NatEntry). (flush s i xs).calls ++ writes e cs) f.entry
          ∙ ap (λ (l : List Call). l ++ writes (s.tab i) cs) f.calls
          ∙ append_assoc s.calls (tcp_write (s.tab i).pcb xs ∷ []) (writes (s.tab i) cs);
      entry = h.entry ∙ ap (λ (e : NatEntry). record e { txbuf = ys }) f.entry;
      others = λ j n. h.others j n ∙ f.others j n;
      stat = h.stat ∙ f.stat;
    }

-- From an empty buffer, the parts `cs` are received and written; then `rest` follows.
rx_loop-accepted :
    (pbufs : ℕ → LwPbuf) (ok : Bool) (rest : List (RecvResult × Bool)) (ys : List ℕ)
    (cs : List (List ℕ)) (first : Bool) (s : Nats) (i : ℕ)
    → (s.tab i).txbuf ≡ []
    → ((f : Bool) (t : Nats)
        → (t.tab i).txbuf ≡ []
        → (u : Nats) × (rx_loop pbufs ok rest f t i ≡ done u) × Forwarded t u i [] ys)
    → (u : Nats) × (rx_loop pbufs ok (accepted cs ++ rest) first s i ≡ done u)
      × Forwarded s u i cs ys
unfolding rx_loop
rx_loop-accepted pbufs ok rest ys [] first s i e tail = tail first s e
rx_loop-accepted pbufs ok rest ys (c ∷ cs) first s i e tail =
    let f = flush-Forwarded s i c in
    let (u, run, h) =
      rx_loop-accepted pbufs ok rest ys cs false (flush s i c) i
        (ap (λ (x : NatEntry). x.txbuf) f.entry) tail in
    (u, rw e run, flush-more s u i c cs ys h)

-- Nothing more comes in.
rx_loop-again :
    (pbufs : ℕ → LwPbuf) (ok w : Bool) (f : Bool) (t : Nats) (i : ℕ)
    → (t.tab i).txbuf ≡ []
    → (u : Nats) × (rx_loop pbufs ok ((recv_again, w) ∷ []) f t i ≡ done u) × Forwarded t u i [] []
unfolding rx_loop
rx_loop-again pbufs ok w f t i e = (
  t,
  rw (e, rx_loop) refl,
  record {
    calls = sym (append-nil t.calls);
    entry = ground (arith, e);
    others = λ j h. refl;
    stat = refl;
  },
)

-- lwIP has no room for `ys`, which stay in the buffer.
rx_loop-refused :
    (pbufs : ℕ → LwPbuf) (ok : Bool) (ys : List ℕ) (f : Bool) (t : Nats) (i : ℕ)
    → (t.tab i).txbuf ≡ []
    → (u : Nats) × (rx_loop pbufs ok ((received ys, false) ∷ []) f t i ≡ done u)
      × Forwarded t u i [] ys
unfolding rx_loop
rx_loop-refused pbufs ok ys f t i e = (
  set_entry t i (record (t.tab i) { txbuf = ys }),
  rw (e, rx_loop) refl,
  record {
    calls = sym (append-nil t.calls);
    entry = ground arith;
    others = λ j h. ground arith;
    stat = refl;
  },
)

Forwarded-trans :
    (s t u : Nats) (i : ℕ) (cs ds : List (List ℕ)) (xs ys : List ℕ)
    → Forwarded s t i cs xs
    → Forwarded t u i ds ys
    → Forwarded s u i (cs ++ ds) ys
Forwarded-trans s t u i cs ds xs ys f g = record {
  calls =
      g.calls
      ∙ ap (λ (e : NatEntry). t.calls ++ writes e ds) f.entry
      ∙ ap (λ (l : List Call). l ++ writes (s.tab i) ds) f.calls
      ∙ append_assoc s.calls (writes (s.tab i) cs) (writes (s.tab i) ds)
      ∙ ap (λ (l : List Call). s.calls ++ l) (sym (map-append _ cs ds));
  entry = g.entry ∙ ap (λ (e : NatEntry). record e { txbuf = ys }) f.entry;
  others = λ j n. g.others j n ∙ f.others j n;
  stat = g.stat ∙ f.stat;
}

-- An active entry with an empty buffer, whose socket is ready in two rounds. In the first lwIP takes the
-- parts `cs` that are received and has no room for the next one, `y ∷ ys`; in the second it has room
-- again, takes more parts, `ds`, and the socket has no more. Then lwIP got every part once, in
-- order, that one included, the buffer is empty, and no other entry has changed; in between the
-- buffer held the part.
pub nat_rx_task_entry-forwards :
    (pbufs : ℕ → LwPbuf) (ok w : Bool) (r : RecvResult) (s : Nats) (i y : ℕ) (ys : List ℕ)
    (cs ds : List (List ℕ))
    → (s.tab i).nat.status ≢ 0
    → (s.tab i).txbuf ≡ []
    → (t : Nats) × (u : Nats) × (nat_rx_task_entry pbufs ok false true
          (accepted cs ++ (received (y ∷ ys), false) ∷ [])
          s
          i
        ≡ done t)
      × ((t.tab i).txbuf ≡ y ∷ ys)
      × (nat_rx_task_entry pbufs ok false true ((r, true) ∷ accepted ds ++ (recv_again, w) ∷ []) t i
          ≡ done u)
      × (u.calls ≡ s.calls ++ writes (s.tab i) (cs ++ (y ∷ ys) ∷ ds))
      × (u.tab i ≡ s.tab i)
      × ((j : ℕ) → i ≢ j → u.tab j ≡ s.tab j)
unfolding nat_rx_task_entry rx_loop
nat_rx_task_entry-forwards pbufs ok w r s i y ys cs ds active e =
    let on : ((s.tab i).nat.status == 0) ≡ false = ground (arith, active) in
    let (t, run1, f) =
      rx_loop-accepted pbufs ok ((received (y ∷ ys), false) ∷ []) (y ∷ ys) cs true s i e
        (λ f t. rx_loop-refused pbufs ok (y ∷ ys) f t i) in
    let full : (t.tab i).txbuf ≡ y ∷ ys = ap (λ (x : NatEntry). x.txbuf) f.entry in
    let on_t : ((t.tab i).nat.status == 0) ≡ false =
      ap (λ (x : NatEntry). x.nat.status == 0) f.entry ∙ on in
    let g = flush-Forwarded t i (y ∷ ys) in
    let (u, run2, h) =
      rx_loop-accepted pbufs ok ((recv_again, w) ∷ []) [] ds true (flush t i (y ∷ ys)) i
        (ap (λ (x : NatEntry). x.txbuf) g.entry) (λ f t. rx_loop-again pbufs ok w f t i) in
    let all =
      Forwarded-trans s t u i cs ((y ∷ ys) ∷ ds) (y ∷ ys) [] f
        (flush-more t u i (y ∷ ys) ds [] h) in
    (
      t,
      u,
      rw on run1,
      full,
      rw (on_t, full, rx_loop) run2,
      all.calls,
      all.entry ∙ ap (λ (x : List ℕ). record (s.tab i) { txbuf = x }) (sym e),
      all.others,
    )
