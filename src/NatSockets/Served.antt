-- ===== src/NatSockets/Served.antt =====
-- app/src/main/cpp/eth_nat.c: what a round of `NAT_Task` does to one entry.
use adapto_lite.Prelude.{
  ℕ, ◌+◌, ◌-◌, ◌^◌, ◌≤◌, ◌<◌, ◌≡◌, ◌≢◌, ◌⊎◌, inl, inr, refl, sym, ap, ◌∙◌, none, List, [], ◌∷◌,
  Bool, true, false, ◌&&◌, ltb, ◌==◌, if◌then◌else◌, add32, arith, Bool-cases,
}
use adapto_lite.EthMem.State.{done}
use adapto_lite.NatSockets.{NatEntry, Nats, LwPbuf}
use adapto_lite.NatSockets.Ring.{Ring}
use adapto_lite.NatSockets.Tasks.{SendResult, sent, again, failed, nat_task_entry, after_sent, pop}
use adapto_lite.NatSockets.Sending.{Head, Head-send, nat_task_entry-Ring}
use adapto_lite.NatSockets.Rounds.{is_active}

-- lwIP's packets are in one part each, of less than 64 KB.
abbrev pub Unchained : (ℕ → LwPbuf) → Type 0
Unchained pbufs =
    (p : ℕ)
    → ((pbufs p).next ≡ none) × ((pbufs p).len ≡ (pbufs p).tot_len) × ((pbufs p).tot_len < 2 ^ 16)

-- The first packet has bytes from `offs` on.
abbrev pub Unsent : (ℕ → LwPbuf) → ℕ → List ℕ → Type 0
Unsent pbufs offs [] = Unit {0}
Unsent pbufs offs (p ∷ l) = offs < (pbufs p).tot_len

-- `send` has no other error than a full buffer, and takes no more than it is offered.
abbrev pub Takes : (ℕ → ℕ → ℕ → SendResult) → Type 0
Takes send = (p o n : ℕ) → (send p o n ≡ again) ⊎ ((k : ℕ) × (send p o n ≡ sent k) × (k ≤ n))

-- The queue `p ∷ l` and the offset after a call of `send`.
abbrev pub advance : (ℕ → LwPbuf) → SendResult → ℕ → List ℕ → ℕ → List ℕ × ℕ
advance pbufs (sent n) p l offs =
    if ltb (offs + n) (pbufs p).tot_len then (p ∷ l, offs + n) else (l, 0)
advance pbufs again p l offs = (p ∷ l, offs)
advance pbufs failed p l offs = (p ∷ l, offs)

-- The queue and the offset of an entry after a round in which its socket is served or not.
abbrev pub after_round : (ℕ → LwPbuf) → (ℕ → ℕ → ℕ → SendResult) → Bool → ℕ → List ℕ → List ℕ × ℕ
after_round pbufs send false offs l = (l, offs)
after_round pbufs send true offs [] = ([], offs)
after_round pbufs send true offs (p ∷ l) =
    advance pbufs (send p offs ((pbufs p).tot_len - offs)) p l offs

-- The entry holds the queue, and the offset is this one.
pub record Queued (e : NatEntry) (q : List ℕ × ℕ) : Type 0 where
  pub ring : Ring e (q.0)
  pub offs : e.offs ≡ q.1

-- Only the entry `i` changes, and it holds `q` then.
pub record Served (t t' : Nats) (i : ℕ) (q : List ℕ × ℕ) : Type 0 where
  pub own : Queued (t'.tab i) q
  pub others : (j : ℕ) → i ≢ j → t'.tab j ≡ t.tab j

done-injective : {x y : Nats} → done x ≡ done y → x ≡ y
done-injective h = cc

after_sent-others :
    (pbufs : ℕ → LwPbuf) (ok : Bool) (t : Nats) (i p n j : ℕ) {t' : Nats}
    → after_sent pbufs ok t i p (sent n) ≡ done t'
    → i ≢ j
    → t'.tab j ≡ t.tab j
unfolding after_sent pop
after_sent-others pbufs ok t i p n j e h =
    elim (Bool-cases (ltb (add32 (t.tab i).offs n) (pbufs p).tot_len)) [
      | inl x ↦
          ap (λ (y : Nats). y.tab j) (sym (done-injective (rw (x, after_sent) at e)))
          ∙ ground (arith, h)
      | inr x ↦
          ap (λ (y : Nats). y.tab j) (sym (done-injective (rw (x, after_sent) at e)))
          ∙ ground (arith, h)
    ]

queued :
    (x : Bool) (e : NatEntry) (l k : List ℕ) (m n : ℕ)
    → Ring e (if x then l else k)
    → e.offs ≡ (if x then m else n)
    → Queued e (if x then (l, m) else (k, n))
queued true e l k m n r o = record { ring = r; offs = o }
queued false e l k m n r o = record { ring = r; offs = o }

module _ (pbufs : ℕ → LwPbuf) (ok : Bool) (whole : Unchained pbufs) where
  unchanged :
      (send : ℕ → ℕ → ℕ → SendResult) (t : Nats) (i : ℕ) (l : List ℕ)
      → Ring (t.tab i) l
      → Served t t i (l, (t.tab i).offs)
  unchanged send t i l r = record { own = record { ring = r; offs = refl }; others = λ j h. refl }

  -- The socket of an active entry with packets is ready.
  Served-ready :
      (send : ℕ → ℕ → ℕ → SendResult) (t : Nats) (i p : ℕ) (l : List ℕ)
      → Takes send
      → Ring (t.tab i) (p ∷ l)
      → (t.tab i).nat.status ≢ 0
      → (t.tab i).offs < (pbufs p).tot_len
      → (t' : Nats) × (nat_task_entry pbufs ok send true t i ≡ done t')
        × Served t t' i (after_round pbufs send true (t.tab i).offs (p ∷ l))
  unfolding after_sent
  Served-ready send t i p l takes r active unsent =
      let w = whole p in
      let h : Head pbufs t i p l = record {
        ring = r;
        active = active;
        single = w.0;
        whole = w.1;
        unsent = unsent;
        word = w.2;
      } in
      let offered : ℕ = (pbufs p).tot_len - (t.tab i).offs in
      let call = Head-send pbufs ok send t i p l h in
      elim (takes p (t.tab i).offs offered) [
        | inl e ↦ rw e (t, call ∙ ap (after_sent pbufs ok t i p) e, unchanged send t i (p ∷ l) r)
        | inr (n, e, b) ↦
            let (t', run, ring, offs, calls) = nat_task_entry-Ring pbufs ok send t i p l n h e b in
            let size = (pbufs p).tot_len in
            let at_send = sym (call ∙ ap (after_sent pbufs ok t i p) e) ∙ run in
            rw e (
              t',
              run,
              record {
                own =
                    queued (ltb ((t.tab i).offs + n) size) (t'.tab i) (p ∷ l) l ((t.tab i).offs + n)
                      0 ring offs;
                others = λ j h. after_sent-others pbufs ok t i p n j at_send h;
              },
            )
      ]

  skipped :
      (send : ℕ → ℕ → ℕ → SendResult) (ready : Bool) (t : Nats) (i : ℕ)
      → ((t.tab i).nat.status == 0) ≡ true
      → nat_task_entry pbufs ok send ready t i ≡ done t
  unfolding nat_task_entry
  skipped send ready t i h = rw h refl

  not_ready :
      (send : ℕ → ℕ → ℕ → SendResult) (t : Nats) (i : ℕ)
      → ((t.tab i).nat.status == 0) ≡ false
      → nat_task_entry pbufs ok send false t i ≡ done t
  unfolding nat_task_entry
  not_ready send t i h = rw h refl

  -- An entry whose socket is ready only if it has packets.
  pub served :
      (send : ℕ → ℕ → ℕ → SendResult) (ready : Bool) (t : Nats) (i : ℕ) (l : List ℕ)
      → Takes send
      → Ring (t.tab i) l
      → Unsent pbufs (t.tab i).offs l
      → ((is_active (t.tab i) && ready) ≡ true → l ≢ [])
      → (t' : Nats) × (nat_task_entry pbufs ok send ready t i ≡ done t')
        × Served t t' i (after_round pbufs send (is_active (t.tab i) && ready) (t.tab i).offs l)
  unfolding is_active
  served send ready t i l takes r u full = elim (Bool-cases ((t.tab i).nat.status == 0)) [
    | inl off ↦ rw off (t, skipped send ready t i off, unchanged send t i l r)
    | inr on ↦ rw on (active on ready l r u (λ z. full (rw on z)))
  ]
    where
      active :
          ((t.tab i).nat.status == 0) ≡ false
          → (ready : Bool) (l : List ℕ) → Ring (t.tab i) l
          → Unsent pbufs (t.tab i).offs l
          → (ready ≡ true → l ≢ [])
          → (t' : Nats) × (nat_task_entry pbufs ok send ready t i ≡ done t')
            × Served t t' i (after_round pbufs send ready (t.tab i).offs l)
      active on false l r u full = (t, not_ready send t i on, unchanged send t i l r)
      active on true [] r u full = absurd (full refl refl)
      active on true (p ∷ l) r u full =
          Served-ready send t i p l takes r (λ z. ground (arith, on, z)) u
