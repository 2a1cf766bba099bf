-- ===== src/EthNat/Evict.antt =====
-- app/src/main/cpp/eth_nat.c: which entry a new connection takes in `forward_nat`.
use adapto_lite.Prelude.{
  ℕ, suc, ◌+◌, ◌≤◌, ◌<◌, ◌≡◌, ◌≢◌, ◌⊎◌, refl, sym, ap, ◌∙◌, List, [], ◌∷◌, true, false, ◌==◌,
  get_or, length, All, All-map, Bool-cases, inl, inr, arith, sub32, not, ltb_cases,
}
use mathlib.Core.Bool.{true≢false}
use adapto_lite.EthNat.{
  EthPktHdr, NatTab, Gnetif, zero_entry, is_forwarded, is_connection, older, oldest, choose_entry,
  forward_nat,
}
use adapto_lite.EthNat.Table.{find_index-cases, get_or-set_at, get_or-set_at_other, All-get_or}
use adapto_lite.EthNat.Translate.{Holds, forward_nat-table, choose_entry-Holds}

abbrev pub age : ℕ → NatTab → ℕ
age now e = sub32 now e.time

-- What a round of the search does.
older_cases :
    (now : ℕ) (e : NatTab) (i max old : ℕ)
    → ((older now e i (max, old) ≡ (max, old)) × (e.status ≡ 0 → age now e ≤ max))
      ⊎ ((older now e i (max, old) ≡ (age now e, i)) × (e.status ≡ 0) × (max < age now e))
unfolding older
older_cases now e i max old = elim (Bool-cases (not (e.status == 0))) [
  | inl y ↦ inl (rw y refl, λ z. absurd (ground (arith, y, z)))
  | inr n ↦ elim (ltb_cases max (age now e)) [
    | inl (l, y) ↦ inr (rw (n, y) refl, ground (arith, n), l)
    | inr (l, y) ↦ inl (rw (n, y) refl, λ z. l)
  ]
]

-- The greatest age of the entries without an open connection, and where it stands.
record Found (now i max old : ℕ) (es : List NatTab) (m r : ℕ) : Type 0 where
  above : max ≤ m
  greatest : All (λ e. NatTab.status e ≡ 0 → age now e ≤ m) es
  place :
      ((m ≡ max) × (r ≡ old))
      ⊎ ((k : ℕ) × (r ≡ i + k)
          × (k < length es)
          × ((get_or es k zero_entry).status ≡ 0)
          × (age now (get_or es k zero_entry) ≡ m))

oldest-Found :
    (now : ℕ) (es : List NatTab) (i max old : ℕ)
    → Found now i max old es (oldest now es i (max, old)).0 (oldest now es i (max, old)).1
unfolding oldest
oldest-Found now [] i max old = record {
  above = omega arith;
  greatest = tt;
  place = inl (refl, refl);
}
oldest-Found now (e ∷ es) i max old = elim (older_cases now e i max old) [
  | inl (eq, less) ↦
      let f = oldest-Found now es (suc i) max old in
      rw (eq, oldest)
        (record {
          above = f.above;
          greatest = (λ z. omega (arith, less z, f.above), f.greatest);
          place = elim f.place [
            | inl p ↦ inl p
            | inr (k, at, l, st, ag) ↦ inr (suc k, omega (arith, at), omega (arith, l), st, ag)
          ];
        })
  | inr (eq, st, more) ↦
      let f = oldest-Found now es (suc i) (age now e) i in
      rw (eq, oldest)
        (record {
          above = omega (arith, more, f.above);
          greatest = (λ z. f.above, f.greatest);
          place = elim f.place [
            | inl (m, r) ↦ inr (0, omega (arith, r), omega arith, st, sym m)
            | inr (k, at, l, st1, ag) ↦ inr (suc k, omega (arith, at), omega (arith, l), st1, ag)
          ];
        })
]

-- Without an entry for its connection a packet takes the place of the oldest entry.
choose_entry-new :
    (now : ℕ) (pkt : EthPktHdr) (tab : List NatTab)
    → All (λ e. is_connection pkt e ≡ false) tab
    → (choose_entry now pkt tab).0 ≡ (oldest now tab 0 (0, 0)).1
unfolding choose_entry
choose_entry-new now pkt tab fresh = elim (find_index-cases (is_connection pkt) tab zero_entry) [
  | inl (e, a) ↦ rw (e, choose_entry) refl
  | inr (k, e, l, t) ↦
      absurd (
        true≢false (sym t ∙ All-get_or (λ x. is_connection pkt x ≡ false) tab k zero_entry l fresh))
]

chosen_entry :
    (g : Gnetif) (now : ℕ) (tab : List NatTab) (pkt : EthPktHdr)
    → is_forwarded g pkt ≡ true
    → 0 < length tab
    → get_or (forward_nat g now tab pkt).1 (choose_entry now pkt tab).0 zero_entry
      ≡ record (choose_entry now pkt tab).1 { time = now }
chosen_entry g now tab pkt f h =
    let (i, e) = choose_entry now pkt tab in
    ap (λ t. get_or t i zero_entry) (forward_nat-table g now tab pkt f)
    ∙ get_or-set_at tab i (record e { time = now }) zero_entry (choose_entry-Holds now pkt tab h).0

chosen-Holds :
    (g : Gnetif) (now : ℕ) (tab : List NatTab) (pkt : EthPktHdr) (i : ℕ)
    → is_forwarded g pkt ≡ true
    → 0 < length tab
    → (choose_entry now pkt tab).0 ≡ i
    → Holds pkt (get_or (forward_nat g now tab pkt).1 i zero_entry)
chosen-Holds g now tab pkt i f h eq =
    let c = (choose_entry-Holds now pkt tab h).1 in
    let same = ap (λ k. get_or (forward_nat g now tab pkt).1 k zero_entry) (sym eq) in
    rw (same ∙ chosen_entry g now tab pkt f h) (record {
      src_ip = c.src_ip;
      dst_ip = c.dst_ip;
      src_port = c.src_port;
      dst_port = c.dst_port;
      proto = c.proto;
    })

-- A packet of a new connection, where some entry without an open connection has an age other than
-- zero: the packet's connection replaces an entry that has no open connection and is the oldest of those,
-- and the other entries stay.
pub forward_nat-oldest :
    (g : Gnetif) (now : ℕ) (tab : List NatTab) (pkt : EthPktHdr) (j : ℕ)
    → is_forwarded g pkt ≡ true
    → All (λ e. is_connection pkt e ≡ false) tab
    → j < length tab
    → (get_or tab j zero_entry).status ≡ 0
    → 0 < age now (get_or tab j zero_entry)
    → (i : ℕ) × (i < length tab)
      × ((get_or tab i zero_entry).status ≡ 0)
      × All (λ e. NatTab.status e ≡ 0 → age now e ≤ age now (get_or tab i zero_entry)) tab
      × Holds pkt (get_or (forward_nat g now tab pkt).1 i zero_entry)
      × ((k : ℕ)
          → i ≢ k
          → get_or (forward_nat g now tab pkt).1 k zero_entry ≡ get_or tab k zero_entry)
forward_nat-oldest g now tab pkt j f fresh l idle old =
    let i = (choose_entry now pkt tab).0 in
    let v : NatTab = record ((choose_entry now pkt tab).1) { time = now } in
    let table = forward_nat-table g now tab pkt f in
    let found = oldest-Found now tab 0 0 0 in
    let m = (oldest now tab 0 (0, 0)).0 in
    let least =
      All-get_or (λ e. NatTab.status e ≡ 0 → age now e ≤ m) tab j zero_entry l found.greatest
        idle in
    elim found.place [
      | inl (z, r) ↦ absurd (omega (arith, z, least, old))
      | inr (k, at, lk, st, ag) ↦
          let same : i ≡ k = choose_entry-new now pkt tab fresh ∙ at ∙ omega arith in
          (
            k,
            lk,
            st,
            All-map (λ e h z. omega (arith, h z, ag)) tab found.greatest,
            chosen-Holds g now tab pkt k f (omega (arith, l)) same,
            λ x ne.
                ap (λ t. get_or t x zero_entry) table
                ∙ get_or-set_at_other tab i x v zero_entry (λ e. ne (sym same ∙ e)),
          )
    ]

-- The entry keeps its status, whichever it is.
choose_entry-status :
    (now : ℕ) (pkt : EthPktHdr) (tab : List NatTab)
    → (choose_entry now pkt tab).1.status
      ≡ (get_or tab (choose_entry now pkt tab).0 zero_entry).status
unfolding choose_entry
choose_entry-status now pkt tab = elim (find_index-cases (is_connection pkt) tab zero_entry) [
  | inl (e, a) ↦ rw (e, choose_entry) refl
  | inr (k, e, l, t) ↦ rw (e, choose_entry) refl
]

-- If every entry has an open connection, a packet of a new connection replaces the first entry all the
-- same: the entry stays marked as open, and holds the packet's connection.
pub forward_nat-busy :
    (g : Gnetif) (now : ℕ) (tab : List NatTab) (pkt : EthPktHdr)
    → is_forwarded g pkt ≡ true
    → All (λ e. is_connection pkt e ≡ false) tab
    → 0 < length tab
    → All (λ e. NatTab.status e ≢ 0) tab
    → Holds pkt (get_or (forward_nat g now tab pkt).1 0 zero_entry)
      × ((get_or (forward_nat g now tab pkt).1 0 zero_entry).status
          ≡ (get_or tab 0 zero_entry).status)
forward_nat-busy g now tab pkt f fresh l busy =
    let found = oldest-Found now tab 0 0 0 in
    elim found.place [
      | inl (z, r) ↦
          let first : (choose_entry now pkt tab).0 ≡ 0 = choose_entry-new now pkt tab fresh ∙ r in
          (
            chosen-Holds g now tab pkt 0 f l first,
            ap (λ k. (get_or (forward_nat g now tab pkt).1 k zero_entry).status) (sym first)
                ∙ ap (λ (e : NatTab). e.status) (chosen_entry g now tab pkt f l)
                ∙ choose_entry-status now pkt tab
                ∙ ap (λ k. (get_or tab k zero_entry).status) first,
          )
      | inr (k, at, lk, st, ag) ↦
          absurd (All-get_or (λ e. NatTab.status e ≢ 0) tab k zero_entry lk busy st)
    ]
