-- ===== src/NetTopology/Table.antt =====
-- app/src/main/cpp/lwip/net_topology.c, `topology_new_dgram`: no device has two cells of the table.
use adapto_lite.Prelude.{
  ℕ, zero, suc, ◌+◌, ◌≤◌, ◌<◌, ◌≡◌, ◌≢◌, ◌⊎◌, inl, inr, refl, sym, ap₂, ◌∙◌, Option, none, some,
  List, [], ◌∷◌, true, false, leb, ◌==◌, add32, u8, arith, Bool-cases, ==_iff, lt→ltb,
}
use adapto_lite.Prelude.Bytes.{update}
use mathlib.Core.Path.{subst}
use native.Mathlib.Decide.{ℕ_discrete}
use adapto_lite.NetTopology.{
  StrNetTopData, StrDevicesOnline, Topology, found, free_cell, mac_eq, fill_cell, search_cell,
  first_free, take_cell, store_device, topology_new_dgram, sizeof_data,
}

pub mac_eq-eq : (xs ys : List ℕ) → mac_eq xs ys ≡ true → xs ≡ ys
unfolding mac_eq
mac_eq-eq [] [] h = refl
mac_eq-eq [] (y ∷ ys) h = cc
mac_eq-eq (x ∷ xs) [] h = cc
mac_eq-eq (x ∷ xs) (y ∷ ys) h = elim (Bool-cases (x == y)) [
  | inl e ↦ ap₂ ◌∷◌ ((==_iff x y).0 e) (mac_eq-eq xs ys (rw e at h))
  | inr e ↦ cc (e, h)
]

pub mac_eq_self : (xs : List ℕ) → mac_eq xs xs ≡ true
unfolding mac_eq
mac_eq_self [] = refl
mac_eq_self (x ∷ xs) = ground (arith, mac_eq_self xs)

-- At most 255 cells are in use, and no two of them have the same address.
pub record IsTable (t : Topology) : Type 0 where
  pub bound : t.net_devices ≤ 255
  pub unique :
      (i j : ℕ)
      → i < t.net_devices
      → j < t.net_devices
      → (t.devices_online i).mac ≡ (t.devices_online j).mac
      → i ≡ j

-- The cell that a search offers, if it finds no cell of the device, is a free one.
abbrev Offers : (ℕ → StrDevicesOnline) → ℕ → ℕ → Option ℕ → Option ℕ → Type 0
Offers cells i n free none = Unit
Offers cells i n free (some k) = (free ≡ some k) ⊎ ((i ≤ k) × (k < i + n) × ((cells k).status ≡ 0))

abbrev Absent : List ℕ → (ℕ → StrDevicesOnline) → ℕ → ℕ → Type 0
Absent mac cells i n = (k : ℕ) → i ≤ k → k < i + n → mac_eq mac (cells k).mac ≡ false

Offers-same :
    (cells : ℕ → StrDevicesOnline) (i n : ℕ) (free : Option ℕ) → Offers cells i n free free
Offers-same cells i n none = tt
Offers-same cells i n (some k) = inl refl

Offers-later :
    (cells : ℕ → StrDevicesOnline) (i n k : ℕ) (free : Option ℕ)
    → (i + 1 ≤ k) × (k < i + 1 + n) × ((cells k).status ≡ 0)
    → Offers cells i (suc n) free (some k)
Offers-later cells i n k free (p, q, s) = inr (omega (arith, p), omega (arith, q), s)

Offers-first :
    (cells : ℕ → StrDevicesOnline) (i n : ℕ) (free f : Option ℕ)
    → Offers cells (i + 1) n (first_free free (cells i) i) f
    → Offers cells i (suc n) free f
unfolding first_free
Offers-first cells i n free none o = tt
Offers-first cells i n (some j) (some k) (inl e) = inl e
Offers-first cells i n (some j) (some k) (inr h) = Offers-later cells i n k (some j) h
Offers-first cells i n none (some k) (inr h) = Offers-later cells i n k none h
Offers-first cells i n none (some k) (inl e) = elim (Bool-cases ((cells i).status == 0)) [
  | inl z ↦ inr (ground (arith, e, z), ground (arith, e, z), ground (arith, e, z))
  | inr z ↦ absurd (ground (arith, e, z))
]

eq_or_lt : (i k : ℕ) → i ≤ k → (i ≡ k) ⊎ (i < k)
eq_or_lt i k p = ground arith

Absent-first :
    (mac : List ℕ) (cells : ℕ → StrDevicesOnline) (i n : ℕ)
    → mac_eq mac (cells i).mac ≡ false
    → Absent mac cells (i + 1) n
    → Absent mac cells i (suc n)
Absent-first mac cells i n e a k p q = elim (eq_or_lt i k p) [
  | inl s ↦ subst (λ x. mac_eq mac (cells x).mac ≡ false) s e
  | inr l ↦ a k (omega (arith, l)) (omega (arith, q))
]

search_cases :
    (mac : List ℕ) (cells : ℕ → StrDevicesOnline) (i n : ℕ) (free : Option ℕ)
    → ((j : ℕ) × (search_cell mac cells i n free ≡ found j)
        × (i ≤ j)
        × (j < i + n)
        × ((cells j).mac ≡ mac))
      ⊎ ((f : Option ℕ) × (search_cell mac cells i n free ≡ free_cell f)
          × Absent mac cells i n
          × Offers cells i n free f)
unfolding search_cell
search_cases mac cells i zero free =
    inr (free, refl, (λ k p q. absurd (omega arith)), Offers-same cells i 0 free)
search_cases mac cells i (suc n) free = elim (Bool-cases (mac_eq mac (cells i).mac)) [
  | inl e ↦ inl (i, rw e refl, omega arith, omega arith, sym (mac_eq-eq mac _ e))
  | inr e ↦ elim (search_cases mac cells (i + 1) n (first_free free (cells i) i)) [
    | inl (j, s, p, q, m) ↦ inl (j, rw e s, omega (arith, p), omega (arith, q), m)
    | inr (f, s, a, o) ↦
        inr (f, rw e s, Absent-first mac cells i n e a, Offers-first cells i n free f o)
  ]
]

-- `buf` of the device `mac` stands in the cell `i`, seen at `now`.
pub record Online (t : Topology) (i now : ℕ) (buf : StrNetTopData) (mac : List ℕ) : Type 0 where
  pub used : i < t.net_devices
  pub address : (t.devices_online i).mac ≡ mac
  pub active : (t.devices_online i).status ≡ 1
  pub until : (t.devices_online i).time ≡ add32 now 2000
  pub stored : (t.devices_online i).info ≡ buf

-- A step from `t` to `t'` keeps the table and every cell but `i`.
abbrev pub Keeps : Topology → Topology → ℕ → Type 0
Keeps t t' i =
    IsTable t'
    × (t.net_devices ≤ t'.net_devices)
    × ((j : ℕ) → i ≢ j → t'.devices_online j ≡ t.devices_online j)

write_cell : Topology → ℕ → StrDevicesOnline → ℕ → Topology
write_cell t i v n = record t { devices_online = update t.devices_online i v; net_devices = n }

write_cell-IsTable :
    (t : Topology) (i n : ℕ) (v : StrDevicesOnline)
    → IsTable t
    → n ≤ 255
    → ((k : ℕ) → k < n → k ≢ i → k < t.net_devices)
    → ((k : ℕ) → k < t.net_devices → k ≢ i → (t.devices_online k).mac ≢ v.mac)
    → IsTable (write_cell t i v n)
unfolding write_cell
write_cell-IsTable t i n v table bound old new = record {
  bound = bound;
  unique = λ a b p q e. elim (ℕ_discrete a i) [
    | yes x ↦ elim (ℕ_discrete b i) [
      | yes y ↦ x ∙ sym y
      | no y ↦ absurd (new b (old b q y) y (sym (at_other b y) ∙ sym e ∙ at_i a x))
    ]
    | no x ↦ elim (ℕ_discrete b i) [
      | yes y ↦ absurd (new a (old a p x) x (sym (at_other a x) ∙ e ∙ at_i b y))
      | no y ↦ table.unique a b (old a p x) (old b q y) (sym (at_other a x) ∙ e ∙ at_other b y)
    ]
  ];
}
  where
    at_i : (a : ℕ) → a ≡ i → (update t.devices_online i v a).mac ≡ v.mac
    at_i a x = ground (arith, x)

    at_other : (a : ℕ) → a ≢ i → (update t.devices_online i v a).mac ≡ (t.devices_online a).mac
    at_other a x = ground (arith, x)

-- The cell of the device in the new table.
abbrev seen : ℕ → StrNetTopData → List ℕ → StrDevicesOnline
seen now buf mac = record { time = add32 now 2000; status = 1; mac = mac; info = buf }

write_cell-Online :
    (t : Topology) (i n now : ℕ) (buf : StrNetTopData) (mac : List ℕ)
    → i < n
    → Online (write_cell t i (seen now buf mac) n) i now buf mac
unfolding write_cell
write_cell-Online t i n now buf mac l = record {
  used = l;
  address = ground arith;
  active = ground arith;
  until = ground arith;
  stored = ground arith;
}

-- A step that writes the cell `i` for the device.
Stores : Topology → Topology → ℕ → StrNetTopData → List ℕ → Type 0
Stores t t' now buf mac = (i : ℕ) × Online t' i now buf mac × Keeps t t' i

write_cell-Stores :
    (t : Topology) (i n now : ℕ) (buf : StrNetTopData) (mac : List ℕ)
    → IsTable t
    → i < n
    → n ≤ 255
    → t.net_devices ≤ n
    → ((k : ℕ) → k < n → k ≢ i → k < t.net_devices)
    → ((k : ℕ) → k < t.net_devices → k ≢ i → (t.devices_online k).mac ≢ mac)
    → Stores t (write_cell t i (seen now buf mac) n) now buf mac
unfolding Stores write_cell
write_cell-Stores t i n now buf mac table l bound grows old new = (
  i,
  write_cell-Online t i n now buf mac l,
  (
    write_cell-IsTable t i n (seen now buf mac) table bound old new,
    grows,
    λ j ne. ground (arith, ne),
  ),
)

other_mac : (xs ys : List ℕ) → mac_eq xs ys ≡ false → ys ≢ xs
other_mac xs ys h e = let x = rw e at h in cc (mac_eq_self xs, x)

not_after : (i n : ℕ) → i < n → leb n i ≡ false
not_after i n h = ground arith

store_device-Stores :
    (now : ℕ) (t : Topology) (buf : StrNetTopData) (mac : List ℕ)
    → IsTable t
    → t.net_devices < 255
    → Stores t
        (store_device now t buf mac (search_cell mac t.devices_online 0 t.net_devices none))
        now
        buf
        mac
unfolding store_device fill_cell take_cell write_cell
store_device-Stores now t buf mac table room =
    elim (search_cases mac t.devices_online 0 t.net_devices none) [
      | inl (i, s, p, q, m) ↦
          let l0 : i < t.net_devices = omega (arith, q) in
          rw (s, m)
            (write_cell-Stores t i t.net_devices now buf mac table l0 table.bound (omega arith)
              (λ k l ne. l) (λ k l ne e. ne (table.unique k i l l0 (e ∙ sym m))))
      | inr (none, s, a, o) ↦
          let last : u8 (t.net_devices + 1) ≡ t.net_devices + 1 = omega (arith, room) in
          rw
            (
              s,
              lt→ltb t.net_devices 255 room,
              last,
              not_after t.net_devices (t.net_devices + 1) (omega arith),
            )
            (write_cell-Stores t t.net_devices (t.net_devices + 1) now buf mac table (omega arith)
              (omega (arith, room)) (omega arith) (λ k l ne. omega (arith, l, ne))
              (λ k l ne. other_mac mac _ (a k (omega arith) (omega (arith, l)))))
      | inr (some i, s, a, o) ↦
          let l : i < t.net_devices = offered i o in
          rw (s, not_after i t.net_devices l)
            (write_cell-Stores t i t.net_devices now buf mac table l table.bound (omega arith)
              (λ k x ne. x) (λ k x ne. other_mac mac _ (a k (omega arith) (omega (arith, x)))))
    ]
  where
    offered : (i : ℕ) → Offers t.devices_online 0 t.net_devices none (some i) → i < t.net_devices
    offered i (inl e) = absurd (ground (arith, e))
    offered i (inr h) = omega (arith, h)

-- A datagram of the right length from another device, where the table is not full: afterwards one cell in use
-- holds the device with its address, active for two seconds from now, and its data; still no two
-- cells have the same address, no cell in use is lost, and the other cells are as before.
pub topology_new_dgram-Online :
    (now : ℕ) (t : Topology) (buf : StrNetTopData) (mac : List ℕ)
    → IsTable t
    → t.net_devices < 255
    → mac ≢ t.hwaddr
    → (i : ℕ) × Online (topology_new_dgram now t buf mac (sizeof_data + 16)) i now buf mac
      × Keeps t (topology_new_dgram now t buf mac (sizeof_data + 16)) i
unfolding topology_new_dgram Stores
topology_new_dgram-Online now t buf mac table room other = elim (Bool-cases (mac_eq mac t.hwaddr)) [
  | inl e ↦ absurd (other (mac_eq-eq mac t.hwaddr e))
  | inr e ↦ rw e (store_device-Stores now t buf mac table room)
]
