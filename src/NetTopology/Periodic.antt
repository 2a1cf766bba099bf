-- ===== src/NetTopology/Periodic.antt =====
-- app/src/main/cpp/lwip/net_topology.c, `topo_periodic`: devices that were silent for two seconds
-- leave, and the list of the controllers is made anew.
use mathlib.Core.Path.{subst}
use adapto_lite.Prelude.{
  ℕ, zero, suc, ◌+◌, ◌^◌, ◌≤◌, ◌<◌, ◌≡◌, ◌≢◌, ◌⊎◌, inl, inr, refl, sym, ap, ◌∙◌, ◌==◌, add32, sub32,
  arith, Bool-cases, lt→ltb,
}
use adapto_lite.Prelude.Bytes.{update}
use adapto_lite.NetTopology.{
  StrDevicesOnline, Topology, expire, expire_cells, drop_last, topo_periodic,
}
use adapto_lite.NetTopology.Table.{IsTable}
use adapto_lite.NetTopology.Controllers.{
  Controllers, controllers-Controllers, entries, collect-controllers,
}

-- The device of a cell was heard `elapsed` ms before `now`, less than 2^31, and its time runs out two
-- seconds after that.
pub record Heard (now elapsed : ℕ) (cell : StrDevicesOnline) : Type 0 where
  pub heard : ℕ
  pub time : cell.time ≡ add32 heard 2000
  pub clock : now ≡ add32 heard elapsed
  pub short : elapsed < 2 ^ 31

-- Silent for more than two seconds, it is not active any more; else it stays what it was.
pub record Expired (elapsed : ℕ) (cell cell' : StrDevicesOnline) : Type 0 where
  pub silent : 2000 < elapsed → cell'.status ≡ 0
  pub active : elapsed ≤ 2000 → cell'.status ≡ cell.status
  pub time : cell'.time ≡ cell.time
  pub mac : cell'.mac ≡ cell.mac
  pub info : cell'.info ≡ cell.info

expire-Expired :
    (now elapsed : ℕ) (cell : StrDevicesOnline)
    → Heard now elapsed cell
    → Expired elapsed cell (expire now cell)
unfolding expire
expire-Expired now elapsed cell h = record {
  silent = λ l. ground (arith, h.time, h.clock, h.short, l);
  active = λ l. ground (arith, h.time, h.clock, h.short, l);
  time = ground arith;
  mac = ground arith;
  info = ground arith;
}

expire-mac : (now : ℕ) (cell : StrDevicesOnline) → (expire now cell).mac ≡ cell.mac
unfolding expire
expire-mac now cell = ground arith

-- The loop treats the cells from `i` to `i + n`, each once.
expire_cells-outside :
    (clock : ℕ → ℕ) (cells : ℕ → StrDevicesOnline) (i n k : ℕ)
    → (k < i) ⊎ (i + n ≤ k)
    → expire_cells clock cells i n k ≡ cells k
unfolding expire_cells
expire_cells-outside clock cells i zero k h = refl
expire_cells-outside clock cells i (suc n) k h =
    ground
      (arith, expire_cells-outside clock (update cells i (expire (clock i) (cells i))) (i + 1) n k)

expire_cells-inside :
    (clock : ℕ → ℕ) (cells : ℕ → StrDevicesOnline) (i n k : ℕ)
    → i ≤ k
    → k < i + n
    → expire_cells clock cells i n k ≡ expire (clock k) (cells k)
unfolding expire_cells
expire_cells-inside clock cells i zero k h l = absurd (omega arith)
expire_cells-inside clock cells i (suc n) k h l =
    let next = update cells i (expire (clock i) (cells i)) in
    elim (Bool-cases (i == k)) [
      | inl e ↦
          let s : i ≡ k = ground (arith, e) in
          expire_cells-outside clock next (i + 1) n k (inl (omega (arith, s)))
          ∙ rw e (ap (λ (x : ℕ). expire (clock x) (cells x)) s)
      | inr e ↦
          let s : i ≢ k = ground (arith, e) in
          expire_cells-inside clock next (i + 1) n k (omega (arith, h, s)) (omega (arith, l))
          ∙ rw e refl
    ]

-- The number of cells afterwards: the last one leaves exactly if it is not active.
pub Shortened : (ℕ → StrDevicesOnline) → ℕ → ℕ → Type 0
Shortened cells zero n' = n' ≡ 0
Shortened cells (suc n) n' = ((cells n).status ≡ 0 → n' ≡ n) × ((cells n).status ≢ 0 → n' ≡ suc n)

drop_last-Shortened : (cells : ℕ → StrDevicesOnline) (n : ℕ) → Shortened cells n (drop_last cells n)
unfolding drop_last Shortened
drop_last-Shortened cells zero = refl
drop_last-Shortened cells (suc n) = (λ e. ground (arith, e), λ e. ground (arith, e))

drop_last_lower : (cells : ℕ → StrDevicesOnline) (n : ℕ) → drop_last cells n ≤ n
unfolding drop_last
drop_last_lower cells zero = omega arith
drop_last_lower cells (suc n) = ground arith

-- The table after the round, where the device of each cell `k` in use was heard `elapsed k` ms before the
-- clock's reading at that cell.
pub record Periodic (t t' : Topology) (elapsed : ℕ → ℕ) (now1 : ℕ) : Type 0 where
  pub expired :
      (k : ℕ) → k < t.net_devices → Expired (elapsed k) (t.devices_online k) (t'.devices_online k)
  pub kept : (k : ℕ) → t.net_devices ≤ k → t'.devices_online k ≡ t.devices_online k
  pub shortened : Shortened t'.devices_online t.net_devices t'.net_devices
  pub paired :
      Controllers t.hwaddr t'.devices_online 0 t'.net_devices
        (entries t'.paired_controllers t'.paired_controllers_cnt)
  pub next_time : t'.nt_tmr ≡ add32 now1 500
  pub own : (t'.hwaddr ≡ t.hwaddr) × (t'.paired_mac_addr ≡ t.paired_mac_addr)

expired_cell :
    (clock : ℕ → ℕ) (t : Topology) (k : ℕ)
    → k < t.net_devices
    → expire_cells clock t.devices_online 0 t.net_devices k ≡ expire (clock k) (t.devices_online k)
expired_cell clock t k l =
    expire_cells-inside clock t.devices_online 0 t.net_devices k (omega arith) (omega (arith, l))

unique_after :
    (clock : ℕ → ℕ) (t : Topology) (n i j : ℕ)
    → IsTable t
    → n ≤ t.net_devices
    → i < n
    → j < n
    → (expire_cells clock t.devices_online 0 t.net_devices i).mac
      ≡ (expire_cells clock t.devices_online 0 t.net_devices j).mac
    → i ≡ j
unique_after clock t n i j table b p q e =
    table.unique i j (omega arith) (omega arith)
      (sym (same i (omega arith)) ∙ e ∙ same j (omega arith))
  where
    same :
        (k : ℕ)
        → k < t.net_devices
        → (expire_cells clock t.devices_online 0 t.net_devices k).mac ≡ (t.devices_online k).mac
    same k l =
        ap (λ c. c.mac) (expired_cell clock t k l) ∙ expire-mac (clock k) (t.devices_online k)

-- In a table of at most 255 cells in which no address has two, when the timer has run out (by less
-- than 2^31 ms) and every device in use was heard less than 2^31 ms ago: exactly the devices that
-- were silent for more than two seconds become inactive, and nothing else of any cell changes; the
-- last cell leaves the table exactly if it is inactive, and no other does; still no address has two
-- cells; the list of paired controllers has the addresses of the active devices of class 1 in the
-- new table that are paired with this display, in the table's order; and the timer runs for 500 ms
-- more.
pub topo_periodic-Periodic :
    (now now1 : ℕ) (clock elapsed : ℕ → ℕ) (t : Topology)
    → IsTable t
    → 0 < sub32 now t.nt_tmr
    → sub32 now t.nt_tmr < 2 ^ 31
    → ((k : ℕ) → k < t.net_devices → Heard (clock k) (elapsed k) (t.devices_online k))
    → IsTable (topo_periodic now now1 clock t)
      × Periodic t (topo_periodic now now1 clock t) elapsed now1
unfolding topo_periodic entries
topo_periodic-Periodic now now1 clock elapsed t table h l heard =
    let cells = expire_cells clock t.devices_online 0 t.net_devices in
    let n = drop_last cells t.net_devices in
    let fewer = drop_last_lower cells t.net_devices in
    rw (lt→ltb _ _ h, lt→ltb _ _ l)
      (
        record {
          bound = omega (arith, table.bound, fewer);
          unique = λ i j. unique_after clock t n i j table fewer;
        },
        record {
          expired = λ k p.
              subst (Expired (elapsed k) (t.devices_online k)) (sym (expired_cell clock t k p))
                (expire-Expired (clock k) (elapsed k) (t.devices_online k) (heard k p));
          kept = λ k x.
              expire_cells-outside clock t.devices_online 0 t.net_devices k
                (inr (omega (arith, x)));
          shortened = drop_last-Shortened cells t.net_devices;
          paired =
              subst (Controllers t.hwaddr cells 0 n)
                (sym (collect-controllers t.hwaddr cells 0 n 0 t.paired_controllers))
                (controllers-Controllers t.hwaddr cells 0 n);
          next_time = refl;
          own = (refl, refl);
        },
      )
