-- ===== src/NetTopology/Controllers.antt =====
-- app/src/main/cpp/lwip/net_topology.c, the second loop of `topo_periodic`: the list of the controllers.
use adapto_lite.Prelude.{
  ℕ, zero, suc, ◌+◌, ◌≤◌, ◌≡◌, ◌≢◌, inl, inr, refl, sym, ap, ◌∙◌, List, [], ◌∷◌, ◌++◌, Bool, true,
  false, ◌==◌, if◌then◌else◌, arith, Bool-cases, append-nil, append_assoc,
}
use adapto_lite.Prelude.Bytes.{update}
use adapto_lite.NetTopology.{StrDevicesOnline, mac_eq, is_paired, collect}
use adapto_lite.NetTopology.Table.{mac_eq-eq, mac_eq_self}

-- The device is active, its controller is paired with the display of the address `hwaddr`, and it
-- is of the class of controllers.
pub record IsController (hwaddr : List ℕ) (cell : StrDevicesOnline) : Type 0 where
  pub active : cell.status ≢ 0
  pub paired : cell.info.paired_mac ≡ hwaddr
  pub dev_class : cell.info.dev_class ≡ 1

-- The list has the addresses of the controllers in the cells from `i` to `i + n`, each once, in order.
pub data Controllers (hwaddr : List ℕ) (cells : ℕ → StrDevicesOnline)
    : ℕ → ℕ → List (List ℕ) → Type 0 where
  none_left : {i : ℕ} → Controllers hwaddr cells i 0 []
  listed :
      {i n : ℕ} {l : List (List ℕ)}
      → IsController hwaddr (cells i)
      → Controllers hwaddr cells (i + 1) n l
      → Controllers hwaddr cells i (suc n) ((cells i).mac ∷ l)
  skipped :
      {i n : ℕ} {l : List (List ℕ)}
      → ¬ IsController hwaddr (cells i)
      → Controllers hwaddr cells (i + 1) n l
      → Controllers hwaddr cells i (suc n) l

-- That list, by the code's test.
pub controllers : List ℕ → (ℕ → StrDevicesOnline) → ℕ → ℕ → List (List ℕ)
controllers hwaddr cells i zero = []
controllers hwaddr cells i (suc n) =
    let rest = controllers hwaddr cells (i + 1) n in
    if is_paired hwaddr (cells i) then (cells i).mac ∷ rest else rest

is_paired-IsController :
    (hwaddr : List ℕ) (cell : StrDevicesOnline)
    → is_paired hwaddr cell ≡ true
    → IsController hwaddr cell
unfolding is_paired
is_paired-IsController hwaddr cell e = record {
  active = ground (arith, e);
  paired = mac_eq-eq cell.info.paired_mac hwaddr (ground (arith, e));
  dev_class = ground (arith, e);
}

IsController-is_paired :
    (hwaddr : List ℕ) (cell : StrDevicesOnline)
    → IsController hwaddr cell
    → is_paired hwaddr cell ≡ true
unfolding is_paired
IsController-is_paired hwaddr cell c =
    let same : mac_eq cell.info.paired_mac hwaddr ≡ true =
      ap (λ x. mac_eq x hwaddr) c.paired ∙ mac_eq_self hwaddr in
    ground (arith, same, c.active, c.dev_class)

pub controllers-Controllers :
    (hwaddr : List ℕ) (cells : ℕ → StrDevicesOnline) (i n : ℕ)
    → Controllers hwaddr cells i n (controllers hwaddr cells i n)
unfolding controllers
controllers-Controllers hwaddr cells i zero = none_left
controllers-Controllers hwaddr cells i (suc n) =
    let rest = controllers-Controllers hwaddr cells (i + 1) n in
    elim (Bool-cases (is_paired hwaddr (cells i))) [
      | inl e ↦ rw e (listed (is_paired-IsController hwaddr (cells i) e) rest)
      | inr e ↦ rw e (skipped (λ c. let t = IsController-is_paired hwaddr (cells i) c in cc) rest)
    ]

-- The first `n` entries of an array.
unfoldable pub entries {ℓ} : {A : Type ℓ} → (ℕ → A) → ℕ → List A
entries f zero = []
entries f (suc n) = entries f n ++ f n ∷ []

entries_below {ℓ} :
    {A : Type ℓ} (f : ℕ → A) (k : ℕ) (v : A) (n : ℕ)
    → n ≤ k
    → entries (update f k v) n ≡ entries f n
unfolding entries
entries_below f k v zero h = refl
entries_below f k v (suc n) h =
    let other : (k == n) ≡ false = ground arith in
    rw (entries_below f k v n (omega (arith, h)), other) refl

one_more {ℓ} :
    {A : Type ℓ} (dr : ℕ) (f : ℕ → A) (v : A) (vs : List A)
    → entries (update f dr v) (suc dr) ++ vs ≡ entries f dr ++ v ∷ vs
unfolding entries
one_more dr f v vs =
    let self : (dr == dr) ≡ true = ground arith in
    rw (entries_below f dr v dr (omega arith), self) (append_assoc (entries f dr) (v ∷ []) vs)

-- One round of the loop, by the outcome of its test.
collect_step :
    (hwaddr : List ℕ) (cells : ℕ → StrDevicesOnline) (i n dr : ℕ) (macs : ℕ → List ℕ) (b : Bool)
    → is_paired hwaddr (cells i) ≡ b
    → collect hwaddr cells i (suc n) dr macs
      ≡ collect hwaddr cells
          (i + 1)
          n
          (if b then dr + 1 else dr)
          (if b then update macs dr (cells i).mac else macs)
unfolding collect
collect_step hwaddr cells i n dr macs b e =
    ap
      (λ c.
        collect hwaddr cells (i + 1) n (if c then dr + 1 else dr)
          (if c then update macs dr (cells i).mac else macs))
      e

collect_none :
    (hwaddr : List ℕ) (cells : ℕ → StrDevicesOnline) (i dr : ℕ) (macs : ℕ → List ℕ)
    → entries (collect hwaddr cells i 0 dr macs).1 (collect hwaddr cells i 0 dr macs).0
      ≡ entries macs dr ++ controllers hwaddr cells i 0
unfolding collect controllers
collect_none hwaddr cells i dr macs = sym (append-nil _)

pub collect-controllers :
    (hwaddr : List ℕ) (cells : ℕ → StrDevicesOnline) (i n dr : ℕ) (macs : ℕ → List ℕ)
    → entries (collect hwaddr cells i n dr macs).1 (collect hwaddr cells i n dr macs).0
      ≡ entries macs dr ++ controllers hwaddr cells i n
unfolding controllers entries
collect-controllers hwaddr cells i zero dr macs = collect_none hwaddr cells i dr macs
collect-controllers hwaddr cells i (suc n) dr macs =
    elim (Bool-cases (is_paired hwaddr (cells i))) [
      | inl e ↦
          rw (collect_step hwaddr cells i n dr macs true e, controllers, e)
            (collect-controllers hwaddr cells (i + 1) n (dr + 1) (update macs dr (cells i).mac)
              ∙ ap
                  (λ k.
                    entries (update macs dr (cells i).mac) k ++ controllers hwaddr cells (i + 1) n)
                  (suc_add dr)
              ∙ one_more dr macs (cells i).mac (controllers hwaddr cells (i + 1) n))
      | inr e ↦
          rw (collect_step hwaddr cells i n dr macs false e, controllers, e)
            (collect-controllers hwaddr cells (i + 1) n dr macs)
    ]
  where
    suc_add : (d : ℕ) → d + 1 ≡ suc d
    suc_add d = omega arith
