-- ===== src/NatSockets/Select.antt =====
-- app/src/main/cpp/eth_nat.c: the sets for `select`, and loops over the table.
use adapto_lite.Prelude.{
  ℕ, zero, suc, ◌+◌, ◌≤◌, ◌<◌, ◌≡◌, ◌≢◌, ◌⊎◌, inl, inr, refl, sym, ◌∙◌, Bool, true, ◌&&◌, ◌==◌,
  arith, Bool-cases, ==_iff,
}
use mathlib.Core.Path.{subst}
use adapto_lite.EthMem.State.{Run, done}
use adapto_lite.NatSockets.{NatEntry, Nats}
use adapto_lite.NatSockets.Rounds.{fd_set, each_entry}

-- The sockets in the set are those of entries in the table.
pub fd_set-member :
    (wants : NatEntry → Bool) (tab : ℕ → NatEntry) (n i fd : ℕ)
    → fd_set wants tab i n fd ≡ true
    → (j : ℕ) × (i ≤ j) × (j < i + n) × (wants (tab j) ≡ true) × ((tab j).socket ≡ fd)
unfolding fd_set
fd_set-member wants tab zero i fd h = cc
fd_set-member wants tab (suc n) i fd h = elim (Bool-cases (wants (tab i) && (tab i).socket == fd)) [
  | inl e ↦ (i, omega arith, omega arith, ground (arith, e), ground (arith, e))
  | inr e ↦
      let (j, a, b, w, s) = fd_set-member wants tab n (i + 1) fd (rw e at h) in
      (j, omega (arith, a), omega (arith, b), w, s)
]

-- A loop over the table does to each entry what one round of it does.
pub each_entry-all :
    (P : ℕ → NatEntry → Type 0) (f : Nats → ℕ → Run Nats) (n i : ℕ) (s : Nats)
    → ((j : ℕ)
        → i ≤ j
        → j < i + n
        → (t : Nats) → t.tab j ≡ s.tab j
        → (t' : Nats) × (f t j ≡ done t') × P j (t'.tab j) × ((k : ℕ) → j ≢ k → t'.tab k ≡ t.tab k))
    → (s' : Nats) × (each_entry n i f s ≡ done s')
      × ((j : ℕ) → i ≤ j → j < i + n → P j (s'.tab j))
      × ((k : ℕ) → (k < i) ⊎ (i + n ≤ k) → s'.tab k ≡ s.tab k)
unfolding each_entry
each_entry-all P f zero i s h = (s, refl, λ j a b. absurd (omega (arith, a, b)), λ k o. refl)
each_entry-all P f (suc n) i s h =
    let (t, run, own, others) = h i (omega arith) (omega arith) s refl in
    let (s', rest, all, same) = each_entry-all P f n (i + 1) t (λ j a b u e.
      h j (omega (arith, a)) (omega (arith, b)) u (e ∙ others j (λ z. omega (arith, a, z)))) in
    (
      s',
      rw run rest,
      λ j a b. elim (Bool-cases (i == j)) [
        | inl e ↦
            subst (λ x. P x (s'.tab x)) ((==_iff i j).0 e)
              (subst (P i) (sym (same i (inl (omega arith)))) own)
        | inr e ↦ all j (ground (arith, a, e)) (omega (arith, b))
      ],
      λ k o. elim o [
        | inl x ↦ same k (inl (omega (arith, x))) ∙ others k (λ z. omega (arith, x, z))
        | inr x ↦ same k (inr (omega (arith, x))) ∙ others k (λ z. omega (arith, x, z))
      ],
    )
