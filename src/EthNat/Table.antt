-- ===== src/EthNat/Table.antt =====
-- The lists behind app/src/main/cpp/eth_nat.c: searching a table and replacing an entry.
use adapto_lite.Prelude.{
  ℕ, zero, suc, ◌<◌, ◌≡◌, ◌≢◌, ◌⊎◌, refl, ap, none, some, List, [], ◌∷◌, Bool, true, false, get_or,
  length, All, Bool-cases, inl, inr, arith,
}
use adapto_lite.EthNat.{find_index, set_at}

module _ {ℓ} {A : Type ℓ} where
  -- What a search returns is in the table and passes the test; if it returns nothing, no entry
  -- passes it.
  pub find_index-cases :
      (f : A → Bool) (xs : List A) (d : A)
      → ((find_index f xs ≡ none) × All (λ x. f x ≡ false) xs)
        ⊎ ((k : ℕ) × (find_index f xs ≡ some k) × (k < length xs) × (f (get_or xs k d) ≡ true))
  unfolding find_index
  find_index-cases f [] d = inl (refl, tt)
  find_index-cases f (x ∷ xs) d = elim (Bool-cases (f x)) [
    | inl y ↦ inr (0, rw y refl, omega arith, y)
    | inr n ↦ elim (find_index-cases f xs d) [
      | inl (e, a) ↦ inl (rw (n, e) refl, (n, a))
      | inr (k, e, l, t) ↦ inr (suc k, rw (n, e) refl, omega (arith, l), t)
    ]
  ]

  -- If an entry passes the test, the search returns one.
  pub find_index-finds :
      (f : A → Bool) (xs : List A) (i : ℕ) (d : A)
      → i < length xs
      → f (get_or xs i d) ≡ true
      → (k : ℕ) × (find_index f xs ≡ some k)
  unfolding find_index
  find_index-finds f [] i d h t = absurd (omega arith)
  find_index-finds f (x ∷ xs) zero d h t = (0, rw t refl)
  find_index-finds f (x ∷ xs) (suc i) d h t =
      let (k, e) = find_index-finds f xs i d (omega arith) t in
      elim (Bool-cases (f x)) [ inl y ↦ (0, rw y refl) | inr n ↦ (suc k, rw (n, e) refl) ]

  pub length-set_at : (xs : List A) (i : ℕ) (v : A) → length (set_at xs i v) ≡ length xs
  unfolding set_at
  length-set_at [] i v = refl
  length-set_at (x ∷ xs) zero v = refl
  length-set_at (x ∷ xs) (suc i) v = ap suc (length-set_at xs i v)

  pub get_or-set_at :
      (xs : List A) (i : ℕ) (v d : A) → i < length xs → get_or (set_at xs i v) i d ≡ v
  unfolding set_at
  get_or-set_at [] i v d h = absurd (omega arith)
  get_or-set_at (x ∷ xs) zero v d h = refl
  get_or-set_at (x ∷ xs) (suc i) v d h = get_or-set_at xs i v d (omega arith)

  pub get_or-set_at_other :
      (xs : List A) (i j : ℕ) (v d : A) → i ≢ j → get_or (set_at xs i v) j d ≡ get_or xs j d
  unfolding set_at
  get_or-set_at_other [] i j v d h = refl
  get_or-set_at_other (x ∷ xs) zero zero v d h = absurd (h refl)
  get_or-set_at_other (x ∷ xs) zero (suc j) v d h = refl
  get_or-set_at_other (x ∷ xs) (suc i) zero v d h = refl
  get_or-set_at_other (x ∷ xs) (suc i) (suc j) v d h =
      get_or-set_at_other xs i j v d (λ e. h (ap suc e))

  pub All-set_at {κ} :
      (P : A → Type κ) (xs : List A) (i : ℕ) (v : A) → P v → All P xs → All P (set_at xs i v)
  unfolding set_at
  All-set_at P [] i v p h = tt
  All-set_at P (x ∷ xs) zero v p h = (p, h.1)
  All-set_at P (x ∷ xs) (suc i) v p h = (h.0, All-set_at P xs i v p h.1)

  pub All-get_or {κ} :
      (P : A → Type κ) (xs : List A) (i : ℕ) (d : A) → i < length xs → All P xs → P (get_or xs i d)
  All-get_or P [] i d l h = absurd (omega arith)
  All-get_or P (x ∷ xs) zero d l h = h.0
  All-get_or P (x ∷ xs) (suc i) d l h = All-get_or P xs i d (omega arith) h.1
