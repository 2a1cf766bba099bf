-- ===== src/Prelude/Loops.antt =====
-- Counted loops over an array.
use Prim.Native.Nat.{ℕ, zero, suc, ◌+◌, ◌<◌, ◌≤◌}
use mathlib.Core.Path.{◌≡◌, refl, ap, ◌∙◌}
use mathlib.Core.Logic.{◌≢◌}
use mathlib.Core.Option.{Option, none, some}
use mathlib.Core.List.{List, [], ◌∷◌}
use native.Mathlib.Omega.{arith}
use adapto_lite.Prelude.Lists.{All, length}
use adapto_lite.Prelude.Bytes.{update}
use adapto_lite.Prelude.Chain.{Chain, Distinct}

-- for (i = first; i < first + n; i++) a[i] = f(i, a[i]);
unfoldable pub for_each : {A : Type 0} → ℕ → ℕ → (ℕ → A → A) → (ℕ → A) → ℕ → A
for_each zero i f a = a
for_each (suc n) i f a = for_each n (i + 1) f (update a i (f i (a i)))

module _ {A : Type 0} (f : ℕ → A → A) where
  pub for_each_outside :
      (n i : ℕ) (a : ℕ → A) (j : ℕ) → (i ≤ j → j < i + n → ⊥) → for_each n i f a j ≡ a j
  unfolding for_each
  for_each_outside zero i a j h = refl
  for_each_outside (suc n) i a j h =
      for_each_outside n (i + 1) (update a i (f i (a i))) j (λ p q. h (omega arith) (omega arith))
      ∙ miss (λ e. h (omega arith) (omega arith))
    where
      miss : i ≢ j → update a i (f i (a i)) j ≡ a j
      miss ne = ground arith

  pub for_each_inside :
      (n i : ℕ) (a : ℕ → A) (j : ℕ) → i ≤ j → j < i + n → for_each n i f a j ≡ f j (a j)
  unfolding for_each
  for_each_inside zero i a j h k = absurd (omega arith)
  for_each_inside (suc n) i a j h k = ground (
    arith,
    for_each_outside n (i + 1) (update a i (f i (a i))) i (λ p q. omega arith),
    for_each_inside n (i + 1) (update a i (f i (a i))) j,
  )

-- i, i + 1, ..., i + n - 1
abbrev pub count_up : ℕ → ℕ → List ℕ
count_up i zero = []
count_up i (suc n) = i ∷ count_up (i + 1) n

pub length-count_up : (i n : ℕ) → length (count_up i n) ≡ n
length-count_up i zero = refl
length-count_up i (suc n) = ap suc (length-count_up (i + 1) n)

pub All-count_up {ℓ} :
    (P : ℕ → Type ℓ) (i n : ℕ) → ((j : ℕ) → i ≤ j → j < i + n → P j) → All P (count_up i n)
All-count_up P i zero h = tt
All-count_up P i (suc n) h = (
  h i (omega arith) (omega arith),
  All-count_up P (i + 1) n (λ j p q. h j (omega arith) (omega arith)),
)

pub Distinct-count_up : (i n : ℕ) → Distinct (count_up i n)
Distinct-count_up i zero = tt
Distinct-count_up i (suc n) =
    (All-count_up (λ j. j ≢ i) (i + 1) n (λ j p q e. omega arith), Distinct-count_up (i + 1) n)

-- Cells that point to their right neighbours, the last one to NULL, make a chain.
pub Chain-count_up :
    (f : ℕ → Option ℕ) (i n : ℕ)
    → ((j : ℕ) → i ≤ j → j < i + n → f j ≡ some (j + 1))
    → f (i + n) ≡ none
    → Chain f (some i) (count_up i (suc n))
Chain-count_up f i zero h e = (refl, let z : i + 0 ≡ i = omega arith in ground arith)
Chain-count_up f i (suc n) h e = (
  refl,
  rw (h i (omega arith) (omega arith)) (
      Chain-count_up f (i + 1) n (λ j p q. h j (omega arith) (omega arith))
        (let z : i + 1 + n ≡ i + suc n = omega arith in rw z e)),
)
