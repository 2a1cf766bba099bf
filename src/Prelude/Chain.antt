-- ===== src/Prelude/Chain.antt =====
-- Singly linked chains of cells: what a begin pointer and the `next` fields spell out.
use Prim.Native.Nat.{ℕ}
use mathlib.Core.Path.{◌≡◌, refl, sym, subst}
use mathlib.Core.Logic.{◌≢◌, ◌⊎◌, inl, inr}
use mathlib.Core.Option.{Option, none, some}
use mathlib.Core.List.{List, [], ◌∷◌, ◌++◌}
use native.Mathlib.Omega.{arith}
use adapto_lite.Prelude.Lists.{All, All-map, All-remove}
use adapto_lite.Prelude.Bytes.{update}

-- From the pointer `b` the fields `f` lead through exactly the cells `l`, then to NULL.
abbrev pub Chain : (ℕ → Option ℕ) → Option ℕ → List ℕ → Type 0
Chain f b [] = b ≡ none
Chain f b (p ∷ l) = (b ≡ some p) × Chain f (f p) l

-- The last cell, as the end pointer holds it.
abbrev pub last? : List ℕ → Option ℕ
last? [] = none
last? (p ∷ []) = some p
last? (p ∷ q ∷ l) = last? (q ∷ l)

-- `if (n==NULL) end=NULL;` after the first cell, whose successor is `n`, has left.
abbrev pub end_after : Option ℕ → Option ℕ → Option ℕ
end_after none e = none
end_after (some n) e = e

abbrev pub NotIn : ℕ → List ℕ → Type 0
NotIn p = All (λ q. q ≢ p)

-- No cell stands twice.
abbrev pub Distinct : List ℕ → Type 0
Distinct [] = Unit {0}
Distinct (p ∷ l) = NotIn p l × Distinct l

-- Fields that agree on the cells spell out the same chain.
pub Chain-congr :
    (f g : ℕ → Option ℕ) (b : Option ℕ) (l : List ℕ)
    → All (λ q. g q ≡ f q) l
    → Chain f b l
    → Chain g b l
Chain-congr f g b [] h c = c
Chain-congr f g b (p ∷ l) h c = (c.0, Chain-congr f g (g p) l h.1 (subst-begin (h.0)))
  where
    subst-begin : g p ≡ f p → Chain f (g p) l
    subst-begin e = rw e c.1

-- A write to a cell outside the chain leaves the chain.
pub Chain-update-NotIn :
    (f : ℕ → Option ℕ) (p : ℕ) (v b : Option ℕ) (l : List ℕ)
    → NotIn p l
    → Chain f b l
    → Chain (update f p v) b l
Chain-update-NotIn f p v b l n c =
    Chain-congr f (update f p v) b l (All-map (λ q h. ground arith) l n) c

pub last?-append : (l : List ℕ) (p : ℕ) → last? (l ++ p ∷ []) ≡ some p
last?-append [] p = refl
last?-append (q ∷ []) p = refl
last?-append (q ∷ r ∷ l) p = last?-append (r ∷ l) p

pub NotIn-append : (p q : ℕ) (l : List ℕ) → NotIn p l → q ≢ p → NotIn p (l ++ q ∷ [])
NotIn-append p q [] n h = (h, tt)
NotIn-append p q (r ∷ l) n h = (n.0, NotIn-append p q l n.1 h)

pub Distinct-append : (l : List ℕ) (p : ℕ) → Distinct l → NotIn p l → Distinct (l ++ p ∷ [])
Distinct-append [] p d n = (tt, tt)
Distinct-append (q ∷ l) p d n =
    (NotIn-append q p l d.0 (λ e. n.0 (sym e)), Distinct-append l p d.1 n.1)

-- The last cell is one of the cells.
pub last?-ne : (l : List ℕ) (r : ℕ) {q : ℕ} → NotIn r l → last? l ≡ some q → q ≢ r
last?-ne [] r n e = cc
last?-ne (s ∷ []) r n e = ground arith
last?-ne (s ∷ t ∷ l) r n e = last?-ne (t ∷ l) r n.1 e

-- The last cell's `next` set to a fresh cell `p`, whose own is NULL, adds `p` at the end.
pub Chain-append :
    (f : ℕ → Option ℕ) (b : Option ℕ) (q p : ℕ) (l : List ℕ)
    → Distinct l
    → NotIn p l
    → last? l ≡ some q
    → f p ≡ none
    → Chain f b l
    → Chain (update f q (some p)) b (l ++ p ∷ [])
Chain-append f b q p [] d n e z c = cc
Chain-append f b q p (r ∷ []) d n e z c = ground arith
Chain-append f b q p (r ∷ s ∷ l) d n e z c =
    let ne = last?-ne (s ∷ l) r d.0 e in
    (c.0, Chain-append f (update f q (some p) r) q p (s ∷ l) d.1 n.1 e z (ground arith))

pub Distinct-remove :
    (xs : List ℕ) (p : ℕ) (ys : List ℕ)
    → Distinct (xs ++ p ∷ ys)
    → Distinct (xs ++ ys) × NotIn p (xs ++ ys)
Distinct-remove [] p ys d = (d.1, d.0)
Distinct-remove (x ∷ xs) p ys d =
    let r = Distinct-remove xs p ys d.1 in
    let a = All-remove (λ q. q ≢ x) xs p ys d.0 in ((a.0, r.0), (λ e. a.1 (sym e), r.1))

-- The last cell of a chain has no successor.
pub Chain-last? :
    (f : ℕ → Option ℕ) (b : Option ℕ) (l : List ℕ) {e : ℕ}
    → Chain f b l
    → last? l ≡ some e
    → f e ≡ none
Chain-last? f b [] c h = cc
Chain-last? f b (p ∷ []) c h = ground arith
Chain-last? f b (p ∷ q ∷ l) c h = Chain-last? f (f p) (q ∷ l) c.1 h

pub last?-cons : (p : ℕ) (l : List ℕ) → (e : ℕ) × (last? (p ∷ l) ≡ some e)
last?-cons p [] = (p, refl)
last?-cons p (q ∷ l) = last?-cons q l

pub NotIn-symm : (p q : ℕ) → q ≢ p → p ≢ q
NotIn-symm p q h e = h (sym e)

pub All-last? {ℓ} : (P : ℕ → Type ℓ) (l : List ℕ) {e : ℕ} → All P l → last? l ≡ some e → P e
All-last? P [] {e = e} h k = cc
All-last? P (p ∷ []) {e = e} h k = let s : p ≡ e = ground arith in subst P s h.0
All-last? P (p ∷ q ∷ l) {e = e} h k = All-last? P (q ∷ l) h.1 k

pub end_after-last? :
    (f : ℕ → Option ℕ) (p : ℕ) (l : List ℕ)
    → Chain f (f p) l
    → end_after (f p) (last? (p ∷ l)) ≡ last? l
end_after-last? f p [] c = rw c
end_after-last? f p (q ∷ l) c = rw c.0

-- A list is empty or has a last element.
pub last?-cases : (l : List ℕ) → (l ≡ []) ⊎ ((e : ℕ) × (last? l ≡ some e))
last?-cases [] = inl refl
last?-cases (p ∷ l) = inr (last?-cons p l)
