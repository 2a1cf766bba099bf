-- ===== src/EthMem/Queues/Rep.antt =====
-- What the pointers of the queue entries represent: which are free, which wait for the router and
-- which for the driver of each interface.
use mathlib.Core.Path.{subst}
use adapto_lite.Prelude.{
  ℕ, ◌≤◌, ◌≡◌, ◌≢◌, sym, ap, ◌∙◌, Option, none, some, List, [], arith, length, All, All-map,
  All-zip, All-intro, ◌==◌, ==_iff, Bool-cases, inl, inr,
}
use adapto_lite.Prelude.Bytes.{update}
use adapto_lite.Prelude.Chain.{Chain, Chain-congr, last?, All-last?, NotIn, Distinct}
use adapto_lite.EthMem.State.{EthMem, EthQueue, EthNetif, st_free}

-- Where an entry is; `busy` is between two queues, in the hands of one function.
pub data Place : Type 0 where
  in_free in_input busy : Place
  in_output : ℕ → Place

abbrev pub next_entry : EthMem → ℕ → Option ℕ
next_entry m q = (m.queue q).next

-- The output queue of the interface `i` holds the entries `l`, within its limit; a driver that
-- waits for a packet is registered and has an empty queue.
pub record OutputRep (next : ℕ → Option ℕ) (n : EthNetif) (place : ℕ → Place) (i : ℕ) (l : List ℕ)
    : Type 0 where
  pub chain : Chain next n.q_output_begin l
  pub end : n.q_output_end ≡ last? l
  pub distinct : Distinct l
  pub places : All (λ q. place q ≡ in_output i) l
  pub len : n.q_output_len ≡ length l
  pub bound : length l ≤ n.q_output_len_max
  pub waiting : n.callback_pending ≢ 0 → l ≡ []
  pub registered : n.callback_pending ≢ 0 → n.callback_fn ≢ none

pub record QRep (m : EthMem) (place : ℕ → Place) (free input : List ℕ) (out : ℕ → List ℕ)
    : Type 0 where
  pub free_chain : Chain (next_entry m) m.pool.q_begin free
  pub free_distinct : Distinct free
  pub free_places : All (λ q. place q ≡ in_free) free
  pub input_chain : Chain (next_entry m) m.pool.q_input_begin input
  pub input_end : m.pool.q_input_end ≡ last? input
  pub input_distinct : Distinct input
  pub input_places : All (λ q. place q ≡ in_input) input
  pub outputs : (i : ℕ) → OutputRep (next_entry m) (m.netif i) place i (out i)
  pub states : (q : ℕ) → (m.queue q).state ≡ st_free → place q ≡ in_free

-- An entry is in no list of another place.
pub NotIn-place :
    (place : ℕ → Place) (q : ℕ) (x : Place) (l : List ℕ)
    → place q ≢ x
    → All (λ r. place r ≡ x) l
    → NotIn q l
NotIn-place place q x l ne h = All-map (λ r e z. ne (subst (λ y. place y ≡ x) z e)) l h

pub places_frame :
    (place : ℕ → Place) (q : ℕ) (x y : Place) (l : List ℕ)
    → NotIn q l
    → All (λ r. place r ≡ x) l
    → All (λ r. update place q y r ≡ x) l
places_frame place q x y l n h =
    All-map (λ r e. ground arith) l (All-zip (λ r. r ≢ q) (λ r. place r ≡ x) l n h)

pub next_frame :
    (f g : ℕ → Option ℕ) (q : ℕ) (b : Option ℕ) (l : List ℕ)
    → ((r : ℕ) → r ≢ q → g r ≡ f r)
    → NotIn q l
    → Chain f b l
    → Chain g b l
next_frame f g q b l same n c = Chain-congr f g b l (All-map same l n) c

-- A write to an entry outside an output queue leaves the queue.
pub OutputRep_frame :
    (f g : ℕ → Option ℕ) (n : EthNetif) (place : ℕ → Place) (i q : ℕ) (y : Place) (l : List ℕ)
    → ((r : ℕ) → r ≢ q → g r ≡ f r)
    → NotIn q l
    → OutputRep f n place i l
    → OutputRep g n (update place q y) i l
OutputRep_frame f g n place i q y l same out r = record {
  chain = next_frame f g q n.q_output_begin l same out r.chain;
  end = r.end;
  distinct = r.distinct;
  places = places_frame place q (in_output i) y l out r.places;
  len = r.len;
  bound = r.bound;
  waiting = r.waiting;
  registered = r.registered;
}

-- An entry that is in no output queue is in none of their lists.
pub NotIn-output :
    {m : EthMem} {place : ℕ → Place} {free input : List ℕ} {out : ℕ → List ℕ} (q i : ℕ)
    → QRep m place free input out
    → place q ≢ in_output i
    → NotIn q (out i)
NotIn-output {place = place} {out = out} q i r ne =
    NotIn-place place q (in_output i) (out i) ne (r.outputs i).places

-- The fields of an interface that its output queue rests on.
abbrev pub SameOutput : EthNetif → EthNetif → Type 0
SameOutput n n' =
    (n'.q_output_begin ≡ n.q_output_begin)
    × (n'.q_output_end ≡ n.q_output_end)
    × (n'.q_output_len ≡ n.q_output_len)
    × (n'.q_output_len_max ≡ n.q_output_len_max)
    × (n'.callback_pending ≡ n.callback_pending)
    × (n'.callback_fn ≡ n.callback_fn)

pub OutputRep_same :
    (f : ℕ → Option ℕ) (n n' : EthNetif) (place : ℕ → Place) (i : ℕ) (l : List ℕ)
    → SameOutput n n'
    → OutputRep f n place i l
    → OutputRep f n' place i l
OutputRep_same f n n' place i l s r = record {
  chain = rw s.0 r.chain;
  end = s.1 ∙ r.end;
  distinct = r.distinct;
  places = r.places;
  len = s.2 ∙ r.len;
  bound = omega (arith, r.bound, s.3);
  waiting = λ h. r.waiting (λ e. h (s.4 ∙ e));
  registered = λ h e. r.registered (λ z. h (s.4 ∙ z)) (sym (s.5) ∙ e);
}

-- A step that leaves the entries, the interfaces and the pool's queues leaves what they represent.
pub QRep-same :
    (m k : EthMem) (place : ℕ → Place) (free input : List ℕ) (out : ℕ → List ℕ)
    → ((q : ℕ) → k.queue q ≡ m.queue q)
    → ((i : ℕ) → SameOutput (m.netif i) (k.netif i))
    → k.pool.q_begin ≡ m.pool.q_begin
    → k.pool.q_input_begin ≡ m.pool.q_input_begin
    → k.pool.q_input_end ≡ m.pool.q_input_end
    → QRep m place free input out
    → QRep k place free input out
QRep-same m k place free input out eq en eb ei ee r = record {
  free_chain = rw eb (chain m.pool.q_begin free r.free_chain);
  free_distinct = r.free_distinct;
  free_places = r.free_places;
  input_chain = rw ei (chain m.pool.q_input_begin input r.input_chain);
  input_end = ee ∙ r.input_end;
  input_distinct = r.input_distinct;
  input_places = r.input_places;
  outputs = λ i.
      let o = r.outputs i in
      OutputRep_same (next_entry k) (m.netif i) (k.netif i) place i (out i) (en i) (record {
        chain = chain (m.netif i).q_output_begin (out i) o.chain;
        end = o.end;
        distinct = o.distinct;
        places = o.places;
        len = o.len;
        bound = o.bound;
        waiting = o.waiting;
        registered = o.registered;
      });
  states = λ q e. r.states q (ap (λ (x : EthQueue). x.state) (sym (eq q)) ∙ e);
}
  where
    chain : (b : Option ℕ) (l : List ℕ) → Chain (next_entry m) b l → Chain (next_entry k) b l
    chain b l c =
        Chain-congr (next_entry m) (next_entry k) b l
          (All-intro (λ q. ap (λ (x : EthQueue). x.next) (eq q)) l) c

-- The last entry of the input queue is no entry of another place.
pub input_end-ne :
    {m : EthMem} {place : ℕ → Place} {free input : List ℕ} {out : ℕ → List ℕ} (q : ℕ)
    → QRep m place free input out
    → place q ≢ in_input
    → (s : ℕ) → m.pool.q_input_end ≡ some s
    → s ≢ q
input_end-ne {place = place} {input = input} q r ne s e z = ne (
    subst (λ y. place y ≡ in_input) z
      (All-last? (λ y. place y ≡ in_input) input r.input_places (sym r.input_end ∙ e)))

-- So is the last entry of an output queue.
pub output_end-ne :
    {m : EthMem} {place : ℕ → Place} {free input : List ℕ} {out : ℕ → List ℕ} (q i : ℕ)
    → QRep m place free input out
    → place q ≢ in_output i
    → (s : ℕ) → (m.netif i).q_output_end ≡ some s
    → s ≢ q
output_end-ne {place = place} {out = out} q i r ne s e z =
    let o = r.outputs i in
    ne (
      subst (λ y. place y ≡ in_output i) z
        (All-last? (λ y. place y ≡ in_output i) (out i) o.places (sym o.end ∙ e)))

-- Of an array of lists with one replaced.
pub update_cases {ℓ} :
    (P : ℕ → List ℕ → Type ℓ) (out : ℕ → List ℕ) (i : ℕ) (l : List ℕ)
    → P i l
    → ((j : ℕ) → i ≢ j → P j (out j))
    → (j : ℕ) → P j (update out i l j)
update_cases P out i l own other j = elim (Bool-cases (i == j)) [
  | inl e ↦ rw e (subst (λ x. P x l) ((==_iff i j).0 e) own)
  | inr ne ↦ rw ne (other j (λ z. ground arith))
]

pub index_cases {ℓ} : (P : ℕ → Type ℓ) (i : ℕ) → P i → ((j : ℕ) → i ≢ j → P j) → (j : ℕ) → P j
index_cases P i own other j = elim (Bool-cases (i == j)) [
  | inl e ↦ subst P ((==_iff i j).0 e) own
  | inr ne ↦ other j (λ z. ground arith)
]
