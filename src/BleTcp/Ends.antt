-- ===== src/BleTcp/Ends.antt =====
-- app/src/main/cpp/ble_tcp.c: two ends of a link, which exchange blocks in any interleaving, and
-- the acknowledgements that the blocks carry.
use adapto_lite.Prelude.{ℕ, ◌≡◌, refl, List, [], ◌∷◌, ◌++◌, All, All-append}
use mathlib.Core.Path.{subst}
use adapto_lite.EthMem.State.{done}
use adapto_lite.BleTcp.Acks.{HasAckOne, Acts, SendsOne, Acts-SendsOne, process_gatt_data-SendsOne}
use adapto_lite.BleTcp.{BleTcp, gatt_conn_reset, process_gatt_data}

-- Two ends, and the blocks on their way to each.
pub record Ends : Type 0 where
  pub here : BleTcp
  pub there : BleTcp
  pub to_there : List (List ℕ)
  pub to_here : List (List ℕ)

-- The other way round.
abbrev pub swap : Ends → Ends
swap e = record { here = e.there; there = e.here; to_there = e.to_here; to_here = e.to_there }

-- A step of the end `here`; blocks that its driver takes go on their way, and may be lost.
pub data Step : Ends → Ends → Type 0 where
  acts :
      (e : Ends) (bt_send : List ℕ → ℕ) (status : ℕ) {b' : BleTcp} (new : List (List ℕ))
      → Acts bt_send status e.here b'
      → b'.sent ≡ e.here.sent ++ new
      → Step e (record e { here = b'; to_there = e.to_there ++ new })
  arrives :
      (e : Ends) (c : List ℕ) (rest : List (List ℕ)) {b' : BleTcp}
      → e.to_here ≡ c ∷ rest
      → process_gatt_data e.here c ≡ done b'
      → Step e (record e { here = b'; to_here = rest })
  lost :
      (e : Ends) (c : List ℕ) (rest : List (List ℕ))
      → e.to_here ≡ c ∷ rest
      → Step e (record e { to_here = rest })
  turn : (e : Ends) → Step e (swap e)

pub data Reach (e : Ends) : Ends → Type 0 where
  here : Reach e e
  next : {f g : Ends} → Reach e f → Step f g → Reach e g

-- Both ends acknowledge the block 1, and so do the blocks on their way.
pub record AcksOne (e : Ends) : Type 0 where
  pub here : SendsOne e.here
  pub there : SendsOne e.there
  pub to_there : All HasAckOne e.to_there
  pub to_here : All HasAckOne e.to_here

All-append_right : (xs ys : List (List ℕ)) → All HasAckOne (xs ++ ys) → All HasAckOne ys
All-append_right [] ys h = h
All-append_right (x ∷ xs) ys h = All-append_right xs ys h.1

Step-AcksOne : {e f : Ends} → Step e f → AcksOne e → AcksOne f
Step-AcksOne (acts e bt_send status new a s) h =
    let one = Acts-SendsOne a h.here in
    record {
      here = one;
      there = h.there;
      to_there =
          All-append HasAckOne e.to_there new h.to_there
            (All-append_right e.here.sent new (subst (All HasAckOne) s one.sent));
      to_here = h.to_here;
    }
Step-AcksOne (arrives e c rest s p) h =
    let on_way = subst (All HasAckOne) s h.to_here in
    record {
      here = process_gatt_data-SendsOne c e.here h.here on_way.0 p;
      there = h.there;
      to_there = h.to_there;
      to_here = on_way.1;
    }
Step-AcksOne (lost e c rest s) h = record {
  here = h.here;
  there = h.there;
  to_there = h.to_there;
  to_here = (subst (All HasAckOne) s h.to_here).1;
}
Step-AcksOne (turn e) h = record {
  here = h.there;
  there = h.here;
  to_there = h.to_here;
  to_here = h.to_there;
}

-- Two ends that run this code, after `gatt_conn_reset`, of which neither sent anything yet: whatever
-- their tasks, timers and drivers do and whatever blocks arrive or are lost, in any order, both
-- acknowledge the block 1 for good, and so does every block on its way: the acknowledgement is only
-- an echo.
pub Reach-AcksOne :
    (a b : BleTcp) {f : Ends}
    → a.sent ≡ []
    → b.sent ≡ []
    → Reach
        (record {
          here = gatt_conn_reset a;
          there = gatt_conn_reset b;
          to_there = [];
          to_here = [];
        })
        f
    → AcksOne f
unfolding gatt_conn_reset
Reach-AcksOne a b x y here = record {
  here = record { nack = refl; sent = rw x tt };
  there = record { nack = refl; sent = rw y tt };
  to_there = tt;
  to_here = tt;
}
Reach-AcksOne a b x y (next r s) = Step-AcksOne s (Reach-AcksOne a b x y r)
