-- ===== src/NatSockets/Init.antt =====
-- app/src/main/cpp/eth_nat.c, `eth_nat_init`: the tasks and the listening connection. What the calls of the
-- system and of lwIP return are arguments.
use adapto_lite.Prelude.{ℕ, Option, none, some, Bool, true, false, ◌==◌, if◌then◌else◌}

-- Whether the three threads run, and the connection that `nat_accept_fn` serves.
pub record NatService : Type 0 where
  pub running : Bool
  pub accepting : Option ℕ

-- `ret` is the result of the second `pipe2`; that of the first is not looked at. A connection that is made
-- is bound, and then listens, or not.
unfoldable pub eth_nat_init : ℕ → Option ℕ → (ℕ → Option ℕ) → NatService
eth_nat_init ret new_pcb listen =
    if ret == 0
    then record { running = true; accepting = elim new_pcb [ none ↦ none | some pcb ↦ listen pcb ] }
    else record { running = false; accepting = none }
