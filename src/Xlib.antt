-- ===== src/Xlib.antt =====
-- app/src/main/cpp/xlib.c: task notifications, a set of bits beside a counting semaphore.
use Prim.Native.Nat.{bit_or}
use adapto_lite.Prelude.{ℕ, zero, suc, ◌+◌, Option, none, some}

-- `struct NHandle_t`; `sem` is the count of the POSIX semaphore.
pub record NHandle : Type 0 where
  pub val : ℕ
  pub sem : ℕ

unfoldable pub t_notify_create : NHandle
t_notify_create = record { val = 0; sem = 0 }

unfoldable pub t_notify_add : NHandle → ℕ → NHandle
t_notify_add task v = record { val = bit_or task.val v; sem = task.sem + 1 }

-- `none` while the caller is blocked in `sem_wait`.
sem_wait : ℕ → Option ℕ
sem_wait zero = none
sem_wait (suc n) = some n

unfoldable pub t_notify_wait : NHandle → Option (ℕ × NHandle)
unfolding sem_wait
t_notify_wait task = elim (sem_wait task.sem) [
  | none ↦ none
  | some n ↦ some (task.val, record { val = 0; sem = n })
]
