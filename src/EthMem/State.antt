-- ===== src/EthMem/State.antt =====
-- The structures of app/src/main/cpp/eth_mem.h. A pointer into the array `eth_pbuf` or
-- `xeth_queuepool` is the index of the element, NULL is `none`. The one pool of the program is
-- the state itself, so the pointers `ctrl` and `pool`, which `eth_router_add_bridge` sets to it
-- for good, have no field.
use adapto_lite.Prelude.{ℕ, ◌≡◌, Option, List, [], ◌∷◌, ◌++◌}
use adapto_lite.Prelude.Bytes.{Memory, update}
use adapto_lite.Xlib.{NHandle}

-- What an operation comes to: a value, the endless loop of `EM_ASSERT(n)` (with 0: of another
-- `while(1)`), an access through NULL or out of bounds, or (of the model only) a loop whose fuel
-- ran out.
pub data Run {ℓ} (A : Type ℓ) : Type ℓ where
  done : A → Run A
  em_assert : ℕ → Run A
  bad_access : Run A
  out_of_fuel : Run A

infixl 5 ◌>>=◌
abbrev pub ◌>>=◌ {ℓ κ} : {A : Type ℓ} {B : Type κ} → Run A → (A → Run B) → Run B
done a >>= f = f a
em_assert n >>= f = em_assert n
bad_access >>= f = bad_access
out_of_fuel >>= f = out_of_fuel

pub done-injective {ℓ} : {A : Type ℓ} {x y : A} → done x ≡ done y → x ≡ y
done-injective h = cc

-- `struct ETH_PBUF` with the fields of its `struct pbuf`. `payload` is an address in
-- `eth_pbuf_mem`.
pub record EthPbuf : Type 0 where
  pub next : Option ℕ
  pub payload : ℕ
  pub tot_len : ℕ
  pub len : ℕ
  pub type_internal : ℕ
  pub flags : ℕ
  pub ref : ℕ
  pub if_idx : ℕ
  pub default_payload : ℕ
  pub src_if : ℕ

pub record EthPbufCtrl : Type 0 where
  pub free_chain : Option ℕ
  pub used : ℕ
  pub used_max : ℕ

-- The states of `struct ETH_QUEUE`.
pub data QueueState : Type 0 where
  st_free st_allocated st_in_queue st_sending st_free_pending : QueueState

-- `struct ETH_QUEUE`; `dst_if_idx` is never read or written.
pub record EthQueue : Type 0 where
  pub next : Option ℕ
  pub pbuf : ℕ
  pub state : QueueState

pub record EthMemStats : Type 0 where
  pub qpool_alloc_fails : ℕ
  pub eth_pbuf_alloc_fails : ℕ
  pub eth_pbuf_alloc_delayed : ℕ
  pub eth_pbuf_alloc_delay_cbks : ℕ

-- `struct NOMEM_CALLBACK`; its `callback_fn` is the event `nomem_callback`.
pub record NomemCallback : Type 0 where
  pub next_p : Option ℕ
  pub src_interface_id : ℕ
  pub wait_active : ℕ

-- The functions that the drivers register as callbacks.
pub data Callback : Type 0 where
  callback_from_bridge lwip_callback_from_bridge : Callback
  ble_callback_qlen : Callback

-- `struct ETH_NETIF`, an element of `eth_netif_array`.
pub record EthNetif : Type 0 where
  pub q_output_end : Option ℕ
  pub q_output_begin : Option ℕ
  pub q_output_len : ℕ
  pub q_output_len_max : ℕ
  pub q_output_size : ℕ
  pub callback_fn : Option Callback
  pub q_update_cbk : Option Callback
  pub if_up : ℕ
  pub callback_pending : ℕ
  pub dgrams_in : ℕ
  pub dgrams_out : ℕ
  pub dgrams_lost : ℕ
  pub input_queue_len : ℕ

-- `struct ETH_QUEUEPOOL_CTRL`
pub record EthQueuepoolCtrl : Type 0 where
  pub q_begin : Option ℕ
  pub nopbuf_q_end : Option ℕ
  pub nopbuf_q_begin : Option ℕ
  pub free_pbuf_q_end : Option ℕ
  pub free_pbuf_q_begin : Option ℕ
  pub q_input_end : Option ℕ
  pub q_input_begin : Option ℕ
  pub q_input_used : ℕ
  pub q_input_used_max : ℕ
  pub used : ℕ
  pub used_max : ℕ
  pub alloc_fails : ℕ
  pub notify : NHandle

-- The callbacks that an operation makes, in order. The registered functions change their own
-- module's state only (a pending packet, a notification), so none is made before the next
-- operation on this state.
pub data Event : Type 0 where
  netif_callback : Callback → ℕ → ℕ → Event
  q_update : Callback → ℕ → Event
  nomem_callback : ℕ → ℕ → Event

pub record EthMem : Type 0 where
  pub pbuf : ℕ → EthPbuf
  pub bytes : Memory
  pub queue : ℕ → EthQueue
  pub netif : ℕ → EthNetif
  pub callback : ℕ → NomemCallback
  pub pbuf_ctrl : EthPbufCtrl
  pub pool : EthQueuepoolCtrl
  pub stats : EthMemStats
  pub events : List Event

-- eth_router_cfg.h
abbrev pub eth_mem_buf_size : ℕ
eth_mem_buf_size = 1600

abbrev pub eth_netifs : ℕ
eth_netifs = 4

abbrev pub lwip_netif_id : ℕ
lwip_netif_id = 1

abbrev pub test_netif_id : ℕ
test_netif_id = 2

abbrev pub ble_netif_id : ℕ
ble_netif_id = 3

-- Assignments to one element of an array.
abbrev pub set_pbuf : EthMem → ℕ → EthPbuf → EthMem
set_pbuf m p v = record m { pbuf = update m.pbuf p v }

abbrev pub set_queue : EthMem → ℕ → EthQueue → EthMem
set_queue m q v = record m { queue = update m.queue q v }

abbrev pub set_netif : EthMem → ℕ → EthNetif → EthMem
set_netif m i v = record m { netif = update m.netif i v }

abbrev pub set_callback : EthMem → ℕ → NomemCallback → EthMem
set_callback m c v = record m { callback = update m.callback c v }

abbrev pub emit : EthMem → Event → EthMem
emit m e = record m { events = m.events ++ e ∷ [] }
