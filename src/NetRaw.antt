-- ===== src/NetRaw.antt =====
-- app/src/main/cpp/lwip/net_raw.c: frames of the program's own protocols, with a checksum. A
-- `struct eth_raw_frame` is the address of its first byte in a memory. The calls of lwIP and of the
-- driver are the section's parameters.
pub mod Checksum
pub mod Frames
pub mod Broadcast
pub mod Senders
mod Tests
use adapto_lite.Prelude.{
  ℕ, zero, suc, ◌+◌, ◌-◌, ◌*◌, ◌/◌, ◌%◌, ◌^◌, Option, none, some, List, [], ◌∷◌, Bool, true, false,
  not, ◌||◌, ltb, ◌==◌, if◌then◌else◌, u8, u16,
}
use adapto_lite.Prelude.Bytes.{Memory, update, read, write, get16, bytes16}
use adapto_lite.NetTopology.{Topology, read_data, topology_new_dgram, topology_disconnect}

abbrev pub ethtype_adp : ℕ
ethtype_adp = 34679

abbrev pub ethtype_dbg : ℕ
ethtype_dbg = 34680

abbrev pub ethtype_controls : ℕ
ethtype_controls = 34681

-- The fields of the frame at `a`: `dst_mac` from 0, `src_mac` from 6, `ethtype` from 12 (its high
-- byte first), `csum` at 14, `len` at 16, `payload` from 18.
abbrev pub frame_ethtype : Memory → ℕ → ℕ
frame_ethtype m a = m (a + 12) * 256 + m (a + 13)

abbrev pub frame_csum : Memory → ℕ → ℕ
frame_csum m a = get16 m (a + 14)

abbrev pub frame_len : Memory → ℕ → ℕ
frame_len m a = get16 m (a + 16)

-- `n` rounds of the loop that adds the words from `a` on.
unfoldable pub add_words : Memory → ℕ → ℕ → ℕ → ℕ
add_words m a zero cs = cs
add_words m a (suc n) cs = add_words m (a + 2) n (u16 (cs + get16 m a))

-- The sum over the frame at `a` with `len` bytes of payload. The loop `for (i=0; i<len-1; i+=2)` makes
-- `len / 2` rounds; the last byte of an odd number is added by itself.
unfoldable pub checksum : Memory → ℕ → ℕ → ℕ
checksum m a len =
    let cs : ℕ = add_words m (a + 18) (len / 2) (u16 (9029 + len)) in
    if len % 2 == 1 then u16 (cs + m (a + 18 + (len - 1))) else cs

pub data Check : Type 0 where
  good bad_size bad_sum : Check

unfoldable pub dg_check : Memory → ℕ → ℕ → Check
dg_check m a len =
    if ltb len (frame_len m a + 18)
    then bad_size
    else if frame_csum m a == checksum m a (frame_len m a)
    then good
    else bad_sum

pub data Err : Type 0 where
  err_ok err_if : Err
  err_other : ℕ → Err

-- The pbuf that `pbuf_coalesce` returns.
pub record Coalesced : Type 0 where
  pub next : Option ℕ
  pub payload : ℕ
  pub len : ℕ

-- The result of a received frame, and whether the pbuf was freed.
pub record Handled : Type 0 where
  pub topology : Topology
  pub err : Err
  pub freed : Bool

unfoldable pub is_some : Option ℕ → Bool
is_some none = false
is_some (some q) = true

-- A frame of one of the protocols: its checksum is tested, `act` does what is to be done, and the
-- pbuf is freed.
unfoldable pub checked : Topology → Check → Topology → Handled
checked t good act = record { topology = act; err = err_ok; freed = true }
checked t _ act = record { topology = t; err = err_if; freed = false }

-- A topology frame: the first byte of its payload is the command.
unfoldable pub topology_command : ℕ → Topology → Memory → ℕ → Topology
topology_command now t m a =
    let t1 : Topology =
      if m (a + 18) == 0
      then topology_new_dgram now t (read_data m (a + 20)) (read m (a + 6) 6) (frame_len m a)
      else t in
    if m (a + 18) == 6 then topology_disconnect t1 else t1

-- `lwip_customproto`, of the pbuf that `pbuf_coalesce` returns; the clock shows `now`.
unfoldable pub lwip_customproto : ℕ → Topology → Memory → Coalesced → Handled
lwip_customproto now t m pb =
    let a : ℕ = pb.payload in
    let check : Check = dg_check m a pb.len in
    if is_some pb.next
    then record { topology = t; err = err_if; freed = false }
    else if frame_ethtype m a == ethtype_dbg
    then checked t check t
    else if frame_ethtype m a == ethtype_adp
    then checked t check (topology_command now t m a)
    else if frame_ethtype m a == ethtype_controls
    then checked t check t
    else record { topology = t; err = err_if; freed = false }

-- The number of bytes that are sent of a frame with `len` bytes of payload.
unfoldable pub sent_len : ℕ → ℕ
sent_len len = let n : ℕ = u16 (len + 18) in if ltb n 62 then 62 else n

-- The frame with its checksum and its source address.
unfoldable pub sealed : List ℕ → Memory → ℕ → Memory
sealed hwaddr m a = write (write m (a + 14) (bytes16 (checksum m a (frame_len m a)))) (a + 6) hwaddr

-- Whether one of the bytes is not zero.
unfoldable pub mac_ok : List ℕ → Bool
mac_ok [] = false
mac_ok (x ∷ xs) = not (x == 0) || mac_ok xs

-- The call of `linkoutput`, if the interface has one.
unfoldable pub output {ℓ} : {S : Type ℓ} → Option (List ℕ → S → Err × S) → List ℕ → S → Err × S
output none bytes s = (err_if, s)
output (some f) bytes s = f bytes s

-- `linkoutput` gets the bytes of the pbuf and changes the driver's state.
module _ {ℓ} {S : Type ℓ} (linkoutput : Option (List ℕ → S → Err × S)) (hwaddr : List ℕ) where
  unfoldable pub ethernet_send_raw : Memory → ℕ → S → Err × (Memory × S)
  ethernet_send_raw m a s =
      let m1 : Memory = sealed hwaddr m a in
      let r = output linkoutput (read m1 a (sent_len (frame_len m a))) s in (r.0, (m1, r.1))

  unfoldable pub raw_send_ucast : Memory → ℕ → S → Memory × S
  raw_send_ucast m a s =
      (ethernet_send_raw (write m (a + 12) (ethtype_adp / 256 ∷ u8 ethtype_adp ∷ [])) a s).1

  unfoldable pub raw_send_bcast : Memory → ℕ → S → Memory × S
  raw_send_bcast m a s =
      let m1 : Memory = write m a (255 ∷ 255 ∷ 255 ∷ 255 ∷ 255 ∷ 255 ∷ []) in
      (ethernet_send_raw (write m1 (a + 12) (ethtype_adp / 256 ∷ u8 ethtype_adp ∷ [])) a s).1

  -- `n` rounds of the loop from the controller `i` on.
  unfoldable pub send_to_each : (ℕ → List ℕ) → ℕ → ℕ → Memory → ℕ → S → Memory × S
  send_to_each macs i zero m a s = (m, s)
  send_to_each macs i (suc n) m a s =
      let m1 : Memory = write m a (macs i) in
      let r : Memory × S = if mac_ok (read m1 a 6) then (ethernet_send_raw m1 a s).1 else (m1, s) in
      send_to_each macs (i + 1) n r.0 a r.1

  unfoldable pub ethernet_send_raw_to_paired : Topology → Memory → ℕ → S → Memory × S
  ethernet_send_raw_to_paired t m a s =
      send_to_each t.paired_controllers 0 t.paired_controllers_cnt m a s
