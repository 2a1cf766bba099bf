-- ===== src/NetRaw/Tests.antt =====
-- app/src/main/cpp/lwip/net_raw.c on small frames.
use adapto_lite.Prelude.{ℕ, ◌+◌, ◌≤◌, ◌≡◌, refl, none, some, List, [], ◌∷◌, true, length, arith}
use adapto_lite.Prelude.Bytes.{Memory, update, write}
use adapto_lite.NetTopology.{Topology, read_data, topology_new_dgram, mac_eq, search_cell}
use adapto_lite.NetRaw.{
  Err, err_ok, good, bad_sum, dg_check, checksum, add_words, frame_len, raw_send_bcast,
  lwip_customproto,
}
use adapto_lite.NetRaw.Checksum.{dg_check-corrupted}
use adapto_lite.NetRaw.Frames.{frame_bytes}
use adapto_lite.NetRaw.Broadcast.{broadcast, raw_send_bcast-lwip_customproto}

abbrev no_bytes : Memory
no_bytes i = 0

-- Two bytes of payload, with their checksum.
abbrev small_frame : Memory
small_frame = write no_bytes 12 (135 ∷ 120 ∷ 78 ∷ 44 ∷ 2 ∷ 0 ∷ 7 ∷ 9 ∷ [])

small_frame-good : dg_check small_frame 0 20 ≡ good
unfolding dg_check checksum add_words write
small_frame-good = refl

small_frame-len : frame_len small_frame 0 ≡ 2
unfolding write
small_frame-len = refl

at_19 : small_frame 19 ≡ 9
unfolding write
at_19 = refl

dg_check-corrupted_example : dg_check (update small_frame (0 + 18 + 1) 8) 0 20 ≡ bad_sum
dg_check-corrupted_example =
    dg_check-corrupted small_frame 0 20 1 8 small_frame-good (omega (arith, small_frame-len))
      (omega (arith, at_19)) (omega arith) (λ h. omega (arith, h, at_19))

-- A driver that keeps the frames.
abbrev keep : List ℕ → List (List ℕ) → Err × List (List ℕ)
keep bytes sent = (err_ok, bytes ∷ sent)

abbrev display : List ℕ
display = 2 ∷ 0 ∷ 0 ∷ 0 ∷ 0 ∷ 1 ∷ []

abbrev remote : List ℕ
remote = 2 ∷ 0 ∷ 0 ∷ 0 ∷ 0 ∷ 7 ∷ []

-- A frame of 56 bytes of payload, as yet without addresses.
abbrev own_frame : Memory
own_frame = write no_bytes 16 (56 ∷ 0 ∷ 0 ∷ 0 ∷ 103 ∷ 18 ∷ [])

own_frame-len : frame_len own_frame 0 ≤ 1482
unfolding write
own_frame-len = omega arith

abbrev no_devices : Topology
no_devices = record {
  net_devices = 0;
  devices_online = λ i. record { time = 0; status = 0; mac = []; info = read_data no_bytes 0 };
  paired_controllers = λ i. [];
  paired_controllers_cnt = 0;
  nt_tmr = 0;
  hwaddr = display;
  paired_mac_addr = [];
}

own_frame-command : own_frame (0 + 18) ≡ 0
unfolding write
own_frame-command = refl

raw_send_bcast-lwip_customproto_example :
    ((raw_send_bcast (some keep) remote own_frame 0 []).1
      ≡ frame_bytes remote (broadcast own_frame 0) 0 ∷ [])
    × (lwip_customproto 5000 no_devices
          (write no_bytes 100 (frame_bytes remote (broadcast own_frame 0) 0))
          (record {
            next = none;
            payload = 100;
            len = length (frame_bytes remote (broadcast own_frame 0) 0);
          })
        ≡ record {
          topology =
              topology_new_dgram 5000 no_devices
                (read_data own_frame (0 + 20))
                remote
                (frame_len own_frame 0);
          err = err_ok;
          freed = true;
        })
raw_send_bcast-lwip_customproto_example =
    raw_send_bcast-lwip_customproto keep [] remote own_frame no_bytes 0 100 5000 no_devices refl
      own_frame-len own_frame-command

-- The new device has the first cell.
first_device :
    (topology_new_dgram 5000 no_devices (read_data own_frame 20) remote 56).net_devices ≡ 1
unfolding topology_new_dgram mac_eq search_cell
first_device = refl
