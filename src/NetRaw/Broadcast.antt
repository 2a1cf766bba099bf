-- ===== src/NetRaw/Broadcast.antt =====
-- app/src/main/cpp/lwip/net_raw.c: a topology frame that one device broadcasts, at another device.
use adapto_lite.Prelude.{
  ℕ, zero, suc, ◌+◌, ◌/◌, ◌≤◌, ◌<◌, ◌≡◌, inl, inr, refl, sym, ap, ap₂, ◌∙◌, none, some, List, [],
  ◌∷◌, true, u8, arith, length,
}
use adapto_lite.Prelude.Bytes.{Memory, read, write, write_above, length-read, read-write, bytes16}
use adapto_lite.NetTopology.{Topology, read_data, topology_new_dgram}
use adapto_lite.NetRaw.{
  Err, frame_len, frame_ethtype, ethtype_adp, sealed, sent_len, checksum, ethernet_send_raw, output,
  err_ok, topology_command, lwip_customproto, checked, is_some, raw_send_bcast,
}
use adapto_lite.NetRaw.Frames.{
  Copies, Copies-get16, Copies-dg_check, frame_bytes, frame_bytes-Copies, frame_bytes_long,
  sealed_other,
}

-- A copy at an offset.
Copies-part :
    (k : Memory) (b : ℕ) (m : Memory) (a size i n : ℕ)
    → Copies k b m a size
    → i + n ≤ size
    → Copies k (b + i) m (a + i) n
unfolding Copies
Copies-part k b m a size i n c h j l =
    let p : b + (i + j) ≡ b + i + j = omega arith in
    let q : a + (i + j) ≡ a + i + j = omega arith in ap k (sym p) ∙ c (i + j) (omega arith) ∙ ap m q

Copies-read :
    (k : Memory) (b : ℕ) (m : Memory) (a n : ℕ) → Copies k b m a n → read k b n ≡ read m a n
unfolding read Copies
Copies-read k b m a zero c = refl
Copies-read k b m a (suc n) c =
    let p : b + 0 ≡ b = omega arith in
    let q : a + 0 ≡ a = omega arith in
    ap₂ ◌∷◌ (ap k (sym p) ∙ c 0 (omega arith) ∙ ap m q) (
      Copies-read k (b + 1) m (a + 1) n
        (λ i l. Copies-part k b m a (suc n) 1 n c (omega arith) i l))

Copies-part-read :
    (k : Memory) (b : ℕ) (m : Memory) (a size i n : ℕ)
    → Copies k b m a size
    → i + n ≤ size
    → read k (b + i) n ≡ read m (a + i) n
Copies-part-read k b m a size i n c h =
    Copies-read k (b + i) m (a + i) n (Copies-part k b m a size i n c h)

Copies-byte :
    (k : Memory) (b : ℕ) (m : Memory) (a size i : ℕ)
    → Copies k b m a size
    → i < size
    → k (b + i) ≡ m (a + i)
unfolding Copies
Copies-byte k b m a size i c h = c i h

-- The device's data is that of its copy.
Copies-read_data :
    (k : Memory) (b : ℕ) (m : Memory) (a : ℕ) → Copies k b m a 40 → read_data k b ≡ read_data m a
unfolding read_data
Copies-read_data k b m a c =
    let p : b + 0 ≡ b = omega arith in
    let q : a + 0 ≡ a = omega arith in
    let byte = λ (i : ℕ) (l : i < 40). Copies-byte k b m a 40 i c l in
    let part = λ (i n : ℕ) (l : i + n ≤ 40). Copies-part-read k b m a 40 i n c l in
    rw
      (
        ap k (sym p) ∙ byte 0 (omega arith) ∙ ap m q,
        byte 1 (omega arith),
        byte 2 (omega arith),
        byte 3 (omega arith),
        part 4 2 (omega arith),
        part 6 6 (omega arith),
        part 12 16 (omega arith),
        byte 28 (omega arith),
        byte 29 (omega arith),
        part 30 4 (omega arith),
        part 34 4 (omega arith),
        byte 38 (omega arith),
        byte 39 (omega arith),
      )
      refl

-- The frame with the broadcast address and the protocol's number.
abbrev pub broadcast : Memory → ℕ → Memory
broadcast m a =
    write (write m a (255 ∷ 255 ∷ 255 ∷ 255 ∷ 255 ∷ 255 ∷ [])) (a + 12)
      (ethtype_adp / 256 ∷ u8 ethtype_adp ∷ [])

broadcast_later : (m : Memory) (a b : ℕ) → a + 14 ≤ b → broadcast m a b ≡ m b
broadcast_later m a b h =
    write_above _ (a + 12) (135 ∷ 119 ∷ []) b (omega (arith, h))
    ∙ write_above m a (255 ∷ 255 ∷ 255 ∷ 255 ∷ 255 ∷ 255 ∷ []) b (omega (arith, h))

broadcast-len : (m : Memory) (a : ℕ) → frame_len (broadcast m a) a ≡ frame_len m a
broadcast-len m a = omega (
  arith,
  broadcast_later m a (a + 16) (omega arith),
  broadcast_later m a (a + 16 + 1) (omega arith),
)

sent_len_min : (n : ℕ) → 62 ≤ sent_len n
unfolding sent_len
sent_len_min n = ground arith

-- A memory that has a copy of the frame at `b`.
module _ (hwaddr : List ℕ) (six : length hwaddr ≡ 6) (m r : Memory) (a b size : ℕ)
    (copy : Copies r b (sealed hwaddr (broadcast m a) a) a size) (long : 62 ≤ size) where
  arrived_same : (b1 : ℕ) → a + 16 ≤ b1 → sealed hwaddr (broadcast m a) a b1 ≡ m b1
  arrived_same b1 h =
      sealed_other hwaddr six (broadcast m a) a b1 (inr (inr h))
      ∙ broadcast_later m a b1 (omega (arith, h))

  arrived_byte : (i : ℕ) → i < 62 → r (b + i) ≡ sealed hwaddr (broadcast m a) a (a + i)
  arrived_byte i l =
      Copies-byte r b (sealed hwaddr (broadcast m a) a) a size i copy (omega (arith, l, long))

  arrived-ethtype : frame_ethtype r b ≡ ethtype_adp
  unfolding write
  arrived-ethtype =
      let f : Memory = broadcast m a in
      let high : r (b + 12) ≡ 135 =
        arrived_byte 12 (omega arith)
        ∙ sealed_other hwaddr six f a (a + 12) (inr (inl (omega arith, omega arith)))
        ∙ ground arith in
      let low : r (b + 13) ≡ 119 =
        arrived_byte 13 (omega arith)
        ∙ sealed_other hwaddr six f a (a + 13) (inr (inl (omega arith, omega arith)))
        ∙ ground arith in
      omega (arith, high, low)

  arrived-len : frame_len r b ≡ frame_len m a
  arrived-len =
      Copies-get16 r b (sealed hwaddr (broadcast m a) a) a size 16 copy (omega (arith, long))
      ∙ omega (arith, arrived_same (a + 16) (omega arith), arrived_same (a + 16 + 1) (omega arith))

  arrived-src : read r (b + 6) 6 ≡ hwaddr
  unfolding sealed
  arrived-src =
      let f : Memory = broadcast m a in
      let g : Memory = write f (a + 14) (bytes16 (checksum f a (frame_len f a))) in
      Copies-part-read r b (sealed hwaddr f a) a size 6 6 copy (omega (arith, long))
      ∙ ap (λ (n : ℕ). read (write g (a + 6) hwaddr) (a + 6) n) (sym six)
      ∙ read-write g (a + 6) hwaddr

  arrived-data : read_data r (b + 20) ≡ read_data m (a + 20)
  unfolding Copies
  arrived-data = Copies-read_data r (b + 20) m (a + 20) (λ i l.
      Copies-part r b (sealed hwaddr (broadcast m a) a) a size 20 40 copy (omega (arith, long)) i l
      ∙ arrived_same (a + 20 + i) (omega arith))

  arrived-command : r (b + 18) ≡ m (a + 18)
  arrived-command = arrived_byte 18 (omega arith) ∙ arrived_same (a + 18) (omega arith)

  arrived-new_dgram :
      (now : ℕ) (t : Topology)
      → frame_len m a ≤ 1482
      → frame_len m a + 18 ≤ size
      → m (a + 18) ≡ 0
      → lwip_customproto now t r (record { next = none; payload = b; len = size }) ≡ record {
        topology = topology_new_dgram now t (read_data m (a + 20)) hwaddr (frame_len m a);
        err = err_ok;
        freed = true;
      }
  unfolding lwip_customproto is_some checked topology_command
  arrived-new_dgram now t small fits cmd =
      rw
        (
          arrived-ethtype,
          Copies-dg_check hwaddr six (broadcast m a) r a b size copy
              (omega (arith, broadcast-len m a, fits)),
          arrived-command,
          cmd,
          arrived-data,
          arrived-src,
          arrived-len,
        )
        refl

-- A frame of at most 1482 bytes of payload with the command 0 that a device broadcasts is, at
-- any device that stores the bytes, handled as `topology_new_dgram` of the data that the sender
-- put into the frame, with the sender's address and the frame's length, and it is accepted and
-- freed.
pub raw_send_bcast-lwip_customproto {ℓ} :
    {S : Type ℓ} (link : List ℕ → S → Err × S) (s : S) (hwaddr : List ℕ) (m k : Memory)
    (a b now : ℕ) (t : Topology)
    → length hwaddr ≡ 6
    → frame_len m a ≤ 1482
    → m (a + 18) ≡ 0
    → ((raw_send_bcast (some link) hwaddr m a s).1
        ≡ (link (frame_bytes hwaddr (broadcast m a) a) s).1)
      × (lwip_customproto now t (write k b (frame_bytes hwaddr (broadcast m a) a)) (record {
        next = none;
        payload = b;
        len = length (frame_bytes hwaddr (broadcast m a) a);
      })
          ≡ record {
            topology = topology_new_dgram now t (read_data m (a + 20)) hwaddr (frame_len m a);
            err = err_ok;
            freed = true;
          })
unfolding raw_send_bcast ethernet_send_raw output
raw_send_bcast-lwip_customproto link s hwaddr m k a b now t six small cmd =
    let f : Memory = broadcast m a in
    let long = frame_bytes_long hwaddr f a (omega (arith, broadcast-len m a, small)) in
    let size = length-read (sealed hwaddr f a) a (sent_len (frame_len f a)) in
    (
      refl,
      arrived-new_dgram hwaddr six m (write k b (frame_bytes hwaddr f a)) a b
          (length (frame_bytes hwaddr f a)) (frame_bytes-Copies hwaddr f k a b)
          (omega (arith, size, sent_len_min (frame_len f a))) now t small
          (omega (arith, long, broadcast-len m a)) cmd,
    )
