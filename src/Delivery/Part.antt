-- ===== src/Delivery/Part.antt =====
-- One datagram of the sender, as the receiver's thread takes it in.
use hv_frame_test.Base.{
  ℕ, ◌+◌, ◌-◌, ◌*◌, ◌≤◌, ◌<◌, min, ◌≡◌, refl, ◌∙◌, sym, ap, List, arith, length, get_or, take, drop,
  length-take, length-drop, get_or-take, get_or-drop, u16_mod, u32_mod, mul_size,
}
use hv_frame_test.Protocol.{UdpPacketHeader, RxPacket}
use hv_frame_test.Reassembler.Inv.{HeaderFits}
use hv_frame_test.Sender.{packet_size, packet_header, datagram}
use hv_frame_test.Sender.Payload.{packet_size_lem}
use hv_frame_test.Receiver.Rx.{rx_datagram, queued}
use hv_frame_test.Receiver.Bounds.{rx_datagram_bytes}
use hv_frame_test.Delivery.Assembly.{packets_of, IsPart}

module _ (frame : List ℕ) (id count pid : ℕ) (countable : length frame ≤ 65535 * 1400)
    (lt : pid < packets_of frame) (id_fits : id < u32_mod) (count_fits : count < u16_mod) where
  payload : List ℕ
  payload = take (packet_size frame pid) (drop (mul_size pid 1400) frame)

  size_lem : packet_size frame pid ≡ min 1400 (length frame - pid * 1400)
  size_lem = packet_size_lem frame pid countable (omega arith)

  start_lem : mul_size pid 1400 ≡ pid * 1400
  start_lem = omega arith

  length-payload : length payload ≡ packet_size frame pid
  unfolding payload
  length-payload = omega (
    arith,
    size_lem,
    length-take (packet_size frame pid) (drop (mul_size pid 1400) frame),
    length-drop (mul_size pid 1400) frame,
  )

  header_fits : HeaderFits (packet_header frame id count pid)
  unfolding packet_header
  header_fits = omega (arith, size_lem)

  payload_bytes :
      (i : ℕ) → i < packet_size frame pid → get_or payload i 0 ≡ get_or frame (pid * 1400 + i) 0
  unfolding payload
  payload_bytes i h =
      get_or-take (packet_size frame pid) (drop (mul_size pid 1400) frame) i 0 h
      ∙ get_or-drop (mul_size pid 1400) frame i 0
      ∙ ap (λ s. get_or frame (s + i) 0) start_lem

  header_size : (packet_header frame id count pid).payload_size ≡ packet_size frame pid
  unfolding packet_header
  header_size = omega (arith, size_lem)

  header_pid : (packet_header frame id count pid).packet_id ≡ pid
  unfolding packet_header
  header_pid = refl

  IsPart-of :
      (x : RxPacket)
      → x.hdr ≡ packet_header frame id count pid
      → length x.payload ≡ 1500
      → ((i : ℕ)
          → i < (packet_header frame id count pid).payload_size
          → get_or x.payload i 0 ≡ get_or payload i 0)
      → IsPart frame x
  IsPart-of x e long bytes = record {
    fits = rw e header_fits;
    in_range = omega (arith, own_pid);
    size = omega (arith, own_size, size_lem, ap (λ t. t * 1400) own_pid);
    present = omega (arith, own_size, size_lem);
    bytes = λ i h.
        bytes i (omega (arith, own_size, header_size))
        ∙ payload_bytes i (omega (arith, own_size))
        ∙ ap (λ t. get_or frame (t * 1400 + i) 0) (sym own_pid);
  }
    where
      own_pid : x.hdr.packet_id ≡ pid
      own_pid = ap (λ (t : UdpPacketHeader). t.packet_id) e ∙ header_pid

      own_size : x.hdr.payload_size ≡ packet_size frame pid
      own_size = ap (λ (t : UdpPacketHeader). t.payload_size) e ∙ header_size

  taken_as :
      (x : RxPacket) × (rx_datagram (datagram frame id count pid) ≡ queued x)
      × (x.hdr ≡ packet_header frame id count pid)
      × (length x.payload ≡ 1500)
      × ((i : ℕ)
          → i < (packet_header frame id count pid).payload_size
          → get_or x.payload i 0 ≡ get_or payload i 0)
  unfolding datagram payload
  taken_as =
      rx_datagram_bytes (packet_header frame id count pid) payload header_fits
        (omega (arith, size_lem, length-payload)) (omega (arith, header_size, length-payload))
        (omega (arith, size_lem, length-payload))

  -- Each datagram of a frame arrives as the packet that carries its part.
  pub rx_datagram-datagram :
      (x : RxPacket) × (rx_datagram (datagram frame id count pid) ≡ queued x)
      × IsPart frame x
      × (x.hdr.packet_id ≡ pid)
  rx_datagram-datagram = (
    taken_as.0,
    taken_as.1,
    IsPart-of taken_as.0 taken_as.2 taken_as.3 taken_as.4,
    ap (λ (t : UdpPacketHeader). t.packet_id) taken_as.2 ∙ header_pid,
  )

  pub rx_datagram-numbers :
      (x : RxPacket) × (rx_datagram (datagram frame id count pid) ≡ queued x)
      × (x.hdr.frame_id ≡ id)
      × (x.hdr.packet_count ≡ count)
  unfolding packet_header
  rx_datagram-numbers = (
    taken_as.0,
    taken_as.1,
    ap (λ (t : UdpPacketHeader). t.frame_id) taken_as.2,
    ap (λ (t : UdpPacketHeader). t.packet_count) taken_as.2,
  )
