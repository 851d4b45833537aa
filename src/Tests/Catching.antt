-- ===== src/Tests/Catching.antt =====
-- A frame of one packet, from the sender to the end of the receiver's main.
use mathlib.Core.List.{Mem}
use hv_frame_test.Base.{
  ℕ, ◌+◌, ◌*◌, ◌<◌, ◌≡◌, sym, subst, ◌⊎◌, inl, refl, List, [], ◌∷◌, All, Among, arith, get_or,
  inc32,
}
use hv_frame_test.Protocol.{RxPacket}
use hv_frame_test.Protocol.Bytes.{encode_packet_header}
use hv_frame_test.Writer.{FileWrite}
use hv_frame_test.Sender.{send_frame, datagram, packet_header, packet_size}
use hv_frame_test.Receiver.Rx.{rx_datagram, queued, received}
use hv_frame_test.Receiver.Fits.{IsBytes}
use hv_frame_test.System.Channel.{accepted_in, fed_in}
use hv_frame_test.Delivery.Part.{rx_datagram-datagram}
use hv_frame_test.Delivery.EndToEnd.{received_queued}
use hv_frame_test.Delivery.Caught.{caught_lem}
use hv_frame_test.Tests.Data.{opens_all}
use hv_frame_test.Tests.Sending.{sender, attempts}
use hv_frame_test.Tests.Passing.{
  ended, whole_trace, whole_trace-accepted, whole_trace-fed, Reach-ended,
}

abbrev small : List ℕ
small = 5 ∷ 6 ∷ 7 ∷ 8 ∷ 5 ∷ 6 ∷ 7 ∷ 8 ∷ 5 ∷ 6 ∷ 7 ∷ 8 ∷ 5 ∷ 6 ∷ 7 ∷ 8 ∷ []

abbrev d : List ℕ
d = datagram small 42 1 0

d-IsBytes : IsBytes d
unfolding datagram packet_header packet_size encode_packet_header
d-IsBytes = ground arith

d_sent : All (λ c. Among c (send_frame sender small attempts).1.datagrams) (d ∷ [])
unfolding send_frame
d_sent = (inl refl, tt)

arrival : (x : RxPacket) × (rx_datagram d ≡ queued x) × (received (d ∷ []) ≡ x ∷ [])
unfolding received
arrival =
    let r =
      rx_datagram-datagram small 42 1 0 (omega arith) (omega arith) (omega arith) (omega arith) in
    (r.0, r.1, received_queued d [] r.0 r.1)

abbrev x : RxPacket
x = arrival.0

x_received : Among x (received (d ∷ []))
x_received = subst (λ l. Among x l) (sym arrival.2) (inl refl)

fed_received :
    All
      (λ y. y.hdr.frame_id ≡ inc32 sender.frame_id → Among y (received (d ∷ [])))
      (fed_in (whole_trace x))
fed_received =
    subst (λ l. All (λ y. y.hdr.frame_id ≡ inc32 sender.frame_id → Among y (received (d ∷ []))) l)
      (sym (whole_trace-fed x)) (λ e. x_received, tt)

x_accepted : Among x (accepted_in (whole_trace x))
x_accepted = subst (λ l. Among x l) (sym (whole_trace-accepted x)) (inl refl)

caught_lem_example :
    ((ended x).queue.q ≡ x ∷ [])
    ⊎ ((f : FileWrite) × Mem f (ended x).writes
        × ((f.name ≡ "received_full_frame.bin") ⊎ (f.name ≡ "received_partial_frame.bin"))
        × ((i : ℕ)
            → i < x.hdr.payload_size
            → get_or f.bytes (x.hdr.packet_id * 1400 + i) 0
              ≡ get_or small (x.hdr.packet_id * 1400 + i) 0))
caught_lem_example =
    caught_lem opens_all sender small attempts (d ∷ []) x (omega arith) (omega arith) (omega arith)
      d_sent (Reach-ended d x d-IsBytes arrival.1) refl fed_received x_received x_accepted
      (λ name. refl)
