-- ===== src/Receiver/Fits.antt =====
-- The header fields of the packets that udp_rx_thread hands over.
use hv_frame_test.Base.{
  ◌≡◌, ◌-◌, ℕ, zero, suc, ◌<◌, sym, List, [], ◌∷◌, ◌++◌, All, arith, get_or, take, length, ltb, leb,
  Bool-cases, inl, inr, subst,
}
use hv_frame_test.Protocol.{UdpPacketHeader, RxPacket}
use hv_frame_test.Protocol.Bytes.{decode_packet_header}
use hv_frame_test.Reassembler.Inv.{HeaderFits}
use hv_frame_test.PacketQueue.{World}
use hv_frame_test.Receiver.Rx.{
  RxOutcome, ignored, queued, overrun, rx_datagram, check_packet, copy_payload, queue_packet,
  received,
}
use hv_frame_test.Receiver.Loop.{RxRound, rx_loop, IsShort, rx_loop_lem, datagrams_of}

-- A list of bytes.
abbrev pub IsBytes : List ℕ → Type 0
IsBytes b = All (λ x. x < 256) b

byte_at : (b : List ℕ) (i : ℕ) → IsBytes b → get_or b i 0 < 256
byte_at [] i a = omega arith
byte_at (x ∷ b) zero a = a.0
byte_at (x ∷ b) (suc i) a = byte_at b i a.1

take-IsBytes : (n : ℕ) (b : List ℕ) → IsBytes b → IsBytes (take n b)
take-IsBytes zero b a = tt
take-IsBytes (suc n) [] a = tt
take-IsBytes (suc n) (x ∷ b) a = (a.0, take-IsBytes n b a.1)

decode_packet_header-HeaderFits : (b : List ℕ) → IsBytes b → HeaderFits (decode_packet_header b)
unfolding decode_packet_header
decode_packet_header-HeaderFits b a = record {
  frame_id_fits = omega (arith, byte_at b 0 a, byte_at b 1 a, byte_at b 2 a, byte_at b 3 a);
  packet_id_fits = omega (arith, byte_at b 4 a, byte_at b 5 a);
  packet_count_fits = omega (arith, byte_at b 6 a, byte_at b 7 a);
  payload_size_fits = omega (arith, byte_at b 8 a, byte_at b 9 a, byte_at b 10 a, byte_at b 11 a);
}

abbrev OutcomeFits : RxOutcome → Type 0
OutcomeFits ignored = Unit
OutcomeFits (queued x) = HeaderFits x.hdr
OutcomeFits overrun = Unit

check_packet-OutcomeFits :
    (h : UdpPacketHeader) (buf : List ℕ) → HeaderFits h → OutcomeFits (check_packet h buf)
unfolding check_packet copy_payload
check_packet-OutcomeFits h buf f = elim (Bool-cases (leb (length buf) 12)) [
  | inl a ↦ rw a tt
  | inr a ↦ elim (Bool-cases (ltb (length buf - 12) h.payload_size)) [
    | inl b ↦ rw (a, b) tt
    | inr b ↦ elim (Bool-cases (ltb 1500 h.payload_size)) [
      | inl c ↦ rw (a, b, c) tt
      | inr c ↦ rw (a, b, c) f
    ]
  ]
]

rx_datagram-OutcomeFits : (d : List ℕ) → IsBytes d → OutcomeFits (rx_datagram d)
unfolding rx_datagram
rx_datagram-OutcomeFits d a =
    check_packet-OutcomeFits (decode_packet_header (take 2048 d)) (take 2048 d)
      (decode_packet_header-HeaderFits (take 2048 d) (take-IsBytes 2048 d a))

-- A packet that a datagram of bytes becomes has a header that fits.
pub rx_datagram-HeaderFits :
    (d : List ℕ) (x : RxPacket) → IsBytes d → rx_datagram d ≡ queued x → HeaderFits x.hdr
rx_datagram-HeaderFits d x a e = subst OutcomeFits e (rx_datagram-OutcomeFits d a)

queue_packet-fits :
    (o : RxOutcome) (xs : List RxPacket)
    → OutcomeFits o
    → All (λ x. HeaderFits x.hdr) xs
    → All (λ x. HeaderFits x.hdr) (queue_packet o xs)
queue_packet-fits ignored xs f a = a
queue_packet-fits (queued x) xs f a = (f, a)
queue_packet-fits overrun xs f a = a

received-fits : (ds : List (List ℕ)) → All IsBytes ds → All (λ x. HeaderFits x.hdr) (received ds)
unfolding received
received-fits [] a = tt
received-fits (d ∷ ds) a =
    queue_packet-fits (rx_datagram d) (received ds) (rx_datagram-OutcomeFits d a.0)
      (received-fits ds a.1)

All-prefix :
    (xs ys : List RxPacket)
    → All (λ x. HeaderFits x.hdr) (xs ++ ys)
    → All (λ x. HeaderFits x.hdr) xs
All-prefix [] ys a = tt
All-prefix (x ∷ xs) ys a = (a.0, All-prefix xs ys a.1)

-- The packets that udp_rx_thread hands over, of datagrams of at most 1512 bytes, have header fields
-- that fit, as the worker's theorems ask for.
rx_loop-HeaderFits :
    (w : World RxPacket) (rounds : List RxRound)
    → All IsShort rounds
    → All IsBytes (datagrams_of rounds)
    → All (λ x. HeaderFits x.hdr) (rx_loop w rounds).pushed
rx_loop-HeaderFits w rounds short bytes =
    let f = rx_loop_lem w rounds short in
    All-prefix (rx_loop w rounds).pushed f.later (
      subst (λ l. All (λ x. HeaderFits x.hdr) l) (sym f.in_order)
        (received-fits (datagrams_of rounds) bytes))
