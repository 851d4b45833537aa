-- ===== src/Receiver/Bounds.antt =====
-- Which datagrams udp_rx_thread copies safely, and what it makes of them.
use hv_frame_test.Base.{
  ℕ, ◌+◌, ◌≤◌, ◌<◌, ◌≡◌, ◌≢◌, refl, ◌∙◌, ap, false, List, ◌++◌, arith, length, take, drop, copy_at,
  get_or, lt→ltb, le→ltb, length-take, length-append, take_all, length-replicate, length-copy_at,
  copy_at_inside, get_or_ext, get_or-take,
}
use hv_frame_test.Protocol.{UdpPacketHeader, RxPacket}
use hv_frame_test.Protocol.Bytes.{
  decode_packet_header, encode_packet_header, length-encode_packet_header,
  decode-encode_packet_header,
}
use hv_frame_test.Reassembler.Inv.{HeaderFits}
use hv_frame_test.Receiver.Rx.{
  queued, overrun, rx_datagram, check_packet, copy_payload, fresh_payload,
}

check_packet_safe :
    (h : UdpPacketHeader) (buf : List ℕ) → length buf ≤ 1512 → check_packet h buf ≢ overrun
unfolding check_packet copy_payload
check_packet_safe h buf le = ground arith

-- Of a datagram of at most 1512 bytes nothing is copied past the packet's end, whatever its header
-- says.
pub rx_datagram_safe : (bytes : List ℕ) → length bytes ≤ 1512 → rx_datagram bytes ≢ overrun
rx_datagram_safe bytes h =
    unfold rx_datagram in
    check_packet_safe (decode_packet_header (take 2048 bytes)) (take 2048 bytes)
      (omega (arith, length-take 2048 bytes))

take-encode :
    (h : UdpPacketHeader) (p : List ℕ)
    → take 2048 (encode_packet_header h ++ p) ≡ encode_packet_header h ++ take 2036 p
unfolding encode_packet_header
take-encode h p = refl

drop-encode : (h : UdpPacketHeader) (p : List ℕ) → drop 12 (encode_packet_header h ++ p) ≡ p
unfolding encode_packet_header
drop-encode h p = refl

-- A header is read back as it was sent; only the payload is cut.
rx_datagram-encode :
    (h : UdpPacketHeader) (p : List ℕ)
    → HeaderFits h
    → rx_datagram (encode_packet_header h ++ p)
      ≡ check_packet h (encode_packet_header h ++ take 2036 p)
rx_datagram-encode h p f =
    unfold rx_datagram in
    rw take-encode (
      ap (λ x. check_packet x (encode_packet_header h ++ take 2036 p))
        (decode-encode_packet_header h (take 2036 p) f.frame_id_fits f.packet_id_fits
          f.packet_count_fits f.payload_size_fits))

length-encoded :
    (h : UdpPacketHeader) (p : List ℕ) → length (encode_packet_header h ++ p) ≡ 12 + length p
length-encoded h p =
    omega (arith, length-append (encode_packet_header h) p, length-encode_packet_header h)

check_packet_copies :
    (h : UdpPacketHeader) (p : List ℕ)
    → 0 < length p
    → h.payload_size ≤ length p
    → check_packet h (encode_packet_header h ++ p) ≡ copy_payload h p
unfolding check_packet
check_packet_copies h p some_bytes there = ground (arith, length-encoded h p, drop-encode h p)

-- A datagram can run past the packet's end: the test compares the payload's size with what has come
-- in, and not with the array's 1500 bytes, so every payload of 1501 to 2036 bytes that is there is
-- copied past the end.
pub rx_datagram_overruns :
    (h : UdpPacketHeader) (p : List ℕ)
    → HeaderFits h
    → 1500 < h.payload_size
    → h.payload_size ≤ 2036
    → h.payload_size ≤ length p
    → rx_datagram (encode_packet_header h ++ p) ≡ overrun
rx_datagram_overruns h p f big fits there =
    rx_datagram-encode h p f
    ∙ check_packet_copies h (take 2036 p) (omega (arith, length-take 2036 p))
        (omega (arith, length-take 2036 p))
    ∙ unfold copy_payload in rw (lt→ltb 1500 h.payload_size big) refl

length-fresh_payload : length fresh_payload ≡ 1500
unfolding fresh_payload
length-fresh_payload = length-replicate {A = ℕ} 1500 0

copied_bytes :
    (array p : List ℕ) (n i : ℕ)
    → n ≤ length array
    → i < n
    → n ≤ length p
    → get_or (copy_at array 0 (take n p)) i 0 ≡ get_or p i 0
copied_bytes array p n i room lt there =
    ap (λ k. get_or (copy_at array 0 (take n p)) k 0) (zero-add i)
    ∙ copy_at_inside array 0 (take n p) i (omega arith) (omega (arith, length-take n p))
    ∙ get_or-take n p i 0 lt
  where
    zero-add : (k : ℕ) → k ≡ 0 + k
    zero-add k = omega arith

-- The packet that a datagram becomes, byte for byte.
pub rx_datagram_bytes :
    (h : UdpPacketHeader) (p : List ℕ)
    → HeaderFits h
    → 0 < length p
    → h.payload_size ≡ length p
    → length p ≤ 1500
    → (x : RxPacket) × (rx_datagram (encode_packet_header h ++ p) ≡ queued x)
      × (x.hdr ≡ h)
      × (length x.payload ≡ 1500)
      × ((i : ℕ) → i < h.payload_size → get_or x.payload i 0 ≡ get_or p i 0)
rx_datagram_bytes h p f some_bytes size short = (
  packet,
  rx_datagram-encode h p f
      ∙ ap (λ q. check_packet h (encode_packet_header h ++ q)) (take_all 2036 p (omega arith))
      ∙ check_packet_copies h p some_bytes (omega arith)
      ∙ copied,
  refl,
  length-copy_at fresh_payload 0 (take h.payload_size p) ∙ length-fresh_payload,
  bytes,
)
  where
    packet : RxPacket
    packet = record {
      hdr = h;
      payload = copy_at fresh_payload 0 (take h.payload_size p);
      gap_before = false;
    }

    copied : copy_payload h p ≡ queued packet
    copied = unfold copy_payload in rw (le→ltb 1500 h.payload_size (omega arith)) refl

    bytes : (i : ℕ) → i < h.payload_size → get_or packet.payload i 0 ≡ get_or p i 0
    bytes i lt =
        copied_bytes fresh_payload p h.payload_size i (omega (arith, length-fresh_payload)) lt
          (omega arith)

-- A datagram whose header tells its payload's size, of 1 to 1500 bytes, becomes a packet with that
-- header and with those bytes at the start of its array of 1500.
pub rx_datagram_lem :
    (h : UdpPacketHeader) (p : List ℕ)
    → HeaderFits h
    → 0 < length p
    → h.payload_size ≡ length p
    → length p ≤ 1500
    → (x : RxPacket) × (rx_datagram (encode_packet_header h ++ p) ≡ queued x)
      × (x.hdr ≡ h)
      × (length x.payload ≡ 1500)
      × (take h.payload_size x.payload ≡ p)
rx_datagram_lem h p f some_bytes size short =
    let (x, q, same, long, bytes) = rx_datagram_bytes h p f some_bytes size short in
    (
      x,
      q,
      same,
      long,
      get_or_ext (take h.payload_size x.payload) p 0
          (omega (arith, length-take h.payload_size x.payload))
          (λ i lt.
            let lt' : i < h.payload_size = omega (arith, length-take h.payload_size x.payload) in
            get_or-take h.payload_size x.payload i 0 lt' ∙ bytes i lt'),
    )
