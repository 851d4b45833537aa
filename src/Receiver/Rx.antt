-- ===== src/Receiver/Rx.antt =====
-- udp_rx_thread: what becomes of one datagram.
use hv_frame_test.Base.{
  ℕ, ◌-◌, false, List, [], ◌∷◌, ltb, leb, if◌then◌else◌, length, take, drop, replicate, copy_at,
}
use hv_frame_test.Protocol.{UdpPacketHeader, RxPacket, sizeof_packet_header, rx_payload_capacity}
use hv_frame_test.Protocol.Bytes.{decode_packet_header}

-- uint8_t buf[2048]: recvfrom cuts off what a datagram has beyond it.
abbrev rx_buffer_size : ℕ
rx_buffer_size = 2048

-- The datagram is ignored, a packet goes to the queue, or the copy runs past the end of
-- RxPacket::payload, after which nothing is known.
pub data RxOutcome : Type 0 where
  ignored : RxOutcome
  queued : RxPacket → RxOutcome
  overrun : RxOutcome

-- make_unique fills the packet with zeros.
unfoldable pub fresh_payload : List ℕ
fresh_payload = replicate rx_payload_capacity 0

-- The second memcpy.
unfoldable pub copy_payload : UdpPacketHeader → List ℕ → RxOutcome
copy_payload hdr bytes =
    if ltb rx_payload_capacity hdr.payload_size
    then overrun
    else queued (record {
      hdr = hdr;
      payload = copy_at fresh_payload 0 (take hdr.payload_size bytes);
      gap_before = false;
    })

-- What is done with the `len` bytes that recvfrom has put into buf, whose header is `hdr`.
unfoldable pub check_packet : UdpPacketHeader → List ℕ → RxOutcome
unfolding copy_payload
check_packet hdr buf =
    if leb (length buf) sizeof_packet_header
    then ignored
    else if ltb (length buf - sizeof_packet_header) hdr.payload_size
    then ignored
    else copy_payload hdr (drop sizeof_packet_header buf)

unfoldable pub rx_datagram : List ℕ → RxOutcome
unfolding check_packet
rx_datagram bytes =
    let buf = take rx_buffer_size bytes in check_packet (decode_packet_header buf) buf

-- The packets that udp_rx_thread puts into the queue, for the datagrams that come in.
abbrev pub queue_packet : RxOutcome → List RxPacket → List RxPacket
queue_packet ignored xs = xs
queue_packet (queued x) xs = x ∷ xs
queue_packet overrun xs = xs

unfoldable pub received : List (List ℕ) → List RxPacket
received [] = []
received (d ∷ ds) = queue_packet (rx_datagram d) (received ds)
