-- ===== src/Sender.antt =====
-- src/sender: the encoder, the socket's readiness, and the loop that sends a frame in packets.
pub mod Loop
pub mod Payload
pub mod Failure
pub mod Main
pub mod Socket
use hv_frame_test.Base.{
  ℕ, ◌/◌, ◌%◌, min, Bool, true, false, Option, none, some, List, [], ◌∷◌, ◌++◌, ltb, if◌then◌else◌,
  length, take, drop, u16_mod, u32_mod, inc16, dec16, inc32, add_size, mul_size, sub_size,
}
use hv_frame_test.Protocol.{
  UdpPacketHeader, FrameHeader, frame_magic, protocol_version, max_udp_payload,
}
use hv_frame_test.Protocol.Bytes.{encode_packet_header, encode_frame_header}

-- CcsdsStubEncoder::encode. raw.size() is cut to the 32 bits of frame_size.
pub frame_header : List ℕ → ℕ → ℕ → ℕ → FrameHeader
frame_header raw width height bitdepth = record {
  magic = frame_magic;
  version = protocol_version;
  width = width;
  height = height;
  bitdepth = bitdepth;
  reserved = 0;
  frame_size = length raw % u32_mod;
}

unfoldable pub encode : List ℕ → ℕ → ℕ → ℕ → List ℕ
unfolding frame_header
encode raw width height bitdepth =
    encode_frame_header (frame_header raw width height bitdepth) ++ raw

-- What one call of poll says of the socket.
pub data PollReply : Type 0 where
  interrupted poll_failed writable not_writable : PollReply

-- UdpSender::waitWritable over the replies of poll, one after another; `none` while it still waits.
unfoldable pub wait_writable : List PollReply → Option Bool
wait_writable [] = none
wait_writable (interrupted ∷ ps) = wait_writable ps
wait_writable (poll_failed ∷ ps) = some false
wait_writable (writable ∷ ps) = some true
wait_writable (not_writable ∷ ps) = wait_writable ps

-- What sendto says: EAGAIN and EWOULDBLOCK, or another error.
pub data SendReply : Type 0 where
  sent would_block send_failed : SendReply

-- What the socket does in one round of the loop.
pub record Attempt : Type 0 where
  pub polls : List PollReply
  pub reply : SendReply

-- Whether the loop ran to its end, broke off, or has not got an answer yet.
pub data Status : Type 0 where
  finished broken_off waiting : Status

-- The datagrams that went out, in order.
pub record Sent : Type 0 where
  pub datagrams : List (List ℕ)
  pub status : Status

-- uint16_t packet_count = (frame.size() + max_payload - 1) / max_payload.
pub packet_count_of : List ℕ → ℕ
packet_count_of frame =
    sub_size (add_size (length frame) max_udp_payload) 1 / max_udp_payload % u16_mod

-- The header and the bytes of packet `pid`.
unfoldable pub packet_size : List ℕ → ℕ → ℕ
packet_size frame pid = min max_udp_payload (sub_size (length frame) (mul_size pid max_udp_payload))

unfoldable pub packet_header : List ℕ → ℕ → ℕ → ℕ → UdpPacketHeader
unfolding packet_size
packet_header frame frame_id count pid = record {
  frame_id = frame_id;
  packet_id = pid;
  packet_count = count;
  payload_size = packet_size frame pid % u32_mod;
}

-- What sendto is given: sizeof(hdr) + size bytes of the buffer.
unfoldable pub datagram : List ℕ → ℕ → ℕ → ℕ → List ℕ
unfolding packet_header packet_size
datagram frame frame_id count pid =
    encode_packet_header (packet_header frame frame_id count pid)
    ++ take (packet_size frame pid) (drop (mul_size pid max_udp_payload) frame)

-- The loop of sendFrame from packet `pid` on. A packet that would block is tried again: pid-- in
-- the body and pid++ of the for.
pub send_loop : List ℕ → ℕ → ℕ → ℕ → List Attempt → Sent
unfolding datagram wait_writable
send_loop frame frame_id count pid [] = record {
  datagrams = [];
  status = if ltb pid count then waiting else finished;
}
send_loop frame frame_id count pid (a ∷ as_) = elim (ltb pid count) [
  | false ↦ record { datagrams = []; status = finished }
  | true ↦ elim (wait_writable a.polls) [
    | none ↦ record { datagrams = []; status = waiting }
    | some false ↦ record { datagrams = []; status = broken_off }
    | some true ↦ elim a.reply [
      | sent ↦
          let rest = send_loop frame frame_id count (inc16 pid) as_ in
          record rest { datagrams = datagram frame frame_id count pid ∷ rest.datagrams }
      | would_block ↦ send_loop frame frame_id count (inc16 (dec16 pid)) as_
      | send_failed ↦ record { datagrams = []; status = broken_off }
    ]
  ]
]

-- The member of UdpSender that sendFrame changes; Sender.Socket has the others.
pub record UdpSender : Type 0 where
  pub frame_id : ℕ

unfoldable pub send_frame : UdpSender → List ℕ → List Attempt → UdpSender × Sent
unfolding send_loop packet_count_of
send_frame s frame attempts =
    let id = inc32 s.frame_id in
    (record { frame_id = id }, send_loop frame id (packet_count_of frame) 0 attempts)
