-- ===== src/Protocol.antt =====
-- include/protocol: the packet and frame headers, and the packets that the threads pass on.
pub mod Bytes
use hv_frame_test.Base.{ℕ, Bool, List}

-- MAX_UDP_PAYLOAD: how many bytes of a frame one packet carries at most.
abbrev pub max_udp_payload : ℕ
max_udp_payload = 1400

-- FRAME_MAGIC and PROTOCOL_VERSION.
abbrev pub frame_magic : ℕ
frame_magic = 0xCC1210B2

abbrev pub protocol_version : ℕ
protocol_version = 1

-- struct UdpPacketHeader, packed: 4 + 2 + 2 + 4 bytes.
pub record UdpPacketHeader : Type 0 where
  pub frame_id : ℕ
  pub packet_id : ℕ
  pub packet_count : ℕ
  pub payload_size : ℕ

abbrev pub sizeof_packet_header : ℕ
sizeof_packet_header = 12

-- struct RxPacket. `payload` holds the bytes of the array.
pub record RxPacket : Type 0 where
  pub hdr : UdpPacketHeader
  pub payload : List ℕ
  pub gap_before : Bool

-- The array's size in RxPacket.
abbrev pub rx_payload_capacity : ℕ
rx_payload_capacity = 1500

-- struct FrameHeader, packed: 4 + 2 + 2 + 2 + 1 + 1 + 4 bytes.
pub record FrameHeader : Type 0 where
  pub magic : ℕ
  pub version : ℕ
  pub width : ℕ
  pub height : ℕ
  pub bitdepth : ℕ
  pub reserved : ℕ
  pub frame_size : ℕ

abbrev pub sizeof_frame_header : ℕ
sizeof_frame_header = 16
