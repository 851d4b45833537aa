-- ===== src/Reassembler.antt =====
-- src/common/frame_reassembler_v2.cpp and its header: one frame, put together in a fixed buffer from
-- packets that may come in any order, twice, or not at all.
pub mod Inv
pub mod Effect
pub mod Status
pub mod Order
pub mod Sequence
pub mod Arrived
pub mod Carry
use hv_frame_test.Base.{
  ℕ, ◌+◌, ◌*◌, ◌%◌, max, Bool, true, false, not, ◌&&◌, ◌||◌, List, [], ltb, leb, ◌==◌,
  if◌then◌else◌, get_or, set, take, replicate, copy_at, inc16, add_size, mul_size,
}
use hv_frame_test.Protocol.{UdpPacketHeader}
use hv_frame_test.FrameResult.{FrameState, FrameResult}

-- The two vector<bool> and the buffer are lists.
pub record FrameReassemblerV2 : Type 0 where
  pub frame_size : ℕ
  pub max_frame_size : ℕ
  pub payload_stride : ℕ
  pub current_frame_id : ℕ
  pub expected_packet_count : ℕ
  pub received_packets_count : ℕ
  pub frame_buffer : List ℕ
  pub packet_received : List Bool
  packet_corrupted : List Bool
  pub corrupted_detected : Bool

-- The constructor. resize fills the buffer with zeros.
unfoldable pub init : ℕ → ℕ → FrameReassemblerV2
init max_frame_size payload_stride = record {
  frame_size = 0;
  max_frame_size = max_frame_size;
  payload_stride = payload_stride;
  current_frame_id = 0;
  expected_packet_count = 0;
  received_packets_count = 0;
  frame_buffer = replicate max_frame_size 0;
  packet_received = [];
  packet_corrupted = [];
  corrupted_detected = false;
}

unfoldable pub start_new_frame : FrameReassemblerV2 → ℕ → ℕ → FrameReassemblerV2
start_new_frame r frame_id packet_count = record r {
  current_frame_id = frame_id;
  expected_packet_count = packet_count;
  received_packets_count = 0;
  corrupted_detected = false;
  frame_size = 0;
  packet_received = replicate packet_count false;
  packet_corrupted = replicate packet_count false;
}

-- size_t offset = pid * payload_stride_.
abbrev pub offset_of : FrameReassemblerV2 → ℕ → ℕ
offset_of r pid = mul_size pid r.payload_stride

-- What pushPacket does once the packet has passed its three tests. memcpy takes `payload_size`
-- bytes from `payload`; the list holds the memory behind the pointer.
unfoldable pub store : FrameReassemblerV2 → UdpPacketHeader → List ℕ → FrameReassemblerV2
store r hdr payload = record r {
  frame_buffer = copy_at r.frame_buffer (offset_of r hdr.packet_id) (take hdr.payload_size payload);
  packet_received = set r.packet_received hdr.packet_id true;
  received_packets_count = inc16 r.received_packets_count;
  frame_size = max r.frame_size (add_size (offset_of r hdr.packet_id) hdr.payload_size);
}

-- A packet out of range, a duplicate, and one that would pass the buffer's end change nothing.
-- `gap_detected` is not used.
unfoldable pub push_packet :
    FrameReassemblerV2 → UdpPacketHeader → List ℕ → Bool → FrameReassemblerV2
push_packet r hdr payload gap_detected =
    if leb r.expected_packet_count hdr.packet_id
    then r
    else if get_or r.packet_received hdr.packet_id false
    then r
    else if ltb r.max_frame_size (add_size (offset_of r hdr.packet_id) hdr.payload_size)
    then r
    else store r hdr payload

unfoldable pub has_any_packet : FrameReassemblerV2 → Bool
has_any_packet r = ltb 0 r.received_packets_count

unfoldable pub is_frame_complete : FrameReassemblerV2 → Bool
is_frame_complete r =
    r.received_packets_count == r.expected_packet_count && not r.corrupted_detected

unfoldable pub has_gap : FrameReassemblerV2 → Bool
has_gap r = ltb r.received_packets_count r.expected_packet_count

pub has_corruption : FrameReassemblerV2 → Bool
has_corruption r = r.corrupted_detected

unfoldable pub has_packet : FrameReassemblerV2 → ℕ → Bool
has_packet r packet_id =
    if leb r.expected_packet_count packet_id
    then false
    else get_or r.packet_received packet_id false

unfoldable has_partial_frame : FrameReassemblerV2 → Bool
has_partial_frame r = ltb 0 r.received_packets_count

abbrev pub get_frame_data : FrameReassemblerV2 → List ℕ
get_frame_data r = r.frame_buffer

abbrev pub get_frame_size : FrameReassemblerV2 → ℕ
get_frame_size r = r.frame_size

-- reset keeps the frame's id, its size and the buffer.
pub reset : FrameReassemblerV2 → FrameReassemblerV2
reset r = record r {
  expected_packet_count = 0;
  received_packets_count = 0;
  packet_received = [];
  corrupted_detected = false;
}

-- FrameResult r{} leaves `queue_pressure` false.
pub make_result : FrameReassemblerV2 → FrameState → FrameResult
unfolding is_frame_complete has_gap has_corruption
make_result r final_state = record {
  frame_id = r.current_frame_id;
  state = final_state;
  complete = is_frame_complete r;
  corrupted = has_gap r || has_corruption r;
  queue_pressure = false;
  expected_packets = r.expected_packet_count;
  received_packets = r.received_packets_count;
  frame_size = r.frame_size;
  frame_data = r.frame_buffer;
}
