-- ===== src/ReassemblerV1.antt =====
-- src/common/frame_reassembler.cpp and its header: the first reassembler, which keeps the packets of
-- one frame in a map. CMakeLists.txt does not build it.
pub mod Keys
pub mod Assembly
pub mod Pop
use mathlib.Core.Option
use hv_frame_test.Base.{
  ℕ, zero, suc, ◌+◌, ◌-◌, ◌/◌, Bool, ◌&&◌, Option, none, some, List, [], ◌++◌, ltb, ◌==◌,
  if◌then◌else◌, take, inc16,
}
use hv_frame_test.Base.SortedMap.{find, emplace}
use hv_frame_test.Protocol.{UdpPacketHeader}

-- The unordered_map is the list of its entries in the order of their keys: the code never iterates
-- over it.
pub record FrameReassembler : Type 0 where
  pub current_frame_id : ℕ
  pub expected_packet_count : ℕ
  pub packets : List (ℕ × List ℕ)
  pub received_packet_count : ℕ
  pub frame_start_time : ℕ

unfoldable pub reset : FrameReassembler → FrameReassembler
reset r = record r {
  current_frame_id = 0xFFFFFFFF;
  expected_packet_count = 0;
  received_packet_count = 0;
  packets = [];
}

-- The constructor.
unfoldable pub make : FrameReassembler
unfolding reset
make = reset (record {
  current_frame_id = 0;
  expected_packet_count = 0;
  packets = [];
  received_packet_count = 0;
  frame_start_time = 0;
})

unfoldable pub start_new_frame : FrameReassembler → ℕ → ℕ → ℕ → FrameReassembler
unfolding reset
start_new_frame r frame_id packet_count now = record (reset r) {
  current_frame_id = frame_id;
  expected_packet_count = packet_count;
  frame_start_time = now;
}

-- The time in whole milliseconds against FRAME_TIMEOUT_MS. A clock that does not go back.
unfoldable pub is_timeout : FrameReassembler → ℕ → Bool
is_timeout r now = ltb 5000 ((now - r.frame_start_time) / 1_000_000)

-- What pushPacket does once the object is at the packet's frame.
unfoldable pub accept : FrameReassembler → UdpPacketHeader → List ℕ → ℕ → FrameReassembler
unfolding reset is_timeout
accept r hdr payload now =
    if is_timeout r now then reset r else elim (find hdr.packet_id r.packets) [
      | some old ↦ r
      | none ↦ record r {
        packets = emplace hdr.packet_id (take hdr.payload_size payload) r.packets;
        received_packet_count = inc16 r.received_packet_count;
      }
    ]

-- The clock is read when a frame starts, and for the time limit.
unfoldable pub push_packet : FrameReassembler → UdpPacketHeader → List ℕ → ℕ → ℕ → FrameReassembler
unfolding accept start_new_frame
push_packet r hdr payload start_time check_time =
    accept
      (if hdr.frame_id == r.current_frame_id
        then r
        else start_new_frame r hdr.frame_id hdr.packet_count start_time)
      hdr payload check_time

unfoldable pub frame_complete : FrameReassembler → Bool
frame_complete r =
    ltb 0 r.expected_packet_count && r.received_packet_count == r.expected_packet_count

-- The loop of popFrame over `k` packet numbers from `i` on; `none` when one is missing.
unfoldable pub collect : List (ℕ × List ℕ) → ℕ → ℕ → Option (List ℕ)
collect packets i zero = some []
collect packets i (suc k) = elim (find i packets) [
  | none ↦ none
  | some part ↦ Option.map (λ rest. part ++ rest) (collect packets (i + 1) k)
]

unfoldable pub pop_frame : FrameReassembler → FrameReassembler × List ℕ
unfolding frame_complete collect reset
pop_frame r =
    if frame_complete r
    then (reset r, Option.get_or (collect r.packets 0 r.expected_packet_count) [])
    else (r, [])
