-- ===== src/Manager/State.antt =====
-- FrameReassemblerManager: its state, the constructor, empty() and pushPacket.
use hv_frame_test.Base.{ℕ, ◌+◌, Bool, true, false, none, some, List, [], ltb}
use hv_frame_test.Base.SortedMap.{find, emplace, adjust}
use hv_frame_test.Protocol.{UdpPacketHeader, RxPacket}
use hv_frame_test.Reassembler
use hv_frame_test.Reassembler.{FrameReassemblerV2}

-- steady_clock counts nanoseconds. A difference of two times is signed there, so `now - t > d` is
-- written `t + d < now`.
abbrev pub elapsed : ℕ → ℕ → ℕ → Bool
elapsed now since duration = ltb (since + duration) now

-- MAX_FRAME_LIFETIME, 8000 ms, and FRAME_IDLE_TIMEOUT, 30 ms.
abbrev pub max_frame_lifetime : ℕ
max_frame_lifetime = 8_000_000_000

abbrev pub frame_idle_timeout : ℕ
frame_idle_timeout = 30_000_000

pub record FrameEntry : Type 0 where
  pub reassembler : FrameReassemblerV2
  pub first_packet_time : ℕ
  pub last_update : ℕ
  pub queue_drop_at_start : ℕ

-- The uint64_t counters.
pub record Stats : Type 0 where
  pub total : ℕ
  pub complete : ℕ
  pub partial : ℕ

-- `has_handler` tells whether onFrameDone is set; the calls that it gets are results of the methods.
pub record FrameReassemblerManager : Type 0 where
  pub max_frame_size : ℕ
  pub payload_stride : ℕ
  pub frames : List (ℕ × FrameEntry)
  pub has_handler : Bool
  pub stats : Stats

unfoldable pub init : ℕ → ℕ → FrameReassemblerManager
init max_frame_size payload_stride = record {
  max_frame_size = max_frame_size;
  payload_stride = payload_stride;
  frames = [];
  has_handler = false;
  stats = record { total = 0; complete = 0; partial = 0 };
}

unfoldable empty : FrameReassemblerManager → Bool
empty m = elim m.frames [ [] ↦ true | _ ↦ false ]

-- The entry that pushPacket makes for a frame whose first packet this is.
unfoldable pub new_entry : FrameReassemblerManager → UdpPacketHeader → ℕ → ℕ → FrameEntry
new_entry m hdr queue_drop_count now = record {
  reassembler =
      Reassembler.start_new_frame (Reassembler.init m.max_frame_size m.payload_stride) hdr.frame_id
        hdr.packet_count;
  first_packet_time = now;
  last_update = now;
  queue_drop_at_start = queue_drop_count;
}

-- What it does to the frame's entry, new or not.
unfoldable pub receive : RxPacket → ℕ → FrameEntry → FrameEntry
receive pkt now e = record e {
  reassembler = Reassembler.push_packet e.reassembler pkt.hdr pkt.payload pkt.gap_before;
  last_update = now;
}

-- The entries with one for the packet's frame among them.
unfoldable pub with_entry : FrameReassemblerManager → RxPacket → ℕ → ℕ → List (ℕ × FrameEntry)
with_entry m pkt queue_drop_count now = elim (find pkt.hdr.frame_id m.frames) [
  | none ↦ emplace pkt.hdr.frame_id (new_entry m pkt.hdr queue_drop_count now) m.frames
  | some e ↦ m.frames
]

-- `now` is what the clock says in the call.
unfoldable pub push_packet : FrameReassemblerManager → RxPacket → ℕ → ℕ → FrameReassemblerManager
unfolding with_entry receive
push_packet m pkt queue_drop_count now = record m {
  frames = adjust pkt.hdr.frame_id (receive pkt now) (with_entry m pkt queue_drop_count now);
}
