-- ===== src/FrameResult.antt =====
-- include/common/frame_result.hpp and src/common/frame_result.cpp: what is known of a frame when it
-- leaves the reassembler, and the statistics of a stream of such results.
pub mod Counts
pub mod Logged
use Prim.Native.String.{String}
use hv_frame_test.Base.{ℕ, Bool, List, [], ◌==◌, inc64, add_size, if◌then◌else◌}
use hv_frame_test.HvDebug.{HvDebug, hv_logi, frame_module}

pub data FrameState : Type 0 where
  receiving complete_frame partial_frame emitted : FrameState

-- `frame_data` is the buffer behind the pointer, as it is when the result is made.
pub record FrameResult : Type 0 where
  pub frame_id : ℕ
  pub state : FrameState
  pub complete : Bool
  pub corrupted : Bool
  pub queue_pressure : Bool
  pub expected_packets : ℕ
  pub received_packets : ℕ
  pub frame_size : ℕ
  pub frame_data : List ℕ

-- The counters are uint64_t.
pub record FrameStreamStats : Type 0 where
  pub frames_total : ℕ
  pub frames_complete : ℕ
  pub frames_partial : ℕ
  pub partial_due_to_queue : ℕ
  pub partial_due_to_gap : ℕ
  pub packets_expected : ℕ
  pub packets_received : ℕ

-- The branches of FrameStreamStats::update on the state.
count_state : FrameState → Bool → FrameStreamStats → FrameStreamStats
count_state FrameState.complete_frame pressure s = record s {
  frames_complete = inc64 s.frames_complete;
}
count_state FrameState.partial_frame pressure s =
    if pressure
    then record s {
      frames_partial = inc64 s.frames_partial;
      partial_due_to_queue = inc64 s.partial_due_to_queue;
    }
    else record s {
      frames_partial = inc64 s.frames_partial;
      partial_due_to_gap = inc64 s.partial_due_to_gap;
    }
count_state FrameState.receiving pressure s = s
count_state FrameState.emitted pressure s = s

pub update : FrameStreamStats → FrameResult → FrameStreamStats
unfolding count_state
update s r = count_state r.state r.queue_pressure (record s {
  frames_total = inc64 s.frames_total;
  packets_expected = add_size s.packets_expected r.expected_packets;
  packets_received = add_size s.packets_received r.received_packets;
})

-- `text` formats the counters.
unfoldable pub log : HvDebug → (FrameStreamStats → String) → FrameStreamStats → List String
log d text s = if s.frames_total == 0 then [] else hv_logi d frame_module (text s)
