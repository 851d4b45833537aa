-- ===== src/Manager/Flush.antt =====
-- FrameReassemblerManager: pollFlush and flushAll, which write the frames' files themselves.
use Prim.Native.String.{String}
use hv_frame_test.Base.{
  ℕ, Bool, true, false, not, ◌&&◌, Option, none, some, List, [], ◌∷◌, ◌++◌, if◌then◌else◌,
}
use hv_frame_test.Reassembler
use hv_frame_test.Reassembler.{FrameReassemblerV2}
use hv_frame_test.Writer.{FileWrite, write_frame_to_file}
use hv_frame_test.Manager.State.{FrameReassemblerManager, FrameEntry, elapsed, max_frame_lifetime}

-- write_frame_to_file of an entry's buffer.
unfoldable pub write_entry : (String → Bool) → FrameEntry → Bool → List FileWrite
write_entry can_open e is_partial =
    write_frame_to_file can_open (some (Reassembler.get_frame_data e.reassembler))
      (Reassembler.get_frame_size e.reassembler) is_partial

-- How pollFlush ends a frame: whether it is written as a partial one, or nothing while it waits.
unfoldable pub flush_verdict : FrameEntry → ℕ → Option Bool
flush_verdict e now =
    if Reassembler.is_frame_complete e.reassembler && not (Reassembler.has_gap e.reassembler)
    then some false
    else if elapsed now e.first_packet_time max_frame_lifetime
    then some true
    else none

pub record Flushed : Type 0 where
  pub frames : List (ℕ × FrameEntry)
  pub writes : List FileWrite

unfoldable pub flush_loop : (String → Bool) → ℕ → List (ℕ × FrameEntry) → Flushed
unfolding flush_verdict write_entry
flush_loop can_open now [] = record { frames = []; writes = [] }
flush_loop can_open now ((id, e) ∷ rest) =
    let p = flush_loop can_open now rest in
    elim (flush_verdict e now) [
      | none ↦ record p { frames = (id, e) ∷ p.frames }
      | some is_partial ↦ record p { writes = write_entry can_open e is_partial ++ p.writes }
    ]

unfoldable pub poll_flush :
    (String → Bool) → FrameReassemblerManager → ℕ → FrameReassemblerManager × List FileWrite
unfolding flush_loop
poll_flush can_open m now =
    let p = flush_loop can_open now m.frames in (record m { frames = p.frames }, p.writes)

-- The loop of flushAll.
unfoldable pub flush_entries : (String → Bool) → List (ℕ × FrameEntry) → List FileWrite
unfolding write_entry
flush_entries can_open [] = []
flush_entries can_open ((id, e) ∷ rest) =
    (if Reassembler.has_any_packet e.reassembler then write_entry can_open e true else [])
    ++ flush_entries can_open rest

unfoldable pub flush_all :
    (String → Bool) → FrameReassemblerManager → FrameReassemblerManager × List FileWrite
unfolding flush_entries
flush_all can_open m = (record m { frames = [] }, flush_entries can_open m.frames)
