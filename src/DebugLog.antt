-- ===== src/DebugLog.antt =====
-- src/debug/debug_log.cpp and include/debug/debug_log.hpp, as DEBUG_LOG_ENABLE builds them: the
-- counters, and a ring of the last packets that were traced.
pub mod Ring
pub mod Sources
pub mod Missing
pub mod Tracers
pub mod Crossing
use Prim.Native.Nat.{bit_and}
use Prim.Native.String.{String}
use hv_frame_test.Base.{
  ℕ, zero, suc, ◌+◌, ◌-◌, ◌%◌, Bool, Option, none, some, List, [], ◌∷◌, ltb, if◌then◌else◌, get_or,
  set, replicate, inc64, u64_mod,
}

-- TRACE_RING_SIZE.
abbrev trace_ring_size : ℕ
trace_ring_size = 4096

pub record PacketTraceEntry : Type 0 where
  pub seq : ℕ
  pub frame_id : ℕ
  pub packet_id : ℕ
  pub packet_count : ℕ
  pub payload_size : ℕ
  pub flags : ℕ

pub record Counters : Type 0 where
  rx_packets : ℕ
  rx_bytes : ℕ
  pub frames : ℕ

-- The variables of the file: g, g_ring, g_write_seq and g_last_dropped_frame.
pub record DebugLog : Type 0 where
  pub g : Counters
  pub ring : List PacketTraceEntry
  pub write_seq : ℕ
  last_dropped_frame : ℕ

-- Static storage is zero at the start.
abbrev pub blank : PacketTraceEntry
blank = record {
  seq = 0;
  frame_id = 0;
  packet_id = 0;
  packet_count = 0;
  payload_size = 0;
  flags = 0;
}

unfoldable pub initial : DebugLog
initial = record {
  g = record { rx_packets = 0; rx_bytes = 0; frames = 0 };
  ring = replicate trace_ring_size blank;
  write_seq = 0;
  last_dropped_frame = 0;
}

-- The parameter is a uint32_t.
pub rx_packet : DebugLog → ℕ → DebugLog
rx_packet l bytes = record l {
  g = record l.g { rx_packets = inc64 l.g.rx_packets; rx_bytes = (l.g.rx_bytes + bytes) % u64_mod };
}

unfoldable frame_done : DebugLog → DebugLog
frame_done l = record l { g = record l.g { frames = inc64 l.g.frames } }

unfoldable mark_frame_drop : DebugLog → ℕ → DebugLog
mark_frame_drop l frame_id = record l { last_dropped_frame = frame_id }

-- fetch_add.
unfoldable pub claim : DebugLog → DebugLog
claim l = record l { write_seq = inc64 l.write_seq }

-- The write to the place that the number gives.
unfoldable pub fill : DebugLog → ℕ → PacketTraceEntry → DebugLog
fill l seq e = record l { ring = set l.ring (bit_and seq (trace_ring_size - 1)) e }

pub trace_packet : DebugLog → PacketTraceEntry → DebugLog
unfolding claim fill
trace_packet l e = fill (claim l) l.write_seq e

-- The numbers of one line of the dump. The entry's own `seq` is not printed.
pub record DumpLine : Type 0 where
  pub s : ℕ
  pub frame_id : ℕ
  pub packet_id : ℕ
  pub packet_count : ℕ
  pub payload_size : ℕ
  pub flags : ℕ

abbrev pub line : ℕ → PacketTraceEntry → DumpLine
line s e = record {
  s = s;
  frame_id = e.frame_id;
  packet_id = e.packet_id;
  packet_count = e.packet_count;
  payload_size = e.payload_size;
  flags = e.flags;
}

-- The loop over s, with the number of rounds to go.
pub dump_lines : List PacketTraceEntry → ℕ → ℕ → List DumpLine
dump_lines ring zero s = []
dump_lines ring (suc n) s =
    line s (get_or ring (bit_and s (trace_ring_size - 1)) blank) ∷ dump_lines ring n (s + 1)

-- Where the dump starts, behind `end` entries in all.
abbrev pub dump_start : ℕ → ℕ
dump_start end = if ltb trace_ring_size end then end - trace_ring_size else 0

-- The lines below the heading, if the file can be opened.
pub dump_ring : (String → Bool) → DebugLog → String → Option (List DumpLine)
unfolding dump_lines
dump_ring can_open l path =
    if can_open path
    then some (dump_lines l.ring (l.write_seq - dump_start l.write_seq) (dump_start l.write_seq))
    else none
